-- ===== src/Protocol/Cert/Certificate.antt =====
-- nebula-protocol/src/cert/der.rs and verify.rs: `Certificate`.
pub mod RoundTrip
pub mod Verify
pub mod Trust
use nebula_rs.Prelude.{
  ℕ, Bool, true, false, not, Option, none, some, List, [], ◌∷◌, ◌++◌, if◌then◌else◌,
}
use nebula_rs.Prelude.Bytes.{Bytes}
use nebula_rs.Prelude.Result.{Result, ok, err, ◌>>=◌}
use nebula_rs.Protocol.Error.{Error, der}
use nebula_rs.Protocol.Cert.Der.{tlv, read_tlv, read_tlv_raw, read_tlv_opt}
use nebula_rs.Protocol.Cert.Values.{
  Curve, curve25519, curve_from_byte, curve_to_byte, is_curve25519,
}
use nebula_rs.Protocol.Cert.Details.{Details, tlv_if, decode_details}

pub record Certificate : Type 0 where
  pub details : Details
  pub raw_details : Bytes
  pub curve : Curve
  pub public_key : Bytes
  pub signature : Bytes

-- The `match` on the optional curve.
abbrev pub curve_of : Option Bytes → Result Error Curve
curve_of none = ok curve25519
curve_of (some []) = err der
curve_of (some (b ∷ [])) = curve_from_byte b
curve_of (some (b ∷ c ∷ bs)) = err der

unfoldable pub decode_certificate : Bytes → Result Error Certificate
decode_certificate der_bytes = read_tlv 0x30 der_bytes >>= λ envelope.
    read_tlv_raw 0xa0 envelope.0 >>= λ raw. decode_details raw.0 >>= λ details.
    read_tlv_opt 0x81 raw.1 >>= λ curve_tlv. curve_of curve_tlv.0 >>= λ curve.
    read_tlv 0x82 curve_tlv.1 >>= λ public_key. read_tlv 0x83 public_key.1 >>= λ signature.
    ok (record {
      details = details;
      raw_details = raw.0;
      curve = curve;
      public_key = public_key.0;
      signature = signature.0;
    })

unfoldable pub encode_certificate : Certificate → Bytes
encode_certificate c = tlv 0x30 (
    c.raw_details
    ++ (tlv_if (not (is_curve25519 c.curve)) 0x81 (curve_to_byte c.curve ∷ [])
        ++ (tlv 0x82 c.public_key ++ tlv 0x83 c.signature)))

unfoldable pub signing_bytes : Certificate → Bytes
signing_bytes c = c.raw_details ++ (curve_to_byte c.curve ∷ c.public_key)

unfoldable pub encode_for_handshake : Certificate → Bytes
encode_for_handshake c = tlv 0x30 (c.raw_details ++ tlv 0x83 c.signature)

unfoldable pub recombine : Bytes → Bytes → Curve → Result Error Certificate
recombine handshake_bytes peer_public_key curve = read_tlv 0x30 handshake_bytes >>= λ envelope.
    read_tlv_raw 0xa0 envelope.0 >>= λ raw. decode_details raw.0 >>= λ details.
    read_tlv 0x83 raw.1 >>= λ signature. ok (record {
      details = details;
      raw_details = raw.0;
      curve = curve;
      public_key = peer_public_key;
      signature = signature.0;
    })
