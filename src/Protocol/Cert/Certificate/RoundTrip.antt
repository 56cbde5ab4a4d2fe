-- ===== src/Protocol/Cert/Certificate/RoundTrip.antt =====
-- Certificates are read back, whole or from a handshake.
use mathlib.Core.List.{append-nil}
use nebula_rs.Prelude.{
  ℕ, ◌+◌, ◌^◌, ◌<◌, ◌≤◌, ◌≡◌, refl, sym, ap, ◌∙◌, true, not, none, some, [], ◌∷◌, ◌++◌, arith,
  length, length-append, nat_eq, if◌then◌else◌,
}
use nebula_rs.Prelude.Bytes.{Bytes}
use nebula_rs.Prelude.Result.{ok}
use nebula_rs.Protocol.Cert.Der.{length_bytes, tlv, read_tlv, read_tlv_raw}
use nebula_rs.Protocol.Cert.Der.Tlv.{read_tlv-tlv, read_tlv_raw-tlv}
use nebula_rs.Protocol.Cert.Values.{Curve, curve25519, p256, curve_to_byte, is_curve25519}
use nebula_rs.Protocol.Cert.Details.{tlv_if, details_body, encode_details, decode_details}
use nebula_rs.Protocol.Cert.Details.Items.{starts_other, read_tlv_opt-tlv_if, length-tlv-ge}
use nebula_rs.Protocol.Cert.Details.RoundTrip.{IsDetails, decode_details-encode_details}
use nebula_rs.Protocol.Cert.Certificate.{
  Certificate, curve_of, decode_certificate, encode_certificate, encode_for_handshake, recombine,
}

-- A certificate that a CA has made: the kept bytes are those of the details.
pub record IsCertificate (c : Certificate) : Type 0 where
  pub details_valid : IsDetails c.details
  pub raw : c.raw_details ≡ encode_details c.details
  pub fits :
      length c.raw_details + length (tlv 0x82 c.public_key) + length (tlv 0x83 c.signature) + 16
      < 2 ^ 64

read_last :
    (tag : ℕ) (content : Bytes)
    → length content < 2 ^ 64
    → read_tlv tag (tlv tag content) ≡ ok (content, [])
read_last tag content lt =
    ap (read_tlv tag) (sym (append-nil (tlv tag content))) ∙ read_tlv-tlv tag content [] lt

curve_back :
    (c : Curve)
    → curve_of (if not (is_curve25519 c) then some (curve_to_byte c ∷ []) else none) ≡ ok c
curve_back curve25519 = refl
curve_back p256 = refl

curve_size : (c : Curve) → length (tlv_if (not (is_curve25519 c)) 0x81 (curve_to_byte c ∷ [])) ≤ 16
unfolding tlv_if tlv
curve_size curve25519 = omega arith
curve_size p256 = unfold length_bytes in omega arith

module _ (c : Certificate) (v : IsCertificate c) where
  abbrev keys : Bytes
  keys = tlv 0x82 c.public_key ++ tlv 0x83 c.signature

  abbrev curve_tlv : Bytes
  curve_tlv = tlv_if (not (is_curve25519 c.curve)) 0x81 (curve_to_byte c.curve ∷ [])

  read_raw : (rest : Bytes) → read_tlv_raw 0xa0 (c.raw_details ++ rest) ≡ ok (c.raw_details, rest)
  unfolding encode_details
  read_raw rest =
      rw v.raw (read_tlv_raw-tlv 0xa0 (details_body c.details) rest v.details_valid.fits)

  read_details : decode_details c.raw_details ≡ ok c.details
  read_details = rw v.raw (decode_details-encode_details c.details v.details_valid)

  keys_other : starts_other 0x81 keys ≡ true
  unfolding tlv
  keys_other = refl

  -- A certificate whose details are in range, whose raw bytes are their encoding and whose size
  -- fits 64 bits is given back by decode from its encoding, for either curve.
  pub decode_certificate-encode_certificate : decode_certificate (encode_certificate c) ≡ ok c
  unfolding decode_certificate encode_certificate
  decode_certificate-encode_certificate =
      let outer = length-append c.raw_details (curve_tlv ++ keys) in
      let middle = length-append curve_tlv keys in
      let inner = length-append (tlv 0x82 c.public_key) (tlv 0x83 c.signature) in
      let small = curve_size c.curve in
      let key = length-tlv-ge 0x82 c.public_key in
      let sig = length-tlv-ge 0x83 c.signature in
      rw
        (
          read_last 0x30 (c.raw_details ++ (curve_tlv ++ keys))
              (omega (arith, v.fits, outer, middle, inner, small)),
          read_raw (curve_tlv ++ keys),
          read_details,
          read_tlv_opt-tlv_if (not (is_curve25519 c.curve)) 0x81 (curve_to_byte c.curve ∷ []) keys
              (omega arith) keys_other,
          curve_back c.curve,
          read_tlv-tlv 0x82 c.public_key (tlv 0x83 c.signature) (omega (arith, v.fits, key)),
          read_last 0x83 c.signature (omega (arith, v.fits, sig)),
        )
        refl

  -- A certificate whose details are in range, whose raw bytes are their encoding and whose size
  -- fits 64 bits is given back by recombine from its handshake form, its key and its curve.
  pub recombine-encode_for_handshake :
      recombine (encode_for_handshake c) c.public_key c.curve ≡ ok c
  unfolding recombine encode_for_handshake
  recombine-encode_for_handshake =
      let size = length-append c.raw_details (tlv 0x83 c.signature) in
      let sig = length-tlv-ge 0x83 c.signature in
      rw
        (
          read_last 0x30 (c.raw_details ++ tlv 0x83 c.signature) (omega (arith, v.fits, size)),
          read_raw (tlv 0x83 c.signature),
          read_details,
          read_last 0x83 c.signature (omega (arith, v.fits, sig)),
        )
        refl
