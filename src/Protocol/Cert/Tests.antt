-- ===== src/Protocol/Cert/Tests.antt =====
-- Runs of the certificate encoding, and the theorems of certificates at a concrete one.
use nebula_rs.Prelude.{◌≡◌, refl, true, false, [], ◌∷◌, arith, string_eq}
use nebula_rs.Prelude.Int.{pos}
use nebula_rs.Prelude.Bytes.{push_be, read_be}
use nebula_rs.Prelude.Result.{ok, err}
use nebula_rs.Net.{v4}
use nebula_rs.Protocol.Error.{cert_expired}
use nebula_rs.Protocol.Cert.Der.{
  significant, length_bytes, tlv, split_at, read_length, read_tlv, read_tlv_raw, read_tlv_opt,
}
use nebula_rs.Protocol.Cert.Values.{
  curve25519, Network, trim, encode_der_int, fill, sign_extend, decode_der_int, encode_network,
  decode_network, utf8_from, from_utf8,
}
use nebula_rs.Protocol.Cert.Details.{
  Details, tlv_if, write_items, read_items, read_group, details_body, encode_details,
  decode_details,
}
use nebula_rs.Protocol.Cert.Details.RoundTrip.{IsDetails}
use nebula_rs.Protocol.Cert.Certificate.{
  Certificate, decode_certificate, encode_certificate, signing_bytes, encode_for_handshake,
  recombine,
}
use nebula_rs.Protocol.Cert.Certificate.RoundTrip.{
  IsCertificate, decode_certificate-encode_certificate, recombine-encode_for_handshake,
}
use nebula_rs.Protocol.Cert.Certificate.Verify.{
  Crypto, is_expired, check_signature, fingerprint, verify_host_cert,
}
use nebula_rs.Protocol.Cert.Certificate.Trust.{Trusted, verify_host_cert-Trusted}

running : Unit {0}
unfolding push_be read_be significant length_bytes tlv split_at read_length read_tlv read_tlv_raw
    read_tlv_opt trim encode_der_int fill sign_extend decode_der_int encode_network decode_network
    utf8_from from_utf8 tlv_if write_items read_items read_group details_body encode_details
    decode_details encode_certificate decode_certificate signing_bytes encode_for_handshake
    recombine is_expired check_signature fingerprint verify_host_cert
running = tt

-- 300 takes two bytes and a marker.
long_length : length_bytes 300 ≡ 0x82 ∷ 1 ∷ 0x2c ∷ []
unfolding running
long_length = refl

-- 128 keeps a zero byte in front, so that it does not read as negative.
padded_int : encode_der_int (pos 128) ≡ 0 ∷ 128 ∷ []
unfolding running
padded_int = refl

abbrev pub host_network : Network
host_network = record { addr = v4 0x0a000001; prefix_len = 24 }

abbrev pub host_details : Details
host_details = record {
  name = 0x68 ∷ 0xc3 ∷ 0xa9 ∷ [];
  networks = host_network ∷ [];
  unsafe_networks = [];
  groups = (0x67 ∷ []) ∷ (0x68 ∷ []) ∷ [];
  is_ca = false;
  not_before = pos 100;
  not_after = pos 200;
  issuer = 7 ∷ [];
}

host_details-IsDetails : IsDetails host_details
unfolding running
host_details-IsDetails = record {
  name_text = refl;
  group_texts = (refl, (refl, tt));
  networks_valid = (record { addr_lt = λ a. (λ e. ground (arith, e), λ e. ground (arith, e)) }, tt);
  unsafe_valid = tt;
  before_i64 = omega arith;
  after_i64 = omega arith;
  fits = omega arith;
}

abbrev pub host_cert : Certificate
host_cert = record {
  details = host_details;
  raw_details = encode_details host_details;
  curve = curve25519;
  public_key = 1 ∷ 2 ∷ 3 ∷ [];
  signature = 4 ∷ 5 ∷ [];
}

host_cert-IsCertificate : IsCertificate host_cert
unfolding running
host_cert-IsCertificate = record {
  details_valid = host_details-IsDetails;
  raw = refl;
  fits = omega arith;
}

decode_certificate-encode_certificate_example :
    decode_certificate (encode_certificate host_cert) ≡ ok host_cert
decode_certificate-encode_certificate_example =
    decode_certificate-encode_certificate host_cert host_cert-IsCertificate

recombine-encode_for_handshake_example :
    recombine (encode_for_handshake host_cert) (1 ∷ 2 ∷ 3 ∷ []) curve25519 ≡ ok host_cert
recombine-encode_for_handshake_example =
    recombine-encode_for_handshake host_cert host_cert-IsCertificate

-- Primitives that accept everything.
instance abbrev pub trusting : Crypto
trusting = record {
  is_key = λ key. true;
  verify = λ key message signature. true;
  digest = λ message. message;
  hex = λ bytes. "";
}

abbrev pub ca_cert : Certificate
ca_cert = record host_cert {
  details = record host_details { is_ca = true };
  public_key = fill 32 1;
}

abbrev pub signed_cert : Certificate
signed_cert = record host_cert { signature = fill 64 2 }

accepts_signed : verify_host_cert signed_cert ca_cert (pos 150) ≡ ok tt
unfolding running
accepts_signed = refl

rejects_expired : verify_host_cert signed_cert ca_cert (pos 201) ≡ err cert_expired
unfolding running
rejects_expired = refl

verify_host_cert-Trusted_example :
    (verify_host_cert signed_cert ca_cert (pos 150) ≡ ok tt → Trusted signed_cert ca_cert (pos 150))
    × (Trusted signed_cert ca_cert (pos 150)
        → verify_host_cert signed_cert ca_cert (pos 150) ≡ ok tt)
verify_host_cert-Trusted_example = verify_host_cert-Trusted signed_cert ca_cert (pos 150)
