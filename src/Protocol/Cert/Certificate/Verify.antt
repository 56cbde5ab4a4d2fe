-- ===== src/Protocol/Cert/Certificate/Verify.antt =====
-- nebula-protocol/src/cert/verify.rs: the checks of a host certificate, over the signature and hash of the
-- crates ed25519-dalek, sha2 and hex.
use nebula_rs.Prelude.{
  Bool, true, false, not, ◌||◌, ◌++◌, String, string_eq, length, is_empty, ltb, nat_eq, ◌==◌,
  if◌then◌else◌,
}
use nebula_rs.Prelude.Int.{ℤ, pos, negsuc}
use nebula_rs.Prelude.Bytes.{Bytes}
use nebula_rs.Prelude.Result.{Result, ok, err, ◌>>◌}
use nebula_rs.Protocol.Error.{
  Error, cert_signature_invalid, cert_unsupported_curve, cert_expired, cert_untrusted,
  cert_no_networks,
}
use nebula_rs.Protocol.Cert.Values.{is_curve25519}
use nebula_rs.Protocol.Cert.Certificate.{Certificate, signing_bytes}

-- `is_key`: `VerifyingKey::from_bytes` accepts it; `verify key message signature`; `digest`: SHA-256;
-- `hex`: `hex::encode`.
pub record Crypto : Type 0 where
  pub is_key : Bytes → Bool
  pub verify : Bytes → Bytes → Bytes → Bool
  pub digest : Bytes → Bytes
  pub hex : Bytes → String

abbrev pub int_ltb : ℤ → ℤ → Bool
int_ltb (pos m) (pos n) = ltb m n
int_ltb (pos m) (negsuc n) = false
int_ltb (negsuc m) (pos n) = true
int_ltb (negsuc m) (negsuc n) = ltb n m

unfoldable pub is_expired : Certificate → ℤ → Bool
is_expired c now_unix =
    int_ltb now_unix c.details.not_before || int_ltb c.details.not_after now_unix

module _ ⦃crypto : Crypto⦄ where
  unfoldable pub check_signature : Certificate → Bytes → Result Error (Unit {0})
  check_signature c signer_public_key =
      if not (is_curve25519 c.curve)
      then err cert_unsupported_curve
      else if not (length signer_public_key == 32)
      then err cert_signature_invalid
      else if not (crypto.is_key signer_public_key)
      then err cert_signature_invalid
      else if not (length c.signature == 64)
      then err cert_signature_invalid
      else if crypto.verify signer_public_key (signing_bytes c) c.signature
      then ok tt
      else err cert_signature_invalid

  unfoldable pub fingerprint : Certificate → String
  fingerprint c = crypto.hex (crypto.digest (signing_bytes c ++ c.signature))

  unfoldable pub verify_host_cert : Certificate → Certificate → ℤ → Result Error (Unit {0})
  verify_host_cert cert ca now_unix =
      if cert.details.is_ca || not ca.details.is_ca
      then err cert_signature_invalid
      else if is_expired ca now_unix || is_expired cert now_unix
      then err cert_expired
      else if not (crypto.hex cert.details.issuer == fingerprint ca)
      then err cert_untrusted
      else check_signature cert ca.public_key
        >> (if is_empty cert.details.networks then err cert_no_networks else ok tt)
