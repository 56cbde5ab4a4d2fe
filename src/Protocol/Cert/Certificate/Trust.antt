-- ===== src/Protocol/Cert/Certificate/Trust.antt =====
-- When a host certificate is trusted, written out apart from the code of nebula-protocol/src/cert/verify.rs.
use nebula_rs.Prelude.{
  ℕ, ◌≡◌, ◌≢◌, refl, sym, ap, ◌∙◌, arith, true, false, List, [], ◌∷◌, ◌++◌, string_eq, length,
  is_empty, nat_eq, ◌==◌, ==_iff,
}
use nebula_rs.Prelude.Int.{ℤ, pos, negsuc, ◌≤ℤ◌}
use nebula_rs.Prelude.Bytes.{Bytes}
use nebula_rs.Prelude.Result.{ok}
use nebula_rs.Protocol.Cert.Values.{Curve, curve25519, p256, curve_to_byte, is_curve25519}
use nebula_rs.Protocol.Cert.Certificate.{Certificate, signing_bytes}
use nebula_rs.Protocol.Cert.Certificate.Verify.{
  Crypto, int_ltb, is_expired, check_signature, fingerprint, verify_host_cert,
}

module _ ⦃crypto : Crypto⦄ where
  -- The bytes that a certificate's signature is over, and what its digest is taken of.
  abbrev curve_number : Curve → ℕ
  curve_number curve25519 = 0
  curve_number p256 = 1

  abbrev signed_part : Certificate → Bytes
  signed_part c = c.raw_details ++ (curve_number c.curve ∷ c.public_key)

  -- The first and the last second of a certificate count.
  abbrev pub InForce : Certificate → ℤ → Type 0
  InForce c now_unix = (c.details.not_before ≤ℤ now_unix) × (now_unix ≤ℤ c.details.not_after)

  -- Everything that trust in a host certificate rests on.
  pub record Trusted (cert ca : Certificate) (now_unix : ℤ) : Type 0 where
    pub host : cert.details.is_ca ≡ false
    pub authority : ca.details.is_ca ≡ true
    pub ca_in_force : InForce ca now_unix
    pub in_force : InForce cert now_unix
    pub issued :
        crypto.hex cert.details.issuer ≡ crypto.hex (crypto.digest (signed_part ca ++ ca.signature))
    pub curve : cert.curve ≡ curve25519
    pub key_len : length ca.public_key ≡ 32
    pub key : crypto.is_key ca.public_key ≡ true
    pub signature_len : length cert.signature ≡ 64
    pub signed :
        crypto.verify ca.public_key (cert.raw_details ++ (0 ∷ cert.public_key)) cert.signature
        ≡ true
    pub has_network : cert.details.networks ≢ []

  int_ltb-le : (a b : ℤ) → (int_ltb a b ≡ false → b ≤ℤ a) × (b ≤ℤ a → int_ltb a b ≡ false)
  int_ltb-le (pos m) (pos n) = (λ h. ground (arith, h), λ h. ground (arith, h))
  int_ltb-le (pos m) (negsuc n) = (λ h. tt, λ h. refl)
  int_ltb-le (negsuc m) (pos n) = (λ h. absurd (ground (arith, h)), λ h. absurd h)
  int_ltb-le (negsuc m) (negsuc n) = (λ h. ground (arith, h), λ h. ground (arith, h))

  is_expired-InForce :
      (c : Certificate) (now_unix : ℤ)
      → (is_expired c now_unix ≡ false → InForce c now_unix)
        × (InForce c now_unix → is_expired c now_unix ≡ false)
  unfolding is_expired
  is_expired-InForce c now_unix =
      let (early, early') = int_ltb-le now_unix c.details.not_before in
      let (late, late') = int_ltb-le c.details.not_after now_unix in
      (
        λ h. (early (ground (arith, h)), late (ground (arith, h))),
        λ h. rw (early' h.0, late' h.1) refl,
      )

  fingerprint_lem :
      (c : Certificate) → fingerprint c ≡ crypto.hex (crypto.digest (signed_part c ++ c.signature))
  unfolding fingerprint signing_bytes
  fingerprint_lem c = number c.curve refl
    where
      number :
          (k : Curve)
          → c.curve ≡ k
          → crypto.hex (
              crypto.digest
                ((c.raw_details ++ (curve_to_byte c.curve ∷ c.public_key)) ++ c.signature))
            ≡ crypto.hex (crypto.digest (signed_part c ++ c.signature))
      number curve25519 e = rw e refl
      number p256 e = rw e refl

  curve_is : (c : Curve) → is_curve25519 c ≡ true → c ≡ curve25519
  curve_is curve25519 h = refl
  curve_is p256 h = absurd (ground (arith, h))

  not_empty : {A : Type 0} (xs : List A) → is_empty xs ≡ false → xs ≢ []
  not_empty [] h e = absurd (ground (arith, h))
  not_empty (x ∷ xs) h e = absurd (ground (arith, e))

  empty_not : {A : Type 0} (xs : List A) → xs ≢ [] → is_empty xs ≡ false
  empty_not [] h = absurd (h refl)
  empty_not (x ∷ xs) h = refl

  -- What a success has checked, in the code's own terms.
  record Checked (cert ca : Certificate) (now_unix : ℤ) : Type 0 where
    host : cert.details.is_ca ≡ false
    authority : ca.details.is_ca ≡ true
    ca_valid : is_expired ca now_unix ≡ false
    cert_valid : is_expired cert now_unix ≡ false
    issued : crypto.hex cert.details.issuer == fingerprint ca ≡ true
    curve : is_curve25519 cert.curve ≡ true
    key_len : length ca.public_key ≡ 32
    key : crypto.is_key ca.public_key ≡ true
    signature_len : length cert.signature ≡ 64
    signed : crypto.verify ca.public_key (signing_bytes cert) cert.signature ≡ true
    has_network : is_empty cert.details.networks ≡ false

  verify_host_cert-Checked :
      (cert ca : Certificate) (now_unix : ℤ)
      → (verify_host_cert cert ca now_unix ≡ ok tt → Checked cert ca now_unix)
        × (Checked cert ca now_unix → verify_host_cert cert ca now_unix ≡ ok tt)
  unfolding verify_host_cert check_signature is_expired fingerprint signing_bytes
  verify_host_cert-Checked cert ca now_unix = (
    λ h. record {
      host = ground (arith, h);
      authority = ground (arith, h);
      ca_valid = ground (arith, h);
      cert_valid = ground (arith, h);
      issued = ground (arith, h);
      curve = ground (arith, h);
      key_len = ground (arith, h);
      key = ground (arith, h);
      signature_len = ground (arith, h);
      signed = ground (arith, h);
      has_network = ground (arith, h);
    },
    λ t.
        rw
          (
            t.host, t.authority, t.ca_valid, t.cert_valid, t.issued, t.curve, t.key_len, t.key,
            t.signature_len, t.signed, t.has_network,
          )
          refl,
  )

  signed_bytes :
      (c : Certificate)
      → c.curve ≡ curve25519
      → signing_bytes c ≡ c.raw_details ++ (0 ∷ c.public_key)
  unfolding signing_bytes
  signed_bytes c e = rw e refl

  Checked-Trusted :
      (cert ca : Certificate) (now_unix : ℤ) → Checked cert ca now_unix → Trusted cert ca now_unix
  Checked-Trusted cert ca now_unix t =
      let k = curve_is cert.curve t.curve in
      record {
        host = t.host;
        authority = t.authority;
        ca_in_force = (is_expired-InForce ca now_unix).0 t.ca_valid;
        in_force = (is_expired-InForce cert now_unix).0 t.cert_valid;
        issued = (==_iff _ _).0 t.issued ∙ fingerprint_lem ca;
        curve = k;
        key_len = t.key_len;
        key = t.key;
        signature_len = t.signature_len;
        signed =
            ap (λ b. crypto.verify ca.public_key b cert.signature) (sym (signed_bytes cert k))
            ∙ t.signed;
        has_network = not_empty _ t.has_network;
      }

  Trusted-Checked :
      (cert ca : Certificate) (now_unix : ℤ) → Trusted cert ca now_unix → Checked cert ca now_unix
  Trusted-Checked cert ca now_unix t = record {
    host = t.host;
    authority = t.authority;
    ca_valid = (is_expired-InForce ca now_unix).1 t.ca_in_force;
    cert_valid = (is_expired-InForce cert now_unix).1 t.in_force;
    issued = (==_iff _ _).1 (t.issued ∙ sym (fingerprint_lem ca));
    curve = ap is_curve25519 t.curve;
    key_len = t.key_len;
    key = t.key;
    signature_len = t.signature_len;
    signed =
        ap (λ b. crypto.verify ca.public_key b cert.signature) (signed_bytes cert t.curve)
        ∙ t.signed;
    has_network = empty_not _ t.has_network;
  }

  -- verify_host_cert succeeds exactly if the certificate is no CA and the issuer is one; both are
  -- in force, the first and the last second of their validity included; the issuer field is, in
  -- hex, the digest of the issuer's raw details, the byte of its curve, its public key and its
  -- signature; the curve is Curve25519; the issuer's key has 32 bytes and is one; the signature has
  -- 64 bytes and verifies under that key over the raw details, a zero byte and the public key; and
  -- there is a network.
  pub verify_host_cert-Trusted :
      (cert ca : Certificate) (now_unix : ℤ)
      → (verify_host_cert cert ca now_unix ≡ ok tt → Trusted cert ca now_unix)
        × (Trusted cert ca now_unix → verify_host_cert cert ca now_unix ≡ ok tt)
  verify_host_cert-Trusted cert ca now_unix = (
    λ h. Checked-Trusted cert ca now_unix ((verify_host_cert-Checked cert ca now_unix).0 h),
    λ t. (verify_host_cert-Checked cert ca now_unix).1 (Trusted-Checked cert ca now_unix t),
  )
