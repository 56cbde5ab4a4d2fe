-- ===== src/Protocol/Transport/Delivery.antt =====
-- From the sender's `encrypt` to the receiver's `decrypt`.
use nebula_rs.Prelude.{
  ℕ, ◌+◌, ◌≤◌, ◌≡◌, refl, ap, ◌∙◌, true, false, Option, none, some, List, ◌∷◌, ◌++◌, take-append,
  arith, length, take, drop, if◌then◌else◌, ◌⊎◌, nat_eq, inl, inr, Bool-cases,
}
use nebula_rs.Prelude.Bytes.{Bytes}
use nebula_rs.Prelude.Result.{Result, ok, err}
use nebula_rs.Protocol.Error.{Error, replayed_packet}
use nebula_rs.Protocol.Window.Refinement.{Represents, is_fresh, check_and_update-Represents}
use nebula_rs.Protocol.Window.{check_and_update}
use nebula_rs.Protocol.Transport.{
  Aead, or_decrypt_failed, Transport, CipherImpl, nonce, copy_to, cipher_encrypt, cipher_decrypt,
  written, encrypt, decrypt,
}

module _ ⦃aead : Aead⦄ where
  -- `decrypt` by the counters that the receiver has let through: a packet is refused as a replay
  -- exactly if its counter is not fresh, and the counter of every other packet is used up.
  pub decrypt_lem :
      (counter : ℕ) (aad ciphertext out : Bytes) (t : Transport) (seen : List ℕ)
      → Represents t.replay seen
      → ((decrypt counter aad ciphertext out t).1 ≡ (
          if is_fresh counter seen
          then written out (cipher_decrypt t.recv_cipher counter aad ciphertext)
          else some (out, err replayed_packet)))
        × Represents
            (decrypt counter aad ciphertext out t).0.replay
            (if is_fresh counter seen then counter ∷ seen else seen)
  unfolding decrypt
  decrypt_lem counter aad ciphertext out t seen r =
      let (same, r') = check_and_update-Represents counter t.replay seen r in
      elim (Bool-cases (is_fresh counter seen)) [
        | inl fresh ↦ rw (same, fresh) (refl, rw fresh at r')
        | inr stale ↦ rw (same, stale) (refl, rw stale at r')
      ]

  used_counter :
      (c c' : ℕ) (seen : List ℕ)
      → (c' ≡ c) ⊎ (c' + 1024 ≤ c)
      → is_fresh c' (if is_fresh c seen then c ∷ seen else seen) ≡ false
  unfolding is_fresh
  used_counter c c' seen (inl same) = ground (arith, same)
  used_counter c c' seen (inr old) = ground (arith, old)

  -- If the window represents some counters, then after a call of decrypt with counter c, whatever
  -- its bytes and its outcome, a call with the same counter or one at least 1024 below is refused
  -- as a replay.
  pub decrypt_used :
      (c c' : ℕ) (aad ciphertext out aad' ciphertext' out' : Bytes) (t : Transport) (seen : List ℕ)
      → Represents t.replay seen
      → (c' ≡ c) ⊎ (c' + 1024 ≤ c)
      → (decrypt c' aad' ciphertext' out' (decrypt c aad ciphertext out t).0).1
        ≡ some (out', err replayed_packet)
  decrypt_used c c' aad ciphertext out aad' ciphertext' out' t seen r h =
      let t' = (decrypt c aad ciphertext out t).0 in
      let after = decrypt_lem c aad ciphertext out t seen r in
      let refused = decrypt_lem c' aad' ciphertext' out' t' _ after.1 in
      rw (used_counter c c' seen h) at (refused.0)

  pub written_fits :
      (out b : Bytes)
      → length b ≤ length out
      → written out (ok b) ≡ some (b ++ drop (length b) out, ok (length b))
  unfolding written copy_to
  written_fits out b le = ground (arith, le)

  pub written_ok :
      (out out' : Bytes) (n : ℕ) (r : Result Error Bytes)
      → written out r ≡ some (out', ok n)
      → (b : Bytes) × (r ≡ ok b) × (take n out' ≡ b)
  unfolding written copy_to
  written_ok out out' n (err e) h = absurd (ground (arith, h))
  written_ok out out' n (ok b) h =
      let (buffer, count) = copied in
      (b, refl, rw (buffer, count) (take-append b (drop (length b) out)))
    where
      copied : (out' ≡ b ++ drop (length b) out) × (n ≡ length b)
      copied = ground (arith, h)

  encrypted : (o : Option Bytes) (b : Bytes) → or_decrypt_failed o ≡ ok b → o ≡ some b
  encrypted none b h = absurd (ground (arith, h))
  encrypted (some x) b h = ground (arith, h)

  pub cipher_decrypt-cipher_encrypt :
      (k : CipherImpl) (c : ℕ) (aad msg b : Bytes)
      → cipher_encrypt k c aad msg ≡ ok b
      → cipher_decrypt k c aad b ≡ ok msg
  unfolding cipher_encrypt cipher_decrypt
  cipher_decrypt-cipher_encrypt k c aad msg b h =
      ap or_decrypt_failed
        (aead.decrypt_encrypt k.cipher k.key (nonce k.cipher c) aad msg b (encrypted _ b h))

  -- What encrypt has written with a counter that is fresh for the receiver, decrypt with the same
  -- cipher, key and associated data writes back as the plaintext into a buffer that has room for
  -- it.
  pub decrypt-encrypt :
      (c : ℕ) (aad msg out out' buf : Bytes) (n : ℕ) (s t : Transport) (seen : List ℕ)
      → Represents t.replay seen
      → is_fresh c seen ≡ true
      → t.recv_cipher ≡ s.send_cipher
      → length msg ≤ length buf
      → encrypt c aad msg out s ≡ some (out', ok n)
      → (decrypt c aad (take n out') buf t).1 ≡ some (msg ++ drop (length msg) buf, ok (length msg))
  unfolding encrypt
  decrypt-encrypt c aad msg out out' buf n s t seen r fresh key room h =
      let (b, sealed, same) = written_ok out out' n _ h in
      (decrypt_lem c aad (take n out') buf t seen r).0
      ∙ rw (fresh, key, same, cipher_decrypt-cipher_encrypt s.send_cipher c aad msg b sealed)
          (written_fits buf msg room)

  cipher_decrypt-length :
      (k : CipherImpl) (c : ℕ) (aad ciphertext msg : Bytes)
      → cipher_decrypt k c aad ciphertext ≡ ok msg
      → length msg ≤ length ciphertext
  unfolding cipher_decrypt
  cipher_decrypt-length k c aad ciphertext msg h =
      aead.decrypt_length k.cipher k.key (nonce k.cipher c) aad ciphertext msg (encrypted _ msg h)

  -- A plaintext is no longer than what was written for it.
  pub encrypt_room :
      (c : ℕ) (aad msg out out' : Bytes) (n : ℕ) (s : Transport)
      → encrypt c aad msg out s ≡ some (out', ok n)
      → length msg ≤ length (take n out')
  unfolding encrypt
  encrypt_room c aad msg out out' n s h =
      let (b, sealed, same) = written_ok out out' n _ h in
      rw same (
        cipher_decrypt-length s.send_cipher c aad b msg
          (cipher_decrypt-cipher_encrypt s.send_cipher c aad msg b sealed))

  written_total :
      (out : Bytes) (r : Result Error Bytes)
      → ((b : Bytes) → r ≡ ok b → length b ≤ length out)
      → (w : Bytes × Result Error ℕ) × (written out r ≡ some w)
  unfolding written
  written_total out (err e) fits = ((out, err e), refl)
  written_total out (ok b) fits =
      ((b ++ drop (length b) out, ok (length b)), written_fits out b (fits b refl))

  -- With a buffer as long as the ciphertext, decrypt does not panic.
  pub decrypt_total :
      (c : ℕ) (aad ciphertext out : Bytes) (t : Transport)
      → length ciphertext ≤ length out
      → (w : Bytes × Result Error ℕ) × ((decrypt c aad ciphertext out t).1 ≡ some w)
  unfolding decrypt
  decrypt_total c aad ciphertext out t le = elim (Bool-cases (check_and_update c t.replay).1) [
    | inl passed ↦
        let (w, e) =
          written_total out (cipher_decrypt t.recv_cipher c aad ciphertext)
            (λ b h. omega (arith, le, cipher_decrypt-length t.recv_cipher c aad ciphertext b h)) in
        (w, rw passed e)
    | inr replayed ↦ ((out, err replayed_packet), rw replayed refl)
  ]

  -- With 16 bytes more than the plaintext, encrypt does not panic.
  pub encrypt_total :
      (c : ℕ) (aad msg out : Bytes) (s : Transport)
      → length msg + 16 ≤ length out
      → (w : Bytes × Result Error ℕ) × (encrypt c aad msg out s ≡ some w)
  unfolding encrypt cipher_encrypt
  encrypt_total c aad msg out s le =
      let k = s.send_cipher in
      written_total out (cipher_encrypt k c aad msg) (λ b h. omega (
        arith,
        le,
        aead.encrypt_length k.cipher k.key (nonce k.cipher c) aad msg b (encrypted _ b h),
      ))
