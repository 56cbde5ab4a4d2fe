-- ===== src/Protocol/Transport.antt =====
-- nebula-protocol/src/transport.rs: the encryption of packets, over the AEAD of the crates
-- aes-gcm and chacha20poly1305.
pub mod Nonces
pub mod Delivery
use nebula_rs.Prelude.{
  ℕ, ◌+◌, ◌*◌, ◌%◌, ◌^◌, ◌≤◌, ◌≡◌, Bool, Option, none, some, List, [], ◌∷◌, ◌++◌, length, drop, leb,
  if◌then◌else◌,
}
use nebula_rs.Prelude.Bytes.{Bytes, be_bytes, le_bytes}
use nebula_rs.Prelude.Result.{Result, ok, err}
use nebula_rs.Protocol.Error.{Error, decrypt_failed, replayed_packet}
use nebula_rs.Protocol.Window.{ReplayWindow, replay_window_new, check_and_update}

pub data Cipher : Type 0 where
  aes_gcm chacha_poly : Cipher

-- The crates' AEAD: cipher, key, nonce, associated data, text. What is encrypted decrypts again; the tag
-- takes 16 bytes at most, and a plaintext is no longer than its ciphertext.
pub record Aead : Type 0 where
  pub aead_encrypt : Cipher → Bytes → Bytes → Bytes → Bytes → Option Bytes
  pub aead_decrypt : Cipher → Bytes → Bytes → Bytes → Bytes → Option Bytes
  pub decrypt_encrypt :
      (c : Cipher) (key nonce aad msg ciphertext : Bytes)
      → aead_encrypt c key nonce aad msg ≡ some ciphertext
      → aead_decrypt c key nonce aad ciphertext ≡ some msg
  pub encrypt_length :
      (c : Cipher) (key nonce aad msg ciphertext : Bytes)
      → aead_encrypt c key nonce aad msg ≡ some ciphertext
      → length ciphertext ≤ length msg + 16
  pub decrypt_length :
      (c : Cipher) (key nonce aad ciphertext msg : Bytes)
      → aead_decrypt c key nonce aad ciphertext ≡ some msg
      → length msg ≤ length ciphertext

-- `CipherImpl`: the cipher with its key.
pub record CipherImpl : Type 0 where
  pub cipher : Cipher
  pub key : Bytes

abbrev zeros : Bytes
zeros = 0 ∷ 0 ∷ 0 ∷ 0 ∷ []

unfoldable pub nonce : Cipher → ℕ → Bytes
nonce aes_gcm counter = zeros ++ be_bytes 8 counter
nonce chacha_poly counter = zeros ++ le_bytes 8 counter

-- `out[..b.len()].copy_from_slice(b)`: `none` is a panic on a buffer that is too short.
unfoldable pub copy_to : Bytes → Bytes → Option Bytes
copy_to out b = if leb (length b) (length out) then some (b ++ drop (length b) out) else none

abbrev pub or_decrypt_failed : Option Bytes → Result Error Bytes
or_decrypt_failed none = err decrypt_failed
or_decrypt_failed (some b) = ok b

-- The result is the buffer and the length that was written; `none` is a panic.
unfoldable pub written : Bytes → Result Error Bytes → Option (Bytes × Result Error ℕ)
written out (err e) = some (out, err e)
written out (ok b) = elim (copy_to out b) [ none ↦ none | some out' ↦ some (out', ok (length b)) ]

pub record Transport : Type 0 where
  pub send_cipher : CipherImpl
  pub recv_cipher : CipherImpl
  pub send_counter : ℕ
  pub replay : ReplayWindow

unfoldable pub transport_new : Cipher → Bytes → Bytes → Transport
transport_new cipher send_key recv_key = record {
  send_cipher = record { cipher = cipher; key = send_key };
  recv_cipher = record { cipher = cipher; key = recv_key };
  send_counter = 2;
  replay = replay_window_new;
}

-- The counter is 64 bits wide.
unfoldable pub next_counter : Transport → Transport × ℕ
next_counter t = let n = (t.send_counter + 1) % 2 ^ 64 in (record t { send_counter = n }, n)

module _ ⦃aead : Aead⦄ where
  unfoldable pub cipher_encrypt : CipherImpl → ℕ → Bytes → Bytes → Result Error Bytes
  cipher_encrypt c counter aad plaintext =
      or_decrypt_failed (aead.aead_encrypt c.cipher c.key (nonce c.cipher counter) aad plaintext)

  unfoldable pub cipher_decrypt : CipherImpl → ℕ → Bytes → Bytes → Result Error Bytes
  cipher_decrypt c counter aad ciphertext =
      or_decrypt_failed (aead.aead_decrypt c.cipher c.key (nonce c.cipher counter) aad ciphertext)

  unfoldable pub encrypt : ℕ → Bytes → Bytes → Bytes → Transport → Option (Bytes × Result Error ℕ)
  encrypt counter aad plaintext out t =
      written out (cipher_encrypt t.send_cipher counter aad plaintext)

  -- The window is updated before the packet is authenticated.
  unfoldable pub decrypt :
      ℕ → Bytes → Bytes → Bytes → Transport → Transport × Option (Bytes × Result Error ℕ)
  decrypt counter aad ciphertext out t =
      let checked = check_and_update counter t.replay in
      let t' : Transport = record t { replay = checked.0 } in
      if checked.1
      then (t', written out (cipher_decrypt t.recv_cipher counter aad ciphertext))
      else (t', some (out, err replayed_packet))
