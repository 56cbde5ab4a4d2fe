-- ===== src/Protocol/Transport/Nonces.antt =====
-- No nonce is used twice.
use nebula_rs.Prelude.{
  ℕ, zero, suc, ◌+◌, ◌%◌, ◌^◌, ◌<◌, ◌≤◌, ◌≡◌, ◌≢◌, sym, ap, ◌∙◌, List, [], ◌∷◌, arith, drop, nat_eq,
}
use nebula_rs.Prelude.Bytes.{
  Bytes, from_be_bytes, read_le, from_be_bytes-be_bytes, read_le-le_bytes,
}
use nebula_rs.Protocol.Transport.{Cipher, aes_gcm, chacha_poly, nonce, Transport, next_counter}

-- Different counters have different nonces, for either cipher.
pub nonce_injective :
    (c : Cipher) (m n : ℕ) → m < 2 ^ 64 → n < 2 ^ 64 → nonce c m ≡ nonce c n → m ≡ n
unfolding nonce
nonce_injective aes_gcm m n lt lt' e =
    sym (from_be_bytes-be_bytes 8 m lt)
    ∙ ap (λ b. from_be_bytes (drop 4 b)) e
    ∙ from_be_bytes-be_bytes 8 n lt'
nonce_injective chacha_poly m n lt lt' e =
    sym (read_le-le_bytes 8 m lt) ∙ ap (λ b. read_le (drop 4 b)) e ∙ read_le-le_bytes 8 n lt'

-- The counters of the next `n` packets, and the nonces they are sealed with.
unfoldable pub next_nonces : ℕ → Transport → List Bytes
next_nonces zero t = []
next_nonces (suc n) t =
    let sent = next_counter t in nonce t.send_cipher.cipher sent.1 ∷ next_nonces n sent.0

abbrev pub NotIn : Bytes → List Bytes → Type 0
NotIn b [] = Unit
NotIn b (x ∷ xs) = (x ≢ b) × NotIn b xs

abbrev pub Distinct : List Bytes → Type 0
Distinct [] = Unit
Distinct (x ∷ xs) = NotIn x xs × Distinct xs

later_differ :
    (n : ℕ) (t : Transport) (m : ℕ)
    → m ≤ t.send_counter
    → t.send_counter + n < 2 ^ 64
    → NotIn (nonce t.send_cipher.cipher m) (next_nonces n t)
unfolding next_nonces next_counter
later_differ zero t m le bound = tt
later_differ (suc n) t m le bound =
    let next : (t.send_counter + 1) % 2 ^ 64 ≡ t.send_counter + 1 = omega arith in
    (
      λ e. absurd (
          omega
            (arith, next, nonce_injective t.send_cipher.cipher _ m (omega arith) (omega arith) e)),
      later_differ n _ m (omega arith) (omega arith),
    )

-- As long as the 64-bit counter does not run out, the packets that a transport numbers one after
-- the other have pairwise different nonces, for either cipher.
pub next_nonces-Distinct :
    (n : ℕ) (t : Transport) → t.send_counter + n < 2 ^ 64 → Distinct (next_nonces n t)
unfolding next_nonces next_counter
next_nonces-Distinct zero t bound = tt
next_nonces-Distinct (suc n) t bound =
    (later_differ n _ _ (omega arith) (omega arith), next_nonces-Distinct n _ (omega arith))
