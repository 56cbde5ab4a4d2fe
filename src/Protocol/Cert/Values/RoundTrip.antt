-- ===== src/Protocol/Cert/Values/RoundTrip.antt =====
-- Integers and networks are read back as they were written.
use Prim.Native.Nat.{bit_and}
use nebula_rs.Prelude.{
  ℕ, zero, suc, ◌-◌, ◌^◌, ◌<◌, ◌≤◌, ◌≡◌, refl, ap, ◌∙◌, inl, inr, true, false, ◌&&◌, [], ◌∷◌, ◌++◌,
  arith, length, is_empty, ltb, nat_eq, ◌==◌, Bool-cases,
}
use nebula_rs.Prelude.Int.{ℤ, pos, negsuc}
use nebula_rs.Prelude.Bytes.{
  Bytes, be_bytes, from_be_bytes, from_be_bytes-be_bytes, length-be_bytes, push_be,
}
use nebula_rs.Prelude.Result.{ok}
use nebula_rs.Net.{IpAddr, v4, v6}
use nebula_rs.Protocol.Cert.Values.{
  to_bits, from_bits, trim, encode_der_int, fill, sign_extend, decode_der_int, Network,
  decode_network, encode_network,
}

abbrev pub IsI64 : ℤ → Type 0
IsI64 (pos n) = n < 2 ^ 63
IsI64 (negsuc n) = n < 2 ^ 63

from_bits-to_bits : (v : ℤ) → IsI64 v → from_bits (to_bits v) ≡ v
from_bits-to_bits (pos n) lt = ground arith
from_bits-to_bits (negsuc n) lt = ground arith

to_bits_lt : (v : ℤ) → IsI64 v → to_bits v < 2 ^ 64
to_bits_lt (pos n) lt = omega arith
to_bits_lt (negsuc n) lt = omega arith

fill_end : (n b : ℕ) (bs : Bytes) → fill (suc n) b ++ bs ≡ fill n b ++ (b ∷ bs)
unfolding fill
fill_end zero b bs = refl
fill_end (suc n) b bs = ap (λ r. b ∷ r) (fill_end n b bs)

trim-length : (bs : Bytes) → (length (trim bs) ≤ length bs) × (is_empty (trim bs) ≡ is_empty bs)
unfolding trim
trim-length [] = (omega arith, refl)
trim-length (b ∷ []) = (omega arith, refl)
trim-length (b ∷ c ∷ bs) = ground (arith, trim-length (c ∷ bs))

-- The dropped zeros are those that the sign extension puts back.
sign_extend-trim : (bs : Bytes) → length bs ≤ 8 → sign_extend (trim bs) ≡ sign_extend bs
unfolding trim sign_extend
sign_extend-trim [] le = refl
sign_extend-trim (b ∷ []) le = refl
sign_extend-trim (b ∷ c ∷ bs) le = elim (Bool-cases (b == 0 && bit_and c 0x80 == 0)) [
  | inr keep ↦ rw keep refl
  | inl zeros ↦
      let zero_byte : b ≡ 0 = ground (arith, zeros) in
      let plain : bit_and c 0x80 == 0 ≡ true = ground (arith, zeros) in
      let more : 8 - length (c ∷ bs) ≡ suc (8 - length (b ∷ c ∷ bs)) = omega (arith, le) in
      rw zeros (
        sign_extend-trim (c ∷ bs) (omega (arith, le))
        ∙ rw (plain, more, zero_byte) (fill_end (8 - length (b ∷ c ∷ bs)) 0 (c ∷ bs)))
]

whole_word : (bs : Bytes) → length bs ≡ 8 → sign_extend bs ≡ bs
unfolding sign_extend fill
whole_word bs n = rw n refl

not_empty : (bs : Bytes) → length bs ≡ 8 → is_empty bs ≡ false
not_empty [] n = absurd (omega (arith, n))
not_empty (b ∷ bs) n = refl

decode_der_int-trim :
    (bs : Bytes) → length bs ≡ 8 → decode_der_int (trim bs) ≡ ok (from_bits (from_be_bytes bs))
unfolding decode_der_int
decode_der_int-trim bs n =
    let (short, same) = trim-length bs in
    let fits : ltb 8 (length (trim bs)) ≡ false = ground (arith, short, n) in
    rw (same, not_empty bs n, fits)
      (ap (λ b. ok (from_bits (from_be_bytes b)))
        (sign_extend-trim bs (omega (arith, n)) ∙ whole_word bs n))

-- Every 64-bit integer, negative ones included, is read back from its encoding.
pub decode_der_int-encode_der_int : (v : ℤ) → IsI64 v → decode_der_int (encode_der_int v) ≡ ok v
unfolding encode_der_int
decode_der_int-encode_der_int v is =
    decode_der_int-trim (be_bytes 8 (to_bits v)) (length-be_bytes 8 (to_bits v))
    ∙ ap (λ n. ok (from_bits n)) (from_be_bytes-be_bytes 8 (to_bits v) (to_bits_lt v is))
    ∙ ap ok (from_bits-to_bits v is)

pub record IsNetwork (n : Network) : Type 0 where
  pub addr_lt : (a : ℕ) → (n.addr ≡ v4 a → a < 2 ^ 32) × (n.addr ≡ v6 a → a < 2 ^ 128)

pub decode_network-encode_network :
    (n : Network) → IsNetwork n → decode_network (encode_network n) ≡ ok n
unfolding decode_network encode_network push_be
decode_network-encode_network n v = go n.addr n.prefix_len v.addr_lt
  where
    go :
        (a : IpAddr) (p : ℕ)
        → ((k : ℕ) → (a ≡ v4 k → k < 2 ^ 32) × (a ≡ v6 k → k < 2 ^ 128))
        → decode_network (encode_network (record { addr = a; prefix_len = p }))
          ≡ ok (record { addr = a; prefix_len = p })
    go (v4 k) p lt =
        ap (λ x. ok (record { addr = v4 x; prefix_len = p }))
          (from_be_bytes-be_bytes 4 k ((lt k).0 refl))
    go (v6 k) p lt =
        ap (λ x. ok (record { addr = v6 x; prefix_len = p }))
          (from_be_bytes-be_bytes 16 k ((lt k).1 refl))
