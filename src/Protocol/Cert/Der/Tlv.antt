-- ===== src/Protocol/Cert/Der/Tlv.antt =====
-- What `write_tlv` writes, `read_tlv` reads back.
use Prim.Native.Nat.{bit_and, bit_or}
use mathlib.Core.List.{append_assoc}
use nebula_rs.Prelude.{
  ℕ, ◌+◌, ◌-◌, ◌/◌, ◌%◌, ◌^◌, ◌<◌, ◌≤◌, ◌≡◌, refl, ap, ◌∙◌, inl, inr, false, ◌||◌, none, some, [],
  ◌∷◌, ◌++◌, arith, length, length-append, take-append, drop, ltb, nat_eq, ◌==◌, Bool-cases,
  ==_refl,
}
use nebula_rs.Prelude.Bits.{bit_and-mask, bit-bit_or, bit_and-bit, bit_div}
use nebula_rs.Prelude.Bytes.{
  Bytes, be_bytes, from_be_bytes, from_be_bytes-be_bytes, length-be_bytes, read_be,
}
use nebula_rs.Prelude.Result.{ok}
use nebula_rs.Protocol.Cert.Der.{
  significant, length_bytes, tlv, split_at, read_length, read_tlv, read_tlv_raw, read_tlv_opt,
}

significant_value : (bs : Bytes) → from_be_bytes (significant bs) ≡ from_be_bytes bs
unfolding significant read_be
significant_value [] = refl
significant_value (b ∷ []) = refl
significant_value (b ∷ c ∷ bs) = elim (Bool-cases (b == 0)) [
  | inl z ↦ ground (arith, z, significant_value (c ∷ bs))
  | inr nz ↦ rw nz refl
]

significant-length :
    (bs : Bytes)
    → (length (significant bs) ≤ length bs) × (0 < length bs → 0 < length (significant bs))
unfolding significant
significant-length [] = (omega arith, λ h. h)
significant-length (b ∷ []) = (omega arith, λ h. h)
significant-length (b ∷ c ∷ bs) = ground (arith, significant-length (c ∷ bs))

drop_front : (xs ys : Bytes) → drop (length xs) (xs ++ ys) ≡ ys
drop_front [] ys = refl
drop_front (x ∷ xs) ys = drop_front xs ys

pub split_at-append : (xs ys : Bytes) → split_at (length xs) (xs ++ ys) ≡ ok (xs, ys)
unfolding split_at
split_at-append xs ys = ground (arith, length-append xs ys, take-append xs ys, drop_front xs ys)

-- The high bit and the rest of the first byte of a long length.
low_seven : (x : ℕ) → bit_and x 0x7f ≡ x % 128
low_seven x = bit_and-mask 7 x

high_bit : (x : ℕ) → bit_and x 0x80 == 0 ≡ x / 128 % 2 == 0
high_bit x = bit_and-bit x 7 ∙ ap (λ b. b == 0) (bit_div x 7)

set_high : (x : ℕ) → x < 128 → bit_or 0x80 x ≡ 128 + x
set_high x lt = bit-bit_or 7 x lt

pub read_length-length_bytes :
    (len : ℕ) (rest : Bytes)
    → len < 2 ^ 64
    → read_length (length_bytes len ++ rest) ≡ ok (len, rest)
unfolding read_length length_bytes
read_length-length_bytes len rest lt = elim (Bool-cases (ltb len 0x80)) [
  | inl short ↦ ground (arith, short, high_bit len)
  | inr long ↦
      let bytes = significant (be_bytes 8 len) in
      let count : (0 < length bytes) × (length bytes ≤ 8) =
        ground (arith, significant-length (be_bytes 8 len), length-be_bytes 8 len) in
      let marker : bit_or 0x80 (length bytes) ≡ 128 + length bytes =
        set_high (length bytes) (omega (arith, count)) in
      let is_long : bit_and (bit_or 0x80 (length bytes)) 0x80 == 0 ≡ false =
        high_bit _ ∙ ground (arith, marker, count) in
      let low : bit_and (bit_or 0x80 (length bytes)) 0x7f ≡ length bytes =
        low_seven _ ∙ omega (arith, marker, count) in
      let known : length bytes == 0 || ltb 8 (length bytes) ≡ false = ground (arith, count) in
      rw (long, is_long, low, known, split_at-append bytes rest)
        (ap (λ v. ok (v, rest)) (significant_value _ ∙ from_be_bytes-be_bytes 8 len lt))
]

-- A TLV with content shorter than 2^64 bytes is read back whole, whatever follows it.
pub read_tlv-tlv :
    (tag : ℕ) (content rest : Bytes)
    → length content < 2 ^ 64
    → read_tlv tag (tlv tag content ++ rest) ≡ ok (content, rest)
unfolding read_tlv tlv
read_tlv-tlv tag content rest lt =
    rw
      (
        ==_refl tag,
        append_assoc (length_bytes (length content)) content rest,
        read_length-length_bytes (length content) (content ++ rest) lt,
      )
      (split_at-append content rest)

pub read_tlv_opt-tlv :
    (tag : ℕ) (content rest : Bytes)
    → length content < 2 ^ 64
    → read_tlv_opt tag (tlv tag content ++ rest) ≡ ok (some content, rest)
unfolding read_tlv_opt tlv
read_tlv_opt-tlv tag content rest lt =
    let inner : read_tlv tag (tag ∷ (length_bytes (length content) ++ content ++ rest))
        ≡ ok (content, rest) =
      read_tlv-tlv tag content rest lt in
    rw (==_refl tag, inner) refl

-- A TLV with another tag is left where it is.
pub read_tlv_opt-other :
    (tag other : ℕ) (content rest : Bytes)
    → other == tag ≡ false
    → read_tlv_opt tag (tlv other content ++ rest) ≡ ok (none, tlv other content ++ rest)
unfolding read_tlv_opt tlv
read_tlv_opt-other tag other content rest ne = rw ne refl

pub read_tlv_raw-tlv :
    (tag : ℕ) (content rest : Bytes)
    → length content < 2 ^ 64
    → read_tlv_raw tag (tlv tag content ++ rest) ≡ ok (tlv tag content, rest)
unfolding read_tlv_raw
read_tlv_raw-tlv tag content rest lt =
    let whole = tlv tag content in
    let count : length (whole ++ rest) - length rest ≡ length whole =
      omega (arith, length-append whole rest) in
    rw (read_tlv-tlv tag content rest lt, count, take-append whole rest) refl
