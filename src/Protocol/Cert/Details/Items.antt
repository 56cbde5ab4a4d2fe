-- ===== src/Protocol/Cert/Details/Items.antt =====
-- Lists and optional fields in TLVs are read back as they were written.
use nebula_rs.Prelude.{
  ℕ, zero, suc, ◌+◌, ◌^◌, ◌<◌, ◌≤◌, ◌≡◌, refl, Bool, true, false, not, none, some, List, [], ◌∷◌,
  ◌++◌, arith, length, length-append, is_empty, All, nat_eq, ◌==◌, if◌then◌else◌,
}
use nebula_rs.Prelude.Bytes.{Bytes}
use nebula_rs.Prelude.Result.{Result, ok}
use nebula_rs.Protocol.Error.{Error}
use nebula_rs.Protocol.Cert.Der.{tlv, length_bytes, read_tlv, read_tlv_opt}
use nebula_rs.Protocol.Cert.Der.Tlv.{read_tlv-tlv, read_tlv_opt-tlv}
use nebula_rs.Protocol.Cert.Details.{tlv_if, write_items, read_items, read_group}

-- The next TLV, if any, has another tag.
abbrev pub starts_other : ℕ → Bytes → Bool
starts_other tag [] = true
starts_other tag (b ∷ bs) = not (b == tag)

pub read_tlv_opt_absent :
    (tag : ℕ) (rest : Bytes)
    → starts_other tag rest ≡ true
    → read_tlv_opt tag rest ≡ ok (none, rest)
unfolding read_tlv_opt
read_tlv_opt_absent tag [] h = refl
read_tlv_opt_absent tag (b ∷ bs) h = ground (arith, h)

pub starts_other-tlv_if :
    (tag other : ℕ) (b : Bool) (content rest : Bytes)
    → other == tag ≡ false
    → starts_other tag rest ≡ true
    → starts_other tag (tlv_if b other content ++ rest) ≡ true
unfolding tlv_if tlv
starts_other-tlv_if tag other true content rest ne h = ground (arith, ne)
starts_other-tlv_if tag other false content rest ne h = h

pub read_tlv_opt-tlv_if :
    (b : Bool) (tag : ℕ) (content rest : Bytes)
    → length content < 2 ^ 64
    → starts_other tag rest ≡ true
    → read_tlv_opt tag (tlv_if b tag content ++ rest) ≡ ok (if b then some content else none, rest)
unfolding tlv_if
read_tlv_opt-tlv_if true tag content rest lt h = read_tlv_opt-tlv tag content rest lt
read_tlv_opt-tlv_if false tag content rest lt h = read_tlv_opt_absent tag rest h

pub length-tlv-ge : (tag : ℕ) (content : Bytes) → length content + 1 ≤ length (tlv tag content)
unfolding tlv
length-tlv-ge tag content = omega (arith, length-append (length_bytes (length content)) content)

module _ {A : Type 0} (tag : ℕ) (encode : A → Bytes) (decode : Bytes → Result Error A) where
  -- Each element is read back from its own encoding.
  abbrev pub Readable : List A → Type 0
  Readable xs = All (λ x. decode (encode x) ≡ ok x) xs

  pub read_items-write_items :
      (xs : List A) (fuel : ℕ)
      → Readable xs
      → length (write_items tag encode xs) ≤ fuel
      → fuel < 2 ^ 64
      → read_items fuel tag decode (write_items tag encode xs) ≡ ok xs
  unfolding write_items read_items tlv
  read_items-write_items [] fuel v le lt = refl
  read_items-write_items (x ∷ xs) zero v le lt = absurd (omega (arith, le))
  read_items-write_items (x ∷ xs) (suc fuel) (e, v) le lt =
      let rest = write_items tag encode xs in
      let sizes = length-append (tlv tag (encode x)) rest in
      let ge = length-tlv-ge tag (encode x) in
      let next : read_tlv tag (tlv tag (encode x) ++ rest) ≡ ok (encode x, rest) =
        read_tlv-tlv tag (encode x) rest (omega (arith, le, lt, sizes, ge)) in
      rw
        (
          next,
          e,
          read_items-write_items xs fuel v (omega (arith, le, sizes, ge)) (omega (arith, lt)),
        )
        refl

  pub read_group-tlv_if :
      (group : ℕ) (xs : List A) (rest : Bytes)
      → Readable xs
      → length (write_items tag encode xs) < 2 ^ 64
      → starts_other group rest ≡ true
      → read_group group tag decode
          (tlv_if (not (is_empty xs)) group (write_items tag encode xs) ++ rest)
        ≡ ok (xs, rest)
  unfolding read_group write_items
  read_group-tlv_if group [] rest v lt h = rw (read_tlv_opt-tlv_if false group [] rest lt h) refl
  read_group-tlv_if group (x ∷ xs) rest v lt h =
      let items = write_items tag encode (x ∷ xs) in
      rw
        (
          read_tlv_opt-tlv_if true group items rest lt h,
          read_items-write_items (x ∷ xs) (length items) v (omega arith) lt,
        )
        refl
