-- ===== src/Protocol/Cert/Der.antt =====
-- nebula-protocol/src/cert/der.rs: tag, length and content. A reader is the bytes that are left, which
-- are `data[pos..]` of the source; `pos` never passes the end.
pub mod Tlv
use Prim.Native.Nat.{bit_and, bit_or}
use nebula_rs.Prelude.{
  ℕ, zero, suc, ◌+◌, ◌-◌, ◌*◌, ◌/◌, ◌%◌, ◌^◌, Bool, true, false, not, ◌&&◌, ◌||◌, Option, none,
  some, List, [], ◌∷◌, ◌++◌, length, take, drop, ltb, leb, nat_eq, ◌==◌, if◌then◌else◌,
}
use nebula_rs.Prelude.Bytes.{Bytes, be_bytes, from_be_bytes}
use nebula_rs.Prelude.Result.{Result, ok, err, ◌>>=◌}
use nebula_rs.Protocol.Error.{Error, der}

-- The bytes from the first that is not 0, or the last.
unfoldable pub significant : Bytes → Bytes
significant [] = []
significant (b ∷ []) = b ∷ []
significant (b ∷ c ∷ bs) = if b == 0 then significant (c ∷ bs) else b ∷ c ∷ bs

unfoldable pub length_bytes : ℕ → Bytes
length_bytes len =
    let bytes = significant (be_bytes 8 len) in
    if ltb len 0x80 then len ∷ [] else bit_or 0x80 (length bytes) ∷ bytes

unfoldable pub tlv : ℕ → Bytes → Bytes
tlv tag content = tag ∷ (length_bytes (length content) ++ content)

-- `self.data.get(self.pos..end)` with what follows it.
unfoldable pub split_at : ℕ → Bytes → Result Error (Bytes × Bytes)
split_at n input = if ltb (length input) n then err der else ok (take n input, drop n input)

unfoldable pub read_length : Bytes → Result Error (ℕ × Bytes)
read_length [] = err der
read_length (first ∷ input) =
    let num_bytes = bit_and first 0x7f in
    if bit_and first 0x80 == 0
    then ok (first, input)
    else if num_bytes == 0 || ltb 8 num_bytes
    then err der
    else split_at num_bytes input >>= λ s. ok (from_be_bytes s.0, s.1)

-- The content of the next TLV, and what follows it.
unfoldable pub read_tlv : ℕ → Bytes → Result Error (Bytes × Bytes)
read_tlv expected_tag [] = err der
read_tlv expected_tag (tag ∷ input) =
    if not (tag == expected_tag) then err der else read_length input >>= λ len. split_at len.0 len.1

-- The TLV with its tag and length.
unfoldable pub read_tlv_raw : ℕ → Bytes → Result Error (Bytes × Bytes)
read_tlv_raw expected_tag input =
    read_tlv expected_tag input >>= λ s. ok (take (length input - length (s.1)) input, s.1)

unfoldable pub read_tlv_opt : ℕ → Bytes → Result Error (Option Bytes × Bytes)
read_tlv_opt expected_tag [] = ok (none, [])
read_tlv_opt expected_tag (tag ∷ input) =
    if tag == expected_tag
    then (read_tlv expected_tag (tag ∷ input) >>= λ s. ok (some s.0, s.1))
    else ok (none, tag ∷ input)
