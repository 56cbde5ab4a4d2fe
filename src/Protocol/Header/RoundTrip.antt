-- ===== src/Protocol/Header/RoundTrip.antt =====
-- Encoding and parsing of the header are inverse to each other.
use Prim.Native.Nat.{bit_and, bit_or}
use nebula_rs.Prelude.{
  ℕ, ◌+◌, ◌*◌, ◌/◌, ◌%◌, ◌^◌, ◌<◌, ◌≤◌, ◌≡◌, refl, sym, ap, ◌∙◌, [], ◌∷◌, ◌++◌, false, arith,
  length, slice, take, drop, ltb, take-append-drop, length-take, length-drop, All-take, All-drop,
  drop-drop, take_all,
}
use nebula_rs.Prelude.Bits.{bit_and-mask, or_step, or_zero}
use nebula_rs.Prelude.Bytes.{
  Bytes, IsBytes, be_bytes, from_be_bytes, from_be_bytes-be_bytes, push_be, be_bytes-from_be_bytes,
}
use nebula_rs.Prelude.Result.{ok, err}
use nebula_rs.Protocol.Error.{header_too_short}
use nebula_rs.Protocol.Header.{Header, encode_header, parse_header}

pub record IsHeader (h : Header) : Type 0 where
  pub version_lt : h.version < 2 ^ 4
  pub type_lt : h.type_ < 2 ^ 4
  pub subtype_lt : h.subtype < 2 ^ 8
  pub remote_index_lt : h.remote_index < 2 ^ 32
  pub message_counter_lt : h.message_counter < 2 ^ 64

pub low_nibble : (x : ℕ) → bit_and x 0x0f ≡ x % 16
low_nibble x = bit_and-mask 4 x

join_nibbles : (x y : ℕ) → y < 16 → bit_or (x * 16 % 256) y ≡ x % 16 * 16 + y
join_nibbles x y lt =
    let a = x * 16 % 256 in
    let top : y / 2 / 2 / 2 / 2 ≡ 0 = omega arith in
    omega (
      arith,
      or_step a y,
      or_step (a / 2) (y / 2),
      or_step (a / 2 / 2) (y / 2 / 2),
      or_step (a / 2 / 2 / 2) (y / 2 / 2 / 2),
      ap (bit_or (a / 2 / 2 / 2 / 2)) top,
      or_zero (a / 2 / 2 / 2 / 2),
    )

first_byte : (v t : ℕ) → bit_or (v * 2 ^ 4 % 2 ^ 8) (bit_and t 0x0f) ≡ v % 16 * 16 + t % 16
first_byte v t = rw (low_nibble t) (join_nibbles v (t % 16) (omega arith))

-- A header whose fields fit their widths is read back from its encoding, whatever bytes follow.
pub parse_header-encode_header :
    (h : Header) (rest : Bytes) → IsHeader h → parse_header (encode_header h ++ rest) ≡ ok h
unfolding parse_header encode_header push_be
parse_header-encode_header h rest v =
    let b = bit_or (h.version * 16 % 256) (bit_and h.type_ 15) in
    let long : ltb (length (encode_header h ++ rest)) 16 ≡ false = ground arith in
    let version : bit_and (b / 16) 15 ≡ h.version =
      low_nibble (b / 16) ∙ omega (arith, v, first_byte h.version h.type_) in
    let type_ : bit_and b 15 ≡ h.type_ =
      low_nibble b ∙ omega (arith, v, first_byte h.version h.type_) in
    rw
      (
        long,
        version,
        type_,
        from_be_bytes-be_bytes 4 h.remote_index v.remote_index_lt,
        from_be_bytes-be_bytes 8 h.message_counter v.message_counter_lt,
      )
      refl

pub parse_header_short :
    (b : Bytes) → length b < 16 → parse_header b ≡ err (header_too_short 16 (length b))
unfolding parse_header
parse_header_short b lt = ground arith

-- The bytes of a field read from `b`, written back.
field_back :
    (a w : ℕ) (b : Bytes)
    → IsBytes b
    → a + w ≤ length b
    → be_bytes w (from_be_bytes (take w (drop a b))) ≡ take w (drop a b)
field_back a w b v le =
    let count : length (take w (drop a b)) ≡ w =
      length-take w (drop a b) (omega (arith, length-drop a b)) in
    ap (λ k. be_bytes k (from_be_bytes (take w (drop a b)))) (sym count)
    ∙ be_bytes-from_be_bytes (take w (drop a b)) (All-take _ w _ (All-drop _ a b v))

-- A list in three pieces.
pieces :
    (i j k : ℕ) (b : Bytes)
    → length b ≡ i + j + k
    → take i b ++ (take j (drop i b) ++ take k (drop (i + j) b)) ≡ b
pieces i j k b n =
    let count : k ≡ length (drop (i + j) b) = omega (arith, length-drop (i + j) b) in
    ap (λ t. take i b ++ (take j (drop i b) ++ t))
      (ap (λ m. take m (drop (i + j) b)) count ∙ take_all _ ∙ sym (drop-drop j i b))
    ∙ ap (λ t. take i b ++ t) (take-append-drop j (drop i b))
    ∙ take-append-drop i b

byte_back :
    (x : ℕ) → x < 256 → bit_or (bit_and (x / 16) 15 * 16 % 256) (bit_and (bit_and x 15) 15) ≡ x
byte_back x lt =
    omega
      (arith, first_byte (bit_and (x / 16) 15) (bit_and x 15), low_nibble (x / 16), low_nibble x)

fields_back :
    (b : Bytes)
    → IsBytes b
    → length b ≡ 14
    → from_be_bytes (take 2 b) ≡ 0
    → be_bytes 2 0
        ++ (be_bytes 4 (from_be_bytes (take 4 (drop 2 b)))
            ++ be_bytes 8 (from_be_bytes (take 8 (drop 6 b))))
      ≡ b
fields_back b v n z =
    let reserved : be_bytes 2 0 ≡ take 2 b =
      ap (be_bytes 2) (sym z) ∙ field_back 0 2 b v (omega (arith, n)) in
    rw (reserved, field_back 2 4 b v (omega (arith, n)), field_back 6 8 b v (omega (arith, n)))
      (pieces 2 4 8 b n)

-- 16 bytes with a zero reserved field that parse to a header are the encoding of that header.
pub encode_header-parse_header :
    (b : Bytes) (h : Header)
    → IsBytes b
    → length b ≡ 16
    → from_be_bytes (slice 2 4 b) ≡ 0
    → parse_header b ≡ ok h
    → encode_header h ≡ b
unfolding parse_header encode_header
encode_header-parse_header [] h v n z e = absurd (omega (arith, n))
encode_header-parse_header (x ∷ []) h v n z e = absurd (omega (arith, n))
encode_header-parse_header (x ∷ y ∷ b) h (lt, v) n z e =
    let long : ltb (length (x ∷ y ∷ b)) 16 ≡ false = ground (arith, n) in
    ground (arith, rw long at e, byte_back x lt, fields_back b v.1 (omega (arith, n)) z)
