-- ===== src/Protocol/Cert/Values.antt =====
-- nebula-protocol/src/cert/der.rs: the values inside the TLVs: integers, curves, networks and texts.
-- A `String` is its UTF-8 bytes.
pub mod RoundTrip
use Prim.Native.Nat.{bit_and}
use nebula_rs.Prelude.{
  ℕ, zero, suc, ◌+◌, ◌-◌, ◌%◌, ◌^◌, Bool, true, false, not, ◌&&◌, ◌||◌, Option, none, some, List,
  [], ◌∷◌, ◌++◌, length, take, get_or, is_empty, ltb, leb, nat_eq, ◌==◌, if◌then◌else◌,
}
use nebula_rs.Prelude.Int.{ℤ, pos, negsuc}
use nebula_rs.Prelude.Bytes.{Bytes, be_bytes, from_be_bytes}
use nebula_rs.Prelude.Result.{Result, ok, err}
use nebula_rs.Net.{IpAddr, v4, v6}
use nebula_rs.Protocol.Error.{Error, der}

-- `i64` and its 64 bits in two's complement.
abbrev pub to_bits : ℤ → ℕ
to_bits (pos n) = n % 2 ^ 64
to_bits (negsuc n) = 2 ^ 64 - 1 - n

abbrev pub from_bits : ℕ → ℤ
from_bits n = if ltb n (2 ^ 63) then pos n else negsuc (2 ^ 64 - 1 - n)

-- The loop of `encode_der_int`.
unfoldable pub trim : Bytes → Bytes
trim [] = []
trim (b ∷ []) = b ∷ []
trim (b ∷ c ∷ bs) =
    let rest = trim (c ∷ bs) in if b == 0 && bit_and c 0x80 == 0 then rest else b ∷ c ∷ bs

unfoldable pub encode_der_int : ℤ → Bytes
encode_der_int v = trim (be_bytes 8 (to_bits v))

unfoldable pub fill : ℕ → ℕ → Bytes
fill zero b = []
fill (suc n) b = b ∷ fill n b

-- The buffer of `decode_der_int`.
unfoldable pub sign_extend : Bytes → Bytes
sign_extend b = fill (8 - length b) (if bit_and (get_or b 0 0) 0x80 == 0 then 0 else 0xff) ++ b

unfoldable pub decode_der_int : Bytes → Result Error ℤ
decode_der_int b =
    if is_empty b || ltb 8 (length b)
    then err der
    else ok (from_bits (from_be_bytes (sign_extend b)))

pub data Curve : Type 0 where
  curve25519 p256 : Curve

abbrev pub curve_from_byte : ℕ → Result Error Curve
curve_from_byte b = if b == 0 then ok curve25519 else if b == 1 then ok p256 else err der

abbrev pub curve_to_byte : Curve → ℕ
curve_to_byte curve25519 = 0
curve_to_byte p256 = 1

abbrev pub is_curve25519 : Curve → Bool
is_curve25519 curve25519 = true
is_curve25519 p256 = false

pub record Network : Type 0 where
  pub addr : IpAddr
  pub prefix_len : ℕ

unfoldable pub decode_network : Bytes → Result Error Network
decode_network b =
    if length b == 5
    then ok (record { addr = v4 (from_be_bytes (take 4 b)); prefix_len = get_or b 4 0 })
    else if length b == 17
    then ok (record { addr = v6 (from_be_bytes (take 16 b)); prefix_len = get_or b 16 0 })
    else err der

abbrev octets : IpAddr → Bytes
octets (v4 a) = be_bytes 4 a
octets (v6 a) = be_bytes 16 a

unfoldable pub encode_network : Network → Bytes
encode_network n = octets n.addr ++ (n.prefix_len ∷ [])

-- What may follow a first byte: how many bytes, and the range of the next one.
abbrev utf8_lead : ℕ → Option (ℕ × ℕ × ℕ)
utf8_lead b =
    if ltb b 0x80
    then some (0, 0x80, 0xbf)
    else if ltb b 0xc2
    then none
    else if ltb b 0xe0
    then some (1, 0x80, 0xbf)
    else if b == 0xe0
    then some (2, 0xa0, 0xbf)
    else if b == 0xed
    then some (2, 0x80, 0x9f)
    else if ltb b 0xf0
    then some (2, 0x80, 0xbf)
    else if b == 0xf0
    then some (3, 0x90, 0xbf)
    else if ltb b 0xf4
    then some (3, 0x80, 0xbf)
    else if b == 0xf4
    then some (3, 0x80, 0x8f)
    else none

unfoldable pub utf8_from : ℕ → ℕ → ℕ → Bytes → Bool
utf8_from zero lo hi [] = true
utf8_from (suc n) lo hi [] = false
utf8_from zero lo hi (b ∷ bs) = elim (utf8_lead b) [
  | none ↦ false
  | some (n, l, h) ↦ utf8_from n l h bs
]
utf8_from (suc n) lo hi (b ∷ bs) = leb lo b && leb b hi && utf8_from n 0x80 0xbf bs

-- `String::from_utf8`
unfoldable pub from_utf8 : Bytes → Result Error Bytes
from_utf8 b = if utf8_from 0 0x80 0xbf b then ok b else err der
