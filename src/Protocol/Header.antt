-- ===== src/Protocol/Header.antt =====
-- nebula-protocol/src/header.rs: the 16-byte packet header.
pub mod MessageType
pub mod RoundTrip
use Prim.Native.Nat.{bit_and, bit_or}
use nebula_rs.Prelude.{
  ℕ, ◌+◌, ◌*◌, ◌/◌, ◌%◌, ◌^◌, ◌<◌, List, ◌∷◌, ◌++◌, length, get_or, slice, ltb, if◌then◌else◌,
}
use nebula_rs.Prelude.Bytes.{Bytes, be_bytes, from_be_bytes}
use nebula_rs.Prelude.Result.{Result, ok, err}
use nebula_rs.Protocol.Error.{Error, header_too_short}

abbrev pub header_len : ℕ
header_len = 16

abbrev pub version_one : ℕ
version_one = 1

pub record Header : Type 0 where
  pub version : ℕ
  pub type_ : ℕ
  pub subtype : ℕ
  pub remote_index : ℕ
  pub message_counter : ℕ

-- `encode` writes each of the 16 bytes of `out`.
unfoldable pub encode_header : Header → Bytes
encode_header h =
    bit_or (h.version * 2 ^ 4 % 2 ^ 8) (bit_and h.type_ 0x0f)
    ∷ h.subtype
    ∷ (be_bytes 2 0 ++ (be_bytes 4 h.remote_index ++ be_bytes 8 h.message_counter))

unfoldable pub parse_header : Bytes → Result Error Header
parse_header b =
    if ltb (length b) header_len
    then err (header_too_short header_len (length b))
    else ok (record {
      version = bit_and (get_or b 0 0 / 2 ^ 4) 0x0f;
      type_ = bit_and (get_or b 0 0) 0x0f;
      subtype = get_or b 1 0;
      remote_index = from_be_bytes (slice 4 8 b);
      message_counter = from_be_bytes (slice 8 16 b);
    })
