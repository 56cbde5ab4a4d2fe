-- ===== src/Protocol/Wire.antt =====
-- nebula-protocol/proto/nebula.proto: the messages that the code builds and reads. What prost generates
-- for them, the encoding included, is the record Prost.
use nebula_rs.Prelude.{ℕ, ◌^◌, ◌<◌, ◌≡◌, Option, some, List}
use nebula_rs.Prelude.Int.{ℤ}
use nebula_rs.Prelude.Bytes.{Bytes}
use nebula_rs.Prelude.Result.{Result, ok}
use nebula_rs.Protocol.Error.{Error}

pub record Addr : Type 0 where
  pub hi : ℕ
  pub lo : ℕ

pub record V4AddrPort : Type 0 where
  pub addr : ℕ
  pub port : ℕ

pub record V6AddrPort : Type 0 where
  pub hi : ℕ
  pub lo : ℕ
  pub port : ℕ

pub record NebulaMetaDetails : Type 0 where
  pub old_vpn_addr : ℕ
  pub vpn_addr : Option Addr
  pub old_relay_vpn_addrs : List ℕ
  pub relay_vpn_addrs : List Addr
  pub v4_addr_ports : List V4AddrPort
  pub v6_addr_ports : List V6AddrPort
  pub counter : ℕ

-- An enum field is the `i32` that was read, whether it names a variant or not.
pub record NebulaMeta : Type 0 where
  pub type_ : ℤ
  pub details : Option NebulaMetaDetails

pub record NebulaHandshakeDetails : Type 0 where
  pub cert : Bytes
  pub initiator_index : ℕ
  pub responder_index : ℕ
  pub cookie : ℕ
  pub time : ℕ
  pub cert_version : ℕ

pub record NebulaHandshake : Type 0 where
  pub details : Option NebulaHandshakeDetails
  pub hmac : Bytes

-- The numbers of a handshake message fit the widths of their fields.
pub record FitsWire (d : NebulaHandshakeDetails) : Type 0 where
  pub initiator_lt : d.initiator_index < 2 ^ 32
  pub responder_lt : d.responder_index < 2 ^ 32
  pub cookie_lt : d.cookie < 2 ^ 64
  pub time_lt : d.time < 2 ^ 64
  pub cert_version_lt : d.cert_version < 2 ^ 32

-- `encode_to_vec` and `decode`: a message that fits is read back from its encoding.
pub record Prost : Type 0 where
  pub encode_meta : NebulaMeta → Bytes
  pub decode_meta : Bytes → Result Error NebulaMeta
  pub encode_handshake : NebulaHandshake → Bytes
  pub decode_handshake : Bytes → Result Error NebulaHandshake
  pub decode_encode_handshake :
      (d : NebulaHandshakeDetails) (hmac : Bytes)
      → FitsWire d
      → decode_handshake (encode_handshake (record { details = some d; hmac = hmac }))
        ≡ ok (record { details = some d; hmac = hmac })
