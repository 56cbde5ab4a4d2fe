-- ===== src/Listener/Parse.antt =====
-- nebula-listener/src/packet.rs: the addressing of an IPv4 or IPv6 packet.
pub mod Walk
pub mod Orientation
pub mod Fields
pub mod Chain
use Prim.Native.Nat.{bit_and}
use nebula_rs.Prelude.{
  ℕ, zero, suc, ◌+◌, ◌*◌, ◌/◌, ◌^◌, Bool, true, false, not, ◌&&◌, ◌||◌, Option, none, some, List,
  [], ◌∷◌, length, get_elem?, get_or, slice, drop, ltb, nat_eq, ◌==◌, if◌then◌else◌,
}
use nebula_rs.Prelude.Bytes.{Bytes, from_be_bytes}
use nebula_rs.Net.{IpAddr, v4, v6}
use nebula_rs.Firewall.Packet.{Packet, Protocol, protocol_eq, protocol_from}

pub record FiveTuple : Type 0 where
  pub src : IpAddr
  pub dst : IpAddr
  pub protocol : Protocol
  pub src_port : ℕ
  pub dst_port : ℕ
  pub icmp_identifier : Option ℕ
  pub fragment : Bool

-- `u16::from_be_bytes([raw[i], raw[i + 1]])`, for an index in range.
abbrev pub u16_at : Bytes → ℕ → ℕ
u16_at raw i = from_be_bytes (get_or raw i 0 ∷ get_or raw (i + 1) 0 ∷ [])

unfoldable pub read_ports : Bytes → ℕ × ℕ
read_ports l4 = if ltb (length l4) 4 then (0, 0) else (u16_at l4 0, u16_at l4 2)

abbrev pub has_ports : Protocol → Bool
has_ports p = p == Protocol.tcp || p == Protocol.udp

unfoldable pub parse_ipv4 : Bytes → Option FiveTuple
parse_ipv4 raw =
    let ihl = bit_and (get_or raw 0 0) 0x0f * 4 in
    let frag_offset = bit_and (u16_at raw 6) 0x1fff in
    let protocol = protocol_from (get_or raw 9 0) in
    let first = frag_offset == 0 in
    let need = ihl + (if protocol == Protocol.icmp then 6 else 4) in
    let ports = if first && has_ports protocol then read_ports (drop ihl raw) else (0, 0) in
    if ltb (length raw) 20
    then none
    else if ltb ihl 20 || ltb (length raw) ihl
    then none
    else if first && ltb (length raw) need
    then none
    else some (record {
      src = v4 (from_be_bytes (slice 12 16 raw));
      dst = v4 (from_be_bytes (slice 16 20 raw));
      protocol = protocol;
      src_port = ports.0;
      dst_port = ports.1;
      icmp_identifier =
          if first && protocol == Protocol.icmp then some (u16_at raw (ihl + 4)) else none;
      fragment = not first;
    })

-- One round of the loop of `parse_ipv6`: it returns, or advances to the next header.
pub data WalkStep : Type 0 where
  finish : Option FiveTuple → WalkStep
  advance : ℕ → WalkStep

abbrev pub advance_by : Option ℕ → (ℕ → ℕ) → WalkStep
advance_by none f = finish none
advance_by (some b) f = advance (f b)

module _ (raw : Bytes) (src dst : IpAddr) where
  abbrev pub terminal : Protocol → ℕ × ℕ → Option ℕ → Bool → WalkStep
  terminal protocol ports icmp_identifier fragment = finish (
      some (record {
        src = src;
        dst = dst;
        protocol = protocol;
        src_port = ports.0;
        dst_port = ports.1;
        icmp_identifier = icmp_identifier;
        fragment = fragment;
      }))

  unfoldable pub icmp_v6_end : ℕ → WalkStep
  icmp_v6_end offset =
      let type_ = get_or raw offset 0 in
      let id = if type_ == 128 || type_ == 129 then some (u16_at raw (offset + 4)) else none in
      if ltb (length raw) (offset + 6)
      then finish none
      else terminal Protocol.icmp_v6 (0, 0) id false

  unfoldable pub transport_end : Protocol → ℕ → WalkStep
  transport_end protocol offset =
      if ltb (length raw) (offset + 4)
      then finish none
      else terminal protocol (read_ports (drop offset raw)) none false

  -- The mask is `!0x7` on 16 bits.
  unfoldable pub fragment_header : ℕ → WalkStep
  fragment_header offset =
      let frag_offset = bit_and (u16_at raw (offset + 2)) 0xfff8 in
      if ltb (length raw) (offset + 8)
      then finish none
      else if not (frag_offset == 0)
      then terminal (protocol_from (get_or raw offset 0)) (0, 0) none true
      else advance 8

  unfoldable pub step_header : ℕ → ℕ → WalkStep
  step_header next_header offset =
      let protocol = protocol_from next_header in
      let len = get_elem? raw (offset + 1) in
      if next_header == 50 || next_header == 59
      then terminal protocol (0, 0) none false
      else if next_header == 58
      then icmp_v6_end offset
      else if next_header == 6 || next_header == 17
      then transport_end protocol offset
      else if next_header == 44
      then fragment_header offset
      else if next_header == 51
      then advance_by len (λ b. (b + 2) * 2 ^ 2)
      else advance_by len (λ b. (b + 1) * 2 ^ 3)

  unfoldable pub ipv6_step : ℕ → ℕ → WalkStep
  ipv6_step proto_at offset = elim (get_elem? raw proto_at) [
    | none ↦ finish none
    | some next_header ↦ step_header next_header offset
  ]

  -- The loop. A round that goes on moves `proto_at` up, so the bytes are rounds enough.
  unfoldable pub ipv6_walk : ℕ → ℕ → ℕ → Option FiveTuple
  ipv6_walk zero proto_at offset = none
  ipv6_walk (suc fuel) proto_at offset = elim (ipv6_step proto_at offset) [
    | finish t ↦ t
    | advance n ↦ ipv6_walk fuel offset (offset + n)
  ]

unfoldable pub parse_ipv6 : Bytes → Option FiveTuple
parse_ipv6 raw =
    let src = v6 (from_be_bytes (slice 8 24 raw)) in
    let dst = v6 (from_be_bytes (slice 24 40 raw)) in
    if ltb (length raw) 40 then none else ipv6_walk raw src dst (suc (length raw)) 6 40

unfoldable pub parse_tuple : Bytes → Option FiveTuple
parse_tuple [] = none
parse_tuple (b ∷ rest) =
    if b / 2 ^ 4 == 4
    then parse_ipv4 (b ∷ rest)
    else if b / 2 ^ 4 == 6
    then parse_ipv6 (b ∷ rest)
    else none

-- The assignment of local and remote by direction; an ICMP identifier is always the remote port.
unfoldable pub orient : FiveTuple → Bool → Packet
orient t incoming =
    let local_port = if incoming then t.dst_port else t.src_port in
    let remote_port = if incoming then t.src_port else t.dst_port in
    let ports : ℕ × ℕ = elim t.icmp_identifier [
      | none ↦ (local_port, remote_port)
      | some id ↦ (0, id)
    ] in
    record {
      local_addr = if incoming then t.dst else t.src;
      remote_addr = if incoming then t.src else t.dst;
      local_port = ports.0;
      remote_port = ports.1;
      protocol = t.protocol;
      fragment = t.fragment;
    }

unfoldable pub parse : Bytes → Bool → Option Packet
parse raw incoming = elim (parse_tuple raw) [ none ↦ none | some t ↦ some (orient t incoming) ]
