-- ===== src/Listener/Parse/Fields.antt =====
-- What the fields of a parsed packet can be.
use Prim.Native.Nat.{bit_and}
use nebula_rs.Prelude.{
  ℕ, zero, suc, ◌+◌, ◌*◌, ◌/◌, ◌^◌, ◌<◌, ◌≡◌, subst, inl, inr, Bool, true, false, none, some, [],
  ◌∷◌, arith, length, get_or, slice, drop, ltb, nat_eq, ◌==◌, if◌then◌else◌, Option-cases,
  Bool-cases, All-drop,
}
use nebula_rs.Prelude.Bytes.{Bytes, IsBytes, read_be, from_be_bytes}
use nebula_rs.Net.{IpAddr, v6}
use nebula_rs.Firewall.Packet.{Packet, protocol_eq}
use nebula_rs.Listener.Parse.Walk.{WalkStep-cases}
use nebula_rs.Listener.Parse.{
  FiveTuple, finish, icmp_v6_end, transport_end, fragment_header, step_header, ipv6_step, ipv6_walk,
  read_ports, u16_at, parse_ipv4, parse_ipv6, parse_tuple, orient, parse,
}

-- Ports and identifier fit 16 bits, and a fragment has none of them.
pub record WellFormed (t : FiveTuple) : Type 0 where
  pub src_port_lt : t.src_port < 2 ^ 16
  pub dst_port_lt : t.dst_port < 2 ^ 16
  pub identifier_lt : (id : ℕ) → t.icmp_identifier ≡ some id → id < 2 ^ 16
  pub fragment_src : t.fragment ≡ true → t.src_port ≡ 0
  pub fragment_dst : t.fragment ≡ true → t.dst_port ≡ 0
  pub fragment_id : t.fragment ≡ true → t.icmp_identifier ≡ none

get_or_lt : (raw : Bytes) (i : ℕ) → IsBytes raw → get_or raw i 0 < 256
get_or_lt [] i v = omega arith
get_or_lt (b ∷ raw) zero (lt, v) = lt
get_or_lt (b ∷ raw) (suc i) (lt, v) = get_or_lt raw i v

u16_at_lt : (raw : Bytes) (i : ℕ) → IsBytes raw → u16_at raw i < 2 ^ 16
unfolding read_be
u16_at_lt raw i v = omega (arith, get_or_lt raw i v, get_or_lt raw (i + 1) v)

read_ports_lt :
    (l4 : Bytes) → IsBytes l4 → ((read_ports l4).0 < 2 ^ 16) × ((read_ports l4).1 < 2 ^ 16)
unfolding read_ports
read_ports_lt l4 v = elim (Bool-cases (ltb (length l4) 4)) [
  | inl short ↦ rw short (omega arith, omega arith)
  | inr long ↦ rw long (u16_at_lt l4 0 v, u16_at_lt l4 2 v)
]

parse_ipv4-WellFormed :
    (raw : Bytes) (t : FiveTuple) → IsBytes raw → parse_ipv4 raw ≡ some t → WellFormed t
unfolding parse_ipv4
parse_ipv4-WellFormed raw t v h =
    let ihl = bit_and (get_or raw 0 0) 0x0f * 4 in
    let ports = read_ports_lt (drop ihl raw) (All-drop _ ihl raw v) in
    record {
      src_port_lt = ground (arith, h, ports);
      dst_port_lt = ground (arith, h, ports);
      identifier_lt = λ id e. ground (arith, h, e, u16_at_lt raw (ihl + 4) v);
      fragment_src = λ f. ground (arith, h, f);
      fragment_dst = λ f. ground (arith, h, f);
      fragment_id = λ f. ground (arith, h, f);
    }

module _ (raw : Bytes) (src dst : IpAddr) (v : IsBytes raw) where
  ipv6_step-WellFormed :
      (proto_at offset : ℕ) (t : FiveTuple)
      → ipv6_step raw src dst proto_at offset ≡ finish (some t)
      → WellFormed t
  unfolding ipv6_step step_header icmp_v6_end transport_end fragment_header
  ipv6_step-WellFormed proto_at offset t h =
      let ports = read_ports_lt (drop offset raw) (All-drop _ offset raw v) in
      record {
        src_port_lt = ground (arith, h, ports);
        dst_port_lt = ground (arith, h, ports);
        identifier_lt = λ id e. ground (arith, h, e, u16_at_lt raw (offset + 4) v);
        fragment_src = λ f. ground (arith, h, f);
        fragment_dst = λ f. ground (arith, h, f);
        fragment_id = λ f. ground (arith, h, f);
      }

  ipv6_walk-WellFormed :
      (fuel proto_at offset : ℕ) (t : FiveTuple)
      → ipv6_walk raw src dst fuel proto_at offset ≡ some t
      → WellFormed t
  unfolding ipv6_walk
  ipv6_walk-WellFormed zero proto_at offset t h = absurd (ground (arith, h))
  ipv6_walk-WellFormed (suc fuel) proto_at offset t h =
      elim (WalkStep-cases (ipv6_step raw src dst proto_at offset)) [
        | inl (r, e) ↦ ipv6_step-WellFormed proto_at offset t (ground (arith, h, e))
        | inr (n, e) ↦ ipv6_walk-WellFormed fuel offset (offset + n) t (ground (arith, h, e))
      ]

parse_ipv6-WellFormed :
    (raw : Bytes) (t : FiveTuple) → IsBytes raw → parse_ipv6 raw ≡ some t → WellFormed t
unfolding parse_ipv6
parse_ipv6-WellFormed raw t v h =
    ipv6_walk-WellFormed raw (v6 (from_be_bytes (slice 8 24 raw)))
      (v6 (from_be_bytes (slice 24 40 raw))) v (suc (length raw)) 6 40 t (ground (arith, h))

parse_tuple-WellFormed :
    (raw : Bytes) (t : FiveTuple) → IsBytes raw → parse_tuple raw ≡ some t → WellFormed t
unfolding parse_tuple
parse_tuple-WellFormed [] t v h = absurd (ground (arith, h))
parse_tuple-WellFormed (b ∷ rest) t v h = elim (Bool-cases (b / 2 ^ 4 == 4)) [
  | inl four ↦ parse_ipv4-WellFormed (b ∷ rest) t v (rw four at h)
  | inr other ↦ parse_ipv6-WellFormed (b ∷ rest) t v (ground (arith, h, other))
]

abbrev pub HasPorts : Packet → Type 0
HasPorts p =
    (p.local_port < 2 ^ 16)
    × (p.remote_port < 2 ^ 16)
    × (p.fragment ≡ true → (p.local_port ≡ 0) × (p.remote_port ≡ 0))

module _ (t : FiveTuple) (w : WellFormed t) where
  orient-HasPorts : (incoming : Bool) → HasPorts (orient t incoming)
  unfolding orient
  orient-HasPorts incoming = elim (Option-cases t.icmp_identifier) [
    | inl none_of_it ↦ rw none_of_it (by_direction incoming)
    | inr (id, it) ↦
        rw it
          (omega arith, w.identifier_lt id it, λ f. absurd (ground (arith, w.fragment_id f, it)))
  ]
    where
      by_direction :
          (incoming : Bool)
          → ((if incoming then t.dst_port else t.src_port) < 2 ^ 16)
            × ((if incoming then t.src_port else t.dst_port) < 2 ^ 16)
            × (t.fragment ≡ true
                → ((if incoming then t.dst_port else t.src_port) ≡ 0)
                  × ((if incoming then t.src_port else t.dst_port) ≡ 0))
      by_direction true = (w.dst_port_lt, w.src_port_lt, λ f. (w.fragment_dst f, w.fragment_src f))
      by_direction false = (w.src_port_lt, w.dst_port_lt, λ f. (w.fragment_src f, w.fragment_dst f))

-- On bytes, the ports of every parsed packet are below 65536, and both are 0 if the packet is a
-- later fragment.
pub parse-HasPorts :
    (raw : Bytes) (incoming : Bool) (p : Packet)
    → IsBytes raw
    → parse raw incoming ≡ some p
    → HasPorts p
unfolding parse
parse-HasPorts raw incoming p v h = elim (Option-cases (parse_tuple raw)) [
  | inl n ↦ absurd (ground (arith, h, n))
  | inr (t, e) ↦
      let same : orient t incoming ≡ p = ground (arith, h, e) in
      subst HasPorts same (orient-HasPorts t (parse_tuple-WellFormed raw t v e) incoming)
]
