-- ===== src/Listener/Tests.antt =====
-- Runs of the packet parser, and its theorems at concrete packets.
use nebula_rs.Prelude.{
  ℕ, ◌+◌, ◌<◌, ◌≤◌, ◌≡◌, refl, inr, true, false, none, some, [], ◌∷◌, ◌++◌, arith, length, slice,
}
use nebula_rs.Prelude.Bytes.{Bytes, IsBytes, push_be, read_be, from_be_bytes}
use nebula_rs.Net.{v4, v6}
use nebula_rs.Firewall.Packet.{Packet, Protocol, protocol_from}
use nebula_rs.Prelude.{any, ◌||◌, ◌==◌}
use nebula_rs.Prelude.Result.{ok}
use nebula_rs.Net.{IpAddr, Prefix, prefix_net, addr_eq}
use nebula_rs.Firewall.Identity.{PeerIdentity, owns, any_contains}
use nebula_rs.Protocol.Cert.Values.{decode_network}
use nebula_rs.Protocol.Session.{PeerInfo}
use nebula_rs.Listener.Identity.{
  collect, to_ipnet, peer_identity, peer_identity-owns, peer_identity_panics,
}
use nebula_rs.Listener.Parse.{
  FiveTuple, read_ports, parse_ipv4, icmp_v6_end, transport_end, fragment_header, step_header,
  ipv6_step, ipv6_walk, parse_ipv6, parse_tuple, orient, parse,
}
use nebula_rs.Listener.Parse.Walk.{Walks, ipv6_walk-Walks}
use nebula_rs.Listener.Parse.Orientation.{reply, parse-reply}
use nebula_rs.Listener.Parse.Fields.{HasPorts, parse-HasPorts}
use nebula_rs.Listener.Parse.Chain.{Extension, transport_tuple, write_chain, parse_ipv6_chain}

unfoldable pub running : Unit {0}
unfolding push_be read_be protocol_from read_ports parse_ipv4 icmp_v6_end transport_end
    fragment_header step_header ipv6_step ipv6_walk parse_ipv6 parse_tuple orient parse write_chain
running = tt

abbrev pub udp_from : ℕ → ℕ → ℕ → ℕ → Bytes
udp_from src dst sport dport =
    0x45 ∷ 0 ∷ 0 ∷ 28 ∷ 0 ∷ 0 ∷ 0 ∷ 0 ∷ 64 ∷ 17 ∷ 0 ∷ 0 ∷ 10 ∷ 0 ∷ 0 ∷ src ∷ 10 ∷ 0 ∷ 0 ∷ dst ∷ 0
    ∷ sport ∷ 0 ∷ dport ∷ []

abbrev query : FiveTuple
query = record {
  src = v4 0x0a000001;
  dst = v4 0x0a000002;
  protocol = Protocol.udp;
  src_port = 99;
  dst_port = 53;
  icmp_identifier = none;
  fragment = false;
}

query_parses : parse_tuple (udp_from 1 2 99 53) ≡ some query
unfolding running
query_parses = refl

answer_parses : parse_tuple (udp_from 2 1 53 99) ≡ some (reply query)
unfolding running
answer_parses = refl

parse-reply_example : parse (udp_from 2 1 53 99) false ≡ parse (udp_from 1 2 99 53) true
parse-reply_example =
    parse-reply (udp_from 1 2 99 53) (udp_from 2 1 53 99) query true query_parses answer_parses

abbrev query_packet : Packet
query_packet = record {
  local_addr = v4 0x0a000002;
  remote_addr = v4 0x0a000001;
  local_port = 53;
  remote_port = 99;
  protocol = Protocol.udp;
  fragment = false;
}

query_packet_parses : parse (udp_from 1 2 99 53) true ≡ some query_packet
unfolding running
query_packet_parses = refl

query-IsBytes : IsBytes (udp_from 1 2 99 53)
query-IsBytes = ground arith

parse-HasPorts_example : HasPorts query_packet
parse-HasPorts_example =
    parse-HasPorts (udp_from 1 2 99 53) true query_packet query-IsBytes query_packet_parses

-- A hop-by-hop header and an authentication header before UDP.
abbrev hop_by_hop : Extension
hop_by_hop = record { kind = 0; units = 0; body = 1 ∷ 4 ∷ 0 ∷ 0 ∷ 0 ∷ 0 ∷ [] }

abbrev authentication : Extension
authentication = record { kind = 51; units = 1; body = 0 ∷ 0 ∷ 0 ∷ 0 ∷ 0 ∷ 1 ∷ 0 ∷ 0 ∷ 0 ∷ 1 ∷ [] }

abbrev udp_header : Bytes
udp_header = 0 ∷ 99 ∷ 0 ∷ 53 ∷ 0 ∷ 8 ∷ 0 ∷ 0 ∷ []

abbrev fixed_header : Bytes
fixed_header =
    0x60 ∷ 0 ∷ 0 ∷ 0 ∷ 0 ∷ 28 ∷ 0 ∷ 64 ∷ 0xfd ∷ 0 ∷ 0 ∷ 0 ∷ 0 ∷ 0 ∷ 0 ∷ 0 ∷ 0 ∷ 0 ∷ 0 ∷ 0 ∷ 0 ∷ 0
    ∷ 0 ∷ 1 ∷ 0xfd ∷ 0 ∷ 0 ∷ 0 ∷ 0 ∷ 0 ∷ 0 ∷ 0 ∷ 0 ∷ 0 ∷ 0 ∷ 0 ∷ 0 ∷ 0 ∷ 0 ∷ 2 ∷ []

abbrev chained : Bytes
chained = fixed_header ++ write_chain (hop_by_hop ∷ authentication ∷ []) 17 udp_header

chained_fits : 40 ≤ length chained
unfolding running
chained_fits = omega arith

parse_ipv6_chain_example :
    parse_ipv6 chained
    ≡ some (
        transport_tuple
          (v6 (from_be_bytes (slice 8 24 chained)))
          (v6 (from_be_bytes (slice 24 40 chained)))
          17
          udp_header)
parse_ipv6_chain_example =
    parse_ipv6_chain chained (hop_by_hop ∷ authentication ∷ []) 17 udp_header
      ((refl, refl), ((refl, refl), tt)) (inr refl) (omega arith) chained_fits refl refl

chained_rounds : length chained < 100 + 6
unfolding running
chained_rounds = omega arith

ipv6_walk-Walks_example :
    Walks chained (v6 1) (v6 2) 6 40 (ipv6_walk chained (v6 1) (v6 2) 100 6 40)
ipv6_walk-Walks_example =
    ipv6_walk-Walks chained (v6 1) (v6 2) 100 6 40 (omega arith) chained_rounds

abbrev peer : PeerInfo
peer = record {
  name = [];
  groups = [];
  networks = record { addr = v4 0x0a000001; prefix_len = 24 } ∷ [];
  unsafe_networks = record { addr = v4 0xc0a80000; prefix_len = 16 } ∷ [];
}

abbrev bad_peer : PeerInfo
bad_peer = record peer { unsafe_networks = record { addr = v4 0; prefix_len = 33 } ∷ [] }

-- The decoder accepts the prefix that the conversion panics on.
decodes_bad_network :
    decode_network (0 ∷ 0 ∷ 0 ∷ 0 ∷ 33 ∷ []) ≡ ok (record { addr = v4 0; prefix_len = 33 })
unfolding running decode_network
decodes_bad_network = refl

peer_identity-owns_example :
    (id : PeerIdentity Prefix) × (peer_identity (λ b. "") peer "" "" ≡ some id)
    × (collect to_ipnet peer.unsafe_networks ≡ some id.unsafe_networks)
    × ((a : IpAddr)
        → owns id a ≡ any (λ n. n.addr == a) peer.networks || any_contains id.unsafe_networks a)
peer_identity-owns_example = peer_identity-owns (λ b. "") peer "" "" (omega arith, tt)

peer_identity_panics_example : peer_identity {N = Prefix} (λ b. "") bad_peer "" "" ≡ none
peer_identity_panics_example = peer_identity_panics (λ b. "") bad_peer "" "" refl
