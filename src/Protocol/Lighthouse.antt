-- ===== src/Protocol/Lighthouse.antt =====
-- nebula-protocol/src/lighthouse.rs: the messages to and from lighthouses.
pub mod RoundTrip
use nebula_rs.Prelude.{
  ℕ, ◌+◌, ◌*◌, ◌/◌, ◌%◌, ◌^◌, Option, none, some, List, [], ◌∷◌, ◌++◌, map, nat_eq, ◌==◌,
  if◌then◌else◌,
}
use nebula_rs.Prelude.Int.{ℤ, pos}
use nebula_rs.Net.{IpAddr, v4, v6}
use nebula_rs.Protocol.Wire.{Addr, V4AddrPort, V6AddrPort, NebulaMeta, NebulaMetaDetails}

-- The flow label and the scope of a v6 socket address, which no code reads, are left out.
pub record SocketAddr : Type 0 where
  pub ip : IpAddr
  pub port : ℕ

abbrev pub host_query_type : ℤ
host_query_type = pos 1

abbrev pub host_query_reply : ℤ
host_query_reply = pos 2

abbrev pub host_update : ℤ
host_update = pos 3

-- `Ipv4Addr::to_ipv6_mapped`, on the values of the addresses.
abbrev pub to_ipv6_mapped : ℕ → ℕ
to_ipv6_mapped a = 0xffff * 2 ^ 32 + a

abbrev pub to_ipv4_mapped : ℕ → Option ℕ
to_ipv4_mapped a = if a / 2 ^ 32 == 0xffff then some (a % 2 ^ 32) else none

-- The `match` on `v6.to_ipv4_mapped()`.
abbrev pub ip_of_ipv6 : ℕ → IpAddr
ip_of_ipv6 value = elim (to_ipv4_mapped value) [ none ↦ v6 value | some a ↦ v4 a ]

unfoldable pub addr_to_ip : Addr → IpAddr
addr_to_ip addr = ip_of_ipv6 (addr.hi * 2 ^ 64 + addr.lo)

abbrev pub ipv6_of : IpAddr → ℕ
ipv6_of (v4 a) = to_ipv6_mapped a
ipv6_of (v6 a) = a

unfoldable pub ip_to_addr : IpAddr → Addr
ip_to_addr ip = record { hi = ipv6_of ip / 2 ^ 64; lo = ipv6_of ip % 2 ^ 64 }

-- The two vectors that `addr_to_v4_v6` pushes to.
abbrev pub AddrPorts : Type 0
AddrPorts = List V4AddrPort × List V6AddrPort

unfoldable pub addr_to_v4_v6 : SocketAddr → AddrPorts → AddrPorts
addr_to_v4_v6 addr (v4s, v6s) = elim addr.ip [
  | v4 a ↦ (v4s ++ (record { addr = a; port = addr.port } ∷ []), v6s)
  | v6 a ↦ (v4s, v6s ++ (record { hi = a / 2 ^ 64; lo = a % 2 ^ 64; port = addr.port } ∷ []))
]

-- The loop over `reachable_at`.
unfoldable pub push_addrs : List SocketAddr → AddrPorts → AddrPorts
push_addrs [] out = out
push_addrs (addr ∷ addrs) out = push_addrs addrs (addr_to_v4_v6 addr out)

abbrev pub default_details : NebulaMetaDetails
default_details = record {
  old_vpn_addr = 0;
  vpn_addr = none;
  old_relay_vpn_addrs = [];
  relay_vpn_addrs = [];
  v4_addr_ports = [];
  v6_addr_ports = [];
  counter = 0;
}

unfoldable pub host_update_notification : IpAddr → List SocketAddr → NebulaMeta
host_update_notification vpn_addr reachable_at =
    let out = push_addrs reachable_at ([], []) in
    record {
      type_ = host_update;
      details = some (record default_details {
        vpn_addr = some (ip_to_addr vpn_addr);
        v4_addr_ports = out.0;
        v6_addr_ports = out.1;
      });
    }

unfoldable pub host_query : IpAddr → NebulaMeta
host_query vpn_addr = record {
  type_ = host_query_type;
  details = some (record default_details { vpn_addr = some (ip_to_addr vpn_addr) });
}

-- `v4.port as u16` keeps the low 16 bits.
abbrev pub v4_candidate : V4AddrPort → SocketAddr
v4_candidate a = record { ip = v4 a.addr; port = a.port % 2 ^ 16 }

abbrev pub v6_candidate : V6AddrPort → SocketAddr
v6_candidate a = record { ip = v6 (a.hi * 2 ^ 64 + a.lo); port = a.port % 2 ^ 16 }

unfoldable pub candidate_addrs : NebulaMeta → List SocketAddr
candidate_addrs meta = elim meta.details [
  | none ↦ []
  | some details ↦ map v4_candidate details.v4_addr_ports ++ map v6_candidate details.v6_addr_ports
]

-- The address that a message is about, as `handle_lighthouse` of nebula-protocol/src/session.rs reads it.
abbrev pub vpn_addr_of : NebulaMeta → Option IpAddr
vpn_addr_of meta = elim meta.details [
  | none ↦ none
  | some details ↦ elim details.vpn_addr [ none ↦ none | some addr ↦ some (addr_to_ip addr) ]
]
