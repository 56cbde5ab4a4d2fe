-- ===== src/Firewall/RuleSpec.antt =====
-- What a firewall rule means, written without the rule tables: a packet is let through by a rule if
-- direction, protocol, port, certificate authority, peer and local address all fit.
use nebula_rs.Prelude.{
  ℕ, Bool, true, false, not, ◌&&◌, ◌||◌, string_eq, nat_eq, ◌==◌, all, contains, is_empty, leb,
  if◌then◌else◌,
}
use nebula_rs.Net.{IpNet}
use nebula_rs.Firewall.Packet.{Packet, Protocol}
use nebula_rs.Firewall.Identity.{PeerIdentity, any_contains}
use nebula_rs.Firewall.Tree.{some_and}
use nebula_rs.Firewall.Builder.{
  PortSpec, LocalCidrSpec, LocalCidrDefault, RuleArgs, is_none, is_other, is_icmp,
}

-- The port of the packet that a rule looks at: the local one of an incoming packet.
abbrev pub filtered_port : Packet → Bool → ℕ
filtered_port p incoming = if incoming then p.local_port else p.remote_port

-- Port 0 stands for every port, also as the start of a range.
unfoldable pub port_fits : PortSpec → Packet → Bool → Bool
port_fits PortSpec.any p incoming = true
port_fits PortSpec.fragment p incoming = p.fragment
port_fits (PortSpec.single q) p incoming =
    q == 0 || (not p.fragment && q == filtered_port p incoming)
port_fits (PortSpec.range s e) p incoming =
    s == 0
    || (not p.fragment && (leb s (filtered_port p incoming) && leb (filtered_port p incoming) e))

abbrev pub is_valid_port : PortSpec → Bool
is_valid_port PortSpec.any = true
is_valid_port PortSpec.fragment = true
is_valid_port (PortSpec.single q) = true
is_valid_port (PortSpec.range s e) = leb s e

-- `add_rule` accepts a rule exactly when this holds.
unfoldable pub is_valid : {N : Type 0} → RuleArgs N → Bool
is_valid r = is_valid_port r.port && not (is_other r.proto)

unfoldable pub protocol_fits : Protocol → Protocol → Bool
protocol_fits Protocol.any q = true
protocol_fits Protocol.tcp Protocol.tcp = true
protocol_fits Protocol.udp Protocol.udp = true
protocol_fits Protocol.icmp q = is_icmp q
protocol_fits Protocol.icmp_v6 q = is_icmp q
protocol_fits _ q = false

unfoldable pub same_direction : Bool → Bool → Bool
same_direction true incoming = incoming
same_direction false incoming = not incoming

module _ {N : Type 0} ⦃net : IpNet N⦄ where
  -- The local address must lie in the rule's `local_cidr`, or in the default where it has none.
  unfoldable pub local_fits : LocalCidrDefault N → LocalCidrSpec N → Packet → Bool
  local_fits d LocalCidrSpec.any p = true
  local_fits d (LocalCidrSpec.net n) p = net.contains n p.local_addr
  local_fits LocalCidrDefault.any LocalCidrSpec.unset p = true
  local_fits (LocalCidrDefault.nets ns) LocalCidrSpec.unset p = any_contains ns p.local_addr

  -- A rule with no peer condition, or with "any", fits every peer; otherwise one of its conditions
  -- must hold, and of the groups all.
  unfoldable pub peer_fits : RuleArgs N → Packet → PeerIdentity N → Bool
  peer_fits r p remote =
      (is_empty r.groups && (is_none r.host && is_none r.cidr))
      || contains r.groups "any"
      || some_and r.host (λ h. h == "any")
      || (not (is_empty r.groups) && all (contains remote.groups) r.groups)
      || some_and r.host (λ h. h == remote.name)
      || some_and r.cidr (λ c. net.contains c p.remote_addr)

  unfoldable pub ca_fits : RuleArgs N → PeerIdentity N → Bool
  ca_fits r remote =
      (is_none r.ca_sha && is_none r.ca_name)
      || some_and r.ca_sha (λ s. s == remote.ca_sha)
      || some_and r.ca_name (λ n. n == remote.ca_name)

  -- What holds of peer and local address, whatever the port.
  abbrev pub body_fits : LocalCidrDefault N → RuleArgs N → Packet → PeerIdentity N → Bool
  body_fits d r p remote = ca_fits r remote && (peer_fits r p remote && local_fits d r.local_cidr p)

  unfoldable pub rule_allows :
      LocalCidrDefault N → RuleArgs N → Packet → Bool → PeerIdentity N → Bool
  rule_allows d r p incoming remote =
      is_valid r
      && (same_direction r.incoming incoming
          && (protocol_fits r.proto p.protocol
              && ((is_icmp r.proto || port_fits r.port p incoming) && body_fits d r p remote)))
