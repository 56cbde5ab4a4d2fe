-- ===== src/Firewall/Identity.antt =====
-- nebula-firewall/src/identity.rs: what the firewall knows of a peer.
use nebula_rs.Prelude.{Bool, ◌||◌, List, String, any}
use nebula_rs.Net.{IpAddr, IpNet}

pub record PeerIdentity (N : Type 0) : Type 0 where
  pub name : String
  pub groups : List String
  pub ca_name : String
  pub ca_sha : String
  pub vpn_networks : List N
  pub unsafe_networks : List N

module _ {N : Type 0} ⦃net : IpNet N⦄ where
  -- `networks.iter().any(|n| n.contains(&addr))`
  abbrev pub any_contains : List N → IpAddr → Bool
  any_contains nets a = any (λ n. net.contains n a) nets

  unfoldable pub owns : PeerIdentity N → IpAddr → Bool
  owns id a = any_contains id.vpn_networks a || any_contains id.unsafe_networks a
