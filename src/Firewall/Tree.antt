-- ===== src/Firewall/Tree.antt =====
-- nebula-firewall/src/rule/tree.rs: the rule tables and their lookup.
use nebula_rs.Prelude.{
  Bool, true, false, ◌&&◌, Option, none, some, List, [], ◌∷◌, String, string_eq, all, contains,
  if◌then◌else◌,
}
use nebula_rs.Prelude.Int.{ℤ, pos, negsuc, int_eq}
use nebula_rs.Prelude.Map.{HashMap, get}
use nebula_rs.Net.{IpNet}
use nebula_rs.Firewall.Packet.{Packet, Protocol}
use nebula_rs.Firewall.Identity.{PeerIdentity, any_contains}

abbrev pub port_any : ℤ
port_any = pos 0

abbrev pub port_fragment : ℤ
port_fragment = negsuc 0

module _ (N : Type 0) where
  pub record LocalCidr : Type 0 where
    pub any : Bool
    pub nets : List N

  pub record PeerRule : Type 0 where
    pub any : Option LocalCidr
    pub hosts : HashMap String LocalCidr
    pub groups : List (List String × LocalCidr)
    pub cidrs : List (N × LocalCidr)

  pub record CaRule : Type 0 where
    pub any : Option PeerRule
    pub ca_names : HashMap String PeerRule
    pub ca_shas : HashMap String PeerRule

  abbrev pub PortTable : Type 0
  PortTable = HashMap ℤ CaRule

  pub record Direction : Type 0 where
    pub tcp : PortTable
    pub udp : PortTable
    pub icmp : PortTable
    pub any_proto : PortTable

  pub record RuleSet : Type 0 where
    pub inbound : Direction
    pub outbound : Direction

-- The key of the first lookup of `port_table_matches`.
abbrev pub lookup_port : Packet → Bool → ℤ
lookup_port p incoming =
    if p.fragment then port_fragment else if incoming then pos p.local_port else pos p.remote_port

-- `if let Some(x) = o && p(x)`
abbrev pub some_and {ℓ} : {A : Type ℓ} → Option A → (A → Bool) → Bool
some_and none p = false
some_and (some a) p = p a

-- `Default::default()`
module _ {N : Type 0} where
  abbrev pub no_local_cidr : LocalCidr N
  no_local_cidr = record { any = false; nets = [] }

  abbrev pub no_peer_rule : PeerRule N
  no_peer_rule = record { any = none; hosts = []; groups = []; cidrs = [] }

  abbrev pub no_ca_rule : CaRule N
  no_ca_rule = record { any = none; ca_names = []; ca_shas = [] }

  abbrev pub no_direction : Direction N
  no_direction = record { tcp = []; udp = []; icmp = []; any_proto = [] }

module _ {N : Type 0} ⦃net : IpNet N⦄ where
  unfoldable pub local_cidr_matches : LocalCidr N → Packet → Bool
  local_cidr_matches lc p = if lc.any then true else any_contains lc.nets p.local_addr

  module _ (p : Packet) (remote : PeerIdentity N) where
    -- The two loops of `PeerRule::matches`: each returns true at the first entry that fits.
    unfoldable pub groups_match : List (List String × LocalCidr N) → Bool
    groups_match [] = false
    groups_match ((gs, lc) ∷ rest) =
        if all (contains remote.groups) gs && local_cidr_matches lc p
        then true
        else groups_match rest

    unfoldable pub cidrs_match : List (N × LocalCidr N) → Bool
    cidrs_match [] = false
    cidrs_match ((n, lc) ∷ rest) =
        if net.contains n p.remote_addr && local_cidr_matches lc p then true else cidrs_match rest

    unfoldable pub peer_rule_matches : PeerRule N → Bool
    peer_rule_matches pr =
        if some_and pr.any (λ lc. local_cidr_matches lc p)
        then true
        else if groups_match pr.groups
        then true
        else if some_and (get remote.name pr.hosts) (λ lc. local_cidr_matches lc p)
        then true
        else if cidrs_match pr.cidrs
        then true
        else false

    unfoldable pub ca_rule_matches : CaRule N → Bool
    ca_rule_matches ca =
        if some_and ca.any peer_rule_matches
        then true
        else if some_and (get remote.ca_sha ca.ca_shas) peer_rule_matches
        then true
        else if some_and (get remote.ca_name ca.ca_names) peer_rule_matches
        then true
        else false

  unfoldable pub port_table_matches : PortTable N → Packet → Bool → PeerIdentity N → Bool
  port_table_matches table p incoming remote =
      if some_and (get (lookup_port p incoming) table) (ca_rule_matches p remote)
      then true
      else if some_and (get port_any table) (ca_rule_matches p remote)
      then true
      else false

  -- The `match packet.protocol` of `Direction::matches`.
  abbrev pub protocol_matches : Protocol → Direction N → Packet → Bool → PeerIdentity N → Bool
  protocol_matches Protocol.tcp d p incoming remote = port_table_matches d.tcp p incoming remote
  protocol_matches Protocol.udp d p incoming remote = port_table_matches d.udp p incoming remote
  protocol_matches Protocol.icmp d p incoming remote = port_table_matches d.icmp p incoming remote
  protocol_matches Protocol.icmp_v6 d p incoming remote =
      port_table_matches d.icmp p incoming remote
  protocol_matches Protocol.any d p incoming remote = false
  protocol_matches (Protocol.other v) d p incoming remote = false

  unfoldable pub direction_matches : Direction N → Packet → Bool → PeerIdentity N → Bool
  direction_matches d p incoming remote =
      if port_table_matches d.any_proto p incoming remote
      then true
      else protocol_matches p.protocol d p incoming remote

  unfoldable pub rule_set_matches : RuleSet N → Packet → Bool → PeerIdentity N → Bool
  rule_set_matches rs p incoming remote =
      direction_matches (if incoming then rs.inbound else rs.outbound) p incoming remote
