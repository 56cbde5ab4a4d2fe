-- ===== src/Firewall/Builder.antt =====
-- nebula-firewall/src/rule/builder.rs: how `RuleSetBuilder` files a rule in the tables.
pub mod Peer
pub mod Ports
pub mod Sound
pub mod Policy
use nebula_rs.Prelude.{
  ℕ, Bool, true, false, not, ◌&&◌, ◌||◌, Option, none, some, List, [], ◌∷◌, ◌++◌, String, string_eq,
  ◌==◌, contains, is_empty, length, leb, ltb, if◌then◌else◌,
}
use nebula_rs.Prelude.Int.{ℤ, pos, int_eq, inclusive}
use nebula_rs.Prelude.Map.{update_entry, unwrap_or}
use nebula_rs.Prelude.Result.{Result, ok, err}
use nebula_rs.Net.{IpNet}
use nebula_rs.Firewall.Packet.{Protocol}
use nebula_rs.Firewall.Tree.{
  LocalCidr, PeerRule, CaRule, PortTable, Direction, RuleSet, port_any, port_fragment, some_and,
  no_local_cidr, no_peer_rule, no_ca_rule, no_direction,
}

pub data PortSpec : Type 0 where
  any fragment : PortSpec
  single : ℕ → PortSpec
  range : ℕ → ℕ → PortSpec

pub data LocalCidrSpec (N : Type 0) : Type 0 where
  unset any : LocalCidrSpec N
  net : N → LocalCidrSpec N

pub data RuleError : Type 0 where
  unknown_protocol : Protocol → RuleError
  invalid_port_range : ℕ → ℕ → RuleError

pub data RuleWarning (N : Type 0) : Type 0 where
  groups_shadowed_by_any : Bool → RuleWarning N
  host_any_shadows_groups : Bool → List String → RuleWarning N
  host_any_shadows_cidr : Bool → N → RuleWarning N
  groups_any_shadows_host : Bool → String → RuleWarning N
  groups_any_shadows_cidr : Bool → N → RuleWarning N
  icmp_port_ignored : Bool → PortSpec → RuleWarning N

pub data LocalCidrDefault (N : Type 0) : Type 0 where
  any : LocalCidrDefault N
  nets : List N → LocalCidrDefault N

pub record RuleSetBuilder (N : Type 0) : Type 0 where
  pub inbound : Direction N
  pub outbound : Direction N
  pub default_local_cidr : LocalCidrDefault N
  pub warnings : List (RuleWarning N)

-- The arguments of `add_rule`.
pub record RuleArgs (N : Type 0) : Type 0 where
  pub incoming : Bool
  pub proto : Protocol
  pub port : PortSpec
  pub groups : List String
  pub host : Option String
  pub cidr : Option N
  pub local_cidr : LocalCidrSpec N
  pub ca_name : Option String
  pub ca_sha : Option String

-- `if let Some(x) = o { ... }` over a state.
abbrev pub when_some {ℓ κ} : {A : Type ℓ} {S : Type κ} → Option A → (A → S → S) → S → S
when_some none f s = s
when_some (some a) f s = f a s

abbrev pub is_none {ℓ} : {A : Type ℓ} → Option A → Bool
is_none none = true
is_none (some a) = false

module _ {N : Type 0} where
  unfoldable pub builder_new : List N → Bool → Bool → RuleSetBuilder N
  builder_new assigned_networks has_unsafe_networks default_local_cidr_any = record {
    inbound = no_direction;
    outbound = no_direction;
    default_local_cidr =
        if not has_unsafe_networks || default_local_cidr_any
        then LocalCidrDefault.any
        else LocalCidrDefault.nets assigned_networks;
    warnings = [];
  }

  unfoldable pub build : RuleSetBuilder N → RuleSet N
  build b = record { inbound = b.inbound; outbound = b.outbound }

unfoldable pub port_bounds : PortSpec → Result RuleError (ℤ × ℤ)
port_bounds PortSpec.any = ok (port_any, port_any)
port_bounds fragment = ok (port_fragment, port_fragment)
port_bounds (single p) = ok (pos p, pos p)
port_bounds (range start end) =
    if ltb end start then err (invalid_port_range start end) else ok (pos start, pos end)

abbrev pub is_other : Protocol → Bool
is_other (Protocol.other v) = true
is_other Protocol.any = false
is_other Protocol.tcp = false
is_other Protocol.udp = false
is_other Protocol.icmp = false
is_other Protocol.icmp_v6 = false

abbrev pub is_icmp : Protocol → Bool
is_icmp Protocol.icmp = true
is_icmp Protocol.icmp_v6 = true
is_icmp Protocol.any = false
is_icmp Protocol.tcp = false
is_icmp Protocol.udp = false
is_icmp (Protocol.other v) = false

abbrev pub is_port_any : PortSpec → Bool
is_port_any PortSpec.any = true
is_port_any fragment = false
is_port_any (single p) = false
is_port_any (range s e) = false

module _ {N : Type 0} where
  unfoldable pub is_any : RuleArgs N → Bool
  is_any r =
      if is_empty r.groups && (is_none r.host && is_none r.cidr)
      then true
      else if contains r.groups "any"
      then true
      else if some_and r.host (λ h. h == "any")
      then true
      else false

  unfoldable pub check_sanity : RuleArgs N → List (RuleWarning N) → List (RuleWarning N)
  check_sanity r w0 =
      let groups_has_any = contains r.groups "any" in
      let host_any = some_and r.host (λ h. h == "any") in
      let w1 =
        if groups_has_any && ltb 1 (length r.groups)
        then w0 ++ (groups_shadowed_by_any r.incoming ∷ [])
        else w0 in
      let w2 =
        if host_any && not (is_empty r.groups)
        then w1 ++ (host_any_shadows_groups r.incoming r.groups ∷ [])
        else w1 in
      let w3 =
        if host_any
        then when_some r.cidr (λ c w. w ++ (host_any_shadows_cidr r.incoming c ∷ [])) w2
        else w2 in
      let w4 =
        if groups_has_any && not host_any
        then when_some r.host (λ h w. w ++ (groups_any_shadows_host r.incoming h ∷ [])) w3
        else w3 in
      if groups_has_any
      then when_some r.cidr (λ c w. w ++ (groups_any_shadows_cidr r.incoming c ∷ [])) w4
      else w4

  unfoldable pub merge_local_cidr : LocalCidrDefault N → LocalCidrSpec N → LocalCidr N → LocalCidr N
  merge_local_cidr d LocalCidrSpec.any lc = record lc { any = true }
  merge_local_cidr d (net n) lc = record lc { nets = lc.nets ++ (n ∷ []) }
  merge_local_cidr LocalCidrDefault.any unset lc = record lc { any = true }
  merge_local_cidr (nets ns) unset lc = record lc { nets = lc.nets ++ ns }

  -- The table that `match proto` selects; `Other` is excluded before the call.
  unfoldable pub update_table : Protocol → (PortTable N → PortTable N) → Direction N → Direction N
  update_table Protocol.any f d = record d { any_proto = f d.any_proto }
  update_table Protocol.tcp f d = record d { tcp = f d.tcp }
  update_table Protocol.udp f d = record d { udp = f d.udp }
  update_table Protocol.icmp f d = record d { icmp = f d.icmp }
  update_table Protocol.icmp_v6 f d = record d { icmp = f d.icmp }
  update_table (Protocol.other v) f d = d

  -- `direction_mut`
  unfoldable pub update_direction :
      Bool → (Direction N → Direction N) → RuleSetBuilder N → RuleSetBuilder N
  update_direction incoming f b =
      if incoming then record b { inbound = f b.inbound } else record b { outbound = f b.outbound }

module _ {N : Type 0} ⦃ip : IpNet N⦄ where
  -- Merges into the entry of an equal network, or adds one at the end.
  unfoldable pub add_cidr :
      N → (LocalCidr N → LocalCidr N) → List (N × LocalCidr N) → List (N × LocalCidr N)
  add_cidr c merge [] = (c, merge no_local_cidr) ∷ []
  add_cidr c merge ((n, lc) ∷ rest) =
      if ip.beq n c then (n, merge lc) ∷ rest else (n, lc) ∷ add_cidr c merge rest

  module _ (d : LocalCidrDefault N) (r : RuleArgs N) where
    abbrev merge_rule : LocalCidr N → LocalCidr N
    merge_rule lc = merge_local_cidr d r.local_cidr lc

    unfoldable pub add_groups : PeerRule N → PeerRule N
    add_groups pr =
        if not (is_empty r.groups)
        then record pr { groups = pr.groups ++ ((r.groups, merge_rule no_local_cidr) ∷ []) }
        else pr

    unfoldable pub add_host : PeerRule N → PeerRule N
    add_host pr =
        when_some r.host
          (λ h q. record q { hosts = update_entry h no_local_cidr merge_rule q.hosts }) pr

    unfoldable pub add_peer_cidr : PeerRule N → PeerRule N
    add_peer_cidr pr =
        when_some r.cidr (λ c q. record q { cidrs = add_cidr c merge_rule q.cidrs }) pr

    unfoldable pub add_to_peer_rule : PeerRule N → PeerRule N
    add_to_peer_rule pr =
        if is_any r
        then record pr { any = some (merge_rule (unwrap_or pr.any no_local_cidr)) }
        else add_peer_cidr (add_host (add_groups pr))

    unfoldable pub add_to_ca_rule : CaRule N → CaRule N
    add_to_ca_rule ca =
        if is_none r.ca_sha && is_none r.ca_name
        then record ca { any = some (add_to_peer_rule (unwrap_or ca.any no_peer_rule)) }
        else when_some r.ca_name
            (λ n c. record c { ca_names = update_entry n no_peer_rule add_to_peer_rule c.ca_names })
            (when_some r.ca_sha
              (λ s c. record c { ca_shas = update_entry s no_peer_rule add_to_peer_rule c.ca_shas })
              ca)

    -- `for p in start..=end`
    unfoldable pub add_ports : List ℤ → PortTable N → PortTable N
    add_ports [] t = t
    add_ports (p ∷ ps) t = add_ports ps (update_entry p no_ca_rule add_to_ca_rule t)

  -- What follows the checks of `add_rule`, with the bounds that `port_bounds` gave.
  unfoldable pub file_rule : RuleArgs N → ℤ × ℤ → RuleSetBuilder N → RuleSetBuilder N
  file_rule r (start, end) b =
      let coerced = is_icmp r.proto && not (is_port_any r.port) in
      let w =
        if coerced then b.warnings ++ (icmp_port_ignored r.incoming r.port ∷ []) else b.warnings in
      let start' = if coerced then port_any else start in
      let end' = if coerced then port_any else end in
      update_direction r.incoming
        (update_table r.proto (add_ports b.default_local_cidr r (inclusive start' end')))
        (record b { warnings = check_sanity r w })

  unfoldable pub add_rule :
      RuleArgs N → RuleSetBuilder N → RuleSetBuilder N × Result RuleError (Unit {0})
  add_rule r b = elim (port_bounds r.port) [
    | err e ↦ (b, err e)
    | ok bounds ↦
        if is_other r.proto
        then (b, err (unknown_protocol r.proto))
        else (file_rule r bounds b, ok tt)
  ]
