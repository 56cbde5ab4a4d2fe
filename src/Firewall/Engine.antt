-- ===== src/Firewall/Engine.antt =====
-- nebula-firewall/src/firewall.rs: the stateful decision. The clock is an argument of `evaluate`;
-- the locks show as the order in which the parts of the state are read and written.
pub mod Decision
pub mod Stage
pub mod State
pub mod Flows
pub mod Legs
pub mod Trace
pub mod Wrap
use nebula_rs.Prelude.{
  ℕ, ◌+◌, ◌%◌, ◌^◌, ◌≡◌, Bool, true, false, not, Option, none, some, List, [], ◌∷◌, ◌++◌, nat_eq,
  ◌==◌, if◌then◌else◌,
}
use nebula_rs.Prelude.Result.{Result, ok, err}
use nebula_rs.Net.{IpNet}
use nebula_rs.Firewall.Packet.{Packet, Protocol}
use nebula_rs.Firewall.Identity.{PeerIdentity, any_contains, owns}
use nebula_rs.Firewall.Tree.{RuleSet, rule_set_matches}
use nebula_rs.Firewall.Conntrack.{Conntrack, conntrack_new, lookup_flow, record_flow, remove_flow}

pub record FirewallOptions : Type 0 where
  pub tcp_timeout : ℕ
  pub udp_timeout : ℕ
  pub default_timeout : ℕ
  pub in_send_reject : Bool
  pub out_send_reject : Bool
  pub default_local_cidr_any : Bool

pub data DropReason : Type 0 where
  invalid_local_ip invalid_remote_ip no_matching_rule : DropReason

pub record Firewall (N : Type 0) : Type 0 where
  pub version : ℕ
  pub rules : RuleSet N
  pub conntrack : Conntrack
  pub options : FirewallOptions
  pub routable_networks : List N

abbrev pub timeout_for : FirewallOptions → Protocol → ℕ
timeout_for o Protocol.tcp = o.tcp_timeout
timeout_for o Protocol.udp = o.udp_timeout
timeout_for o Protocol.any = o.default_timeout
timeout_for o Protocol.icmp = o.default_timeout
timeout_for o Protocol.icmp_v6 = o.default_timeout
timeout_for o (Protocol.other v) = o.default_timeout

module _ {N : Type 0} ⦃net : IpNet N⦄ where
  -- The host route of each assigned network; `none` is a panic of the `expect`.
  unfoldable pub host_routes : List N → Option (List N)
  host_routes [] = some []
  host_routes (n ∷ ns) =
      let rest = host_routes ns in
      elim (net.new (net.addr n) (net.max_prefix_len n)) [
        | none ↦ none
        | some h ↦ elim rest [ none ↦ none | some hs ↦ some (h ∷ hs) ]
      ]

  unfoldable pub firewall_new : RuleSet N → FirewallOptions → List N → List N → Option (Firewall N)
  firewall_new rules options assigned_networks unsafe_networks =
      elim (host_routes assigned_networks) [
        | none ↦ none
        | some routes ↦ some (record {
          version = 0;
          rules = rules;
          conntrack = conntrack_new;
          options = options;
          routable_networks = routes ++ unsafe_networks;
        })
      ]

  -- `wrapping_add` on the 16-bit version.
  unfoldable pub reload : RuleSet N → Firewall N → Firewall N
  reload rules fw = record fw { version = (fw.version + 1) % 2 ^ 16; rules = rules }

  -- The block of `evaluate` under the first lock: the table, and whether the packet has passed.
  unfoldable pub tracked_stage :
      ℕ → RuleSet N → FirewallOptions → ℕ → Packet → PeerIdentity N → Conntrack → Conntrack × Bool
  tracked_stage version rules options now p remote ct =
      let (ct', flow) = lookup_flow p now ct in
      elim flow [
        | none ↦ (ct', false)
        | some (conn_incoming, conn_version) ↦
            let refreshed =
              record_flow p conn_incoming version now (timeout_for options p.protocol) ct' in
            if conn_version == version
            then (refreshed, true)
            else if rule_set_matches rules p conn_incoming remote
            then (refreshed, true)
            else (remove_flow p ct', false)
      ]

  -- The checks that follow for a packet of no tracked flow.
  unfoldable pub fresh_check :
      RuleSet N → List N → Packet → Bool → PeerIdentity N → Result DropReason (Unit {0})
  fresh_check rules routable p incoming remote =
      if not (owns remote p.remote_addr)
      then err invalid_remote_ip
      else if not (any_contains routable p.local_addr)
      then err invalid_local_ip
      else if not (rule_set_matches rules p incoming remote)
      then err no_matching_rule
      else ok tt

  unfoldable pub evaluate :
      ℕ → Packet → Bool → PeerIdentity N → Firewall N → Firewall N × Result DropReason (Unit {0})
  evaluate now p incoming remote fw =
      let (ct, passed) = tracked_stage fw.version fw.rules fw.options now p remote fw.conntrack in
      if passed
      then (record fw { conntrack = ct }, ok tt)
      else elim (fresh_check fw.rules fw.routable_networks p incoming remote) [
        | err reason ↦ (record fw { conntrack = ct }, err reason)
        | ok done ↦ (
          record fw {
            conntrack =
                record_flow p incoming fw.version now (timeout_for fw.options p.protocol) ct;
          },
          ok tt,
        )
      ]
