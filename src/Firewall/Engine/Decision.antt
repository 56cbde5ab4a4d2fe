-- ===== src/Firewall/Engine/Decision.antt =====
-- `evaluate` against a specification over a plain map of flows, with no heap and no lazy purge.
use nebula_rs.Prelude.{
  ℕ, ◌≡◌, inl, inr, Bool, false, ◌||◌, Option, none, some, arith, nat_eq, ◌==◌, if◌then◌else◌,
  Option-cases,
}
use nebula_rs.Prelude.Result.{Result, ok}
use nebula_rs.Prelude.Map.{get}
use nebula_rs.Net.{IpNet}
use nebula_rs.Firewall.Packet.{Packet, packet_eq}
use nebula_rs.Firewall.Identity.{PeerIdentity}
use nebula_rs.Firewall.Tree.{RuleSet, rule_set_matches}
use nebula_rs.Firewall.Conntrack.{ConnEntry, Conntrack}
use nebula_rs.Firewall.Conntrack.Purge.{Inv, live}
use nebula_rs.Firewall.Conntrack.Table.{lookup_flow-live}
use nebula_rs.Firewall.Engine.{
  Firewall, FirewallOptions, DropReason, tracked_stage, fresh_check, evaluate,
}

module _ {N : Type 0} ⦃net : IpNet N⦄ where
  -- A tracked flow passes if the rules are those it was judged by, or if the present rules allow the
  -- direction in which it was opened.
  unfoldable pub flow_passes : ℕ → RuleSet N → Packet → PeerIdentity N → Option ConnEntry → Bool
  flow_passes version rules p remote none = false
  flow_passes version rules p remote (some e) =
      e.rules_version == version || rule_set_matches rules p e.incoming remote

  -- The decision, by the live entry of the packet's flow.
  unfoldable pub decide :
      ℕ → Packet → Bool → PeerIdentity N → Firewall N → Result DropReason (Unit {0})
  decide now p incoming remote fw =
      if flow_passes fw.version fw.rules p remote (live now (get p fw.conntrack.conns))
      then ok tt
      else fresh_check fw.rules fw.routable_networks p incoming remote

  module _ (version : ℕ) (rules : RuleSet N) (options : FirewallOptions) (now : ℕ) (p : Packet)
      (remote : PeerIdentity N) (ct : Conntrack) (v : Inv ct) where
    pub tracked_stage-passes :
        (tracked_stage version rules options now p remote ct).1
        ≡ flow_passes version rules p remote (live now (get p ct.conns))
    unfolding tracked_stage flow_passes
    tracked_stage-passes = elim (Option-cases (live now (get p ct.conns))) [
      | inl n ↦ ground (arith, n, lookup_flow-live p now ct v)
      | inr (e, n) ↦ ground (arith, n, lookup_flow-live p now ct v)
    ]

  -- On a table that satisfies the heap invariant, the verdict of evaluate is that of a plain map of
  -- flows of which the expired are ignored: a live entry of the present version passes, one of
  -- another version if the rules allow the direction it was opened in, all else by the certificate,
  -- route and rule checks.
  pub evaluate-decide :
      (now : ℕ) (p : Packet) (incoming : Bool) (remote : PeerIdentity N) (fw : Firewall N)
      → Inv fw.conntrack
      → (evaluate now p incoming remote fw).1 ≡ decide now p incoming remote fw
  unfolding evaluate decide
  evaluate-decide now p incoming remote fw v =
      ground
        (arith, tracked_stage-passes fw.version fw.rules fw.options now p remote fw.conntrack v)
