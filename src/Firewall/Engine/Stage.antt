-- ===== src/Firewall/Engine/Stage.antt =====
-- The tracked stage of `evaluate`: its three outcomes and what they leave in the flow table.
use nebula_rs.Prelude.{
  ℕ, ◌+◌, ◌≤◌, ◌≡◌, sym, ◌∙◌, inl, inr, Bool, true, false, Option, none, some, arith, nat_eq, ◌==◌,
  ==_iff, if◌then◌else◌, Bool-cases, Option-cases,
}
use nebula_rs.Prelude.Map.{get}
use nebula_rs.Net.{IpNet}
use nebula_rs.Firewall.Packet.{Packet, packet_eq}
use nebula_rs.Firewall.Identity.{PeerIdentity}
use nebula_rs.Firewall.Tree.{RuleSet}
use nebula_rs.Firewall.Conntrack.{ConnEntry, Conntrack, purge_expired, record_flow, remove_flow}
use nebula_rs.Firewall.Conntrack.Purge.{Inv, live, get-purge_expired, purge_expired-Purges}
use nebula_rs.Firewall.Conntrack.Table.{
  lookup_flow-live, lookup_flow-table, get-record_flow, record_flow-Inv, get-remove_flow,
  remove_flow-Inv,
}
use nebula_rs.Firewall.Engine.{FirewallOptions, timeout_for, tracked_stage}
use nebula_rs.Firewall.Engine.Decision.{flow_passes}

-- The direction that a tracked flow keeps; a new flow takes the packet's.
abbrev pub flow_direction : Option ConnEntry → Bool → Bool
flow_direction none incoming = incoming
flow_direction (some e) incoming = e.incoming

pub live-le : (now : ℕ) (o : Option ConnEntry) (e : ConnEntry) → live now o ≡ some e → o ≡ some e
live-le now none e h = cc
live-le now (some x) e h = ground arith

module _ {N : Type 0} ⦃net : IpNet N⦄ (version : ℕ) (rules : RuleSet N) (options : FirewallOptions)
    (now : ℕ) (p : Packet) (remote : PeerIdentity N) (ct : Conntrack) (v : Inv ct) where
  abbrev pub flow : Option ConnEntry
  flow = live now (get p ct.conns)

  abbrev pub timeout : ℕ
  timeout = timeout_for options p.protocol

  -- The three outcomes of the tracked stage.
  stage_untracked :
      flow ≡ none
      → tracked_stage version rules options now p remote ct ≡ (purge_expired now ct, false)
  unfolding tracked_stage
  stage_untracked n = ground (arith, n, lookup_flow-live p now ct v, lookup_flow-table p now ct)

  stage_passed :
      (e : ConnEntry)
      → flow ≡ some e
      → flow_passes version rules p remote (some e) ≡ true
      → tracked_stage version rules options now p remote ct
        ≡ (record_flow p e.incoming version now timeout (purge_expired now ct), true)
  unfolding tracked_stage flow_passes
  stage_passed e n h = ground (arith, n, h, lookup_flow-live p now ct v, lookup_flow-table p now ct)

  stage_refused :
      (e : ConnEntry)
      → flow ≡ some e
      → flow_passes version rules p remote (some e) ≡ false
      → tracked_stage version rules options now p remote ct
        ≡ (remove_flow p (purge_expired now ct), false)
  unfolding tracked_stage flow_passes
  stage_refused e n h =
      ground (arith, n, h, lookup_flow-live p now ct v, lookup_flow-table p now ct)

  abbrev pub stage : Conntrack × Bool
  stage = tracked_stage version rules options now p remote ct

  pub stage-Inv :
      ((old : ConnEntry) → get p ct.conns ≡ some old → old.expires ≤ now + timeout) → Inv stage.0
  stage-Inv later = elim (Option-cases flow) [
    | inl n ↦ rw (stage_untracked n) (purge_expired-Purges now ct v).inv
    | inr (e, n) ↦ elim (Bool-cases (flow_passes version rules p remote (some e))) [
      | inl h ↦ rw (stage_passed e n h) (
          record_flow-Inv p e.incoming version now timeout (purge_expired now ct)
            (purge_expired-Purges now ct v).inv
            (λ old g. later old (live-le now _ old (sym (get-purge_expired now ct p v) ∙ g))))
      | inr h ↦
          rw (stage_refused e n h)
            (remove_flow-Inv p (purge_expired now ct) (purge_expired-Purges now ct v).inv)
    ]
  ]

  -- The entry that the tracked stage leaves for the packet's flow.
  abbrev pub stage_entry : Option ConnEntry → Option ConnEntry
  stage_entry o =
      if flow_passes version rules p remote o
      then some (record {
        expires = now + timeout;
        incoming = flow_direction o false;
        rules_version = version;
      })
      else none

  pub get-stage :
      (q : Packet)
      → get q stage.0.conns ≡ (if p == q then stage_entry flow else live now (get q ct.conns))
  unfolding flow_passes
  get-stage q = elim (Option-cases flow) [
    | inl n ↦ ground (arith, n, stage_untracked n, ==_iff p q, get-purge_expired now ct q v)
    | inr (e, n) ↦ elim (Bool-cases (flow_passes version rules p remote (some e))) [
      | inl h ↦ ground (
        arith,
        n,
        h,
        stage_passed e n h,
        ==_iff p q,
        get-record_flow p e.incoming version now timeout (purge_expired now ct) q,
        get-purge_expired now ct q v,
      )
      | inr h ↦ ground (
        arith,
        n,
        h,
        stage_refused e n h,
        ==_iff p q,
        get-remove_flow p q (purge_expired now ct),
        get-purge_expired now ct q v,
      )
    ]
  ]
