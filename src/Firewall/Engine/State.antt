-- ===== src/Firewall/Engine/State.antt =====
-- What `evaluate` leaves in the flow table, and the invariant that every call keeps.
use nebula_rs.Prelude.{
  ℕ, ◌+◌, ◌≤◌, ◌≡◌, refl, sym, ap, subst, ◌∙◌, ◌⊎◌, inl, inr, Bool, true, false, Option, none, some,
  arith, nat_eq, ◌==◌, ==_iff, if◌then◌else◌, Bool-cases, Option-cases,
}
use nebula_rs.Prelude.Result.{Result, ok, err}
use nebula_rs.Prelude.Map.{get}
use nebula_rs.Net.{IpNet}
use nebula_rs.Firewall.Packet.{Packet, packet_eq}
use nebula_rs.Firewall.Identity.{PeerIdentity}
use nebula_rs.Firewall.Tree.{RuleSet}
use nebula_rs.Firewall.Conntrack.{ConnEntry, Conntrack, record_flow}
use nebula_rs.Firewall.Conntrack.Purge.{Inv, live}
use nebula_rs.Firewall.Conntrack.Table.{get-record_flow, record_flow-Inv}
use nebula_rs.Firewall.Engine.{
  Firewall, DropReason, timeout_for, tracked_stage, fresh_check, evaluate, reload,
}
use nebula_rs.Firewall.Engine.Decision.{flow_passes, tracked_stage-passes}
use nebula_rs.Firewall.Engine.Stage.{flow_direction, live-le, stage-Inv, get-stage, stage_entry}

pub Result-cases : {E : Type 0} (r : Result E (Unit {0})) → (r ≡ ok tt) ⊎ ((e : E) × (r ≡ err e))
Result-cases (ok u) = inl refl
Result-cases (err e) = inr (e, refl)

-- No entry outlives the latest evaluation by more than the timeout of its protocol.
pub record FirewallInv {N : Type 0} (clock : ℕ) (fw : Firewall N) : Type 0 where
  pub table : Inv fw.conntrack
  pub bounded :
      (p : Packet) (e : ConnEntry)
      → get p fw.conntrack.conns ≡ some e
      → e.expires ≤ clock + timeout_for fw.options p.protocol

module _ {N : Type 0} ⦃net : IpNet N⦄ (now : ℕ) (p : Packet) (incoming : Bool)
    (remote : PeerIdentity N) (fw : Firewall N) where
  abbrev present : Option ConnEntry
  present = live now (get p fw.conntrack.conns)

  abbrev after : Conntrack
  after = (evaluate now p incoming remote fw).0.conntrack

  pub evaluate_options : (evaluate now p incoming remote fw).0.options ≡ fw.options
  unfolding evaluate
  evaluate_options = ground arith

  pub evaluate_rules : (evaluate now p incoming remote fw).0.rules ≡ fw.rules
  unfolding evaluate
  evaluate_rules = ground arith

  pub evaluate_version : (evaluate now p incoming remote fw).0.version ≡ fw.version
  unfolding evaluate
  evaluate_version = ground arith

  -- The entry of the packet's flow after the call: refreshed or opened where the packet passed, and
  -- none where it was dropped.
  unfoldable pub next_entry : Option ConnEntry
  next_entry =
      if flow_passes fw.version fw.rules p remote present
      then some (record {
        expires = now + timeout_for fw.options p.protocol;
        incoming = flow_direction present incoming;
        rules_version = fw.version;
      })
      else elim (fresh_check fw.rules fw.routable_networks p incoming remote) [
        | err reason ↦ none
        | ok done ↦ some (record {
          expires = now + timeout_for fw.options p.protocol;
          incoming = incoming;
          rules_version = fw.version;
        })
      ]

  abbrev staged : Conntrack
  staged = (tracked_stage fw.version fw.rules fw.options now p remote fw.conntrack).0

  abbrev passes : Bool
  passes = flow_passes fw.version fw.rules p remote present

  abbrev checked : Result DropReason (Unit {0})
  checked = fresh_check fw.rules fw.routable_networks p incoming remote

  -- The three outcomes of a call.
  module _ (v : Inv fw.conntrack) where
    stage_agrees :
        (tracked_stage fw.version fw.rules fw.options now p remote fw.conntrack).1 ≡ passes
    stage_agrees = tracked_stage-passes fw.version fw.rules fw.options now p remote fw.conntrack v

    evaluate_tracked :
        passes ≡ true
        → evaluate now p incoming remote fw ≡ (record fw { conntrack = staged }, ok tt)
    unfolding evaluate
    evaluate_tracked h = rw (stage_agrees ∙ h, evaluate)

    evaluate_dropped :
        (reason : DropReason)
        → passes ≡ false
        → checked ≡ err reason
        → evaluate now p incoming remote fw ≡ (record fw { conntrack = staged }, err reason)
    unfolding evaluate
    evaluate_dropped reason h c = rw (stage_agrees ∙ h, c, evaluate)

    evaluate_opened :
        passes ≡ false
        → checked ≡ ok tt
        → evaluate now p incoming remote fw ≡ (
          record fw {
            conntrack =
                record_flow p incoming fw.version now (timeout_for fw.options p.protocol) staged;
          },
          ok tt,
        )
    unfolding evaluate
    evaluate_opened h c = rw (stage_agrees ∙ h, c, evaluate)

    staged_at :
        (q : Packet)
        → get q staged.conns ≡ (
            if p == q
            then stage_entry fw.version fw.rules fw.options now p remote fw.conntrack v present
            else live now (get q fw.conntrack.conns))
    staged_at q = get-stage fw.version fw.rules fw.options now p remote fw.conntrack v q

    -- On a table that satisfies the heap invariant, evaluate leaves for the packet's flow the entry
    -- that the specification names, on a refresh, a removal, a rejection or a new record, and of
    -- every other flow what is live.
    pub get-evaluate :
        (q : Packet)
        → get q after.conns ≡ (if p == q then next_entry else live now (get q fw.conntrack.conns))
    unfolding next_entry flow_passes
    get-evaluate q = elim (Bool-cases passes) [
      | inl h ↦
          ap (λ (r : Firewall N × Result DropReason (Unit {0})). get q r.0.conntrack.conns)
            (evaluate_tracked h)
          ∙ tracked h
      | inr h ↦ elim (Result-cases checked) [
        | inl c ↦ ground (
          arith,
          h,
          c,
          evaluate_opened h c,
          staged_at q,
          get-record_flow p incoming fw.version now (timeout_for fw.options p.protocol) staged q,
        )
        | inr (reason, c) ↦ ground (arith, h, c, evaluate_dropped reason h c, staged_at q)
      ]
    ]
      where
        tracked :
            passes ≡ true
            → get q staged.conns
              ≡ (if p == q then next_entry else live now (get q fw.conntrack.conns))
        tracked h = elim (Option-cases present) [
          | inl n ↦ ground (arith, n, h)
          | inr (e, n) ↦ ground (arith, n, h, staged_at q)
        ]

module _ {N : Type 0} ⦃net : IpNet N⦄ (now : ℕ) (p : Packet) (incoming : Bool)
    (remote : PeerIdentity N) (fw : Firewall N) (clock : ℕ) (le : clock ≤ now)
    (v : FirewallInv clock fw) where
  evaluate-Inv : Inv (after now p incoming remote fw)
  evaluate-Inv = elim (Bool-cases (passes now p incoming remote fw)) [
    | inl h ↦
        subst (λ (r : Firewall N × Result DropReason (Unit {0})). Inv r.0.conntrack)
          (sym (evaluate_tracked now p incoming remote fw v.table h)) staged-Inv
    | inr h ↦ elim (Result-cases (checked now p incoming remote fw)) [
      | inl c ↦
          subst (λ (r : Firewall N × Result DropReason (Unit {0})). Inv r.0.conntrack)
            (sym (evaluate_opened now p incoming remote fw v.table h c))
            (record_flow-Inv p incoming fw.version now _ _ staged-Inv (λ old g.
              ground (arith, h, g, ==_iff p p, staged_at now p incoming remote fw v.table p)))
      | inr (reason, c) ↦
          subst (λ (r : Firewall N × Result DropReason (Unit {0})). Inv r.0.conntrack)
            (sym (evaluate_dropped now p incoming remote fw v.table reason h c)) staged-Inv
    ]
  ]
    where
      staged-Inv : Inv (staged now p incoming remote fw)
      staged-Inv =
          stage-Inv fw.version fw.rules fw.options now p remote fw.conntrack v.table
            (λ old g. omega (arith, v.bounded p old g))

  next_entry_bounded :
      (e : ConnEntry)
      → next_entry now p incoming remote fw ≡ some e
      → e.expires ≤ now + timeout_for fw.options p.protocol
  unfolding next_entry
  next_entry_bounded e h = ground arith

  -- Every call keeps the invariant, if the clock does not run backwards.
  pub evaluate-FirewallInv : FirewallInv now (evaluate now p incoming remote fw).0
  evaluate-FirewallInv = record {
    table = evaluate-Inv;
    bounded = λ q e h. ground (
      arith,
      evaluate_options now p incoming remote fw,
      get-evaluate now p incoming remote fw v.table q,
      ==_iff p q,
      next_entry_bounded e,
      live-le now (get q fw.conntrack.conns) e,
      v.bounded q e,
      h,
    );
  }

-- A reload leaves the table and the invariant alone.
pub reload-FirewallInv :
    {N : Type 0} ⦃net : IpNet N⦄ (rules : RuleSet N) (clock : ℕ) (fw : Firewall N)
    → FirewallInv clock fw
    → FirewallInv clock (reload rules fw)
unfolding reload
reload-FirewallInv rules clock fw v = record { table = v.table; bounded = v.bounded }
