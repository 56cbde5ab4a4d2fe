-- ===== src/Firewall/Engine/Trace.antt =====
-- Histories of a firewall: calls of `evaluate` under a clock that does not run backwards, and reloads.
use nebula_rs.Prelude.{
  ℕ, suc, ◌+◌, ◌≤◌, ◌<◌, ◌%◌, ◌^◌, ◌≡◌, refl, ◌∙◌, sym, subst, inl, inr, Bool, true, false, none,
  some, List, arith, nat_eq, ◌==◌, ==_iff, Bool-cases, Option-cases,
}
use nebula_rs.Prelude.Result.{ok}
use nebula_rs.Prelude.Map.{get}
use nebula_rs.Net.{IpNet}
use nebula_rs.Firewall.Packet.{Packet, packet_eq}
use nebula_rs.Firewall.Identity.{PeerIdentity}
use nebula_rs.Firewall.Tree.{RuleSet, rule_set_matches}
use nebula_rs.Firewall.Conntrack.{ConnEntry, conntrack_new}
use nebula_rs.Firewall.Conntrack.Purge.{Inv, live}
use nebula_rs.Firewall.Conntrack.Table.{conntrack_new-Inv, get-conntrack_new}
use nebula_rs.Firewall.Engine.{
  Firewall, FirewallOptions, fresh_check, evaluate, reload, firewall_new,
}
use nebula_rs.Firewall.Engine.Decision.{flow_passes}
use nebula_rs.Firewall.Engine.Stage.{live-le}
use nebula_rs.Firewall.Engine.State.{
  FirewallInv, Result-cases, next_entry, get-evaluate, evaluate-FirewallInv, reload-FirewallInv,
  evaluate_version, evaluate_rules,
}

module _ {N : Type 0} ⦃net : IpNet N⦄ where
  -- The firewalls that a history of `k` reloads can lead to, with the latest time of a call.
  pub data Reach : ℕ → ℕ → Firewall N → Type 0 where
    start :
        (rules : RuleSet N) (options : FirewallOptions) (assigned unsafe : List N) {fw : Firewall N}
        → firewall_new rules options assigned unsafe ≡ some fw
        → Reach 0 0 fw
    call :
        {k clock : ℕ} {fw : Firewall N}
        → Reach k clock fw
        → (now : ℕ) (p : Packet) (incoming : Bool) (remote : PeerIdentity N) → clock ≤ now
        → Reach k now (evaluate now p incoming remote fw).0
    swap :
        {k clock : ℕ} {fw : Firewall N}
        → Reach k clock fw
        → (rules : RuleSet N) → Reach (suc k) clock (reload rules fw)

  -- Some peer is let through by the rules.
  abbrev pub Allowed : RuleSet N → Packet → Bool → Type 0
  Allowed rules p incoming =
      (remote : PeerIdentity N) × (rule_set_matches rules p incoming remote ≡ true)

  -- No entry is from a later version, and one of the present version was allowed by its rules.
  abbrev pub Justified : Firewall N → Type 0
  Justified fw =
      (p : Packet) (e : ConnEntry)
      → get p fw.conntrack.conns ≡ some e
      → (e.rules_version ≤ fw.version)
        × (e.rules_version ≡ fw.version → Allowed fw.rules p e.incoming)

  new_empty :
      (rules : RuleSet N) (options : FirewallOptions) (assigned unsafe : List N) (fw : Firewall N)
      → firewall_new rules options assigned unsafe ≡ some fw
      → (fw.conntrack ≡ conntrack_new) × (fw.version ≡ 0)
  unfolding firewall_new
  new_empty rules options assigned unsafe fw h = ground arith

  -- After any history of evaluate and reload calls at a clock that does not run backwards, the flow
  -- table satisfies its invariant: the heap is in order, every tracked flow has a slot no later
  -- than its expiry, and no entry was recorded in the future.
  pub Reach-FirewallInv : {k clock : ℕ} {fw : Firewall N} → Reach k clock fw → FirewallInv clock fw
  Reach-FirewallInv (start rules options assigned unsafe {fw} e) =
      let (empty, _) = new_empty rules options assigned unsafe fw e in
      record {
        table = subst Inv (sym empty) conntrack_new-Inv;
        bounded = λ p x g. ground (arith, empty, get-conntrack_new p, g);
      }
  Reach-FirewallInv (call r now p incoming remote le) =
      evaluate-FirewallInv now p incoming remote _ _ le (Reach-FirewallInv r)
  Reach-FirewallInv (swap r rules) = reload-FirewallInv rules _ _ (Reach-FirewallInv r)

  Reach-version : {k clock : ℕ} {fw : Firewall N} → Reach k clock fw → fw.version ≡ k % 2 ^ 16
  unfolding reload
  Reach-version (start rules options assigned unsafe {fw} e) =
      omega (arith, (new_empty rules options assigned unsafe fw e).1)
  Reach-version (call r now p incoming remote le) =
      evaluate_version now p incoming remote _ ∙ Reach-version r
  Reach-version (swap r rules) = omega (arith, Reach-version r)

  -- A flow that passes was allowed in its direction, under the present rules.
  passes-Allowed :
      (p : Packet) (remote : PeerIdentity N) (fw : Firewall N) (e : ConnEntry)
      → Justified fw
      → get p fw.conntrack.conns ≡ some e
      → flow_passes fw.version fw.rules p remote (some e) ≡ true
      → Allowed fw.rules p e.incoming
  unfolding flow_passes
  passes-Allowed p remote fw e j g h = elim (Bool-cases (e.rules_version == fw.version)) [
    | inl same ↦ (j p e g).1 ((==_iff e.rules_version fw.version).0 same)
    | inr new ↦ (remote, ground (arith, h, new))
  ]

  fresh-Allowed :
      (p : Packet) (incoming : Bool) (remote : PeerIdentity N) (fw : Firewall N)
      → fresh_check fw.rules fw.routable_networks p incoming remote ≡ ok tt
      → Allowed fw.rules p incoming
  unfolding fresh_check
  fresh-Allowed p incoming remote fw h = (remote, ground arith)

  module _ (now : ℕ) (p : Packet) (incoming : Bool) (remote : PeerIdentity N) (fw : Firewall N)
      (e : ConnEntry) (j : Justified fw) (h : next_entry now p incoming remote fw ≡ some e) where
    next_entry-Allowed : (e.rules_version ≡ fw.version) × Allowed fw.rules p e.incoming
    unfolding next_entry
    next_entry-Allowed =
        elim (Bool-cases
          (flow_passes fw.version fw.rules p remote (live now (get p fw.conntrack.conns)))) [
            | inl t ↦ elim (Option-cases (live now (get p fw.conntrack.conns))) [
              | inl n ↦ cc (flow_passes_none, t, n)
              | inr (x, n) ↦ (
                ground (arith, h, t),
                subst (Allowed fw.rules p) (ground (arith, h, t, n))
                    (passes-Allowed p remote fw x j (live-le now _ x n) (rw n at t)),
              )
            ]
            | inr f ↦
                elim (Result-cases (fresh_check fw.rules fw.routable_networks p incoming remote)) [
                  | inl c ↦ (
                    ground (arith, h, f, c),
                    subst (Allowed fw.rules p) (ground (arith, h, f, c))
                        (fresh-Allowed p incoming remote fw c),
                  )
                  | inr (reason, c) ↦ absurd (ground (arith, h, f, c))
                ]
          ]
      where
        flow_passes_none : flow_passes fw.version fw.rules p remote none ≡ false
        flow_passes_none = unfold flow_passes in refl

  evaluate-Justified :
      (now : ℕ) (p : Packet) (incoming : Bool) (remote : PeerIdentity N) (fw : Firewall N)
      → Inv fw.conntrack
      → Justified fw
      → Justified (evaluate now p incoming remote fw).0
  evaluate-Justified now p incoming remote fw v j q e h =
      rw (evaluate_version now p incoming remote fw, evaluate_rules now p incoming remote fw)
        (elim (Bool-cases (p == q)) [
          | inl same ↦
              let (current, allowed) =
                next_entry-Allowed now p incoming remote fw e j
                  (ground (arith, same, get-evaluate now p incoming remote fw v q, h)) in
              (
                omega (arith, current),
                λ _. subst (λ x. Allowed fw.rules x e.incoming) ((==_iff p q).0 same) allowed,
              )
          | inr other ↦ j q e (
              live-le now _ e (ground (arith, other, get-evaluate now p incoming remote fw v q, h)))
        ])

  reload-Justified :
      (rules : RuleSet N) (fw : Firewall N)
      → fw.version + 1 < 2 ^ 16
      → Justified fw
      → Justified (reload rules fw)
  unfolding reload
  reload-Justified rules fw lt j p x g =
      (omega (arith, (j p x g).0), λ same. absurd (omega (arith, (j p x g).0, same)))

  -- After any history of evaluate and reload calls at a clock that does not run backwards, with
  -- fewer than 65536 reloads, no entry is from a later version, and an entry of the present version
  -- was allowed by the present rules, for some peer, in the direction it was opened in.
  pub Reach-Justified :
      {k clock : ℕ} {fw : Firewall N} → Reach k clock fw → k < 2 ^ 16 → Justified fw
  Reach-Justified (start rules options assigned unsafe {fw} e) lt =
      λ p x g. ground (arith, new_empty rules options assigned unsafe fw e, get-conntrack_new p, g)
  Reach-Justified (call r now p incoming remote le) lt =
      evaluate-Justified now p incoming remote _ (Reach-FirewallInv r).table (Reach-Justified r lt)
  Reach-Justified (swap r rules) lt =
      reload-Justified rules _ (omega (arith, Reach-version r)) (Reach-Justified r (omega arith))
