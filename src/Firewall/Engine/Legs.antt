-- ===== src/Firewall/Engine/Legs.antt =====
-- A flow over many calls of `evaluate`, between two reloads.
use nebula_rs.Prelude.{
  ℕ, ◌+◌, ◌≤◌, ◌<◌, ◌≡◌, refl, ◌∙◌, sym, ap, subst, inl, inr, Bool, some, arith, nat_eq, ◌==◌,
  ==_iff, ==_refl, Bool-cases,
}
use nebula_rs.Prelude.Result.{ok}
use nebula_rs.Prelude.Map.{get}
use nebula_rs.Net.{IpNet}
use nebula_rs.Firewall.Packet.{Packet, packet_eq}
use nebula_rs.Firewall.Identity.{PeerIdentity}
use nebula_rs.Firewall.Conntrack.{ConnEntry}
use nebula_rs.Firewall.Conntrack.Purge.{live}
use nebula_rs.Firewall.Engine.{Firewall, FirewallOptions, timeout_for, evaluate}
use nebula_rs.Firewall.Engine.Decision.{decide, evaluate-decide}
use nebula_rs.Firewall.Engine.State.{
  FirewallInv, get-evaluate, evaluate-FirewallInv, evaluate_version, evaluate_options,
}
use nebula_rs.Firewall.Engine.Flows.{next_entry_of_ok, decide_current}

live_of : (now : ℕ) (e : ConnEntry) → now < e.expires → live now (some e) ≡ some e
live_of now e lt = ground arith

module _ {N : Type 0} ⦃net : IpNet N⦄ where
  -- Any calls of `evaluate`, at a clock that does not run backwards, and no reload.
  pub data Calls (clock : ℕ) (fw : Firewall N) : ℕ → Firewall N → Type 0 where
    no_call : Calls clock fw clock fw
    then_call :
        {c : ℕ} {fw' : Firewall N}
        → Calls clock fw c fw'
        → (now : ℕ) (q : Packet) (incoming : Bool) (remote : PeerIdentity N) → c ≤ now
        → Calls clock fw now (evaluate now q incoming remote fw').0

  -- The flow of `p` is open until `deadline` at least.
  record Open (p : Packet) (options : FirewallOptions) (since clock : ℕ) (fw : Firewall N)
      : Type 0 where
    inv : FirewallInv clock fw
    same : fw.options ≡ options
    after : since ≤ clock
    entry : ConnEntry
    found : get p fw.conntrack.conns ≡ some entry
    lasts : since + timeout_for options p.protocol ≤ entry.expires
    current : entry.rules_version ≡ fw.version

  -- A packet that passes opens its flow, or keeps it open.
  passed-Open :
      (p : Packet) (options : FirewallOptions) (since clock now : ℕ) (incoming : Bool)
      (remote : PeerIdentity N) (fw : Firewall N)
      → FirewallInv clock fw
      → clock ≤ now
      → since ≤ now
      → fw.options ≡ options
      → decide now p incoming remote fw ≡ ok tt
      → Open p options since now (evaluate now p incoming remote fw).0
  passed-Open p options since clock now incoming remote fw v le after same decided =
      let (e, opened, expiry, version) = next_entry_of_ok now p incoming remote fw decided in
      let timeout = ap (λ o. timeout_for o p.protocol) same in
      record {
        inv = evaluate-FirewallInv now p incoming remote fw clock le v;
        same = evaluate_options now p incoming remote fw ∙ same;
        after = after;
        entry = e;
        found = get-evaluate now p incoming remote fw v.table p ∙ rw (==_refl p) opened;
        lasts = omega (arith, expiry, timeout);
        current = version ∙ sym (evaluate_version now p incoming remote fw);
      }

  Open-decide :
      (p : Packet) (options : FirewallOptions) (since clock now : ℕ) (incoming : Bool)
      (remote : PeerIdentity N) (fw : Firewall N)
      → Open p options since clock fw
      → now < since + timeout_for options p.protocol
      → decide now p incoming remote fw ≡ ok tt
  Open-decide p options since clock now incoming remote fw o before =
      decide_current now p incoming remote fw o.entry o.found (omega (arith, o.lasts)) o.current

  -- A call before the deadline, for whatever packet, keeps the flow open.
  evaluate-Open :
      (p q : Packet) (options : FirewallOptions) (since clock now : ℕ) (incoming : Bool)
      (remote : PeerIdentity N) (fw : Firewall N)
      → Open p options since clock fw
      → clock ≤ now
      → now < since + timeout_for options p.protocol
      → Open p options since now (evaluate now q incoming remote fw).0
  evaluate-Open p q options since clock now incoming remote fw o le before =
      elim (Bool-cases (q == p)) [
        | inl equal ↦
            subst (λ x. Open p options since now (evaluate now x incoming remote fw).0)
              (sym ((==_iff q p).0 equal))
              (passed-Open p options since clock now incoming remote fw o.inv le
                (omega (arith, o.after)) o.same
                (Open-decide p options since clock now incoming remote fw o before))
        | inr other ↦ record {
          inv = evaluate-FirewallInv now q incoming remote fw clock le o.inv;
          same = evaluate_options now q incoming remote fw ∙ o.same;
          after = omega (arith, o.after);
          entry = o.entry;
          found =
              get-evaluate now q incoming remote fw o.inv.table p
              ∙ rw (other, o.found) (live_of now o.entry (omega (arith, o.lasts)));
          lasts = o.lasts;
          current = o.current ∙ sym (evaluate_version now q incoming remote fw);
        }
      ]

  Calls-Open :
      (p : Packet) (options : FirewallOptions) (since clock : ℕ) (fw : Firewall N)
      → Open p options since clock fw
      → {c : ℕ} {fw' : Firewall N} → Calls clock fw c fw'
      → c < since + timeout_for options p.protocol
      → Open p options since c fw'
  Calls-Open p options since clock fw o no_call lt = o
  Calls-Open p options since clock fw o (then_call calls now q incoming remote le) lt =
      evaluate-Open p q options since _ now incoming remote _
        (Calls-Open p options since clock fw o calls (omega arith)) le lt

  -- If the flow table satisfies its invariant, the clock does not run backwards and there is no
  -- reload, then once a packet has passed, and after any further calls of evaluate for whatever
  -- packets and peers, a packet of its flow passes, in either direction and whatever the peer's
  -- certificate says, before the timeout of its protocol has run out since the first.
  pub evaluate_return_leg :
      (clock now last later : ℕ) (p : Packet) (incoming back : Bool) (remote other : PeerIdentity N)
      (fw fw' : Firewall N)
      → FirewallInv clock fw
      → clock ≤ now
      → (evaluate now p incoming remote fw).1 ≡ ok tt
      → Calls now (evaluate now p incoming remote fw).0 last fw'
      → last ≤ later
      → later < now + timeout_for fw.options p.protocol
      → (evaluate later p back other fw').1 ≡ ok tt
  evaluate_return_leg clock now last later p incoming back remote other fw fw' v le h calls le'
        before =
      let decided = sym (evaluate-decide now p incoming remote fw v.table) ∙ h in
      let opened =
        passed-Open p fw.options now clock now incoming remote fw v le (omega arith) refl decided in
      let o = Calls-Open p fw.options now now _ opened calls (omega arith) in
      evaluate-decide later p back other fw' o.inv.table
      ∙ Open-decide p fw.options now last later back other fw' o before
