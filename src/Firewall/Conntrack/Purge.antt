-- ===== src/Firewall/Conntrack/Purge.antt =====
-- The purge loop: it ends with no slot due, keeps the invariant, and drops exactly what has expired.
use nebula_rs.Prelude.{
  ℕ, zero, suc, ◌+◌, ◌≤◌, ◌<◌, ◌≡◌, refl, ◌∙◌, ◌⊎◌, inl, inr, Bool, true, false, ◌&&◌, ◌||◌, Option,
  none, some, List, [], ◌∷◌, arith, ==_iff, ◌==◌, leb, length, any, All, if◌then◌else◌, Bool-cases,
  leb→le, leb→gt, Option-cases,
}
use nebula_rs.Prelude.Map.{get, get-remove}
use nebula_rs.Firewall.Packet.{Packet, packet_eq}
use nebula_rs.Firewall.Conntrack.{
  ConnEntry, Conntrack, Slot, slot_leb, heap_push, purge_slot, purge_loop, purge_expired,
}

-- The slots are in order of time.
abbrev pub IsSorted : List Slot → Type 0
IsSorted [] = Unit {0}
IsSorted (s ∷ h) = All (λ (x : Slot). s.0 ≤ x.0) h × IsSorted h

-- A slot of the flow is scheduled by the time `bound`.
abbrev pub covered : Packet → ℕ → List Slot → Bool
covered p bound h = any (λ (s : Slot). s.1 == p && leb s.0 bound) h

-- The number of slots whose time has come.
abbrev pub due : ℕ → List Slot → ℕ
due now [] = 0
due now (s ∷ h) = (if leb s.0 now then 1 else 0) + due now h

-- An entry counts until it expires.
abbrev pub live : ℕ → Option ConnEntry → Option ConnEntry
live now none = none
live now (some e) = if leb e.expires now then none else some e

-- Every tracked flow has a slot no later than its expiry, so that the heap never misses one.
pub record Inv (ct : Conntrack) : Type 0 where
  pub sorted : IsSorted ct.expiry_heap
  pub cover :
      (p : Packet) (e : ConnEntry)
      → get p ct.conns ≡ some e
      → covered p e.expires ct.expiry_heap ≡ true

All-le-push :
    (t : ℕ) (s : Slot) (h : List Slot)
    → t ≤ s.0
    → All (λ (x : Slot). t ≤ x.0) h
    → All (λ (x : Slot). t ≤ x.0) (heap_push s h)
unfolding heap_push
All-le-push t s [] le a = (le, tt)
All-le-push t s (x ∷ h) le a = ground (arith, All-le-push t s h le a.1)

All-le_trans :
    (t u : ℕ) (h : List Slot)
    → t ≤ u
    → All (λ (x : Slot). u ≤ x.0) h
    → All (λ (x : Slot). t ≤ x.0) h
All-le_trans t u [] le a = tt
All-le_trans t u (x ∷ h) le a = (omega arith, All-le_trans t u h le a.1)

pub heap_push-IsSorted : (s : Slot) (h : List Slot) → IsSorted h → IsSorted (heap_push s h)
unfolding heap_push slot_leb
heap_push-IsSorted s [] v = (tt, tt)
heap_push-IsSorted s (x ∷ h) v =
    ground (arith, heap_push-IsSorted s h v.1, All-le-push x.0 s h, All-le_trans s.0 x.0 h)

pub covered-push :
    (p : Packet) (bound : ℕ) (s : Slot) (h : List Slot)
    → covered p bound (heap_push s h) ≡ (s.1 == p && leb s.0 bound) || covered p bound h
unfolding heap_push
covered-push p bound s [] = ground arith
covered-push p bound s (x ∷ h) = ground (arith, covered-push p bound s h)

due-push :
    (now : ℕ) (s : Slot) (h : List Slot)
    → due now (heap_push s h) ≡ (if leb s.0 now then 1 else 0) + due now h
unfolding heap_push
due-push now s [] = refl
due-push now s (x ∷ h) = ground (arith, due-push now s h)

due-le-length : (now : ℕ) (h : List Slot) → due now h ≤ length h
due-le-length now [] = omega arith
due-le-length now (s ∷ h) = ground (arith, due-le-length now h)

-- One round on a due slot, by the entry that the flow has.
module _ (now : ℕ) (s : Slot) (rest : List Slot) (ct : Conntrack) (heap : ct.expiry_heap ≡ s ∷ rest)
    (is_due : s.0 ≤ now) where
  abbrev round : Conntrack
  round = purge_slot now s.1 (record ct { expiry_heap = rest })

  round-cover :
      (p : Packet) (e : ConnEntry)
      → ((e : ConnEntry) → get p ct.conns ≡ some e → covered p e.expires (s ∷ rest) ≡ true)
      → get p round.conns ≡ some e
      → covered p e.expires round.expiry_heap ≡ true
  unfolding purge_slot
  round-cover p e cover h = elim (Option-cases (get s.1 ct.conns)) [
    | inl n ↦ ground (arith, n, ==_iff s.1 p, cover e)
    | inr (x, n) ↦ ground (
      arith,
      n,
      ==_iff s.1 p,
      cover e,
      get-remove s.1 p ct.conns,
      covered-push p e.expires (x.expires, s.1) rest,
    )
  ]

  round-due : due now round.expiry_heap + 1 ≡ due now ct.expiry_heap
  unfolding purge_slot
  round-due = elim (Option-cases (get s.1 ct.conns)) [
    | inl n ↦ ground (arith, n)
    | inr (x, n) ↦ ground (arith, n, due-push now (x.expires, s.1) rest)
  ]

  round-live : (p : Packet) → live now (get p round.conns) ≡ live now (get p ct.conns)
  unfolding purge_slot
  round-live p = elim (Option-cases (get s.1 ct.conns)) [
    | inl n ↦ ground (arith, n)
    | inr (x, n) ↦ ground (arith, n, ==_iff s.1 p, get-remove s.1 p ct.conns)
  ]

  round-Sorted : IsSorted (s ∷ rest) → IsSorted round.expiry_heap
  unfolding purge_slot
  round-Sorted v = elim (Option-cases (get s.1 ct.conns)) [
    | inl n ↦ ground (arith, n)
    | inr (x, n) ↦ ground (arith, n, heap_push-IsSorted (x.expires, s.1) rest v.1)
  ]

  round-Inv : Inv ct → Inv round
  round-Inv v = record {
    sorted = round-Sorted (rw heap at v.sorted);
    cover = λ p e h. round-cover p e (λ e'. rw heap at (v.cover p e')) h;
  }

due-later : (now t : ℕ) (h : List Slot) → now < t → All (λ (x : Slot). t ≤ x.0) h → due now h ≡ 0
due-later now t [] lt a = refl
due-later now t (x ∷ h) lt a = ground (arith, due-later now t h lt a.1)

-- What a purge from `ct` to `r` promises.
pub record Purges (now : ℕ) (ct r : Conntrack) : Type 0 where
  pub inv : Inv r
  pub none_due : due now r.expiry_heap ≡ 0
  pub same_live : (p : Packet) → live now (get p r.conns) ≡ live now (get p ct.conns)

List-cases : (h : List Slot) → (h ≡ []) ⊎ ((s : Slot) × (rest : List Slot) × (h ≡ s ∷ rest))
List-cases [] = inl refl
List-cases (s ∷ rest) = inr (s, rest, refl)

purge_loop_stop :
    (fuel now : ℕ) (ct : Conntrack) (s : Slot) (rest : List Slot)
    → ct.expiry_heap ≡ s ∷ rest
    → now < s.0
    → purge_loop (suc fuel) now ct ≡ ct
unfolding purge_loop
purge_loop_stop fuel now ct s rest e lt = ground (arith, e)

purge_loop_step :
    (fuel now : ℕ) (ct : Conntrack) (s : Slot) (rest : List Slot)
    → ct.expiry_heap ≡ s ∷ rest
    → s.0 ≤ now
    → purge_loop (suc fuel) now ct
      ≡ purge_loop fuel now (purge_slot now s.1 (record ct { expiry_heap = rest }))
unfolding purge_loop
purge_loop_step fuel now ct s rest e le = ground (arith, e)

purge_loop_empty :
    (fuel now : ℕ) (ct : Conntrack) → ct.expiry_heap ≡ [] → purge_loop (suc fuel) now ct ≡ ct
unfolding purge_loop
purge_loop_empty fuel now ct e = ground (arith, e)

purge_loop-Purges :
    (fuel now : ℕ) (ct : Conntrack)
    → due now ct.expiry_heap ≤ fuel
    → Inv ct
    → Purges now ct (purge_loop fuel now ct)
purge_loop-Purges zero now ct le v =
    unfold purge_loop in record { inv = v; none_due = omega arith; same_live = λ p. refl }
purge_loop-Purges (suc fuel) now ct le v = elim (List-cases ct.expiry_heap) [
  | inl e ↦
      rw (purge_loop_empty fuel now ct e)
        (record { inv = v; none_due = rw e; same_live = λ p. refl })
  | inr (s, rest, e) ↦ elim (Bool-cases (leb s.0 now)) [
    | inl over ↦
        let r = round now s rest ct e (leb→le s.0 now over) in
        let ih : Purges now r (purge_loop fuel now r) =
          purge_loop-Purges fuel now r
            (omega (arith, round-due now s rest ct e (leb→le s.0 now over)))
            (round-Inv now s rest ct e (leb→le s.0 now over) v) in
        rw (purge_loop_step fuel now ct s rest e (leb→le s.0 now over)) (record {
          inv = ih.inv;
          none_due = ih.none_due;
          same_live = λ p. ih.same_live p ∙ round-live now s rest ct e (leb→le s.0 now over) p;
        })
    | inr later ↦
        let sorted : IsSorted (s ∷ rest) = rw e at v.sorted in
        rw (purge_loop_stop fuel now ct s rest e (leb→gt s.0 now later)) (record {
          inv = v;
          none_due = ground (arith, e, due-later now s.0 rest (leb→gt s.0 now later) sorted.0);
          same_live = λ p. refl;
        })
  ]
]

-- The purge loop needs no more rounds than there are slots: under the invariant it stops with no
-- slot due, keeps the invariant, drops no live entry and changes no other.
pub purge_expired-Purges :
    (now : ℕ) (ct : Conntrack) → Inv ct → Purges now ct (purge_expired now ct)
unfolding purge_expired
purge_expired-Purges now ct v =
    purge_loop-Purges (length ct.expiry_heap) now ct (due-le-length now ct.expiry_heap) v

-- A slot that covers an entry is due when the entry has expired.
not-covered :
    (p : Packet) (bound now : ℕ) (h : List Slot)
    → due now h ≡ 0
    → bound ≤ now
    → covered p bound h ≡ false
not-covered p bound now [] z le = refl
not-covered p bound now (s ∷ h) z le = ground (arith, not-covered p bound now h)

-- If every tracked flow has a slot no later than its expiry and the heap is in order, a lookup
-- after the purge finds a flow exactly if its entry is there and expires after now.
pub get-purge_expired :
    (now : ℕ) (ct : Conntrack) (p : Packet)
    → Inv ct
    → get p (purge_expired now ct).conns ≡ live now (get p ct.conns)
get-purge_expired now ct p v =
    let r = purge_expired now ct in
    let purged : Purges now ct r = purge_expired-Purges now ct v in
    elim (Option-cases (get p r.conns)) [
      | inl n ↦ ground (arith, n, purged.same_live p)
      | inr (e, n) ↦ ground (
        arith,
        n,
        purged.same_live p,
        purged.inv.cover p e n,
        not-covered p e.expires now r.expiry_heap purged.none_due,
      )
    ]
