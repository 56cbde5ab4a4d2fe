-- ===== src/Firewall/Conntrack/Table.antt =====
-- The operations of the flow table seen as a map from packets to entries that counts an entry until
-- it expires: the lazy heap is invisible.
use nebula_rs.Prelude.{
  ℕ, ◌+◌, ◌≤◌, ◌≡◌, refl, inl, inr, Bool, true, Option, none, some, List, [], ◌∷◌, arith, ==_iff,
  ◌==◌, if◌then◌else◌, Option-cases,
}
use nebula_rs.Prelude.Map.{get, get-insert, get-remove}
use nebula_rs.Firewall.Packet.{Packet, packet_eq}
use nebula_rs.Firewall.Conntrack.{
  ConnEntry, Conntrack, Slot, conntrack_new, purge_expired, heap_push, lookup_flow, record_flow,
  remove_flow,
}
use nebula_rs.Firewall.Conntrack.Purge.{
  Inv, live, covered, covered-push, heap_push-IsSorted, get-purge_expired,
}

-- What `get` hands back of an entry.
abbrev pub seen : Option ConnEntry → Option (Bool × ℕ)
seen none = none
seen (some e) = some (e.incoming, e.rules_version)

pub conntrack_new-Inv : Inv conntrack_new
unfolding conntrack_new get
conntrack_new-Inv = record { sorted = tt; cover = λ p e h. cc }

pub get-conntrack_new : (p : Packet) → get p conntrack_new.conns ≡ none
unfolding conntrack_new get
get-conntrack_new p = refl

-- `get` answers with the entry of the flow if and only if that has not expired.
pub lookup_flow-live :
    (p : Packet) (now : ℕ) (ct : Conntrack)
    → Inv ct
    → (lookup_flow p now ct).1 ≡ seen (live now (get p ct.conns))
unfolding lookup_flow
lookup_flow-live p now ct v = ground (arith, get-purge_expired now ct p v)

pub lookup_flow-table :
    (p : Packet) (now : ℕ) (ct : Conntrack) → (lookup_flow p now ct).0 ≡ purge_expired now ct
unfolding lookup_flow
lookup_flow-table p now ct = refl

covered_mono :
    (p : Packet) (bound bound' : ℕ) (h : List Slot)
    → bound ≤ bound'
    → covered p bound h ≡ true
    → covered p bound' h ≡ true
covered_mono p bound bound' [] le c = c
covered_mono p bound bound' (s ∷ h) le c = ground (arith, covered_mono p bound bound' h le)

module _ (p : Packet) (incoming : Bool) (version now timeout : ℕ) (ct : Conntrack) where
  abbrev new_entry : ConnEntry
  new_entry = record { expires = now + timeout; incoming = incoming; rules_version = version }

  pub get-record_flow :
      (q : Packet)
      → get q (record_flow p incoming version now timeout ct).conns
        ≡ (if p == q then some new_entry else get q ct.conns)
  unfolding record_flow
  get-record_flow q = elim (Option-cases (get p ct.conns)) [
    | inl n ↦ rw (n, record_flow) (get-insert p q new_entry ct.conns)
    | inr (e, n) ↦ rw (n, record_flow) (get-insert p q new_entry ct.conns)
  ]

  -- A slot is scheduled for a new flow only.
  heap_new :
      get p ct.conns ≡ none
      → (record_flow p incoming version now timeout ct).expiry_heap
        ≡ heap_push (now + timeout, p) ct.expiry_heap
  unfolding record_flow
  heap_new n = rw (n, record_flow)

  pub heap_known :
      (old : ConnEntry)
      → get p ct.conns ≡ some old
      → (record_flow p incoming version now timeout ct).expiry_heap ≡ ct.expiry_heap
  unfolding record_flow
  heap_known old n = rw (n, record_flow)

  record_flow-cover :
      (q : Packet) (e : ConnEntry)
      → Inv ct
      → ((old : ConnEntry) → get p ct.conns ≡ some old → old.expires ≤ now + timeout)
      → get q (record_flow p incoming version now timeout ct).conns ≡ some e
      → covered q e.expires (record_flow p incoming version now timeout ct).expiry_heap ≡ true
  record_flow-cover q e v later h = elim (Option-cases (get p ct.conns)) [
    | inl n ↦ ground (
      arith,
      heap_new n,
      get-record_flow q,
      ==_iff p q,
      covered-push q e.expires (now + timeout, p) ct.expiry_heap,
      v.cover q e,
    )
    | inr (old, n) ↦ ground (
      arith,
      heap_known old n,
      get-record_flow q,
      ==_iff p q,
      later old n,
      v.cover p old n,
      v.cover q e,
      covered_mono p old.expires (now + timeout) ct.expiry_heap,
    )
  ]

  -- A flow may be recorded anew with an expiry no earlier than the one it has.
  pub record_flow-Inv :
      Inv ct
      → ((old : ConnEntry) → get p ct.conns ≡ some old → old.expires ≤ now + timeout)
      → Inv (record_flow p incoming version now timeout ct)
  record_flow-Inv v later = record {
    sorted = elim (Option-cases (get p ct.conns)) [
      | inl n ↦ rw (heap_new n) (heap_push-IsSorted (now + timeout, p) ct.expiry_heap v.sorted)
      | inr (old, n) ↦ rw (heap_known old n) v.sorted
    ];
    cover = λ q e h. record_flow-cover q e v later h;
  }

pub get-remove_flow :
    (p q : Packet) (ct : Conntrack)
    → get q (remove_flow p ct).conns ≡ (if p == q then none else get q ct.conns)
unfolding remove_flow
get-remove_flow p q ct = get-remove p q ct.conns

pub remove_flow-Inv : (p : Packet) (ct : Conntrack) → Inv ct → Inv (remove_flow p ct)
unfolding remove_flow
remove_flow-Inv p ct v = record {
  sorted = v.sorted;
  cover = λ q e h. ground (arith, get-remove p q ct.conns, v.cover q e, h);
}
