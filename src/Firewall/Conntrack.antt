-- ===== src/Firewall/Conntrack.antt =====
-- nebula-firewall/src/conntrack.rs: the flow table with its heap of expiry slots. Instants and
-- durations are numbers of nanoseconds; the clock is an argument.
pub mod Purge
pub mod Table
use nebula_rs.Prelude.{
  ℕ, zero, suc, ◌+◌, Bool, true, false, ◌&&◌, ◌||◌, Option, none, some, List, [], ◌∷◌, ◌++◌, nat_eq,
  ◌==◌, ltb, leb, length, if◌then◌else◌,
}
use nebula_rs.Prelude.Map.{HashMap, get, insert, remove}
use nebula_rs.Net.{IpAddr, v4, v6}
use nebula_rs.Firewall.Packet.{Packet, Protocol, packet_eq}

pub record ConnEntry : Type 0 where
  pub expires : ℕ
  pub incoming : Bool
  pub rules_version : ℕ

abbrev pub Slot : Type 0
Slot = ℕ × Packet

-- The heap is listed in the order in which `pop` returns its slots.
pub record Conntrack : Type 0 where
  pub conns : HashMap Packet ConnEntry
  pub expiry_heap : List Slot

unfoldable pub conntrack_new : Conntrack
conntrack_new = record { conns = []; expiry_heap = [] }

-- The derived order of `(Instant, Packet)`: by fields, an enum by its variant first.
abbrev addr_key : IpAddr → List ℕ
addr_key (v4 a) = 0 ∷ a ∷ []
addr_key (v6 a) = 1 ∷ a ∷ []

abbrev protocol_key : Protocol → List ℕ
protocol_key Protocol.any = 0 ∷ 0 ∷ []
protocol_key Protocol.tcp = 1 ∷ 0 ∷ []
protocol_key Protocol.udp = 2 ∷ 0 ∷ []
protocol_key Protocol.icmp = 3 ∷ 0 ∷ []
protocol_key Protocol.icmp_v6 = 4 ∷ 0 ∷ []
protocol_key (Protocol.other v) = 5 ∷ v ∷ []

unfoldable pub packet_key : Packet → List ℕ
packet_key p =
    addr_key p.local_addr
    ++ (addr_key p.remote_addr
        ++ (p.local_port
            ∷ p.remote_port
            ∷ (protocol_key p.protocol ++ ((if p.fragment then 1 else 0) ∷ []))))

unfoldable pub lex_leb : List ℕ → List ℕ → Bool
lex_leb [] ys = true
lex_leb (x ∷ xs) [] = false
lex_leb (x ∷ xs) (y ∷ ys) = ltb x y || (x == y && lex_leb xs ys)

unfoldable pub slot_leb : Slot → Slot → Bool
slot_leb (t, p) (u, q) = ltb t u || (t == u && lex_leb (packet_key p) (packet_key q))

-- `BinaryHeap::push` of `Reverse(slot)`
unfoldable pub heap_push : Slot → List Slot → List Slot
heap_push s [] = s ∷ []
heap_push s (x ∷ h) = if slot_leb s x then s ∷ x ∷ h else x ∷ heap_push s h

-- The `match` of `purge_expired` on the entry of a popped slot.
unfoldable pub purge_slot : ℕ → Packet → Conntrack → Conntrack
purge_slot now packet ct = elim (get packet ct.conns) [
  | none ↦ ct
  | some entry ↦
      if leb entry.expires now
      then record ct { conns = remove packet ct.conns }
      else record ct { expiry_heap = heap_push (entry.expires, packet) ct.expiry_heap }
]

unfoldable pub purge_loop : ℕ → ℕ → Conntrack → Conntrack
purge_loop zero now ct = ct
purge_loop (suc fuel) now ct = elim ct.expiry_heap [
  | [] ↦ ct
  | s ∷ rest ↦
      let next = purge_loop fuel now (purge_slot now s.1 (record ct { expiry_heap = rest })) in
      if ltb now s.0 then ct else next
]

-- Each round takes a slot that is due, and puts back none: the slots are fuel enough.
unfoldable pub purge_expired : ℕ → Conntrack → Conntrack
purge_expired now ct = purge_loop (length ct.expiry_heap) now ct

-- `get`: the purged table, and the entry's direction and version.
unfoldable pub lookup_flow : Packet → ℕ → Conntrack → Conntrack × Option (Bool × ℕ)
lookup_flow packet now ct =
    let purged = purge_expired now ct in
    (
      purged,
      elim (get packet purged.conns) [ none ↦ none | some e ↦ some (e.incoming, e.rules_version) ],
    )

unfoldable pub record_flow : Packet → Bool → ℕ → ℕ → ℕ → Conntrack → Conntrack
record_flow packet incoming rules_version now timeout ct =
    let expires = now + timeout in
    let entry : ConnEntry = record {
      expires = expires;
      incoming = incoming;
      rules_version = rules_version;
    } in
    let conns = insert packet entry ct.conns in
    elim (get packet ct.conns) [
      | none ↦ record { conns = conns; expiry_heap = heap_push (expires, packet) ct.expiry_heap }
      | some old ↦ record { conns = conns; expiry_heap = ct.expiry_heap }
    ]

unfoldable pub remove_flow : Packet → Conntrack → Conntrack
remove_flow packet ct = record ct { conns = remove packet ct.conns }
