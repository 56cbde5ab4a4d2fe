-- ===== src/Firewall/Builder/Ports.antt =====
-- What one added rule does to the lookup in a port table.
use nebula_rs.Prelude.{
  ℕ, ◌≤◌, ◌≡◌, refl, Bool, true, false, ◌&&◌, ◌||◌, List, [], ◌∷◌, arith, nat_eq, contains,
  Bool-cases, inl, inr, leb, ◌⊎◌,
}
use nebula_rs.Prelude.Int.{ℤ, pos, int_eq, inclusive, inclusive-pos, inclusive-negsuc, count_up}
use nebula_rs.Prelude.Map.{get, update_entry}
use nebula_rs.Prelude.Result.{ok, err}
use nebula_rs.Net.{IpNet}
use nebula_rs.Firewall.Packet.{Packet}
use nebula_rs.Firewall.Identity.{PeerIdentity}
use nebula_rs.Firewall.Tree.{
  PortTable, some_and, no_ca_rule, port_any, port_fragment, lookup_port, ca_rule_matches,
  port_table_matches,
}
use nebula_rs.Firewall.Builder.{
  PortSpec, LocalCidrDefault, RuleArgs, add_ports, add_to_ca_rule, port_bounds, RuleError,
  invalid_port_range,
}
use nebula_rs.Firewall.Builder.Peer.{some_and-update_entry, ca_rule_matches-add}
use nebula_rs.Firewall.RuleSpec.{body_fits, port_fits, is_valid_port}

-- Whether the first or the second lookup of a packet hits a key of `lo..=hi`.
pub fits_keys : ℤ → ℤ → Packet → Bool → Bool
fits_keys lo hi p incoming =
    contains (inclusive lo hi) (lookup_port p incoming) || contains (inclusive lo hi) port_any

module _ {N : Type 0} ⦃net : IpNet N⦄ (d : LocalCidrDefault N) (r : RuleArgs N) (p : Packet)
    (remote : PeerIdentity N) where
  no_ca_rule_matches : ca_rule_matches p remote no_ca_rule ≡ false
  unfolding ca_rule_matches get
  no_ca_rule_matches = refl

  get-add_ports :
      (ps : List ℤ) (key : ℤ) (t : PortTable N)
      → some_and (get key (add_ports d r ps t)) (ca_rule_matches p remote)
        ≡ some_and (get key t) (ca_rule_matches p remote)
          || (contains ps key && body_fits d r p remote)
  unfolding add_ports
  get-add_ports [] key t = ground arith
  get-add_ports (q ∷ ps) key t = ground (
    arith,
    get-add_ports ps key (update_entry q no_ca_rule (add_to_ca_rule d r) t),
    some_and-update_entry q key no_ca_rule (add_to_ca_rule d r) (ca_rule_matches p remote)
        (body_fits d r p remote) (ca_rule_matches-add p remote d r) no_ca_rule_matches t,
  )

  -- The table that a rule was filed in answers as before, or for the ports of the rule.
  pub port_table_matches-add_ports :
      (lo hi : ℤ) (incoming : Bool) (t : PortTable N)
      → port_table_matches (add_ports d r (inclusive lo hi) t) p incoming remote
        ≡ port_table_matches t p incoming remote
          || (fits_keys lo hi p incoming && body_fits d r p remote)
  unfolding port_table_matches fits_keys
  port_table_matches-add_ports lo hi incoming t = ground (
    arith,
    get-add_ports (inclusive lo hi) (lookup_port p incoming) t,
    get-add_ports (inclusive lo hi) port_any t,
  )

fits_keys-range :
    (a b : ℕ) (p : Packet) (incoming : Bool)
    → a ≤ b
    → fits_keys (pos a) (pos b) p incoming ≡ port_fits (PortSpec.range a b) p incoming
unfolding port_fits fits_keys
fits_keys-range a b p true h =
    ground (arith, inclusive-pos a b p.local_port, inclusive-pos a b 0, inclusive-negsuc a b 0)
fits_keys-range a b p false h =
    ground (arith, inclusive-pos a b p.remote_port, inclusive-pos a b 0, inclusive-negsuc a b 0)

fits_keys-single :
    (q : ℕ) (p : Packet) (incoming : Bool)
    → fits_keys (pos q) (pos q) p incoming ≡ port_fits (PortSpec.single q) p incoming
unfolding port_fits
fits_keys-single q p true = ground (arith, fits_keys-range q q p true (omega arith))
fits_keys-single q p false = ground (arith, fits_keys-range q q p false (omega arith))

pub fits_keys-any : (p : Packet) (incoming : Bool) → fits_keys port_any port_any p incoming ≡ true
unfolding fits_keys count_up
fits_keys-any p incoming = ground arith

fits_keys-fragment :
    (p : Packet) (incoming : Bool) → fits_keys port_fragment port_fragment p incoming ≡ p.fragment
unfolding fits_keys count_up
fits_keys-fragment p true = ground arith
fits_keys-fragment p false = ground arith

-- The keys that a port selector stands for, as `port_bounds` gives them.
pub fits_keys-port_bounds :
    (s : PortSpec) (p : Packet) (incoming : Bool) (lo hi : ℤ)
    → port_bounds s ≡ ok (lo, hi)
    → fits_keys lo hi p incoming ≡ port_fits s p incoming
unfolding port_bounds
fits_keys-port_bounds PortSpec.any p incoming lo hi e =
    unfold port_fits in cc (fits_keys-any p incoming)
fits_keys-port_bounds PortSpec.fragment p incoming lo hi e =
    unfold port_fits in cc (fits_keys-fragment p incoming)
fits_keys-port_bounds (PortSpec.single q) p incoming lo hi e = cc (fits_keys-single q p incoming)
fits_keys-port_bounds (PortSpec.range a b) p incoming lo hi e =
    ground (arith, fits_keys-range a b p incoming)

-- `port_bounds` refuses inverted ranges, and nothing else.
pub port_bounds-cases :
    (s : PortSpec)
    → ((is_valid_port s ≡ true) × ((b : ℤ × ℤ) × (port_bounds s ≡ ok b)))
      ⊎ ((is_valid_port s ≡ false) × ((e : RuleError) × (port_bounds s ≡ err e)))
unfolding port_bounds
port_bounds-cases PortSpec.any = inl (refl, ((port_any, port_any), refl))
port_bounds-cases PortSpec.fragment = inl (refl, ((port_fragment, port_fragment), refl))
port_bounds-cases (PortSpec.single q) = inl (refl, ((pos q, pos q), refl))
port_bounds-cases (PortSpec.range a b) = elim (Bool-cases (leb a b)) [
  | inl h ↦ inl (h, ((pos a, pos b), ground (arith, h)))
  | inr h ↦ inr (h, (invalid_port_range a b, ground (arith, h)))
]
