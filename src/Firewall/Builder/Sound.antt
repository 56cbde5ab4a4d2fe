-- ===== src/Firewall/Builder/Sound.antt =====
-- The rule tables implement the rules: a lookup answers true exactly if an added rule fits.
use nebula_rs.Prelude.{
  ◌≡◌, refl, ◌∙◌, Bool, true, false, not, ◌&&◌, ◌||◌, List, arith, if◌then◌else◌, Bool-cases, inl,
  inr,
}
use nebula_rs.Prelude.Int.{ℤ, inclusive}
use nebula_rs.Prelude.Result.{ok}
use nebula_rs.Net.{IpNet}
use nebula_rs.Firewall.Packet.{Packet, Protocol}
use nebula_rs.Firewall.Identity.{PeerIdentity}
use nebula_rs.Firewall.Tree.{
  PortTable, Direction, port_any, port_table_matches, direction_matches, rule_set_matches,
}
use nebula_rs.Firewall.Builder.{
  LocalCidrDefault, PortSpec, RuleArgs, RuleSetBuilder, RuleWarning, build, add_ports, add_rule,
  file_rule, update_table, update_direction, is_icmp, is_other, is_port_any, port_bounds,
}
use nebula_rs.Firewall.Builder.Ports.{
  fits_keys, fits_keys-any, fits_keys-port_bounds, port_bounds-cases, port_table_matches-add_ports,
}
use nebula_rs.Firewall.RuleSpec.{
  body_fits, port_fits, is_valid, protocol_fits, same_direction, rule_allows,
}

port_fits-any :
    (s : PortSpec) (p : Packet) (incoming : Bool)
    → is_port_any s ≡ true
    → port_fits s p incoming ≡ true
unfolding port_fits
port_fits-any PortSpec.any p incoming h = refl
port_fits-any PortSpec.fragment p incoming h = cc
port_fits-any (PortSpec.single q) p incoming h = cc
port_fits-any (PortSpec.range a b) p incoming h = cc

module _ {N : Type 0} ⦃net : IpNet N⦄ (p : Packet) (incoming : Bool) (remote : PeerIdentity N) where
  -- A change of the selected table shows for the packets of that protocol.
  direction_matches-update_table :
      (proto : Protocol) (f : PortTable N → PortTable N) (c : Bool) (d : Direction N)
      → ((t : PortTable N)
          → port_table_matches (f t) p incoming remote
            ≡ port_table_matches t p incoming remote || c)
      → direction_matches (update_table proto f d) p incoming remote
        ≡ direction_matches d p incoming remote || (protocol_fits proto p.protocol && c)
  unfolding direction_matches update_table protocol_fits
  direction_matches-update_table Protocol.any f c d h = ground (arith, h d.any_proto)
  direction_matches-update_table Protocol.tcp f c d h = ground (arith, h d.tcp)
  direction_matches-update_table Protocol.udp f c d h = ground (arith, h d.udp)
  direction_matches-update_table Protocol.icmp f c d h = ground (arith, h d.icmp)
  direction_matches-update_table Protocol.icmp_v6 f c d h = ground (arith, h d.icmp)
  direction_matches-update_table (Protocol.other v) f c d h = ground arith

  -- A change of one direction shows for the packets of that direction.
  rule_set_matches-update_direction :
      (rule_incoming : Bool) (f : Direction N → Direction N) (c : Bool) (b : RuleSetBuilder N)
      → ((d : Direction N)
          → direction_matches (f d) p incoming remote ≡ direction_matches d p incoming remote || c)
      → rule_set_matches (build (update_direction rule_incoming f b)) p incoming remote
        ≡ rule_set_matches (build b) p incoming remote
          || (same_direction rule_incoming incoming && c)
  unfolding rule_set_matches build update_direction same_direction
  rule_set_matches-update_direction true f c b h = ground (arith, h b.inbound)
  rule_set_matches-update_direction false f c b h = ground (arith, h b.outbound)

  rule_set_matches-add_ports :
      (d : LocalCidrDefault N) (r : RuleArgs N) (lo hi : ℤ) (b : RuleSetBuilder N)
      → rule_set_matches
          (build (
            update_direction r.incoming (update_table r.proto (add_ports d r (inclusive lo hi))) b))
          p
          incoming
          remote
        ≡ rule_set_matches (build b) p incoming remote
          || (same_direction r.incoming incoming
              && (protocol_fits r.proto p.protocol
                  && (fits_keys lo hi p incoming && body_fits d r p remote)))
  rule_set_matches-add_ports d r lo hi b = rule_set_matches-update_direction r.incoming _ _ b λ dir.
      direction_matches-update_table r.proto _ _ dir
        λ t. port_table_matches-add_ports d r p remote lo hi incoming t

  rule_set_matches-warnings :
      (b : RuleSetBuilder N) (w : List (RuleWarning N))
      → rule_set_matches (build (record b { warnings = w })) p incoming remote
        ≡ rule_set_matches (build b) p incoming remote
  unfolding build
  rule_set_matches-warnings b w = refl

  -- A port on an ICMP rule is ignored.
  rule_set_matches-file_rule :
      (r : RuleArgs N) (lo hi : ℤ) (b : RuleSetBuilder N)
      → rule_set_matches (build (file_rule r (lo, hi) b)) p incoming remote
        ≡ rule_set_matches (build b) p incoming remote
          || (same_direction r.incoming incoming
              && (protocol_fits r.proto p.protocol
                  && ((if is_icmp r.proto && not (is_port_any r.port)
                        then true
                        else fits_keys lo hi p incoming)
                      && body_fits b.default_local_cidr r p remote)))
  unfolding file_rule
  rule_set_matches-file_rule r lo hi b =
      elim (Bool-cases (is_icmp r.proto && not (is_port_any r.port))) [
        | inl h ↦ rw h (
            rule_set_matches-add_ports b.default_local_cidr r port_any port_any _
            ∙ rw (fits_keys-any p incoming) (rw rule_set_matches-warnings refl))
        | inr h ↦ rw h (
            rule_set_matches-add_ports b.default_local_cidr r lo hi _
            ∙ rw rule_set_matches-warnings refl)
      ]

  icmp_or_fits :
      (r : RuleArgs N) (lo hi : ℤ)
      → port_bounds r.port ≡ ok (lo, hi)
      → (if is_icmp r.proto && not (is_port_any r.port) then true else fits_keys lo hi p incoming)
        ≡ is_icmp r.proto || port_fits r.port p incoming
  icmp_or_fits r lo hi e =
      ground
        (arith, fits_keys-port_bounds r.port p incoming lo hi e, port_fits-any r.port p incoming)

  -- Adding a rule lets through what the rule allows, and changes no other answer. A rule that
  -- `add_rule` refuses allows nothing.
  pub matches-add_rule :
      (r : RuleArgs N) (b : RuleSetBuilder N)
      → rule_set_matches (build (add_rule r b).0) p incoming remote
        ≡ rule_set_matches (build b) p incoming remote
          || rule_allows b.default_local_cidr r p incoming remote
  unfolding add_rule rule_allows is_valid
  matches-add_rule r b = elim (port_bounds-cases r.port) [
    | inl (v, ((lo, hi), e)) ↦ elim (Bool-cases (is_other r.proto)) [
      | inl o ↦ ground (arith, v, e, o)
      | inr o ↦
          ground (arith, v, e, o, rule_set_matches-file_rule r lo hi b, icmp_or_fits r lo hi e)
    ]
    | inr (v, (x, e)) ↦ ground (arith, v, e)
  ]
