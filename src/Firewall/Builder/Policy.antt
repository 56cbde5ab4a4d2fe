-- ===== src/Firewall/Builder/Policy.antt =====
-- A whole rule set: what `add_rule` answers, and what the built tables decide for a list of rules.
use nebula_rs.Prelude.{
  ◌≡◌, refl, ◌∙◌, inl, inr, Bool, true, false, not, ◌||◌, List, [], ◌∷◌, arith, any, any-perm,
  if◌then◌else◌,
}
use nebula_rs.Prelude.Int.{ℤ}
use nebula_rs.Prelude.Map.{get}
use nebula_rs.Prelude.Result.{ok, err}
use nebula_rs.Net.{IpNet}
use nebula_rs.Firewall.Packet.{Packet}
use nebula_rs.Firewall.Identity.{PeerIdentity}
use nebula_rs.Firewall.Tree.{Direction, direction_matches, port_table_matches, rule_set_matches}
use nebula_rs.Firewall.Builder.{
  LocalCidrDefault, RuleArgs, RuleError, RuleSetBuilder, builder_new, build, add_rule, file_rule,
  update_direction, unknown_protocol,
}
use nebula_rs.Firewall.Builder.Ports.{port_bounds-cases}
use nebula_rs.Firewall.Builder.Sound.{matches-add_rule}
use nebula_rs.Firewall.RuleSpec.{is_valid, rule_allows}
use mathlib.Core.List.{Perm}

module _ {N : Type 0} ⦃net : IpNet N⦄ where
  update_direction_default :
      (incoming : Bool) (f : Direction N → Direction N) (b : RuleSetBuilder N)
      → (update_direction incoming f b).default_local_cidr ≡ b.default_local_cidr
  unfolding update_direction
  update_direction_default incoming f b = ground arith

  file_rule_default :
      (r : RuleArgs N) (bounds : ℤ × ℤ) (b : RuleSetBuilder N)
      → (file_rule r bounds b).default_local_cidr ≡ b.default_local_cidr
  unfolding file_rule
  file_rule_default r (lo, hi) b = update_direction_default r.incoming _ _

  add_rule_default :
      (r : RuleArgs N) (b : RuleSetBuilder N)
      → (add_rule r b).0.default_local_cidr ≡ b.default_local_cidr
  unfolding add_rule
  add_rule_default r b = elim (port_bounds-cases r.port) [
    | inl (v, (bounds, e)) ↦ ground (arith, e, file_rule_default r bounds b)
    | inr (v, (x, e)) ↦ ground (arith, e)
  ]

  -- add_rule succeeds on a rule with a range in order and a known protocol; on any other it reports
  -- an error and leaves the builder, its warnings included, unchanged.
  pub add_rule_result :
      (r : RuleArgs N) (b : RuleSetBuilder N)
      → (is_valid r ≡ true → (add_rule r b).1 ≡ ok tt)
        × (is_valid r ≡ false → (e : RuleError) × (add_rule r b ≡ (b, err e)))
  unfolding add_rule is_valid
  add_rule_result r b = elim (port_bounds-cases r.port) [
    | inl (v, (bounds, e)) ↦
        (λ h. ground (arith, e, v, h), λ h. (unknown_protocol r.proto, ground (arith, e, v, h)))
    | inr (v, (x, e)) ↦ (λ h. ground (arith, e, v, h), λ h. (x, ground (arith, e, v, h)))
  ]

  -- A client's sequence of `add_rule` calls.
  unfoldable pub add_rules : List (RuleArgs N) → RuleSetBuilder N → RuleSetBuilder N
  add_rules [] b = b
  add_rules (r ∷ rs) b = add_rules rs (add_rule r b).0

  module _ (p : Packet) (incoming : Bool) (remote : PeerIdentity N) where
    empty_denies :
        (nets : List N) (has_unsafe any_local : Bool)
        → rule_set_matches (build (builder_new nets has_unsafe any_local)) p incoming remote ≡ false
    unfolding rule_set_matches build builder_new direction_matches port_table_matches get
    empty_denies nets has_unsafe any_local = ground arith

    matches-add_rules_from :
        (rs : List (RuleArgs N)) (b : RuleSetBuilder N) (d : LocalCidrDefault N)
        → b.default_local_cidr ≡ d
        → rule_set_matches (build (add_rules rs b)) p incoming remote
          ≡ rule_set_matches (build b) p incoming remote
            || any (λ r. rule_allows d r p incoming remote) rs
    unfolding add_rules
    matches-add_rules_from [] b d e = ground arith
    matches-add_rules_from (r ∷ rs) b d e = ground (
      arith,
      e,
      matches-add_rules_from rs (add_rule r b).0 d (add_rule_default r b ∙ e),
      matches-add_rule p incoming remote r b,
    )

    -- The tables that the builder makes from a list of rules let a packet through, in either
    -- direction and for any peer, exactly if one of the rules does under a direct reading of it;
    -- invalid rules allow nothing.
    pub matches-add_rules :
        (rs : List (RuleArgs N)) (nets : List N) (has_unsafe any_local : Bool)
        → rule_set_matches
            (build (add_rules rs (builder_new nets has_unsafe any_local)))
            p
            incoming
            remote
          ≡ any
              (λ r.
                rule_allows
                  (if not has_unsafe || any_local
                    then LocalCidrDefault.any
                    else LocalCidrDefault.nets nets)
                  r
                  p
                  incoming
                  remote)
              rs
    unfolding builder_new
    matches-add_rules rs nets has_unsafe any_local = ground (
      arith,
      empty_denies nets has_unsafe any_local,
      matches-add_rules_from rs (builder_new nets has_unsafe any_local) _ refl,
    )

    -- Two lists of rules that are permutations of each other build tables that decide every packet
    -- alike.
    pub add_rules-perm :
        (rs qs : List (RuleArgs N)) (b : RuleSetBuilder N)
        → Perm rs qs
        → rule_set_matches (build (add_rules rs b)) p incoming remote
          ≡ rule_set_matches (build (add_rules qs b)) p incoming remote
    add_rules-perm rs qs b d = ground (
      arith,
      matches-add_rules_from rs b b.default_local_cidr refl,
      matches-add_rules_from qs b b.default_local_cidr refl,
      any-perm (λ r. rule_allows b.default_local_cidr r p incoming remote) d,
    )
