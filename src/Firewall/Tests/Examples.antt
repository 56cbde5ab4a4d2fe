-- ===== src/Firewall/Tests/Examples.antt =====
-- The theorems of the firewall at concrete inputs.
use nebula_rs.Prelude.{
  ℕ, zero, suc, ◌^◌, ◌≡◌, ◌≢◌, refl, ap, ◌⊎◌, true, false, ◌||◌, some, List, [], ◌∷◌, arith, any,
  length, nat_eq, ◌==◌,
}
use nebula_rs.Prelude.Map.{get}
use nebula_rs.Prelude.Result.{ok, err}
use nebula_rs.Net.{IpAddr, addr_eq, Prefix, prefix_net}
use nebula_rs.Firewall.Packet.{packet_eq}
use nebula_rs.Firewall.Identity.{any_contains}
use nebula_rs.Firewall.Tree.{RuleSet, rule_set_matches}
use nebula_rs.Firewall.Builder.{
  PortSpec, LocalCidrDefault, RuleArgs, RuleError, builder_new, build, add_rule,
}
use nebula_rs.Firewall.Builder.Policy.{add_rule_result, matches-add_rules, add_rules-perm}
use nebula_rs.Firewall.RuleSpec.{is_valid, rule_allows}
use nebula_rs.Firewall.Conntrack.{ConnEntry, Conntrack, conntrack_new, purge_expired, record_flow}
use nebula_rs.Firewall.Conntrack.Purge.{Inv, Purges, live, get-purge_expired, purge_expired-Purges}
use nebula_rs.Firewall.Conntrack.Table.{conntrack_new-Inv, record_flow-Inv, get-conntrack_new}
use nebula_rs.Firewall.Engine.{Firewall, firewall_new, reload, evaluate}
use nebula_rs.Firewall.Engine.Decision.{decide, evaluate-decide}
use nebula_rs.Firewall.Engine.State.{
  FirewallInv, next_entry, get-evaluate, evaluate-FirewallInv, reload-FirewallInv,
}
use nebula_rs.Firewall.Engine.Flows.{firewall_new_routes, evaluate_revalidates}
use nebula_rs.Firewall.Engine.Legs.{Calls, no_call, then_call, evaluate_return_leg}
use nebula_rs.Firewall.Engine.Trace.{
  Reach, start, call, swap, Justified, Reach-FirewallInv, Reach-Justified,
}
use nebula_rs.Firewall.Engine.Wrap.{reload_all, evaluate_wraps}
use mathlib.Core.List.Perm
use nebula_rs.Firewall.Tests.{
  running, host, options, packet, remote, rule_on, rules_of, allow_any_firewall,
  firewall_new_builds, allows_inbound,
}

abbrev two_rules : List (RuleArgs Prefix)
two_rules = rule_on (PortSpec.range 20 30) ∷ rule_on (PortSpec.single 10) ∷ []

matches-add_rules_example :
    rule_set_matches (rules_of two_rules) packet true remote
    ≡ any (λ r. rule_allows LocalCidrDefault.any r packet true remote) two_rules
matches-add_rules_example = matches-add_rules packet true remote two_rules (host ∷ []) false false

add_rules-perm_example :
    rule_set_matches (rules_of two_rules) packet true remote
    ≡ rule_set_matches
        (rules_of (rule_on (PortSpec.single 10) ∷ rule_on (PortSpec.range 20 30) ∷ []))
        packet
        true
        remote
add_rules-perm_example =
    add_rules-perm packet true remote two_rules _ (builder_new (host ∷ []) false false)
      (Perm.swap _ _ [])

add_rule_result_example :
    (is_valid (rule_on (PortSpec.range 9 3)) ≡ true
      → (add_rule (rule_on (PortSpec.range 9 3)) (builder_new [] true false)).1 ≡ ok tt)
    × (is_valid (rule_on (PortSpec.range 9 3)) ≡ false
        → (e : RuleError) × (add_rule (rule_on (PortSpec.range 9 3)) (builder_new [] true false)
            ≡ (builder_new [] true false, err e)))
add_rule_result_example = add_rule_result (rule_on (PortSpec.range 9 3)) (builder_new [] true false)

-- A flow recorded at time 0 with a timeout of 10, refreshed at time 5.
abbrev one_flow : Conntrack
one_flow = record_flow packet true 0 0 10 conntrack_new

abbrev refreshed : Conntrack
refreshed = record_flow packet true 0 5 10 one_flow

one_flow-Inv : Inv one_flow
unfolding running
one_flow-Inv =
    record_flow-Inv packet true 0 0 10 conntrack_new conntrack_new-Inv
      (λ old g. ground (arith, get-conntrack_new packet, g))

refreshed-Inv : Inv refreshed
refreshed-Inv =
    record_flow-Inv packet true 0 5 10 one_flow one_flow-Inv
      (λ old g. unfold running in ground (arith, g))

get-purge_expired_example :
    get packet (purge_expired 12 refreshed).conns ≡ live 12 (get packet refreshed.conns)
get-purge_expired_example = get-purge_expired 12 refreshed packet refreshed-Inv

purge_expired-Purges_example : Purges 12 refreshed (purge_expired 12 refreshed)
purge_expired-Purges_example = purge_expired-Purges 12 refreshed refreshed-Inv

firewall_new_routes_example :
    (fw : Firewall Prefix) × (firewall_new (rules_of two_rules) options (host ∷ []) [] ≡ some fw)
    × ((a : IpAddr)
        → any_contains fw.routable_networks a
          ≡ any (λ n. n.base == a) (host ∷ []) || any_contains {N = Prefix} [] a)
firewall_new_routes_example = firewall_new_routes (rules_of two_rules) options (host ∷ []) []

abbrev started : Reach 0 0 allow_any_firewall
started = start (rules_of (rule_on PortSpec.any ∷ [])) options (host ∷ []) [] firewall_new_builds

fresh-FirewallInv : FirewallInv 0 allow_any_firewall
fresh-FirewallInv = Reach-FirewallInv started

evaluate-decide_example :
    (evaluate 3 packet true remote allow_any_firewall).1
    ≡ decide 3 packet true remote allow_any_firewall
evaluate-decide_example =
    evaluate-decide 3 packet true remote allow_any_firewall fresh-FirewallInv.table

get-evaluate_example :
    get packet (evaluate 3 packet true remote allow_any_firewall).0.conntrack.conns
    ≡ next_entry 3 packet true remote allow_any_firewall
get-evaluate_example =
    get-evaluate 3 packet true remote allow_any_firewall fresh-FirewallInv.table packet

-- The first packet of a flow, a reload, and the return leg under the new rules.
abbrev after_first : Firewall Prefix
after_first = (evaluate 0 packet true remote allow_any_firewall).0

abbrev narrowed : Firewall Prefix
narrowed = reload (rules_of two_rules) after_first

abbrev reached : Reach 1 4 (evaluate 4 packet false remote narrowed).0
reached =
    call (swap (call started 0 packet true remote (omega arith)) (rules_of two_rules)) 4 packet
      false remote (omega arith)

Reach-FirewallInv_example : FirewallInv 4 (evaluate 4 packet false remote narrowed).0
Reach-FirewallInv_example = Reach-FirewallInv reached

Reach-Justified_example : Justified (evaluate 4 packet false remote narrowed).0
Reach-Justified_example = Reach-Justified reached (omega arith)

-- A packet of another flow, which is dropped, and one of this flow back, within the minute.
abbrev in_between : Firewall Prefix
in_between =
    (evaluate 30 packet false remote
      (evaluate 10 (record packet { local_port = 81 }) false remote after_first).0).0

abbrev calls_between : Calls 0 after_first 30 in_between
calls_between =
    then_call (then_call no_call 10 (record packet { local_port = 81 }) false remote (omega arith))
      30 packet false remote (omega arith)

evaluate_return_leg_example : (evaluate 59 packet false remote in_between).1 ≡ ok tt
evaluate_return_leg_example =
    evaluate_return_leg 0 0 30 59 packet true false remote remote allow_any_firewall in_between
      fresh-FirewallInv (omega arith) allows_inbound calls_between (omega arith) (omega arith)

narrowed-FirewallInv : FirewallInv 0 narrowed
narrowed-FirewallInv =
    reload-FirewallInv (rules_of two_rules) 0 after_first (
      evaluate-FirewallInv 0 packet true remote allow_any_firewall 0 (omega arith)
        fresh-FirewallInv)

narrowed_is_newer :
    (e : ConnEntry)
    → get packet narrowed.conntrack.conns ≡ some e
    → e.rules_version ≢ narrowed.version
unfolding running
narrowed_is_newer e g = ground (arith, g)

narrowed_passes : (evaluate 4 packet false remote narrowed).1 ≡ ok tt
unfolding running
narrowed_passes = refl

evaluate_revalidates_example :
    (rule_set_matches (rules_of two_rules) packet true remote ≡ true)
    ⊎ (rule_set_matches (rules_of two_rules) packet false remote ≡ true)
unfolding build reload
evaluate_revalidates_example =
    evaluate_revalidates 4 0 packet false remote narrowed narrowed-FirewallInv narrowed_is_newer
      narrowed_passes

abbrev closed : RuleSet Prefix
closed = rules_of []

pub replicate {ℓ} : {A : Type ℓ} → ℕ → A → List A
replicate zero a = []
replicate (suc n) a = a ∷ replicate n a

length-replicate {ℓ} : {A : Type ℓ} (n : ℕ) (a : A) → length (replicate n a) ≡ n
unfolding replicate
length-replicate zero a = refl
length-replicate (suc n) a = ap suc (length-replicate n a)

abbrev tracked : ConnEntry
tracked = record { expires = 60; incoming = true; rules_version = 0 }

after_first_entry : get packet after_first.conntrack.conns ≡ some tracked
unfolding running
after_first_entry = refl

after_first_version : after_first.version ≡ 0
unfolding running
after_first_version = refl

after_first-Inv : Inv after_first.conntrack
after_first-Inv =
    (evaluate-FirewallInv 0 packet true remote allow_any_firewall 0 (omega arith)
      fresh-FirewallInv).table

evaluate_wraps_example :
    (evaluate 59 packet true remote (reload_all (replicate (2 ^ 16) closed) after_first)).1 ≡ ok tt
evaluate_wraps_example =
    evaluate_wraps (replicate (2 ^ 16) closed) after_first packet tracked 59 true remote
      after_first-Inv (omega (arith, after_first_version)) after_first_entry
      (omega (arith, after_first_version)) (omega arith) (length-replicate (2 ^ 16) closed)
