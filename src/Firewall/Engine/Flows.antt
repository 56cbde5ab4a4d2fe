-- ===== src/Firewall/Engine/Flows.antt =====
-- What a call leaves of a flow that passed, revalidation after a reload, and the routes of `Firewall::new`.
use nebula_rs.Prelude.{
  ℕ, ◌+◌, ◌<◌, ◌≡◌, ◌≢◌, refl, ◌∙◌, sym, ◌⊎◌, inl, inr, Bool, true, false, ◌||◌, Option, none, some,
  List, [], ◌∷◌, ◌++◌, arith, nat_eq, ◌==◌, any, any-append, if◌then◌else◌, Option-cases,
}
use nebula_rs.Prelude.Result.{ok}
use nebula_rs.Prelude.Map.{get}
use nebula_rs.Net.{IpAddr, IpNet, addr_eq}
use nebula_rs.Firewall.Packet.{Packet, packet_eq}
use nebula_rs.Firewall.Identity.{PeerIdentity, any_contains}
use nebula_rs.Firewall.Tree.{RuleSet, rule_set_matches}
use nebula_rs.Firewall.Conntrack.{ConnEntry, conntrack_new}
use nebula_rs.Firewall.Conntrack.Purge.{live}
use nebula_rs.Firewall.Engine.{
  Firewall, FirewallOptions, timeout_for, fresh_check, evaluate, host_routes, firewall_new,
}
use nebula_rs.Firewall.Engine.Decision.{flow_passes, decide, evaluate-decide}
use nebula_rs.Firewall.Engine.Stage.{flow_direction, live-le}
use nebula_rs.Firewall.Engine.State.{FirewallInv, next_entry}

module _ {N : Type 0} ⦃net : IpNet N⦄ where
  -- A packet that passed has an entry of the present version, good for the timeout.
  pub next_entry_of_ok :
      (now : ℕ) (p : Packet) (incoming : Bool) (remote : PeerIdentity N) (fw : Firewall N)
      → decide now p incoming remote fw ≡ ok tt
      → (e : ConnEntry) × (next_entry now p incoming remote fw ≡ some e)
        × (e.expires ≡ now + timeout_for fw.options p.protocol)
        × (e.rules_version ≡ fw.version)
  unfolding decide next_entry
  next_entry_of_ok now p incoming remote fw h = (entry, ground arith, refl, refl)
    where
      tracked : Bool
      tracked = flow_passes fw.version fw.rules p remote (live now (get p fw.conntrack.conns))

      entry : ConnEntry
      entry = record {
        expires = now + timeout_for fw.options p.protocol;
        incoming =
            if tracked
            then flow_direction (live now (get p fw.conntrack.conns)) incoming
            else incoming;
        rules_version = fw.version;
      }

  -- A live entry of the present version passes.
  pub decide_current :
      (now : ℕ) (p : Packet) (incoming : Bool) (remote : PeerIdentity N) (fw : Firewall N)
      (e : ConnEntry)
      → get p fw.conntrack.conns ≡ some e
      → now < e.expires
      → e.rules_version ≡ fw.version
      → decide now p incoming remote fw ≡ ok tt
  unfolding decide flow_passes
  decide_current now p incoming remote fw e g lt version = ground arith

  decided_by_rules :
      (now : ℕ) (p : Packet) (incoming : Bool) (remote : PeerIdentity N) (fw : Firewall N)
      (flow : Option ConnEntry)
      → live now (get p fw.conntrack.conns) ≡ flow
      → ((e : ConnEntry) → flow ≡ some e → e.rules_version ≢ fw.version)
      → decide now p incoming remote fw ≡ ok tt
      → (rule_set_matches fw.rules p true remote ≡ true)
        ⊎ (rule_set_matches fw.rules p false remote ≡ true)
  unfolding decide flow_passes fresh_check
  decided_by_rules now p incoming remote fw none n old h = ground arith
  decided_by_rules now p incoming remote fw (some e) n old h = ground (arith, old e refl)

  -- If the flow table satisfies its invariant, and the packet's flow is not tracked or its entry is
  -- of another version of the rules, then the packet passes only if the present rules allow it in
  -- one of the two directions.
  pub evaluate_revalidates :
      (now : ℕ) (clock : ℕ) (p : Packet) (incoming : Bool) (remote : PeerIdentity N)
      (fw : Firewall N)
      → FirewallInv clock fw
      → ((e : ConnEntry) → get p fw.conntrack.conns ≡ some e → e.rules_version ≢ fw.version)
      → (evaluate now p incoming remote fw).1 ≡ ok tt
      → (rule_set_matches fw.rules p true remote ≡ true)
        ⊎ (rule_set_matches fw.rules p false remote ≡ true)
  evaluate_revalidates now clock p incoming remote fw v old h =
      let decided : decide now p incoming remote fw ≡ ok tt =
        sym (evaluate-decide now p incoming remote fw v.table) ∙ h in
      elim (Option-cases (live now (get p fw.conntrack.conns))) [
        | inl n ↦ decided_by_rules now p incoming remote fw none n (λ e g. cc) decided
        | inr (e, n) ↦
            decided_by_rules now p incoming remote fw (some e) n
              (λ e' g. old e' (live-le now _ e' (n ∙ g))) decided
      ]

  host_route :
      (n : N)
      → (h : N) × (net.new (net.addr n) (net.max_prefix_len n) ≡ some h)
        × ((a : IpAddr) → net.contains h a ≡ net.addr n == a)
  host_route n =
      let bits = net.max_prefix_len_lem n in
      let (h, e) = net.new_total (net.addr n) (net.max_prefix_len n) (omega (arith, bits)) in
      (h, e, λ a. net.contains_host (net.addr n) a h (rw bits at e))

  host_routes_total :
      (ns : List N)
      → (hs : List N) × (host_routes ns ≡ some hs)
        × ((a : IpAddr) → any_contains hs a ≡ any (λ n. net.addr n == a) ns)
  unfolding host_routes
  host_routes_total [] = ([], refl, λ a. refl)
  host_routes_total (n ∷ ns) =
      let (h, e, one) = host_route n in
      let (hs, f, rest) = host_routes_total ns in
      (h ∷ hs, ground (arith, e, f), λ a. ground (arith, one a, rest a))

  -- Firewall::new does not panic, and the local addresses that it accepts are exactly the assigned
  -- addresses, not their networks, and those of the unsafe networks.
  pub firewall_new_routes :
      (rules : RuleSet N) (options : FirewallOptions) (assigned unsafe : List N)
      → (fw : Firewall N) × (firewall_new rules options assigned unsafe ≡ some fw)
        × ((a : IpAddr)
            → any_contains fw.routable_networks a
              ≡ any (λ n. net.addr n == a) assigned || any_contains unsafe a)
  unfolding firewall_new
  firewall_new_routes rules options assigned unsafe =
      let (hs, e, same) = host_routes_total assigned in
      (
        record {
          version = 0;
          rules = rules;
          conntrack = conntrack_new;
          options = options;
          routable_networks = hs ++ unsafe;
        },
        ground (arith, e),
        λ a. ground (arith, same a, any-append (λ n. net.contains n a) hs unsafe),
      )
