-- ===== src/Firewall/Tests.antt =====
-- Runs of the firewall on the inputs of its unit tests; the child has its theorems at such inputs.
mod Examples
use nebula_rs.Prelude.{
  ℕ, ◌+◌, ◌≤◌, ◌<◌, ◌^◌, ◌*◌, ◌≡◌, ◌≢◌, refl, ◌⊎◌, Bool, true, false, ◌||◌, Option, none, some,
  List, [], ◌∷◌, String, arith, any, if◌then◌else◌,
}
use nebula_rs.Prelude.Map.{get, insert, remove, update_entry}
use nebula_rs.Prelude.Int.{count_up}
use nebula_rs.Prelude.Result.{Result, ok, err}
use nebula_rs.Net.{IpAddr, v4, v6, Prefix, prefix_net}
use nebula_rs.Firewall.Packet.{Packet, Protocol, packet_eq, protocol_from, as_u8}
use nebula_rs.Firewall.Identity.{PeerIdentity, owns}
use nebula_rs.Firewall.Tree.{
  RuleSet, local_cidr_matches, groups_match, cidrs_match, peer_rule_matches, ca_rule_matches,
  port_table_matches, direction_matches, rule_set_matches,
}
use nebula_rs.Firewall.Builder.{
  PortSpec, LocalCidrSpec, LocalCidrDefault, RuleArgs, RuleWarning, RuleSetBuilder, builder_new,
  build, port_bounds, is_any, check_sanity, merge_local_cidr, update_table, update_direction,
  add_cidr, add_groups, add_host, add_peer_cidr, add_to_peer_rule, add_to_ca_rule, add_ports,
  file_rule, add_rule,
}
use nebula_rs.Firewall.Builder.Policy.{add_rules}
use nebula_rs.Firewall.Conntrack.{
  ConnEntry, Conntrack, conntrack_new, packet_key, lex_leb, slot_leb, heap_push, purge_slot,
  purge_loop, purge_expired, lookup_flow, record_flow, remove_flow,
}
use nebula_rs.Firewall.Engine.{
  Firewall, FirewallOptions, DropReason, host_routes, firewall_new, reload, tracked_stage,
  fresh_check, evaluate,
}

-- Everything that a run computes with.
unfoldable pub running : Unit {0}
unfolding get insert remove update_entry count_up owns local_cidr_matches groups_match cidrs_match
    peer_rule_matches ca_rule_matches port_table_matches direction_matches rule_set_matches
    builder_new build port_bounds is_any check_sanity merge_local_cidr update_table update_direction
    add_cidr add_groups add_host add_peer_cidr add_to_peer_rule add_to_ca_rule add_ports file_rule
    add_rule add_rules conntrack_new packet_key lex_leb slot_leb heap_push purge_slot purge_loop
    purge_expired lookup_flow record_flow remove_flow host_routes firewall_new reload tracked_stage
    fresh_check evaluate
running = tt

abbrev pub host : Prefix
host = record { base = v4 0x01020304; len = 32 }

abbrev pub options : FirewallOptions
options = record {
  tcp_timeout = 1;
  udp_timeout = 60;
  default_timeout = 600;
  in_send_reject = false;
  out_send_reject = false;
  default_local_cidr_any = false;
}

abbrev packet : Packet
packet = record {
  local_addr = v4 0x01020304;
  remote_addr = v4 0x01020304;
  local_port = 10;
  remote_port = 90;
  protocol = Protocol.udp;
  fragment = false;
}

abbrev remote : PeerIdentity Prefix
remote = record {
  name = "host1";
  groups = "default-group" ∷ [];
  ca_name = "";
  ca_sha = "";
  vpn_networks = host ∷ [];
  unsafe_networks = [];
}

abbrev pub rule_on : PortSpec → RuleArgs Prefix
rule_on port = record {
  incoming = true;
  proto = Protocol.any;
  port = port;
  groups = "any" ∷ [];
  host = none;
  cidr = none;
  local_cidr = LocalCidrSpec.unset;
  ca_name = none;
  ca_sha = none;
}

abbrev pub rules_of : List (RuleArgs Prefix) → RuleSet Prefix
rules_of rs = build (add_rules rs (builder_new (host ∷ []) false false))

abbrev pub allow_any_firewall : Firewall Prefix
allow_any_firewall = record {
  version = 0;
  rules = rules_of (rule_on PortSpec.any ∷ []);
  conntrack = conntrack_new;
  options = options;
  routable_networks = host ∷ [];
}

drops_outbound :
    (evaluate 0 packet false remote allow_any_firewall).1 ≡ err DropReason.no_matching_rule
unfolding running
drops_outbound = refl

allows_inbound : (evaluate 0 packet true remote allow_any_firewall).1 ≡ ok tt
unfolding running
allows_inbound = refl

firewall_new_builds :
    firewall_new (rules_of (rule_on PortSpec.any ∷ [])) options (host ∷ []) []
    ≡ some allow_any_firewall
unfolding running
firewall_new_builds = refl

rejects_foreign_local :
    (evaluate 0 (record packet { local_addr = v4 0x09090909 }) true remote allow_any_firewall).1
    ≡ err DropReason.invalid_local_ip
unfolding running
rejects_foreign_local = refl

-- A reload with a rule for another port ends the tracked flow.
reload_invalidates :
    (evaluate 1 packet false remote (
      reload
        (rules_of (rule_on (PortSpec.single 11) ∷ []))
        (evaluate 0 packet true remote allow_any_firewall).0)).1
    ≡ err DropReason.no_matching_rule
unfolding running
reload_invalidates = refl

-- A refresh moves the expiry of the entry and schedules no second slot.
refresh_keeps_one_slot :
    (record_flow packet true 0 5 10 (record_flow packet true 0 0 10 conntrack_new)).expiry_heap
    ≡ (10, packet) ∷ []
unfolding running
refresh_keeps_one_slot = refl

refreshed_flow_survives :
    (lookup_flow packet 10
      (record_flow packet true 0 5 10 (record_flow packet true 0 0 10 conntrack_new))).1
    ≡ some (true, 0)
unfolding running
refreshed_flow_survives = refl

icmp_port_is_ignored :
    (add_rule
      (record (rule_on (PortSpec.single 8)) { proto = Protocol.icmp; groups = [] })
      (builder_new [] false false)).0.warnings
    ≡ RuleWarning.icmp_port_ignored true (PortSpec.single 8) ∷ []
unfolding running
icmp_port_is_ignored = refl
