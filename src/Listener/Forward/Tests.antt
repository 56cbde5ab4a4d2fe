-- ===== src/Listener/Forward/Tests.antt =====
-- Rounds of the forwarding loops, and their theorem at such a round.
use nebula_rs.Prelude.{◌≡◌, refl, ◌⊎◌, Bool, true, false, Option, none, some, List, [], ◌∷◌, String}
use nebula_rs.Prelude.Bytes.{Bytes}
use nebula_rs.Net.{IpAddr, v4, Prefix, prefix_net}
use nebula_rs.Firewall.Packet.{Packet}
use nebula_rs.Firewall.Conntrack.Table.{conntrack_new-Inv}
use nebula_rs.Firewall.Tests.{running as firewall_running, allow_any_firewall}
use nebula_rs.Protocol.Tests.{tagging}
use nebula_rs.Protocol.Cert.Tests.{trusting}
use nebula_rs.Protocol.Session.{Effect, peer_info}
use nebula_rs.Protocol.Session.Steps.{Steps}
use nebula_rs.Protocol.Session.Toy.{ToyState, toy_noise, toy_prost}
use nebula_rs.Protocol.Session.Tests.{
  running as session_running, bob, bob_out, bob_reaches, alice_addr,
}
use nebula_rs.Listener.Parse.{parse}
use nebula_rs.Listener.Identity.{collect, peer_identity}
use nebula_rs.Listener.Tests.{running as parser_running, udp_from}
use nebula_rs.Listener.Forward.{Shared, mesh_to_tun, tun_to_mesh}
use nebula_rs.Listener.Forward.Justified.{Justified, SentOn, Around, mesh_to_tun-Justified}

abbrev text : Bytes → String
text bytes = ""

-- Bob's listener, with his address routed.
abbrev listener : Shared Prefix ToyState
listener = record {
  session = bob_out.0;
  firewall = record allow_any_firewall {
    routable_networks = record { base = v4 0x0a000002; len = 32 } ∷ [];
  };
  ca_name = "";
  ca_sha = "";
}

-- A connect that waits in vain.
abbrev no_connect : IpAddr → Shared Prefix ToyState → Shared Prefix ToyState × Bool
no_connect a shared = (shared, false)

abbrev was_written : Option (Shared Prefix ToyState × Option Bytes) → Option Bytes
was_written none = none
was_written (some out) = out.1

-- A packet from Alice with her own address is written, one with another address is not.
own_packet_passes :
    was_written (mesh_to_tun text 0 alice_addr (udp_from 1 2 99 53) listener)
    ≡ some (udp_from 1 2 99 53)
unfolding firewall_running session_running parser_running mesh_to_tun peer_info collect
    peer_identity
own_packet_passes = refl

spoofed_packet_is_dropped :
    was_written (mesh_to_tun text 0 alice_addr (udp_from 3 2 99 53) listener) ≡ none
unfolding firewall_running session_running parser_running mesh_to_tun peer_info collect
    peer_identity
spoofed_packet_is_dropped = refl

mesh_to_tun-Justified_example :
    ((shared' : Shared Prefix ToyState) (written : Bytes)
      → mesh_to_tun text 0 alice_addr (udp_from 1 2 99 53) listener ≡ some (shared', some written)
      → (written ≡ udp_from 1 2 99 53)
        × ((p : Packet) × (parse (udp_from 1 2 99 53) true ≡ some p)
            × Justified text bob.ca_cert 0 p true alice_addr listener))
    × ((out : Shared Prefix ToyState × List Effect)
        → tun_to_mesh text 0 no_connect (udp_from 1 2 99 53) listener ≡ some out
        → (out.1 ≡ [])
          ⊎ ((before : Shared Prefix ToyState) × Around text no_connect listener before
              × SentOn text bob.ca_cert 0 (udp_from 1 2 99 53) before out.1))
mesh_to_tun-Justified_example =
    mesh_to_tun-Justified text 0 alice_addr (udp_from 1 2 99 53) no_connect listener bob_reaches
      conntrack_new-Inv (λ a. (Steps.stay, conntrack_new-Inv))
