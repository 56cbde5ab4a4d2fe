-- ===== src/Protocol/Session/Tests/Calling.antt =====
-- Alice calls Bob, whose address she knows.
use nebula_rs.Prelude.{◌≡◌, ◌≢◌, refl, arith, some, List, [], ◌∷◌, inl}
use nebula_rs.Prelude.Map.{unwrap_or, get}
use nebula_rs.Prelude.Result.{ok}
use nebula_rs.Net.{IpAddr, addr_eq}
use nebula_rs.Protocol.Tests.{tagging}
use nebula_rs.Protocol.Cert.Tests.{trusting}
use nebula_rs.Protocol.Session.{Established, Inner, Effect, wake, info_of, peer_info}
use nebula_rs.Protocol.Session.Receive.{receive}
use nebula_rs.Protocol.Session.Send.{received, Sent, known_addr, start_handshake, connect_result}
use nebula_rs.Protocol.Session.Change.{Verified}
use nebula_rs.Protocol.Session.Steps.{Step, Reach}
use nebula_rs.Protocol.Session.Connect.{Call, dialing, waiting, finished, Happened, Move, Run}
use nebula_rs.Protocol.Session.Connect.Reaches.{Run-connected}
use nebula_rs.Protocol.Session.Toy.{ToyState, toy_noise, toy_prost}
use nebula_rs.Protocol.Session.Tests.{
  running, bob_addr, bob_socket, alice, world, first_packet, bob_out,
}

abbrev caller : Inner ToyState
caller = record alice { known_addrs = (bob_addr, bob_socket) ∷ [] }

abbrev call : Call
call = record { vpn_addr = bob_addr; answers = 8; channel = 7 }

abbrev begun : Sent ToyState
begun = unwrap_or (start_handshake world bob_addr bob_socket 7 caller) (caller, [], ok tt)

abbrev back : Inner ToyState × List Effect
back = unwrap_or (receive world (first_packet bob_out.1) bob_socket begun.0) (caller, [])

caller_begins : start_handshake world bob_addr bob_socket 7 caller ≡ some begun
unfolding running
caller_begins = refl

reply_comes : receive world (first_packet bob_out.1) bob_socket begun.0 ≡ some back
unfolding running
reply_comes = refl

abbrev at_start : List (List Effect)
at_start = [] ∷ []

found : Run call caller at_start (dialing bob_socket) caller
unfolding running known_addr
found = Run.moves Run.called Move.looks

abbrev when_begun : List (List Effect)
when_begun = begun.1 ∷ at_start

sent : Run call caller when_begun waiting begun.0
unfolding running
sent = Run.moves found (Move.dials world bob_socket begun caller_begins)

abbrev when_back : List (List Effect)
when_back = back.1 ∷ when_begun

replied : Run call caller when_back waiting back.0
replied =
    Run.meanwhile sent (Step.received world (first_packet bob_out.1) bob_socket back reply_comes) tt

woken : Happened (wake 7) when_back
unfolding running
woken = inl (inl refl)

abbrev when_done : List (List Effect)
when_done = [] ∷ when_back

done : Run call caller when_done (finished (ok tt)) back.0
unfolding connect_result
done = Run.moves replied (Move.ends (received tt) (λ u e. woken))

nobody_waits : (b : IpAddr) → get b caller.connected ≢ some 7
unfolding running
nobody_waits b e = absurd (ground (arith, e))

Run-connected_example :
    (p : Established) × Verified alice.ca_cert p
    × (p.vpn_addr ≡ bob_addr)
    × (peer_info bob_addr back.0 ≡ some (info_of p.cert))
Run-connected_example = Run-connected (Reach.started refl refl) nobody_waits done
