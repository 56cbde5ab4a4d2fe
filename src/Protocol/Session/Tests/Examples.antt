-- ===== src/Protocol/Session/Tests/Examples.antt =====
-- The theorems of handshakes, lighthouse messages and sessions at concrete inputs.
use nebula_rs.Prelude.{
  ℕ, ◌≡◌, ◌≢◌, refl, arith, true, Option, none, some, List, [], ◌∷◌, ◌++◌, inl, drop, nat_eq,
}
use nebula_rs.Prelude.Bytes.{Bytes}
use nebula_rs.Prelude.Map.{get}
use nebula_rs.Prelude.Result.{ok, err}
use nebula_rs.Net.{v4, v6, addr_eq}
use nebula_rs.Protocol.Error.{noise}
use nebula_rs.Protocol.Header.{Header, header_len, parse_header}
use nebula_rs.Protocol.Header.MessageType.{handshake, message}
use nebula_rs.Protocol.Window.Refinement.{is_fresh, replay_window_new-Represents}
use nebula_rs.Protocol.Transport.{aes_gcm, transport_new}
use nebula_rs.Protocol.Tests.{tagging}
use nebula_rs.Protocol.Cert.Tests.{trusting, ca_cert}
use nebula_rs.Protocol.Handshake.{SplitKeys, message_details, stage0, respond, finish_initiator}
use nebula_rs.Protocol.Handshake.Mirror.{Agreed, IsIndex, finish_initiator-respond}
use nebula_rs.Protocol.Lighthouse.{
  SocketAddr, candidate_addrs, host_update_notification, host_query, vpn_addr_of,
}
use nebula_rs.Protocol.Lighthouse.RoundTrip.{
  only_v4, only_v6, candidate_addrs-host_update_notification,
}
use nebula_rs.Protocol.Session.{
  Established, PeerState, handshaking, established, Inner, Effect, send_to, deliver, wire_header,
  packet,
}
use nebula_rs.Protocol.Session.Receive.{World, accept_stage2, receive}
use nebula_rs.Protocol.Session.Send.{Sent, send, send_typed}
use nebula_rs.Protocol.Session.Leads.{settings}
use nebula_rs.Protocol.Session.Steps.{Steps}
use nebula_rs.Protocol.Session.Invariant.{TablesInv, Reach-TablesInv}
use nebula_rs.Protocol.Session.Inbox.{Authentic, receive-Authentic}
use nebula_rs.Protocol.Session.Inbox.OtherPackets.{Has}
use nebula_rs.Protocol.Session.Replay.{receive_once}
use nebula_rs.Protocol.Session.Delivery.{Paired, receive-send}
use nebula_rs.Protocol.Session.Failure.{some_free, receive_total, receive_refused}
use nebula_rs.Protocol.Session.Toy.{ToyState, toy_noise, toy_prost}
use nebula_rs.Protocol.Session.Tests.{
  running, alice_addr, bob_addr, alice_socket, bob_socket, bob, world, first_packet, calling,
  bob_out, alice_out, sending, wire, got, bob_reaches,
}

abbrev reachable : List SocketAddr
reachable =
    record { ip = v6 0x20010db8000000000000000000000001; port = 4242 }
    ∷ record { ip = v4 0xc0000205; port = 4242 }
    ∷ []

candidate_addrs-host_update_notification_example :
    (candidate_addrs (host_update_notification (v4 0x0a640003) reachable)
      ≡ only_v4 reachable ++ only_v6 reachable)
    × (vpn_addr_of (host_update_notification (v4 0x0a640003) reachable) ≡ some (v4 0x0a640003))
    × (vpn_addr_of (host_query (v4 0x0a640003)) ≡ some (v4 0x0a640003))
    × (candidate_addrs (host_query (v4 0x0a640003)) ≡ [])
candidate_addrs-host_update_notification_example =
    candidate_addrs-host_update_notification (v4 0x0a640003) reachable (omega arith)
      (omega arith, (omega arith, tt))

abbrev stage0_state : ToyState
stage0_state = record { initiator = true; key = 1 ∷ []; remote = none }

abbrev stage0_bytes : Bytes
stage0_bytes = 1 ∷ 1 ∷ 3 ∷ 0 ∷ 0 ∷ 5 ∷ 2 ∷ 1 ∷ 42 ∷ []

stage0_sends : stage0 aes_gcm (1 ∷ []) (42 ∷ []) 3 0 5 ≡ ok (stage0_state, stage0_bytes)
unfolding running
stage0_sends = refl

abbrev stage2_bytes : Bytes
stage2_bytes = 2 ∷ 2 ∷ 2 ∷ 3 ∷ 4 ∷ 0 ∷ 6 ∷ 2 ∷ 1 ∷ 43 ∷ []

abbrev bob_keys : SplitKeys
bob_keys = record { remote_static = 1 ∷ []; send_key = 2 ∷ 2 ∷ []; recv_key = 1 ∷ [] }

bob_responds :
    respond aes_gcm (2 ∷ 2 ∷ []) (43 ∷ []) 4 stage0_bytes 0 6
    ≡ ok (message_details (42 ∷ []) 3 0 5, stage2_bytes, bob_keys)
unfolding running
bob_responds = refl

three-IsIndex : IsIndex 3
three-IsIndex = (λ e. absurd (omega (arith, e)), omega arith)

four-IsIndex : IsIndex 4
four-IsIndex = (λ e. absurd (omega (arith, e)), omega arith)

finish_initiator-respond_example :
    (keys : SplitKeys) × (finish_initiator stage0_state stage2_bytes
      ≡ ok (message_details (43 ∷ []) 3 4 6, keys))
    × Agreed
        (1 ∷ [])
        (2 ∷ 2 ∷ [])
        (message_details (42 ∷ []) 3 0 5)
        (message_details (42 ∷ []) 3 0 5)
        keys
        bob_keys
finish_initiator-respond_example =
    finish_initiator-respond aes_gcm (1 ∷ []) (2 ∷ 2 ∷ []) (42 ∷ []) (43 ∷ []) 3 4 0 0 5 6
      stage0_state stage0_bytes (message_details (42 ∷ []) 3 0 5, stage2_bytes, bob_keys)
      three-IsIndex four-IsIndex (omega arith) (omega arith) stage0_sends bob_responds

abbrev bob_index : ℕ
bob_index = 0x9e3779b8

Reach-TablesInv_example :
    TablesInv bob.ca_cert bob_out.0.peers_by_index bob_out.0.index_by_vpn_addr
    × (settings bob_out.0 ≡ settings bob)
Reach-TablesInv_example = Reach-TablesInv bob_reaches

abbrev nobody : Established
nobody = record {
  transport = transport_new aes_gcm [] [];
  remote = alice_socket;
  vpn_addr = alice_addr;
  cert = ca_cert;
  remote_index = 0;
}

-- The peers that the two hosts have of each other.
abbrev peer_or_nobody : Option (PeerState ToyState) → Established
peer_or_nobody none = nobody
peer_or_nobody (some (handshaking hs)) = nobody
peer_or_nobody (some (established p)) = p

abbrev alice_at_bob : Established
alice_at_bob = peer_or_nobody (get bob_index bob_out.0.peers_by_index)

abbrev bob_at_alice : Established
bob_at_alice = peer_or_nobody (get bob_index alice_out.0.peers_by_index)

bob_knows_alice : get bob_index bob_out.0.peers_by_index ≡ some (established alice_at_bob)
unfolding running
bob_knows_alice = refl

abbrev data_header : Header
data_header = wire_header message bob_index 3

wire_parses : parse_header wire ≡ ok data_header
unfolding running
wire_parses = refl

bob_receives : receive world wire alice_socket bob_out.0 ≡ some got
unfolding running
bob_receives = refl

receive_once_example :
    (after : Inner ToyState) × (receive world wire bob_socket got.0 ≡ some (after, []))
receive_once_example =
    receive_once world world wire wire alice_socket bob_socket data_header data_header alice_at_bob
      got bob_reaches (wire_parses, inl refl) (wire_parses, inl refl) refl refl bob_knows_alice
      bob_receives Steps.stay

abbrev payload : Bytes
payload = 9 ∷ 8 ∷ 7 ∷ []

bob_is_given : got.1 ≡ deliver alice_addr payload ∷ []
unfolding running
bob_is_given = refl

receive-Authentic_example : Authentic bob_out.0 bob.ca_cert wire alice_addr payload
receive-Authentic_example =
    receive-Authentic world wire alice_socket alice_addr payload got bob_reaches bob_receives given
  where
    given : Has (deliver alice_addr payload) got.1
    given = rw bob_is_given (inl refl)

fresh_counter : is_fresh 3 [] ≡ true
unfolding is_fresh
fresh_counter = refl

alice_bob-Paired : Paired alice_out.0 bob_out.0 bob_addr bob_at_alice alice_at_bob
unfolding running
alice_bob-Paired = record {
  index = bob_index;
  known = refl;
  theirs = refl;
  ours = refl;
  keys = refl;
  index_lt = omega arith;
  seen = [];
  window = replay_window_new-Represents;
  fresh = fresh_counter;
}

alice_sends : send bob_addr payload alice_out.0 ≡ some (sending.0, sending.1, ok tt)
unfolding running
alice_sends = refl

receive-send_example :
    (sent : Bytes) × (sending.1 ≡ send_to sent bob_at_alice.remote ∷ [])
    × ((w : World) (from : SocketAddr)
        → (after : Inner ToyState) × (receive w sent from bob_out.0
            ≡ some (after, deliver alice_at_bob.vpn_addr payload ∷ [])))
receive-send_example =
    receive-send alice_out.0 sending.0 bob_out.0 bob_addr bob_at_alice alice_at_bob payload
      sending.1 alice_bob-Paired alice_sends

one_is_free : some_free world.readings bob.peers_by_index ≡ true
unfolding running
one_is_free = refl

receive_total_example :
    ((out : Inner ToyState × List Effect) × (receive world wire alice_socket bob ≡ some out))
    × ((sent : Sent ToyState) × (send_typed alice_addr message payload bob ≡ some sent))
receive_total_example =
    receive_total world wire alice_socket alice_addr message payload bob one_is_free

abbrev forged : Bytes
forged = packet handshake bob_index 2 []

abbrev reply_header : Header
reply_header = wire_header handshake bob_index 2

forged_parses : parse_header forged ≡ ok reply_header
unfolding running
forged_parses = refl

true_reply : parse_header (first_packet bob_out.1) ≡ ok reply_header
unfolding running
true_reply = refl

alice_waits : get bob_index calling.0.peers_by_index ≡ some (handshaking stage0_state)
unfolding running
alice_waits = refl

nothing_inside : accept_stage2 world stage0_state (drop header_len forged) calling.0 ≡ err noise
unfolding running
nothing_inside = refl

index_is_set : bob_index ≢ 0
index_is_set e = absurd (omega (arith, e))

receive_refused_example :
    (after : Inner ToyState) × (receive world forged alice_socket calling.0 ≡ some (after, []))
    × (after ≡ record calling.0 { peers_by_index = after.peers_by_index })
    × (get bob_index after.peers_by_index ≡ none)
    × ((j : ℕ) → bob_index ≢ j → get j after.peers_by_index ≡ get j calling.0.peers_by_index)
    × (receive world (first_packet bob_out.1) bob_socket after ≡ some (after, []))
receive_refused_example =
    receive_refused world world forged (first_packet bob_out.1) alice_socket bob_socket reply_header
      reply_header stage0_state noise calling.0 forged_parses true_reply refl refl index_is_set refl
      alice_waits nothing_inside
