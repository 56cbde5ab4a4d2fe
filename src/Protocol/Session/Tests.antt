-- ===== src/Protocol/Session/Tests.antt =====
-- A handshake of two hosts and a payload between them, and the theorems of sessions at these runs.
mod Examples
mod Meeting
mod Calling
use nebula_rs.Prelude.{ℕ, ◌≡◌, refl, true, false, Bool, Option, none, some, List, [], ◌∷◌}
use nebula_rs.Prelude.Int.{pos}
use nebula_rs.Prelude.Bytes.{Bytes, push_be, read_be}
use nebula_rs.Prelude.Map.{unwrap_or, get, insert, remove}
use nebula_rs.Prelude.Result.{Result, ok, err}
use nebula_rs.Net.{IpAddr, v4}
use nebula_rs.Protocol.Header.{Header, encode_header, parse_header}
use nebula_rs.Protocol.Window.{
  replay_window_new, zero_words, update_word, mark, is_marked, shift_words, shift_left,
  check_and_update,
}
use nebula_rs.Protocol.Transport.{
  aes_gcm, nonce, copy_to, transport_new, next_counter, cipher_encrypt, cipher_decrypt, written,
  encrypt, decrypt,
}
use nebula_rs.Protocol.Handshake.{split_keys, stage0, respond, finish_initiator}
use nebula_rs.Protocol.Lighthouse.{SocketAddr}
use nebula_rs.Protocol.Cert.Der.{
  significant, length_bytes, tlv, split_at, read_length, read_tlv, read_tlv_raw, read_tlv_opt,
}
use nebula_rs.Protocol.Cert.Values.{
  Network, trim, encode_der_int, fill, sign_extend, decode_der_int, encode_network, decode_network,
  utf8_from, from_utf8,
}
use nebula_rs.Protocol.Cert.Details.{
  Details, tlv_if, write_items, read_items, read_group, details_body, encode_details,
  decode_details,
}
use nebula_rs.Protocol.Cert.Certificate.{
  Certificate, signing_bytes, encode_for_handshake, recombine,
}
use nebula_rs.Protocol.Cert.Certificate.Verify.{
  is_expired, check_signature, fingerprint, verify_host_cert,
}
use nebula_rs.Protocol.Cert.Tests.{trusting, ca_cert, host_details, signed_cert}
use nebula_rs.Protocol.Tests.{tagging}
use nebula_rs.Protocol.Session.{
  Inner, Effect, send_to, deliver, wake, rand_index, allocate_index, packet,
}
use nebula_rs.Protocol.Session.Receive.{
  World, verified_peer, establish, signal_connected, open_established, open_packet, handle_message,
  learn, handle_lighthouse, handle_lighthouse_packet, accept_stage0, accept_stage2, handle_stage0,
  handle_stage2, handle_handshake, dispatch, receive,
}
use nebula_rs.Protocol.Session.Send.{Sent, send_established, send_typed, send, start_handshake}
use nebula_rs.Protocol.Session.Steps.{Step, Reach}
use nebula_rs.Protocol.Session.Toy.{ToyState, toy_noise, toy_prost}

unfoldable pub running : Unit {0}
unfolding push_be read_be get insert remove encode_header parse_header replay_window_new zero_words
    update_word mark is_marked shift_words shift_left check_and_update nonce copy_to transport_new
    next_counter cipher_encrypt cipher_decrypt written encrypt decrypt split_keys stage0 respond
    finish_initiator significant length_bytes tlv split_at read_length read_tlv read_tlv_raw
    read_tlv_opt trim encode_der_int fill sign_extend decode_der_int encode_network decode_network
    utf8_from from_utf8 tlv_if write_items read_items read_group details_body encode_details
    decode_details signing_bytes encode_for_handshake recombine is_expired check_signature
    fingerprint verify_host_cert rand_index allocate_index packet verified_peer establish
    signal_connected open_established open_packet handle_message learn handle_lighthouse
    handle_lighthouse_packet accept_stage0 accept_stage2 handle_stage0 handle_stage2
    handle_handshake dispatch receive send_established send_typed send start_handshake
running = tt

abbrev pub alice_addr : IpAddr
alice_addr = v4 0x0a000001

abbrev pub bob_addr : IpAddr
bob_addr = v4 0x0a000002

abbrev pub alice_socket : SocketAddr
alice_socket = record { ip = v4 0xc0000201; port = 4242 }

abbrev pub bob_socket : SocketAddr
bob_socket = record { ip = v4 0xc0000202; port = 4242 }

abbrev bob_details : Details
bob_details = record host_details { networks = record { addr = bob_addr; prefix_len = 24 } ∷ [] }

abbrev pub bob_cert : Certificate
bob_cert = record signed_cert { details = bob_details; raw_details = encode_details bob_details }

abbrev new_session : Certificate → Bytes → IpAddr → Inner ToyState
new_session cert key addr = record {
  ca_cert = ca_cert;
  host_cert = record cert { public_key = key };
  host_private_key = key;
  cipher = aes_gcm;
  vpn_addr = addr;
  lighthouses = [];
  known_addrs = [];
  peers_by_index = [];
  index_by_vpn_addr = [];
  connected = [];
  lighthouse_waiters = [];
}

abbrev pub alice : Inner ToyState
alice = new_session signed_cert (1 ∷ []) alice_addr

abbrev pub bob : Inner ToyState
bob = new_session bob_cert (2 ∷ 2 ∷ []) bob_addr

abbrev pub world : World
world = record { readings = 1 ∷ []; now = pos 150; random = 0; time = 5 }

-- The packets among some effects.
abbrev pub first_packet : List Effect → Bytes
first_packet [] = []
first_packet (send_to wire to ∷ es) = wire
first_packet (e ∷ es) = first_packet es

-- Alice connects to Bob, Bob answers, Alice has the reply, Alice sends, Bob receives.
abbrev pub calling : Sent ToyState
calling = unwrap_or (start_handshake world bob_addr bob_socket 7 alice) (alice, [], ok tt)

abbrev pub bob_out : Inner ToyState × List Effect
bob_out = unwrap_or (receive world (first_packet calling.1) alice_socket bob) (bob, [])

abbrev pub alice_out : Inner ToyState × List Effect
alice_out = unwrap_or (receive world (first_packet bob_out.1) bob_socket calling.0) (calling.0, [])

abbrev pub sending : Sent ToyState
sending = unwrap_or (send bob_addr (9 ∷ 8 ∷ 7 ∷ []) alice_out.0) (alice_out.0, [], ok tt)

abbrev pub wire : Bytes
wire = first_packet sending.1

abbrev pub got : Inner ToyState × List Effect
got = unwrap_or (receive world wire alice_socket bob_out.0) (bob_out.0, [])

alice_is_woken : alice_out.1 ≡ wake 7 ∷ []
unfolding running
alice_is_woken = refl

bob_gets_it : got.1 ≡ deliver alice_addr (9 ∷ 8 ∷ 7 ∷ []) ∷ []
unfolding running
bob_gets_it = refl

bob_answers : receive world (first_packet calling.1) alice_socket bob ≡ some bob_out
unfolding running
bob_answers = refl

abbrev pub bob_past : List (List Effect)
bob_past = bob_out.1 ∷ []

pub bob_reaches : Reach bob bob_past bob_out.0
bob_reaches =
    Reach.then (Reach.started refl refl)
      (Step.received world (first_packet calling.1) alice_socket bob_out bob_answers)
