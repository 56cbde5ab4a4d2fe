-- ===== src/Protocol/Session/Tests/Meeting.antt =====
-- Alice and Bob from `connect` on.
use nebula_rs.Prelude.{ℕ, ◌≡◌, refl, arith, true, none, some, [], ◌∷◌}
use nebula_rs.Prelude.Bytes.{Bytes}
use nebula_rs.Prelude.Result.{Result, ok, err}
use nebula_rs.Protocol.Error.{Error}
use nebula_rs.Protocol.Tests.{tagging}
use nebula_rs.Protocol.Cert.Tests.{trusting}
use nebula_rs.Protocol.Cert.Certificate.{encode_for_handshake}
use nebula_rs.Protocol.Cert.Certificate.RoundTrip.{IsCertificate}
use nebula_rs.Protocol.Cert.Details.RoundTrip.{IsDetails}
use nebula_rs.Protocol.Wire.{NebulaHandshakeDetails}
use nebula_rs.Protocol.Handshake.{SplitKeys, message_details, stage0, respond}
use nebula_rs.Protocol.Session.{allocate_index}
use nebula_rs.Protocol.Session.Establish.{Accepted}
use nebula_rs.Protocol.Session.Establish.Both.{Connects, start_handshake-receive}
use nebula_rs.Protocol.Session.Receive.{World}
use nebula_rs.Protocol.Session.Toy.{ToyState, toy_noise, toy_prost}
use nebula_rs.Protocol.Session.Tests.{
  running, alice_addr, bob_addr, alice_socket, bob_socket, alice, bob, world,
}

abbrev ok_value : {A : Type 0} → Result Error A → A → A
ok_value (ok a) other = a
ok_value (err e) other = other

abbrev index : ℕ
index = 0x9e3779b8

abbrev other_index : ℕ
other_index = 0x9e3779bb

-- Bob's clock reads something else.
abbrev bob_world : World
bob_world = record world { readings = 2 ∷ []; time = 6 }

abbrev begun : ToyState × Bytes
begun =
    ok_value
      (stage0 alice.cipher alice.host_private_key (encode_for_handshake alice.host_cert) index 0 5)
      (record { initiator = true; key = []; remote = none }, [])

abbrev no_details : NebulaHandshakeDetails × Bytes × SplitKeys
no_details =
    (message_details [] 0 0 0, [], record { remote_static = []; send_key = []; recv_key = [] })

abbrev answer_of_bob : NebulaHandshakeDetails × Bytes × SplitKeys
answer_of_bob =
    ok_value
      (respond bob.cipher bob.host_private_key (encode_for_handshake bob.host_cert) other_index
        begun.1 0 6)
      no_details

alice_free : allocate_index world.readings alice.peers_by_index ≡ some index
unfolding running
alice_free = refl

bob_free : allocate_index bob_world.readings bob.peers_by_index ≡ some other_index
unfolding running
bob_free = refl

alice_begins :
    stage0 alice.cipher alice.host_private_key (encode_for_handshake alice.host_cert) index 0 5
    ≡ ok begun
unfolding running
alice_begins = refl

bob_answers :
    respond bob.cipher bob.host_private_key
      (encode_for_handshake bob.host_cert)
      other_index
      begun.1
      0
      6
    ≡ ok answer_of_bob
unfolding running
bob_answers = refl

alice-IsDetails : IsDetails alice.host_cert.details
unfolding running
alice-IsDetails = record {
  name_text = refl;
  group_texts = (refl, (refl, tt));
  networks_valid = (record { addr_lt = λ a. (λ e. ground (arith, e), λ e. ground (arith, e)) }, tt);
  unsafe_valid = tt;
  before_i64 = omega arith;
  after_i64 = omega arith;
  fits = omega arith;
}

bob-IsDetails : IsDetails bob.host_cert.details
unfolding running
bob-IsDetails = record {
  name_text = refl;
  group_texts = (refl, (refl, tt));
  networks_valid = (record { addr_lt = λ a. (λ e. ground (arith, e), λ e. ground (arith, e)) }, tt);
  unsafe_valid = tt;
  before_i64 = omega arith;
  after_i64 = omega arith;
  fits = omega arith;
}

alice-IsCertificate : IsCertificate alice.host_cert
unfolding running
alice-IsCertificate = record { details_valid = alice-IsDetails; raw = refl; fits = omega arith }

bob-IsCertificate : IsCertificate bob.host_cert
unfolding running
bob-IsCertificate = record { details_valid = bob-IsDetails; raw = refl; fits = omega arith }

alice-Accepted : Accepted alice.host_cert bob.ca_cert bob_world.now alice_addr
unfolding running
alice-Accepted = record { valid = alice-IsCertificate; curve = refl; trusted = refl; named = refl }

bob-Accepted : Accepted bob.host_cert alice.ca_cert world.now bob_addr
unfolding running
bob-Accepted = record { valid = bob-IsCertificate; curve = refl; trusted = refl; named = refl }

start_handshake-receive_example :
    Connects world bob_world world alice bob alice_addr bob_addr bob_socket alice_socket bob_socket
      7
start_handshake-receive_example =
    start_handshake-receive world bob_world world alice bob alice_addr bob_addr bob_socket
      alice_socket bob_socket 7 index other_index begun.0 begun.1 answer_of_bob alice_free bob_free
      (omega arith) (omega arith) (omega arith) (omega arith) refl alice_begins bob_answers refl
      refl alice-Accepted bob-Accepted
