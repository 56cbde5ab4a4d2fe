-- ===== src/Protocol/Session/Establish/Both.antt =====
-- Both halves of a handshake: `connect` on one host and the receive loops of two.
use nebula_rs.Prelude.{
  ℕ, ◌+◌, ◌%◌, ◌^◌, ◌<◌, ◌≡◌, refl, sym, ap, subst, ◌∙◌, true, some, [], ◌∷◌, ◌++◌, nat_eq,
}
use nebula_rs.Prelude.Bytes.{Bytes}
use nebula_rs.Prelude.Map.{get, insert, remove, insert_same}
use nebula_rs.Prelude.Result.{ok}
use nebula_rs.Net.{IpAddr, addr_eq}
use nebula_rs.Protocol.Header.MessageType.{handshake}
use nebula_rs.Protocol.Window.Refinement.{Represents, is_fresh, replay_window_new-Represents}
use nebula_rs.Protocol.Transport.{Cipher, Aead, transport_new}
use nebula_rs.Protocol.Wire.{NebulaHandshakeDetails, Prost}
use nebula_rs.Protocol.Handshake.{
  Noise, SplitKeys, message_details, stage0, respond, finish_initiator,
}
use nebula_rs.Protocol.Handshake.Mirror.{Agreed, IsIndex, finish_initiator-respond}
use nebula_rs.Protocol.Lighthouse.{SocketAddr}
use nebula_rs.Protocol.Cert.Certificate.{Certificate, encode_for_handshake}
use nebula_rs.Protocol.Cert.Certificate.Verify.{Crypto}
use nebula_rs.Protocol.Session.{
  Established, handshaking, established, Inner, send_to, wake, replaced, allocate_index, packet,
}
use nebula_rs.Protocol.Session.Receive.{
  World, verified_peer, establish, signal, signal_connected, receive,
}
use nebula_rs.Protocol.Session.Send.{start_handshake}
use nebula_rs.Protocol.Session.Checks.{allocate_index_lem}
use nebula_rs.Protocol.Session.Delivery.{Paired}
use nebula_rs.Protocol.Session.Establish.{
  Accepted, verified_peer_accepts, responder_done, initiator_done,
}

module _ ⦃crypto : Crypto⦄ ⦃aead : Aead⦄ ⦃noise : Noise⦄ ⦃prost : Prost⦄ where
  -- Either side accepts the other's certificate.
  both_verified :
      (calling answering calling' : World) (caller callee : Inner noise.State) (a b : IpAddr)
      (i r : ℕ) (hs : noise.State) (msg : Bytes) (out : NebulaHandshakeDetails × Bytes × SplitKeys)
      → IsIndex i
      → IsIndex r
      → calling.time < 2 ^ 64
      → answering.time < 2 ^ 64
      → caller.cipher ≡ callee.cipher
      → stage0 caller.cipher caller.host_private_key
          (encode_for_handshake caller.host_cert)
          i
          calling.random
          calling.time
        ≡ ok (hs, msg)
      → respond callee.cipher callee.host_private_key
          (encode_for_handshake callee.host_cert)
          r
          msg
          answering.random
          answering.time
        ≡ ok out
      → noise.public_key caller.host_private_key ≡ caller.host_cert.public_key
      → noise.public_key callee.host_private_key ≡ callee.host_cert.public_key
      → Accepted caller.host_cert callee.ca_cert answering.now a
      → Accepted callee.host_cert caller.ca_cert calling'.now b
      → (keys : SplitKeys) × (finish_initiator hs out.1
          ≡ ok (message_details (encode_for_handshake callee.host_cert) i r answering.time, keys))
        × Agreed caller.host_private_key callee.host_private_key
            (message_details (encode_for_handshake caller.host_cert) i 0 calling.time)
            out.0
            keys
            out.2
        × (verified_peer out.0.cert out.2 callee.ca_cert answering.now ≡ ok (caller.host_cert, a))
        × (verified_peer (encode_for_handshake callee.host_cert) keys caller.ca_cert calling'.now
            ≡ ok (callee.host_cert, b))
  both_verified calling answering calling' caller callee a b i r hs msg out i_ok r_ok time_lt
        time_lt' cipher begun responded key key' acc acc' =
      let (keys, finished, agreed) =
        finish_initiator-respond caller.cipher caller.host_private_key callee.host_private_key
          (encode_for_handshake caller.host_cert) (encode_for_handshake callee.host_cert) i r
          calling.random answering.random calling.time answering.time hs msg out i_ok r_ok time_lt
          time_lt' begun (rw cipher responded) in
      (
        keys,
        finished,
        agreed,
        verified_peer_accepts caller.host_cert callee.ca_cert answering.now a out.0.cert out.2 acc
            (sym (ap (λ d. d.cert) agreed.told)) (agreed.initiator_static ∙ key),
        verified_peer_accepts callee.host_cert caller.ca_cert calling'.now b
            (encode_for_handshake callee.host_cert) keys acc' refl (agreed.responder_static ∙ key'),
      )

  -- The peer that a side gets, and the caller's states in between and at the end.
  abbrev peer_of : Cipher → SplitKeys → SocketAddr → IpAddr → Certificate → ℕ → Established
  peer_of cipher keys remote vpn_addr cert remote_index = record {
    transport = transport_new cipher keys.send_key keys.recv_key;
    remote = remote;
    vpn_addr = vpn_addr;
    cert = cert;
    remote_index = remote_index;
  }

  abbrev waits : IpAddr → ℕ → ℕ → noise.State → Inner noise.State → Inner noise.State
  waits b channel i hs caller = record caller {
    connected = insert b channel caller.connected;
    peers_by_index = insert i (handshaking hs) caller.peers_by_index;
  }

  abbrev taken_out : ℕ → Inner noise.State → Inner noise.State
  taken_out i waiting = record waiting { peers_by_index = remove i waiting.peers_by_index }

  abbrev has_peer : IpAddr → ℕ → Established → Inner noise.State → Inner noise.State
  has_peer b i p waiting = record (establish i p (taken_out i waiting)) {
    connected = remove b waiting.connected;
  }

  -- What a handshake does, if no other step comes in between.
  pub record Connects (calling answering calling' : World) (caller callee : Inner noise.State)
      (a b : IpAddr) (to from back : SocketAddr) (channel : ℕ) : Type 0 where
    pub waiting : Inner noise.State
    pub caller' : Inner noise.State
    pub callee' : Inner noise.State
    pub wire : Bytes
    pub reply : Bytes
    pub p : Established
    pub q : Established
    pub starts :
        start_handshake calling b to channel caller
        ≡ some (waiting, replaced (get b caller.connected) ++ (send_to wire to ∷ []), ok tt)
    pub answers : receive answering wire from callee ≡ some (callee', send_to reply from ∷ [])
    pub ends : receive calling' reply back waiting ≡ some (caller', wake channel ∷ [])
    pub at_callee : p.remote ≡ back
    pub at_caller : q.remote ≡ from
    pub forth : Paired caller' callee' b p q
    pub hither : Paired callee' caller' a q p

  three_is_fresh : is_fresh 3 [] ≡ true
  unfolding is_fresh
  three_is_fresh = refl

  -- Two hosts at the end of a handshake.
  ends-Paired :
      (sender receiver : Inner noise.State) (a : IpAddr) (i r : ℕ) (p q : Established) (c : Cipher)
      (k k' l l' : Bytes)
      → get a sender.index_by_vpn_addr ≡ some i
      → get i sender.peers_by_index ≡ some (established p)
      → get r receiver.peers_by_index ≡ some (established q)
      → p.remote_index ≡ r
      → p.transport ≡ transport_new c k l
      → q.transport ≡ transport_new c l' k'
      → k ≡ k'
      → r < 2 ^ 32
      → Paired sender receiver a p q
  unfolding transport_new
  ends-Paired sender receiver a i r p q c k k' l l' known theirs ours at e f same lt = record {
    index = i;
    known = known;
    theirs = theirs;
    ours = subst (λ j. get j receiver.peers_by_index ≡ some (established q)) (sym at) ours;
    keys =
        ap (λ t. t.recv_cipher) f
        ∙ ap (λ key. record { cipher = c; key = key }) (sym same)
        ∙ sym (ap (λ t. t.send_cipher) e);
    index_lt = subst (λ j. j < 2 ^ 32) (sym at) lt;
    seen = [];
    window = subst (λ t. Represents t.replay []) (sym f) replay_window_new-Represents;
    fresh = subst (λ t. is_fresh ((t.send_counter + 1) % 2 ^ 64) [] ≡ true) (sym e) three_is_fresh;
  }

  -- Two hosts with one cipher meet: if the caller's stage0 makes a message and the callee's respond
  -- a reply to it, for the 32-bit indices that each allocates and 64-bit times, each certificate
  -- holds the public key of its host's private key and is accepted by the other host's CA, then
  -- start_handshake sends that message in one packet; if no other step comes in between, the
  -- callee, receiving it, sends the reply in one packet; receiving that, the caller wakes the
  -- channel that waits in connect and sends nothing. Each then has the other as an established peer
  -- at the address its packet came from, and they are paired in both directions, as receive-send
  -- asks.
  pub start_handshake-receive :
      (calling answering calling' : World) (caller callee : Inner noise.State) (a b : IpAddr)
      (to from back : SocketAddr) (channel i r : ℕ) (hs : noise.State) (msg : Bytes)
      (out : NebulaHandshakeDetails × Bytes × SplitKeys)
      → allocate_index calling.readings caller.peers_by_index ≡ some i
      → allocate_index answering.readings callee.peers_by_index ≡ some r
      → i < 2 ^ 32
      → r < 2 ^ 32
      → calling.time < 2 ^ 64
      → answering.time < 2 ^ 64
      → caller.cipher ≡ callee.cipher
      → stage0 caller.cipher caller.host_private_key
          (encode_for_handshake caller.host_cert)
          i
          calling.random
          calling.time
        ≡ ok (hs, msg)
      → respond callee.cipher callee.host_private_key
          (encode_for_handshake callee.host_cert)
          r
          msg
          answering.random
          answering.time
        ≡ ok out
      → noise.public_key caller.host_private_key ≡ caller.host_cert.public_key
      → noise.public_key callee.host_private_key ≡ callee.host_cert.public_key
      → Accepted caller.host_cert callee.ca_cert answering.now a
      → Accepted callee.host_cert caller.ca_cert calling'.now b
      → Connects calling answering calling' caller callee a b to from back channel
  unfolding start_handshake establish signal_connected
  start_handshake-receive calling answering calling' caller callee a b to from back channel i r hs
        msg out free free' lt lt' time_lt time_lt' cipher begun responded key key' acc acc' =
      let i_ok : IsIndex i = ((allocate_index_lem _ _ i free).0, lt) in
      let r_ok : IsIndex r = ((allocate_index_lem _ _ r free').0, lt') in
      let (keys, finished, agreed, checked, checked') =
        both_verified calling answering calling' caller callee a b i r hs msg out i_ok r_ok time_lt
          time_lt' cipher begun responded key key' acc acc' in
      let waiting = waits b channel i hs caller in
      let p = peer_of caller.cipher keys back b callee.host_cert r in
      let q = peer_of callee.cipher out.2 from a caller.host_cert out.0.initiator_index in
      let caller' = has_peer b i p waiting in
      let callee' = establish r q callee in
      let theirs = ap (λ d. d.initiator_index) (sym agreed.told) in
      let new = ap (λ c. transport_new c keys.send_key keys.recv_key) cipher in
      record {
        waiting = waiting;
        caller' = caller';
        callee' = callee';
        wire = packet handshake 0 1 msg;
        reply = packet handshake i 2 out.1;
        p = p;
        q = q;
        starts = rw (free, begun) refl;
        answers =
            responder_done answering r msg from callee caller.host_cert a out free' responded
              checked
            ∙ ap (λ j. some (callee', send_to (packet handshake j 2 out.1) from ∷ [])) theirs;
        ends =
            initiator_done calling' i hs out.1 back waiting callee.host_cert b _ i_ok
              (insert_same i (handshaking hs) caller.peers_by_index) finished checked'
            ∙ ap (λ o. some (signal o b (establish i p (taken_out i waiting))))
                (insert_same b channel caller.connected);
        at_callee = refl;
        at_caller = refl;
        forth =
            ends-Paired caller' callee' b i r p q _ _ _ _ _ (insert_same b i _)
              (insert_same i (established p) _) (insert_same r (established q) _) refl new refl
              agreed.forth lt';
        hither =
            ends-Paired callee' caller' a r i q p _ _ _ _ _ (insert_same a r _)
              (insert_same r (established q) _) (insert_same i (established p) _) theirs refl new
              (sym agreed.back) lt;
      }
