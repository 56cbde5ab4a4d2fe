-- ===== src/Protocol/Session/Establish.antt =====
-- From `connect` on one host to established peers on both.
pub mod Both
use nebula_rs.Prelude.{
  ℕ, ◌+◌, ◌%◌, ◌^◌, ◌<◌, ◌≡◌, refl, sym, ap, subst, ◌∙◌, arith, true, some, [], ◌∷◌, ◌++◌, nat_eq,
}
use nebula_rs.Prelude.Int.{ℤ}
use nebula_rs.Prelude.Bytes.{Bytes}
use nebula_rs.Prelude.Map.{get, insert, remove, insert_same}
use nebula_rs.Prelude.Result.{ok}
use nebula_rs.Net.{IpAddr, addr_eq}
use nebula_rs.Protocol.Header.RoundTrip.{parse_header-encode_header}
use nebula_rs.Protocol.Header.MessageType.{handshake}
use nebula_rs.Protocol.Window.Refinement.{Represents, is_fresh, replay_window_new-Represents}
use nebula_rs.Protocol.Transport.{Cipher, Aead, transport_new}
use nebula_rs.Protocol.Wire.{NebulaHandshakeDetails, Prost}
use nebula_rs.Protocol.Handshake.{
  Noise, SplitKeys, message_details, stage0, respond, finish_initiator,
}
use nebula_rs.Protocol.Handshake.Mirror.{IsIndex, nonzero, finish_initiator-respond}
use nebula_rs.Protocol.Lighthouse.{SocketAddr}
use nebula_rs.Protocol.Cert.Values.{curve25519}
use nebula_rs.Protocol.Cert.Certificate.{Certificate, encode_for_handshake, recombine}
use nebula_rs.Protocol.Cert.Certificate.RoundTrip.{IsCertificate, recombine-encode_for_handshake}
use nebula_rs.Protocol.Cert.Certificate.Verify.{Crypto, verify_host_cert}
use nebula_rs.Protocol.Session.{
  Established, handshaking, established, Inner, send_to, wake, replaced, allocate_index, first_addr,
  wire_header, packet,
}
use nebula_rs.Protocol.Session.Receive.{
  World, verified_peer, establish, signal, signal_connected, accept_stage0, accept_stage2,
  finish_stage0, handle_stage0, finish_stage2, handle_stage2, handle_handshake, dispatch, receive,
}
use nebula_rs.Protocol.Session.Send.{start_handshake}
use nebula_rs.Protocol.Session.Checks.{allocate_index_lem}
use nebula_rs.Protocol.Session.Replay.{receive-dispatch}
use nebula_rs.Protocol.Session.Delivery.{Paired, header_split}

module _ ⦃crypto : Crypto⦄ where
  -- A certificate as its handshake form brings it to a host with the CA `ca`.
  pub record Accepted (cert ca : Certificate) (now : ℤ) (a : IpAddr) : Type 0 where
    pub valid : IsCertificate cert
    pub curve : cert.curve ≡ curve25519
    pub trusted : verify_host_cert cert ca now ≡ ok tt
    pub named : first_addr cert ≡ some a

  pub verified_peer_accepts :
      (cert ca : Certificate) (now : ℤ) (a : IpAddr) (bytes : Bytes) (keys : SplitKeys)
      → Accepted cert ca now a
      → bytes ≡ encode_for_handshake cert
      → keys.remote_static ≡ cert.public_key
      → verified_peer bytes keys ca now ≡ ok (cert, a)
  unfolding verified_peer
  verified_peer_accepts cert ca now a bytes keys acc e f =
      let back : recombine bytes keys.remote_static curve25519 ≡ ok cert =
        rw (e, f, ← acc.curve) (recombine-encode_for_handshake cert acc.valid) in
      rw (back, acc.trusted, acc.named) refl

  module _ ⦃aead : Aead⦄ ⦃noise : Noise⦄ ⦃prost : Prost⦄ where
    -- A handshake packet reaches `handle_handshake` as it was sent.
    pub received_handshake :
        (world : World) (index counter : ℕ) (body : Bytes) (from : SocketAddr)
        (inner : Inner noise.State)
        → index < 2 ^ 32
        → counter < 2 ^ 64
        → receive world (packet handshake index counter body) from inner
          ≡ handle_handshake world (wire_header handshake index counter) body from inner
    unfolding packet dispatch
    received_handshake world index counter body from inner index_lt counter_lt =
        let hdr = wire_header handshake index counter in
        receive-dispatch world _ hdr from inner (
          parse_header-encode_header hdr body (record {
            version_lt = omega arith;
            type_lt = omega arith;
            subtype_lt = omega arith;
            remote_index_lt = index_lt;
            message_counter_lt = counter_lt;
          }))
        ∙ ap (λ t. handle_handshake world hdr t.1 from inner) (header_split hdr body)

    -- The responder's half.
    pub responder_done :
        (world : World) (r : ℕ) (msg : Bytes) (from : SocketAddr) (inner : Inner noise.State)
        (cert : Certificate) (a : IpAddr) (out : NebulaHandshakeDetails × Bytes × SplitKeys)
        → allocate_index world.readings inner.peers_by_index ≡ some r
        → respond inner.cipher inner.host_private_key
            (encode_for_handshake inner.host_cert)
            r
            msg
            world.random
            world.time
          ≡ ok out
        → verified_peer out.0.cert out.2 inner.ca_cert world.now ≡ ok (cert, a)
        → receive world (packet handshake 0 1 msg) from inner
          ≡ some (
              finish_stage0 r from
                (ok (record {
                  details = out.0;
                  reply = out.1;
                  keys = out.2;
                  cert = cert;
                  vpn_addr = a;
                }))
                inner)
    unfolding handle_handshake handle_stage0 accept_stage0
    responder_done world r msg from inner cert a out free answered checked =
        received_handshake world 0 1 msg from inner (omega arith) (omega arith)
        ∙ rw (free, answered, checked) refl

    -- The initiator's half.
    pub initiator_done :
        (world : World) (i : ℕ) (hs : noise.State) (reply : Bytes) (from : SocketAddr)
        (inner : Inner noise.State) (cert : Certificate) (b : IpAddr)
        (out : NebulaHandshakeDetails × SplitKeys)
        → IsIndex i
        → get i inner.peers_by_index ≡ some (handshaking hs)
        → finish_initiator hs reply ≡ ok out
        → verified_peer out.0.cert out.1 inner.ca_cert world.now ≡ ok (cert, b)
        → receive world (packet handshake i 2 reply) from inner
          ≡ some (
              finish_stage2 i from
                (ok
                  (record { details = out.0; reply = []; keys = out.1; cert = cert; vpn_addr = b }))
                (record inner { peers_by_index = remove i inner.peers_by_index }))
    unfolding handle_handshake handle_stage2 accept_stage2
    initiator_done world i hs reply from inner cert b out (set, lt) waiting finished checked =
        received_handshake world i 2 reply from inner lt (omega arith)
        ∙ rw (nonzero i set, waiting, finished, checked) refl
