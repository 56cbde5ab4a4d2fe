-- ===== src/Protocol/Session/Receive/Handshakes.antt =====
-- nebula-protocol/src/session.rs: handle_handshake. `none` is an index that is still looked for.
use nebula_rs.Prelude.{ℕ, Option, none, some, List, [], ◌∷◌, nat_eq, ◌==◌, if◌then◌else◌}
use nebula_rs.Prelude.Int.{ℤ, int_eq}
use nebula_rs.Prelude.Bytes.{Bytes}
use nebula_rs.Prelude.Map.{get, insert, remove}
use nebula_rs.Prelude.Result.{Result, ok, err, ok_or, ◌>>=◌}
use nebula_rs.Net.{IpAddr, addr_eq}
use nebula_rs.Protocol.Error.{Error, cert_no_networks}
use nebula_rs.Protocol.Header.{Header}
use nebula_rs.Protocol.Header.MessageType.{handshake}
use nebula_rs.Protocol.Transport.{transport_new}
use nebula_rs.Protocol.Wire.{NebulaHandshakeDetails, Prost}
use nebula_rs.Protocol.Handshake.{Noise, SplitKeys, respond, finish_initiator}
use nebula_rs.Protocol.Lighthouse.{SocketAddr}
use nebula_rs.Protocol.Cert.Values.{curve25519}
use nebula_rs.Protocol.Cert.Certificate.{Certificate, encode_for_handshake, recombine}
use nebula_rs.Protocol.Cert.Certificate.Verify.{Crypto, verify_host_cert}
use nebula_rs.Protocol.Session.{
  Established, PeerState, handshaking, established, Inner, Effect, send_to, wake, allocate_index,
  first_addr, packet,
}

-- What a step reads of the world: the clock readings of `rand_index`, `now_unix`, the random numbers of
-- snow, `unix_nanos_now`.
pub record World : Type 0 where
  pub readings : List ℕ
  pub now : ℤ
  pub random : ℕ
  pub time : ℕ

module _ ⦃crypto : Crypto⦄ where
  -- The certificate of a handshake, checked, and the peer's address.
  unfoldable pub verified_peer :
      Bytes → SplitKeys → Certificate → ℤ → Result Error (Certificate × IpAddr)
  verified_peer cert_bytes keys ca now =
      recombine cert_bytes keys.remote_static curve25519 >>= λ cert.
      verify_host_cert cert ca now >>= λ _.
      ok_or cert_no_networks (first_addr cert) >>= λ vpn_addr. ok (cert, vpn_addr)

module _ {State : Type 0} where
  -- `inner.index_by_vpn_addr.insert(..)` after the peer's own insertion.
  unfoldable pub establish : ℕ → Established → Inner State → Inner State
  establish index p inner = record inner {
    peers_by_index = insert index (established p) inner.peers_by_index;
    index_by_vpn_addr = insert p.vpn_addr index inner.index_by_vpn_addr;
  }

  -- The sender for `vpn_addr` in `connected`, taken and used.
  abbrev pub signal : Option ℕ → IpAddr → Inner State → Inner State × List Effect
  signal none vpn_addr inner = (inner, [])
  signal (some channel) vpn_addr inner =
      (record inner { connected = remove vpn_addr inner.connected }, wake channel ∷ [])

  unfoldable pub signal_connected : IpAddr → Inner State → Inner State × List Effect
  signal_connected vpn_addr inner = signal (get vpn_addr inner.connected) vpn_addr inner

-- Everything that a responder's or an initiator's side has when its handshake has succeeded.
pub record Completed : Type 0 where
  pub details : NebulaHandshakeDetails
  pub reply : Bytes
  pub keys : SplitKeys
  pub cert : Certificate
  pub vpn_addr : IpAddr

module _ ⦃noise : Noise⦄ ⦃prost : Prost⦄ ⦃crypto : Crypto⦄ where
  unfoldable pub accept_stage0 : World → ℕ → Bytes → Inner noise.State → Result Error Completed
  accept_stage0 world index body inner =
      respond inner.cipher inner.host_private_key (encode_for_handshake inner.host_cert) index body
        world.random world.time
      >>= λ out. verified_peer out.0.cert out.2 inner.ca_cert world.now >>= λ peer. ok (record {
        details = out.0;
        reply = out.1;
        keys = out.2;
        cert = peer.0;
        vpn_addr = peer.1;
      })

  unfoldable pub accept_stage2 :
      World → noise.State → Bytes → Inner noise.State → Result Error Completed
  accept_stage2 world hs body inner = finish_initiator hs body >>= λ out.
      verified_peer out.0.cert out.1 inner.ca_cert world.now >>= λ peer.
      ok (record { details = out.0; reply = []; keys = out.1; cert = peer.0; vpn_addr = peer.1 })

  abbrev pub established_with : Completed → SocketAddr → ℕ → Inner noise.State → Established
  established_with done from remote_index inner = record {
    transport = transport_new inner.cipher done.keys.send_key done.keys.recv_key;
    remote = from;
    vpn_addr = done.vpn_addr;
    cert = done.cert;
    remote_index = remote_index;
  }

  -- The end of the first branch of `handle_handshake`: errors are dropped.
  abbrev pub finish_stage0 :
      ℕ → SocketAddr → Result Error Completed → Inner noise.State → Inner noise.State × List Effect
  finish_stage0 index from (err e) inner = (inner, [])
  finish_stage0 index from (ok done) inner =
      let theirs = done.details.initiator_index in
      (
        establish index (established_with done from theirs inner) inner,
        send_to (packet handshake theirs 2 done.reply) from ∷ [],
      )

  -- The first branch, with the index that was allocated.
  unfoldable pub handle_stage0 :
      World → ℕ → Bytes → SocketAddr → Inner noise.State → Inner noise.State × List Effect
  handle_stage0 world index body from inner =
      finish_stage0 index from (accept_stage0 world index body inner) inner

  abbrev pub finish_stage2 :
      ℕ → SocketAddr → Result Error Completed → Inner noise.State → Inner noise.State × List Effect
  finish_stage2 index from (err e) inner = (inner, [])
  finish_stage2 index from (ok done) inner =
      signal_connected done.vpn_addr
        (establish index (established_with done from done.details.responder_index inner) inner)

  -- The second branch: the handshake in progress is taken out before its reply is looked at.
  unfoldable pub handle_stage2 :
      World
      → ℕ
      → noise.State
      → Bytes
      → SocketAddr
      → Inner noise.State
      → Inner noise.State × List Effect
  handle_stage2 world index hs body from inner =
      finish_stage2 index from (accept_stage2 world hs body inner)
        (record inner { peers_by_index = remove index inner.peers_by_index })

  abbrev pub stage2_from :
      World
      → ℕ
      → Bytes
      → SocketAddr
      → Option (PeerState noise.State)
      → Inner noise.State
      → Option (Inner noise.State × List Effect)
  stage2_from world index body from none inner = some (inner, [])
  stage2_from world index body from (some (established p)) inner = some (inner, [])
  stage2_from world index body from (some (handshaking hs)) inner =
      some (handle_stage2 world index hs body from inner)

  abbrev pub stage0_with :
      World
      → Option ℕ
      → Bytes
      → SocketAddr
      → Inner noise.State
      → Option (Inner noise.State × List Effect)
  stage0_with world none body from inner = none
  stage0_with world (some index) body from inner = some (handle_stage0 world index body from inner)

  unfoldable pub handle_handshake :
      World
      → Header
      → Bytes
      → SocketAddr
      → Inner noise.State
      → Option (Inner noise.State × List Effect)
  handle_handshake world hdr body from inner =
      if hdr.remote_index == 0
      then stage0_with world (allocate_index world.readings inner.peers_by_index) body from inner
      else stage2_from world hdr.remote_index body from (get hdr.remote_index inner.peers_by_index)
          inner
