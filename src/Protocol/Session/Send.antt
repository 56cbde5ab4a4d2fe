-- ===== src/Protocol/Session/Send.antt =====
-- nebula-protocol/src/session.rs: what the methods of `Session` do under the lock. The waits in between, which
-- leave the state alone, are not steps.
use nebula_rs.Prelude.{ℕ, ◌+◌, Option, none, some, List, [], ◌∷◌, ◌++◌, length, take, nat_eq}
use nebula_rs.Prelude.Bytes.{Bytes}
use nebula_rs.Prelude.Map.{get, insert}
use nebula_rs.Prelude.Result.{Result, ok, err}
use nebula_rs.Net.{IpAddr, addr_eq}
use nebula_rs.Protocol.Error.{Error, peer_unreachable, timeout, handshake_failed}
use nebula_rs.Protocol.Header.{encode_header}
use nebula_rs.Protocol.Header.MessageType.{handshake, message, lighthouse}
use nebula_rs.Protocol.Transport.{Aead, next_counter, encrypt}
use nebula_rs.Protocol.Wire.{Prost}
use nebula_rs.Protocol.Handshake.{Noise, stage0}
use nebula_rs.Protocol.Lighthouse.{SocketAddr, host_query, host_update_notification}
use nebula_rs.Protocol.Cert.Certificate.{encode_for_handshake}
use nebula_rs.Protocol.Session.{
  Established, PeerState, handshaking, established, Inner, Effect, send_to, replaced,
  allocate_index, wire_header, packet,
}
use nebula_rs.Protocol.Session.Receive.{World, zeros, set_peer}

-- What a oneshot receiver sees within the five seconds: nothing, the drop of the sender, or a value.
pub data Outcome (A : Type 0) : Type 0 where
  timed_out dropped : Outcome A
  received : A → Outcome A

-- The state, the effects, and what the caller gets.
abbrev pub Sent : Type 0 → Type 0
Sent State = Inner State × List Effect × Result Error (Unit {0})

module _ ⦃aead : Aead⦄ {State : Type 0} where
  -- What is left to do when `payload` was encrypted.
  abbrev pub sealed :
      Inner State
      → (Bytes → Bytes)
      → SocketAddr
      → Option (Bytes × Result Error ℕ)
      → Option (Sent State)
  sealed inner with_header remote none = none
  sealed inner with_header remote (some (out, err e)) = some (inner, [], err e)
  sealed inner with_header remote (some (out, ok len)) =
      some (inner, send_to (with_header (take len out)) remote ∷ [], ok tt)

  -- The header has the peer's index; it is encoded first, being the associated data.
  unfoldable pub send_established : ℕ → ℕ → Bytes → Established → Inner State → Option (Sent State)
  send_established index type_ payload p inner =
      let drawn = next_counter p.transport in
      let header_bytes = encode_header (wire_header type_ p.remote_index drawn.1) in
      sealed (set_peer index (established (record p { transport = drawn.0 })) inner)
        (packet type_ p.remote_index drawn.1) p.remote
        (encrypt drawn.1 header_bytes payload (zeros (length payload + 32)) drawn.0)

  abbrev pub send_from :
      IpAddr → ℕ → Bytes → ℕ → Option (PeerState State) → Inner State → Option (Sent State)
  send_from vpn_addr type_ payload index none inner =
      some (inner, [], err (peer_unreachable vpn_addr))
  send_from vpn_addr type_ payload index (some (handshaking hs)) inner =
      some (inner, [], err (peer_unreachable vpn_addr))
  send_from vpn_addr type_ payload index (some (established p)) inner =
      send_established index type_ payload p inner

  abbrev pub send_at : IpAddr → ℕ → Bytes → Option ℕ → Inner State → Option (Sent State)
  send_at vpn_addr type_ payload none inner = some (inner, [], err (peer_unreachable vpn_addr))
  send_at vpn_addr type_ payload (some index) inner =
      send_from vpn_addr type_ payload index (get index inner.peers_by_index) inner

  unfoldable pub send_typed : IpAddr → ℕ → Bytes → Inner State → Option (Sent State)
  send_typed vpn_addr type_ payload inner =
      send_at vpn_addr type_ payload (get vpn_addr inner.index_by_vpn_addr) inner

  unfoldable pub send : IpAddr → Bytes → Inner State → Option (Sent State)
  send vpn_addr payload inner = send_typed vpn_addr message payload inner

  module _ ⦃prost : Prost⦄ where
    -- `send_typed` of `register_with_lighthouses`, once it is connected to the lighthouse.
    unfoldable pub register_with : SocketAddr → IpAddr → Inner State → Option (Sent State)
    register_with local_addr lh inner =
        send_typed lh lighthouse
          (prost.encode_meta (host_update_notification inner.vpn_addr (local_addr ∷ []))) inner

    -- A query of one lighthouse by `resolve`.
    unfoldable pub query : IpAddr → IpAddr → Inner State → Option (Sent State)
    query vpn_addr lh inner =
        send_typed lh lighthouse (prost.encode_meta (host_query vpn_addr)) inner

module _ {State : Type 0} where
  -- The first block of `resolve`.
  unfoldable pub known_addr : IpAddr → Inner State → Option SocketAddr
  known_addr vpn_addr inner = get vpn_addr inner.known_addrs

  -- Its second block, which puts the new channel's sender in place of any other.
  unfoldable pub await_lighthouse : IpAddr → ℕ → Inner State → Inner State × List Effect
  await_lighthouse vpn_addr channel inner = (
    record inner { lighthouse_waiters = insert vpn_addr channel inner.lighthouse_waiters },
    replaced (get vpn_addr inner.lighthouse_waiters),
  )

-- The end of `resolve`: an answer with no address and no answer at all are the same error.
unfoldable pub resolve_result : IpAddr → Outcome (List SocketAddr) → Result Error SocketAddr
resolve_result vpn_addr timed_out = err (peer_unreachable vpn_addr)
resolve_result vpn_addr dropped = err (peer_unreachable vpn_addr)
resolve_result vpn_addr (received []) = err (peer_unreachable vpn_addr)
resolve_result vpn_addr (received (addr ∷ addrs)) = ok addr

-- The end of `connect`.
unfoldable pub connect_result : Outcome (Unit {0}) → Result Error (Unit {0})
connect_result timed_out = err timeout
connect_result dropped = err handshake_failed
connect_result (received done) = ok tt

module _ ⦃noise : Noise⦄ ⦃prost : Prost⦄ where
  abbrev pub begin_handshake :
      SocketAddr
      → ℕ
      → Result Error (noise.State × Bytes)
      → List Effect
      → Inner noise.State
      → Sent noise.State
  begin_handshake remote index (err e) cancelled inner = (inner, cancelled, err e)
  begin_handshake remote index (ok (hs, msg)) cancelled inner = (
    set_peer index (handshaking hs) inner,
    cancelled ++ (send_to (packet handshake 0 1 msg) remote ∷ []),
    ok tt,
  )

  abbrev pub begin_with :
      World → SocketAddr → Option ℕ → List Effect → Inner noise.State → Option (Sent noise.State)
  begin_with world remote none cancelled inner = none
  begin_with world remote (some index) cancelled inner = some (
      begin_handshake remote index
        (stage0 inner.cipher inner.host_private_key (encode_for_handshake inner.host_cert) index
          world.random world.time)
        cancelled inner)

  -- The block of `connect` under the lock: a failure of `stage0` leaves the new sender in place.
  unfoldable pub start_handshake :
      World → IpAddr → SocketAddr → ℕ → Inner noise.State → Option (Sent noise.State)
  start_handshake world vpn_addr remote channel inner =
      begin_with world remote (allocate_index world.readings inner.peers_by_index)
        (replaced (get vpn_addr inner.connected))
        (record inner { connected = insert vpn_addr channel inner.connected })
