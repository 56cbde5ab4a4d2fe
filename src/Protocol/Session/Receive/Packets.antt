-- ===== src/Protocol/Session/Receive/Packets.antt =====
-- nebula-protocol/src/session.rs: the message and lighthouse packets of established peers.
use nebula_rs.Prelude.{
  ℕ, ◌||◌, Option, none, some, List, [], ◌∷◌, length, take, nat_eq, ◌==◌, if◌then◌else◌,
}
use nebula_rs.Prelude.Int.{int_eq}
use nebula_rs.Prelude.Bytes.{Bytes}
use nebula_rs.Prelude.Map.{get, insert, remove}
use nebula_rs.Prelude.Result.{Result, ok, err}
use nebula_rs.Net.{IpAddr, addr_eq}
use nebula_rs.Protocol.Error.{Error}
use nebula_rs.Protocol.Header.{Header}
use nebula_rs.Protocol.Transport.{Aead, decrypt}
use nebula_rs.Protocol.Wire.{NebulaMeta, Prost}
use nebula_rs.Protocol.Lighthouse.{
  SocketAddr, host_query_reply, host_update, candidate_addrs, vpn_addr_of,
}
use nebula_rs.Protocol.Cert.Values.{fill}
use nebula_rs.Protocol.Session.{
  Established, PeerState, handshaking, established, Inner, Effect, deliver, answer,
}

-- `vec![0u8; n]`
abbrev pub zeros : ℕ → Bytes
zeros n = fill n 0

-- What an opened packet leaves: the state, the peer, the plaintext.
abbrev pub Opened : Type 0 → Type 0
Opened State = Option (Inner State × Option (Established × Bytes))

module _ {State : Type 0} where
  abbrev pub set_peer : ℕ → PeerState State → Inner State → Inner State
  set_peer index peer inner = record inner {
    peers_by_index = insert index peer inner.peers_by_index;
  }

  abbrev pub opened_with :
      Inner State → Established → Option (Bytes × Result Error ℕ) → Opened State
  opened_with inner p none = none
  opened_with inner p (some (out, err e)) = some (inner, none)
  opened_with inner p (some (out, ok len)) = some (inner, some (p, take len out))

  -- `inbox_tx.send(..)` of the plaintext.
  abbrev pub delivered : Opened State → Option (Inner State × List Effect)
  delivered none = none
  delivered (some (inner, none)) = some (inner, [])
  delivered (some (inner, some (p, plaintext))) = some (inner, deliver p.vpn_addr plaintext ∷ [])

module _ ⦃aead : Aead⦄ {State : Type 0} where
  unfoldable pub open_established :
      Header → Bytes → Bytes → Established → Inner State → Opened State
  open_established hdr header_bytes body p inner =
      let done = decrypt hdr.message_counter header_bytes body (zeros (length body)) p.transport in
      let p' : Established = record p { transport = done.0 } in
      opened_with (set_peer hdr.remote_index (established p') inner) p' done.1

  abbrev pub open_from :
      Header → Bytes → Bytes → Option (PeerState State) → Inner State → Opened State
  open_from hdr header_bytes body none inner = some (inner, none)
  open_from hdr header_bytes body (some (handshaking hs)) inner = some (inner, none)
  open_from hdr header_bytes body (some (established p)) inner =
      open_established hdr header_bytes body p inner

  -- The first part of `handle_message` and of `handle_lighthouse_packet`: the peer and the plaintext.
  unfoldable pub open_packet : Header → Bytes → Bytes → Inner State → Opened State
  open_packet hdr header_bytes body inner =
      open_from hdr header_bytes body (get hdr.remote_index inner.peers_by_index) inner

  unfoldable pub handle_message :
      Header → Bytes → Bytes → Inner State → Option (Inner State × List Effect)
  handle_message hdr header_bytes body inner = delivered (open_packet hdr header_bytes body inner)

module _ {State : Type 0} where
  -- The answer to whoever waits for this address.
  abbrev pub notify : Option ℕ → IpAddr → List SocketAddr → Inner State → Inner State × List Effect
  notify none vpn_addr addrs inner = (inner, [])
  notify (some channel) vpn_addr addrs inner = (
    record inner { lighthouse_waiters = remove vpn_addr inner.lighthouse_waiters },
    answer channel addrs ∷ [],
  )

  -- The candidates that a message names, and the address it names them for.
  unfoldable pub learn : Option IpAddr → List SocketAddr → Inner State → Inner State × List Effect
  learn vpn_addr [] inner = (inner, [])
  learn none (addr ∷ addrs) inner = (inner, [])
  learn (some vpn_addr) (addr ∷ addrs) inner =
      notify (get vpn_addr inner.lighthouse_waiters) vpn_addr (addr ∷ addrs)
        (record inner { known_addrs = insert vpn_addr addr inner.known_addrs })

  abbrev pub handle_meta : Result Error NebulaMeta → Inner State → Inner State × List Effect
  handle_meta (err e) inner = (inner, [])
  handle_meta (ok meta) inner =
      if meta.type_ == host_query_reply || meta.type_ == host_update
      then learn (vpn_addr_of meta) (candidate_addrs meta) inner
      else (inner, [])

  module _ ⦃prost : Prost⦄ where
    unfoldable pub handle_lighthouse : Bytes → Inner State → Inner State × List Effect
    handle_lighthouse body inner = handle_meta (prost.decode_meta body) inner

    -- `handle_lighthouse` on the plaintext.
    abbrev pub informed : Opened State → Option (Inner State × List Effect)
    informed none = none
    informed (some (inner, none)) = some (inner, [])
    informed (some (inner, some (p, plaintext))) = some (handle_lighthouse plaintext inner)

    module _ ⦃aead : Aead⦄ where
      unfoldable pub handle_lighthouse_packet :
          Header → Bytes → Bytes → Inner State → Option (Inner State × List Effect)
      handle_lighthouse_packet hdr header_bytes body inner =
          informed (open_packet hdr header_bytes body inner)
