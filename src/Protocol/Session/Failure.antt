-- ===== src/Protocol/Session/Failure.antt =====
-- What a session does when something fails: no step panics, and a handshake with a bad reply is lost.
use nebula_rs.Prelude.{
  ℕ, ◌+◌, ◌≡◌, ◌≢◌, refl, sym, ap, ◌∙◌, arith, Bool, true, false, not, ◌&&◌, Option, none, some,
  List, [], ◌∷◌, length, drop, any, nat_eq, ◌==◌, inl, inr, Bool-cases, if◌then◌else◌,
}
use nebula_rs.Prelude.Bytes.{Bytes}
use nebula_rs.Prelude.Map.{get, remove, remove_same, remove_other}
use nebula_rs.Prelude.Result.{Result, ok, err}
use nebula_rs.Net.{IpAddr, addr_eq}
use nebula_rs.Protocol.Error.{Error}
use nebula_rs.Protocol.Header.{Header, header_len, encode_header, parse_header}
use nebula_rs.Protocol.Header.MessageType.{handshake, message, lighthouse}
use nebula_rs.Protocol.Transport.{Aead, next_counter}
use nebula_rs.Protocol.Transport.Delivery.{decrypt_total, encrypt_total}
use nebula_rs.Protocol.Wire.{Prost}
use nebula_rs.Protocol.Handshake.{Noise}
use nebula_rs.Protocol.Lighthouse.{SocketAddr}
use nebula_rs.Protocol.Cert.Certificate.Verify.{Crypto}
use nebula_rs.Protocol.Session.{
  Established, PeerState, handshaking, established, Peers, Inner, Effect, is_free, rand_index,
  allocate_index, wire_header, packet,
}
use nebula_rs.Protocol.Session.Receive.{
  World, zeros, Opened, opened_with, open_established, open_from, open_packet, delivered, informed,
  handle_message, handle_lighthouse_packet, accept_stage2, handle_stage2, stage0_with, stage2_from,
  handle_handshake, dispatch, receive_parsed, receive,
}
use nebula_rs.Protocol.Session.Send.{Sent, sealed, send_established, send_from, send_at, send_typed}
use nebula_rs.Protocol.Session.Delivery.{length-zeros}
use nebula_rs.Protocol.Session.Replay.{receive-dispatch}

abbrev Returns {ℓ} : {A : Type ℓ} → Option A → Type ℓ
Returns {A = A} o = (a : A) × (o ≡ some a)

if_total :
    {A : Type 0} (b : Bool) (x y : Option A) → Returns x → Returns y → Returns (if b then x else y)
if_total true x y r q = r
if_total false x y r q = q

module _ {State : Type 0} where
  -- One of the readings of the clock gives an index that is not in use.
  abbrev pub some_free : List ℕ → Peers State → Bool
  some_free readings peers =
      any (λ nanos. not (rand_index nanos == 0) && is_free (rand_index nanos) peers) readings

  allocate_index_total :
      (readings : List ℕ) (peers : Peers State)
      → some_free readings peers ≡ true
      → Returns (allocate_index readings peers)
  unfolding allocate_index
  allocate_index_total [] peers h = absurd (ground (arith, h))
  allocate_index_total (nanos ∷ later) peers h =
      elim (Bool-cases (not (rand_index nanos == 0) && is_free (rand_index nanos) peers)) [
        | inl usable ↦ (rand_index nanos, rw usable refl)
        | inr not_usable ↦
            let (i, e) = allocate_index_total later peers (rw not_usable at h) in
            (i, rw not_usable e)
      ]

  delivered_total : (x : Opened State) → Returns x → Returns (delivered x)
  delivered_total none (y, e) = absurd (ground (arith, e))
  delivered_total (some (inner, none)) r = (_, refl)
  delivered_total (some (inner, some (p, b))) r = (_, refl)

  opened_with_total :
      (s : Inner State) (q : Established) (x : Option (Bytes × Result Error ℕ))
      → Returns x
      → Returns (opened_with s q x)
  opened_with_total s q none (y, e) = absurd (ground (arith, e))
  opened_with_total s q (some (out, err e)) r = (_, refl)
  opened_with_total s q (some (out, ok n)) r = (_, refl)

  module _ ⦃prost : Prost⦄ where
    informed_total : (x : Opened State) → Returns x → Returns (informed x)
    informed_total none (y, e) = absurd (ground (arith, e))
    informed_total (some (inner, none)) r = (_, refl)
    informed_total (some (inner, some (p, b))) r = (_, refl)

  module _ ⦃aead : Aead⦄ where
    open_from_total :
        (hdr : Header) (aad body : Bytes) (o : Option (PeerState State)) (inner : Inner State)
        → Returns (open_from hdr aad body o inner)
    unfolding open_established
    open_from_total hdr aad body none inner = (_, refl)
    open_from_total hdr aad body (some (handshaking hs)) inner = (_, refl)
    open_from_total hdr aad body (some (established p)) inner = opened_with_total _ _ _ (
        decrypt_total hdr.message_counter aad body (zeros (length body)) p.transport
          (omega (arith, length-zeros (length body))))

    sealed_total :
        (inner : Inner State) (with_header : Bytes → Bytes) (to : SocketAddr)
        (x : Option (Bytes × Result Error ℕ))
        → Returns x
        → Returns (sealed inner with_header to x)
    sealed_total inner with_header to none (y, e) = absurd (ground (arith, e))
    sealed_total inner with_header to (some (out, err e)) r = (_, refl)
    sealed_total inner with_header to (some (out, ok n)) r = (_, refl)

    send_from_total :
        (a : IpAddr) (type_ : ℕ) (payload : Bytes) (i : ℕ) (o : Option (PeerState State))
        (inner : Inner State)
        → Returns (send_from a type_ payload i o inner)
    unfolding send_established
    send_from_total a type_ payload i none inner = (_, refl)
    send_from_total a type_ payload i (some (handshaking hs)) inner = (_, refl)
    send_from_total a type_ payload i (some (established p)) inner =
        sealed_total _ (packet type_ p.remote_index (next_counter p.transport).1) p.remote _ (
          encrypt_total (next_counter p.transport).1
            (encode_header (wire_header type_ p.remote_index (next_counter p.transport).1)) payload
            (zeros (length payload + 32)) (next_counter p.transport).0
            (omega (arith, length-zeros (length payload + 32))))

    send_typed_total :
        (a : IpAddr) (type_ : ℕ) (payload : Bytes) (inner : Inner State)
        → Returns (send_typed a type_ payload inner)
    unfolding send_typed
    send_typed_total a type_ payload inner = at (get a inner.index_by_vpn_addr)
      where
        at : (o : Option ℕ) → Returns (send_at a type_ payload o inner)
        at none = (_, refl)
        at (some i) = send_from_total a type_ payload i _ inner

module _ ⦃crypto : Crypto⦄ ⦃aead : Aead⦄ ⦃noise : Noise⦄ ⦃prost : Prost⦄ where
  handle_handshake_total :
      (world : World) (hdr : Header) (body : Bytes) (from : SocketAddr) (inner : Inner noise.State)
      → some_free world.readings inner.peers_by_index ≡ true
      → Returns (handle_handshake world hdr body from inner)
  unfolding handle_handshake
  handle_handshake_total world hdr body from inner free =
      if_total (hdr.remote_index == 0) _ _
        (first _ (allocate_index_total world.readings inner.peers_by_index free))
        (second (get hdr.remote_index inner.peers_by_index))
    where
      first : (o : Option ℕ) → Returns o → Returns (stage0_with world o body from inner)
      first none (i, e) = absurd (ground (arith, e))
      first (some i) r = (_, refl)

      second :
          (o : Option (PeerState noise.State))
          → Returns (stage2_from world hdr.remote_index body from o inner)
      second none = (_, refl)
      second (some (handshaking hs)) = (_, refl)
      second (some (established p)) = (_, refl)

  dispatch_total :
      (world : World) (hdr : Header) (aad body : Bytes) (from : SocketAddr)
      (inner : Inner noise.State)
      → some_free world.readings inner.peers_by_index ≡ true
      → Returns (dispatch world hdr aad body from inner)
  unfolding dispatch handle_message handle_lighthouse_packet open_packet
  dispatch_total world hdr aad body from inner free =
      let opened = open_from_total hdr aad body (get hdr.remote_index inner.peers_by_index) inner in
      if_total (hdr.type_ == handshake) _ _ (handle_handshake_total world hdr body from inner free)
        (if_total (hdr.type_ == message) _ _ (delivered_total _ opened)
          (if_total (hdr.type_ == lighthouse) _ _ (informed_total _ opened) (_, refl)))

  -- In any state, receiving a datagram neither panics nor goes on for ever if one of the clock's
  -- readings gives a nonzero index that is not in use, and sending a payload never does.
  pub receive_total :
      (world : World) (datagram : Bytes) (from : SocketAddr) (a : IpAddr) (type_ : ℕ)
      (payload : Bytes) (inner : Inner noise.State)
      → some_free world.readings inner.peers_by_index ≡ true
      → ((out : Inner noise.State × List Effect) × (receive world datagram from inner ≡ some out))
        × ((sent : Sent noise.State) × (send_typed a type_ payload inner ≡ some sent))
  unfolding receive
  receive_total world datagram from a type_ payload inner free =
      (parsed (parse_header datagram), send_typed_total a type_ payload inner)
    where
      parsed : (r : Result Error Header) → Returns (receive_parsed world r datagram from inner)
      parsed (err e) = (_, refl)
      parsed (ok hdr) = dispatch_total world hdr _ _ from inner free

  lost :
      (world : World) (i : ℕ) (hs : noise.State) (body : Bytes) (from : SocketAddr) (e : Error)
      (inner : Inner noise.State)
      → accept_stage2 world hs body inner ≡ err e
      → handle_stage2 world i hs body from inner
        ≡ (record inner { peers_by_index = remove i inner.peers_by_index }, [])
  unfolding handle_stage2
  lost world i hs body from e inner h = rw h refl

  dispatch-handshake :
      (world : World) (hdr : Header) (aad body : Bytes) (from : SocketAddr)
      (inner : Inner noise.State)
      → hdr.type_ ≡ handshake
      → hdr.remote_index ≢ 0
      → dispatch world hdr aad body from inner
        ≡ stage2_from world hdr.remote_index body from
            (get hdr.remote_index inner.peers_by_index)
            inner
  unfolding dispatch handle_handshake
  dispatch-handshake world hdr aad body from inner kind set =
      let other : hdr.remote_index == 0 ≡ false = ground (arith, set) in rw (kind, other) refl

  -- A handshake datagram for a handshake in progress whose contents are refused, for whatever
  -- reason and from whatever address, ends that handshake: the index is free again, every other
  -- index leads where it did, all else of the state is as it was, and nothing is sent, delivered or
  -- woken; and the next handshake datagram for the index, the true reply included, changes and does
  -- nothing at all.
  pub receive_refused :
      (world world' : World) (datagram datagram' : Bytes) (from from' : SocketAddr)
      (hdr hdr' : Header) (hs : noise.State) (e : Error) (inner : Inner noise.State)
      → parse_header datagram ≡ ok hdr
      → parse_header datagram' ≡ ok hdr'
      → hdr.type_ ≡ handshake
      → hdr'.type_ ≡ handshake
      → hdr.remote_index ≢ 0
      → hdr'.remote_index ≡ hdr.remote_index
      → get hdr.remote_index inner.peers_by_index ≡ some (handshaking hs)
      → accept_stage2 world hs (drop header_len datagram) inner ≡ err e
      → (inner' : Inner noise.State) × (receive world datagram from inner ≡ some (inner', []))
        × (inner' ≡ record inner { peers_by_index = inner'.peers_by_index })
        × (get hdr.remote_index inner'.peers_by_index ≡ none)
        × ((j : ℕ)
            → hdr.remote_index ≢ j
            → get j inner'.peers_by_index ≡ get j inner.peers_by_index)
        × (receive world' datagram' from' inner' ≡ some (inner', []))
  receive_refused world world' datagram datagram' from from' hdr hdr' hs e inner parsed parsed' kind
        kind' set same waits refused =
      let inner' : Inner noise.State = record inner {
        peers_by_index = remove hdr.remote_index inner.peers_by_index;
      } in
      let gone = remove_same hdr.remote_index inner.peers_by_index in
      let set' : hdr'.remote_index ≢ 0 = λ z. set (sym same ∙ z) in
      (
        inner',
        receive-dispatch world datagram hdr from inner parsed
            ∙ dispatch-handshake world hdr _ _ from inner kind set
            ∙ ap (λ o. stage2_from world hdr.remote_index (drop header_len datagram) from o inner)
                waits
            ∙ ap some (lost world hdr.remote_index hs _ from e inner refused),
        refl,
        gone,
        λ j other. remove_other hdr.remote_index j inner.peers_by_index other,
        receive-dispatch world' datagram' hdr' from' inner' parsed'
            ∙ dispatch-handshake world' hdr' _ _ from' inner' kind' set'
            ∙ ap
                (λ o.
                  stage2_from world' hdr'.remote_index (drop header_len datagram') from' o inner')
                (ap (λ i. get i inner'.peers_by_index) same ∙ gone),
      )
