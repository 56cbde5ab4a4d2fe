-- ===== src/Protocol/Session/Connect/Signals.antt =====
-- Which steps wake the channel of a call of `connect`: no packet but a handshake's.
use nebula_rs.Prelude.{
  ℕ, ◌+◌, length, ◌≡◌, refl, subst, ◌∙◌, arith, Bool, true, false, Option, none, some, List, [],
  ◌∷◌, ◌++◌, nat_eq, ◌==◌, inl, inr, ◌||◌, if◌then◌else◌,
}
use nebula_rs.Prelude.Bytes.{Bytes}
use nebula_rs.Prelude.Int.{int_eq}
use nebula_rs.Prelude.Map.{get, insert}
use nebula_rs.Prelude.Result.{Result, ok, err}
use nebula_rs.Net.{IpAddr, addr_eq}
use nebula_rs.Protocol.Error.{Error}
use nebula_rs.Protocol.Header.{Header, encode_header}
use nebula_rs.Protocol.Transport.{Aead, next_counter, encrypt}
use nebula_rs.Protocol.Wire.{NebulaMeta, Prost}
use nebula_rs.Protocol.Lighthouse.{
  SocketAddr, candidate_addrs, vpn_addr_of, host_query_reply, host_update,
}
use nebula_rs.Protocol.Session.{
  Established, PeerState, handshaking, established, Inner, Effect, send_to, deliver, wake, answer,
  replaced, packet, wire_header,
}
use nebula_rs.Protocol.Session.Receive.{
  Opened, zeros, set_peer, opened_with, open_established, open_from, open_packet, delivered,
  handle_message, informed, notify, learn, handle_meta, handle_lighthouse, handle_lighthouse_packet,
}
use nebula_rs.Protocol.Session.Send.{Sent, sealed, send_established, send_from, send_at, send_typed}
use nebula_rs.Protocol.Session.Inbox.OtherPackets.{Has}

-- No sender of `connected` is used.
abbrev pub Mute : List Effect → Type 0
Mute es = (channel : ℕ) → Has (wake channel) es → ⊥

pub nil-Mute : Mute []
nil-Mute channel h = h

pub send-Mute : (packet : Bytes) (to : SocketAddr) → Mute (send_to packet to ∷ [])
send-Mute packet to channel (inl e) = absurd (ground (arith, e))
send-Mute packet to channel (inr h) = h

deliver-Mute : (a : IpAddr) (b : Bytes) → Mute (deliver a b ∷ [])
deliver-Mute a b channel (inl e) = absurd (ground (arith, e))
deliver-Mute a b channel (inr h) = h

answer-Mute : (other : ℕ) (addrs : List SocketAddr) → Mute (answer other addrs ∷ [])
answer-Mute other addrs channel (inl e) = absurd (ground (arith, e))
answer-Mute other addrs channel (inr h) = h

pub replaced-Mute : (o : Option ℕ) (es : List Effect) → Mute es → Mute (replaced o ++ es)
replaced-Mute none es m channel h = m channel h
replaced-Mute (some other) es m channel (inl e) = absurd (ground (arith, e))
replaced-Mute (some other) es m channel (inr h) = m channel h

pub replaced_alone-Mute : (o : Option ℕ) → Mute (replaced o)
replaced_alone-Mute none channel h = h
replaced_alone-Mute (some other) channel (inl e) = absurd (ground (arith, e))
replaced_alone-Mute (some other) channel (inr h) = h

module _ {State : Type 0} where
  -- Nothing is said to the calls of `connect`.
  abbrev pub Silent : Inner State → Inner State × List Effect → Type 0
  Silent inner out = (out.0.connected ≡ inner.connected) × Mute out.1

  abbrev pub SilentOut : Inner State → Option (Inner State × List Effect) → Type 0
  SilentOut inner none = Unit
  SilentOut inner (some out) = Silent inner out

  -- A sender is used only with the address it is kept for, which then leads to a peer.
  pub record Tells (inner : Inner State) (out : Inner State × List Effect) : Type 0 where
    pub kept :
        (b : IpAddr) (channel : ℕ)
        → get b out.0.connected ≡ some channel
        → get b inner.connected ≡ some channel
    pub waking :
        (channel : ℕ)
        → Has (wake channel) out.1
        → (b : IpAddr) × (get b inner.connected ≡ some channel)
          × ((i : ℕ) × (get b out.0.index_by_vpn_addr ≡ some i))

  pub Silent-Tells :
      (inner : Inner State) (out : Inner State × List Effect) → Silent inner out → Tells inner out
  Silent-Tells inner out (same, mute) = record {
    kept = λ b channel h. subst (λ m. get b m ≡ some channel) same h;
    waking = λ channel h. absurd (mute channel h);
  }

  abbrev pub TellsOut : Inner State → Option (Inner State × List Effect) → Type 0
  TellsOut inner none = Unit
  TellsOut inner (some out) = Tells inner out

  pub SilentOut-TellsOut :
      (inner : Inner State) (o : Option (Inner State × List Effect))
      → SilentOut inner o
      → TellsOut inner o
  SilentOut-TellsOut inner none s = tt
  SilentOut-TellsOut inner (some out) s = Silent-Tells inner out s

  learn-Silent :
      (a : Option IpAddr) (addrs : List SocketAddr) (inner : Inner State)
      → Silent inner (learn a addrs inner)
  unfolding learn
  learn-Silent a [] inner = (refl, nil-Mute)
  learn-Silent none (addr ∷ addrs) inner = (refl, nil-Mute)
  learn-Silent (some a) (addr ∷ addrs) inner = notified (get a inner.lighthouse_waiters)
    where
      notified :
          (o : Option ℕ)
          → Silent inner (
              notify o a
                (addr ∷ addrs)
                (record inner { known_addrs = insert a addr inner.known_addrs }))
      notified none = (refl, nil-Mute)
      notified (some channel) = (refl, answer-Mute channel (addr ∷ addrs))

  if-Silent :
      (inner : Inner State) (b : Bool) (x y : Inner State × List Effect)
      → Silent inner x
      → Silent inner y
      → Silent inner (if b then x else y)
  if-Silent inner true x y h k = h
  if-Silent inner false x y h k = k

  handle_meta-Silent :
      (m : Result Error NebulaMeta) (inner : Inner State) → Silent inner (handle_meta m inner)
  handle_meta-Silent (err e) inner = (refl, nil-Mute)
  handle_meta-Silent (ok meta) inner =
      if-Silent inner (meta.type_ == host_query_reply || meta.type_ == host_update) _ _
        (learn-Silent (vpn_addr_of meta) (candidate_addrs meta) inner) (refl, nil-Mute)

  -- An opened packet: what it leaves says nothing yet.
  abbrev KeepsConnected : Inner State → Opened State → Type 0
  KeepsConnected inner none = Unit
  KeepsConnected inner (some y) = y.0.connected ≡ inner.connected

  opened_with-KeepsConnected :
      (inner : Inner State) (p : Established) (x : Option (Bytes × Result Error ℕ))
      → KeepsConnected inner (opened_with inner p x)
  opened_with-KeepsConnected inner p none = tt
  opened_with-KeepsConnected inner p (some (b, err e)) = refl
  opened_with-KeepsConnected inner p (some (b, ok n)) = refl

  delivered-Silent :
      (inner : Inner State) (x : Opened State)
      → KeepsConnected inner x
      → SilentOut inner (delivered x)
  delivered-Silent inner none k = tt
  delivered-Silent inner (some (s, none)) k = (k, nil-Mute)
  delivered-Silent inner (some (s, some (p, b))) k = (k, deliver-Mute p.vpn_addr b)

  module _ ⦃prost : Prost⦄ where
    informed-Silent :
        (inner : Inner State) (x : Opened State)
        → KeepsConnected inner x
        → SilentOut inner (informed x)
    unfolding handle_lighthouse
    informed-Silent inner none k = tt
    informed-Silent inner (some (s, none)) k = (k, nil-Mute)
    informed-Silent inner (some (s, some (p, b))) k =
        let (same, mute) = handle_meta-Silent (prost.decode_meta b) s in (same ∙ k, mute)

  module _ ⦃aead : Aead⦄ where
    open_from-KeepsConnected :
        (hdr : Header) (aad body : Bytes) (inner : Inner State) (o : Option (PeerState State))
        → KeepsConnected inner (open_from hdr aad body o inner)
    unfolding open_established
    open_from-KeepsConnected hdr aad body inner none = refl
    open_from-KeepsConnected hdr aad body inner (some (handshaking hs)) = refl
    open_from-KeepsConnected hdr aad body inner (some (established p)) =
        opened_with-KeepsConnected _ _ _

    pub handle_message-Silent :
        (hdr : Header) (aad body : Bytes) (inner : Inner State)
        → SilentOut inner (handle_message hdr aad body inner)
    unfolding handle_message open_packet
    handle_message-Silent hdr aad body inner =
        delivered-Silent inner _ (open_from-KeepsConnected hdr aad body inner _)

    pub handle_lighthouse_packet-Silent :
        ⦃prost : Prost⦄ (hdr : Header) (aad body : Bytes) (inner : Inner State)
        → SilentOut inner (handle_lighthouse_packet hdr aad body inner)
    unfolding handle_lighthouse_packet open_packet
    handle_lighthouse_packet-Silent hdr aad body inner =
        informed-Silent inner _ (open_from-KeepsConnected hdr aad body inner _)

    abbrev pub SilentSent : Inner State → Option (Sent State) → Type 0
    SilentSent inner none = Unit
    SilentSent inner (some out) = Silent inner (out.0, out.1)

    sealed-Silent :
        (inner : Inner State) (with_header : Bytes → Bytes) (to : SocketAddr)
        (x : Option (Bytes × Result Error ℕ))
        → SilentSent inner (sealed inner with_header to x)
    sealed-Silent inner with_header to none = tt
    sealed-Silent inner with_header to (some (b, err e)) = (refl, nil-Mute)
    sealed-Silent inner with_header to (some (b, ok n)) = (refl, send-Mute _ to)

    send_at-Silent :
        (a : IpAddr) (type_ : ℕ) (payload : Bytes) (o : Option ℕ) (inner : Inner State)
        → SilentSent inner (send_at a type_ payload o inner)
    unfolding send_established
    send_at-Silent a type_ payload none inner = (refl, nil-Mute)
    send_at-Silent a type_ payload (some i) inner = from (get i inner.peers_by_index)
      where
        from :
            (o : Option (PeerState State)) → SilentSent inner (send_from a type_ payload i o inner)
        from none = (refl, nil-Mute)
        from (some (handshaking hs)) = (refl, nil-Mute)
        from (some (established p)) =
            let drawn = next_counter p.transport in
            sealed-Silent (set_peer i (established (record p { transport = drawn.0 })) inner)
              (packet type_ p.remote_index drawn.1) p.remote
              (encrypt drawn.1 (encode_header (wire_header type_ p.remote_index drawn.1)) payload
                (zeros (length payload + 32)) drawn.0)

    pub send_typed-Silent :
        (a : IpAddr) (type_ : ℕ) (payload : Bytes) (inner : Inner State)
        → SilentSent inner (send_typed a type_ payload inner)
    unfolding send_typed
    send_typed-Silent a type_ payload inner = send_at-Silent a type_ payload _ inner
