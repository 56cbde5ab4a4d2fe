-- ===== src/Protocol/Session/Connect/Wakes.antt =====
-- A handshake's reply wakes the calls of `connect` for its peer.
use nebula_rs.Prelude.{
  ℕ, ◌≡◌, refl, ap, subst, ◌∙◌, arith, Option, none, some, nat_eq, ◌==◌, inl, inr, Bool-cases,
  some-injective,
}
use nebula_rs.Prelude.Bytes.{Bytes}
use nebula_rs.Prelude.Int.{int_eq}
use nebula_rs.Prelude.Map.{get, remove, insert_same, get-remove}
use nebula_rs.Prelude.Result.{Result, ok, err}
use nebula_rs.Net.{addr_eq}
use nebula_rs.Protocol.Error.{Error}
use nebula_rs.Protocol.Header.{Header, parse_header}
use nebula_rs.Protocol.Header.MessageType.{handshake, message, lighthouse}
use nebula_rs.Protocol.Transport.{Aead}
use nebula_rs.Protocol.Wire.{Prost}
use nebula_rs.Protocol.Handshake.{Noise, stage0}
use nebula_rs.Protocol.Lighthouse.{SocketAddr}
use nebula_rs.Protocol.Cert.Certificate.Verify.{Crypto}
use nebula_rs.Protocol.Session.{
  Established, PeerState, handshaking, established, Inner, Effect, wake, replaced,
}
use nebula_rs.Protocol.Session.Receive.{
  World, Completed, established_with, accept_stage2, signal, signal_connected, establish,
  finish_stage0, finish_stage2, handle_stage0, handle_stage2, stage0_with, stage2_from,
  handle_handshake, dispatch, receive_parsed, receive,
}
use nebula_rs.Protocol.Session.Send.{Sent, begin_handshake, begin_with}
use nebula_rs.Protocol.Session.Connect.Signals.{
  Mute, nil-Mute, send-Mute, replaced-Mute, replaced_alone-Mute, Tells, TellsOut, Silent-Tells,
  SilentOut-TellsOut, handle_message-Silent, handle_lighthouse_packet-Silent,
}

abbrev channel_of : Effect → ℕ
channel_of (wake channel) = channel
channel_of _ = 0

module _ ⦃noise : Noise⦄ ⦃prost : Prost⦄ ⦃crypto : Crypto⦄ where
  signal-Tells :
      (before : Inner noise.State) (i : ℕ) (p : Established) (inner : Inner noise.State)
      (o : Option ℕ)
      → inner.connected ≡ before.connected
      → get p.vpn_addr inner.connected ≡ o
      → Tells before (signal o p.vpn_addr (establish i p inner))
  unfolding establish
  signal-Tells before i p inner none same q = Silent-Tells before _ (same, nil-Mute)
  signal-Tells before i p inner (some other) same q = record {
    kept = λ b channel h.
        subst (λ m. get b m ≡ some channel) same
          (ground (arith, get-remove p.vpn_addr b inner.connected, h));
    waking = λ channel h. elim h [
      | inl e ↦ (
        p.vpn_addr,
        subst (λ m. get p.vpn_addr m ≡ some channel) same (q ∙ ap (λ w. some (channel_of w)) e),
        (i, insert_same p.vpn_addr i inner.index_by_vpn_addr),
      )
      | inr none_left ↦ absurd none_left
    ];
  }

  finish_stage0-Tells :
      (i : ℕ) (from : SocketAddr) (r : Result Error Completed) (inner : Inner noise.State)
      → Tells inner (finish_stage0 i from r inner)
  unfolding establish
  finish_stage0-Tells i from (err e) inner = Silent-Tells inner _ (refl, nil-Mute)
  finish_stage0-Tells i from (ok done) inner = Silent-Tells inner _ (refl, send-Mute _ from)

  stage0_with-Tells :
      (world : World) (o : Option ℕ) (body : Bytes) (from : SocketAddr) (inner : Inner noise.State)
      → TellsOut inner (stage0_with world o body from inner)
  unfolding handle_stage0
  stage0_with-Tells world none body from inner = tt
  stage0_with-Tells world (some i) body from inner = finish_stage0-Tells i from _ inner

  finish_stage2-Tells :
      (i : ℕ) (from : SocketAddr) (r : Result Error Completed) (before inner : Inner noise.State)
      → inner.connected ≡ before.connected
      → Tells before (finish_stage2 i from r inner)
  unfolding signal_connected establish
  finish_stage2-Tells i from (err e) before inner same = Silent-Tells before _ (same, nil-Mute)
  finish_stage2-Tells i from (ok done) before inner same =
      signal-Tells before i (established_with done from done.details.responder_index inner) inner _
        same refl

  stage2_from-Tells :
      (world : World) (i : ℕ) (body : Bytes) (from : SocketAddr)
      (o : Option (PeerState noise.State)) (inner : Inner noise.State)
      → TellsOut inner (stage2_from world i body from o inner)
  unfolding handle_stage2
  stage2_from-Tells world i body from none inner = Silent-Tells inner _ (refl, nil-Mute)
  stage2_from-Tells world i body from (some (established p)) inner =
      Silent-Tells inner _ (refl, nil-Mute)
  stage2_from-Tells world i body from (some (handshaking hs)) inner =
      finish_stage2-Tells i from (accept_stage2 world hs body inner) inner
        (record inner { peers_by_index = remove i inner.peers_by_index }) refl

  handle_handshake-Tells :
      (world : World) (hdr : Header) (body : Bytes) (from : SocketAddr) (inner : Inner noise.State)
      → TellsOut inner (handle_handshake world hdr body from inner)
  unfolding handle_handshake
  handle_handshake-Tells world hdr body from inner = elim (Bool-cases (hdr.remote_index == 0)) [
    | inl first ↦ rw first (stage0_with-Tells world _ body from inner)
    | inr second ↦ rw second (stage2_from-Tells world hdr.remote_index body from _ inner)
  ]

  module _ ⦃aead : Aead⦄ where
    dispatch-Tells :
        (world : World) (hdr : Header) (aad body : Bytes) (from : SocketAddr)
        (inner : Inner noise.State)
        → TellsOut inner (dispatch world hdr aad body from inner)
    unfolding dispatch
    dispatch-Tells world hdr aad body from inner = elim (Bool-cases (hdr.type_ == handshake)) [
      | inl hand ↦ rw hand (handle_handshake-Tells world hdr body from inner)
      | inr n1 ↦ elim (Bool-cases (hdr.type_ == message)) [
        | inl plain ↦
            rw (n1, plain) (SilentOut-TellsOut inner _ (handle_message-Silent hdr aad body inner))
        | inr n2 ↦ elim (Bool-cases (hdr.type_ == lighthouse)) [
          | inl control ↦
              rw (n1, n2, control)
                (SilentOut-TellsOut inner _ (handle_lighthouse_packet-Silent hdr aad body inner))
          | inr n3 ↦ rw (n1, n2, n3) (Silent-Tells inner _ (refl, nil-Mute))
        ]
      ]
    ]

    pub receive-Tells :
        (world : World) (datagram : Bytes) (from : SocketAddr) (inner : Inner noise.State)
        → TellsOut inner (receive world datagram from inner)
    unfolding receive
    receive-Tells world datagram from inner = parsed (parse_header datagram)
      where
        parsed :
            (r : Result Error Header) → TellsOut inner (receive_parsed world r datagram from inner)
        parsed (err e) = Silent-Tells inner _ (refl, nil-Mute)
        parsed (ok hdr) = dispatch-Tells world hdr _ _ from inner

  -- A call that starts its handshake wakes no one.
  pub begin_with-Silent :
      (world : World) (to : SocketAddr) (o o' : Option ℕ) (inner : Inner noise.State)
      (out : Sent noise.State)
      → begin_with world to o (replaced o') inner ≡ some out
      → (out.0.connected ≡ inner.connected) × Mute out.1
  begin_with-Silent world to none o' inner out h = absurd (ground (arith, h))
  begin_with-Silent world to (some i) o' inner out h =
      subst (λ x. (x.0.connected ≡ inner.connected) × Mute x.1) (some-injective _ out h)
        (begun (stage0 _ _ _ _ _ _))
    where
      begun :
          (r : Result Error (noise.State × Bytes))
          → ((begin_handshake to i r (replaced o') inner).0.connected ≡ inner.connected)
            × Mute (begin_handshake to i r (replaced o') inner).1
      begun (err e) = (refl, replaced_alone-Mute o')
      begun (ok (hs, msg)) = (refl, replaced-Mute o' _ (send-Mute _ to))
