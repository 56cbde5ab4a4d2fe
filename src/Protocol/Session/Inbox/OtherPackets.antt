-- ===== src/Protocol/Session/Inbox/OtherPackets.antt =====
-- The packets that are no messages deliver no payload.
use nebula_rs.Prelude.{
  ℕ, ◌≡◌, arith, Bool, true, false, Option, none, some, List, [], ◌∷◌, nat_eq, ◌==◌, ◌⊎◌, inl, inr,
  ◌||◌, Bool-cases, if◌then◌else◌,
}
use nebula_rs.Prelude.Bytes.{Bytes}
use nebula_rs.Prelude.Int.{int_eq}
use nebula_rs.Prelude.Map.{get, insert}
use nebula_rs.Prelude.Result.{Result, ok, err}
use nebula_rs.Net.{IpAddr, addr_eq}
use nebula_rs.Protocol.Error.{Error}
use nebula_rs.Protocol.Header.{Header}
use nebula_rs.Protocol.Transport.{Aead}
use nebula_rs.Protocol.Wire.{NebulaMeta, Prost}
use nebula_rs.Protocol.Handshake.{Noise}
use nebula_rs.Protocol.Lighthouse.{
  SocketAddr, candidate_addrs, vpn_addr_of, host_query_reply, host_update,
}
use nebula_rs.Protocol.Cert.Certificate.Verify.{Crypto}
use nebula_rs.Protocol.Session.{
  PeerState, handshaking, established, Inner, Effect, send_to, deliver, wake, answer,
}
use nebula_rs.Protocol.Session.Receive.{
  World, Completed, Opened, informed, notify, learn, handle_meta, handle_lighthouse,
  handle_lighthouse_packet, signal, signal_connected, finish_stage0, finish_stage2, handle_stage0,
  handle_stage2, stage0_with, stage2_from, handle_handshake,
}

abbrev pub Has : Effect → List Effect → Type 0
Has e [] = ⊥
Has e (x ∷ xs) = (x ≡ e) ⊎ Has e xs

-- No payload is delivered.
abbrev pub Quiet : List Effect → Type 0
Quiet es = (a : IpAddr) (b : Bytes) → Has (deliver a b) es → ⊥

pub nil-Quiet : Quiet []
nil-Quiet a b h = h

send-Quiet : (packet : Bytes) (to : SocketAddr) → Quiet (send_to packet to ∷ [])
send-Quiet packet to a b (inl e) = absurd (ground (arith, e))
send-Quiet packet to a b (inr h) = h

wake-Quiet : (channel : ℕ) → Quiet (wake channel ∷ [])
wake-Quiet channel a b (inl e) = absurd (ground (arith, e))
wake-Quiet channel a b (inr h) = h

answer-Quiet : (channel : ℕ) (addrs : List SocketAddr) → Quiet (answer channel addrs ∷ [])
answer-Quiet channel addrs a b (inl e) = absurd (ground (arith, e))
answer-Quiet channel addrs a b (inr h) = h

module _ {State : Type 0} where
  abbrev pub QuietOut : Option (Inner State × List Effect) → Type 0
  QuietOut none = Unit
  QuietOut (some out) = Quiet out.1

  learn-Quiet :
      (a : Option IpAddr) (addrs : List SocketAddr) (inner : Inner State)
      → Quiet (learn a addrs inner).1
  unfolding learn
  learn-Quiet a [] inner = nil-Quiet
  learn-Quiet none (addr ∷ addrs) inner = nil-Quiet
  learn-Quiet (some a) (addr ∷ addrs) inner = notified (get a inner.lighthouse_waiters)
    where
      notified :
          (o : Option ℕ)
          → Quiet
              (notify o a
                (addr ∷ addrs)
                (record inner { known_addrs = insert a addr inner.known_addrs })).1
      notified none = nil-Quiet
      notified (some channel) = answer-Quiet channel (addr ∷ addrs)

  if-Quiet :
      (b : Bool) (x y : Inner State × List Effect)
      → Quiet x.1
      → Quiet y.1
      → Quiet (if b then x else y).1
  if-Quiet true x y h k = h
  if-Quiet false x y h k = k

  handle_meta-Quiet :
      (m : Result Error NebulaMeta) (inner : Inner State) → Quiet (handle_meta m inner).1
  handle_meta-Quiet (err e) inner = nil-Quiet
  handle_meta-Quiet (ok meta) inner =
      if-Quiet (meta.type_ == host_query_reply || meta.type_ == host_update) _ _
        (learn-Quiet (vpn_addr_of meta) (candidate_addrs meta) inner) nil-Quiet

  module _ ⦃prost : Prost⦄ where
    informed-Quiet : (x : Opened State) → QuietOut (informed x)
    unfolding handle_lighthouse
    informed-Quiet none = tt
    informed-Quiet (some (inner, none)) = nil-Quiet
    informed-Quiet (some (inner, some (p, b))) = handle_meta-Quiet (prost.decode_meta b) inner

    module _ ⦃aead : Aead⦄ where
      pub handle_lighthouse_packet-Quiet :
          (hdr : Header) (aad body : Bytes) (inner : Inner State)
          → QuietOut (handle_lighthouse_packet hdr aad body inner)
      unfolding handle_lighthouse_packet
      handle_lighthouse_packet-Quiet hdr aad body inner = informed-Quiet _

module _ ⦃noise : Noise⦄ ⦃prost : Prost⦄ ⦃crypto : Crypto⦄ where
  finish_stage0-Quiet :
      (i : ℕ) (from : SocketAddr) (r : Result Error Completed) (inner : Inner noise.State)
      → Quiet (finish_stage0 i from r inner).1
  finish_stage0-Quiet i from (err e) inner = nil-Quiet
  finish_stage0-Quiet i from (ok done) inner = send-Quiet _ from

  stage0_with-Quiet :
      (world : World) (o : Option ℕ) (body : Bytes) (from : SocketAddr) (inner : Inner noise.State)
      → QuietOut (stage0_with world o body from inner)
  unfolding handle_stage0
  stage0_with-Quiet world none body from inner = tt
  stage0_with-Quiet world (some i) body from inner = finish_stage0-Quiet i from _ inner

  signal-Quiet :
      (o : Option ℕ) (a : IpAddr) (inner : Inner noise.State) → Quiet (signal o a inner).1
  signal-Quiet none a inner = nil-Quiet
  signal-Quiet (some channel) a inner = wake-Quiet channel

  finish_stage2-Quiet :
      (i : ℕ) (from : SocketAddr) (r : Result Error Completed) (inner : Inner noise.State)
      → Quiet (finish_stage2 i from r inner).1
  unfolding signal_connected
  finish_stage2-Quiet i from (err e) inner = nil-Quiet
  finish_stage2-Quiet i from (ok done) inner = signal-Quiet _ done.vpn_addr _

  stage2_from-Quiet :
      (world : World) (i : ℕ) (body : Bytes) (from : SocketAddr)
      (o : Option (PeerState noise.State)) (inner : Inner noise.State)
      → QuietOut (stage2_from world i body from o inner)
  unfolding handle_stage2
  stage2_from-Quiet world i body from none inner = nil-Quiet
  stage2_from-Quiet world i body from (some (established p)) inner = nil-Quiet
  stage2_from-Quiet world i body from (some (handshaking hs)) inner = finish_stage2-Quiet i from _ _

  pub handle_handshake-Quiet :
      (world : World) (hdr : Header) (body : Bytes) (from : SocketAddr) (inner : Inner noise.State)
      → QuietOut (handle_handshake world hdr body from inner)
  unfolding handle_handshake
  handle_handshake-Quiet world hdr body from inner = elim (Bool-cases (hdr.remote_index == 0)) [
    | inl first ↦ rw first (stage0_with-Quiet world _ body from inner)
    | inr second ↦ rw second (stage2_from-Quiet world hdr.remote_index body from _ inner)
  ]
