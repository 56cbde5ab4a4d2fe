-- ===== src/Protocol/Session/Leads/Handshakes.antt =====
-- What the tables of a session become in a handshake, and so on every datagram.
use nebula_rs.Prelude.{
  ◌≢◌, ℕ, ◌≡◌, refl, sym, ap, arith, Option, none, some, List, nat_eq, ◌==◌, inl, inr,
  some-injective, Bool-cases,
}
use nebula_rs.Prelude.Int.{ℤ, int_eq}
use nebula_rs.Prelude.Bytes.{Bytes}
use nebula_rs.Prelude.Map.{get, remove}
use nebula_rs.Prelude.Result.{Result, ok, err}
use nebula_rs.Net.{IpAddr, addr_eq}
use nebula_rs.Protocol.Error.{Error}
use nebula_rs.Protocol.Header.{Header, parse_header}
use nebula_rs.Protocol.Header.MessageType.{handshake, message, lighthouse}
use nebula_rs.Protocol.Transport.{Aead, transport_new}
use nebula_rs.Protocol.Wire.{Prost}
use nebula_rs.Protocol.Handshake.{Noise, stage0}
use nebula_rs.Protocol.Lighthouse.{SocketAddr}
use nebula_rs.Protocol.Cert.Certificate.Verify.{Crypto}
use nebula_rs.Protocol.Cert.Certificate.Trust.{Trusted}
use nebula_rs.Protocol.Session.{
  PeerState, handshaking, established, Inner, Effect, allocate_index, first_addr,
}
use nebula_rs.Protocol.Session.Receive.{
  World, Completed, establish, signal_connected, signal, finish_stage0, finish_stage2, stage0_with,
  dispatch, receive_parsed, established_with, accept_stage0, accept_stage2, handle_stage0,
  handle_stage2, stage2_from, handle_handshake, receive,
}
use nebula_rs.Protocol.Session.Send.{Sent, begin_handshake, begin_with}
use nebula_rs.Protocol.Session.Checks.{allocate_index_lem, accept_stage0_lem, accept_stage2_lem}
use nebula_rs.Protocol.Session.Change.{Change, New}
use nebula_rs.Protocol.Session.Leads.{
  Leads, view, unchanged, Leads-along, handle_message-Leads, handle_lighthouse_packet-Leads,
}

module _ ⦃crypto : Crypto⦄ ⦃aead : Aead⦄ ⦃noise : Noise⦄ ⦃prost : Prost⦄ where
  established_with-New :
      (inner : Inner noise.State) (done : Completed) (from : SocketAddr) (i : ℕ) (now : ℤ)
      → Trusted done.cert inner.ca_cert now × (first_addr done.cert ≡ some done.vpn_addr) × (i ≢ 0)
      → New inner.ca_cert (established_with done from i inner)
  unfolding transport_new
  established_with-New inner done from i now (trusted, named, set) = record {
    verified = record { now = now; trusted = trusted; named = named; reachable = set };
    unused = refl;
  }

  view-signal_connected :
      (a : IpAddr) (inner : Inner noise.State) → view (signal_connected a inner).0 ≡ view inner
  unfolding signal_connected
  view-signal_connected a inner = signalled (get a inner.connected)
    where
      signalled : (o : Option ℕ) → view (signal o a inner).0 ≡ view inner
      signalled none = refl
      signalled (some channel) = refl

  finish_stage0-Leads :
      (i : ℕ) (from : SocketAddr) (world : World) (body : Bytes) (r : Result Error Completed)
      (inner : Inner noise.State)
      → accept_stage0 world i body inner ≡ r
      → (i ≢ 0) × (get i inner.peers_by_index ≡ none)
      → Leads inner (view (finish_stage0 i from r inner).0)
  unfolding establish
  finish_stage0-Leads i from world body (err e) inner q (set, free) = unchanged inner
  finish_stage0-Leads i from world body (ok done) inner q (set, free) = record {
    tables = Change.answered i _ set free (
        established_with-New inner done from _ world.now
          (accept_stage0_lem world i body inner done q));
    fixed = refl;
  }

  finish_stage2-Leads :
      (i : ℕ) (hs : noise.State) (from : SocketAddr) (world : World) (body : Bytes)
      (r : Result Error Completed) (inner : Inner noise.State)
      → accept_stage2 world hs body inner ≡ r
      → get i inner.peers_by_index ≡ some (handshaking hs)
      → Leads inner (
          view
            (finish_stage2 i from r
              (record inner { peers_by_index = remove i inner.peers_by_index })).0)
  unfolding establish
  finish_stage2-Leads i hs from world body (err e) inner q waits = record {
    tables = Change.failed i hs waits;
    fixed = refl;
  }
  finish_stage2-Leads i hs from world body (ok done) inner q waits =
      Leads-along (sym (view-signal_connected done.vpn_addr _)) (record {
        tables = Change.completed i hs _ waits (
            established_with-New inner done from _ world.now
              (accept_stage2_lem world hs body inner done q));
        fixed = refl;
      })

  stage2_from-Leads :
      (world : World) (i : ℕ) (body : Bytes) (from : SocketAddr)
      (o : Option (PeerState noise.State)) (inner : Inner noise.State)
      (out : Inner noise.State × List Effect)
      → get i inner.peers_by_index ≡ o
      → stage2_from world i body from o inner ≡ some out
      → Leads inner (view out.0)
  unfolding handle_stage2
  stage2_from-Leads world i body from none inner out q h =
      Leads-along (ap (λ o. view o.0) (some-injective _ out h)) (unchanged inner)
  stage2_from-Leads world i body from (some (established p)) inner out q h =
      Leads-along (ap (λ o. view o.0) (some-injective _ out h)) (unchanged inner)
  stage2_from-Leads world i body from (some (handshaking hs)) inner out q h =
      Leads-along (ap (λ o. view o.0) (some-injective _ out h))
        (finish_stage2-Leads i hs from world body _ inner refl q)

  stage0_with-Leads :
      (world : World) (o : Option ℕ) (body : Bytes) (from : SocketAddr) (inner : Inner noise.State)
      (out : Inner noise.State × List Effect)
      → allocate_index world.readings inner.peers_by_index ≡ o
      → stage0_with world o body from inner ≡ some out
      → Leads inner (view out.0)
  unfolding handle_stage0
  stage0_with-Leads world none body from inner out q h = absurd (ground (arith, h))
  stage0_with-Leads world (some i) body from inner out q h =
      Leads-along (ap (λ o. view o.0) (some-injective _ out h)) (
        finish_stage0-Leads i from world body _ inner refl
          (allocate_index_lem world.readings inner.peers_by_index i q))

  handle_handshake-Leads :
      (world : World) (hdr : Header) (body : Bytes) (from : SocketAddr) (inner : Inner noise.State)
      (out : Inner noise.State × List Effect)
      → handle_handshake world hdr body from inner ≡ some out
      → Leads inner (view out.0)
  unfolding handle_handshake
  handle_handshake-Leads world hdr body from inner out h =
      elim (Bool-cases (hdr.remote_index == 0)) [
        | inl first ↦ stage0_with-Leads world _ body from inner out refl (rw first at h)
        | inr second ↦
            stage2_from-Leads world hdr.remote_index body from _ inner out refl (rw second at h)
      ]

  dispatch-Leads :
      (world : World) (hdr : Header) (aad body : Bytes) (from : SocketAddr)
      (inner : Inner noise.State) (out : Inner noise.State × List Effect)
      → dispatch world hdr aad body from inner ≡ some out
      → Leads inner (view out.0)
  unfolding dispatch
  dispatch-Leads world hdr aad body from inner out h = elim (Bool-cases (hdr.type_ == handshake)) [
    | inl hand ↦ handle_handshake-Leads world hdr body from inner out (rw hand at h)
    | inr n1 ↦ elim (Bool-cases (hdr.type_ == message)) [
      | inl plain ↦ handle_message-Leads hdr aad body inner out (rw (n1, plain) at h)
      | inr n2 ↦ elim (Bool-cases (hdr.type_ == lighthouse)) [
        | inl control ↦
            handle_lighthouse_packet-Leads hdr aad body inner out (rw (n1, n2, control) at h)
        | inr n3 ↦
            Leads-along (ap (λ o. view o.0) (some-injective _ out (rw (n1, n2, n3) at h)))
              (unchanged inner)
      ]
    ]
  ]

  pub receive-Leads :
      (world : World) (datagram : Bytes) (from : SocketAddr) (inner : Inner noise.State)
      (out : Inner noise.State × List Effect)
      → receive world datagram from inner ≡ some out
      → Leads inner (view out.0)
  unfolding receive
  receive-Leads world datagram from inner out h = parsed (parse_header datagram) h
    where
      parsed :
          (r : Result Error Header)
          → receive_parsed world r datagram from inner ≡ some out
          → Leads inner (view out.0)
      parsed (err e) k = Leads-along (ap (λ o. view o.0) (some-injective _ out k)) (unchanged inner)
      parsed (ok hdr) k = dispatch-Leads world hdr _ _ from inner out k

  pub begin_with-Leads :
      (world : World) (to : SocketAddr) (o : Option ℕ) (cancelled : List Effect)
      (inner : Inner noise.State) (out : Sent noise.State)
      → allocate_index world.readings inner.peers_by_index ≡ o
      → begin_with world to o cancelled inner ≡ some out
      → Leads inner (view out.0)
  begin_with-Leads world to none cancelled inner out q h = absurd (ground (arith, h))
  begin_with-Leads world to (some i) cancelled inner out q h =
      let (set, free) = allocate_index_lem world.readings inner.peers_by_index i q in
      Leads-along (ap (λ o. view o.0) (some-injective _ out h))
        (begun set free (stage0 _ _ _ _ _ _))
    where
      begun :
          i ≢ 0
          → get i inner.peers_by_index ≡ none
          → (r : Result Error (noise.State × Bytes))
          → Leads inner (view (begin_handshake to i r cancelled inner).0)
      begun set free (err e) = unchanged inner
      begun set free (ok (hs, msg)) = record { tables = Change.began i hs set free; fixed = refl }
