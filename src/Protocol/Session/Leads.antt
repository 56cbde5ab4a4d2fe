-- ===== src/Protocol/Session/Leads.antt =====
-- What the tables of a session become when a packet is opened or sent.
pub mod Handshakes
use nebula_rs.Prelude.{
  ◌≢◌, ◌||◌, ℕ, ◌≡◌, refl, sym, ap, ◌∙◌, subst, arith, Bool, true, false, Option, none, some, List,
  [], ◌∷◌, nat_eq, ◌==◌, inl, inr, some-injective, if◌then◌else◌, Bool-cases, Option-cases,
}
use nebula_rs.Prelude.Int.{ℤ, int_eq}
use nebula_rs.Prelude.Bytes.{Bytes}
use nebula_rs.Prelude.Map.{get, insert, remove}
use nebula_rs.Prelude.Result.{Result, ok, err}
use nebula_rs.Net.{IpAddr, addr_eq}
use nebula_rs.Protocol.Error.{Error}
use nebula_rs.Protocol.Header.{Header, parse_header, encode_header, header_len}
use nebula_rs.Protocol.Header.MessageType.{handshake, message, lighthouse}
use nebula_rs.Protocol.Transport.{Aead, Cipher, transport_new, decrypt, next_counter, encrypt}
use nebula_rs.Protocol.Wire.{NebulaMeta, Prost}
use nebula_rs.Protocol.Handshake.{Noise, stage0}
use nebula_rs.Protocol.Lighthouse.{
  SocketAddr, candidate_addrs, vpn_addr_of, host_query_reply, host_update,
}
use nebula_rs.Protocol.Cert.Certificate.{Certificate, encode_for_handshake}
use nebula_rs.Protocol.Cert.Certificate.Verify.{Crypto}
use nebula_rs.Protocol.Cert.Certificate.Trust.{Trusted}
use nebula_rs.Protocol.Session.{
  Established, PeerState, handshaking, established, Peers, packet, Inner, Effect, allocate_index,
  first_addr,
}
use nebula_rs.Protocol.Session.Receive.{
  World, Completed, set_peer, establish, signal_connected, opened_with, open_established, open_from,
  open_packet, delivered, handle_message, notify, learn, handle_meta, handle_lighthouse, informed,
  signal, finish_stage0, finish_stage2, stage0_with, dispatch, receive_parsed,
  handle_lighthouse_packet, established_with, accept_stage0, accept_stage2, handle_stage0,
  handle_stage2, stage2_from, handle_handshake, receive, Opened,
}
use nebula_rs.Protocol.Session.Send.{
  Sent, send_at, sealed, send_established, send_from, send_typed, await_lighthouse, begin_handshake,
  begin_with, start_handshake,
}
use nebula_rs.Protocol.Session.Checks.{allocate_index_lem, accept_stage0_lem, accept_stage2_lem}
use nebula_rs.Protocol.Session.Change.{Index, Change, Verified, New, Used}

-- What no step changes.
abbrev pub Settings : Type 0
Settings = Certificate × Certificate × Bytes × Cipher × IpAddr × List IpAddr

module _ ⦃crypto : Crypto⦄ ⦃aead : Aead⦄ {State : Type 0} where
  abbrev pub settings : Inner State → Settings
  settings inner = (
    inner.ca_cert, inner.host_cert, inner.host_private_key, inner.cipher, inner.vpn_addr,
    inner.lighthouses,
  )

  abbrev pub view : Inner State → Peers State × Index × Settings
  view inner = (inner.peers_by_index, inner.index_by_vpn_addr, settings inner)

  -- A state with these tables and settings may come after `inner`.
  pub record Leads (inner : Inner State) (after : Peers State × Index × Settings) : Type 0 where
    pub tables : Change inner.ca_cert inner.peers_by_index inner.index_by_vpn_addr after.0 after.1
    pub fixed : after.2 ≡ settings inner

  pub unchanged : (inner : Inner State) → Leads inner (view inner)
  unchanged inner = record { tables = Change.kept; fixed = refl }

  pub Leads-along :
      {inner : Inner State} {t t' : Peers State × Index × Settings}
      → t ≡ t'
      → Leads inner t
      → Leads inner t'
  Leads-along {inner = inner} e l = subst (λ t. Leads inner t) e l

  pub opened_with_lem :
      (inner : Inner State) (p : Established) (x : Option (Bytes × Result Error ℕ))
      (out : Inner State × Option (Established × Bytes))
      → opened_with inner p x ≡ some out
      → inner ≡ out.0
  opened_with_lem inner p none out h = absurd (ground (arith, h))
  opened_with_lem inner p (some (b, err e)) out h = ap (λ o. o.0) (some-injective _ out h)
  opened_with_lem inner p (some (b, ok n)) out h = ap (λ o. o.0) (some-injective _ out h)

  open_from-Leads :
      (hdr : Header) (aad body : Bytes) (inner : Inner State) (o : Option (PeerState State))
      (out : Inner State × Option (Established × Bytes))
      → get hdr.remote_index inner.peers_by_index ≡ o
      → open_from hdr aad body o inner ≡ some out
      → Leads inner (view out.0)
  unfolding open_established
  open_from-Leads hdr aad body inner none out q h =
      Leads-along (ap (λ o. view o.0) (some-injective _ out h)) (unchanged inner)
  open_from-Leads hdr aad body inner (some (handshaking hs)) out q h =
      Leads-along (ap (λ o. view o.0) (some-injective _ out h)) (unchanged inner)
  open_from-Leads hdr aad body inner (some (established p)) out q h =
      Leads-along (ap view (opened_with_lem _ _ _ out h)) (record {
        tables = Change.used hdr.remote_index p _ q (Used.opened hdr.message_counter aad body _);
        fixed = refl;
      })

  open_packet-Leads :
      (hdr : Header) (aad body : Bytes) (inner : Inner State)
      (out : Inner State × Option (Established × Bytes))
      → open_packet hdr aad body inner ≡ some out
      → Leads inner (view out.0)
  unfolding open_packet
  open_packet-Leads hdr aad body inner out h = open_from-Leads hdr aad body inner _ out refl h

  pub delivered_lem :
      (x : Opened State) (out : Inner State × List Effect)
      → delivered x ≡ some out
      → (y : Inner State × Option (Established × Bytes)) × (x ≡ some y) × (y.0 ≡ out.0)
  delivered_lem none out h = absurd (ground (arith, h))
  delivered_lem (some (inner, none)) out h = (_, refl, ap (λ o. o.0) (some-injective _ out h))
  delivered_lem (some (inner, some (p, b))) out h =
      (_, refl, ap (λ o. o.0) (some-injective _ out h))

  pub handle_message-Leads :
      (hdr : Header) (aad body : Bytes) (inner : Inner State) (out : Inner State × List Effect)
      → handle_message hdr aad body inner ≡ some out
      → Leads inner (view out.0)
  unfolding handle_message
  handle_message-Leads hdr aad body inner out h =
      let (y, opened, same) = delivered_lem _ out h in
      Leads-along (ap view same) (open_packet-Leads hdr aad body inner y opened)

  view-learn :
      (a : Option IpAddr) (addrs : List SocketAddr) (inner : Inner State)
      → view (learn a addrs inner).0 ≡ view inner
  unfolding learn
  view-learn a [] inner = refl
  view-learn none (addr ∷ addrs) inner = refl
  view-learn (some a) (addr ∷ addrs) inner = notified (get a inner.lighthouse_waiters)
    where
      notified :
          (o : Option ℕ)
          → view
              (notify o a
                (addr ∷ addrs)
                (record inner { known_addrs = insert a addr inner.known_addrs })).0
            ≡ view inner
      notified none = refl
      notified (some channel) = refl

  view-handle_meta :
      (m : Result Error NebulaMeta) (inner : Inner State)
      → view (handle_meta m inner).0 ≡ view inner
  view-handle_meta (err e) inner = refl
  view-handle_meta (ok meta) inner =
      elim (Bool-cases (meta.type_ == host_query_reply || meta.type_ == host_update)) [
        | inl named ↦ rw named (view-learn (vpn_addr_of meta) (candidate_addrs meta) inner)
        | inr other ↦ rw other refl
      ]

  module _ ⦃prost : Prost⦄ where
    pub informed_lem :
        (x : Opened State) (out : Inner State × List Effect)
        → informed x ≡ some out
        → (y : Inner State × Option (Established × Bytes)) × (x ≡ some y) × (view y.0 ≡ view out.0)
    unfolding handle_lighthouse
    informed_lem none out h = absurd (ground (arith, h))
    informed_lem (some (inner, none)) out h = (_, refl, ap (λ o. view o.0) (some-injective _ out h))
    informed_lem (some (inner, some (p, b))) out h = (
      _,
      refl,
      sym (view-handle_meta (prost.decode_meta b) inner)
          ∙ ap (λ o. view o.0) (some-injective _ out h),
    )

    pub handle_lighthouse_packet-Leads :
        (hdr : Header) (aad body : Bytes) (inner : Inner State) (out : Inner State × List Effect)
        → handle_lighthouse_packet hdr aad body inner ≡ some out
        → Leads inner (view out.0)
    unfolding handle_lighthouse_packet
    handle_lighthouse_packet-Leads hdr aad body inner out h =
        let (y, opened, same) = informed_lem _ out h in
        Leads-along same (open_packet-Leads hdr aad body inner y opened)

  sealed_lem :
      (inner : Inner State) (with_header : Bytes → Bytes) (to : SocketAddr)
      (x : Option (Bytes × Result Error ℕ)) (out : Sent State)
      → sealed inner with_header to x ≡ some out
      → inner ≡ out.0
  sealed_lem inner with_header to none out h = absurd (ground (arith, h))
  sealed_lem inner with_header to (some (b, err e)) out h = ap (λ o. o.0) (some-injective _ out h)
  sealed_lem inner with_header to (some (b, ok n)) out h = ap (λ o. o.0) (some-injective _ out h)

  send_from-Leads :
      (a : IpAddr) (type_ : ℕ) (payload : Bytes) (i : ℕ) (o : Option (PeerState State))
      (inner : Inner State) (out : Sent State)
      → get i inner.peers_by_index ≡ o
      → send_from a type_ payload i o inner ≡ some out
      → Leads inner (view out.0)
  unfolding send_established
  send_from-Leads a type_ payload i none inner out q h =
      Leads-along (ap (λ o. view o.0) (some-injective _ out h)) (unchanged inner)
  send_from-Leads a type_ payload i (some (handshaking hs)) inner out q h =
      Leads-along (ap (λ o. view o.0) (some-injective _ out h)) (unchanged inner)
  send_from-Leads a type_ payload i (some (established p)) inner out q h =
      Leads-along
        (ap view (
          sealed_lem _ (packet type_ p.remote_index (next_counter p.transport).1) p.remote _ out h))
        (record { tables = Change.used i p _ q Used.drawn; fixed = refl })

  pub send_typed-Leads :
      (a : IpAddr) (type_ : ℕ) (payload : Bytes) (inner : Inner State) (out : Sent State)
      → send_typed a type_ payload inner ≡ some out
      → Leads inner (view out.0)
  unfolding send_typed
  send_typed-Leads a type_ payload inner out h = at (get a inner.index_by_vpn_addr) h
    where
      at : (o : Option ℕ) → send_at a type_ payload o inner ≡ some out → Leads inner (view out.0)
      at none k = Leads-along (ap (λ o. view o.0) (some-injective _ out k)) (unchanged inner)
      at (some i) k = send_from-Leads a type_ payload i _ inner out refl k
