-- ===== src/Protocol/Session/Replay.antt =====
-- A counter is used once in the life of a session.
use nebula_rs.Prelude.{
  ℕ, ◌≡◌, refl, sym, subst, ◌∙◌, arith, false, Option, none, some, List, [], ◌∷◌, length, take,
  drop, nat_eq, ◌⊎◌, inl, inr, Bool-cases,
}
use nebula_rs.Prelude.Bytes.{Bytes}
use nebula_rs.Prelude.Map.{get, insert_same}
use nebula_rs.Prelude.Result.{ok, err}
use nebula_rs.Protocol.Error.{replayed_packet}
use nebula_rs.Protocol.Header.{Header, header_len, parse_header}
use nebula_rs.Protocol.Header.MessageType.{message, lighthouse}
use nebula_rs.Protocol.Window.Refinement.{Represents, is_fresh}
use nebula_rs.Protocol.Transport.{Aead, Transport, next_counter, decrypt}
use nebula_rs.Protocol.Transport.Delivery.{decrypt_lem}
use nebula_rs.Protocol.Wire.{Prost}
use nebula_rs.Protocol.Handshake.{Noise}
use nebula_rs.Protocol.Lighthouse.{SocketAddr}
use nebula_rs.Protocol.Cert.Certificate.{Certificate}
use nebula_rs.Protocol.Cert.Certificate.Verify.{Crypto}
use nebula_rs.Protocol.Session.{Established, established, Peers, Inner, Effect}
use nebula_rs.Protocol.Session.Receive.{
  World, zeros, set_peer, open_established, open_packet, handle_message, handle_lighthouse_packet,
  dispatch, receive,
}
use nebula_rs.Protocol.Session.Change.{Index, Change, Used, Later, Change-Later}
use nebula_rs.Protocol.Session.Leads.{opened_with_lem, delivered_lem, informed_lem}
use nebula_rs.Protocol.Session.Steps.{Step, Step-Leads, Steps, Reach}
use nebula_rs.Protocol.Session.Invariant.{Reach-TablesInv}

still_stale : (c d : ℕ) (seen : List ℕ) → is_fresh c seen ≡ false → is_fresh c (d ∷ seen) ≡ false
unfolding is_fresh
still_stale c d seen h = ground (arith, h)

now_stale : (c : ℕ) (seen : List ℕ) → is_fresh c (c ∷ seen) ≡ false
unfolding is_fresh
now_stale c seen = ground arith

-- The window of this transport refuses `c`.
abbrev pub Refuses : ℕ → Transport → Type 0
Refuses c t = (seen : List ℕ) × Represents t.replay seen × (is_fresh c seen ≡ false)

module _ ⦃crypto : Crypto⦄ ⦃aead : Aead⦄ where
  refused_decrypt :
      (c : ℕ) (aad body out : Bytes) (t : Transport)
      → Refuses c t
      → (decrypt c aad body out t).1 ≡ some (out, err replayed_packet)
  refused_decrypt c aad body out t (seen, r, stale) =
      (decrypt_lem c aad body out t seen r).0 ∙ rw stale refl

  still-Refuses :
      (ca : Certificate) (c : ℕ) {t t' : Transport} → Used ca t t' → Refuses c t → Refuses c t'
  unfolding next_counter
  still-Refuses ca c Used.drawn r = r
  still-Refuses ca c {t = t} (Used.opened d aad body out) (seen, r, stale) =
      let after = (decrypt_lem d aad body out t seen r).1 in
      elim (Bool-cases (is_fresh d seen)) [
        | inl fresh ↦ (d ∷ seen, rw fresh at after, still_stale c d seen stale)
        | inr old ↦ (seen, rw old at after, stale)
      ]

  later-Refuses :
      (ca : Certificate) (c : ℕ) {p p' : Established}
      → Later ca p p'
      → Refuses c p.transport
      → Refuses c p'.transport
  later-Refuses ca c Later.same r = r
  later-Refuses ca c (Later.moved t u) r = still-Refuses ca c u r

  now-Refuses :
      (c : ℕ) (aad body out : Bytes) (t : Transport) (seen : List ℕ)
      → Represents t.replay seen
      → Refuses c (decrypt c aad body out t).0
  now-Refuses c aad body out t seen r =
      let after = (decrypt_lem c aad body out t seen r).1 in
      elim (Bool-cases (is_fresh c seen)) [
        | inl fresh ↦ (c ∷ seen, rw fresh at after, now_stale c seen)
        | inr old ↦ (seen, rw old at after, old)
      ]

  module _ {State : Type 0} where
    -- The peer at `i` refuses `c`.
    abbrev pub Spent : ℕ → ℕ → Peers State → Type 0
    Spent i c peers =
        (p : Established) × (get i peers ≡ some (established p)) × Refuses c p.transport

    open_refused :
        (hdr : Header) (aad body : Bytes) (inner : Inner State)
        → Spent hdr.remote_index hdr.message_counter inner.peers_by_index
        → (inner' : Inner State) × (open_packet hdr aad body inner ≡ some (inner', none))
    unfolding open_packet open_established
    open_refused hdr aad body inner (p, found, refuses) =
        let done = decrypt hdr.message_counter aad body (zeros (length body)) p.transport in
        (
          set_peer hdr.remote_index (established (record p { transport = done.0 })) inner,
          rw
              (
                found,
                refused_decrypt hdr.message_counter aad body (zeros (length body)) p.transport
                    refuses,
              )
              refl,
        )

    opened-Spent :
        (hdr : Header) (aad body : Bytes) (inner : Inner State) (p : Established)
        (out : Inner State × Option (Established × Bytes))
        → get hdr.remote_index inner.peers_by_index ≡ some (established p)
        → (seen : List ℕ) × Represents p.transport.replay seen
        → open_packet hdr aad body inner ≡ some out
        → Spent hdr.remote_index hdr.message_counter out.0.peers_by_index
    unfolding open_packet open_established
    opened-Spent hdr aad body inner p out found (seen, r) h =
        let e = opened_with_lem _ _ _ out (rw found at h) in
        subst (λ s. Spent hdr.remote_index hdr.message_counter s.peers_by_index) e
          (
            _,
            insert_same hdr.remote_index _ inner.peers_by_index,
            now-Refuses hdr.message_counter aad body _ p.transport seen r,
          )

    Change-Spent :
        (ca : Certificate) {peers peers' : Peers State} {index index' : Index} (i c : ℕ)
        → Change ca peers index peers' index'
        → Spent i c peers
        → Spent i c peers'
    Change-Spent ca i c change (p, found, refuses) =
        let (p', found', later) = Change-Later ca change i p found in
        (p', found', later-Refuses ca c later refuses)

module _ ⦃crypto : Crypto⦄ ⦃aead : Aead⦄ ⦃noise : Noise⦄ ⦃prost : Prost⦄ where
  Step-Spent :
      {inner inner' : Inner noise.State} {es : List Effect} (i c : ℕ)
      → Step inner es inner'
      → Spent i c inner.peers_by_index
      → Spent i c inner'.peers_by_index
  Step-Spent {inner = inner} i c s spent =
      Change-Spent inner.ca_cert i c (Step-Leads s).tables spent

  Steps-Spent :
      {inner inner' : Inner noise.State} (i c : ℕ)
      → Steps inner inner'
      → Spent i c inner.peers_by_index
      → Spent i c inner'.peers_by_index
  Steps-Spent i c Steps.stay spent = spent
  Steps-Spent i c (Steps.more before s) spent = Step-Spent i c s (Steps-Spent i c before spent)

  -- A datagram that is opened with the transport of a peer.
  abbrev pub Carries : Bytes → Header → Type 0
  Carries datagram hdr =
      (parse_header datagram ≡ ok hdr) × ((hdr.type_ ≡ message) ⊎ (hdr.type_ ≡ lighthouse))

  pub dispatch-message :
      (world : World) (hdr : Header) (aad body : Bytes) (from : SocketAddr)
      (inner : Inner noise.State)
      → hdr.type_ ≡ message
      → dispatch world hdr aad body from inner ≡ handle_message hdr aad body inner
  unfolding dispatch
  dispatch-message world hdr aad body from inner e = rw e refl

  pub dispatch-lighthouse :
      (world : World) (hdr : Header) (aad body : Bytes) (from : SocketAddr)
      (inner : Inner noise.State)
      → hdr.type_ ≡ lighthouse
      → dispatch world hdr aad body from inner ≡ handle_lighthouse_packet hdr aad body inner
  unfolding dispatch
  dispatch-lighthouse world hdr aad body from inner e = rw e refl

  pub receive-dispatch :
      (world : World) (datagram : Bytes) (hdr : Header) (from : SocketAddr)
      (inner : Inner noise.State)
      → parse_header datagram ≡ ok hdr
      → receive world datagram from inner
        ≡ dispatch world hdr (take header_len datagram) (drop header_len datagram) from inner
  unfolding receive
  receive-dispatch world datagram hdr from inner e = rw e refl

  dispatch-Spent :
      (world : World) (hdr : Header) (aad body : Bytes) (from : SocketAddr)
      (inner : Inner noise.State) (p : Established) (out : Inner noise.State × List Effect)
      → (hdr.type_ ≡ message) ⊎ (hdr.type_ ≡ lighthouse)
      → get hdr.remote_index inner.peers_by_index ≡ some (established p)
      → (seen : List ℕ) × Represents p.transport.replay seen
      → dispatch world hdr aad body from inner ≡ some out
      → Spent hdr.remote_index hdr.message_counter out.0.peers_by_index
  unfolding handle_message handle_lighthouse_packet
  dispatch-Spent world hdr aad body from inner p out (inl e) found window h =
      let (y, opened, same) =
        delivered_lem _ out (sym (dispatch-message world hdr aad body from inner e) ∙ h) in
      subst (λ s. Spent hdr.remote_index hdr.message_counter s.peers_by_index) same
        (opened-Spent hdr aad body inner p y found window opened)
  dispatch-Spent world hdr aad body from inner p out (inr e) found window h =
      let (y, opened, same) =
        informed_lem _ out (sym (dispatch-lighthouse world hdr aad body from inner e) ∙ h) in
      subst (λ v. Spent hdr.remote_index hdr.message_counter v.0) same
        (opened-Spent hdr aad body inner p y found window opened)

  nothing_after :
      (world : World) (hdr : Header) (aad body : Bytes) (from : SocketAddr)
      (inner : Inner noise.State)
      → (hdr.type_ ≡ message) ⊎ (hdr.type_ ≡ lighthouse)
      → Spent hdr.remote_index hdr.message_counter inner.peers_by_index
      → (inner' : Inner noise.State) × (dispatch world hdr aad body from inner ≡ some (inner', []))
  unfolding handle_message handle_lighthouse_packet
  nothing_after world hdr aad body from inner (inl e) spent =
      let (inner', refused) = open_refused hdr aad body inner spent in
      (inner', dispatch-message world hdr aad body from inner e ∙ rw refused refl)
  nothing_after world hdr aad body from inner (inr e) spent =
      let (inner', refused) = open_refused hdr aad body inner spent in
      (inner', dispatch-lighthouse world hdr aad body from inner e ∙ rw refused refl)

  -- In a session that started with no peers: once a message or lighthouse datagram has been
  -- received for an established peer, whatever came of it, then after any further steps a message
  -- or lighthouse datagram with the same index and counter is received without a panic and has no
  -- effect: nothing is delivered, answered or sent.
  pub receive_once :
      {start inner later : Inner noise.State} {past : List (List Effect)} (world world' : World)
      (datagram datagram' : Bytes) (from from' : SocketAddr) (hdr hdr' : Header) (p : Established)
      (out : Inner noise.State × List Effect)
      → Reach start past inner
      → Carries datagram hdr
      → Carries datagram' hdr'
      → hdr'.remote_index ≡ hdr.remote_index
      → hdr'.message_counter ≡ hdr.message_counter
      → get hdr.remote_index inner.peers_by_index ≡ some (established p)
      → receive world datagram from inner ≡ some out
      → Steps out.0 later
      → (after : Inner noise.State) × (receive world' datagram' from' later ≡ some (after, []))
  receive_once {inner = inner} {later = later} world world' datagram datagram' from from' hdr hdr' p
        out reach (parsed, kind) (parsed', kind') index counter found h steps =
      let sound = (Reach-TablesInv reach).0.sound hdr.remote_index (established p) found in
      let spent =
        dispatch-Spent world hdr _ _ from inner p out kind found sound.1.window
          (sym (receive-dispatch world datagram hdr from inner parsed) ∙ h) in
      let spent' = Steps-Spent hdr.remote_index hdr.message_counter steps spent in
      let (after, nothing) =
        nothing_after world' hdr' (take header_len datagram') (drop header_len datagram') from'
          later kind' (rw (index, counter) spent') in
      (after, receive-dispatch world' datagram' hdr' from' later parsed' ∙ nothing)
