-- ===== src/Protocol/Session/Change.antt =====
-- What a step may do to the two tables of a session, with the guards that it is done under.
use nebula_rs.Prelude.{
  ℕ, ◌≡◌, ◌≢◌, refl, sym, ap, subst, ◌∙◌, inl, inr, Bool-cases, some-injective, true, false, Option,
  none, some, arith, nat_eq, ◌==◌, ==_iff,
}
use nebula_rs.Prelude.Int.{ℤ}
use nebula_rs.Prelude.Bytes.{Bytes}
use nebula_rs.Prelude.Map.{HashMap, get, insert, remove, insert_same, insert_other, remove_other}
use nebula_rs.Net.{IpAddr, addr_eq}
use nebula_rs.Protocol.Window.{replay_window_new}
use nebula_rs.Protocol.Transport.{Aead, Transport, next_counter, decrypt}
use nebula_rs.Protocol.Cert.Certificate.{Certificate}
use nebula_rs.Protocol.Cert.Certificate.Verify.{Crypto}
use nebula_rs.Protocol.Cert.Certificate.Trust.{Trusted}
use nebula_rs.Protocol.Session.{Established, PeerState, handshaking, established, Peers, first_addr}

abbrev pub Index : Type 0
Index = HashMap IpAddr ℕ

module _ ⦃crypto : Crypto⦄ (ca : Certificate) where
  -- A certificate that was once verified, and the address in it.
  pub record Verified (p : Established) : Type 0 where
    pub now : ℤ
    pub trusted : Trusted p.cert ca now
    pub named : first_addr p.cert ≡ some p.vpn_addr
    pub reachable : p.remote_index ≢ 0

  -- What a handshake that has just succeeded has established.
  pub record New (p : Established) : Type 0 where
    pub verified : Verified p
    pub unused : p.transport.replay ≡ replay_window_new

  -- The uses of a transport: a counter drawn, or a packet looked at, whatever came of it.
  pub data Used ⦃aead : Aead⦄ (t : Transport) : Transport → Type 0 where
    drawn : Used t (next_counter t).0
    opened : (counter : ℕ) (aad body out : Bytes) → Used t (decrypt counter aad body out t).0

  module _ ⦃aead : Aead⦄ where
    -- An established peer later: itself, or with its transport used.
    pub data Later (p : Established) : Established → Type 0 where
      same : Later p p
      moved : (t : Transport) → Used p.transport t → Later p (record p { transport = t })

    pub later_vpn_addr : {p p' : Established} → Later p p' → p'.vpn_addr ≡ p.vpn_addr
    later_vpn_addr Later.same = refl
    later_vpn_addr (Later.moved t u) = refl

  module _ ⦃aead : Aead⦄ {State : Type 0} where
    pub data Change (peers : Peers State) (index : Index) : Peers State → Index → Type 0 where
      kept : Change peers index peers index
      began :
          (i : ℕ) (hs : State)
          → i ≢ 0
          → get i peers ≡ none
          → Change peers index (insert i (handshaking hs) peers) index
      failed :
          (i : ℕ) (hs : State)
          → get i peers ≡ some (handshaking hs)
          → Change peers index (remove i peers) index
      answered :
          (i : ℕ) (p : Established)
          → i ≢ 0
          → get i peers ≡ none
          → New p
          → Change peers index (insert i (established p) peers) (insert p.vpn_addr i index)
      completed :
          (i : ℕ) (hs : State) (p : Established)
          → get i peers ≡ some (handshaking hs)
          → New p
          → Change peers index
              (insert i (established p) (remove i peers))
              (insert p.vpn_addr i index)
      used :
          (i : ℕ) (p : Established) (t : Transport)
          → get i peers ≡ some (established p)
          → Used p.transport t
          → Change peers index (insert i (established (record p { transport = t })) peers) index

    abbrev peer_or : Established → PeerState State → Established
    peer_or d (handshaking hs) = d
    peer_or d (established p) = p

    pub established-injective :
        (p q : Established) → Path (PeerState State) (established p) (established q) → p ≡ q
    established-injective p q e = ap (peer_or p) e

    -- Where there is nothing, or a handshake, there is no established peer.
    abbrev NotEstablished : Option (PeerState State) → Type 0
    NotEstablished none = Unit
    NotEstablished (some (handshaking hs)) = Unit
    NotEstablished (some (established p)) = true ≡ false

    apart :
        (peers : Peers State) (k i : ℕ) (p : Established) (o : Option (PeerState State))
        → get k peers ≡ o
        → NotEstablished o
        → get i peers ≡ some (established p)
        → k ≢ i
    apart peers k i p o q ne h e =
        absurd (ground (arith, subst NotEstablished (sym q ∙ ap (λ j. get j peers) e ∙ h) ne))

    pub Change-Later :
        {peers peers' : Peers State} {index index' : Index}
        → Change peers index peers' index'
        → (i : ℕ) (p : Established) → get i peers ≡ some (established p)
        → (p' : Established) × (get i peers' ≡ some (established p')) × Later p p'
    Change-Later Change.kept i p h = (p, h, Later.same)
    Change-Later {peers = peers} (Change.began k hs set free) i p h =
        (p, insert_other k i _ peers (apart peers k i p _ free tt h) ∙ h, Later.same)
    Change-Later {peers = peers} (Change.failed k hs waits) i p h =
        (p, remove_other k i peers (apart peers k i p _ waits tt h) ∙ h, Later.same)
    Change-Later {peers = peers} (Change.answered k q set free new) i p h =
        (p, insert_other k i _ peers (apart peers k i p _ free tt h) ∙ h, Later.same)
    Change-Later {peers = peers} (Change.completed k hs q waits new) i p h =
        let ne = apart peers k i p _ waits tt h in
        (p, insert_other k i _ (remove k peers) ne ∙ remove_other k i peers ne ∙ h, Later.same)
    Change-Later {peers = peers} (Change.used k q t found u) i p h = elim (Bool-cases (k == i)) [
      | inl equal ↦
          let e = (==_iff k i).0 equal in
          let who : q ≡ p =
            established-injective q p
              (some-injective _ _ (sym found ∙ ap (λ j. get j peers) e ∙ h)) in
          (
            record q { transport = t },
            ap (λ j. get j (insert k (established (record q { transport = t })) peers)) (sym e)
                ∙ insert_same k _ peers,
            subst (λ r. Later r (record q { transport = t })) who (Later.moved t u),
          )
      | inr other ↦
          (p, insert_other k i _ peers (λ e. absurd (ground (arith, e, other))) ∙ h, Later.same)
    ]
