-- ===== src/Protocol/Session/Invariant.antt =====
-- What holds of the tables of a session at all times.
use nebula_rs.Prelude.{
  ℕ, ◌≡◌, ◌≢◌, refl, sym, ap, subst, ◌∙◌, arith, Option, none, some, List, [], nat_eq, ◌==◌, inl,
  inr, Bool-cases, some-injective,
}
use nebula_rs.Prelude.Map.{get, insert, remove, get-remove, insert_same, insert_found}
use nebula_rs.Net.{IpAddr, addr_eq}
use nebula_rs.Protocol.Window.Refinement.{Represents, replay_window_new-Represents}
use nebula_rs.Protocol.Transport.{Aead, Transport, next_counter}
use nebula_rs.Protocol.Transport.Delivery.{decrypt_lem}
use nebula_rs.Protocol.Wire.{Prost}
use nebula_rs.Protocol.Handshake.{Noise}
use nebula_rs.Protocol.Cert.Certificate.{Certificate}
use nebula_rs.Protocol.Cert.Certificate.Verify.{Crypto}
use nebula_rs.Protocol.Session.{
  Established, PeerState, handshaking, established, Peers, Inner, Effect, PeerInfo, info_of,
  info_at, peer_info,
}
use nebula_rs.Protocol.Session.Change.{
  Index, Change, Verified, New, Used, Change-Later, later_vpn_addr,
}
use nebula_rs.Protocol.Session.Leads.{settings}
use nebula_rs.Protocol.Session.Steps.{Step-Leads, Steps, Reach}

module _ ⦃crypto : Crypto⦄ (ca : Certificate) where
  -- A peer whose certificate was verified, and a window that stands for some set of counters.
  pub record Sound (p : Established) : Type 0 where
    pub verified : Verified ca p
    pub window : (seen : List ℕ) × Represents p.transport.replay seen

  module _ ⦃aead : Aead⦄ where
    Used-Represents :
        {t t' : Transport}
        → Used ca t t'
        → (seen : List ℕ) → Represents t.replay seen
        → (seen' : List ℕ) × Represents t'.replay seen'
    unfolding next_counter
    Used-Represents Used.drawn seen r = (seen, r)
    Used-Represents (Used.opened c aad body out) seen r =
        (_, (decrypt_lem c aad body out _ seen r).1)

    New-Sound : (p : Established) → New ca p → Sound p
    New-Sound p new = record {
      verified = new.verified;
      window = ([], subst (λ w. Represents w []) (sym new.unused) replay_window_new-Represents);
    }

    Used-Sound :
        (p : Established) (t : Transport)
        → Used ca p.transport t
        → Sound p
        → Sound (record p { transport = t })
    Used-Sound p t u s = record {
      verified = record {
        now = s.verified.now;
        trusted = s.verified.trusted;
        named = s.verified.named;
        reachable = s.verified.reachable;
      };
      window = Used-Represents u s.window.0 s.window.1;
    }

  module _ {State : Type 0} where
    abbrev pub PeerSound : PeerState State → Type 0
    PeerSound (handshaking hs) = Unit
    PeerSound (established p) = Sound p

    -- Every index is nonzero, every established peer was verified, and every entry of the second table
    -- leads to an established peer with that address.
    pub record TablesInv (peers : Peers State) (index : Index) : Type 0 where
      pub sound : (i : ℕ) (s : PeerState State) → get i peers ≡ some s → (i ≢ 0) × PeerSound s
      pub leads :
          (a : IpAddr) (i : ℕ)
          → get a index ≡ some i
          → (p : Established) × (get i peers ≡ some (established p)) × (p.vpn_addr ≡ a)

    no_peers-TablesInv : TablesInv [] []
    unfolding get
    no_peers-TablesInv = record {
      sound = λ i s h. absurd (ground (arith, h));
      leads = λ a i h. absurd (ground (arith, h));
    }

    -- The first part of the invariant, for a peer that is put at `k`.
    insert_sound :
        (peers : Peers State) (k : ℕ) (s : PeerState State)
        → ((i : ℕ) (t : PeerState State) → get i peers ≡ some t → (i ≢ 0) × PeerSound t)
        → k ≢ 0
        → PeerSound s
        → (i : ℕ) (t : PeerState State) → get i (insert k s peers) ≡ some t
        → (i ≢ 0) × PeerSound t
    insert_sound peers k s inv set ok i t h = elim (insert_found k i s t peers h) [
      | inl (same, found) ↦ (subst (λ j. j ≢ 0) same set, subst PeerSound found ok)
      | inr (other, found) ↦ inv i t found
    ]

    remove_sound :
        (peers : Peers State) (k : ℕ)
        → ((i : ℕ) (t : PeerState State) → get i peers ≡ some t → (i ≢ 0) × PeerSound t)
        → (i : ℕ) (t : PeerState State) → get i (remove k peers) ≡ some t
        → (i ≢ 0) × PeerSound t
    remove_sound peers k inv i t h = elim (Bool-cases (k == i)) [
      | inl same ↦ absurd (ground (arith, rw same at (sym (get-remove k i peers) ∙ h)))
      | inr other ↦ inv i t (rw other at (sym (get-remove k i peers) ∙ h))
    ]

    module _ ⦃aead : Aead⦄ where
      -- The second part: an established peer stays under its index.
      still_leads :
          {peers peers' : Peers State} {index index' : Index}
          → Change ca peers index peers' index'
          → TablesInv peers index
          → (a : IpAddr) (i : ℕ) → get a index ≡ some i
          → (p : Established) × (get i peers' ≡ some (established p)) × (p.vpn_addr ≡ a)
      still_leads c inv a i h =
          let (p, found, named) = inv.leads a i h in
          let (p', found', later) = Change-Later ca c i p found in
          (p', found', later_vpn_addr ca later ∙ named)

      -- A new peer is put at `i`, and its address leads there.
      newly_leads :
          {peers : Peers State} {index : Index} (peers' : Peers State) (p : Established) (i : ℕ)
          → Change ca peers index (insert i (established p) peers') (insert p.vpn_addr i index)
          → TablesInv peers index
          → (a : IpAddr) (j : ℕ) → get a (insert p.vpn_addr i index) ≡ some j
          → (q : Established) × (get j (insert i (established p) peers') ≡ some (established q))
            × (q.vpn_addr ≡ a)
      newly_leads {index = index} peers' p i c inv a j h =
          elim (insert_found p.vpn_addr a i j index h) [
            | inl (same, found) ↦ (
              p,
              ap (λ k. get k (insert i (established p) peers')) (sym found)
                  ∙ insert_same i _ peers',
              same,
            )
            | inr (other, found) ↦ still_leads c inv a j found
          ]

      pub Change-TablesInv :
          {peers peers' : Peers State} {index index' : Index}
          → Change ca peers index peers' index'
          → TablesInv peers index
          → TablesInv peers' index'
      Change-TablesInv Change.kept inv = inv
      Change-TablesInv (Change.began i hs set free) inv = record {
        sound = insert_sound _ i _ inv.sound set tt;
        leads = still_leads (Change.began i hs set free) inv;
      }
      Change-TablesInv (Change.failed i hs waits) inv = record {
        sound = remove_sound _ i inv.sound;
        leads = still_leads (Change.failed i hs waits) inv;
      }
      Change-TablesInv (Change.answered i p set free new) inv = record {
        sound = insert_sound _ i _ inv.sound set (New-Sound p new);
        leads = newly_leads _ p i (Change.answered i p set free new) inv;
      }
      Change-TablesInv (Change.completed i hs p waits new) inv = record {
        sound =
            insert_sound _ i _ (remove_sound _ i inv.sound) (inv.sound i _ waits).0
              (New-Sound p new);
        leads = newly_leads _ p i (Change.completed i hs p waits new) inv;
      }
      Change-TablesInv (Change.used i p t found u) inv = record {
        sound =
            insert_sound _ i _ inv.sound (inv.sound i _ found).0
              (Used-Sound p t u (inv.sound i _ found).1);
        leads = still_leads (Change.used i p t found u) inv;
      }

module _ ⦃crypto : Crypto⦄ ⦃aead : Aead⦄ ⦃noise : Noise⦄ ⦃prost : Prost⦄ where
  Change-along :
      {ca ca' : Certificate} {peers peers' : Peers noise.State} {index index' : Index}
      → ca ≡ ca'
      → Change ca peers index peers' index'
      → Change ca' peers index peers' index'
  Change-along {peers = peers} {peers' = peers'} {index = index} {index' = index'} e c =
      subst (λ x. Change x peers index peers' index') e c

  -- After any history of datagrams, of calls to send and connect, and of queries, in any order, of
  -- a session that starts with no peers: the settings are those it started with, every index is
  -- nonzero, every established peer has a certificate that was verified against the session's CA,
  -- the first address in it, a nonzero index for the other side, and a replay window that stands
  -- for some set of counters; and every entry of index_by_vpn_addr leads to an established peer
  -- with that address.
  pub Reach-TablesInv :
      {start inner : Inner noise.State} {past : List (List Effect)}
      → Reach start past inner
      → TablesInv start.ca_cert inner.peers_by_index inner.index_by_vpn_addr
        × (settings inner ≡ settings start)
  Reach-TablesInv (Reach.started no_peers no_index) =
      (rw (no_peers, no_index) (no_peers-TablesInv _), refl)
  Reach-TablesInv (Reach.then r s) =
      let l = Step-Leads s in
      let (inv, fixed) = Reach-TablesInv r in
      (Change-TablesInv _ (Change-along (ap (λ x. x.0) fixed) l.tables) inv, l.fixed ∙ fixed)

  -- What a step does, any number of times.
  pub Steps-Reach :
      {start inner inner' : Inner noise.State} {past : List (List Effect)}
      → Reach start past inner
      → Steps inner inner'
      → (past' : List (List Effect)) × Reach start past' inner'
  Steps-Reach r Steps.stay = (_, r)
  Steps-Reach r (Steps.more before s) =
      let (past', r') = Steps-Reach r before in (_, Reach.then r' s)

  -- The peer that `peer_info` speaks of.
  pub peer_info_lem :
      {start inner : Inner noise.State} {past : List (List Effect)} (a : IpAddr) (info : PeerInfo)
      → Reach start past inner
      → peer_info a inner ≡ some info
      → (p : Established) × Verified start.ca_cert p × (p.vpn_addr ≡ a) × (info_of p.cert ≡ info)
  unfolding peer_info
  peer_info_lem {start = start} {inner = inner} a info r h =
      at (get a inner.index_by_vpn_addr) refl h
    where
      at :
          (o : Option ℕ)
          → get a inner.index_by_vpn_addr ≡ o
          → info_at o inner ≡ some info
          → (p : Established) × Verified start.ca_cert p
            × (p.vpn_addr ≡ a)
            × (info_of p.cert ≡ info)
      at none q k = absurd (ground (arith, k))
      at (some i) q k =
          let inv = (Reach-TablesInv r).0 in
          let (p, found, named) = inv.leads a i q in
          (p, (inv.sound i _ found).1.verified, named, some-injective _ info (rw found at k))
