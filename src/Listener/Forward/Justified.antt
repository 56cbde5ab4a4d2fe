-- ===== src/Listener/Forward/Justified.antt =====
-- Nothing is forwarded but what the firewall passes for a verified peer.
use nebula_rs.Prelude.{
  ℕ, ◌≡◌, refl, sym, ap, subst, ◌∙◌, arith, Bool, true, false, Option, none, some, List, [], String,
  ◌⊎◌, inl, inr, Bool-cases, some-injective, nat_eq,
}
use nebula_rs.Prelude.Bytes.{Bytes}
use nebula_rs.Prelude.Map.{get}
use nebula_rs.Prelude.Result.{Result, ok, err}
use nebula_rs.Net.{IpAddr, IpNet}
use nebula_rs.Firewall.Packet.{Packet, packet_eq}
use nebula_rs.Firewall.Identity.{PeerIdentity, any_contains, owns}
use nebula_rs.Firewall.Tree.{rule_set_matches}
use nebula_rs.Firewall.Conntrack.Purge.{Inv}
use nebula_rs.Firewall.Engine.{Firewall, DropReason, fresh_check, evaluate}
use nebula_rs.Firewall.Engine.Decision.{flow_passes, decide, evaluate-decide}
use nebula_rs.Protocol.Transport.{Aead}
use nebula_rs.Protocol.Wire.{Prost}
use nebula_rs.Protocol.Handshake.{Noise}
use nebula_rs.Protocol.Cert.Certificate.{Certificate}
use nebula_rs.Protocol.Cert.Certificate.Verify.{Crypto}
use nebula_rs.Protocol.Session.{Established, Inner, Effect, PeerInfo, info_of, peer_info}
use nebula_rs.Protocol.Session.Send.{Sent, send}
use nebula_rs.Protocol.Session.Change.{Verified}
use nebula_rs.Protocol.Session.Steps.{Reach, Steps}
use nebula_rs.Protocol.Session.Invariant.{Steps-Reach, peer_info_lem}
use nebula_rs.Listener.Parse.{parse}
use nebula_rs.Listener.Identity.{peer_identity}
use nebula_rs.Listener.Forward.{
  Shared, is_multicast, is_ok, judge, gate, write_if, inbound, mesh_to_tun, sent_by, send_if,
  outbound, after_connect, with_tunnel, outbound_parsed, tun_to_mesh,
}

is_ok_lem : (r : Result DropReason (Unit {0})) → is_ok r ≡ true → r ≡ ok tt
is_ok_lem (err reason) h = absurd (ground (arith, h))
is_ok_lem (ok done) h = refl

module _ {N : Type 0} ⦃net : IpNet N⦄ where
  -- The three checks of a packet of no tracked flow.
  abbrev pub Allowed : Firewall N → Packet → Bool → PeerIdentity N → Type 0
  Allowed fw p incoming id =
      (owns id p.remote_addr ≡ true)
      × (any_contains fw.routable_networks p.local_addr ≡ true)
      × (rule_set_matches fw.rules p incoming id ≡ true)

  untracked-Allowed :
      (now : ℕ) (p : Packet) (incoming : Bool) (id : PeerIdentity N) (fw : Firewall N)
      → Inv fw.conntrack
      → (evaluate now p incoming id fw).1 ≡ ok tt
      → get p fw.conntrack.conns ≡ none
      → Allowed fw p incoming id
  unfolding decide flow_passes fresh_check
  untracked-Allowed now p incoming id fw inv h new =
      let e : (fresh_check fw.rules fw.routable_networks p incoming id) ≡ ok tt =
        rw new at (sym (evaluate-decide now p incoming id fw inv) ∙ h) in
      (ground (arith, e), ground (arith, e), ground (arith, e))

  module _ ⦃crypto : Crypto⦄ {State : Type 0} (text : Bytes → String) where
    -- A packet that is let through, to or from the peer with address `a`.
    pub record Justified (ca : Certificate) (now : ℕ) (p : Packet) (incoming : Bool) (a : IpAddr)
        (shared : Shared N State) : Type 0 where
      pub peer : Established
      pub verified : Verified ca peer
      pub address : peer.vpn_addr ≡ a
      pub id : PeerIdentity N
      pub identity : peer_identity text (info_of peer.cert) shared.ca_name shared.ca_sha ≡ some id
      pub passed : (evaluate now p incoming id shared.firewall).1 ≡ ok tt
      pub untracked :
          get p shared.firewall.conntrack.conns ≡ none → Allowed shared.firewall p incoming id

    write_if_lem :
        (bytes w : Bytes) (x : Option (Shared N State × Bool)) (shared' : Shared N State)
        → write_if text bytes x ≡ some (shared', some w)
        → (w ≡ bytes) × (x ≡ some (shared', true))
    write_if_lem bytes w none shared' h = absurd (ground (arith, h))
    write_if_lem bytes w (some (s, false)) shared' h = absurd (ground (arith, h))
    write_if_lem bytes w (some (s, true)) shared' h =
        let e = some-injective _ _ h in
        (sym (some-injective bytes w (ap (λ o. o.1) e)), ap (λ t. some (t, true)) (ap (λ o. o.0) e))

    judge_lem :
        (now : ℕ) (p : Packet) (incoming : Bool) (o : Option (PeerIdentity N))
        (shared shared' : Shared N State)
        → judge text now p incoming o shared ≡ some (shared', true)
        → (id : PeerIdentity N) × (o ≡ some id)
          × ((evaluate now p incoming id shared.firewall).1 ≡ ok tt)
          × (shared'.session ≡ shared.session)
    judge_lem now p incoming none shared shared' h = absurd (ground (arith, h))
    judge_lem now p incoming (some id) shared shared' h =
        let e = some-injective _ _ h in
        (id, refl, is_ok_lem _ (ap (λ o. o.1) e), sym (ap (λ o. o.0.session) e))

module _ {N : Type 0} ⦃net : IpNet N⦄ ⦃crypto : Crypto⦄ ⦃aead : Aead⦄ ⦃noise : Noise⦄
    ⦃prost : Prost⦄ (text : Bytes → String) where
  gate_lem :
      {start : Inner noise.State} {past : List (List Effect)} (now : ℕ) (p : Packet)
      (incoming : Bool) (a : IpAddr) (shared shared' : Shared N noise.State)
      → Reach start past shared.session
      → Inv shared.firewall.conntrack
      → gate text now p incoming (peer_info a shared.session) shared ≡ some (shared', true)
      → Justified text start.ca_cert now p incoming a shared × (shared'.session ≡ shared.session)
  gate_lem {start = start} now p incoming a shared shared' reach inv h =
      known (peer_info a shared.session) refl h
    where
      known :
          (o : Option PeerInfo)
          → peer_info a shared.session ≡ o
          → gate text now p incoming o shared ≡ some (shared', true)
          → Justified text start.ca_cert now p incoming a shared
            × (shared'.session ≡ shared.session)
      known none q k = absurd (ground (arith, k))
      known (some info) q k =
          let (peer, verified, address, same) = peer_info_lem a info reach q in
          let (id, identity, passed, kept) = judge_lem text now p incoming _ shared shared' k in
          (
            record {
              peer = peer;
              verified = verified;
              address = address;
              id = id;
              identity =
                  ap (λ i. peer_identity text i shared.ca_name shared.ca_sha) same ∙ identity;
              passed = passed;
              untracked = untracked-Allowed now p incoming id shared.firewall inv passed;
            },
            kept,
          )

  -- What a packet from the device was sent as: a state of the listener in which it was let through,
  -- and the send.
  pub record SentOn (ca : Certificate) (now : ℕ) (raw : Bytes) (shared : Shared N noise.State)
      (es : List Effect) : Type 0 where
    pub packet : Packet
    pub parsed : parse raw false ≡ some packet
    pub justified : Justified text ca now packet false packet.remote_addr shared
    pub sent : Sent noise.State
    pub sending : send packet.remote_addr raw shared.session ≡ some sent
    pub effects : sent.1 ≡ es

  sent_by_lem :
      (shared : Shared N noise.State) (x : Option (Sent noise.State))
      (out : Shared N noise.State × List Effect)
      → sent_by text shared x ≡ some out
      → (sent : Sent noise.State) × (x ≡ some sent) × (sent.1 ≡ out.1)
  sent_by_lem shared none out h = absurd (ground (arith, h))
  sent_by_lem shared (some sent) out h = (sent, refl, ap (λ o. o.1) (some-injective _ out h))

  outbound_lem :
      {start : Inner noise.State} {past : List (List Effect)} (now : ℕ) (raw : Bytes) (p : Packet)
      (shared : Shared N noise.State) (out : Shared N noise.State × List Effect)
      → Reach start past shared.session
      → Inv shared.firewall.conntrack
      → parse raw false ≡ some p
      → outbound text now raw p shared ≡ some out
      → (out.1 ≡ []) ⊎ SentOn start.ca_cert now raw shared out.1
  outbound_lem {start = start} now raw p shared out reach inv parsed h =
      judged (gate text now p false (peer_info p.remote_addr shared.session) shared) refl h
    where
      judged :
          (x : Option (Shared N noise.State × Bool))
          → gate text now p false (peer_info p.remote_addr shared.session) shared ≡ x
          → send_if text p.remote_addr raw x ≡ some out
          → (out.1 ≡ []) ⊎ SentOn start.ca_cert now raw shared out.1
      judged none q k = absurd (ground (arith, k))
      judged (some (s, false)) q k = inl (sym (ap (λ o. o.1) (some-injective _ out k)))
      judged (some (s, true)) q k =
          let (justified, kept) = gate_lem now p false p.remote_addr shared s reach inv q in
          let (sent, sending, effects) = sent_by_lem s _ out k in
          inr (record {
            packet = p;
            parsed = parsed;
            justified = justified;
            sent = sent;
            sending = ap (λ i. send p.remote_addr raw i) (sym kept) ∙ sending;
            effects = effects;
          })

  -- The state before a call of connect, or the one that it leaves.
  abbrev pub Around :
      (IpAddr → Shared N noise.State → Shared N noise.State × Bool)
      → Shared N noise.State
      → Shared N noise.State
      → Type 0
  Around connect shared before =
      (before ≡ shared) ⊎ ((a : IpAddr) × (before ≡ (connect a shared).0))

  -- What a listener forwards, if its session started with no peers and its table satisfies the heap
  -- invariant, and if a call of connect takes steps of the session and leaves such a table: a round
  -- of mesh_to_tun writes the payload it was given or nothing; a round of tun_to_mesh has no effect
  -- on the network or does one send of the packet it was given to the address the packet is for,
  -- before or after that connect. Either way the packet parses, and evaluate passes it for the
  -- identity from the verified certificate of a peer that has the address it came from or goes to;
  -- if its flow is not tracked, the peer owns its remote address, its local address is routed and a
  -- rule matches.
  pub mesh_to_tun-Justified :
      {start : Inner noise.State} {past : List (List Effect)} (now : ℕ) (src : IpAddr)
      (bytes : Bytes) (connect : IpAddr → Shared N noise.State → Shared N noise.State × Bool)
      (shared : Shared N noise.State)
      → Reach start past shared.session
      → Inv shared.firewall.conntrack
      → ((a : IpAddr)
          → Steps shared.session (connect a shared).0.session
            × Inv (connect a shared).0.firewall.conntrack)
      → ((shared' : Shared N noise.State) (written : Bytes)
          → mesh_to_tun text now src bytes shared ≡ some (shared', some written)
          → (written ≡ bytes)
            × ((p : Packet) × (parse bytes true ≡ some p)
                × Justified text start.ca_cert now p true src shared))
        × ((out : Shared N noise.State × List Effect)
            → tun_to_mesh text now connect bytes shared ≡ some out
            → (out.1 ≡ [])
              ⊎ ((before : Shared N noise.State) × Around connect shared before
                  × SentOn start.ca_cert now bytes before out.1))
  unfolding mesh_to_tun tun_to_mesh
  mesh_to_tun-Justified {start = start} now src bytes connect shared reach inv connecting = (
    λ shared' written h. written_by shared' written (parse bytes true) refl h,
    λ out h. sent_from out (parse bytes false) refl h,
  )
    where
      written_by :
          (shared' : Shared N noise.State) (written : Bytes) (o : Option Packet)
          → parse bytes true ≡ o
          → inbound text now src bytes o shared ≡ some (shared', some written)
          → (written ≡ bytes)
            × ((p : Packet) × (parse bytes true ≡ some p)
                × Justified text start.ca_cert now p true src shared)
      written_by shared' written none q k = absurd (ground (arith, k))
      written_by shared' written (some p) q k =
          let (same, passed) = write_if_lem text bytes written _ shared' k in
          (same, (p, q, (gate_lem now p true src shared shared' reach inv passed).0))

      sent_with :
          (out : Shared N noise.State × List Effect) (p : Packet) (o : Option PeerInfo)
          → parse bytes false ≡ some p
          → with_tunnel text now connect bytes p o shared ≡ some out
          → (out.1 ≡ [])
            ⊎ ((before : Shared N noise.State) × Around connect shared before
                × SentOn start.ca_cert now bytes before out.1)
      sent_with out p (some info) q k = elim (outbound_lem now bytes p shared out reach inv q k) [
        | inl nothing ↦ inl nothing
        | inr one ↦ inr (shared, inl refl, one)
      ]
      sent_with out p none q k = elim (Bool-cases (is_multicast p.remote_addr)) [
        | inl many ↦ inl (sym (ap (λ o. o.1) (some-injective _ out (rw many at k))))
        | inr one ↦ after (connect p.remote_addr shared) refl (rw one at k)
      ]
        where
          after :
              (c : Shared N noise.State × Bool)
              → connect p.remote_addr shared ≡ c
              → after_connect text now bytes p c ≡ some out
              → (out.1 ≡ [])
                ⊎ ((before : Shared N noise.State) × Around connect shared before
                    × SentOn start.ca_cert now bytes before out.1)
          after (s, false) r h = inl (sym (ap (λ o. o.1) (some-injective _ out h)))
          after (s, true) r h =
              let (steps, inv') =
                subst (λ c. Steps shared.session c.0.session × Inv c.0.firewall.conntrack) r
                  (connecting p.remote_addr) in
              let (past', reach') = Steps-Reach reach steps in
              elim (outbound_lem now bytes p s out reach' inv' q h) [
                | inl nothing ↦ inl nothing
                | inr once ↦ inr (s, inr (p.remote_addr, sym (ap (λ c. c.0) r)), once)
              ]

      sent_from :
          (out : Shared N noise.State × List Effect) (o : Option Packet)
          → parse bytes false ≡ o
          → outbound_parsed text now connect bytes o shared ≡ some out
          → (out.1 ≡ [])
            ⊎ ((before : Shared N noise.State) × Around connect shared before
                × SentOn start.ca_cert now bytes before out.1)
      sent_from out none q k = inl (sym (ap (λ o. o.1) (some-injective _ out k)))
      sent_from out (some p) q k = sent_with out p _ q k
