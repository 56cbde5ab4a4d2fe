-- ===== src/Protocol/Session/Checks.antt =====
-- What is known when an index was allocated and when a handshake was accepted.
use nebula_rs.Prelude.{
  subst, ℕ, ◌≡◌, ◌≢◌, ap, arith, true, not, ◌&&◌, Option, none, some, List, [], ◌∷◌, nat_eq, ◌==◌,
  if◌then◌else◌, inl, inr, Bool-cases,
}
use nebula_rs.Prelude.Int.{ℤ}
use nebula_rs.Prelude.Bytes.{Bytes}
use nebula_rs.Prelude.Map.{get}
use nebula_rs.Prelude.Result.{Result, ok, err, ok_or, >>=-eq-ok, ok-injective}
use nebula_rs.Net.{IpAddr}
use nebula_rs.Protocol.Error.{Error, cert_no_networks}
use nebula_rs.Protocol.Transport.{Cipher}
use nebula_rs.Protocol.Wire.{NebulaHandshakeDetails, Prost}
use nebula_rs.Protocol.Handshake.{
  Noise, SplitKeys, details_of, split_keys, respond, finish_initiator,
}
use nebula_rs.Protocol.Cert.Values.{curve25519}
use nebula_rs.Protocol.Cert.Certificate.{Certificate, recombine}
use nebula_rs.Protocol.Cert.Certificate.Verify.{Crypto, verify_host_cert}
use nebula_rs.Protocol.Cert.Certificate.Trust.{Trusted, verify_host_cert-Trusted}
use nebula_rs.Protocol.Session.{Peers, is_free, rand_index, allocate_index, first_addr, Inner}
use nebula_rs.Protocol.Session.Receive.{
  World, Completed, verified_peer, accept_stage0, accept_stage2,
}

module _ {State : Type 0} where
  is_free_lem : (i : ℕ) (peers : Peers State) → is_free i peers ≡ true → get i peers ≡ none
  is_free_lem i peers h = ground (arith, h)

  pub allocate_index_lem :
      (readings : List ℕ) (peers : Peers State) (i : ℕ)
      → allocate_index readings peers ≡ some i
      → (i ≢ 0) × (get i peers ≡ none)
  unfolding allocate_index
  allocate_index_lem [] peers i h = absurd (ground (arith, h))
  allocate_index_lem (nanos ∷ later) peers i h =
      elim (Bool-cases (not (rand_index nanos == 0) && is_free (rand_index nanos) peers)) [
        | inl usable ↦
            let same : rand_index nanos ≡ i = ground (arith, rw usable at h) in
            rw (← same) (
              ground (arith, usable),
              is_free_lem (rand_index nanos) peers (ground (arith, usable)),
            )
        | inr skipped ↦ allocate_index_lem later peers i (rw skipped at h)
      ]

nonzero_of_ok :
    {A : Type 0} (r : A) (e : Error) (n : ℕ) (out : Result Error A)
    → (if n == 0 then err e else out) ≡ ok r
    → (n ≢ 0) × (out ≡ ok r)
nonzero_of_ok r e n out h = elim (Bool-cases (n == 0)) [
  | inl zero ↦ absurd (ground (arith, rw zero at h))
  | inr set ↦ (ground (arith, set), rw set at h)
]

ok_or-ok : {A : Type 0} (e : Error) (o : Option A) (a : A) → ok_or e o ≡ ok a → o ≡ some a
ok_or-ok e none a h = absurd (ground (arith, h))
ok_or-ok e (some x) a h = ap some (ok-injective _ _ h)

module _ ⦃crypto : Crypto⦄ where
  pub verified_peer_lem :
      (bytes : Bytes) (keys : SplitKeys) (ca : Certificate) (now : ℤ) (peer : Certificate × IpAddr)
      → verified_peer bytes keys ca now ≡ ok peer
      → Trusted peer.0 ca now × (first_addr peer.0 ≡ some peer.1)
  unfolding verified_peer
  verified_peer_lem bytes keys ca now peer h =
      let (cert, read, rest) = >>=-eq-ok (recombine bytes keys.remote_static curve25519) _ h in
      let (u, checked, rest') = >>=-eq-ok (verify_host_cert cert ca now) _ rest in
      let (addr, found, same) = >>=-eq-ok (ok_or cert_no_networks (first_addr cert)) _ rest' in
      let e = ok-injective (cert, addr) peer same in
      subst (λ q. Trusted q.0 ca now × (first_addr q.0 ≡ some q.1)) e
        ((verify_host_cert-Trusted cert ca now).0 checked, ok_or-ok _ _ _ found)

  module _ ⦃noise : Noise⦄ ⦃prost : Prost⦄ where
    pub respond_index :
        (c : Cipher) (key cert : Bytes) (index : ℕ) (body : Bytes) (random time : ℕ)
        (out : NebulaHandshakeDetails × Bytes × SplitKeys)
        → respond c key cert index body random time ≡ ok out
        → out.0.initiator_index ≢ 0
    unfolding respond
    respond_index c key cert index body random time out h =
        let (hs, built, r1) = >>=-eq-ok (noise.build_responder c key random) _ h in
        let (got, read, r2) = >>=-eq-ok (noise.read_message hs body) _ r1 in
        let (msg, decoded, r3) = >>=-eq-ok (prost.decode_handshake got.1) _ r2 in
        let (theirs, told, r4) = >>=-eq-ok (details_of msg) _ r3 in
        let (set, r5) = nonzero_of_ok out _ theirs.initiator_index _ r4 in
        let (w, wrote, r6) = >>=-eq-ok (noise.write_message got.0 _) _ r5 in
        let (keys, split, same) = >>=-eq-ok (split_keys w.0) _ r6 in
        let e = ok-injective (theirs, w.1, keys) out same in
        subst (λ q. q.0.initiator_index ≢ 0) e set

    pub finish_initiator_index :
        (hs : noise.State) (body : Bytes) (out : NebulaHandshakeDetails × SplitKeys)
        → finish_initiator hs body ≡ ok out
        → out.0.responder_index ≢ 0
    unfolding finish_initiator
    finish_initiator_index hs body out h =
        let (got, read, r1) = >>=-eq-ok (noise.read_message hs body) _ h in
        let (msg, decoded, r2) = >>=-eq-ok (prost.decode_handshake got.1) _ r1 in
        let (theirs, told, r3) = >>=-eq-ok (details_of msg) _ r2 in
        let (set, r4) = nonzero_of_ok out _ theirs.responder_index _ r3 in
        let (keys, split, same) = >>=-eq-ok (split_keys got.0) _ r4 in
        let e = ok-injective (theirs, keys) out same in subst (λ q. q.0.responder_index ≢ 0) e set

    pub accept_stage0_lem :
        (world : World) (index : ℕ) (body : Bytes) (inner : Inner noise.State) (done : Completed)
        → accept_stage0 world index body inner ≡ ok done
        → Trusted done.cert inner.ca_cert world.now
          × (first_addr done.cert ≡ some done.vpn_addr)
          × (done.details.initiator_index ≢ 0)
    unfolding accept_stage0
    accept_stage0_lem world index body inner done h =
        let (out, accepted, r1) = >>=-eq-ok (respond _ _ _ _ _ _ _) _ h in
        let (peer, checked, same) =
          >>=-eq-ok (verified_peer out.0.cert out.2 inner.ca_cert world.now) _ r1 in
        let (trusted, named) = verified_peer_lem _ _ _ _ peer checked in
        subst
          (λ d.
            Trusted d.cert inner.ca_cert world.now
            × (first_addr d.cert ≡ some d.vpn_addr)
            × (d.details.initiator_index ≢ 0))
          (ok-injective _ done same) (trusted, named, respond_index _ _ _ _ _ _ _ out accepted)

    pub accept_stage2_lem :
        (world : World) (hs : noise.State) (body : Bytes) (inner : Inner noise.State)
        (done : Completed)
        → accept_stage2 world hs body inner ≡ ok done
        → Trusted done.cert inner.ca_cert world.now
          × (first_addr done.cert ≡ some done.vpn_addr)
          × (done.details.responder_index ≢ 0)
    unfolding accept_stage2
    accept_stage2_lem world hs body inner done h =
        let (out, accepted, r1) = >>=-eq-ok (finish_initiator hs body) _ h in
        let (peer, checked, same) =
          >>=-eq-ok (verified_peer out.0.cert out.1 inner.ca_cert world.now) _ r1 in
        let (trusted, named) = verified_peer_lem _ _ _ _ peer checked in
        subst
          (λ d.
            Trusted d.cert inner.ca_cert world.now
            × (first_addr d.cert ≡ some d.vpn_addr)
            × (d.details.responder_index ≢ 0))
          (ok-injective _ done same) (trusted, named, finish_initiator_index _ _ out accepted)
