-- ===== src/Protocol/Handshake/Mirror.antt =====
-- Two parties that complete a handshake.
use nebula_rs.Prelude.{
  ℕ, ◌^◌, ◌<◌, ◌≡◌, ◌≢◌, refl, sym, ap, ◌∙◌, arith, true, false, some, [], nat_eq, ◌==◌,
}
use nebula_rs.Prelude.Bytes.{Bytes}
use nebula_rs.Prelude.Result.{ok, >>=-eq-ok, ok-injective}
use nebula_rs.Protocol.Transport.{Cipher}
use nebula_rs.Protocol.Wire.{NebulaHandshakeDetails, Prost}
use nebula_rs.Protocol.Handshake.{
  Noise, SplitKeys, message_details, handshake_message, split_keys, stage0, respond,
  finish_initiator,
}

abbrev pub IsIndex : ℕ → Type 0
IsIndex i = (i ≢ 0) × (i < 2 ^ 32)

pub nonzero : (i : ℕ) → i ≢ 0 → i == 0 ≡ false
nonzero i ne = ground (arith, ne)

module _ ⦃prost : Prost⦄ where
  -- A message is read back with its certificate and its indices.
  pub read_back :
      (cert : Bytes) (i r time : ℕ)
      → i < 2 ^ 32
      → r < 2 ^ 32
      → time < 2 ^ 64
      → prost.decode_handshake
          (prost.encode_handshake (handshake_message (message_details cert i r time)))
        ≡ ok (handshake_message (message_details cert i r time))
  read_back cert i r time lt lt' lt'' =
      prost.decode_encode_handshake (message_details cert i r time) [] (record {
        initiator_lt = lt;
        responder_lt = lt';
        cookie_lt = omega arith;
        time_lt = lt'';
        cert_version_lt = omega arith;
      })

module _ ⦃noise : Noise⦄ ⦃prost : Prost⦄ where
  pub split_initiator :
      (hs : noise.State) (remote : Bytes)
      → noise.get_remote_static hs ≡ some remote
      → noise.is_initiator hs ≡ true
      → split_keys hs
        ≡ ok (record {
          remote_static = remote;
          send_key = (noise.raw_split hs).0;
          recv_key = (noise.raw_split hs).1;
        })
  unfolding split_keys
  split_initiator hs remote e role = rw (e, role) refl

  pub split_responder :
      (hs : noise.State) (remote : Bytes)
      → noise.get_remote_static hs ≡ some remote
      → noise.is_initiator hs ≡ false
      → split_keys hs
        ≡ ok (record {
          remote_static = remote;
          send_key = (noise.raw_split hs).1;
          recv_key = (noise.raw_split hs).0;
        })
  unfolding split_keys
  split_responder hs remote e role = rw (e, role) refl

  -- What two parties know of each other after a handshake.
  pub record Agreed (key key' : Bytes) (sent got : NebulaHandshakeDetails) (keys keys' : SplitKeys)
      : Type 0 where
    pub told : sent ≡ got
    pub initiator_static : keys'.remote_static ≡ noise.public_key key
    pub responder_static : keys.remote_static ≡ noise.public_key key'
    pub forth : keys.send_key ≡ keys'.recv_key
    pub back : keys.recv_key ≡ keys'.send_key

  -- The responder's side: what it has written, and with which keys it ends.
  answered :
      (c : Cipher) (key' cert' : Bytes) (i r random' time time' : ℕ) (cert msg : Bytes)
      (s' s1 : noise.State) (out : NebulaHandshakeDetails × Bytes × SplitKeys)
      → IsIndex i
      → time < 2 ^ 64
      → noise.build_responder c key' random' ≡ ok s'
      → noise.read_message s' msg
        ≡ ok (s1, prost.encode_handshake (handshake_message (message_details cert i 0 time)))
      → respond c key' cert' r msg random' time' ≡ ok out
      → (w : noise.State) × (noise.write_message s1
            (prost.encode_handshake (handshake_message (message_details cert' i r time')))
          ≡ ok (w, out.1))
        × (out.0 ≡ message_details cert i 0 time)
        × (split_keys w ≡ ok out.2)
  unfolding respond
  answered c key' cert' i r random' time time' cert msg s' s1 out (set, lt) time_lt built read h =
      let (w, wrote, rest) =
        >>=-eq-ok _ _ (
          rw (built, read, read_back cert i 0 time lt (omega arith) time_lt, nonzero i set) at h) in
      let (keys, split, same) = >>=-eq-ok _ _ rest in
      let e = ok-injective _ _ same in
      (w.0, wrote ∙ ap (λ x. ok (w.0, x.1)) e, sym (ap (λ x. x.0) e), split ∙ ap (λ x. ok x.2) e)

  finished :
      (hs i2 : noise.State) (reply cert' remote : Bytes) (i r time' : ℕ)
      → IsIndex i
      → IsIndex r
      → time' < 2 ^ 64
      → noise.read_message hs reply
        ≡ ok (i2, prost.encode_handshake (handshake_message (message_details cert' i r time')))
      → noise.get_remote_static i2 ≡ some remote
      → noise.is_initiator i2 ≡ true
      → finish_initiator hs reply
        ≡ ok (
          message_details cert' i r time',
          record {
            remote_static = remote;
            send_key = (noise.raw_split i2).0;
            recv_key = (noise.raw_split i2).1;
          },
        )
  unfolding finish_initiator
  finished hs i2 reply cert' remote i r time' (i_set, i_lt) (r_set, r_lt) lt read known role =
      rw
        (
          read,
          read_back cert' i r time' i_lt r_lt lt,
          nonzero r r_set,
          split_initiator i2 remote known role,
        )
        refl

  -- If stage0 makes a message and respond a reply to it, for nonzero 32-bit indices and 64-bit
  -- times, then finish_initiator accepts the reply; each side has the certificate and the indices
  -- that the other has sent and the public key of the other's private key, and the sending key of
  -- either is the receiving key of the other.
  pub finish_initiator-respond :
      (c : Cipher) (key key' cert cert' : Bytes) (i r random random' time time' : ℕ)
      (hs : noise.State) (msg : Bytes) (out : NebulaHandshakeDetails × Bytes × SplitKeys)
      → IsIndex i
      → IsIndex r
      → time < 2 ^ 64
      → time' < 2 ^ 64
      → stage0 c key cert i random time ≡ ok (hs, msg)
      → respond c key' cert' r msg random' time' ≡ ok out
      → (keys : SplitKeys) × (finish_initiator hs out.1
          ≡ ok (message_details cert' i r time', keys))
        × Agreed key key' (message_details cert i 0 time) out.0 keys out.2
  unfolding stage0 respond
  finish_initiator-respond c key key' cert cert' i r random random' time time' hs msg out i_ok r_ok
        lt lt' h h' =
      let (s, built, wrote) = >>=-eq-ok _ _ h in
      let (s', built', _) = >>=-eq-ok _ _ h' in
      let (s1, read, run) = noise.ix c key key' random random' s hs s' _ msg built built' wrote in
      let (w, replied, told, split) =
        answered c key' cert' i r random' time time' cert msg s' s1 out i_ok lt built' read h' in
      let (i2, read', known', known, same, role, role') = run _ out.1 w replied in
      let keys' =
        ok-injective _ _ (sym (split_responder w (noise.public_key key) known' role') ∙ split) in
      (
        record {
          remote_static = noise.public_key key';
          send_key = (noise.raw_split i2).0;
          recv_key = (noise.raw_split i2).1;
        },
        finished hs i2 out.1 cert' (noise.public_key key') i r time' i_ok r_ok lt' read' known role,
        record {
          told = sym told;
          initiator_static = sym (ap (λ k. k.remote_static) keys');
          responder_static = refl;
          forth = ap (λ k. k.0) same ∙ ap (λ k. k.recv_key) keys';
          back = ap (λ k. k.1) same ∙ ap (λ k. k.send_key) keys';
        },
      )
