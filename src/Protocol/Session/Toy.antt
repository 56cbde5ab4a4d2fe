-- ===== src/Protocol/Session/Toy.antt =====
-- A Noise handshake and an encoding that meet what is asked of the crates snow and prost: keys and payloads go
-- in the clear. The examples run on them.
use nebula_rs.Prelude.{
  ◌≡◌, refl, ap, subst, ◌∙◌, Bool, true, false, Option, none, some, [], ◌∷◌, ◌++◌, length, take,
  drop, take-append, drop-append, if◌then◌else◌,
}
use nebula_rs.Prelude.Bytes.{Bytes}
use nebula_rs.Prelude.Map.{unwrap_or}
use nebula_rs.Prelude.Result.{Result, ok, err, ok-injective}
use nebula_rs.Protocol.Error.{Error, noise, protobuf_decode}
use nebula_rs.Protocol.Wire.{NebulaHandshake, NebulaHandshakeDetails, Prost}
use nebula_rs.Protocol.Handshake.{Noise}

pub record ToyState : Type 0 where
  pub initiator : Bool
  pub key : Bytes
  pub remote : Option Bytes

abbrev write : ToyState → Bytes → ToyState × Bytes
write s p = (s, length s.key ∷ (s.key ++ p))

abbrev read : ToyState → Bytes → Result Error (ToyState × Bytes)
read s [] = err noise
read s (n ∷ rest) = ok (record s { remote = some (take n rest) }, drop n rest)

abbrev split : ToyState → Bytes × Bytes
split s = if s.initiator then (s.key, unwrap_or s.remote []) else (unwrap_or s.remote [], s.key)

read-write :
    (r s : ToyState) (p : Bytes) → read r (write s p).1 ≡ ok (record r { remote = some s.key }, p)
read-write r s p =
    ap (λ k. ok (record r { remote = some k }, drop (length s.key) (s.key ++ p)))
      (take-append s.key p)
    ∙ ap (λ q. ok (record r { remote = some s.key }, q)) (drop-append s.key p)

abbrev begin : Bool → Bytes → ToyState
begin role key = record { initiator = role; key = key; remote = none }

-- What the law asks once the responder has written, and once the initiator has.
abbrev Ends : Bytes → Bytes → ToyState → Bytes → ToyState × Bytes → Type 0
Ends key key' i q written =
    (i2 : ToyState) × (read i written.1 ≡ ok (i2, q))
    × (written.0.remote ≡ some key)
    × (i2.remote ≡ some key')
    × (split i2 ≡ split written.0)
    × (i2.initiator ≡ true)
    × (written.0.initiator ≡ false)

abbrev Goes : Bytes → Bytes → ToyState → Bytes → ToyState × Bytes → Type 0
Goes key key' r p written =
    (r1 : ToyState) × (read r written.1 ≡ ok (r1, p))
    × ((q reply : Bytes) (r2 : ToyState)
        → Path (Result Error (ToyState × Bytes)) (ok (write r1 q)) (ok (r2, reply))
        → Ends key key' written.0 q (r2, reply))

runs : (key key' p : Bytes) → Goes key key' (begin false key') p (write (begin true key) p)
runs key key' p = (
  record { initiator = false; key = key'; remote = some key },
  read-write (begin false key') (begin true key) p,
  λ q reply r2 h. subst (Ends key key' (begin true key) q) (ok-injective _ _ h) (
    record { initiator = true; key = key; remote = some key' },
    read-write (begin true key) (record { initiator = false; key = key'; remote = some key }) q,
    refl,
    refl,
    refl,
    refl,
    refl,
  ),
)

pub toy_ix :
    (key key' : Bytes) (i i1 r : ToyState) (p msg : Bytes)
    → Path (Result Error ToyState) (ok (begin true key)) (ok i)
    → Path (Result Error ToyState) (ok (begin false key')) (ok r)
    → Path (Result Error (ToyState × Bytes)) (ok (write i p)) (ok (i1, msg))
    → Goes key key' r p (i1, msg)
toy_ix key key' i i1 r p msg hi hr hw = subst (Goes key key' r p) (ok-injective _ _ hw) (
    subst (λ s. Goes key key' r p (write s p)) (ok-injective _ _ hi)
      (subst (λ s. Goes key key' s p (write (begin true key) p)) (ok-injective _ _ hr)
        (runs key key' p)))

instance abbrev pub toy_noise : Noise
toy_noise = record {
  State = ToyState;
  build_initiator = λ c key random. ok (begin true key);
  build_responder = λ c key random. ok (begin false key);
  write_message = λ s p. ok (write s p);
  read_message = read;
  get_remote_static = λ s. s.remote;
  raw_split = split;
  is_initiator = λ s. s.initiator;
  public_key = λ key. key;
  ix = λ c key key' random random' i i1 r p msg hi hr hw. toy_ix key key' i i1 r p msg hi hr hw;
}

abbrev encode_toy : NebulaHandshake → Bytes
encode_toy h = elim h.details [
  | none ↦ []
  | some d ↦
      d.initiator_index
      ∷ d.responder_index
      ∷ d.cookie
      ∷ d.time
      ∷ d.cert_version
      ∷ length d.cert
      ∷ (d.cert ++ h.hmac)
]

abbrev decode_toy : Bytes → Result Error NebulaHandshake
decode_toy (i ∷ r ∷ c ∷ t ∷ v ∷ n ∷ rest) = ok (record {
  details = some (record {
    cert = take n rest;
    initiator_index = i;
    responder_index = r;
    cookie = c;
    time = t;
    cert_version = v;
  });
  hmac = drop n rest;
})
decode_toy _ = err protobuf_decode

pub decode-encode_toy :
    (d : NebulaHandshakeDetails) (hmac : Bytes)
    → decode_toy (encode_toy (record { details = some d; hmac = hmac }))
      ≡ ok (record { details = some d; hmac = hmac })
decode-encode_toy d hmac =
    ap
      (λ c. ok (record {
        details = some (record d { cert = c });
        hmac = drop (length d.cert) (d.cert ++ hmac);
      }))
      (take-append d.cert hmac)
    ∙ ap (λ h. ok (record { details = some d; hmac = h })) (drop-append d.cert hmac)

instance abbrev pub toy_prost : Prost
toy_prost = record {
  encode_meta = λ m. [];
  decode_meta = λ b. err protobuf_decode;
  encode_handshake = encode_toy;
  decode_handshake = decode_toy;
  decode_encode_handshake = λ d hmac fits. decode-encode_toy d hmac;
}
