-- ===== src/Protocol/Handshake.antt =====
-- nebula-protocol/src/handshake.rs: the Noise IX handshake, over the crates snow and prost. `State` is
-- snow's `HandshakeState`.
pub mod Mirror
use nebula_rs.Prelude.{
  ℕ, ◌≡◌, Bool, true, false, Option, none, some, List, [], nat_eq, ◌==◌, if◌then◌else◌,
}
use nebula_rs.Prelude.Bytes.{Bytes}
use nebula_rs.Prelude.Result.{Result, ok, err, ok_or, ◌>>=◌}
use nebula_rs.Protocol.Error.{Error, handshake_failed, handshake_invalid_remote_index}
use nebula_rs.Protocol.Transport.{Cipher}
use nebula_rs.Protocol.Wire.{NebulaHandshake, NebulaHandshakeDetails, Prost}

-- snow's handshake. A builder is given the cipher, the private key and, here, the random numbers that
-- snow draws; `write_message` and `read_message` have the buffers of 65535 bytes that the code gives them.
-- `ix`: of two parties that use one cipher, whatever the first writes the second reads, and the other way
-- round; then each has the other's public key, and both have the same pair of keys.
pub record Noise : Type 1 where
  pub State : Type 0
  pub build_initiator : Cipher → Bytes → ℕ → Result Error State
  pub build_responder : Cipher → Bytes → ℕ → Result Error State
  pub write_message : State → Bytes → Result Error (State × Bytes)
  pub read_message : State → Bytes → Result Error (State × Bytes)
  pub get_remote_static : State → Option Bytes
  pub raw_split : State → Bytes × Bytes
  pub is_initiator : State → Bool
  pub public_key : Bytes → Bytes
  pub ix :
      (c : Cipher) (key key' : Bytes) (random random' : ℕ) (i i1 r : State) (p msg : Bytes)
      → build_initiator c key random ≡ ok i
      → build_responder c key' random' ≡ ok r
      → write_message i p ≡ ok (i1, msg)
      → (r1 : State) × (read_message r msg ≡ ok (r1, p))
        × ((q reply : Bytes) (r2 : State)
            → write_message r1 q ≡ ok (r2, reply)
            → (i2 : State) × (read_message i1 reply ≡ ok (i2, q))
              × (get_remote_static r2 ≡ some (public_key key))
              × (get_remote_static i2 ≡ some (public_key key'))
              × (raw_split i2 ≡ raw_split r2)
              × (is_initiator i2 ≡ true)
              × (is_initiator r2 ≡ false))

pub record SplitKeys : Type 0 where
  pub remote_static : Bytes
  pub send_key : Bytes
  pub recv_key : Bytes

-- `details.ok_or_else(..)?`
abbrev pub details_of : NebulaHandshake → Result Error NebulaHandshakeDetails
details_of h = ok_or handshake_failed h.details

-- The message with the certificate and the two indices.
abbrev pub message_details : Bytes → ℕ → ℕ → ℕ → NebulaHandshakeDetails
message_details cert initiator_index responder_index time = record {
  cert = cert;
  initiator_index = initiator_index;
  responder_index = responder_index;
  cookie = 0;
  time = time;
  cert_version = 2;
}

abbrev pub handshake_message : NebulaHandshakeDetails → NebulaHandshake
handshake_message details = record { details = some details; hmac = [] }

module _ ⦃noise : Noise⦄ where
  unfoldable pub split_keys : noise.State → Result Error SplitKeys
  split_keys hs = ok_or handshake_failed (noise.get_remote_static hs) >>= λ remote_static.
      ok (record {
        remote_static = remote_static;
        send_key = if noise.is_initiator hs then (noise.raw_split hs).0 else (noise.raw_split hs).1;
        recv_key = if noise.is_initiator hs then (noise.raw_split hs).1 else (noise.raw_split hs).0;
      })

  module _ ⦃prost : Prost⦄ where
    -- `random` is what snow draws, `time` what `unix_nanos_now` reads.
    unfoldable pub stage0 : Cipher → Bytes → Bytes → ℕ → ℕ → ℕ → Result Error (noise.State × Bytes)
    stage0 cipher local_private_key cert_bytes initiator_index random time =
        noise.build_initiator cipher local_private_key random >>= λ hs. noise.write_message hs (
          prost.encode_handshake
            (handshake_message (message_details cert_bytes initiator_index 0 time)))

    unfoldable pub respond :
        Cipher
        → Bytes
        → Bytes
        → ℕ
        → Bytes
        → ℕ
        → ℕ
        → Result Error (NebulaHandshakeDetails × Bytes × SplitKeys)
    respond cipher local_private_key cert_bytes responder_index payload random time =
        noise.build_responder cipher local_private_key random >>= λ hs.
        noise.read_message hs payload >>= λ stage0_read.
        prost.decode_handshake stage0_read.1 >>= λ stage0_msg. details_of stage0_msg >>= λ theirs.
        if theirs.initiator_index == 0
        then err handshake_invalid_remote_index
        else noise.write_message stage0_read.0 (
            prost.encode_handshake (
              handshake_message
                (message_details cert_bytes theirs.initiator_index responder_index time)))
          >>= λ written. split_keys written.0 >>= λ keys. ok (theirs, written.1, keys)

    unfoldable pub finish_initiator :
        noise.State → Bytes → Result Error (NebulaHandshakeDetails × SplitKeys)
    finish_initiator hs payload = noise.read_message hs payload >>= λ read.
        prost.decode_handshake read.1 >>= λ handshake. details_of handshake >>= λ details.
        if details.responder_index == 0
        then err handshake_invalid_remote_index
        else split_keys read.0 >>= λ keys. ok (details, keys)
