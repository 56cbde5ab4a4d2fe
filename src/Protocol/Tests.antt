-- ===== src/Protocol/Tests.antt =====
-- Runs of the header, the window and the transport, and their theorems at concrete inputs.
use nebula_rs.Prelude.{
  ◌+◌, ◌<◌, ◌≤◌, ◌^◌, ◌≡◌, refl, inl, inr, Bool-cases, some-injective, true, Option, none, some, [],
  ◌∷◌, ◌++◌, arith, length, take, nat_eq, ◌==◌, if◌then◌else◌, slice,
}
use nebula_rs.Prelude.Bytes.{Bytes, IsBytes, push_be, read_be, from_be_bytes}
use nebula_rs.Prelude.Result.{ok, err}
use nebula_rs.Protocol.Error.{replayed_packet}
use nebula_rs.Protocol.Header.{Header, encode_header, parse_header}
use nebula_rs.Protocol.Header.RoundTrip.{parse_header-encode_header, encode_header-parse_header}
use nebula_rs.Protocol.Window.{
  replay_window_new, zero_words, update_word, mark, is_marked, shift_words, shift_left,
  check_and_update,
}
use nebula_rs.Protocol.Window.Refinement.{
  Represents, is_fresh, replay_window_new-Represents, check_and_update-Represents, run_window,
  Sound, run_window-Sound,
}
use nebula_rs.Protocol.Transport.{
  Aead, aes_gcm, nonce, copy_to, Transport, transport_new, next_counter, cipher_encrypt,
  cipher_decrypt, written, encrypt, decrypt,
}
use nebula_rs.Protocol.Transport.Nonces.{next_nonces, Distinct, next_nonces-Distinct}
use nebula_rs.Protocol.Transport.Delivery.{decrypt_used, decrypt-encrypt}

running : Unit {0}
unfolding push_be read_be encode_header parse_header replay_window_new zero_words update_word mark
    is_marked shift_words shift_left check_and_update is_fresh nonce copy_to transport_new
    next_counter cipher_encrypt cipher_decrypt written encrypt decrypt
running = tt

abbrev data_header : Header
data_header = record {
  version = 1;
  type_ = 1;
  subtype = 0;
  remote_index = 0xdeadbeef;
  message_counter = 0x0102030405060708;
}

abbrev wire : Bytes
wire = 0x11 ∷ 0 ∷ 0 ∷ 0 ∷ 0xde ∷ 0xad ∷ 0xbe ∷ 0xef ∷ 1 ∷ 2 ∷ 3 ∷ 4 ∷ 5 ∷ 6 ∷ 7 ∷ 8 ∷ []

encodes : encode_header data_header ≡ wire
unfolding running
encodes = refl

parses : parse_header wire ≡ ok data_header
unfolding running
parses = refl

parse_header-encode_header_example :
    parse_header (encode_header data_header ++ (7 ∷ 7 ∷ [])) ≡ ok data_header
parse_header-encode_header_example = parse_header-encode_header data_header (7 ∷ 7 ∷ []) (record {
  version_lt = omega arith;
  type_lt = omega arith;
  subtype_lt = omega arith;
  remote_index_lt = omega arith;
  message_counter_lt = omega arith;
})

wire-IsBytes : IsBytes wire
wire-IsBytes = ground arith

reserved_is_zero : from_be_bytes (slice 2 4 wire) ≡ 0
unfolding running
reserved_is_zero = refl

encode_header-parse_header_example : encode_header data_header ≡ wire
encode_header-parse_header_example =
    encode_header-parse_header wire data_header wire-IsBytes refl reserved_is_zero parses

-- Out of order, twice, and too old.
accepts : (run_window (5 ∷ 3 ∷ 5 ∷ 40 ∷ 3 ∷ 4 ∷ []) (replay_window_new, [])).1 ≡ 4 ∷ 40 ∷ 3 ∷ 5 ∷ []
unfolding running run_window
accepts = refl

run_window-Sound_example : Sound (run_window (5 ∷ 3 ∷ 5 ∷ 2000 ∷ 3 ∷ []) (replay_window_new, []))
run_window-Sound_example = run_window-Sound (5 ∷ 3 ∷ 5 ∷ 2000 ∷ 3 ∷ [])

check_and_update-Represents_example :
    ((check_and_update 7 replay_window_new).1 ≡ is_fresh 7 [])
    × Represents (check_and_update 7 replay_window_new).0 (if is_fresh 7 [] then 7 ∷ [] else [])
check_and_update-Represents_example =
    check_and_update-Represents 7 replay_window_new [] replay_window_new-Represents

-- An AEAD that only tags: the tag is the length of the key.
abbrev pub untag : Bytes → Bytes → Option Bytes
untag key [] = none
untag key (x ∷ msg) = if x == length key then some msg else none

pub untag_tagged :
    (key msg ciphertext : Bytes)
    → some (length key ∷ msg) ≡ some ciphertext
    → untag key ciphertext ≡ some msg
untag_tagged key msg [] h = absurd (ground (arith, h))
untag_tagged key msg (x ∷ ciphertext) h = ground (arith, h)

pub tag_length :
    (key msg ciphertext : Bytes)
    → some (length key ∷ msg) ≡ some ciphertext
    → length ciphertext ≤ length msg + 16
tag_length key msg ciphertext h =
    let same = some-injective (length key ∷ msg) ciphertext h in rw (← same) (omega arith)

pub untag-length :
    (key ciphertext msg : Bytes) → untag key ciphertext ≡ some msg → length msg ≤ length ciphertext
untag-length key [] msg h = absurd (ground (arith, h))
untag-length key (x ∷ ciphertext) msg h = elim (Bool-cases (x == length key)) [
  | inl tagged ↦
      let same = some-injective ciphertext msg (rw tagged at h) in rw (← same) (omega arith)
  | inr forged ↦ absurd (ground (arith, rw forged at h))
]

instance abbrev pub tagging : Aead
tagging = record {
  aead_encrypt = λ c key nonce aad msg. some (length key ∷ msg);
  aead_decrypt = λ c key nonce aad ciphertext. untag key ciphertext;
  decrypt_encrypt = λ c key nonce aad msg ciphertext h. untag_tagged key msg ciphertext h;
  encrypt_length = λ c key nonce aad msg ciphertext h. tag_length key msg ciphertext h;
  decrypt_length = λ c key nonce aad ciphertext msg h. untag-length key ciphertext msg h;
}

abbrev alice : Transport
alice = transport_new aes_gcm (1 ∷ []) (2 ∷ 2 ∷ [])

abbrev bob : Transport
bob = transport_new aes_gcm (2 ∷ 2 ∷ []) (1 ∷ [])

bob-Represents : Represents bob.replay []
unfolding transport_new
bob-Represents = replay_window_new-Represents

three_is_fresh : is_fresh 3 [] ≡ true
unfolding running
three_is_fresh = refl

alice_sends : encrypt 3 [] (9 ∷ []) (0 ∷ 0 ∷ []) alice ≡ some (1 ∷ 9 ∷ [], ok 2)
unfolding running
alice_sends = refl

keys_agree : bob.recv_cipher ≡ alice.send_cipher
unfolding transport_new
keys_agree = refl

decrypt-encrypt_example : (decrypt 3 [] (take 2 (1 ∷ 9 ∷ [])) (0 ∷ []) bob).1 ≡ some (9 ∷ [], ok 1)
decrypt-encrypt_example =
    decrypt-encrypt 3 [] (9 ∷ []) (0 ∷ 0 ∷ []) (1 ∷ 9 ∷ []) (0 ∷ []) 2 alice bob [] bob-Represents
      three_is_fresh keys_agree (omega arith) alice_sends

-- A forged packet with the counter 3 keeps the true one out.
decrypt_used_example :
    (decrypt 3 [] (1 ∷ 9 ∷ []) (0 ∷ []) (decrypt 3 [] (8 ∷ 8 ∷ []) (0 ∷ 0 ∷ []) bob).0).1
    ≡ some (0 ∷ [], err replayed_packet)
decrypt_used_example =
    decrypt_used 3 3 [] (8 ∷ 8 ∷ []) (0 ∷ 0 ∷ []) [] (1 ∷ 9 ∷ []) (0 ∷ []) bob [] bob-Represents
      (inl refl)

alice_room : alice.send_counter + 5 < 2 ^ 64
unfolding transport_new
alice_room = omega arith

next_nonces-Distinct_example : Distinct (next_nonces 5 alice)
next_nonces-Distinct_example = next_nonces-Distinct 5 alice alice_room
