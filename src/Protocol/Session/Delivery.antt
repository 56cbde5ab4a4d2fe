-- ===== src/Protocol/Session/Delivery.antt =====
-- From `send` on one host to the inbox of another.
use nebula_rs.Prelude.{
  ℕ, zero, suc, ◌+◌, ◌%◌, ◌^◌, ◌<◌, ◌≤◌, ◌≡◌, refl, sym, ap, ◌∙◌, arith, true, Option, none, some,
  List, [], ◌∷◌, ◌++◌, length, take, drop, take-append, nat_eq, some-injective,
}
use nebula_rs.Prelude.Bytes.{Bytes, push_be}
use nebula_rs.Prelude.Map.{get}
use nebula_rs.Prelude.Result.{Result, ok, err}
use nebula_rs.Net.{IpAddr, addr_eq}
use nebula_rs.Protocol.Error.{Error}
use nebula_rs.Protocol.Header.{Header, header_len, encode_header}
use nebula_rs.Protocol.Header.RoundTrip.{IsHeader, parse_header-encode_header}
use nebula_rs.Protocol.Header.MessageType.{message}
use nebula_rs.Protocol.Window.Refinement.{Represents, is_fresh}
use nebula_rs.Protocol.Transport.{Aead, next_counter, decrypt}
use nebula_rs.Protocol.Transport.Delivery.{decrypt-encrypt, encrypt_room}
use nebula_rs.Protocol.Wire.{Prost}
use nebula_rs.Protocol.Handshake.{Noise}
use nebula_rs.Protocol.Lighthouse.{SocketAddr}
use nebula_rs.Protocol.Cert.Values.{fill}
use nebula_rs.Protocol.Cert.Certificate.Verify.{Crypto}
use nebula_rs.Protocol.Session.{
  Established, established, Inner, Effect, send_to, deliver, wire_header, packet,
}
use nebula_rs.Protocol.Session.Receive.{
  World, zeros, set_peer, open_established, open_packet, handle_message, receive,
}
use nebula_rs.Protocol.Session.Send.{sealed, send_established, send_typed, send}
use nebula_rs.Protocol.Session.Replay.{dispatch-message, receive-dispatch}

pub length-zeros : (n : ℕ) → length (zeros n) ≡ n
unfolding fill
length-zeros zero = refl
length-zeros (suc n) = omega (arith, length-zeros n)

pub wire_header-IsHeader :
    (type_ index counter : ℕ)
    → type_ < 2 ^ 4
    → index < 2 ^ 32
    → IsHeader (wire_header type_ index (counter % 2 ^ 64))
wire_header-IsHeader type_ index counter type_lt index_lt = record {
  version_lt = omega arith;
  type_lt = type_lt;
  subtype_lt = omega arith;
  remote_index_lt = index_lt;
  message_counter_lt = omega arith;
}

message_lt : message < 2 ^ 4
message_lt = omega arith

pub header_split :
    (h : Header) (body : Bytes)
    → Path
        (Bytes × Bytes)
        (take header_len (encode_header h ++ body), drop header_len (encode_header h ++ body))
        (encode_header h, body)
unfolding encode_header push_be
header_split h body = refl

module _ ⦃aead : Aead⦄ {State : Type 0} where
  sealed_ok :
      (inner : Inner State) (with_header : Bytes → Bytes) (to : SocketAddr)
      (x : Option (Bytes × Result Error ℕ)) (inner' : Inner State) (es : List Effect)
      → sealed inner with_header to x ≡ some (inner', es, ok tt)
      → (out : Bytes) × (n : ℕ) × (x ≡ some (out, ok n))
        × (es ≡ send_to (with_header (take n out)) to ∷ [])
  sealed_ok inner with_header to none inner' es h = absurd (ground (arith, h))
  sealed_ok inner with_header to (some (out, err e)) inner' es h = absurd (ground (arith, h))
  sealed_ok inner with_header to (some (out, ok n)) inner' es h =
      (out, n, refl, sym (ap (λ o. o.1) (some-injective _ _ h)))

  opened_message :
      (hdr : Header) (aad body out payload : Bytes) (inner : Inner State) (q : Established)
      → get hdr.remote_index inner.peers_by_index ≡ some (established q)
      → (decrypt hdr.message_counter aad body (zeros (length body)) q.transport).1
        ≡ some (payload ++ out, ok (length payload))
      → (inner' : Inner State) × (handle_message hdr aad body inner
          ≡ some (inner', deliver q.vpn_addr payload ∷ []))
  unfolding handle_message open_packet open_established
  opened_message hdr aad body out payload inner q found h =
      let done = decrypt hdr.message_counter aad body (zeros (length body)) q.transport in
      (
        set_peer hdr.remote_index (established (record q { transport = done.0 })) inner,
        rw (found, h, take-append payload out) refl,
      )

module _ ⦃crypto : Crypto⦄ ⦃aead : Aead⦄ ⦃noise : Noise⦄ ⦃prost : Prost⦄ where
  -- How two hosts stand to each other after a handshake: `p` is the peer that the sender has, `q` the
  -- one that the receiver has at the index it gave the sender.
  pub record Paired (sender receiver : Inner noise.State) (a : IpAddr) (p q : Established)
      : Type 0 where
    pub index : ℕ
    pub known : get a sender.index_by_vpn_addr ≡ some index
    pub theirs : get index sender.peers_by_index ≡ some (established p)
    pub ours : get p.remote_index receiver.peers_by_index ≡ some (established q)
    pub keys : q.transport.recv_cipher ≡ p.transport.send_cipher
    pub index_lt : p.remote_index < 2 ^ 32
    pub seen : List ℕ
    pub window : Represents q.transport.replay seen
    pub fresh : is_fresh ((p.transport.send_counter + 1) % 2 ^ 64) seen ≡ true

  -- If sender and receiver are paired, so that each has a peer for the other, with one key for the
  -- direction, and the sender's next counter is fresh for the receiver, then a send that succeeds
  -- sends one packet to the peer's address, and receiving it, from whatever address, delivers the
  -- payload, once and unchanged, as from the address that the receiver has for the sender.
  pub receive-send :
      (sender sender' receiver : Inner noise.State) (a : IpAddr) (p q : Established)
      (payload : Bytes) (es : List Effect)
      → Paired sender receiver a p q
      → send a payload sender ≡ some (sender', es, ok tt)
      → (wire : Bytes) × (es ≡ send_to wire p.remote ∷ [])
        × ((world : World) (from : SocketAddr)
            → (receiver' : Inner noise.State) × (receive world wire from receiver
                ≡ some (receiver', deliver q.vpn_addr payload ∷ [])))
  unfolding send send_typed send_established packet next_counter
  receive-send sender sender' receiver a p q payload es pair h =
      let counter = (p.transport.send_counter + 1) % 2 ^ 64 in
      let hdr = wire_header message p.remote_index counter in
      let sent = next_counter p.transport in
      let buffer = zeros (length payload + 32) in
      let (out, n, encrypted, only) =
        sealed_ok _ (packet message p.remote_index counter) p.remote _ sender' es
          (rw (pair.known, pair.theirs) at h) in
      let body = take n out in
      let room : length payload ≤ length (zeros (length body)) = omega (
        arith,
        length-zeros (length body),
        encrypt_room counter (encode_header hdr) payload buffer out n sent.0 encrypted,
      ) in
      let opened =
        decrypt-encrypt counter (encode_header hdr) payload buffer out (zeros (length body)) n
          sent.0 q.transport pair.seen pair.window pair.fresh pair.keys room encrypted in
      let parsed = parse_header-encode_header hdr body (
        wire_header-IsHeader message p.remote_index (p.transport.send_counter + 1) message_lt
          pair.index_lt) in
      (
        packet message p.remote_index counter body,
        only,
        λ world from.
            let (receiver', got) =
              opened_message hdr (encode_header hdr) body _ payload receiver q pair.ours opened in
            (
              receiver',
              receive-dispatch world _ hdr from receiver parsed
                  ∙ dispatch-message world hdr _ _ from receiver refl
                  ∙ ap (λ t. handle_message hdr t.0 t.1 receiver) (header_split hdr body)
                  ∙ got,
            ),
      )
