-- ===== src/Protocol/Session/Inbox.antt =====
-- Where the payloads in the inbox of a session come from.
pub mod OtherPackets
use nebula_rs.Prelude.{
  ℕ, ◌≡◌, refl, sym, ap, subst, ◌∙◌, arith, Bool, true, false, Option, none, some, List, [], ◌∷◌,
  length, take, drop, nat_eq, ◌==◌, ==_iff, ◌⊎◌, inl, inr, Bool-cases, some-injective,
  if◌then◌else◌,
}
use nebula_rs.Prelude.Bytes.{Bytes}
use nebula_rs.Prelude.Map.{get, insert}
use nebula_rs.Prelude.Result.{Result, ok, err}
use nebula_rs.Net.{IpAddr, addr_eq}
use nebula_rs.Protocol.Error.{Error, replayed_packet}
use nebula_rs.Protocol.Header.{Header, header_len, parse_header}
use nebula_rs.Protocol.Header.MessageType.{handshake, message, lighthouse}
use nebula_rs.Protocol.Window.Refinement.{Represents, is_fresh}
use nebula_rs.Protocol.Transport.{Aead, Transport, written, cipher_decrypt, decrypt}
use nebula_rs.Protocol.Transport.Delivery.{decrypt_lem, written_ok}
use nebula_rs.Protocol.Wire.{NebulaMeta, Prost}
use nebula_rs.Protocol.Handshake.{Noise}
use nebula_rs.Protocol.Lighthouse.{
  SocketAddr, candidate_addrs, vpn_addr_of, host_query_reply, host_update,
}
use nebula_rs.Protocol.Cert.Certificate.{Certificate}
use nebula_rs.Protocol.Cert.Certificate.Verify.{Crypto}
use nebula_rs.Protocol.Session.{
  Established, PeerState, handshaking, established, Inner, Effect, send_to, deliver, wake, answer,
  cancel,
}
use nebula_rs.Protocol.Session.Receive.{
  World, Completed, zeros, Opened, opened_with, open_established, open_from, open_packet, delivered,
  informed, handle_message, notify, learn, handle_meta, handle_lighthouse, handle_lighthouse_packet,
  signal, signal_connected, finish_stage0, finish_stage2, handle_stage0, handle_stage2, stage0_with,
  stage2_from, handle_handshake, dispatch, receive_parsed, receive,
}
use nebula_rs.Protocol.Session.Change.{Verified}
use nebula_rs.Protocol.Session.Steps.{Reach}
use nebula_rs.Protocol.Session.Invariant.{Reach-TablesInv}
use nebula_rs.Protocol.Session.Inbox.OtherPackets.{
  Has, Quiet, QuietOut, nil-Quiet, handle_lighthouse_packet-Quiet, handle_handshake-Quiet,
}
use nebula_rs.Protocol.Session.Replay.{dispatch-message, receive-dispatch}

abbrev addr_or : IpAddr → Effect → IpAddr
addr_or d (send_to packet to) = d
addr_or d (deliver a b) = a
addr_or d (wake channel) = d
addr_or d (answer channel addrs) = d
addr_or d (cancel channel) = d

abbrev payload_or : Bytes → Effect → Bytes
payload_or d (send_to packet to) = d
payload_or d (deliver a b) = b
payload_or d (wake channel) = d
payload_or d (answer channel addrs) = d
payload_or d (cancel channel) = d

module _ {State : Type 0} where
  delivered_from :
      (x : Opened State) (out : Inner State × List Effect) (a : IpAddr) (b : Bytes)
      → delivered x ≡ some out
      → Has (deliver a b) out.1
      → (inner : Inner State) × (p : Established) × (x ≡ some (inner, some (p, b)))
        × (p.vpn_addr ≡ a)
  delivered_from none out a b h has = absurd (ground (arith, h))
  delivered_from (some (inner, none)) out a b h has =
      absurd (subst (λ o. Has (deliver a b) o.1) (sym (some-injective _ out h)) has)
  delivered_from (some (inner, some (p, c))) out a b h has =
      elim (subst (λ o. Has (deliver a b) o.1) (sym (some-injective _ out h)) has) [
        | inl e ↦ (
          inner,
          p,
          ap (λ d. some (inner, some (p, d))) (ap (payload_or c) e),
          ap (addr_or p.vpn_addr) e,
        )
        | inr nothing ↦ absurd nothing
      ]

  opened_with_success :
      (s inner : Inner State) (q p : Established) (b : Bytes) (x : Option (Bytes × Result Error ℕ))
      → opened_with s q x ≡ some (inner, some (p, b))
      → (out : Bytes) × (n : ℕ) × (x ≡ some (out, ok n)) × (take n out ≡ b) × (q ≡ p)
  opened_with_success s inner q p b none h = absurd (ground (arith, h))
  opened_with_success s inner q p b (some (out, err e)) h = absurd (ground (arith, h))
  opened_with_success s inner q p b (some (out, ok n)) h =
      let e = some-injective (q, take n out) (p, b) (ap (λ o. o.1) (some-injective _ _ h)) in
      (out, n, refl, ap (λ o. o.1) e, ap (λ o. o.0) e)

module _ ⦃crypto : Crypto⦄ ⦃aead : Aead⦄ ⦃noise : Noise⦄ ⦃prost : Prost⦄ where
  -- A payload that a peer with a verified certificate has sealed, with a counter not seen before, and
  -- the header with it.
  pub record Authentic (inner : Inner noise.State) (ca : Certificate) (datagram : Bytes)
      (a : IpAddr) (payload : Bytes) : Type 0 where
    pub header : Header
    pub parsed : parse_header datagram ≡ ok header
    pub is_message : header.type_ ≡ message
    pub peer : Established
    pub found : get header.remote_index inner.peers_by_index ≡ some (established peer)
    pub verified : Verified ca peer
    pub address : peer.vpn_addr ≡ a
    pub unsealed :
        cipher_decrypt peer.transport.recv_cipher header.message_counter
          (take header_len datagram)
          (drop header_len datagram)
        ≡ ok payload
    pub fresh :
        (seen : List ℕ) × Represents peer.transport.replay seen
        × (is_fresh header.message_counter seen ≡ true)

  opened_fresh :
      (c : ℕ) (aad body buffer out : Bytes) (n : ℕ) (p : Established) (seen : List ℕ)
      → Represents p.transport.replay seen
      → (decrypt c aad body buffer p.transport).1 ≡ some (out, ok n)
      → (cipher_decrypt p.transport.recv_cipher c aad body ≡ ok (take n out))
        × (is_fresh c seen ≡ true)
  opened_fresh c aad body buffer out n p seen r h =
      let e = sym (decrypt_lem c aad body buffer p.transport seen r).0 ∙ h in
      elim (Bool-cases (is_fresh c seen)) [
        | inl fresh ↦
            let (b, opened, same) = written_ok buffer out n _ (rw fresh at e) in
            (opened ∙ ap ok (sym same), fresh)
        | inr stale ↦ absurd (ground (arith, rw stale at e))
      ]

  opened_from :
      (hdr : Header) (aad body : Bytes) (o : Option (PeerState noise.State))
      (inner inner' : Inner noise.State) (q : Established) (b : Bytes)
      → open_from hdr aad body o inner ≡ some (inner', some (q, b))
      → (p : Established) × (out : Bytes) × (n : ℕ) × (o ≡ some (established p))
        × (p.vpn_addr ≡ q.vpn_addr)
        × ((decrypt hdr.message_counter aad body (zeros (length body)) p.transport).1
            ≡ some (out, ok n))
        × (take n out ≡ b)
  unfolding open_established
  opened_from hdr aad body none inner inner' q b h = absurd (ground (arith, h))
  opened_from hdr aad body (some (handshaking hs)) inner inner' q b h = absurd (ground (arith, h))
  opened_from hdr aad body (some (established p)) inner inner' q b h =
      let (out, n, opened, payload, same) = opened_with_success _ inner' _ q b _ h in
      (p, out, n, refl, ap (λ x. x.vpn_addr) same, opened, payload)

  message-Authentic :
      {start inner : Inner noise.State} {past : List (List Effect)} (datagram : Bytes)
      (hdr : Header) (a : IpAddr) (b : Bytes) (out : Inner noise.State × List Effect)
      → Reach start past inner
      → parse_header datagram ≡ ok hdr
      → hdr.type_ ≡ message
      → handle_message hdr (take header_len datagram) (drop header_len datagram) inner ≡ some out
      → Has (deliver a b) out.1
      → Authentic inner start.ca_cert datagram a b
  unfolding handle_message open_packet
  message-Authentic {inner = inner} datagram hdr a b out reach parsed kind h has =
      let (inner', q, opened, addr) = delivered_from _ out a b h has in
      let (p, buffer, n, found, addr', decrypted, payload) =
        opened_from hdr _ _ _ inner inner' q b opened in
      let sound = (Reach-TablesInv reach).0.sound hdr.remote_index (established p) found in
      let (seen, r) = sound.1.window in
      let (unsealed, fresh) = opened_fresh hdr.message_counter _ _ _ buffer n p seen r decrypted in
      record {
        header = hdr;
        parsed = parsed;
        is_message = kind;
        peer = p;
        found = found;
        verified = sound.1.verified;
        address = addr' ∙ addr;
        unsealed = unsealed ∙ ap ok payload;
        fresh = (seen, r, fresh);
      }

  -- A payload that receiving a datagram puts into the inbox, in a session that started with no
  -- peers, was sealed, the header included, in a message datagram with a counter not seen before,
  -- for an established peer whose certificate was verified against the session's CA, and is
  -- attributed to the first address in it.
  pub receive-Authentic :
      {start inner : Inner noise.State} {past : List (List Effect)} (world : World)
      (datagram : Bytes) (from : SocketAddr) (a : IpAddr) (payload : Bytes)
      (out : Inner noise.State × List Effect)
      → Reach start past inner
      → receive world datagram from inner ≡ some out
      → Has (deliver a payload) out.1
      → Authentic inner start.ca_cert datagram a payload
  unfolding receive dispatch
  receive-Authentic {start = start} {inner = inner} world datagram from a payload out reach h has =
      parsed (parse_header datagram) refl h
    where
      silent :
          {X : Type 0}
          → (x : Option (Inner noise.State × List Effect)) → QuietOut x
          → x ≡ some out
          → X
      silent none quiet e = absurd (ground (arith, e))
      silent (some y) quiet e = absurd (
          quiet a payload
            (subst (λ o. Has (deliver a payload) o.1) (sym (some-injective _ out e)) has))

      parsed :
          (r : Result Error Header)
          → parse_header datagram ≡ r
          → receive_parsed world r datagram from inner ≡ some out
          → Authentic inner start.ca_cert datagram a payload
      parsed (err e) q k = silent (some (inner, [])) nil-Quiet k
      parsed (ok hdr) q k = elim (Bool-cases (hdr.type_ == handshake)) [
        | inl first ↦ silent _ (handle_handshake-Quiet world hdr _ from inner) (rw first at k)
        | inr n1 ↦ elim (Bool-cases (hdr.type_ == message)) [
          | inl plain ↦
              message-Authentic datagram hdr a payload out reach q ((==_iff _ _).0 plain)
                (rw (n1, plain) at k) has
          | inr n2 ↦ elim (Bool-cases (hdr.type_ == lighthouse)) [
            | inl control ↦
                silent _ (handle_lighthouse_packet-Quiet hdr _ _ inner) (rw (n1, n2, control) at k)
            | inr n3 ↦ silent (some (inner, [])) nil-Quiet (rw (n1, n2, n3) at k)
          ]
        ]
      ]
