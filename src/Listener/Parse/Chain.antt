-- ===== src/Listener/Parse/Chain.antt =====
-- The walk passes over any chain of extension headers to the transport header behind it.
use nebula_rs.Prelude.{
  ℕ, zero, suc, ◌+◌, ◌*◌, ◌<◌, ◌≤◌, ◌≡◌, refl, sym, ap, ◌∙◌, ◌⊎◌, inl, inr, Bool, false, ◌||◌, none,
  some, List, [], ◌∷◌, ◌++◌, arith, length, get_elem?, slice, drop, drop-drop, length-drop,
  length-append, All, ltb, nat_eq, ◌==◌, if◌then◌else◌,
}
use nebula_rs.Prelude.Bytes.{Bytes, from_be_bytes}
use nebula_rs.Net.{IpAddr, v6}
use nebula_rs.Firewall.Packet.{protocol_from}
use nebula_rs.Listener.Parse.{
  FiveTuple, finish, advance, transport_end, step_header, ipv6_step, ipv6_walk, read_ports,
  parse_ipv6,
}

-- An extension header but for its first byte, which names the header after it.
pub record Extension : Type 0 where
  pub kind : ℕ
  pub units : ℕ
  pub body : Bytes

-- RFC 8200 counts in units of 8 bytes after the first 8; an authentication header (RFC 4302) counts
-- in units of 4 bytes, less 2.
abbrev pub extension_len : ℕ → ℕ → ℕ
extension_len kind units = if kind == 51 then (units + 2) * 4 else (units + 1) * 8

abbrev pub is_upper : ℕ → Bool
is_upper kind = kind == 50 || kind == 59 || kind == 58 || kind == 6 || kind == 17 || kind == 44

abbrev pub IsExtension : Extension → Type 0
IsExtension e = (is_upper e.kind ≡ false) × (length e.body + 2 ≡ extension_len e.kind e.units)

abbrev pub first_kind : List Extension → ℕ → ℕ
first_kind [] last = last
first_kind (e ∷ es) last = e.kind

unfoldable pub write_chain : List Extension → ℕ → Bytes → Bytes
write_chain [] last l4 = l4
write_chain (e ∷ es) last l4 = first_kind es last ∷ e.units ∷ (e.body ++ write_chain es last l4)

get_elem?-drop : (xs : Bytes) (n i : ℕ) → get_elem? (drop n xs) i ≡ get_elem? xs (n + i)
get_elem?-drop xs zero i = let none_of_it : i ≡ 0 + i = omega arith in ap (get_elem? xs) none_of_it
get_elem?-drop [] (suc n) i = refl
get_elem?-drop (x ∷ xs) (suc n) i =
    let next : suc (n + i) ≡ suc n + i = omega arith in
    get_elem?-drop xs n i ∙ ap (get_elem? (x ∷ xs)) next

drop_body : (xs ys : Bytes) → drop (length xs) (xs ++ ys) ≡ ys
drop_body [] ys = refl
drop_body (x ∷ xs) ys = drop_body xs ys

length-write_chain-ge :
    (es : List Extension) (last : ℕ) (l4 : Bytes) → length es ≤ length (write_chain es last l4)
unfolding write_chain
length-write_chain-ge [] last l4 = omega arith
length-write_chain-ge (e ∷ es) last l4 =
    omega (arith, length-append e.body (write_chain es last l4), length-write_chain-ge es last l4)

abbrev pub transport_tuple : IpAddr → IpAddr → ℕ → Bytes → FiveTuple
transport_tuple src dst last l4 = record {
  src = src;
  dst = dst;
  protocol = protocol_from last;
  src_port = (read_ports l4).0;
  dst_port = (read_ports l4).1;
  icmp_identifier = none;
  fragment = false;
}

module _ (raw : Bytes) (src dst : IpAddr) where
  extension_step :
      (e : Extension) (offset : ℕ)
      → IsExtension e
      → get_elem? raw (offset + 1) ≡ some e.units
      → step_header raw src dst e.kind offset ≡ advance (length e.body + 2)
  unfolding step_header
  extension_step e offset (kind, len) units = ground (arith, kind, len, units)

  transport_step :
      (last offset : ℕ) (l4 : Bytes)
      → (last ≡ 6) ⊎ (last ≡ 17)
      → drop offset raw ≡ l4
      → 4 ≤ length l4
      → step_header raw src dst last offset ≡ finish (some (transport_tuple src dst last l4))
  unfolding step_header transport_end
  transport_step last offset l4 (inl tcp) here enough =
      ground (arith, tcp, here, length-drop offset raw, enough)
  transport_step last offset l4 (inr udp) here enough =
      ground (arith, udp, here, length-drop offset raw, enough)

  pub walk_chain :
      (es : List Extension) (last proto_at offset fuel : ℕ) (l4 : Bytes)
      → All IsExtension es
      → (last ≡ 6) ⊎ (last ≡ 17)
      → 4 ≤ length l4
      → get_elem? raw proto_at ≡ some (first_kind es last)
      → drop offset raw ≡ write_chain es last l4
      → length es < fuel
      → ipv6_walk raw src dst fuel proto_at offset ≡ some (transport_tuple src dst last l4)
  unfolding ipv6_walk ipv6_step write_chain
  walk_chain es last proto_at offset zero l4 v upper enough named here lt =
      absurd (omega (arith, lt))
  walk_chain [] last proto_at offset (suc fuel) l4 v upper enough named here lt =
      ground (arith, named, transport_step last offset l4 upper here enough)
  walk_chain (e ∷ es) last proto_at offset (suc fuel) l4 (x, v) upper enough named here lt =
      let name : get_elem? raw offset ≡ some (first_kind es last) =
        let start : offset + 0 ≡ offset = omega arith in
        ap (get_elem? raw) (sym start)
        ∙ sym (get_elem?-drop raw offset 0)
        ∙ ap (λ b. get_elem? b 0) here in
      let units : get_elem? raw (offset + 1) ≡ some e.units =
        sym (get_elem?-drop raw offset 1) ∙ ap (λ b. get_elem? b 1) here in
      let next : drop (offset + (length e.body + 2)) raw ≡ write_chain es last l4 =
        let two : length e.body + 2 ≡ suc (suc (length e.body)) = omega arith in
        sym (drop-drop (length e.body + 2) offset raw)
        ∙ ap (drop (length e.body + 2)) here
        ∙ ap (λ k. drop k (write_chain (e ∷ es) last l4)) two
        ∙ drop_body e.body (write_chain es last l4) in
      ground (
        arith,
        named,
        extension_step e offset x units,
        walk_chain es last offset (offset + (length e.body + 2)) fuel l4 v upper enough name next
            (omega (arith, lt)),
      )

-- An IPv6 packet whose fixed header is followed by any list of extension headers, standard or
-- authentication headers of any length, and then at least four bytes of a TCP or UDP header parses
-- to the ports and protocol of that last header, and to the addresses of the fixed header.
pub parse_ipv6_chain :
    (raw : Bytes) (es : List Extension) (last : ℕ) (l4 : Bytes)
    → All IsExtension es
    → (last ≡ 6) ⊎ (last ≡ 17)
    → 4 ≤ length l4
    → 40 ≤ length raw
    → get_elem? raw 6 ≡ some (first_kind es last)
    → drop 40 raw ≡ write_chain es last l4
    → parse_ipv6 raw
      ≡ some (
          transport_tuple
            (v6 (from_be_bytes (slice 8 24 raw)))
            (v6 (from_be_bytes (slice 24 40 raw)))
            last
            l4)
unfolding parse_ipv6
parse_ipv6_chain raw es last l4 v upper enough long named here =
    let short : ltb (length raw) 40 ≡ false = ground (arith, long) in
    let rounds : length es < suc (length raw) =
      omega (arith, length-write_chain-ge es last l4, length-drop 40 raw, ap length here) in
    rw short
      (walk_chain raw _ _ es last 6 40 (suc (length raw)) l4 v upper enough named here rounds)
