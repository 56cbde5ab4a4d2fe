-- ===== src/Protocol/Lighthouse/RoundTrip.antt =====
-- What a notification says of a host is what its reader finds.
use nebula_rs.Prelude.{
  ℕ, ◌+◌, ◌*◌, ◌/◌, ◌%◌, ◌^◌, ◌<◌, ◌≡◌, ◌≢◌, refl, sym, ap, ◌∙◌, arith, some, List, [], ◌∷◌, ◌++◌,
  map, nat_eq, All,
}
use mathlib.Core.List.{append-nil, append_assoc}
use nebula_rs.Net.{IpAddr, v4, v6}
use nebula_rs.Protocol.Wire.{V4AddrPort, V6AddrPort}
use nebula_rs.Protocol.Lighthouse.{
  SocketAddr, ip_of_ipv6, to_ipv6_mapped, addr_to_ip, ip_to_addr, addr_to_v4_v6, push_addrs,
  host_update_notification, host_query, v4_candidate, v6_candidate, candidate_addrs, vpn_addr_of,
}

-- An address in the range of its type; a v6 address that maps a v4 one is not told from it.
abbrev pub IsPlain : IpAddr → Type 0
IsPlain (v4 a) = a < 2 ^ 32
IsPlain (v6 a) = (a < 2 ^ 128) × (a / 2 ^ 32 ≢ 0xffff)

halves : (x : ℕ) → x / 2 ^ 64 * 2 ^ 64 + x % 2 ^ 64 ≡ x
halves x = omega arith

mapped : (a : ℕ) → a < 2 ^ 32 → ip_of_ipv6 (to_ipv6_mapped a) ≡ v4 a
mapped a lt = ground (arith, lt)

not_mapped : (a : ℕ) → a / 2 ^ 32 ≢ 0xffff → ip_of_ipv6 a ≡ v6 a
not_mapped a plain = ground (arith, plain)

pub addr_to_ip-ip_to_addr : (ip : IpAddr) → IsPlain ip → addr_to_ip (ip_to_addr ip) ≡ ip
unfolding addr_to_ip ip_to_addr
addr_to_ip-ip_to_addr (v4 a) lt = ap ip_of_ipv6 (halves (to_ipv6_mapped a)) ∙ mapped a lt
addr_to_ip-ip_to_addr (v6 a) (lt, plain) = ap ip_of_ipv6 (halves a) ∙ not_mapped a plain

-- The addresses of one family, in order.
unfoldable pub only_v4 : List SocketAddr → List SocketAddr
only_v4 [] = []
only_v4 (s ∷ ss) =
    let rest = only_v4 ss in
    elim s.ip [ v4 a ↦ record { ip = v4 a; port = s.port } ∷ rest | v6 a ↦ rest ]

unfoldable pub only_v6 : List SocketAddr → List SocketAddr
only_v6 [] = []
only_v6 (s ∷ ss) =
    let rest = only_v6 ss in
    elim s.ip [ v4 a ↦ rest | v6 a ↦ record { ip = v6 a; port = s.port } ∷ rest ]

abbrev pub IsPort : SocketAddr → Type 0
IsPort s = s.port < 2 ^ 16

map-append :
    {A : Type 0} (f : A → SocketAddr) (xs ys : List A) → map f (xs ++ ys) ≡ map f xs ++ map f ys
map-append f [] ys = refl
map-append f (x ∷ xs) ys = ap (λ zs. f x ∷ zs) (map-append f xs ys)

abbrev Pushed : List SocketAddr → List V4AddrPort → List V6AddrPort → Type 0
Pushed ss v4s v6s =
    (map v4_candidate (push_addrs ss (v4s, v6s)).0 ≡ map v4_candidate v4s ++ only_v4 ss)
    × (map v6_candidate (push_addrs ss (v4s, v6s)).1 ≡ map v6_candidate v6s ++ only_v6 ss)

-- One candidate more at the end, before the rest of its family.
moved :
    {A : Type 0} (f : A → SocketAddr) (xs : List A) (x : A) (s : SocketAddr)
    (rest : List SocketAddr)
    → f x ≡ s
    → map f (xs ++ (x ∷ [])) ++ rest ≡ map f xs ++ (s ∷ rest)
moved f xs x s rest e =
    ap (λ l. l ++ rest) (map-append f xs (x ∷ []))
    ∙ append_assoc (map f xs) (f x ∷ []) rest
    ∙ ap (λ t. map f xs ++ (t ∷ rest)) e

pushed :
    (ip : IpAddr) (p : ℕ) (ss : List SocketAddr) (v4s : List V4AddrPort) (v6s : List V6AddrPort)
    → p < 2 ^ 16
    → ((v4s' : List V4AddrPort) (v6s' : List V6AddrPort) → Pushed ss v4s' v6s')
    → Pushed (record { ip = ip; port = p } ∷ ss) v4s v6s
unfolding push_addrs addr_to_v4_v6 only_v4 only_v6
pushed (v4 a) p ss v4s v6s lt rest =
    let x : V4AddrPort = record { addr = a; port = p } in
    let s : SocketAddr = record { ip = v4 a; port = p } in
    let same : v4_candidate x ≡ s = ap (λ q. record s { port = q }) (omega (arith, lt)) in
    let (four, six) = rest (v4s ++ (x ∷ [])) v6s in
    (four ∙ moved v4_candidate v4s x s (only_v4 ss) same, six)
pushed (v6 a) p ss v4s v6s lt rest =
    let x : V6AddrPort = record { hi = a / 2 ^ 64; lo = a % 2 ^ 64; port = p } in
    let s : SocketAddr = record { ip = v6 a; port = p } in
    let port : p % 2 ^ 16 ≡ p = omega (arith, lt) in
    let same : v6_candidate x ≡ s =
      ap (λ q. record { ip = v6 q; port = p % 2 ^ 16 }) (halves a)
      ∙ ap (λ q. record s { port = q }) port in
    let (four, six) = rest v4s (v6s ++ (x ∷ [])) in
    (four, six ∙ moved v6_candidate v6s x s (only_v6 ss) same)

push_addrs_lem :
    (ss : List SocketAddr) (v4s : List V4AddrPort) (v6s : List V6AddrPort)
    → All IsPort ss
    → Pushed ss v4s v6s
unfolding push_addrs only_v4 only_v6
push_addrs_lem [] v4s v6s v = (sym (append-nil _), sym (append-nil _))
push_addrs_lem (s ∷ ss) v4s v6s (lt, v) =
    pushed s.ip s.port ss v4s v6s lt (λ v4s' v6s'. push_addrs_lem ss v4s' v6s' v)

-- The candidates read from a host_update_notification are the addresses it was made from, the v4
-- ones first and each family in its order, if their ports fit 16 bits; the address that it, or a
-- host_query, is about is the one given, if that fits its type and is no v6 address that maps a v4
-- one; a host_query has no candidates.
pub candidate_addrs-host_update_notification :
    (vpn_addr : IpAddr) (reachable_at : List SocketAddr)
    → IsPlain vpn_addr
    → All IsPort reachable_at
    → (candidate_addrs (host_update_notification vpn_addr reachable_at)
        ≡ only_v4 reachable_at ++ only_v6 reachable_at)
      × (vpn_addr_of (host_update_notification vpn_addr reachable_at) ≡ some vpn_addr)
      × (vpn_addr_of (host_query vpn_addr) ≡ some vpn_addr)
      × (candidate_addrs (host_query vpn_addr) ≡ [])
unfolding candidate_addrs host_update_notification host_query
candidate_addrs-host_update_notification vpn_addr ss plain ports =
    let (four, six) = push_addrs_lem ss [] [] ports in
    let same = addr_to_ip-ip_to_addr vpn_addr plain in
    (rw (four, six) refl, ap some same, ap some same, refl)
