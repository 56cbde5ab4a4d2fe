-- ===== src/Listener/Identity.antt =====
-- nebula-listener/src/identity.rs: the firewall's view of a peer from its certificate. `text` is the `String`
-- that UTF-8 bytes stand for.
use nebula_rs.Prelude.{
  ◌≤◌, ◌≡◌, refl, Bool, true, ◌||◌, Option, none, some, List, [], ◌∷◌, String, arith, map, any, All,
  ltb, ltb→lt, inl, inr, Bool-cases, Option-cases, nat_eq, ◌==◌,
}
use nebula_rs.Prelude.Bytes.{Bytes}
use nebula_rs.Net.{IpAddr, IpNet, addr_bits, addr_eq}
use nebula_rs.Firewall.Identity.{PeerIdentity, any_contains, owns}
use nebula_rs.Protocol.Cert.Values.{Network}
use nebula_rs.Protocol.Session.{PeerInfo}

abbrev pub HasPrefix : Network → Type 0
HasPrefix n = n.prefix_len ≤ addr_bits n.addr

abbrev pub too_long : Network → Bool
too_long n = ltb (addr_bits n.addr) n.prefix_len

module _ {N : Type 0} ⦃net : IpNet N⦄ where
  -- `none` is a panic of the `expect`.
  abbrev pub to_ipnet : Network → Option N
  to_ipnet n = net.new n.addr n.prefix_len

  abbrev pub to_host_route : Network → Option N
  to_host_route n = net.new n.addr (addr_bits n.addr)

  unfoldable pub collect : (Network → Option N) → List Network → Option (List N)
  collect f [] = some []
  collect f (n ∷ ns) =
      let rest = collect f ns in
      elim (f n) [ none ↦ none | some x ↦ elim rest [ none ↦ none | some xs ↦ some (x ∷ xs) ] ]

  unfoldable pub peer_identity :
      (Bytes → String) → PeerInfo → String → String → Option (PeerIdentity N)
  peer_identity text info ca_name ca_sha =
      let unsafe_networks = collect to_ipnet info.unsafe_networks in
      elim (collect to_host_route info.networks) [
        | none ↦ none
        | some vpn_networks ↦ elim unsafe_networks [
          | none ↦ none
          | some unsafe ↦ some (record {
            name = text info.name;
            groups = map text info.groups;
            ca_name = ca_name;
            ca_sha = ca_sha;
            vpn_networks = vpn_networks;
            unsafe_networks = unsafe;
          })
        ]
      ]

  host_routes_collected :
      (ns : List Network)
      → (hs : List N) × (collect to_host_route ns ≡ some hs)
        × ((a : IpAddr) → any_contains hs a ≡ any (λ n. n.addr == a) ns)
  unfolding collect
  host_routes_collected [] = ([], refl, λ a. refl)
  host_routes_collected (n ∷ ns) =
      let (h, e) = net.new_total n.addr (addr_bits n.addr) (omega arith) in
      let (hs, f, same) = host_routes_collected ns in
      (h ∷ hs, ground (arith, e, f), λ a. ground (arith, same a, net.contains_host n.addr a h e))

  networks_collected :
      (ns : List Network) → All HasPrefix ns → (us : List N) × (collect to_ipnet ns ≡ some us)
  unfolding collect
  networks_collected [] v = ([], refl)
  networks_collected (n ∷ ns) (le, v) =
      let (u, e) = net.new_total n.addr n.prefix_len le in
      let (us, f) = networks_collected ns v in (u ∷ us, ground (arith, e, f))

  -- If the prefixes of the unsafe networks fit their addresses, peer_identity does not panic, keeps
  -- the unsafe networks in order, and the peer owns exactly the addresses of its networks, not the
  -- networks themselves, and those in its unsafe networks.
  pub peer_identity-owns :
      (text : Bytes → String) (info : PeerInfo) (ca_name ca_sha : String)
      → All HasPrefix info.unsafe_networks
      → (id : PeerIdentity N) × (peer_identity text info ca_name ca_sha ≡ some id)
        × (collect to_ipnet info.unsafe_networks ≡ some id.unsafe_networks)
        × ((a : IpAddr)
            → owns id a ≡ any (λ n. n.addr == a) info.networks || any_contains id.unsafe_networks a)
  unfolding peer_identity owns
  peer_identity-owns text info ca_name ca_sha v =
      let (hs, e, same) = host_routes_collected info.networks in
      let (us, f) = networks_collected info.unsafe_networks v in
      (
        record {
          name = text info.name;
          groups = map text info.groups;
          ca_name = ca_name;
          ca_sha = ca_sha;
          vpn_networks = hs;
          unsafe_networks = us;
        },
        ground (arith, e, f),
        f,
        λ a. ground (arith, same a),
      )

  too_long_collected : (ns : List Network) → any too_long ns ≡ true → collect to_ipnet ns ≡ none
  unfolding collect
  too_long_collected [] h = absurd (ground (arith, h))
  too_long_collected (n ∷ ns) h = elim (Bool-cases (too_long n)) [
    | inl long ↦
        ground
          (arith, net.new_invalid n.addr n.prefix_len (ltb→lt (addr_bits n.addr) n.prefix_len long))
    | inr short ↦
        let rest = too_long_collected ns (ground (arith, h, short)) in
        elim (Option-cases (to_ipnet n)) [
          | inl failed ↦ ground (arith, failed)
          | inr (u, made) ↦ ground (arith, made, rest)
        ]
  ]

  -- If an unsafe network has a prefix longer than its address, peer_identity panics, whatever the
  -- other fields are.
  pub peer_identity_panics :
      (text : Bytes → String) (info : PeerInfo) (ca_name ca_sha : String)
      → any too_long info.unsafe_networks ≡ true
      → peer_identity text info ca_name ca_sha ≡ none
  unfolding peer_identity
  peer_identity_panics text info ca_name ca_sha h =
      let (hs, e, _) = host_routes_collected info.networks in
      ground (arith, e, too_long_collected info.unsafe_networks h)
