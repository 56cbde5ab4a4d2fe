-- ===== src/Firewall/Builder/Peer.antt =====
-- What one added rule does to the lookup in a `LocalCidr`, a `PeerRule` and a `CaRule`: the answer
-- becomes true exactly where the rule fits.
use nebula_rs.Prelude.{
  ◌≡◌, refl, Bool, true, false, ◌&&◌, ◌||◌, Option, none, some, List, [], ◌∷◌, ◌++◌, String,
  string_eq, arith, PartialEq, ◌==◌, ==_iff, all, contains, is_empty, not, any-append, Bool-cases,
  inl, inr, Option-cases,
}
use nebula_rs.Prelude.Map.{HashMap, get, update_entry, get-update_entry, unwrap_or}
use nebula_rs.Net.{IpNet}
use nebula_rs.Firewall.Packet.{Packet}
use nebula_rs.Firewall.Identity.{PeerIdentity}
use nebula_rs.Firewall.Tree.{
  LocalCidr, PeerRule, CaRule, some_and, no_local_cidr, no_peer_rule, local_cidr_matches,
  groups_match, cidrs_match, peer_rule_matches, ca_rule_matches,
}
use nebula_rs.Firewall.Builder.{
  LocalCidrSpec, LocalCidrDefault, RuleArgs, is_any, merge_local_cidr, add_cidr, add_groups,
  add_host, add_peer_cidr, add_to_peer_rule, add_to_ca_rule,
}
use nebula_rs.Firewall.RuleSpec.{local_fits, peer_fits, ca_fits}

-- A value that `f` updates answers `c` more than it did before; so does the entry that holds it.
pub some_and-unwrap_or {κ} :
    {V : Type κ} (d : V) (f : V → V) (q : V → Bool) (c : Bool)
    → ((v : V) → q (f v) ≡ q v || c)
    → q d ≡ false
    → (o : Option V) → q (f (unwrap_or o d)) ≡ some_and o q || c
some_and-unwrap_or d f q c step base none = ground (arith, step d)
some_and-unwrap_or d f q c step base (some v) = step v

pub some_and-update_entry {ℓ κ} :
    {K : Type ℓ} {V : Type κ} ⦃e : PartialEq K⦄ (k j : K) (d : V) (f : V → V) (q : V → Bool)
    (c : Bool)
    → ((v : V) → q (f v) ≡ q v || c)
    → q d ≡ false
    → (m : HashMap K V)
    → some_and (get j (update_entry k d f m)) q ≡ some_and (get j m) q || (k == j && c)
some_and-update_entry k j d f q c step base m =
    ground (
      arith,
      get-update_entry k j d f m,
      ==_iff k j,
      some_and-unwrap_or d f q c step base (get k m),
    )

module _ (N : Type 0) ⦃net : IpNet N⦄ where
  local_cidr_matches-default : (p : Packet) → local_cidr_matches {N = N} no_local_cidr p ≡ false
  unfolding local_cidr_matches
  local_cidr_matches-default p = refl

module _ {N : Type 0} ⦃net : IpNet N⦄ where
  pub local_cidr_matches-merge :
      (d : LocalCidrDefault N) (s : LocalCidrSpec N) (lc : LocalCidr N) (p : Packet)
      → local_cidr_matches (merge_local_cidr d s lc) p ≡ local_cidr_matches lc p || local_fits d s p
  unfolding local_cidr_matches merge_local_cidr local_fits
  local_cidr_matches-merge d LocalCidrSpec.any lc p = ground arith
  local_cidr_matches-merge d (LocalCidrSpec.net n) lc p =
      ground (arith, any-append (λ n. net.contains n p.local_addr) lc.nets (n ∷ []))
  local_cidr_matches-merge LocalCidrDefault.any LocalCidrSpec.unset lc p = ground arith
  local_cidr_matches-merge (LocalCidrDefault.nets ns) LocalCidrSpec.unset lc p =
      ground (arith, any-append (λ n. net.contains n p.local_addr) lc.nets ns)

  module _ (p : Packet) (remote : PeerIdentity N) where
    groups_match-append :
        (xs : List (List String × LocalCidr N)) (gs : List String) (lc : LocalCidr N)
        → groups_match p remote (xs ++ ((gs, lc) ∷ []))
          ≡ groups_match p remote xs || (all (contains remote.groups) gs && local_cidr_matches lc p)
    unfolding groups_match
    groups_match-append [] gs lc = ground arith
    groups_match-append ((hs, lc') ∷ xs) gs lc = ground (arith, groups_match-append xs gs lc)

    cidrs_match-add_cidr :
        (c : N) (f : LocalCidr N → LocalCidr N) (fits : Bool)
        → ((lc : LocalCidr N) → local_cidr_matches (f lc) p ≡ local_cidr_matches lc p || fits)
        → (xs : List (N × LocalCidr N))
        → cidrs_match p remote (add_cidr c f xs)
          ≡ cidrs_match p remote xs || (net.contains c p.remote_addr && fits)
    unfolding cidrs_match add_cidr
    cidrs_match-add_cidr c f fits h [] =
        ground (arith, h no_local_cidr, local_cidr_matches-default N p)
    cidrs_match-add_cidr c f fits h ((n, lc) ∷ xs) =
        ground (arith, h lc, net.beq_iff n c, cidrs_match-add_cidr c f fits h xs)

    module _ (d : LocalCidrDefault N) (r : RuleArgs N) where
      merge_fits :
          (lc : LocalCidr N)
          → local_cidr_matches (merge_local_cidr d r.local_cidr lc) p
            ≡ local_cidr_matches lc p || local_fits d r.local_cidr p
      merge_fits lc = local_cidr_matches-merge d r.local_cidr lc p

      any_fits :
          (o : Option (LocalCidr N))
          → local_cidr_matches (merge_local_cidr d r.local_cidr (unwrap_or o no_local_cidr)) p
            ≡ some_and o (λ lc. local_cidr_matches lc p) || local_fits d r.local_cidr p
      any_fits o =
          some_and-unwrap_or no_local_cidr (merge_local_cidr d r.local_cidr)
            (λ lc. local_cidr_matches lc p) (local_fits d r.local_cidr p) merge_fits
            (local_cidr_matches-default N p) o

      host_fits :
          (h : String) (m : HashMap String (LocalCidr N))
          → some_and
              (get remote.name (update_entry h no_local_cidr (merge_local_cidr d r.local_cidr) m))
              (λ lc. local_cidr_matches lc p)
            ≡ some_and (get remote.name m) (λ lc. local_cidr_matches lc p)
              || (h == remote.name && local_fits d r.local_cidr p)
      host_fits h m =
          some_and-update_entry h remote.name no_local_cidr (merge_local_cidr d r.local_cidr)
            (λ lc. local_cidr_matches lc p) (local_fits d r.local_cidr p) merge_fits
            (local_cidr_matches-default N p) m

      -- The three ways in which a rule with a peer condition is filed.
      peer_rule_matches-add_groups :
          (pr : PeerRule N)
          → peer_rule_matches p remote (add_groups d r pr)
            ≡ peer_rule_matches p remote pr
              || ((not (is_empty r.groups) && all (contains remote.groups) r.groups)
                  && local_fits d r.local_cidr p)
      unfolding peer_rule_matches add_groups
      peer_rule_matches-add_groups pr = ground (
        arith,
        groups_match-append pr.groups r.groups (merge_local_cidr d r.local_cidr no_local_cidr),
        merge_fits no_local_cidr,
        local_cidr_matches-default N p,
      )

      peer_rule_matches-add_host :
          (pr : PeerRule N)
          → peer_rule_matches p remote (add_host d r pr)
            ≡ peer_rule_matches p remote pr
              || (some_and r.host (λ h. h == remote.name) && local_fits d r.local_cidr p)
      unfolding peer_rule_matches add_host
      peer_rule_matches-add_host pr = elim (Option-cases r.host) [
        | inl e ↦ ground (arith, e)
        | inr (h, e) ↦ ground (arith, e, host_fits h pr.hosts)
      ]

      peer_rule_matches-add_cidr :
          (pr : PeerRule N)
          → peer_rule_matches p remote (add_peer_cidr d r pr)
            ≡ peer_rule_matches p remote pr
              || (some_and r.cidr (λ c. net.contains c p.remote_addr)
                  && local_fits d r.local_cidr p)
      unfolding peer_rule_matches add_peer_cidr
      peer_rule_matches-add_cidr pr = elim (Option-cases r.cidr) [
        | inl e ↦ ground (arith, e)
        | inr (c, e) ↦ ground (
          arith,
          e,
          cidrs_match-add_cidr c (merge_local_cidr d r.local_cidr) (local_fits d r.local_cidr p)
              merge_fits pr.cidrs,
        )
      ]

      peer_rule_matches-add_any :
          (pr : PeerRule N)
          → peer_rule_matches p remote (record pr {
            any = some (merge_local_cidr d r.local_cidr (unwrap_or pr.any no_local_cidr));
          })
            ≡ peer_rule_matches p remote pr || local_fits d r.local_cidr p
      unfolding peer_rule_matches
      peer_rule_matches-add_any pr = ground (arith, any_fits pr.any)

      peer_fits_any : is_any r ≡ true → peer_fits r p remote ≡ true
      unfolding is_any peer_fits
      peer_fits_any h = ground arith

      peer_fits_conditions :
          is_any r ≡ false
          → peer_fits r p remote
            ≡ (not (is_empty r.groups) && all (contains remote.groups) r.groups)
              || some_and r.host (λ h. h == remote.name)
              || some_and r.cidr (λ c. net.contains c p.remote_addr)
      unfolding is_any peer_fits
      peer_fits_conditions h = ground arith

      peer_rule_matches-add :
          (pr : PeerRule N)
          → peer_rule_matches p remote (add_to_peer_rule d r pr)
            ≡ peer_rule_matches p remote pr || (peer_fits r p remote && local_fits d r.local_cidr p)
      unfolding add_to_peer_rule
      peer_rule_matches-add pr = elim (Bool-cases (is_any r)) [
        | inl h ↦ ground (arith, h, peer_fits_any h, peer_rule_matches-add_any pr)
        | inr h ↦ ground (
          arith,
          h,
          peer_fits_conditions h,
          peer_rule_matches-add_groups pr,
          peer_rule_matches-add_host (add_groups d r pr),
          peer_rule_matches-add_cidr (add_host d r (add_groups d r pr)),
        )
      ]

      no_peer_rule_matches : peer_rule_matches p remote no_peer_rule ≡ false
      unfolding peer_rule_matches groups_match cidrs_match get
      no_peer_rule_matches = refl

      peer_in_some :
          (o : Option (PeerRule N))
          → peer_rule_matches p remote (add_to_peer_rule d r (unwrap_or o no_peer_rule))
            ≡ some_and o (peer_rule_matches p remote)
              || (peer_fits r p remote && local_fits d r.local_cidr p)
      peer_in_some o =
          some_and-unwrap_or no_peer_rule (add_to_peer_rule d r) (peer_rule_matches p remote)
            (peer_fits r p remote && local_fits d r.local_cidr p) peer_rule_matches-add
            no_peer_rule_matches o

      peer_in_map :
          (k j : String) (m : HashMap String (PeerRule N))
          → some_and
              (get j (update_entry k no_peer_rule (add_to_peer_rule d r) m))
              (peer_rule_matches p remote)
            ≡ some_and (get j m) (peer_rule_matches p remote)
              || (k == j && (peer_fits r p remote && local_fits d r.local_cidr p))
      peer_in_map k j m =
          some_and-update_entry k j no_peer_rule (add_to_peer_rule d r) (peer_rule_matches p remote)
            (peer_fits r p remote && local_fits d r.local_cidr p) peer_rule_matches-add
            no_peer_rule_matches m

      -- Filing a rule with a certificate authority lets its peers through for that authority only.
      pub ca_rule_matches-add :
          (ca : CaRule N)
          → ca_rule_matches p remote (add_to_ca_rule d r ca)
            ≡ ca_rule_matches p remote ca
              || (ca_fits r remote && (peer_fits r p remote && local_fits d r.local_cidr p))
      unfolding add_to_ca_rule ca_rule_matches ca_fits
      ca_rule_matches-add ca = elim (Option-cases r.ca_name) [
        | inl e ↦ elim (Option-cases r.ca_sha) [
          | inl f ↦ ground (arith, e, f, peer_in_some ca.any)
          | inr (s, f) ↦ ground (arith, e, f, peer_in_map s remote.ca_sha ca.ca_shas)
        ]
        | inr (n, e) ↦ elim (Option-cases r.ca_sha) [
          | inl f ↦ ground (arith, e, f, peer_in_map n remote.ca_name ca.ca_names)
          | inr (s, f) ↦ ground (
            arith,
            e,
            f,
            peer_in_map n remote.ca_name ca.ca_names,
            peer_in_map s remote.ca_sha ca.ca_shas,
          )
        ]
      ]
