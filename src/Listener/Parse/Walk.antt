-- ===== src/Listener/Parse/Walk.antt =====
-- The extension header walk of `parse_ipv6` terminates, with the result of the source's loop.
use nebula_rs.Prelude.{
  ℕ, zero, suc, ◌+◌, ◌<◌, ◌≤◌, ◌≡◌, refl, ◌⊎◌, inl, inr, Option, none, some, [], ◌∷◌, arith, length,
  get_elem?, nat_eq, Option-cases,
}
use nebula_rs.Prelude.Bytes.{Bytes}
use nebula_rs.Net.{IpAddr}
use nebula_rs.Listener.Parse.{
  FiveTuple, WalkStep, finish, advance, icmp_v6_end, transport_end, fragment_header, step_header,
  ipv6_step, ipv6_walk,
}

pub WalkStep-cases :
    (s : WalkStep) → ((t : Option FiveTuple) × (s ≡ finish t)) ⊎ ((n : ℕ) × (s ≡ advance n))
WalkStep-cases (finish t) = inl (t, refl)
WalkStep-cases (advance n) = inr (n, refl)

module _ (raw : Bytes) (src dst : IpAddr) where
  -- The loop as a relation, with no fuel.
  pub data Walks : ℕ → ℕ → Option FiveTuple → Type 0 where
    returns :
        {proto_at offset : ℕ} {t : Option FiveTuple}
        → ipv6_step raw src dst proto_at offset ≡ finish t
        → Walks proto_at offset t
    goes_on :
        {proto_at offset n : ℕ} {t : Option FiveTuple}
        → ipv6_step raw src dst proto_at offset ≡ advance n
        → Walks offset (offset + n) t
        → Walks proto_at offset t

  -- No header is shorter than eight bytes.
  step_header-ge : (nh offset n : ℕ) → step_header raw src dst nh offset ≡ advance n → 8 ≤ n
  unfolding step_header icmp_v6_end transport_end fragment_header
  step_header-ge nh offset n h = ground (arith, h)

  in_range : (xs : Bytes) (i x : ℕ) → get_elem? xs i ≡ some x → i < length xs
  in_range [] i x h = absurd (ground (arith, h))
  in_range (y ∷ xs) zero x h = omega arith
  in_range (y ∷ xs) (suc i) x h = omega (arith, in_range xs i x h)

  ipv6_step-advance :
      (proto_at offset n : ℕ)
      → ipv6_step raw src dst proto_at offset ≡ advance n
      → (proto_at < length raw) × (8 ≤ n)
  unfolding ipv6_step
  ipv6_step-advance proto_at offset n h = elim (Option-cases (get_elem? raw proto_at)) [
    | inl out ↦ absurd (ground (arith, h, out))
    | inr (nh, found) ↦
        (in_range raw proto_at nh found, step_header-ge nh offset n (ground (arith, h, found)))
  ]

  out_of_range : (xs : Bytes) (i : ℕ) → length xs ≤ i → get_elem? xs i ≡ none
  out_of_range [] i h = refl
  out_of_range (y ∷ xs) zero h = absurd (omega (arith, h))
  out_of_range (y ∷ xs) (suc i) h = out_of_range xs i (omega (arith, h))

  past_end :
      (proto_at offset : ℕ)
      → length raw ≤ proto_at
      → ipv6_step raw src dst proto_at offset ≡ finish none
  unfolding ipv6_step
  past_end proto_at offset le = rw (out_of_range raw proto_at le, ipv6_step) refl

  -- From a position below the offset, with rounds that exceed the bytes that are left, the walk
  -- over the extension headers returns what the loop without a bound on its rounds returns.
  pub ipv6_walk-Walks :
      (fuel proto_at offset : ℕ)
      → proto_at < offset
      → length raw < fuel + proto_at
      → Walks proto_at offset (ipv6_walk raw src dst fuel proto_at offset)
  unfolding ipv6_walk
  ipv6_walk-Walks zero proto_at offset lt enough =
      returns (past_end proto_at offset (omega (arith, enough)))
  ipv6_walk-Walks (suc fuel) proto_at offset lt enough =
      elim (WalkStep-cases (ipv6_step raw src dst proto_at offset)) [
        | inl (t, h) ↦ rw (h, ipv6_walk) (returns h)
        | inr (n, h) ↦
            let ahead = ipv6_step-advance proto_at offset n h in
            rw (h, ipv6_walk)
              (goes_on h (
                ipv6_walk-Walks fuel offset (offset + n) (omega (arith, ahead))
                  (omega (arith, ahead, lt, enough))))
      ]
