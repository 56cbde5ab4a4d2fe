-- ===== src/Prelude/Bits.antt =====
-- Bits of the machine words: `bit x i` is bit `i` of `x`.
use Prim.Native.Nat.{
  ℕ, zero, suc, ◌+◌, ◌*◌, ◌/◌, ◌%◌, ◌^◌, ◌≤◌, ◌<◌, min, max, bit_and, bit_or, bitwise, digits,
  bit_and-bitwise, bit_or-bitwise,
}
use mathlib.Core.Path.{◌≡◌, refl, ap, sym, ◌∙◌}
use native.Mathlib.Omega.{arith}
use native.Mathlib.Nat.{
  mod-add-div, one-le-pow, add-mul-mod_self_left, mod-eq_of_lt, mod-lt, div-div-eq-div-mul,
}
use nebula_rs.Prelude.Tests.{nat_beq, if◌then◌else◌}

unfoldable pub bit : ℕ → ℕ → ℕ
bit x zero = x % 2
bit x (suc i) = bit (x / 2) i

-- The recursion of a digitwise operation, for any count of digits that is large enough.
module _ (z : ℕ → ℕ) (f : ℕ → ℕ → ℕ) where
  enough_digits : (n x y : ℕ) → x ≤ n → digits z f n x y ≡ bitwise z f x y
  enough_digits n x y le = enough n x x y le (omega arith)
    where
      enough : (n m x y : ℕ) → x ≤ n → x ≤ m → digits z f n x y ≡ digits z f m x y
      enough zero zero x y p q = refl
      enough zero (suc m) zero y p q = refl
      enough zero (suc m) (suc x) y p q = absurd (omega arith)
      enough (suc n) zero zero y p q = refl
      enough (suc n) zero (suc x) y p q = absurd (omega arith)
      enough (suc n) (suc m) zero y p q = refl
      enough (suc n) (suc m) (suc x) y p q =
          ap (λ d. d * 2 + f (suc x % 2) (y % 2))
            (enough n m (suc x / 2) (y / 2) (omega arith) (omega arith))

  lowest_digit :
      (x y : ℕ)
      → z y ≡ z (y / 2) * 2 + f 0 (y % 2)
      → bitwise z f x y ≡ bitwise z f (x / 2) (y / 2) * 2 + f (x % 2) (y % 2)
  lowest_digit zero y h = h
  lowest_digit (suc x) y h =
      ap (λ d. d * 2 + f (suc x % 2) (y % 2)) (enough_digits x (suc x / 2) (y / 2) (omega arith))

pub or_step : (x y : ℕ) → bit_or x y ≡ bit_or (x / 2) (y / 2) * 2 + max (x % 2) (y % 2)
or_step x y = omega (
  arith,
  bit_or-bitwise x y,
  bit_or-bitwise (x / 2) (y / 2),
  lowest_digit (λ b. b) max x y (omega arith),
)

pub and_step : (x y : ℕ) → bit_and x y ≡ bit_and (x / 2) (y / 2) * 2 + min (x % 2) (y % 2)
and_step x y = omega (
  arith,
  bit_and-bitwise x y,
  bit_and-bitwise (x / 2) (y / 2),
  lowest_digit (λ b. 0) min x y (omega arith),
)

or_zero_within : (n x : ℕ) → x ≤ n → bit_or x 0 ≡ x
or_zero_within zero zero le = refl
or_zero_within zero (suc x) le = absurd (omega arith)
or_zero_within (suc n) zero le = refl
or_zero_within (suc n) (suc x) le =
    omega (arith, or_step (suc x) 0, or_zero_within n (suc x / 2) (omega arith))

pub or_zero : (x : ℕ) → bit_or x 0 ≡ x
or_zero x = or_zero_within x x (omega arith)

and_zero_within : (n x : ℕ) → x ≤ n → bit_and x 0 ≡ 0
and_zero_within zero zero le = refl
and_zero_within zero (suc x) le = absurd (omega arith)
and_zero_within (suc n) zero le = refl
and_zero_within (suc n) (suc x) le =
    omega (arith, and_step (suc x) 0, and_zero_within n (suc x / 2) (omega arith))

pub and_zero : (x : ℕ) → bit_and x 0 ≡ 0
and_zero x = and_zero_within x x (omega arith)

half_pow : (i : ℕ) → 2 ^ suc i / 2 ≡ 2 ^ i
half_pow i = omega arith

-- `x | (1 << i)`
pub bit_or-bit : (x i j : ℕ) → bit (bit_or x (2 ^ i)) j ≡ (if nat_beq i j then 1 else bit x j)
unfolding bit
bit_or-bit x zero zero = omega (arith, or_step x 1)
bit_or-bit x zero (suc j) =
    let rest : bit_or x 1 / 2 ≡ x / 2 = omega (arith, or_step x 1, or_zero (x / 2)) in
    rw rest (ground arith)
bit_or-bit x (suc i) zero = ground (arith, or_step x (2 ^ suc i))
bit_or-bit x (suc i) (suc j) =
    let rest : bit_or x (2 ^ suc i) / 2 ≡ bit_or (x / 2) (2 ^ suc i / 2) =
      omega (arith, or_step x (2 ^ suc i)) in
    rw (rest, half_pow i) (ground (arith, bit_or-bit (x / 2) i j))

-- `x & (1 << i) != 0`
pub bit_and-bit : (x i : ℕ) → nat_beq (bit_and x (2 ^ i)) 0 ≡ nat_beq (bit x i) 0
unfolding bit
bit_and-bit x zero = ap (λ y. nat_beq y 0) (omega (arith, and_step x 1, and_zero (x / 2)))
bit_and-bit x (suc i) =
    ground (arith, and_step x (2 ^ suc i), ap (bit_and (x / 2)) (half_pow i), bit_and-bit (x / 2) i)

pub bit-lt : (x i : ℕ) → bit x i < 2
unfolding bit
bit-lt x zero = omega arith
bit-lt x (suc i) = bit-lt (x / 2) i

half_mod : (m x : ℕ) → 0 < m → x % (2 * m) / 2 ≡ x / 2 % m
half_mod m x pos =
    let r = x % (2 * m) in
    let q = x / (2 * m) in
    let halved : x / 2 ≡ r / 2 + m * q = omega (arith, mod-add-div x (2 * m)) in
    let below : r < 2 * m = mod-lt x (omega arith) in
    sym (rw halved (add-mul-mod_self_left (r / 2) m q ∙ mod-eq_of_lt (omega (arith, below))))

mod_even : (m x : ℕ) → x % (2 * m) % 2 ≡ x % 2
mod_even m x = omega (arith, mod-add-div x (2 * m))

-- The bits below `n` of a word cut to `n` bits.
pub bit-mod : (n x i : ℕ) → i < n → bit (x % 2 ^ n) i ≡ bit x i
unfolding bit
bit-mod zero x i lt = absurd (omega arith)
bit-mod (suc n) x zero lt = ap (λ k. x % k % 2) (omega arith) ∙ mod_even (2 ^ n) x
bit-mod (suc n) x (suc i) lt =
    ap (λ y. bit y i)
      (ap (λ k. x % k / 2) (omega arith) ∙ half_mod (2 ^ n) x (one-le-pow n 2 (omega arith)))
    ∙ bit-mod n (x / 2) i (omega arith)

pub zero-bit : (i : ℕ) → bit 0 i ≡ 0
unfolding bit
zero-bit zero = refl
zero-bit (suc i) = zero-bit i

pub bit_div : (x i : ℕ) → bit x i ≡ x / 2 ^ i % 2
unfolding bit
bit_div x zero = omega arith
bit_div x (suc i) =
    bit_div (x / 2) i
    ∙ ap (λ y. y % 2) (div-div-eq-div-mul x 2 (2 ^ i) ∙ ap (λ k. x / k) (omega arith))

-- `n` ones.
abbrev pub mask : ℕ → ℕ
mask zero = 0
mask (suc n) = mask n * 2 + 1

pub bit_and-mask : (n x : ℕ) → bit_and x (mask n) ≡ x % 2 ^ n
bit_and-mask zero x = omega (arith, and_zero x)
bit_and-mask (suc n) x =
    let double : 2 ^ suc n ≡ 2 * 2 ^ n = omega arith in
    rw double (
      omega (
        arith,
        and_step x (mask n * 2 + 1),
        ap (bit_and (x / 2)) (half_mask n),
        bit_and-mask n (x / 2),
        half_mod (2 ^ n) x (one-le-pow n 2 (omega arith)),
        mod_even (2 ^ n) x,
      ))
  where
    half_mask : (n : ℕ) → (mask n * 2 + 1) / 2 ≡ mask n
    half_mask n = omega arith

-- A bit above the others adds up.
pub bit-bit_or : (n x : ℕ) → x < 2 ^ n → bit_or (2 ^ n) x ≡ 2 ^ n + x
bit-bit_or zero x lt = let none : x ≡ 0 = omega arith in rw none (or_zero 1)
bit-bit_or (suc n) x lt = omega (
  arith,
  or_step (2 ^ suc n) x,
  ap (λ k. bit_or k (x / 2)) (half_pow n),
  bit-bit_or n (x / 2) (omega arith),
)
