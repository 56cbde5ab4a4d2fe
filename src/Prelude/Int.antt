-- ===== src/Prelude/Int.antt =====
-- `i32` values: the integers, `negsuc n` being -(n + 1).
use Prim.Native.Nat.{ℕ, zero, suc, ◌+◌, ◌-◌, ◌≤◌}
use mathlib.Core.Path.{◌≡◌, refl}
use mathlib.Core.Logic.{◌↔◌}
use mathlib.Core.Bool.{Bool, true, false, ◌&&◌}
use mathlib.Core.List.{List, [], ◌∷◌}
use native.Mathlib.Omega.{arith}
use nebula_rs.Prelude.Tests.{nat_beq, leb, ltb}
use nebula_rs.Prelude.Equality.{PartialEq, contains}

pub data ℤ : Type 0 where
  pos : ℕ → ℤ
  negsuc : ℕ → ℤ

abbrev pub int_beq : ℤ → ℤ → Bool
int_beq (pos a) (pos b) = nat_beq a b
int_beq (pos a) (negsuc b) = false
int_beq (negsuc a) (pos b) = false
int_beq (negsuc a) (negsuc b) = nat_beq a b

pub int_beq_iff : (a b : ℤ) → (int_beq a b ≡ true) ↔ (a ≡ b)
int_beq_iff (pos a) (pos b) = ground arith
int_beq_iff (pos a) (negsuc b) = ground arith
int_beq_iff (negsuc a) (pos b) = ground arith
int_beq_iff (negsuc a) (negsuc b) = ground arith

instance abbrev pub int_eq : PartialEq ℤ
int_eq = record { test = int_beq; test_iff = int_beq_iff }

infix 4 ◌≤ℤ◌
abbrev pub ◌≤ℤ◌ : ℤ → ℤ → Type 0
pos m ≤ℤ pos n = m ≤ n
pos m ≤ℤ negsuc n = ⊥
negsuc m ≤ℤ pos n = Unit
negsuc m ≤ℤ negsuc n = n ≤ m

abbrev pub int_succ : ℤ → ℤ
int_succ (pos n) = pos (n + 1)
int_succ (negsuc zero) = pos 0
int_succ (negsuc (suc n)) = negsuc n

-- The number of values of `a..=b`.
abbrev pub span : ℤ → ℤ → ℕ
span (pos a) (pos b) = b + 1 - a
span (pos a) (negsuc b) = 0
span (negsuc a) (pos b) = a + b + 2
span (negsuc a) (negsuc b) = a + 1 - b

unfoldable pub count_up : ℕ → ℤ → List ℤ
count_up zero p = []
count_up (suc n) p = p ∷ count_up n (int_succ p)

-- The values of `a..=b`, in order.
abbrev pub inclusive : ℤ → ℤ → List ℤ
inclusive a b = count_up (span a b) a

count_up-pos : (n a q : ℕ) → contains (count_up n (pos a)) (pos q) ≡ leb a q && ltb q (a + n)
unfolding count_up
count_up-pos zero a q = ground arith
count_up-pos (suc n) a q = ground (arith, count_up-pos n (a + 1) q)

count_up-negsuc : (n a q : ℕ) → contains (count_up n (pos a)) (negsuc q) ≡ false
unfolding count_up
count_up-negsuc zero a q = refl
count_up-negsuc (suc n) a q = ground (arith, count_up-negsuc n (a + 1) q)

-- Between ports, `a..=b` holds the numbers from `a` to `b` and nothing negative.
pub inclusive-pos : (a b q : ℕ) → contains (inclusive (pos a) (pos b)) (pos q) ≡ leb a q && leb q b
inclusive-pos a b q = ground (arith, count_up-pos (b + 1 - a) a q)

pub inclusive-negsuc : (a b q : ℕ) → contains (inclusive (pos a) (pos b)) (negsuc q) ≡ false
inclusive-negsuc a b q = count_up-negsuc (b + 1 - a) a q
