-- ===== src/Prelude/Equality.antt =====
-- `PartialEq` as an interface: a Boolean test that decides equality.
use Prim.Native.Nat.{ℕ}
use Prim.Native.String.{String}
use mathlib.Core.Path.{◌≡◌, refl}
use mathlib.Core.Logic.{◌↔◌}
use mathlib.Core.Bool.{Bool, true}
use mathlib.Core.List.{List}
use text.Mathlib.Text.{◌==◌ as string_beq}
use text.Mathlib.TextEquality.{eq_iff}
use nebula_rs.Prelude.Tests.{nat_beq, nat_beq_iff}
use nebula_rs.Prelude.Lists.{any}

pub record PartialEq {κ} (K : Type κ) : Type κ where
  pub test : K → K → Bool
  pub test_iff : (x y : K) → (test x y ≡ true) ↔ (x ≡ y)

instance abbrev pub string_eq : PartialEq String
string_eq = record { test = string_beq; test_iff = eq_iff }

instance abbrev pub nat_eq : PartialEq ℕ
nat_eq = record { test = nat_beq; test_iff = nat_beq_iff }

module _ {κ} {K : Type κ} ⦃d : PartialEq K⦄ where
  infix 50 ◌==◌
  abbrev pub ◌==◌ : K → K → Bool
  x == y = d.test x y

  pub ==_iff : (x y : K) → ((x == y) ≡ true) ↔ (x ≡ y)
  ==_iff x y = d.test_iff x y

  pub ==_refl : (x : K) → x == x ≡ true
  ==_refl x = (d.test_iff x x).1 refl

  -- `contains` of a set or a slice.
  abbrev pub contains : List K → K → Bool
  contains ks k = any (λ x. x == k) ks
