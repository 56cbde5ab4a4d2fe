-- ===== src/Prelude/Result.antt =====
-- `Result<T, E>`, with the `?` operator as bind.
use mathlib.Core.Path.{◌≡◌, refl, ap}
use mathlib.Core.Option.{Option, none, some}

pub data Result {ε τ} (E : Type ε) (T : Type τ) : Type (ε ⊔ τ) where
  err : E → Result E T
  ok : T → Result E T

module _ {ε τ υ} {E : Type ε} {T : Type τ} {U : Type υ} where
  infixl 5 ◌>>=◌
  abbrev pub ◌>>=◌ : Result E T → (T → Result E U) → Result E U
  err why >>= next = err why
  ok t >>= next = next t

  -- A chain that succeeds has succeeded at its first step.
  pub >>=-eq-ok :
      {u : U} (r : Result E T) (next : T → Result E U)
      → r >>= next ≡ ok u
      → (t : T) × (r ≡ ok t) × (next t ≡ ok u)
  >>=-eq-ok (err why) next q = cc
  >>=-eq-ok (ok t) next q = (t, refl, q)

module _ {ε τ} {E : Type ε} {T : Type τ} where
  abbrev or_else : T → Result E T → T
  or_else t (err why) = t
  or_else t (ok u) = u

  pub ok-injective : (t u : T) → Path (Result E T) (ok t) (ok u) → t ≡ u
  ok-injective t u e = ap (or_else t) e

module _ {ε υ} {E : Type ε} {U : Type υ} where
  infixl 5 ◌>>◌
  abbrev pub ◌>>◌ : Result E (Unit {0}) → Result E U → Result E U
  done >> next = done >>= λ _. next

-- `ok_or`
abbrev pub ok_or {ε τ} : {E : Type ε} {T : Type τ} → E → Option T → Result E T
ok_or e none = err e
ok_or e (some t) = ok t
