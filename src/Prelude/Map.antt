-- ===== src/Prelude/Map.antt =====
-- `std::collections::HashMap` as an association list: what `get`, `insert`, `remove` and
-- `entry(k).or_default()` promise, whatever the iteration order is.
use mathlib.Core.Path.{◌≡◌, refl, sym, ◌∙◌}
use mathlib.Core.Logic.{◌≢◌, ◌⊎◌, inl, inr}
use mathlib.Core.Option.{Option, none, some, some-injective}
use mathlib.Core.List.{List, [], ◌∷◌}
use native.Mathlib.Omega.{arith}
use nebula_rs.Prelude.Tests.{if◌then◌else◌, Bool-cases}
use nebula_rs.Prelude.Equality.{PartialEq, ◌==◌, ==_iff, ==_refl}

abbrev pub HashMap {ℓ κ} : Type ℓ → Type κ → Type (ℓ ⊔ κ)
HashMap K V = List (K × V)

abbrev pub unwrap_or {ℓ} : {A : Type ℓ} → Option A → A → A
unwrap_or none d = d
unwrap_or (some a) d = a

module _ {ℓ κ} {K : Type ℓ} {V : Type κ} ⦃e : PartialEq K⦄ where
  unfoldable pub get : K → HashMap K V → Option V
  get k [] = none
  get k (x ∷ m) = if x.0 == k then some x.1 else get k m

  unfoldable pub insert : K → V → HashMap K V → HashMap K V
  insert k v [] = (k, v) ∷ []
  insert k v (x ∷ m) = if x.0 == k then (k, v) ∷ m else x ∷ insert k v m

  unfoldable pub remove : K → HashMap K V → HashMap K V
  remove k [] = []
  remove k (x ∷ m) = let rest = remove k m in if x.0 == k then rest else x ∷ rest

  -- `f(m.entry(k).or_insert(d))`, where `f` writes through the reference.
  unfoldable pub update_entry : K → V → (V → V) → HashMap K V → HashMap K V
  update_entry k d f m = insert k (f (unwrap_or (get k m) d)) m

  pub get-insert :
      (k j : K) (v : V) (m : HashMap K V)
      → get j (insert k v m) ≡ (if k == j then some v else get j m)
  unfolding get insert
  get-insert k j v [] = refl
  get-insert k j v (x ∷ m) =
      ground (arith, ==_iff k j, ==_iff x.0 k, ==_iff x.0 j, get-insert k j v m)

  pub get-remove :
      (k j : K) (m : HashMap K V) → get j (remove k m) ≡ (if k == j then none else get j m)
  unfolding get remove
  get-remove k j [] = ground arith
  get-remove k j (x ∷ m) = ground (arith, ==_iff k j, ==_iff x.0 k, ==_iff x.0 j, get-remove k j m)

  pub get-update_entry :
      (k j : K) (d : V) (f : V → V) (m : HashMap K V)
      → get j (update_entry k d f m)
        ≡ (if k == j then some (f (unwrap_or (get k m) d)) else get j m)
  unfolding update_entry
  get-update_entry k j d f m = get-insert k j (f (unwrap_or (get k m) d)) m

  -- A lookup after an insertion or a removal, for the same key and for another.
  pub insert_same : (k : K) (v : V) (m : HashMap K V) → get k (insert k v m) ≡ some v
  insert_same k v m = get-insert k k v m ∙ rw (==_refl k) refl

  pub insert_other : (k j : K) (v : V) (m : HashMap K V) → k ≢ j → get j (insert k v m) ≡ get j m
  insert_other k j v m ne = get-insert k j v m ∙ ground (arith, ==_iff k j, ne)

  pub remove_other : (k j : K) (m : HashMap K V) → k ≢ j → get j (remove k m) ≡ get j m
  remove_other k j m ne = get-remove k j m ∙ ground (arith, ==_iff k j, ne)

  pub remove_same : (k : K) (m : HashMap K V) → get k (remove k m) ≡ none
  remove_same k m = get-remove k k m ∙ rw (==_refl k) refl

  -- What a key that is found stands for after an insertion.
  pub insert_found :
      (k j : K) (v w : V) (m : HashMap K V)
      → get j (insert k v m) ≡ some w
      → ((k ≡ j) × (v ≡ w)) ⊎ ((k ≢ j) × (get j m ≡ some w))
  insert_found k j v w m h = elim (Bool-cases (k == j)) [
    | inl same ↦
        let found = rw same at (sym (get-insert k j v m) ∙ h) in
        inl ((==_iff k j).0 same, some-injective v w found)
    | inr other ↦
        let found = rw other at (sym (get-insert k j v m) ∙ h) in
        inr (ground (arith, ==_iff k j, other), found)
  ]
