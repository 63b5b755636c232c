-- ===== src/Base/Map.antt =====
-- `std::collections::HashMap` with numbers as keys: an association list. `insert` replaces the
-- value of a key that is there; the order of `values` is the insertion order, one of the orders
-- that the hash map may show.
use Prim.Native.Nat.{ℕ}
use mathlib.Core.Path.{◌≡◌, refl}
use mathlib.Core.List.{List, [], ◌∷◌}
use mathlib.Core.Option.{Option, none, some}
use native.Mathlib.Omega.{arith}
use rsbtd.Base.Tests.{◌==◌, if◌then◌else◌}

abbrev pub Map {ℓ} : Type ℓ → Type ℓ
Map V = List (ℕ × V)

module _ {ℓ} {V : Type ℓ} where
  unfoldable pub get : ℕ → Map V → Option V
  get k [] = none
  get k ((j, v) ∷ m) = if j == k then some v else get k m

  unfoldable pub insert : ℕ → V → Map V → Map V
  insert k v [] = (k, v) ∷ []
  insert k v ((j, w) ∷ m) = if j == k then (k, v) ∷ m else (j, w) ∷ insert k v m

  unfoldable pub remove : ℕ → Map V → Map V
  remove k [] = []
  remove k ((j, w) ∷ m) = let rest = remove k m in if j == k then rest else (j, w) ∷ rest

  unfoldable pub values : Map V → List V
  values [] = []
  values ((j, v) ∷ m) = v ∷ values m

  pub get-insert :
      (k j : ℕ) (v : V) (m : Map V) → get j (insert k v m) ≡ (if k == j then some v else get j m)
  unfolding get insert
  get-insert k j v [] = refl
  get-insert k j v ((i, w) ∷ m) = ground (arith, get-insert k j v m)

  pub get-remove : (k j : ℕ) (m : Map V) → get j (remove k m) ≡ (if k == j then none else get j m)
  unfolding get remove
  get-remove k j [] = ground arith
  get-remove k j ((i, w) ∷ m) = ground (arith, get-remove k j m)

  -- `retain` with a closure that may change what it keeps: `none` drops the entry.
  unfoldable pub retain : (V → Option V) → Map V → Map V
  retain f [] = []
  retain f ((j, v) ∷ m) =
      let rest = retain f m in elim (f v) [ none ↦ rest | some w ↦ (j, w) ∷ rest ]

  -- A loop over `values_mut`.
  unfoldable pub update_values : (V → V) → Map V → Map V
  update_values f [] = []
  update_values f ((j, v) ∷ m) = (j, f v) ∷ update_values f m

  -- No key stands twice.
  abbrev pub Distinct : Map V → Type ℓ
  Distinct [] = Unit
  Distinct ((j, v) ∷ m) = (get j m ≡ none) × Distinct m

  get-retain-none :
      (f : V → Option V) (k : ℕ) (m : Map V) → get k m ≡ none → get k (retain f m) ≡ none
  unfolding get retain
  get-retain-none f k [] h = h
  get-retain-none f k ((j, v) ∷ m) h = ground (arith, get-retain-none f k m)

  pub get-retain :
      (f : V → Option V) (k : ℕ) (m : Map V)
      → Distinct m
      → get k (retain f m) ≡ elim (get k m) [ none ↦ none | some v ↦ f v ]
  unfolding get retain
  get-retain f k [] d = refl
  get-retain f k ((j, v) ∷ m) (n, d) = ground (arith, get-retain f k m d, get-retain-none f j m n)

  pub get-update_values :
      (f : V → V) (k : ℕ) (m : Map V)
      → get k (update_values f m) ≡ elim (get k m) [ none ↦ none | some v ↦ some (f v) ]
  unfolding get update_values
  get-update_values f k [] = refl
  get-update_values f k ((j, v) ∷ m) = ground (arith, get-update_values f k m)

  pub retain-Distinct : (f : V → Option V) (m : Map V) → Distinct m → Distinct (retain f m)
  unfolding retain
  retain-Distinct f [] d = tt
  retain-Distinct f ((j, v) ∷ m) (n, d) =
      ground (arith, retain-Distinct f m d, get-retain-none f j m n)

  pub update_values-Distinct : (f : V → V) (m : Map V) → Distinct m → Distinct (update_values f m)
  unfolding update_values
  update_values-Distinct f [] d = tt
  update_values-Distinct f ((j, v) ∷ m) (n, d) =
      (ground (arith, get-update_values f j m), update_values-Distinct f m d)

  pub insert-Distinct : (k : ℕ) (v : V) (m : Map V) → Distinct m → Distinct (insert k v m)
  unfolding get insert
  insert-Distinct k v [] d = ground arith
  insert-Distinct k v ((j, w) ∷ m) (n, d) =
      ground (arith, insert-Distinct k v m d, get-insert k j v m)
