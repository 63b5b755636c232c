-- ===== src/Base/Set.antt =====
-- `std::collections::HashSet` of numbers: a list without repetition.
use Prim.Native.Nat.{ℕ}
use mathlib.Core.Path.{◌≡◌}
use mathlib.Core.Bool.{Bool, true, false, ◌||◌, ◌&&◌, not}
use mathlib.Core.List.{List, [], ◌∷◌}
use native.Mathlib.Omega.{arith}
use rsbtd.Base.Tests.{◌==◌, if◌then◌else◌}

unfoldable pub contains : ℕ → List ℕ → Bool
contains a [] = false
contains a (x ∷ xs) = a == x || contains a xs

unfoldable pub insert : ℕ → List ℕ → List ℕ
insert a xs = if contains a xs then xs else a ∷ xs

unfoldable pub remove : ℕ → List ℕ → List ℕ
remove a [] = []
remove a (x ∷ xs) = let rest = remove a xs in if a == x then rest else x ∷ rest

pub contains-insert : (a b : ℕ) (xs : List ℕ) → contains b (insert a xs) ≡ (a == b || contains b xs)
unfolding contains insert
contains-insert a b xs = ground (arith, contains-eq a b xs)
  where
    contains-eq : (a b : ℕ) (xs : List ℕ) → a ≡ b → contains a xs ≡ contains b xs
    contains-eq a b xs e = cc

pub contains-remove :
    (a b : ℕ) (xs : List ℕ) → contains b (remove a xs) ≡ (not (a == b) && contains b xs)
unfolding contains remove
contains-remove a b [] = ground arith
contains-remove a b (x ∷ xs) = ground (arith, contains-remove a b xs)

pub contains-insert_self : (a : ℕ) (xs : List ℕ) → contains a (insert a xs) ≡ true
contains-insert_self a xs = ground (arith, contains-insert a a xs)

pub contains-remove_self : (a : ℕ) (xs : List ℕ) → contains a (remove a xs) ≡ false
contains-remove_self a xs = ground (arith, contains-remove a a xs)
