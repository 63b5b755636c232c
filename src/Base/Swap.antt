-- ===== src/Base/Swap.antt =====
-- `Vec::swap_remove` takes out one element and keeps the others.
use Prim.Native.Nat.{ℕ, zero, suc}
use mathlib.Core.Path.{◌≡◌, refl, ap, subst}
use mathlib.Core.Logic.{◌⊎◌, inl, inr}
use mathlib.Core.List.{List, [], ◌∷◌, Perm}
use mathlib.Core.List.Perm
use mathlib.Core.Option.{some}
use rsbtd.Base.Lists.{get_elem?, set, last_of, init_of, swap_remove}

module _ {ℓ} {A : Type ℓ} where
  some_injective : {x y : A} → some x ≡ some y → x ≡ y
  some_injective h = cc

  set-perm :
      (xs : List A) (i : ℕ) (y v : A) → get_elem? xs i ≡ some y → Perm (v ∷ xs) (y ∷ set xs i v)
  set-perm [] i y v h = absurd (cc)
  set-perm (x ∷ xs) zero y v h =
      subst (λ z. Perm (v ∷ x ∷ xs) (z ∷ v ∷ xs)) (some_injective h) (Perm.swap x v xs)
  set-perm (x ∷ xs) (suc i) y v h =
      Perm.trans (Perm.swap x v xs)
        (Perm.trans (Perm.cons x (set-perm xs i y v h)) (Perm.swap y x (set xs i v)))

  last-perm : (x : A) (xs : List A) → Perm (x ∷ xs) (last_of x xs ∷ init_of x xs)
  last-perm x [] = Perm.refl (x ∷ [])
  last-perm x (y ∷ ys) =
      Perm.trans (Perm.cons x (last-perm y ys)) (Perm.swap (last_of y ys) x (init_of y ys))

  init_or_last :
      (x : A) (xs : List A) (i : ℕ) (y v : A)
      → get_elem? (x ∷ xs) i ≡ some y
      → (get_elem? (init_of x xs) i ≡ some y)
        ⊎ ((last_of x xs ≡ y) × (set (init_of x xs) i v ≡ init_of x xs))
  init_or_last x [] zero y v h = inr (some_injective h, refl)
  init_or_last x [] (suc i) y v h = absurd (cc)
  init_or_last x (z ∷ zs) zero y v h = inl h
  init_or_last x (z ∷ zs) (suc i) y v h = elim (init_or_last z zs i y v h) [
    | inl a ↦ inl a
    | inr (a, b) ↦ inr (a, ap (◌∷◌ x) b)
  ]

  pub swap_remove-perm :
      (xs : List A) (i : ℕ) (y : A) → get_elem? xs i ≡ some y → Perm xs (y ∷ swap_remove xs i)
  swap_remove-perm [] i y h = absurd (cc)
  swap_remove-perm (x ∷ xs) i y h = elim (init_or_last x xs i y (last_of x xs) h) [
    | inl a ↦ Perm.trans (last-perm x xs) (set-perm (init_of x xs) i y (last_of x xs) a)
    | inr (a, b) ↦ rw b (subst (λ z. Perm (x ∷ xs) (z ∷ init_of x xs)) a (last-perm x xs))
  ]
