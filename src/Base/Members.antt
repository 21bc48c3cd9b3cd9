-- ===== src/Base/Members.antt =====
-- Membership in a list, through sorting and cutting.
use Prim.Native.Nat.{ℕ, zero, suc}
use mathlib.Core.Path.{◌≡◌, refl, subst}
use mathlib.Core.Logic.{◌⊎◌, inl, inr}
use mathlib.Core.Bool.{Bool, false}
use mathlib.Core.List.{List, [], ◌∷◌}
use native.Mathlib.Omega.{arith}
use howlinux.Base.Tests.{Bool-cases}
use howlinux.Base.Lists.{All, length, take}
use howlinux.Base.Sort.{insert_sorted, sort_by, IsSorted}

pub data IsIn {ℓ} {A : Type ℓ} (x : A) : List A → Type ℓ where
  here : {xs : List A} → IsIn x (x ∷ xs)
  there : {y : A} {xs : List A} → IsIn x xs → IsIn x (y ∷ xs)

module _ {ℓ} {A : Type ℓ} where
  IsIn-All {κ} : (P : A → Type κ) (x : A) {xs : List A} → IsIn x xs → All P xs → P x
  IsIn-All P x here (p, h) = p
  IsIn-All P x (there i) (p, h) = IsIn-All P x i h

  IsIn-cases : {x y : A} {xs : List A} → IsIn x (y ∷ xs) → (x ≡ y) ⊎ IsIn x xs
  IsIn-cases here = inl refl
  IsIn-cases (there i) = inr i

  IsIn-nil : {x : A} → IsIn x [] → ⊥
  IsIn-nil i = elim i [ ]

  module _ (less : A → A → Bool) where
    insert_sorted-here : (x : A) (ys : List A) → IsIn x (insert_sorted less x ys)
    unfolding insert_sorted
    insert_sorted-here x [] = here
    insert_sorted-here x (y ∷ ys) = elim (Bool-cases (less y x)) [
      | inl e ↦ rw e (there (insert_sorted-here x ys))
      | inr e ↦ rw e here
    ]

    insert_sorted-there : (z x : A) {ys : List A} → IsIn z ys → IsIn z (insert_sorted less x ys)
    unfolding insert_sorted
    insert_sorted-there z x (here {xs = ys}) = elim (Bool-cases (less z x)) [
      | inl e ↦ rw e here
      | inr e ↦ rw e (there here)
    ]
    insert_sorted-there z x (there {y} {xs = ys} i) = elim (Bool-cases (less y x)) [
      | inl e ↦ rw e (there (insert_sorted-there z x i))
      | inr e ↦ rw e (there (there i))
    ]

    pub sort_by-IsIn : (z : A) {xs : List A} → IsIn z xs → IsIn z (sort_by less xs)
    unfolding sort_by
    sort_by-IsIn z (here {xs}) = insert_sorted-here z (sort_by less xs)
    sort_by-IsIn z (there {y} {xs} i) = insert_sorted-there z y (sort_by-IsIn z i)

    -- What a cut of a sorted list leaves out comes before nothing that it keeps, and the cut is full.
    pub take-best :
        (n : ℕ) (x : A) (xs : List A)
        → IsSorted less xs
        → IsIn x xs
        → IsIn x (take n xs) ⊎ ((length (take n xs) ≡ n) × All (λ s. less x s ≡ false) (take n xs))
    take-best zero x xs s i = inr (refl, tt)
    take-best (suc n) x [] s i = absurd (IsIn-nil i)
    take-best (suc n) x (y ∷ xs) (above, s) i = elim (IsIn-cases i) [
      | inl same ↦ inl (subst (λ z. IsIn x (z ∷ take n xs)) same here)
      | inr rest ↦ elim (take-best n x xs s rest) [
        | inl kept ↦ inl (there kept)
        | inr (full, best) ↦
            inr (omega (arith, full), (IsIn-All (λ z. less z y ≡ false) x rest above, best))
      ]
    ]
