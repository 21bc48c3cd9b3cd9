-- ===== src/Base/Sort.antt =====
-- `std::sort` with a comparison: insertion, which leaves the order of equivalent elements open to
-- no other result where the comparison is total.
use mathlib.Core.Path.{◌≡◌, refl}
use mathlib.Core.Bool.{Bool, true, false, ◌||◌}
use mathlib.Core.Logic.{inl, inr}
use mathlib.Core.List.{List, [], ◌∷◌}
use native.Mathlib.Omega.{arith}
use howlinux.Base.Tests.{if◌then◌else◌, Bool-cases}
use howlinux.Base.Lists.{All, All-map, any, length}

module _ {ℓ} {A : Type ℓ} (less : A → A → Bool) where
  unfoldable pub insert_sorted : A → List A → List A
  insert_sorted x [] = x ∷ []
  insert_sorted x (y ∷ ys) =
      let rest = y ∷ insert_sorted x ys in if less y x then rest else x ∷ y ∷ ys

  unfoldable pub sort_by : List A → List A
  unfolding insert_sorted
  sort_by [] = []
  sort_by (x ∷ xs) = insert_sorted x (sort_by xs)

  -- What `std::sort` asks of its comparison.
  pub record IsStrictWeak : Type ℓ where
    pub asym : (x y : A) → less x y ≡ true → less y x ≡ false
    pub neg_trans : (x y z : A) → less y x ≡ false → less z y ≡ false → less z x ≡ false

  -- Nothing stands behind an element that it should stand before.
  abbrev pub IsSorted : List A → Type 0
  IsSorted [] = Unit
  IsSorted (x ∷ xs) = All (λ y. less y x ≡ false) xs × IsSorted xs

  pub insert_sorted-above {κ} :
      (P : A → Type κ) (x : A) (ys : List A) → P x → All P ys → All P (insert_sorted x ys)
  unfolding insert_sorted
  insert_sorted-above P x [] p h = (p, tt)
  insert_sorted-above P x (y ∷ ys) p (q, h) = elim (Bool-cases (less y x)) [
    | inl e ↦ rw e (q, insert_sorted-above P x ys p h)
    | inr e ↦ rw e (p, (q, h))
  ]

  insert_sorted-IsSorted :
      IsStrictWeak → (x : A) (ys : List A) → IsSorted ys → IsSorted (insert_sorted x ys)
  unfolding insert_sorted
  insert_sorted-IsSorted w x [] h = (tt, tt)
  insert_sorted-IsSorted w x (y ∷ ys) (above, h) = elim (Bool-cases (less y x)) [
    | inl e ↦ rw e (
      insert_sorted-above (λ z. less z y ≡ false) x ys (w.asym y x e) above,
      insert_sorted-IsSorted w x ys h,
    )
    | inr e ↦ rw e ((e, All-map (λ z k. w.neg_trans x y z e k) ys above), (above, h))
  ]

  -- Sorting keeps what holds of every element, and sorts.
  pub sort_by-All {κ} : (P : A → Type κ) (xs : List A) → All P xs → All P (sort_by xs)
  unfolding sort_by
  sort_by-All P [] h = tt
  sort_by-All P (x ∷ xs) (p, h) = insert_sorted-above P x (sort_by xs) p (sort_by-All P xs h)

  pub sort_by-IsSorted : IsStrictWeak → (xs : List A) → IsSorted (sort_by xs)
  unfolding sort_by
  sort_by-IsSorted w [] = tt
  sort_by-IsSorted w (x ∷ xs) = insert_sorted-IsSorted w x (sort_by xs) (sort_by-IsSorted w xs)

  any-insert_sorted :
      (p : A → Bool) (x : A) (ys : List A) → any p (insert_sorted x ys) ≡ (p x || any p ys)
  unfolding insert_sorted
  any-insert_sorted p x [] = refl
  any-insert_sorted p x (y ∷ ys) = ground (arith, any-insert_sorted p x ys)

  pub any-sort_by : (p : A → Bool) (xs : List A) → any p (sort_by xs) ≡ any p xs
  unfolding sort_by
  any-sort_by p [] = refl
  any-sort_by p (x ∷ xs) = ground (arith, any-insert_sorted p x (sort_by xs), any-sort_by p xs)

  length-insert_sorted : (x : A) (ys : List A) → length (insert_sorted x ys) ≡ length (x ∷ ys)
  unfolding insert_sorted
  length-insert_sorted x [] = refl
  length-insert_sorted x (y ∷ ys) = ground (arith, length-insert_sorted x ys)

  pub length-sort_by : (xs : List A) → length (sort_by xs) ≡ length xs
  unfolding sort_by
  length-sort_by [] = refl
  length-sort_by (x ∷ xs) = omega (arith, length-insert_sorted x (sort_by xs), length-sort_by xs)
