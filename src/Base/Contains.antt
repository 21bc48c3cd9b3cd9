-- ===== src/Base/Contains.antt =====
-- `contains` of a container of strings, through sorting and appending.
use mathlib.Core.Path.{◌≡◌, refl, ◌∙◌, sym, subst}
use mathlib.Core.Bool.{true, false, ◌||◌}
use mathlib.Core.Logic.{inl, inr}
use mathlib.Core.List.{List, [], ◌∷◌, ◌++◌}
use native.Mathlib.Omega.{arith}
use howlinux.Base.Tests.{Bool-cases}
use howlinux.Base.Lists.{All, All-map, any}
use howlinux.Base.Text.{Bytes, beq, beq_iff, beq_refl, blt, contains}
use howlinux.Base.Sort.{sort_by, any-sort_by}

contains-any : (xs : List Bytes) (t : Bytes) → contains xs t ≡ any (λ x. beq x t) xs
unfolding contains
contains-any [] t = refl
contains-any (x ∷ xs) t = ground (arith, contains-any xs t)

pub contains-sort_by : (xs : List Bytes) (t : Bytes) → contains (sort_by blt xs) t ≡ contains xs t
contains-sort_by xs t =
    contains-any (sort_by blt xs) t ∙ any-sort_by blt (λ x. beq x t) xs ∙ sym (contains-any xs t)

pub contains-append :
    (xs ys : List Bytes) (t : Bytes) → contains (xs ++ ys) t ≡ (contains xs t || contains ys t)
unfolding contains
contains-append [] ys t = refl
contains-append (x ∷ xs) ys t = ground (arith, contains-append xs ys t)

pub All-contains {κ} :
    (P : Bytes → Type κ) (xs : List Bytes) (t : Bytes) → All P xs → contains xs t ≡ true → P t
unfolding contains
All-contains P [] t h k = cc
All-contains P (x ∷ xs) t (p, h) k = elim (Bool-cases (beq x t)) [
  | inl e ↦ subst P ((beq_iff x t).0 e) p
  | inr e ↦ All-contains P xs t h (ground (arith, k, e))
]

pub All-contained : (xs : List Bytes) → All (λ x. contains xs x ≡ true) xs
unfolding contains
All-contained [] = tt
All-contained (x ∷ xs) =
    (ground (arith, beq_refl x), All-map (λ y h. ground (arith, h)) xs (All-contained xs))

-- No text stands twice, or is among those seen.
abbrev pub IsFresh : List Bytes → List Bytes → Type 0
IsFresh seen [] = Unit
IsFresh seen (t ∷ ts) = (contains seen t ≡ false) × IsFresh (t ∷ seen) ts

-- The texts that are seen behind these.
abbrev pub pushed : List Bytes → List Bytes → List Bytes
pushed seen [] = seen
pushed seen (t ∷ ts) = pushed (t ∷ seen) ts

pub IsFresh-append :
    (seen xs ys : List Bytes)
    → IsFresh seen xs
    → IsFresh (pushed seen xs) ys
    → IsFresh seen (xs ++ ys)
IsFresh-append seen [] ys h k = k
IsFresh-append seen (x ∷ xs) ys (new, h) k = (new, IsFresh-append (x ∷ seen) xs ys h k)
