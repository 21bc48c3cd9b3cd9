-- ===== src/Base/Multimap.antt =====
-- Maps from keys to vectors, as `map[key].push_back(value)` builds them.
use mathlib.Core.Path.{◌≡◌, refl}
use mathlib.Core.Bool.{Bool, true, false, ◌||◌}
use mathlib.Core.List.{List, [], ◌∷◌, ◌++◌}
use native.Mathlib.Omega.{arith}
use howlinux.Base.Tests.{if◌then◌else◌}

module _ {ℓ κ} {K : Type ℓ} {V : Type κ} (same : K → K → Bool) where
  unfoldable pub has_key : List (K × List V) → K → Bool
  has_key [] key = false
  has_key ((k, vs) ∷ entries) key = same k key || has_key entries key

  -- The values at a key; none where the key is missing.
  unfoldable pub values_at : List (K × List V) → K → List V
  values_at [] key = []
  values_at ((k, vs) ∷ entries) key = if same k key then vs else values_at entries key

  unfoldable pub push_back : List (K × List V) → K → V → List (K × List V)
  push_back [] key value = (key, value ∷ []) ∷ []
  push_back ((k, vs) ∷ entries) key value =
      let rest = (k, vs) ∷ push_back entries key value in
      if same k key then (k, vs ++ value ∷ []) ∷ entries else rest

-- A test of keys that takes no two different keys for the same.
pub record IsKeyTest {ℓ} {K : Type ℓ} (same : K → K → Bool) : Type ℓ where
  pub same_eq : (a b : K) → same a b ≡ true → a ≡ b
  pub same_refl : (a : K) → same a a ≡ true

module _ {ℓ κ} {K : Type ℓ} {V : Type κ} (same : K → K → Bool) (test : IsKeyTest same) where
  -- One more value at its key, and the others as they were.
  pub values_at-push_back :
      (entries : List (K × List V)) (key : K) (value : V) (k : K)
      → values_at same (push_back same entries key value) k
        ≡ (if same key k then values_at same entries k ++ value ∷ [] else values_at same entries k)
  unfolding values_at push_back
  values_at-push_back [] key value k = refl
  values_at-push_back ((j, vs) ∷ entries) key value k = ground (
    arith,
    test.same_eq j key,
    test.same_eq key k,
    test.same_eq j k,
    test.same_refl key,
    values_at-push_back entries key value k,
  )

  pub has_key-push_back :
      (entries : List (K × List V)) (key : K) (value : V) (k : K)
      → has_key same (push_back same entries key value) k ≡ (has_key same entries k || same key k)
  unfolding has_key push_back
  has_key-push_back [] key value k = ground arith
  has_key-push_back ((j, vs) ∷ entries) key value k =
      ground (arith, test.same_eq j key, has_key-push_back entries key value k)

  -- A key that is missing has no values.
  pub values_at-missing :
      (entries : List (K × List V)) (key : K)
      → has_key same entries key ≡ false
      → values_at same entries key ≡ []
  unfolding has_key values_at
  values_at-missing [] key h = refl
  values_at-missing ((j, vs) ∷ entries) key h = ground (arith, values_at-missing entries key)
