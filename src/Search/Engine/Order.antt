-- ===== src/Search/Engine/Order.antt =====
-- The comparison of results in `SearchEngine::search` of src/search.cpp is one that `std::sort` can use.
use howlinux.Base.{
  ℕ, zero, suc, Bool, false, not, List, [], ◌∷◌, ◌≡◌, arith, if◌then◌else◌, blt, blt_asym,
  blt_neg_trans, take, All,
}
use howlinux.Base.Sort.{IsStrictWeak, IsSorted}
use howlinux.Search.Doubles.{Doubles, IsOrdered}
use howlinux.Search.Score.{SearchResult, exact_and_phrase}
use howlinux.Search.Engine.{result_before}

module _ {A : Type 0} (less : A → A → Bool) where
  pub take-All : (P : A → Type 0) (n : ℕ) (xs : List A) → All P xs → All P (take n xs)
  take-All P zero xs h = tt
  take-All P (suc n) [] h = tt
  take-All P (suc n) (x ∷ xs) (p, h) = (p, take-All P n xs h)

  pub take-IsSorted : (n : ℕ) (xs : List A) → IsSorted less xs → IsSorted less (take n xs)
  take-IsSorted zero xs h = tt
  take-IsSorted (suc n) [] h = tt
  take-IsSorted (suc n) (x ∷ xs) (above, h) =
      (take-All (λ y. less y x ≡ false) n xs above, take-IsSorted n xs h)

module _ (N : Doubles) (o : IsOrdered N) where
  -- The greater key first, and the other comparison where the keys are the same.
  abbrev greater_first : {A : Type 0} → (A → N.Double) → (A → A → Bool) → A → A → Bool
  greater_first key rest left right =
      if not (N.same (key left) (key right)) then N.less (key right) (key left) else rest left right

  greater_first-IsStrictWeak :
      {A : Type 0} (key : A → N.Double) (rest : A → A → Bool)
      → IsStrictWeak rest
      → IsStrictWeak (greater_first key rest)
  greater_first-IsStrictWeak key rest w = record {
    asym = λ x y h. ground (
      arith,
      o.asym (key y) (key x),
      o.same_iff (key x) (key y),
      o.same_iff (key y) (key x),
      w.asym x y,
    );
    neg_trans = λ x y z h k. ground (
      arith,
      o.same_iff (key y) (key x),
      o.same_iff (key z) (key y),
      o.same_iff (key z) (key x),
      o.neg_trans (key x) (key y) (key z),
      o.neg_trans (key z) (key y) (key x),
      o.neg_trans (key y) (key x) (key z),
      o.neg_trans (key x) (key z) (key y),
      o.neg_trans (key z) (key x) (key y),
      o.neg_trans (key y) (key z) (key x),
      w.neg_trans x y z,
    );
  }

  id-IsStrictWeak : IsStrictWeak (λ (left right : SearchResult N). blt left.entry.id right.entry.id)
  id-IsStrictWeak = record {
    asym = λ x y. blt_asym x.entry.id y.entry.id;
    neg_trans = λ x y z. blt_neg_trans x.entry.id y.entry.id z.entry.id;
  }

  pub result_before-IsStrictWeak : IsStrictWeak (result_before N)
  unfolding result_before
  result_before-IsStrictWeak =
      greater_first-IsStrictWeak (λ (r : SearchResult N). r.score) _
        (greater_first-IsStrictWeak (λ (r : SearchResult N). exact_and_phrase N r.breakdown) _
          (greater_first-IsStrictWeak (λ (r : SearchResult N). r.breakdown.intent) _
            id-IsStrictWeak))
