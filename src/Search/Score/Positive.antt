-- ===== src/Search/Score/Positive.antt =====
-- The parts of a score of `SearchEngine::score` in src/search.cpp are not negative.
use howlinux.Base.{
  ℕ, ◌≤◌, Bool, true, false, ◌&&◌, ◌||◌, List, [], ◌∷◌, ◌≡◌, arith, Option, none, some, leb,
  if◌then◌else◌, Bytes, beq, blt, contains, All, Bool-cases, inl, inr,
}
use howlinux.Index.Documents.{EntryDocument}
use howlinux.Index.Build.{InvertedIndex, Rarity, idf_of}
use howlinux.Index.Build.Rarities.{IsRare}
use howlinux.Index.Candidates.{FuzzyTokenMatch}
use howlinux.Search.Doubles.{Doubles, IsOrdered, SearchConfig, zero_double, min_double}
use howlinux.Search.Fuzzy.{
  field_weight, BestFuzzyMatch, better, update_best, fuzzy_sum, fuzzy_score_of, best_matches,
}
use howlinux.Search.Score.{idf, idf_weighted, weighted}

-- What sums, products, literals and logarithms of doubles satisfy where none is a NaN; the double of
-- `Rarity` is at least 1 where the text is in no more documents than there are.
pub record IsMonotone (N : Doubles) : Type 0 where
  pub grows : (x y : N.Double) → N.less y (zero_double N) ≡ false → N.less (N.plus x y) x ≡ false
  pub product :
      (x y : N.Double)
      → N.less x (zero_double N) ≡ false
      → N.less y (zero_double N) ≡ false
      → N.less (N.times x y) (zero_double N) ≡ false
  pub literals : (n m : ℕ) → n ≤ m → N.less (N.hundredths m) (N.hundredths n) ≡ false
  pub logarithm :
      (r : Rarity) → r.frequency ≤ r.document_count → N.less (N.rarity r) (zero_double N) ≡ false

module _ (N : Doubles) (o : IsOrdered N) (w : IsMonotone N) where
  abbrev pub IsPositive : N.Double → Type 0
  IsPositive x = N.less x (zero_double N) ≡ false

  pub literal-IsPositive : (n : ℕ) → IsPositive (N.hundredths n)
  literal-IsPositive n = w.literals 0 n (omega arith)

  pub sum-above :
      (low x y : N.Double) → N.less x low ≡ false → IsPositive y → N.less (N.plus x y) low ≡ false
  sum-above low x y h k = o.neg_trans low x (N.plus x y) h (w.grows x y k)

  sum-IsPositive : (x y : N.Double) → IsPositive x → IsPositive y → IsPositive (N.plus x y)
  sum-IsPositive x y h k = sum-above (zero_double N) x y h k

  idf-IsPositive :
      (index : InvertedIndex) (t : Bytes) → IsRare (idf_of index.idf t) → IsPositive (idf N index t)
  unfolding idf
  idf-IsPositive index t h = by_counts (idf_of index.idf t) h
    where
      by_counts :
          (counts : Option Rarity)
          → IsRare counts
          → IsPositive (elim counts [ none ↦ N.hundredths 100 | some counts ↦ N.rarity counts ])
      by_counts none h = literal-IsPositive 100
      by_counts (some r) h = w.logarithm r h

  min-IsPositive : (x y : N.Double) → IsPositive x → IsPositive y → IsPositive (min_double N x y)
  min-IsPositive x y h k = elim (Bool-cases (N.less y x)) [ inl e ↦ rw e k | inr e ↦ rw e h ]

  idf_weighted-IsPositive :
      (x y : N.Double) → IsPositive x → IsPositive y → IsPositive (idf_weighted N x y)
  unfolding idf_weighted
  idf_weighted-IsPositive x y h k =
      let half = literal-IsPositive 50 in
      let least = min-IsPositive y (N.hundredths 250) k (literal-IsPositive 250) in
      w.product x _ h (sum-IsPositive _ _ half (w.product _ _ half least))

  module _ (config : SearchConfig N) (index : InvertedIndex)
      (rare : (t : Bytes) → IsRare (idf_of index.idf t)) where
    pub weighted-IsPositive :
        (set : List Bytes) (base sum : N.Double) (t : Bytes)
        → IsPositive base
        → IsPositive sum
        → IsPositive (weighted N config index set base t sum)
    unfolding weighted
    weighted-IsPositive set base sum t h k = elim (Bool-cases (contains set t)) [
      | inl e ↦ rw e (
          sum-IsPositive sum _ k
            (idf_weighted-IsPositive base (idf N index t) h (idf-IsPositive index t (rare t))))
      | inr e ↦ rw e k
    ]

  abbrev pub ArePositive : List (Bytes × BestFuzzyMatch N) → Type 0
  ArePositive matches = All (λ (p : Bytes × BestFuzzyMatch N). IsPositive p.1.score) matches

  better-IsPositive :
      (best : BestFuzzyMatch N) (score : N.Double) (t : Bytes)
      → IsPositive best.score
      → IsPositive score
      → IsPositive (better N best score t).score
  unfolding better
  better-IsPositive best score t h k =
      elim (Bool-cases
        (N.less best.score score || N.same score best.score && blt t best.indexed_token)) [
          | inl e ↦ rw e k
          | inr e ↦ rw e h
        ]

  update_best-ArePositive :
      (q : Bytes) (score : N.Double) (t : Bytes) (matches : List (Bytes × BestFuzzyMatch N))
      → IsPositive score
      → ArePositive matches
      → ArePositive (update_best N q score t matches)
  unfolding update_best
  update_best-ArePositive q score t [] h positive =
      (better-IsPositive _ score t (literal-IsPositive 0) h, tt)
  update_best-ArePositive q score t ((key, best) ∷ matches) h (here, positive) =
      elim (Bool-cases (beq key q)) [
        | inl e ↦ rw e (better-IsPositive best score t here h, positive)
        | inr e ↦ elim (Bool-cases (blt q key)) [
          | inl f ↦
              rw (e, f) (better-IsPositive _ score t (literal-IsPositive 0) h, (here, positive))
          | inr f ↦ rw (e, f) (here, update_best-ArePositive q score t matches h positive)
        ]
      ]

  fuzzy_sum-IsPositive :
      (matches : List (Bytes × BestFuzzyMatch N)) (sum : N.Double)
      → IsPositive sum
      → ArePositive matches
      → IsPositive (fuzzy_sum N matches sum)
  unfolding fuzzy_sum
  fuzzy_sum-IsPositive [] sum h positive = h
  fuzzy_sum-IsPositive ((q, best) ∷ matches) sum h (here, positive) =
      fuzzy_sum-IsPositive matches _ (sum-IsPositive sum best.score h here) positive

  module _ (config : SearchConfig N) (base : IsPositive config.fuzzy_score)
      (document : EntryDocument) where
    fuzzy_score_of-IsPositive :
        (found : FuzzyTokenMatch) → IsPositive (fuzzy_score_of N config document found)
    unfolding fuzzy_score_of field_weight
    fuzzy_score_of-IsPositive found =
        w.product _ _ (w.product _ _ base (rate (leb found.distance 1)))
          (weight found.indexed_token)
      where
        rate : (is_one : Bool) → IsPositive (if is_one then N.hundredths 100 else N.hundredths 65)
        rate true = literal-IsPositive 100
        rate false = literal-IsPositive 65

        choice :
            (test : Bool) (x y : N.Double)
            → IsPositive x
            → IsPositive y
            → IsPositive (if test then x else y)
        choice true x y h k = h
        choice false x y h k = k

        weight : (t : Bytes) → IsPositive (field_weight N document t)
        weight t = choice _ _ _ (literal-IsPositive 100) (
            choice _ _ _ (literal-IsPositive 80) (
              choice _ _ _ (literal-IsPositive 70) (
                choice _ _ _ (literal-IsPositive 60)
                  (choice _ _ _ (literal-IsPositive 50) (literal-IsPositive 40)))))

    best_matches-ArePositive :
        (founds : List FuzzyTokenMatch) (matches : List (Bytes × BestFuzzyMatch N))
        → ArePositive matches
        → ArePositive (best_matches N config document founds matches)
    unfolding best_matches
    best_matches-ArePositive [] matches h = h
    best_matches-ArePositive (found ∷ founds) matches h = best_matches-ArePositive founds _ (
        update_best-ArePositive found.query_token _ found.indexed_token matches
          (fuzzy_score_of-IsPositive found) h)

    -- The score of the fuzzy matches.
    pub fuzzy-IsPositive :
        (founds : List FuzzyTokenMatch)
        → IsPositive (fuzzy_sum N (best_matches N config document founds []) (zero_double N))
    fuzzy-IsPositive founds =
        fuzzy_sum-IsPositive _ _ (literal-IsPositive 0) (best_matches-ArePositive founds [] tt)
