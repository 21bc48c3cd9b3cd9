-- ===== src/Render/Total.antt =====
-- `breakdownTotal` of src/render.cpp.
use howlinux.Base.{◌≡◌, refl}
use howlinux.Search.Doubles.{Doubles}
use howlinux.Search.Score.{ScoreBreakdown, total}

module _ (N : Doubles) where
  -- `breakdownTotal`
  unfoldable pub breakdown_total : ScoreBreakdown N → N.Double
  breakdown_total breakdown =
      N.plus
        (N.plus
          (N.plus
            (N.plus
              (N.plus
                (N.plus (N.plus (N.plus breakdown.exact_alias breakdown.phrase) breakdown.command)
                  breakdown.keywords)
                breakdown.concepts)
              breakdown.intent)
            breakdown.title)
          breakdown.token_idf)
        breakdown.fuzzy

  -- What is printed as the total is the `total` that `SearchEngine` takes as the score.
  pub breakdown_total-total : breakdown_total ≡ total N
  unfolding breakdown_total total
  breakdown_total-total = refl
