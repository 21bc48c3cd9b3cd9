-- ===== src/Search/Doubles.antt =====
-- The `double`s of src/search.cpp and include/config.hpp: the operations that the code uses.
use howlinux.Base.{ℕ, Bool, true, false, ◌||◌, not, ◌&&◌, ◌≡◌, Bytes, if◌then◌else◌}
use howlinux.Index.Build.{Rarity}
use howlinux.Index.Candidates.{FuzzyConfig, default_config}

-- `hundredths` gives the literals, `fixed` prints with two decimals, and `rarity` is
-- `log((document_count + 1) / (frequency + 1)) + 1`.
pub record Doubles : Type 1 where
  pub Double : Type 0
  pub hundredths : ℕ → Double
  pub plus : Double → Double → Double
  pub minus : Double → Double → Double
  pub times : Double → Double → Double
  pub less : Double → Double → Bool
  pub same : Double → Double → Bool
  pub fixed : Double → Bytes
  pub rarity : Rarity → Double

-- What the comparisons of doubles satisfy where none is a NaN.
pub record IsOrdered (N : Doubles) : Type 0 where
  pub asym : (x y : N.Double) → N.less x y ≡ true → N.less y x ≡ false
  pub neg_trans : (x y z : N.Double) → N.less y x ≡ false → N.less z y ≡ false → N.less z x ≡ false
  pub same_iff : (x y : N.Double) → N.same x y ≡ (not (N.less x y) && not (N.less y x))

module _ (N : Doubles) where
  abbrev pub zero_double : N.Double
  zero_double = N.hundredths 0

  -- `>=`
  abbrev pub at_least : N.Double → N.Double → Bool
  at_least x y = N.less y x || N.same x y

  -- `SearchConfig`; its maximum limit is the command line's.
  pub record SearchConfig : Type 0 where
    pub exact_alias_score : N.Double
    pub phrase_score : N.Double
    pub command_score : N.Double
    pub keyword_score : N.Double
    pub concept_score : N.Double
    pub intent_score : N.Double
    pub title_score : N.Double
    pub token_score : N.Double
    pub fuzzy_score : N.Double
    pub confident_score : N.Double
    pub confident_margin : N.Double
    pub meaningful_score : N.Double
    pub default_limit : ℕ
    pub fuzzy : FuzzyConfig

  abbrev pub default_search_config : SearchConfig
  default_search_config = record {
    exact_alias_score = N.hundredths 10000;
    phrase_score = N.hundredths 4000;
    command_score = N.hundredths 3000;
    keyword_score = N.hundredths 2000;
    concept_score = N.hundredths 1500;
    intent_score = N.hundredths 2000;
    title_score = N.hundredths 1000;
    token_score = N.hundredths 600;
    fuzzy_score = N.hundredths 800;
    confident_score = N.hundredths 9000;
    confident_margin = N.hundredths 1500;
    meaningful_score = N.hundredths 800;
    default_limit = 5;
    fuzzy = default_config;
  }

  -- `std::min`
  abbrev pub min_double : N.Double → N.Double → N.Double
  min_double x y = if N.less y x then y else x
