-- ===== src/Search/Policy.antt =====
-- `ResultPolicy::decide` of src/search.cpp.
pub mod Laws
use howlinux.Base.{
  ℕ, Bool, true, false, ◌&&◌, ◌||◌, not, List, [], ◌∷◌, Option, none, some, if◌then◌else◌, Bytes,
  codes,
}
use howlinux.Search.Doubles.{Doubles, SearchConfig, at_least}
use howlinux.Search.Score.{SearchResult}

-- `ResultStatus`
pub data ResultStatus : Type 0 where
  confident uncertain no_match : ResultStatus

-- `resultStatusName`
unfoldable pub result_status_name : ResultStatus → Bytes
result_status_name confident = codes "confident"
result_status_name uncertain = codes "uncertain"
result_status_name no_match = codes "no_match"

module _ (N : Doubles) where
  -- `PolicyDecision`
  pub record PolicyDecision : Type 0 where
    pub status : ResultStatus
    pub selected : Option (SearchResult N)

  -- `sufficient_margin`
  unfoldable pub has_margin : SearchConfig N → SearchResult N → List (SearchResult N) → Bool
  has_margin config first [] = true
  has_margin config first (second ∷ results) =
      at_least N (N.minus first.score second.score) config.confident_margin

  -- `decide`
  unfoldable pub decide : SearchConfig N → List (SearchResult N) → PolicyDecision
  unfolding has_margin
  decide config [] = record { status = no_match; selected = none }
  decide config (first ∷ results) =
      if N.less first.score config.meaningful_score
      then record { status = no_match; selected = none }
      else if at_least N first.score config.confident_score && has_margin config first results
      then record { status = confident; selected = some first }
      else record { status = uncertain; selected = none }
