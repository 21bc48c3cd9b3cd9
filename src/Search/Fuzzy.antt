-- ===== src/Search/Fuzzy.antt =====
-- The scores of fuzzy matches in `SearchEngine::score` of src/search.cpp.
use howlinux.Base.{
  ◌&&◌, ◌||◌, List, [], ◌∷◌, ◌++◌, leb, if◌then◌else◌, Bytes, codes, beq, blt, contains,
}
use howlinux.Index.Documents.{EntryDocument}
use howlinux.Index.Candidates.{FuzzyTokenMatch}
use howlinux.Search.Doubles.{Doubles, SearchConfig, zero_double}

module _ (N : Doubles) where
  -- `field_weight`
  unfoldable pub field_weight : EntryDocument → Bytes → N.Double
  field_weight document token =
      if contains document.alias_tokens token
      then N.hundredths 100
      else if contains document.keyword_tokens token
      then N.hundredths 80
      else if contains document.concept_tokens token
      then N.hundredths 70
      else if contains document.title_tokens token
      then N.hundredths 60
      else if contains document.id_tokens token
      then N.hundredths 50
      else N.hundredths 40

  -- `BestFuzzyMatch`
  pub record BestFuzzyMatch : Type 0 where
    pub score : N.Double
    pub indexed_token : Bytes

  abbrev no_best : BestFuzzyMatch
  no_best = record { score = zero_double N; indexed_token = [] }

  -- The better of the best match so far and another one.
  unfoldable pub better : BestFuzzyMatch → N.Double → Bytes → BestFuzzyMatch
  better best score' token =
      if N.less best.score score' || N.same score' best.score && blt token best.indexed_token
      then record { score = score'; indexed_token = token }
      else best

  -- `best_matches[query_token]`, updated; the map is in the order of its keys.
  unfoldable pub update_best :
      Bytes → N.Double → Bytes → List (Bytes × BestFuzzyMatch) → List (Bytes × BestFuzzyMatch)
  unfolding better
  update_best query_token score' token [] = (query_token, better no_best score' token) ∷ []
  update_best query_token score' token ((key, best) ∷ matches) =
      let rest = (key, best) ∷ update_best query_token score' token matches in
      let new : Bytes × BestFuzzyMatch = (query_token, better no_best score' token) in
      if beq key query_token
      then (key, better best score' token) ∷ matches
      else if blt query_token key
      then new ∷ (key, best) ∷ matches
      else rest

  -- The loop over the best matches: their sum, and the reasons.
  unfoldable pub fuzzy_sum : List (Bytes × BestFuzzyMatch) → N.Double → N.Double
  fuzzy_sum [] sum = sum
  fuzzy_sum ((query_token, best) ∷ matches) sum = fuzzy_sum matches (N.plus sum best.score)

  unfoldable pub fuzzy_reasons : List (Bytes × BestFuzzyMatch) → List Bytes
  fuzzy_reasons [] = []
  fuzzy_reasons ((query_token, best) ∷ matches) =
      (codes "fuzzy " ++ (query_token ++ (codes " -> " ++ best.indexed_token)))
      ∷ fuzzy_reasons matches

  module _ (config : SearchConfig N) where
    unfoldable pub fuzzy_score_of : EntryDocument → FuzzyTokenMatch → N.Double
    unfolding field_weight
    fuzzy_score_of document found =
        N.times
          (N.times config.fuzzy_score
            (if leb found.distance 1 then N.hundredths 100 else N.hundredths 65))
          (field_weight document found.indexed_token)

    -- The loop over the matches.
    unfoldable pub best_matches :
        EntryDocument
        → List FuzzyTokenMatch
        → List (Bytes × BestFuzzyMatch)
        → List (Bytes × BestFuzzyMatch)
    unfolding update_best fuzzy_score_of
    best_matches document [] matches = matches
    best_matches document (found ∷ founds) matches =
        best_matches document founds (
          update_best found.query_token (fuzzy_score_of document found) found.indexed_token matches)
