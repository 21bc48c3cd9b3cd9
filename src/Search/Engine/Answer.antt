-- ===== src/Search/Engine/Answer.antt =====
-- What `SearchEngine::search` of src/search.cpp returns.
use howlinux.Base.{
  ℕ, zero, suc, ◌≤◌, true, ◌&&◌, List, [], ◌∷◌, ◌≡◌, ◌≢◌, refl, map, arith, Option, none, some,
  Bytes, is_empty, length, length-take, All, All-map, Bool-cases, inl, inr,
}
use howlinux.Base.Sort.{sort_by, IsSorted, sort_by-IsSorted, sort_by-All}
use howlinux.Query.Processor.{QueryContext, process}
use howlinux.Concepts.Dictionary.{ConceptDictionary}
use howlinux.Knowledge.{KnowledgeEntry, entry_at}
use howlinux.Index.Documents.{EntryDocument, document_of}
use howlinux.Index.Build.{build, known_commands_of, document_at}
use howlinux.Index.Candidates.{CandidateSet, candidates}
use howlinux.Index.Candidates.Order.{candidates-IsAscending}
use howlinux.Search.Doubles.{Doubles, SearchConfig, IsOrdered, at_least}
use howlinux.Search.Score.{SearchResult}
use howlinux.Search.Engine.{
  effective_limit, SearchResponse, SearchEngine, new_engine, scored, score, keep_meaningful,
  score_all, result_before, ranked, respond, search_processed, search_for_query,
}
use howlinux.Search.Engine.Order.{take-All, take-IsSorted, result_before-IsStrictWeak}

entry-document :
    (concepts : ConceptDictionary) (entries : List KnowledgeEntry) (i : ℕ)
    → document_at (map (document_of concepts) entries) i ≢ none
    → entry_at entries i ≢ none
unfolding document_at entry_at
entry-document concepts [] i h = λ e. absurd (h refl)
entry-document concepts (entry ∷ entries) zero h = cc
entry-document concepts (entry ∷ entries) (suc i) h = entry-document concepts entries i h

module _ (N : Doubles) where
  abbrev pub IsMeaningful : SearchConfig N → SearchResult N → Type 0
  IsMeaningful config r = at_least N r.score config.meaningful_score ≡ true

  -- The results of all the candidates, where none of them threw.
  data AreMeaningful (config : SearchConfig N) : Option (List (SearchResult N)) → Type 0 where
    are_meaningful :
        {results : List (SearchResult N)}
        → All (IsMeaningful config) results
        → AreMeaningful config (some results)

  keep_meaningful-AreMeaningful :
      (config : SearchConfig N) (r : Option (SearchResult N)) {rs : Option (List (SearchResult N))}
      → r ≢ none
      → AreMeaningful config rs
      → AreMeaningful config (keep_meaningful N config r rs)
  unfolding keep_meaningful
  keep_meaningful-AreMeaningful config none ne h = absurd (ne refl)
  keep_meaningful-AreMeaningful config (some r) ne (are_meaningful h) =
      elim (Bool-cases (at_least N r.score config.meaningful_score)) [
        | inl e ↦ rw e (are_meaningful (e, h))
        | inr e ↦ rw e (are_meaningful h)
      ]

  scored-some :
      (engine : SearchEngine N) (query : QueryContext) (candidate_set : CandidateSet) (index : ℕ)
      (entry : Option KnowledgeEntry) (document : Option EntryDocument)
      → entry ≢ none
      → document ≢ none
      → scored N engine query candidate_set index entry document ≢ none
  unfolding scored
  scored-some engine query candidate_set index none document h k = absurd (h refl)
  scored-some engine query candidate_set index (some entry) none h k = absurd (k refl)
  scored-some engine query candidate_set index (some entry) (some document) h k = cc

  score_all-AreMeaningful :
      (engine : SearchEngine N) (query : QueryContext) (candidate_set : CandidateSet)
      (indices : List ℕ)
      → All (λ i. score N engine query candidate_set i ≢ none) indices
      → AreMeaningful engine.config (score_all N engine query candidate_set indices)
  unfolding score_all
  score_all-AreMeaningful engine query candidate_set [] h = are_meaningful tt
  score_all-AreMeaningful engine query candidate_set (i ∷ indices) (hi, h) =
      keep_meaningful-AreMeaningful engine.config (score N engine query candidate_set i) hi
        (score_all-AreMeaningful engine query candidate_set indices h)

  new_engine-scores :
      (entries : List KnowledgeEntry) (concepts : ConceptDictionary) (config : SearchConfig N)
      (query : QueryContext) (candidate_set : CandidateSet)
      → All
          (λ i. score N (new_engine N entries concepts config) query candidate_set i ≢ none)
          (candidates (build entries concepts) query config.fuzzy).entry_indices
  unfolding new_engine build score
  new_engine-scores entries concepts config query candidate_set =
      All-map
        (λ i h.
          scored-some (new_engine N entries concepts config) query candidate_set i
            (entry_at entries i) (document_at (map (document_of concepts) entries) i)
            (entry-document concepts entries i h) h)
        _
        (candidates-IsAscending (map (document_of concepts) entries) (known_commands_of entries [])
          query config.fuzzy).1

  -- An answer with a response: its results are in order, no more than the limit, and meaningful.
  pub data IsAnswer (config : SearchConfig N) (limit : ℕ) : Option (SearchResponse N) → Type 0 where
    answers :
        {response : SearchResponse N}
        → IsSorted (result_before N) response.results
        → length response.results ≤ effective_limit config.default_limit limit
        → All (IsMeaningful config) response.results
        → IsAnswer config limit (some response)

  module _ (o : IsOrdered N) where
    respond-IsAnswer :
        (config : SearchConfig N) (limit : ℕ) (query : QueryContext)
        {rs : Option (List (SearchResult N))}
        → AreMeaningful config rs
        → IsAnswer config limit (respond N config limit query rs)
    unfolding respond ranked
    respond-IsAnswer config limit query (are_meaningful {results} h) =
        let sorted = sort_by (result_before N) results in
        answers
          (take-IsSorted (result_before N) (effective_limit config.default_limit limit) sorted
            (sort_by-IsSorted (result_before N) (result_before-IsStrictWeak N o) results))
          (length-take (effective_limit config.default_limit limit) sorted)
          (take-All (result_before N) (IsMeaningful config)
            (effective_limit config.default_limit limit) sorted
            (sort_by-All (result_before N) (IsMeaningful config) results h))

    processed-IsAnswer :
        (engine : SearchEngine N) (limit : ℕ) (query : QueryContext)
        → (let found = candidates engine.index query engine.config.fuzzy in
            All (λ i. score N engine query found i ≢ none) found.entry_indices)
        → IsAnswer engine.config limit (search_processed N engine limit query)
    unfolding search_processed
    processed-IsAnswer engine limit query h =
        elim (Bool-cases (is_empty query.tokens && is_empty query.concepts)) [
          | inl e ↦ rw e (answers tt (omega arith) tt)
          | inr e ↦ rw e (
              respond-IsAnswer engine.config limit query (
                score_all-AreMeaningful engine query
                  (candidates engine.index query engine.config.fuzzy)
                  (candidates engine.index query engine.config.fuzzy).entry_indices h))
        ]

    -- In an engine that the constructor makes, every search returns: no candidate is out of range.
    -- Its results stand in the order of the comparison, are no more than the limit (or the default
    -- limit, for 0), and each has at least the meaningful score. The comparisons of doubles are taken
    -- to be those without a NaN.
    pub search-IsAnswer :
        (entries : List KnowledgeEntry) (concepts : ConceptDictionary) (config : SearchConfig N)
        (raw_query : Bytes) (limit : ℕ)
        → IsAnswer config limit
            (search_for_query N (new_engine N entries concepts config) raw_query limit)
    unfolding search_for_query new_engine build
    search-IsAnswer entries concepts config raw_query limit =
        let engine = new_engine N entries concepts config in
        let query = process engine.query_processor raw_query in
        processed-IsAnswer engine limit query (
          new_engine-scores entries concepts config query
            (candidates engine.index query engine.config.fuzzy))
