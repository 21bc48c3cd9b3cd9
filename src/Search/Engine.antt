-- ===== src/Search/Engine.antt =====
-- `SearchEngine` of src/search.cpp. A result is nothing where `entries().at(…)` or `document(…)` throws
-- `std::out_of_range`.
pub mod Order
pub mod Answer
pub mod Best
pub mod Alias
use howlinux.Base.{
  ℕ, zero, suc, Bool, true, false, ◌&&◌, ◌||◌, not, List, [], ◌∷◌, Option, none, some, ltb, ◌==◌,
  if◌then◌else◌, Bytes, blt, is_empty, length, take,
}
use howlinux.Base.Sort.{sort_by}
use howlinux.Base.Multimap.{values_at}
use howlinux.Query.Processor.{QueryContext, QueryProcessor, new_processor, process}
use howlinux.Concepts.Dictionary.{ConceptDictionary}
use howlinux.Knowledge.{KnowledgeEntry, entry_at}
use howlinux.Index.Documents.{EntryDocument}
use howlinux.Index.Build.{InvertedIndex, build, document_at}
use howlinux.Index.Candidates.{CandidateSet, candidates}
use howlinux.Search.Doubles.{Doubles, SearchConfig, at_least}
use howlinux.Search.Score.{ScoreBreakdown, SearchResult, exact_and_phrase, result_of}

-- `effective_limit`
unfoldable pub effective_limit : ℕ → ℕ → ℕ
effective_limit default_limit limit = if limit == 0 then default_limit else limit

module _ (N : Doubles) where
  -- `SearchResponse`
  pub record SearchResponse : Type 0 where
    pub query : QueryContext
    pub results : List (SearchResult N)

  -- `SearchEngine`
  pub record SearchEngine : Type 0 where
    pub entries : List KnowledgeEntry
    pub config : SearchConfig N
    pub index : InvertedIndex
    pub query_processor : QueryProcessor

  -- The constructor
  unfoldable pub new_engine :
      List KnowledgeEntry → ConceptDictionary → SearchConfig N → SearchEngine
  unfolding build new_processor
  new_engine entries concepts config =
      let index = build entries concepts in
      record {
        entries = entries;
        config = config;
        index = index;
        query_processor = new_processor (some concepts) index.known_commands;
      }

  -- The result of an entry and its document, where there are both.
  unfoldable pub scored :
      SearchEngine
      → QueryContext
      → CandidateSet
      → ℕ
      → Option KnowledgeEntry
      → Option EntryDocument
      → Option (SearchResult N)
  unfolding result_of values_at
  scored engine query candidate_set index (some entry) (some document) = some (
      result_of N engine.config engine.index entry document query
        (values_at ◌==◌ candidate_set.fuzzy_matches index))
  scored engine query candidate_set index _ _ = none

  -- `score`
  unfoldable pub score : SearchEngine → QueryContext → CandidateSet → ℕ → Option (SearchResult N)
  unfolding scored entry_at document_at
  score engine query candidate_set index =
      scored engine query candidate_set index (entry_at engine.entries index)
        (document_at engine.index.documents index)

  -- A result in front of the others, if its score is meaningful.
  unfoldable pub keep_meaningful :
      SearchConfig N
      → Option (SearchResult N)
      → Option (List (SearchResult N))
      → Option (List (SearchResult N))
  keep_meaningful config (some result) (some results) =
      some (if at_least N result.score config.meaningful_score then result ∷ results else results)
  keep_meaningful config _ _ = none

  -- The loop over the candidates.
  unfoldable pub score_all :
      SearchEngine → QueryContext → CandidateSet → List ℕ → Option (List (SearchResult N))
  unfolding score keep_meaningful
  score_all engine query candidate_set [] = some []
  score_all engine query candidate_set (index ∷ indices) =
      keep_meaningful engine.config (score engine query candidate_set index)
        (score_all engine query candidate_set indices)

  -- The comparison of the results.
  unfoldable pub result_before : SearchResult N → SearchResult N → Bool
  unfolding exact_and_phrase
  result_before left right =
      if not (N.same left.score right.score)
      then N.less right.score left.score
      else if not (N.same (exact_and_phrase N left.breakdown) (exact_and_phrase N right.breakdown))
      then N.less (exact_and_phrase N right.breakdown) (exact_and_phrase N left.breakdown)
      else if not (N.same left.breakdown.intent right.breakdown.intent)
      then N.less right.breakdown.intent left.breakdown.intent
      else blt left.entry.id right.entry.id

  -- The results, sorted and cut.
  unfoldable pub ranked : SearchConfig N → ℕ → List (SearchResult N) → List (SearchResult N)
  unfolding result_before
  ranked config limit results =
      take (effective_limit config.default_limit limit) (sort_by result_before results)

  unfoldable pub respond :
      SearchConfig N → ℕ → QueryContext → Option (List (SearchResult N)) → Option SearchResponse
  unfolding ranked
  respond config limit query none = none
  respond config limit query (some results) =
      some (record { query = query; results = ranked config limit results })

  -- A query that is processed.
  unfoldable pub search_processed : SearchEngine → ℕ → QueryContext → Option SearchResponse
  unfolding respond score_all candidates
  search_processed engine limit query =
      if is_empty query.tokens && is_empty query.concepts
      then some (record { query = query; results = [] })
      else let candidate_set = candidates engine.index query engine.config.fuzzy in
        respond engine.config limit query
          (score_all engine query candidate_set candidate_set.entry_indices)

  -- `search`
  unfoldable pub search_for_query : SearchEngine → Bytes → ℕ → Option SearchResponse
  unfolding search_processed process
  search_for_query engine raw_query limit =
      search_processed engine limit (process engine.query_processor raw_query)
