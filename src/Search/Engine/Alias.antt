-- ===== src/Search/Engine/Alias.antt =====
-- What `SearchEngine::search` of src/search.cpp returns for a query that is an alias of an entry.
use howlinux.Base.{
  ℕ, true, false, ◌&&◌, not, List, ◌≡◌, refl, sym, ◌∙◌, subst, arith, Option, none, some, ◌==◌,
  Bytes, beq, beq_refl, contains, is_empty,
}
use howlinux.Base.Multimap.{values_at}
use howlinux.Query.Tokens.{tokenize, join_tokens}
use howlinux.Query.Processor.{QueryContext, process}
use howlinux.Concepts.Dictionary.{ConceptDictionary}
use howlinux.Knowledge.{KnowledgeEntry, entry_at}
use howlinux.Index.Documents.{EntryDocument, document_of}
use howlinux.Index.Documents.Aliases.{reads_as, contains-aliases}
use howlinux.Index.Build.{build, document_at}
use howlinux.Index.Build.Postings.{has}
use howlinux.Index.Build.Words.{word_at}
use howlinux.Index.Build.Rarities.{build-IsRare}
use howlinux.Index.Candidates.{CandidateSet, candidates}
use howlinux.Index.Candidates.Words.{has-candidates-build}
use howlinux.Search.Doubles.{Doubles, IsOrdered, SearchConfig, default_search_config, at_least}
use howlinux.Search.Score.{SearchResult, result_of}
use howlinux.Search.Score.Positive.{IsMonotone}
use howlinux.Search.Score.Exact.{exact-total}
use howlinux.Search.Engine.{
  SearchResponse, SearchEngine, new_engine, scored, score, search_for_query,
}
use howlinux.Search.Engine.Answer.{IsAnswer, answers, search-IsAnswer}
use howlinux.Search.Engine.Best.{IsBest, search-IsBest}
use howlinux.Index.Candidates.Aliases.{
  any-contains, first-any, join-filled, word_at-entry, document_at-entry, alias-is_word,
}

module _ (N : Doubles) where
  abbrev config : SearchConfig N
  config = default_search_config N

  -- A response to a query that is an alias of the entry: the entry has a result with at least the score of
  -- an exact alias, and it is returned, or the response is full of results that do not come behind it.
  pub data FindsAlias (entry : KnowledgeEntry) (limit : ℕ)
      : Option (SearchResponse N) → Type 0 where
    finds_alias :
        {response : SearchResponse N} (r : SearchResult N)
        → r.entry ≡ entry
        → N.less r.score (N.hundredths 10000) ≡ false
        → IsBest N config limit r response.results
        → FindsAlias entry limit (some response)

  scored-some :
      (engine : SearchEngine N) (query : QueryContext) (found : CandidateSet) (i : ℕ)
      (entry : KnowledgeEntry) (document : EntryDocument)
      → entry_at engine.entries i ≡ some entry
      → document_at engine.index.documents i ≡ some document
      → score N engine query found i
        ≡ some (
            result_of N engine.config engine.index entry document query
              (values_at ◌==◌ found.fuzzy_matches i))
  unfolding score scored
  scored-some engine query found i entry document h k = rw (h, k) refl

  at_least-meaningful :
      (o : IsOrdered N) (w : IsMonotone N) (x : N.Double)
      → N.less x (N.hundredths 10000) ≡ false
      → at_least N x (N.hundredths 800) ≡ true
  at_least-meaningful o w x h = ground (
    arith,
    o.same_iff x (N.hundredths 800),
    o.neg_trans (N.hundredths 800) (N.hundredths 10000) x (w.literals 800 10000 (omega arith)) h,
  )

  module _ (o : IsOrdered N) (w : IsMonotone N) (entries : List KnowledgeEntry)
      (concepts : ConceptDictionary) (raw_query : Bytes) (limit i : ℕ) (entry : KnowledgeEntry)
      (alias : Bytes) (at : entry_at entries i ≡ some entry)
      (its : contains entry.aliases alias ≡ true)
      (same : tokenize alias true true ≡ tokenize raw_query true true)
      (filled : is_empty (tokenize raw_query true true) ≡ false) where
    abbrev engine : SearchEngine N
    engine = new_engine N entries concepts config

    abbrev query : QueryContext
    query = process engine.query_processor raw_query

    abbrev found : CandidateSet
    found = candidates (build entries concepts) query config.fuzzy

    abbrev result : SearchResult N
    result =
        result_of N config (build entries concepts) entry (document_of concepts entry) query
          (values_at ◌==◌ found.fuzzy_matches i)

    is_candidate : has found.entry_indices i ≡ true
    unfolding process
    is_candidate =
        has-candidates-build entries concepts query config.fuzzy i
        ∙ ground (
          arith,
          first-any (word_at concepts entries i) query.tokens query.concepts filled (λ t h.
              word_at-entry concepts entries i entry t at (
                alias-is_word concepts entry alias t its
                  (subst (λ tokens. contains tokens t ≡ true) (sym same) h))),
        )

    normalized :
        contains (document_of concepts entry).aliases_normalized query.normalized_query ≡ true
    unfolding process
    normalized =
        contains-aliases concepts query.normalized_query entry
        ∙ any-contains (reads_as query.normalized_query) entry.aliases alias its (
            subst
              (λ tokens.
                (not (is_empty (join_tokens tokens))
                  && beq (join_tokens tokens) (join_tokens (tokenize raw_query true true)))
                ≡ true)
              (sym same)
              (ground (
                arith,
                join-filled raw_query filled,
                beq_refl (join_tokens (tokenize raw_query true true)),
              )))

    result-score : N.less result.score (N.hundredths 10000) ≡ false
    unfolding result_of
    result-score =
        exact-total N o w (build entries concepts) (build-IsRare entries concepts)
          (document_of concepts entry) query (values_at ◌==◌ found.fuzzy_matches i) normalized

    answered :
        (answer : Option (SearchResponse N))
        → search_for_query N engine raw_query limit ≡ answer
        → IsAnswer N config limit answer
        → FindsAlias entry limit answer
    unfolding new_engine build result_of
    answered none e h = elim h [ ]
    answered (some response) e (answers sorted short meaningful) =
        finds_alias result refl result-score (
          search-IsBest N o entries concepts config raw_query limit response i result e is_candidate
            (scored-some engine query found i entry (document_of concepts entry) at
              (document_at-entry concepts entries i entry at))
            (at_least-meaningful o w result.score result-score))

    -- In an engine that the constructor makes with the default scores: where a query reads as an alias of an
    -- entry, and has a token, the search returns, the entry has a result with at least the score of an
    -- exact alias, and this result is returned, or the response is full and the result would come before
    -- none of those returned. The comparisons, sums and products of doubles are taken to be those without
    -- a NaN.
    pub search-FindsAlias : FindsAlias entry limit (search_for_query N engine raw_query limit)
    search-FindsAlias =
        answered (search_for_query N engine raw_query limit) refl
          (search-IsAnswer N o entries concepts config raw_query limit)
