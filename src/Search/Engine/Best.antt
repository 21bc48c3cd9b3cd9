-- ===== src/Search/Engine/Best.antt =====
-- No candidate that `SearchEngine::search` of src/search.cpp leaves out is better than one that it returns.
use howlinux.Base.{
  ℕ, Bool, true, false, ◌&&◌, ◌||◌, List, [], ◌∷◌, ◌++◌, ◌≡◌, ◌⊎◌, refl, sym, ◌∙◌, subst, arith,
  map, Option, none, some, ◌==◌, Bytes, is_empty, length, take, any, All, Bool-cases, inl, inr,
  ==_iff,
}
use howlinux.Base.Sort.{sort_by, sort_by-IsSorted}
use howlinux.Base.Members.{IsIn, here, there, sort_by-IsIn, take-best}
use howlinux.Query.Processor.{QueryContext, process}
use howlinux.Concepts.Dictionary.{ConceptDictionary}
use howlinux.Knowledge.{KnowledgeEntry}
use howlinux.Index.Documents.{document_of}
use howlinux.Index.Build.{build, known_commands_of}
use howlinux.Index.Build.Postings.{has}
use howlinux.Index.Candidates.{CandidateSet, FuzzyConfig, candidates}
use howlinux.Index.Candidates.Entries.{has-candidates}
use howlinux.Search.Doubles.{Doubles, SearchConfig, IsOrdered, at_least}
use howlinux.Search.Score.{SearchResult}
use howlinux.Search.Engine.{
  effective_limit, SearchResponse, SearchEngine, new_engine, score, keep_meaningful, score_all,
  result_before, ranked, respond, search_processed, search_for_query,
}
use howlinux.Search.Engine.Order.{result_before-IsStrictWeak}
use howlinux.Search.Engine.Answer.{IsMeaningful}

module _ (N : Doubles) (config : SearchConfig N) where
  kept_here :
      (r : SearchResult N) (rs : Option (List (SearchResult N))) (results : List (SearchResult N))
      → keep_meaningful N config (some r) rs ≡ some results
      → IsMeaningful N config r
      → IsIn r results
  unfolding keep_meaningful
  kept_here r none results e m = absurd (cc e)
  kept_here r (some rest) results e m =
      let same : r ∷ rest ≡ results = ground (arith, e, m) in subst (IsIn r) same here

  kept_there :
      (r : SearchResult N) (o : Option (SearchResult N)) (rs : Option (List (SearchResult N)))
      (results : List (SearchResult N))
      → keep_meaningful N config o rs ≡ some results
      → ((rest : List (SearchResult N)) → rs ≡ some rest → IsIn r rest)
      → IsIn r results
  unfolding keep_meaningful
  kept_there r none rs results e h = absurd (cc e)
  kept_there r (some s) none results e h = absurd (cc e)
  kept_there r (some s) (some rest) results e h =
      elim (Bool-cases (at_least N s.score config.meaningful_score)) [
        | inl k ↦
            let same : s ∷ rest ≡ results = ground (arith, e, k) in
            subst (IsIn r) same (there (h rest refl))
        | inr k ↦
            let same : rest ≡ results = ground (arith, e, k) in subst (IsIn r) same (h rest refl)
      ]

module _ (N : Doubles) (engine : SearchEngine N) (query : QueryContext) (found : CandidateSet) where
  score_all-IsIn :
      (indices : List ℕ) (i : ℕ) (r : SearchResult N) (results : List (SearchResult N))
      → has indices i ≡ true
      → score N engine query found i ≡ some r
      → IsMeaningful N engine.config r
      → score_all N engine query found indices ≡ some results
      → IsIn r results
  unfolding score_all
  score_all-IsIn [] i r results h s m e = absurd (cc h)
  score_all-IsIn (j ∷ indices) i r results h s m e =
      let later =
        λ (rest : List (SearchResult N)) (k : has indices i ≡ true)
            (t : score_all N engine query found indices ≡ some rest).
          score_all-IsIn indices i r rest k s m t in
      elim (Bool-cases (j == i)) [
        | inl k ↦
            kept_here N engine.config r (score_all N engine query found indices) results
              (subst
                (λ o.
                  keep_meaningful N engine.config o (score_all N engine query found indices)
                  ≡ some results)
                (subst (λ n. score N engine query found n ≡ some r) (sym ((==_iff j i).0 k)) s) e)
              m
        | inr k ↦
            kept_there N engine.config r (score N engine query found j)
              (score_all N engine query found indices) results e
              (λ rest t. later rest (ground arith) t)
      ]

nothing_held :
    (p q : Bytes → Bool) (tokens concepts : List Bytes)
    → (is_empty tokens && is_empty concepts) ≡ true
    → (any p (tokens ++ concepts) || any q tokens) ≡ false
nothing_held p q [] [] h = refl
nothing_held p q [] (c ∷ concepts) h = absurd (cc h)
nothing_held p q (t ∷ tokens) concepts h = absurd (cc h)

no_candidate :
    (entries : List KnowledgeEntry) (concepts : ConceptDictionary) (query : QueryContext)
    (fuzzy : FuzzyConfig) (i : ℕ)
    → (is_empty query.tokens && is_empty query.concepts) ≡ true
    → has (candidates (build entries concepts) query fuzzy).entry_indices i ≡ false
unfolding build
no_candidate entries concepts query fuzzy i h =
    has-candidates (map (document_of concepts) entries) (known_commands_of entries []) query fuzzy i
    ∙ nothing_held _ _ query.tokens query.concepts h

module _ (N : Doubles) where
  -- A result that is returned, or left out of a full response that has nothing behind it.
  abbrev pub IsBest : SearchConfig N → ℕ → SearchResult N → List (SearchResult N) → Type 0
  IsBest config limit r results =
      IsIn r results
      ⊎ ((length results ≡ effective_limit config.default_limit limit)
          × All (λ s. result_before N r s ≡ false) results)

  module _ (o : IsOrdered N) where
    respond-IsBest :
        (config : SearchConfig N) (limit : ℕ) (query : QueryContext) (r : SearchResult N)
        (rs : Option (List (SearchResult N))) (response : SearchResponse N)
        → respond N config limit query rs ≡ some response
        → ((results : List (SearchResult N)) → rs ≡ some results → IsIn r results)
        → IsBest config limit r response.results
    unfolding respond ranked
    respond-IsBest config limit query r none response e h = absurd (cc e)
    respond-IsBest config limit query r (some results) response e h =
        let n = effective_limit config.default_limit limit in
        let same : take n (sort_by (result_before N) results) ≡ response.results = cc e in
        subst (IsBest config limit r) same (
          take-best (result_before N) n r (sort_by (result_before N) results)
            (sort_by-IsSorted (result_before N) (result_before-IsStrictWeak N o) results)
            (sort_by-IsIn (result_before N) r (h results refl)))

    processed-IsBest :
        (engine : SearchEngine N) (limit : ℕ) (query : QueryContext) (response : SearchResponse N)
        (i : ℕ) (r : SearchResult N)
        → (let found = candidates engine.index query engine.config.fuzzy in
            ((is_empty query.tokens && is_empty query.concepts) ≡ true
              → has found.entry_indices i ≡ false)
            → (search_processed N engine limit query ≡ some response)
            → has found.entry_indices i ≡ true
            → score N engine query found i ≡ some r
            → IsMeaningful N engine.config r
            → IsBest engine.config limit r response.results)
    unfolding search_processed
    processed-IsBest engine limit query response i r none_found e h s m =
        let found = candidates engine.index query engine.config.fuzzy in
        elim (Bool-cases (is_empty query.tokens && is_empty query.concepts)) [
          | inl k ↦ absurd (cc (h, none_found k))
          | inr k ↦
              respond-IsBest engine.config limit query r
                (score_all N engine query found found.entry_indices) response (rw k at e)
                (λ results t.
                  score_all-IsIn N engine query found found.entry_indices i r results h s m t)
        ]

    -- For every candidate whose score is meaningful: its result is returned, or the response is full
    -- and the result would come before none of those returned. The comparisons of doubles are taken to
    -- be those without a NaN.
    pub search-IsBest :
        (entries : List KnowledgeEntry) (concepts : ConceptDictionary) (config : SearchConfig N)
        (raw_query : Bytes) (limit : ℕ) (response : SearchResponse N) (i : ℕ) (r : SearchResult N)
        → (let engine = new_engine N entries concepts config in
            let query = process engine.query_processor raw_query in
            let found = candidates engine.index query config.fuzzy in
            (search_for_query N engine raw_query limit ≡ some response)
            → has found.entry_indices i ≡ true
            → score N engine query found i ≡ some r
            → IsMeaningful N config r
            → IsBest config limit r response.results)
    unfolding search_for_query new_engine build
    search-IsBest entries concepts config raw_query limit response i r e h s m =
        let engine = new_engine N entries concepts config in
        let query = process engine.query_processor raw_query in
        processed-IsBest engine limit query response i r
          (no_candidate entries concepts query config.fuzzy i) e h s m
