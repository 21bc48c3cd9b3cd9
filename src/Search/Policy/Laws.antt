-- ===== src/Search/Policy/Laws.antt =====
-- What `ResultPolicy::decide` of src/search.cpp decides on the results of a search.
use howlinux.Base.{
  ℕ, true, false, ◌&&◌, List, [], ◌∷◌, ◌≡◌, ◌≢◌, ◌↔◌, refl, arith, Option, none, some, Bytes, All,
  All-map, Bool-cases, inl, inr, subst,
}
use howlinux.Base.Sort.{IsSorted}
use howlinux.Concepts.Dictionary.{ConceptDictionary}
use howlinux.Knowledge.{KnowledgeEntry}
use howlinux.Search.Doubles.{Doubles, SearchConfig, IsOrdered, at_least}
use howlinux.Search.Score.{SearchResult}
use howlinux.Search.Engine.{SearchResponse, new_engine, result_before, search_for_query}
use howlinux.Search.Engine.Answer.{IsMeaningful, IsAnswer, answers, search-IsAnswer}
use howlinux.Search.Policy.{confident, no_match, PolicyDecision, has_margin, decide}

module _ (N : Doubles) where
  -- A decision on results: `no_match` exactly without results, and an entry is selected exactly if the
  -- decision is confident; it has then a confident score, and no result has a greater one.
  pub record IsDecision (config : SearchConfig N) (results : List (SearchResult N))
      (decision : PolicyDecision N) : Type 0 where
    pub no_results : (decision.status ≡ no_match) ↔ (results ≡ [])
    pub selects : (decision.status ≡ confident) ↔ (decision.selected ≢ none)
    pub best :
        (s : SearchResult N)
        → decision.selected ≡ some s
        → (at_least N s.score config.confident_score ≡ true)
          × All (λ (r : SearchResult N). N.less s.score r.score ≡ false) results

module _ (N : Doubles) (o : IsOrdered N) where
  score-order :
      (first r : SearchResult N)
      → result_before N r first ≡ false
      → N.less first.score r.score ≡ false
  unfolding result_before
  score-order first r h = ground (arith, o.same_iff r.score first.score, o.asym first.score r.score)

  less_irrefl : (x : N.Double) → N.less x x ≡ false
  less_irrefl x = ground (arith, o.asym x x)

  decide-IsDecision :
      (config : SearchConfig N) (results : List (SearchResult N))
      → IsSorted (result_before N) results
      → All (IsMeaningful N config) results
      → IsDecision N config results (decide N config results)
  unfolding decide
  decide-IsDecision config [] s m = record {
    no_results = (λ _. refl, λ _. refl);
    selects = (λ e. cc, λ e. absurd (e refl));
    best = λ s e. absurd (cc e);
  }
  decide-IsDecision config (first ∷ results) (above, s) (meaningful, m) =
      let enough : N.less first.score config.meaningful_score ≡ false = ground (
        arith,
        o.asym config.meaningful_score first.score,
        o.same_iff first.score config.meaningful_score,
      ) in
      rw enough
        (elim (Bool-cases
          (at_least N first.score config.confident_score && has_margin N config first results)) [
            | inl e ↦ rw e (record {
              no_results = (λ k. cc, λ k. cc);
              selects = (λ _ k. cc, λ _. refl);
              best = λ s k. first_is_best s (ground arith) (cc);
            })
            | inr e ↦ rw e (record {
              no_results = (λ k. cc, λ k. cc);
              selects = (λ k. cc, λ k. absurd (k refl));
              best = λ s k. absurd (cc k);
            })
          ])
    where
      first_is_best :
          (s : SearchResult N)
          → at_least N first.score config.confident_score ≡ true
          → first ≡ s
          → (at_least N s.score config.confident_score ≡ true)
            × All (λ (r : SearchResult N). N.less s.score r.score ≡ false) (first ∷ results)
      first_is_best s h same =
          subst
            (λ (s : SearchResult N).
              (at_least N s.score config.confident_score ≡ true)
              × All (λ (r : SearchResult N). N.less s.score r.score ≡ false) (first ∷ results))
            same (h, (less_irrefl first.score, All-map (score-order first) results above))

  answer-IsDecision :
      {a : Option (SearchResponse N)} (config : SearchConfig N) (limit : ℕ)
      → IsAnswer N config limit a
      → (response : SearchResponse N) → a ≡ some response
      → IsDecision N config response.results (decide N config response.results)
  answer-IsDecision config limit (answers {response = found} s l m) response e =
      let same : found ≡ response = cc e in rw (← same) (decide-IsDecision config found.results s m)

  -- On the results that `search` returns: the decision is `no_match` exactly if there are none; an
  -- entry is selected exactly if the decision is confident; and the selected result has at least the
  -- confident score, and no result has a greater one. The comparisons of doubles are taken to be those
  -- without a NaN.
  pub decide-search :
      (entries : List KnowledgeEntry) (concepts : ConceptDictionary) (config : SearchConfig N)
      (raw_query : Bytes) (limit : ℕ) (response : SearchResponse N)
      → search_for_query N (new_engine N entries concepts config) raw_query limit ≡ some response
      → IsDecision N config response.results (decide N config response.results)
  decide-search entries concepts config raw_query limit response e =
      answer-IsDecision config limit (search-IsAnswer N o entries concepts config raw_query limit)
        response e
