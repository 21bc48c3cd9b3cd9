-- ===== src/Search/Score/Exact.antt =====
-- The score of `SearchEngine::score` in src/search.cpp where the query is one of the aliases.
use howlinux.Base.{
  Bool, true, false, List, [], ◌∷◌, ◌≡◌, refl, sym, subst, arith, if◌then◌else◌, Bytes, contains,
}
use howlinux.Query.Processor.{QueryContext}
use howlinux.Index.Documents.{EntryDocument}
use howlinux.Index.Build.{InvertedIndex, idf_of}
use howlinux.Index.Build.Rarities.{IsRare}
use howlinux.Index.Candidates.{FuzzyTokenMatch}
use howlinux.Search.Doubles.{Doubles, IsOrdered, SearchConfig, zero_double, default_search_config}
use howlinux.Search.Fuzzy.{fuzzy_sum, best_matches}
use howlinux.Search.Score.{
  ScoreBreakdown, no_score, total, alias_score, concept_pair_score, command_score_of, token_scores,
  concept_scores, intent_score_of, breakdown_of,
}
use howlinux.Search.Score.Positive.{
  IsMonotone, IsPositive, literal-IsPositive, sum-above, weighted-IsPositive, fuzzy-IsPositive,
}

module _ (N : Doubles) (o : IsOrdered N) (w : IsMonotone N) where
  abbrev config : SearchConfig N
  config = default_search_config N

  abbrev Positive : N.Double → Type 0
  Positive x = IsPositive N o w x

  -- The score of an exact alias, and no part that is negative.
  record IsExact (b : ScoreBreakdown N) : Type 0 where
    exact : b.exact_alias ≡ N.hundredths 10000
    phrase : Positive b.phrase
    command : Positive b.command
    keywords : Positive b.keywords
    concepts : Positive b.concepts
    intent : Positive b.intent
    title : Positive b.title
    token_idf : Positive b.token_idf
    fuzzy : Positive b.fuzzy

  zero : Positive (zero_double N)
  zero = literal-IsPositive N o w 0

  if-IsExact :
      (test : Bool) (b c : ScoreBreakdown N)
      → IsExact b
      → IsExact c
      → IsExact (if test then b else c)
  if-IsExact true b c h k = h
  if-IsExact false b c h k = k

  above :
      (x y : N.Double)
      → N.less x (N.hundredths 10000) ≡ false
      → Positive y
      → N.less (N.plus x y) (N.hundredths 10000) ≡ false
  above x y h k = sum-above N o w (N.hundredths 10000) x y h k

  IsExact-total :
      (b : ScoreBreakdown N) → IsExact b → N.less (total N b) (N.hundredths 10000) ≡ false
  unfolding total
  IsExact-total b h =
      let low = N.hundredths 10000 in
      let same =
        subst (λ x. N.less x low ≡ false) (sym h.exact) (w.literals 10000 10000 (omega arith)) in
      above _ _
        (above _ _
          (above _ _
            (above _ _
              (above _ _ (above _ _ (above _ _ (above _ _ same h.phrase) h.command) h.keywords)
                h.concepts)
              h.intent)
            h.title)
          h.token_idf)
        h.fuzzy

  module _ (index : InvertedIndex) (rare : (t : Bytes) → IsRare (idf_of index.idf t))
      (document : EntryDocument) (query : QueryContext) where
    alias_score-IsExact :
        contains document.aliases_normalized query.normalized_query ≡ true
        → IsExact (alias_score N config index document query (no_score N))
    unfolding alias_score
    alias_score-IsExact h = rw h (record {
      exact = refl;
      phrase = zero;
      command = zero;
      keywords = zero;
      concepts = zero;
      intent = zero;
      title = zero;
      token_idf = zero;
      fuzzy = zero;
    })

    pair-IsExact :
        (b : ScoreBreakdown N)
        → IsExact b
        → IsExact (concept_pair_score N config index document query b)
    unfolding concept_pair_score
    pair-IsExact b h =
        if-IsExact _ _ b
          (record {
            exact = h.exact;
            phrase = literal-IsPositive N o w 4000;
            command = h.command;
            keywords = h.keywords;
            concepts = h.concepts;
            intent = h.intent;
            title = h.title;
            token_idf = h.token_idf;
            fuzzy = h.fuzzy;
          })
          h

    command-IsExact :
        (b : ScoreBreakdown N)
        → IsExact b
        → IsExact (command_score_of N config index document query b)
    unfolding command_score_of
    command-IsExact b h =
        if-IsExact _ _ b
          (record {
            exact = h.exact;
            phrase = h.phrase;
            command = literal-IsPositive N o w 3000;
            keywords = h.keywords;
            concepts = h.concepts;
            intent = h.intent;
            title = h.title;
            token_idf = h.token_idf;
            fuzzy = h.fuzzy;
          })
          h

    tokens-IsExact :
        (tokens : List Bytes) (b : ScoreBreakdown N)
        → IsExact b
        → IsExact (token_scores N config index document tokens b)
    unfolding token_scores
    tokens-IsExact [] b h = h
    tokens-IsExact (t ∷ tokens) b h = tokens-IsExact tokens _ (record {
      exact = h.exact;
      phrase = h.phrase;
      command = h.command;
      keywords =
          weighted-IsPositive N o w config index rare _ _ _ t (literal-IsPositive N o w 2000)
            h.keywords;
      concepts = h.concepts;
      intent = h.intent;
      title =
          weighted-IsPositive N o w config index rare _ _ _ t (literal-IsPositive N o w 1000)
            h.title;
      token_idf =
          weighted-IsPositive N o w config index rare _ _ _ t (literal-IsPositive N o w 600)
            h.token_idf;
      fuzzy = h.fuzzy;
    })

    concepts-IsExact :
        (concepts : List Bytes) (b : ScoreBreakdown N)
        → IsExact b
        → IsExact (concept_scores N config index document concepts b)
    unfolding concept_scores
    concepts-IsExact [] b h = h
    concepts-IsExact (t ∷ concepts) b h = concepts-IsExact concepts _ (record {
      exact = h.exact;
      phrase = h.phrase;
      command = h.command;
      keywords = h.keywords;
      concepts =
          weighted-IsPositive N o w config index rare _ _ _ t (literal-IsPositive N o w 1500)
            h.concepts;
      intent = h.intent;
      title = h.title;
      token_idf = h.token_idf;
      fuzzy = h.fuzzy;
    })

    intent-IsExact :
        (b : ScoreBreakdown N)
        → IsExact b
        → IsExact (intent_score_of N config index document query b)
    unfolding intent_score_of
    intent-IsExact b h =
        if-IsExact _ _ b
          (record {
            exact = h.exact;
            phrase = h.phrase;
            command = h.command;
            keywords = h.keywords;
            concepts = h.concepts;
            intent = literal-IsPositive N o w 2000;
            title = h.title;
            token_idf = h.token_idf;
            fuzzy = h.fuzzy;
          })
          h

    fuzzy-IsExact :
        (founds : List FuzzyTokenMatch) (b : ScoreBreakdown N)
        → IsExact b
        → IsExact (record b {
          fuzzy = fuzzy_sum N (best_matches N config document founds []) (zero_double N);
        })
    fuzzy-IsExact founds b h = record {
      exact = h.exact;
      phrase = h.phrase;
      command = h.command;
      keywords = h.keywords;
      concepts = h.concepts;
      intent = h.intent;
      title = h.title;
      token_idf = h.token_idf;
      fuzzy = fuzzy-IsPositive N o w config (literal-IsPositive N o w 800) document founds;
    }

    breakdown-IsExact :
        (founds : List FuzzyTokenMatch)
        → contains document.aliases_normalized query.normalized_query ≡ true
        → IsExact (breakdown_of N config index document query founds)
    unfolding breakdown_of
    breakdown-IsExact founds h = intent-IsExact _ (
        fuzzy-IsExact founds _ (
          concepts-IsExact query.concepts _ (
            tokens-IsExact query.tokens _
              (command-IsExact _ (pair-IsExact _ (alias_score-IsExact h))))))

    -- Where the query is one of the aliases, the score is at least that of an exact alias.
    pub exact-total :
        (founds : List FuzzyTokenMatch)
        → contains document.aliases_normalized query.normalized_query ≡ true
        → N.less (total N (breakdown_of N config index document query founds)) (N.hundredths 10000)
          ≡ false
    exact-total founds h = IsExact-total _ (breakdown-IsExact founds h)
