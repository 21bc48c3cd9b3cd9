-- ===== src/Search/Score.antt =====
-- `SearchEngine::score` of src/search.cpp.
pub mod Positive
pub mod Exact
use howlinux.Base.{
  Bool, false, ◌&&◌, not, List, [], ◌∷◌, ◌++◌, none, some, leb, ◌==◌, if◌then◌else◌, Bytes, codes,
  contains, length, any, all, is_empty,
}
use howlinux.Query.Processor.{QueryContext, query_type_name}
use howlinux.Knowledge.{KnowledgeEntry}
use howlinux.Index.Documents.{EntryDocument}
use howlinux.Index.Build.{InvertedIndex, idf_of}
use howlinux.Index.Candidates.{FuzzyTokenMatch}
use howlinux.Search.Doubles.{Doubles, SearchConfig, zero_double, at_least, min_double}
use howlinux.Search.Fuzzy.{fuzzy_sum, fuzzy_reasons, best_matches}
use howlinux.Search.Phrase.{contains_normalized_phrase}

module _ (N : Doubles) where
  -- `ScoreBreakdown`
  pub record ScoreBreakdown : Type 0 where
    pub exact_alias : N.Double
    pub phrase : N.Double
    pub command : N.Double
    pub keywords : N.Double
    pub concepts : N.Double
    pub intent : N.Double
    pub title : N.Double
    pub token_idf : N.Double
    pub fuzzy : N.Double

  abbrev pub no_score : ScoreBreakdown
  no_score = record {
    exact_alias = zero_double N;
    phrase = zero_double N;
    command = zero_double N;
    keywords = zero_double N;
    concepts = zero_double N;
    intent = zero_double N;
    title = zero_double N;
    token_idf = zero_double N;
    fuzzy = zero_double N;
  }

  -- `total`; the sums are taken from the left.
  unfoldable pub total : ScoreBreakdown → N.Double
  total b =
      N.plus
        (N.plus
          (N.plus
            (N.plus
              (N.plus (N.plus (N.plus (N.plus b.exact_alias b.phrase) b.command) b.keywords)
                b.concepts)
              b.intent)
            b.title)
          b.token_idf)
        b.fuzzy

  -- `exactAndPhrase`
  unfoldable pub exact_and_phrase : ScoreBreakdown → N.Double
  exact_and_phrase b = N.plus b.exact_alias b.phrase

  -- `SearchResult`
  pub record SearchResult : Type 0 where
    pub entry : KnowledgeEntry
    pub score : N.Double
    pub breakdown : ScoreBreakdown
    pub fuzzy_used : Bool
    pub match_reasons : List Bytes

  -- `idf`
  unfoldable pub idf : InvertedIndex → Bytes → N.Double
  unfolding idf_of
  idf index token = elim (idf_of index.idf token) [
    | none ↦ N.hundredths 100
    | some counts ↦ N.rarity counts
  ]

  -- `idfWeighted`
  unfoldable pub idf_weighted : N.Double → N.Double → N.Double
  idf_weighted base_score idf' =
      N.times base_score (
        N.plus (N.hundredths 50) (N.times (N.hundredths 50) (min_double N idf' (N.hundredths 250))))

  -- `addReason`
  unfoldable pub add_reason : Bytes → N.Double → List Bytes → List Bytes
  add_reason label score' reasons =
      if N.less (zero_double N) score'
      then reasons ++ (label ++ (codes " +" ++ N.fixed score')) ∷ []
      else reasons

  -- One of the aliases, of more than one word, is a part of the query.
  unfoldable pub has_alias_phrase : Bytes → List Bytes → Bool
  unfolding contains_normalized_phrase
  has_alias_phrase normalized_query aliases =
      any (λ alias. any (λ c. c == b' ') alias && contains_normalized_phrase normalized_query alias)
        aliases

  module _ (config : SearchConfig N) (index : InvertedIndex) where
    -- The scores of the aliases.
    unfoldable pub alias_score : EntryDocument → QueryContext → ScoreBreakdown → ScoreBreakdown
    unfolding has_alias_phrase
    alias_score document query b =
        if contains document.aliases_normalized query.normalized_query
        then record b { exact_alias = config.exact_alias_score }
        else if has_alias_phrase query.normalized_query document.aliases_normalized
        then record b { phrase = config.phrase_score }
        else b

    -- A query of two concepts that the document has both.
    unfoldable pub concept_pair_score :
        EntryDocument → QueryContext → ScoreBreakdown → ScoreBreakdown
    concept_pair_score document query b =
        if N.same b.exact_alias (zero_double N)
          && N.same b.phrase (zero_double N)
          && leb 2 (length query.concepts)
          && all (contains document.concept_tokens) query.concepts
        then record b { phrase = config.phrase_score }
        else b

    abbrev pub starts_with_one_of : List Bytes → List Bytes → Bool
    starts_with_one_of [] set = false
    starts_with_one_of (token ∷ tokens) set = contains set token

    unfoldable pub command_score_of : EntryDocument → QueryContext → ScoreBreakdown → ScoreBreakdown
    command_score_of document query b =
        if starts_with_one_of query.tokens document.command_tokens
        then record b { command = config.command_score }
        else b

    -- A weighted score, where the set holds the token.
    unfoldable pub weighted : List Bytes → N.Double → Bytes → N.Double → N.Double
    unfolding idf_weighted idf
    weighted set base_score token sum =
        if contains set token then N.plus sum (idf_weighted base_score (idf index token)) else sum

    -- The loop over the tokens.
    unfoldable pub token_scores : EntryDocument → List Bytes → ScoreBreakdown → ScoreBreakdown
    unfolding weighted
    token_scores document [] b = b
    token_scores document (token ∷ tokens) b = token_scores document tokens (record b {
      keywords = weighted document.keyword_tokens config.keyword_score token b.keywords;
      title = weighted document.title_tokens config.title_score token b.title;
      token_idf = weighted document.all_tokens config.token_score token b.token_idf;
    })

    -- The loop over the concepts.
    unfoldable pub concept_scores : EntryDocument → List Bytes → ScoreBreakdown → ScoreBreakdown
    unfolding weighted
    concept_scores document [] b = b
    concept_scores document (concept ∷ concepts) b = concept_scores document concepts (record b {
      concepts = weighted document.concept_tokens config.concept_score concept b.concepts;
    })

    -- `content_relevance`
    unfoldable pub content_relevance : ScoreBreakdown → N.Double
    content_relevance b =
        N.plus
          (N.plus
            (N.plus
              (N.plus (N.plus (N.plus (N.plus b.exact_alias b.phrase) b.command) b.keywords)
                b.concepts)
              b.title)
            b.token_idf)
          b.fuzzy

    unfoldable pub intent_score_of : EntryDocument → QueryContext → ScoreBreakdown → ScoreBreakdown
    unfolding content_relevance query_type_name
    intent_score_of document query b =
        if at_least N (content_relevance b) config.meaningful_score
          && contains document.intents (query_type_name query.type)
        then record b { intent = config.intent_score }
        else b

    -- The breakdown, by the steps of `score` in their order; without matches the sum is zero.
    unfoldable pub breakdown_of :
        EntryDocument → QueryContext → List FuzzyTokenMatch → ScoreBreakdown
    unfolding intent_score_of fuzzy_sum best_matches concept_scores token_scores command_score_of
        concept_pair_score alias_score
    breakdown_of document query founds =
        intent_score_of document query
          (record (concept_scores document query.concepts (
            token_scores document query.tokens (
              command_score_of document query
                (concept_pair_score document query (alias_score document query no_score))))) {
                  fuzzy = fuzzy_sum N (best_matches N config document founds []) (zero_double N);
                })

    -- The reasons behind those of the matches.
    unfoldable pub score_reasons : ScoreBreakdown → List Bytes → List Bytes
    unfolding add_reason
    score_reasons b reasons = add_reason (codes "fuzzy") b.fuzzy (
        add_reason (codes "token/idf") b.token_idf (
          add_reason (codes "title") b.title (
            add_reason (codes "intent") b.intent (
              add_reason (codes "concepts") b.concepts (
                add_reason (codes "keywords") b.keywords (
                  add_reason (codes "command") b.command (
                    add_reason (codes "phrase") b.phrase
                      (add_reason (codes "exact alias") b.exact_alias reasons))))))))

    -- The result for an entry with its document; `founds` are its fuzzy matches.
    unfoldable pub result_of :
        KnowledgeEntry → EntryDocument → QueryContext → List FuzzyTokenMatch → SearchResult
    unfolding breakdown_of total score_reasons fuzzy_reasons
    result_of entry document query founds =
        let b = breakdown_of document query founds in
        record {
          entry = entry;
          score = total b;
          breakdown = b;
          fuzzy_used = not (is_empty founds) && N.less (zero_double N) b.fuzzy;
          match_reasons =
              score_reasons b (fuzzy_reasons N (best_matches N config document founds []));
        }
