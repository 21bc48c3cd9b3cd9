-- ===== src/Index/Candidates/Words.antt =====
-- The entries that `InvertedIndex::candidates` of src/index.cpp finds in the index that `build` makes.
use howlinux.Base.{ℕ, Bool, ◌&&◌, ◌||◌, List, [], ◌++◌, ◌≡◌, ap, ◌∙◌, map, Bytes, any}
use howlinux.Query.Processor.{QueryContext}
use howlinux.Concepts.Dictionary.{ConceptDictionary}
use howlinux.Knowledge.{KnowledgeEntry}
use howlinux.Index.Documents.{document_of}
use howlinux.Index.Build.{known_commands_of, build}
use howlinux.Index.Build.Postings.{has, document_holds}
use howlinux.Index.Build.Words.{word_at, document_holds-word_at}
use howlinux.Index.Candidates.{FuzzyConfig, is_fuzzy, direct_candidates, fuzzy_tokens, candidates}
use howlinux.Index.Candidates.Entries.{holds_near, any-ext, has-candidates}

module _ (entries : List KnowledgeEntry) (concepts : ConceptDictionary) (query : QueryContext)
    (config : FuzzyConfig) where
  -- One of the words of the entry is found near to this token, which is looked up by distance.
  abbrev pub near_word_at : ℕ → Bytes → Bool
  near_word_at i q =
      let index = build entries concepts in
      is_fuzzy index config (direct_candidates index query).direct_tokens q
      && any (λ (near : Bytes × ℕ). word_at concepts entries i near.0) (fuzzy_tokens index config q)

  -- In the index that `build` makes, an entry is a candidate exactly if one of its words is a token or a
  -- concept of the query, or is found near to a token of the query. Its words are the tokens, but for
  -- the stopwords, of its identifier, its title, its aliases and its keywords, the tokens of its command,
  -- and the names of the concepts that the dictionary detects in these.
  pub has-candidates-build :
      (i : ℕ)
      → has (candidates (build entries concepts) query config).entry_indices i ≡ (
          any (word_at concepts entries i) (query.tokens ++ query.concepts)
          || any (near_word_at i) query.tokens)
  unfolding build
  has-candidates-build i =
      let documents = map (document_of concepts) entries in
      let commands = known_commands_of entries [] in
      let words : (t : Bytes) → document_holds documents i t ≡ word_at concepts entries i t =
        document_holds-word_at concepts entries i in
      let near_words : (q : Bytes)
          → holds_near documents commands query config i q ≡ near_word_at i q =
        λ q.
          ap
            (λ b.
              is_fuzzy (build entries concepts) config
                (direct_candidates (build entries concepts) query).direct_tokens q
              && b)
            (any-ext _ _ (λ (near : Bytes × ℕ). words near.0)
              (fuzzy_tokens (build entries concepts) config q)) in
      has-candidates documents commands query config i
      ∙ ap (λ b. b || any (holds_near documents commands query config i) query.tokens)
          (any-ext _ _ words (query.tokens ++ query.concepts))
      ∙ ap (λ b. any (word_at concepts entries i) (query.tokens ++ query.concepts) || b)
          (any-ext _ _ near_words query.tokens)
