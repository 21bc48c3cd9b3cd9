-- ===== src/Index/Candidates/Entries.antt =====
-- Which entries `InvertedIndex::candidates` of src/index.cpp returns.
use howlinux.Base.{
  any-append, ℕ, Bool, false, ◌&&◌, ◌||◌, List, [], ◌∷◌, ◌++◌, ◌≡◌, refl, ap, ◌∙◌, arith, ◌==◌,
  Bytes, beq, any, Bool-cases, inl, inr,
}
use howlinux.Base.Multimap.{values_at, has_key, values_at-missing}
use howlinux.Query.Processor.{QueryContext}
use howlinux.Index.Documents.{EntryDocument}
use howlinux.Index.Build.{Postings, InvertedIndex, index_of}
use howlinux.Index.Build.Postings.{has, beq-IsKeyTest, document_holds, posting-document_holds}
use howlinux.Index.Candidates.{
  FuzzyConfig, CandidateState, insert_index, insert_indices, add_direct, add_all_direct,
  add_matches, add_near, is_fuzzy, fuzzy_tokens, fuzzy_round, add_fuzzy, no_candidates,
  direct_candidates, candidates,
}

has-insert_index :
    (index : ℕ) (indices : List ℕ) (i : ℕ)
    → has (insert_index index indices) i ≡ (has indices i || index == i)
unfolding insert_index
has-insert_index index [] i = ground arith
has-insert_index index (j ∷ indices) i = ground (arith, has-insert_index index indices i)

has-insert_indices :
    (posting indices : List ℕ) (i : ℕ)
    → has (insert_indices posting indices) i ≡ (has indices i || has posting i)
unfolding insert_indices
has-insert_indices [] indices i = ground arith
has-insert_indices (index ∷ posting) indices i = ground (
  arith,
  has-insert_indices posting (insert_index index indices) i,
  has-insert_index index indices i,
)

has-missing :
    (postings : Postings) (t : Bytes) (i : ℕ)
    → has_key beq postings t ≡ false
    → has (values_at beq postings t) i ≡ false
has-missing postings t i h = rw (values_at-missing beq beq-IsKeyTest postings t h)

has-add_direct :
    (postings : Postings) (t : Bytes) (state : CandidateState) (i : ℕ)
    → has (add_direct postings t state).candidate_indices i
      ≡ (has state.candidate_indices i || has (values_at beq postings t) i)
unfolding add_direct
has-add_direct postings t state i = elim (Bool-cases (has_key beq postings t)) [
  | inl e ↦ rw e (has-insert_indices (values_at beq postings t) state.candidate_indices i)
  | inr e ↦ rw e (ground (arith, has-missing postings t i e))
]

has-add_all_direct :
    (postings : Postings) (tokens : List Bytes) (state : CandidateState) (i : ℕ)
    → has (add_all_direct postings tokens state).candidate_indices i
      ≡ (has state.candidate_indices i || any (λ t. has (values_at beq postings t) i) tokens)
unfolding add_all_direct
has-add_all_direct postings [] state i = ground arith
has-add_all_direct postings (t ∷ tokens) state i = ground (
  arith,
  has-add_all_direct postings tokens (add_direct postings t state) i,
  has-add_direct postings t state i,
)

has-add_matches :
    (query_token : Bytes) (near : Bytes × ℕ) (posting : List ℕ) (state : CandidateState) (i : ℕ)
    → has (add_matches query_token near posting state).candidate_indices i
      ≡ (has state.candidate_indices i || has posting i)
unfolding add_matches
has-add_matches query_token near [] state i = ground arith
has-add_matches query_token near (index ∷ posting) state i =
    has-add_matches query_token near posting _ i
    ∙ ground (arith, has-insert_index index state.candidate_indices i)

has-add_near :
    (postings : Postings) (query_token : Bytes) (nears : List (Bytes × ℕ)) (state : CandidateState)
    (i : ℕ)
    → has (add_near postings query_token nears state).candidate_indices i ≡ (
        has state.candidate_indices i
        || any (λ (near : Bytes × ℕ). has (values_at beq postings near.0) i) nears)
unfolding add_near
has-add_near postings query_token [] state i = ground arith
has-add_near postings query_token (near ∷ nears) state i =
    has-add_near postings query_token nears _ i
    ∙ ground (arith, has-add_matches query_token near (values_at beq postings near.0) state i)

add_matches-direct_tokens :
    (query_token : Bytes) (near : Bytes × ℕ) (posting : List ℕ) (state : CandidateState)
    → (add_matches query_token near posting state).direct_tokens ≡ state.direct_tokens
unfolding add_matches
add_matches-direct_tokens query_token near [] state = refl
add_matches-direct_tokens query_token near (index ∷ posting) state =
    add_matches-direct_tokens query_token near posting _

add_near-direct_tokens :
    (postings : Postings) (query_token : Bytes) (nears : List (Bytes × ℕ)) (state : CandidateState)
    → (add_near postings query_token nears state).direct_tokens ≡ state.direct_tokens
unfolding add_near
add_near-direct_tokens postings query_token [] state = refl
add_near-direct_tokens postings query_token (near ∷ nears) state =
    let matched = add_matches query_token near (values_at beq postings near.0) state in
    add_near-direct_tokens postings query_token nears matched
    ∙ add_matches-direct_tokens query_token near (values_at beq postings near.0) state

module _ (index : InvertedIndex) (config : FuzzyConfig) (i : ℕ) where
  -- The entry holds a token near to this one, which is looked up by distance.
  abbrev pub found_near : List Bytes → Bytes → Bool
  found_near direct_tokens q =
      is_fuzzy index config direct_tokens q
      && any (λ (near : Bytes × ℕ). has (values_at beq index.postings near.0) i)
          (fuzzy_tokens index config q)

  has-fuzzy_round :
      (q : Bytes) (state : CandidateState)
      → has (fuzzy_round index config q state).candidate_indices i
        ≡ (has state.candidate_indices i || found_near state.direct_tokens q)
  unfolding fuzzy_round
  has-fuzzy_round q state = elim (Bool-cases (is_fuzzy index config state.direct_tokens q)) [
    | inr e ↦ rw e (ground arith)
    | inl e ↦ rw e (has-add_near index.postings q (fuzzy_tokens index config q) state i)
  ]

  fuzzy_round-direct_tokens :
      (q : Bytes) (state : CandidateState)
      → (fuzzy_round index config q state).direct_tokens ≡ state.direct_tokens
  unfolding fuzzy_round
  fuzzy_round-direct_tokens q state =
      elim (Bool-cases (is_fuzzy index config state.direct_tokens q)) [
        | inr e ↦ rw e refl
        | inl e ↦ rw e (add_near-direct_tokens index.postings q (fuzzy_tokens index config q) state)
      ]

  has-add_fuzzy :
      (tokens : List Bytes) (state : CandidateState)
      → has (add_fuzzy index config tokens state).candidate_indices i
        ≡ (has state.candidate_indices i || any (found_near state.direct_tokens) tokens)
  unfolding add_fuzzy
  has-add_fuzzy [] state = ground arith
  has-add_fuzzy (q ∷ tokens) state =
      has-add_fuzzy tokens (fuzzy_round index config q state)
      ∙ rw (fuzzy_round-direct_tokens q state) (ground (arith, has-fuzzy_round q state))

pub any-ext :
    {A : Type 0} (p q : A → Bool) → ((x : A) → p x ≡ q x) → (xs : List A) → any p xs ≡ any q xs
any-ext p q h [] = refl
any-ext p q h (x ∷ xs) = ground (arith, h x, any-ext p q h xs)

has-direct_candidates :
    (index : InvertedIndex) (query : QueryContext) (i : ℕ)
    → has (direct_candidates index query).candidate_indices i
      ≡ any (λ t. has (values_at beq index.postings t) i) (query.tokens ++ query.concepts)
unfolding direct_candidates
has-direct_candidates index query i =
    has-add_all_direct index.postings query.concepts _ i
    ∙ ground (
      arith,
      has-add_all_direct index.postings query.tokens no_candidates i,
      any-append (λ t. has (values_at beq index.postings t) i) query.tokens query.concepts,
    )

module _ (documents : List EntryDocument) (known_commands : List Bytes) (query : QueryContext)
    (config : FuzzyConfig) where
  -- The entry holds one of the tokens near to this one.
  abbrev pub holds_near : ℕ → Bytes → Bool
  holds_near i q =
      is_fuzzy (index_of documents known_commands) config
        (direct_candidates (index_of documents known_commands) query).direct_tokens q
      && any (λ (near : Bytes × ℕ). document_holds documents i near.0)
          (fuzzy_tokens (index_of documents known_commands) config q)

  -- An entry is a candidate exactly if it holds a token or a concept of the query, or one of the
  -- tokens that are found near to a token of the query.
  pub has-candidates :
      (i : ℕ)
      → has (candidates (index_of documents known_commands) query config).entry_indices i ≡ (
          any (document_holds documents i) (query.tokens ++ query.concepts)
          || any (holds_near i) query.tokens)
  unfolding candidates
  has-candidates i =
      let index = index_of documents known_commands in
      let posted : (t : Bytes)
          → has (values_at beq index.postings t) i ≡ document_holds documents i t =
        λ t. posting-document_holds documents known_commands t i in
      let near_posted : (q : Bytes)
          → found_near index config i (direct_candidates index query).direct_tokens q
            ≡ holds_near i q =
        λ q.
          ap (λ b. is_fuzzy index config (direct_candidates index query).direct_tokens q && b)
            (any-ext _ _ (λ (near : Bytes × ℕ). posted near.0) (fuzzy_tokens index config q)) in
      has-add_fuzzy index config i query.tokens (direct_candidates index query)
      ∙ ap
          (λ b.
            b
            || any (found_near index config i (direct_candidates index query).direct_tokens)
                query.tokens)
          (has-direct_candidates index query i
            ∙ any-ext _ _ posted (query.tokens ++ query.concepts))
      ∙ ap (λ b. any (document_holds documents i) (query.tokens ++ query.concepts) || b)
          (any-ext _ _ near_posted query.tokens)
