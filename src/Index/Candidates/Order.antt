-- ===== src/Index/Candidates/Order.antt =====
-- The order of the entries that `InvertedIndex::candidates` of src/index.cpp returns.
use howlinux.Base.{
  ℕ, ◌<◌, true, List, [], ◌∷◌, ◌++◌, ◌≡◌, ◌≢◌, arith, none, ltb, ◌==◌, Bytes, beq, any, All,
  Bool-cases, inl, inr,
}
use howlinux.Base.Multimap.{values_at, has_key}
use howlinux.Query.Processor.{QueryContext}
use howlinux.Index.Documents.{EntryDocument}
use howlinux.Index.Build.{Postings, InvertedIndex, index_of, document_at}
use howlinux.Index.Build.Postings.{has, document_holds}
use howlinux.Index.Candidates.{
  FuzzyConfig, CandidateState, insert_index, insert_indices, add_direct, add_all_direct,
  add_matches, add_near, is_fuzzy, fuzzy_tokens, fuzzy_round, add_fuzzy, no_candidates,
  direct_candidates, candidates,
}
use howlinux.Index.Candidates.Entries.{holds_near, has-candidates}

-- In ascending order, and none twice.
abbrev pub IsAscending : List ℕ → Type 0
IsAscending [] = Unit
IsAscending (i ∷ indices) = All (λ j. i < j) indices × IsAscending indices

insert_index-above :
    (k index : ℕ) (indices : List ℕ)
    → k < index
    → All (λ j. k < j) indices
    → All (λ j. k < j) (insert_index index indices)
unfolding insert_index
insert_index-above k index [] h a = (h, tt)
insert_index-above k index (i ∷ indices) h (b, a) = elim (Bool-cases (ltb index i)) [
  | inl e ↦ rw e (h, (b, a))
  | inr e ↦ elim (Bool-cases (index == i)) [
    | inl m ↦ rw (e, m) (b, a)
    | inr m ↦ rw (e, m) (b, insert_index-above k index indices h a)
  ]
]

All-less :
    (k i : ℕ) (indices : List ℕ) → k < i → All (λ j. i < j) indices → All (λ j. k < j) indices
All-less k i [] h a = tt
All-less k i (j ∷ indices) h (b, a) = (omega arith, All-less k i indices h a)

insert_index-IsAscending :
    (index : ℕ) (indices : List ℕ) → IsAscending indices → IsAscending (insert_index index indices)
unfolding insert_index
insert_index-IsAscending index [] a = (tt, tt)
insert_index-IsAscending index (i ∷ indices) (above, a) = elim (Bool-cases (ltb index i)) [
  | inl e ↦ rw e ((ground arith, All-less index i indices (ground arith) above), (above, a))
  | inr e ↦ elim (Bool-cases (index == i)) [
    | inl m ↦ rw (e, m) (above, a)
    | inr m ↦
        rw (e, m)
          (
            insert_index-above i index indices (ground arith) above,
            insert_index-IsAscending index indices a,
          )
  ]
]

insert_indices-IsAscending :
    (posting indices : List ℕ) → IsAscending indices → IsAscending (insert_indices posting indices)
unfolding insert_indices
insert_indices-IsAscending [] indices a = a
insert_indices-IsAscending (index ∷ posting) indices a =
    insert_indices-IsAscending posting _ (insert_index-IsAscending index indices a)

add_direct-IsAscending :
    (postings : Postings) (t : Bytes) (state : CandidateState)
    → IsAscending state.candidate_indices
    → IsAscending (add_direct postings t state).candidate_indices
unfolding add_direct
add_direct-IsAscending postings t state a = elim (Bool-cases (has_key beq postings t)) [
  | inl e ↦ rw e (insert_indices-IsAscending (values_at beq postings t) state.candidate_indices a)
  | inr e ↦ rw e a
]

add_all_direct-IsAscending :
    (postings : Postings) (tokens : List Bytes) (state : CandidateState)
    → IsAscending state.candidate_indices
    → IsAscending (add_all_direct postings tokens state).candidate_indices
unfolding add_all_direct
add_all_direct-IsAscending postings [] state a = a
add_all_direct-IsAscending postings (t ∷ tokens) state a =
    add_all_direct-IsAscending postings tokens (add_direct postings t state)
      (add_direct-IsAscending postings t state a)

add_matches-IsAscending :
    (query_token : Bytes) (near : Bytes × ℕ) (posting : List ℕ) (state : CandidateState)
    → IsAscending state.candidate_indices
    → IsAscending (add_matches query_token near posting state).candidate_indices
unfolding add_matches
add_matches-IsAscending query_token near [] state a = a
add_matches-IsAscending query_token near (index ∷ posting) state a =
    add_matches-IsAscending query_token near posting _ (insert_index-IsAscending index _ a)

add_near-IsAscending :
    (postings : Postings) (query_token : Bytes) (nears : List (Bytes × ℕ)) (state : CandidateState)
    → IsAscending state.candidate_indices
    → IsAscending (add_near postings query_token nears state).candidate_indices
unfolding add_near
add_near-IsAscending postings query_token [] state a = a
add_near-IsAscending postings query_token (near ∷ nears) state a =
    add_near-IsAscending postings query_token nears _
      (add_matches-IsAscending query_token near (values_at beq postings near.0) state a)

fuzzy_round-IsAscending :
    (index : InvertedIndex) (config : FuzzyConfig) (q : Bytes) (state : CandidateState)
    → IsAscending state.candidate_indices
    → IsAscending (fuzzy_round index config q state).candidate_indices
unfolding fuzzy_round
fuzzy_round-IsAscending index config q state a =
    elim (Bool-cases (is_fuzzy index config state.direct_tokens q)) [
      | inl e ↦ rw e (add_near-IsAscending index.postings q (fuzzy_tokens index config q) state a)
      | inr e ↦ rw e a
    ]

add_fuzzy-IsAscending :
    (index : InvertedIndex) (config : FuzzyConfig) (tokens : List Bytes) (state : CandidateState)
    → IsAscending state.candidate_indices
    → IsAscending (add_fuzzy index config tokens state).candidate_indices
unfolding add_fuzzy
add_fuzzy-IsAscending index config [] state a = a
add_fuzzy-IsAscending index config (q ∷ tokens) state a =
    add_fuzzy-IsAscending index config tokens (fuzzy_round index config q state)
      (fuzzy_round-IsAscending index config q state a)

All-has : (P : ℕ → Type 0) (xs : List ℕ) → ((i : ℕ) → has xs i ≡ true → P i) → All P xs
All-has P [] h = tt
All-has P (x ∷ xs) h = (h x (ground arith), All-has P xs (λ i k. h i (ground arith)))

-- Where a document holds a token there is a document.
holds-document :
    (documents : List EntryDocument) (i : ℕ) (t : Bytes)
    → document_holds documents i t ≡ true
    → document_at documents i ≢ none
holds-document documents i t h = λ e. absurd (cc (h, e))

any-document :
    {A : Type 0} (documents : List EntryDocument) (i : ℕ) (token : A → Bytes) (xs : List A)
    → any (λ x. document_holds documents i (token x)) xs ≡ true
    → document_at documents i ≢ none
any-document documents i token [] h = cc
any-document documents i token (x ∷ xs) h =
    elim (Bool-cases (document_holds documents i (token x))) [
      | inl e ↦ holds-document documents i (token x) e
      | inr e ↦ any-document documents i token xs (ground arith)
    ]

module _ (documents : List EntryDocument) (known_commands : List Bytes) (query : QueryContext)
    (config : FuzzyConfig) where
  near-document :
      (i : ℕ) (tokens : List Bytes)
      → any (holds_near documents known_commands query config i) tokens ≡ true
      → document_at documents i ≢ none
  near-document i [] h = cc
  near-document i (q ∷ tokens) h =
      let nears = fuzzy_tokens (index_of documents known_commands) config q in
      elim (Bool-cases (any (λ (near : Bytes × ℕ). document_holds documents i near.0) nears)) [
        | inl e ↦ any-document documents i (λ (near : Bytes × ℕ). near.0) nears e
        | inr e ↦ near-document i tokens (ground arith)
      ]

  candidate-document :
      (i : ℕ)
      → has (candidates (index_of documents known_commands) query config).entry_indices i ≡ true
      → document_at documents i ≢ none
  candidate-document i h =
      let tokens = query.tokens ++ query.concepts in
      let found = has-candidates documents known_commands query config i in
      elim (Bool-cases (any (document_holds documents i) tokens)) [
        | inl e ↦ any-document documents i (λ t. t) tokens e
        | inr e ↦ near-document i query.tokens (cc (h, found, e))
      ]

-- The candidates come in ascending order, none twice, and each is the index of a document.
pub candidates-IsAscending :
    (documents : List EntryDocument) (known_commands : List Bytes) (query : QueryContext)
    (config : FuzzyConfig)
    → IsAscending (candidates (index_of documents known_commands) query config).entry_indices
      × All
          (λ i. document_at documents i ≢ none)
          (candidates (index_of documents known_commands) query config).entry_indices
unfolding candidates direct_candidates
candidates-IsAscending documents known_commands query config =
    let index = index_of documents known_commands in
    (
      add_fuzzy-IsAscending index config query.tokens _ (
          add_all_direct-IsAscending index.postings query.concepts _
            (add_all_direct-IsAscending index.postings query.tokens no_candidates tt)),
      All-has (λ i. document_at documents i ≢ none) _
          (candidate-document documents known_commands query config),
    )
