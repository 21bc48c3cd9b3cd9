-- ===== src/Index/Candidates.antt =====
-- `InvertedIndex::candidates` of src/index.cpp.
pub mod Entries
pub mod Words
pub mod Order
pub mod Near
pub mod Aliases
use howlinux.Base.{
  ℕ, zero, suc, ◌+◌, ◌-◌, Bool, true, false, ◌&&◌, ◌||◌, not, List, [], ◌∷◌, ◌++◌, ltb, leb, ◌==◌,
  if◌then◌else◌, Bytes, beq, blt, contains, length, any, all, is_empty, take,
}
use howlinux.Base.Sort.{sort_by}
use howlinux.Base.Multimap.{values_at, push_back, has_key}
use howlinux.Query.Chars.{is_ascii_digit, is_direction}
use howlinux.Query.Processor.{QueryContext}
use howlinux.Index.Distance.{distance}
use howlinux.Index.Documents.{insert}
use howlinux.Index.Build.{Postings, InvertedIndex}

-- The part of `SearchConfig` in include/config.hpp that the index uses.
pub record FuzzyConfig : Type 0 where
  pub fuzzy_minimum_length : ℕ
  pub fuzzy_match_limit_per_token : ℕ

abbrev pub default_config : FuzzyConfig
default_config = record { fuzzy_minimum_length = 4; fuzzy_match_limit_per_token = 32 }

-- `FuzzyTokenMatch`
pub record FuzzyTokenMatch : Type 0 where
  pub query_token : Bytes
  pub indexed_token : Bytes
  pub distance : ℕ

abbrev pub FuzzyMatches : Type 0
FuzzyMatches = List (ℕ × List FuzzyTokenMatch)

-- `CandidateSet`
pub record CandidateSet : Type 0 where
  pub entry_indices : List ℕ
  pub fuzzy_matches : FuzzyMatches

-- `insert` of a `std::set`, which is kept in order.
unfoldable pub insert_index : ℕ → List ℕ → List ℕ
insert_index index [] = index ∷ []
insert_index index (i ∷ indices) =
    let rest = i ∷ insert_index index indices in
    if ltb index i then index ∷ i ∷ indices else if index == i then i ∷ indices else rest

unfoldable pub insert_indices : List ℕ → List ℕ → List ℕ
unfolding insert_index
insert_indices [] indices = indices
insert_indices (index ∷ posting) indices = insert_indices posting (insert_index index indices)

-- `candidate_indices`, `direct_tokens` and `result.fuzzy_matches`.
pub record CandidateState : Type 0 where
  pub candidate_indices : List ℕ
  pub direct_tokens : List Bytes
  pub fuzzy_matches : FuzzyMatches

-- `add_postings`
unfoldable pub add_direct : Postings → Bytes → CandidateState → CandidateState
unfolding values_at has_key insert_indices insert
add_direct postings token state =
    if has_key beq postings token
    then record state {
      candidate_indices = insert_indices (values_at beq postings token) state.candidate_indices;
      direct_tokens = insert state.direct_tokens token;
    }
    else state

-- The loops over the tokens, and over the concepts.
unfoldable pub add_all_direct : Postings → List Bytes → CandidateState → CandidateState
unfolding add_direct
add_all_direct postings [] state = state
add_all_direct postings (token ∷ tokens) state =
    add_all_direct postings tokens (add_direct postings token state)

abbrev pub starts_with_dash : Bytes → Bool
starts_with_dash [] = false
starts_with_dash (c ∷ s) = c == b'-'

-- `isProtectedFromFuzzy`
unfoldable pub is_protected_from_fuzzy : Bytes → List Bytes → Bool
unfolding is_ascii_digit is_direction
is_protected_from_fuzzy token known_commands =
    is_empty token
    || starts_with_dash token
    || contains known_commands token
    || all (λ byte. is_ascii_digit byte || byte == b'.' || is_direction byte) token

unfoldable pub maximum_distance_of : Bytes → ℕ
maximum_distance_of query_token = if leb 7 (length query_token) then 2 else 1

-- The loop over the tokens of one length.
unfoldable pub near_tokens : List Bytes → Bytes → ℕ → List Bytes → List (Bytes × ℕ)
near_tokens known_commands query_token maximum_distance [] = []
near_tokens known_commands query_token maximum_distance (indexed_token ∷ bucket) =
    let rest = near_tokens known_commands query_token maximum_distance bucket in
    if is_protected_from_fuzzy indexed_token known_commands
    then rest
    else if leb (distance query_token indexed_token maximum_distance) maximum_distance
    then (indexed_token, distance query_token indexed_token maximum_distance) ∷ rest
    else rest

-- The loop over the lengths: this many of them, from this one on.
unfoldable pub near_lengths : InvertedIndex → Bytes → ℕ → ℕ → ℕ → List (Bytes × ℕ)
unfolding near_tokens values_at
near_lengths index query_token maximum_distance zero length' = []
near_lengths index query_token maximum_distance (suc count) length' =
    near_tokens index.known_commands query_token maximum_distance
      (values_at ◌==◌ index.vocabulary_by_length length')
    ++ near_lengths index query_token maximum_distance count (length' + 1)

-- The comparison of the near tokens.
unfoldable pub nearer : Bytes × ℕ → Bytes × ℕ → Bool
nearer (left, left_distance) (right, right_distance) =
    if not (left_distance == right_distance)
    then ltb left_distance right_distance
    else blt left right

-- `fuzzy_tokens`, sorted and cut. From `minimum_length` to `maximum_length` there are as many
-- lengths as one more than their difference.
unfoldable pub fuzzy_tokens : InvertedIndex → FuzzyConfig → Bytes → List (Bytes × ℕ)
unfolding near_lengths nearer maximum_distance_of
fuzzy_tokens index config query_token =
    let maximum_distance = maximum_distance_of query_token in
    let minimum_length = length query_token - maximum_distance in
    let maximum_length = length query_token + maximum_distance in
    take config.fuzzy_match_limit_per_token (
      sort_by nearer (
        near_lengths index query_token maximum_distance (maximum_length + 1 - minimum_length)
          minimum_length))

-- The test for a duplicate.
abbrev pub is_match : Bytes → Bytes → FuzzyTokenMatch → Bool
is_match query_token indexed_token found =
    beq found.query_token query_token && beq found.indexed_token indexed_token

unfoldable pub add_match : Bytes → Bytes × ℕ → ℕ → FuzzyMatches → FuzzyMatches
unfolding push_back values_at
add_match query_token (indexed_token, distance') entry_index fuzzy_matches =
    if any (is_match query_token indexed_token) (values_at ◌==◌ fuzzy_matches entry_index)
    then fuzzy_matches
    else push_back ◌==◌ fuzzy_matches entry_index
        (record { query_token = query_token; indexed_token = indexed_token; distance = distance' })

-- The loop over one posting.
unfoldable pub add_matches : Bytes → Bytes × ℕ → List ℕ → CandidateState → CandidateState
unfolding add_match insert_index
add_matches query_token near [] state = state
add_matches query_token near (entry_index ∷ posting) state =
    add_matches query_token near posting (record state {
      candidate_indices = insert_index entry_index state.candidate_indices;
      fuzzy_matches = add_match query_token near entry_index state.fuzzy_matches;
    })

-- The loop over the near tokens.
unfoldable pub add_near : Postings → Bytes → List (Bytes × ℕ) → CandidateState → CandidateState
unfolding add_matches values_at
add_near postings query_token [] state = state
add_near postings query_token (near ∷ nears) state =
    add_near postings query_token nears
      (add_matches query_token near (values_at beq postings near.0) state)

-- The tokens that are looked up by distance.
unfoldable pub is_fuzzy : InvertedIndex → FuzzyConfig → List Bytes → Bytes → Bool
unfolding is_protected_from_fuzzy
is_fuzzy index config direct_tokens query_token = not (
    contains direct_tokens query_token
    || ltb (length query_token) config.fuzzy_minimum_length
    || is_protected_from_fuzzy query_token index.known_commands)

-- One round of the second loop over the tokens of the query.
unfoldable pub fuzzy_round : InvertedIndex → FuzzyConfig → Bytes → CandidateState → CandidateState
fuzzy_round index config query_token state =
    if is_fuzzy index config state.direct_tokens query_token
    then add_near index.postings query_token (fuzzy_tokens index config query_token) state
    else state

unfoldable pub add_fuzzy :
    InvertedIndex → FuzzyConfig → List Bytes → CandidateState → CandidateState
unfolding fuzzy_round
add_fuzzy index config [] state = state
add_fuzzy index config (query_token ∷ tokens) state =
    add_fuzzy index config tokens (fuzzy_round index config query_token state)

abbrev pub no_candidates : CandidateState
no_candidates = record { candidate_indices = []; direct_tokens = []; fuzzy_matches = [] }

-- The state behind the lookups of tokens and concepts as they are.
unfoldable pub direct_candidates : InvertedIndex → QueryContext → CandidateState
unfolding add_all_direct
direct_candidates index query =
    add_all_direct index.postings query.concepts
      (add_all_direct index.postings query.tokens no_candidates)

-- `candidates`
unfoldable pub candidates : InvertedIndex → QueryContext → FuzzyConfig → CandidateSet
unfolding direct_candidates add_fuzzy is_fuzzy fuzzy_tokens add_near is_protected_from_fuzzy
    distance
candidates index query config =
    let state = add_fuzzy index config query.tokens (direct_candidates index query) in
    record { entry_indices = state.candidate_indices; fuzzy_matches = state.fuzzy_matches }
