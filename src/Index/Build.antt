-- ===== src/Index/Build.antt =====
-- `InvertedIndex::build` of src/index.cpp, and the lookups in what it leaves.
pub mod Postings
pub mod Vocabulary
pub mod Words
pub mod Rarities
use howlinux.Base.{
  ℕ, zero, suc, ◌+◌, Bool, true, false, ◌&&◌, ◌||◌, List, [], ◌∷◌, ◌++◌, map, Option, none, some,
  ltb, ◌==◌, if◌then◌else◌, Bytes, beq, blt, contains, length,
}
use howlinux.Base.Sort.{sort_by}
use howlinux.Base.Multimap.{values_at, push_back, has_key}
use howlinux.Concepts.Dictionary.{ConceptDictionary}
use howlinux.Knowledge.{KnowledgeEntry}
use howlinux.Index.Documents.{EntryDocument, document_of, add_tokens, command_tokens_of}

abbrev pub Postings : Type 0
Postings = List (Bytes × List ℕ)

-- The double of `idf_` is `log((document_count + 1) / (frequency + 1)) + 1`, of these two numbers.
pub record Rarity : Type 0 where
  pub document_count : ℕ
  pub frequency : ℕ

-- `InvertedIndex`
pub record InvertedIndex : Type 0 where
  pub documents : List EntryDocument
  pub postings : Postings
  pub idf : List (Bytes × Rarity)
  pub known_commands : List Bytes
  pub vocabulary : List Bytes
  pub vocabulary_by_length : List (ℕ × List Bytes)

-- The commands' tokens, over the entries.
unfoldable pub known_commands_of : List KnowledgeEntry → List Bytes → List Bytes
unfolding command_tokens_of add_tokens
known_commands_of [] known_commands = known_commands
known_commands_of (entry ∷ entries) known_commands =
    known_commands_of entries (add_tokens known_commands (command_tokens_of entry))

-- The loop over the tokens of one document.
unfoldable pub post_document : ℕ → List Bytes → Postings → Postings
unfolding push_back
post_document index [] postings = postings
post_document index (token ∷ tokens) postings =
    post_document index tokens (push_back beq postings token index)

-- The loop over the documents, from this index on.
unfoldable pub post_documents : ℕ → List EntryDocument → Postings → Postings
unfolding post_document
post_documents index [] postings = postings
post_documents index (document ∷ documents) postings =
    post_documents (index + 1) documents (post_document index document.all_tokens postings)

-- `std::unique`
unfoldable pub unique_indices : List ℕ → List ℕ
unique_indices [] = []
unique_indices (x ∷ []) = x ∷ []
unique_indices (x ∷ y ∷ xs) =
    let rest = unique_indices (y ∷ xs) in if x == y then rest else x ∷ rest

-- A posting, sorted, and each index once.
unfoldable pub tidy : List ℕ → List ℕ
unfolding unique_indices
tidy indices = unique_indices (sort_by ltb indices)

unfoldable pub tidy_postings : Postings → Postings
unfolding tidy
tidy_postings [] = []
tidy_postings ((token, indices) ∷ postings) = (token, tidy indices) ∷ tidy_postings postings

unfoldable pub rarities : ℕ → Postings → List (Bytes × Rarity)
rarities document_count [] = []
rarities document_count ((token, indices) ∷ postings) =
    (token, record { document_count = document_count; frequency = length indices })
    ∷ rarities document_count postings

unfoldable pub vocabulary_of : Postings → List Bytes
vocabulary_of postings = sort_by blt (map (λ (p : Bytes × List ℕ). p.0) postings)

-- The loop over the vocabulary.
unfoldable pub by_length : List Bytes → List (ℕ × List Bytes) → List (ℕ × List Bytes)
unfolding push_back
by_length [] buckets = buckets
by_length (token ∷ vocabulary) buckets =
    by_length vocabulary (push_back ◌==◌ buckets (length token) token)

-- The index over these documents.
unfoldable pub index_of : List EntryDocument → List Bytes → InvertedIndex
unfolding post_documents tidy_postings rarities vocabulary_of by_length
index_of documents known_commands =
    let postings = tidy_postings (post_documents 0 documents []) in
    record {
      documents = documents;
      postings = postings;
      idf = rarities (length documents) postings;
      known_commands = known_commands;
      vocabulary = vocabulary_of postings;
      vocabulary_by_length = by_length (vocabulary_of postings) [];
    }

-- `build`
unfoldable pub build : List KnowledgeEntry → ConceptDictionary → InvertedIndex
unfolding document_of known_commands_of index_of
build entries concepts =
    index_of (map (document_of concepts) entries) (known_commands_of entries [])

-- `idf`: nothing stands for 1.0, the answer on a token without an entry.
unfoldable pub idf_of : List (Bytes × Rarity) → Bytes → Option Rarity
idf_of [] token = none
idf_of ((key, rarity) ∷ rarities') token =
    if beq key token then some rarity else idf_of rarities' token

-- `document`: nothing, where it throws `std::out_of_range`.
unfoldable pub document_at : List EntryDocument → ℕ → Option EntryDocument
document_at [] index = none
document_at (document ∷ documents) zero = some document
document_at (document ∷ documents) (suc index) = document_at documents index
