-- ===== src/Index/Build/Vocabulary.antt =====
-- The vocabulary of `InvertedIndex::build` in src/index.cpp, and its parts by length.
use howlinux.Base.{
  ℕ, ◌+◌, ◌&&◌, ◌||◌, List, [], ◌∷◌, ◌≡◌, refl, ◌∙◌, arith, map, ◌==◌, Bytes, beq, beq_iff,
  contains, length, any,
}
use howlinux.Base.Contains.{contains-sort_by}
use howlinux.Base.Multimap.{
  values_at, push_back, has_key, IsKeyTest, values_at-push_back, has_key-push_back,
}
use howlinux.Index.Documents.{EntryDocument, contains-snoc}
use howlinux.Index.Build.{
  Postings, post_document, post_documents, tidy_postings, vocabulary_of, by_length, index_of,
}
use howlinux.Index.Build.Postings.{beq-IsKeyTest, has_key-tidy_postings}

==-IsKeyTest : IsKeyTest ◌==◌
==-IsKeyTest = record { same_eq = λ a b h. ground arith; same_refl = λ a. ground arith }

contains-keys :
    (postings : Postings) (t : Bytes)
    → contains (map (λ (p : Bytes × List ℕ). p.0) postings) t ≡ has_key beq postings t
unfolding contains has_key
contains-keys [] t = refl
contains-keys ((token, indices) ∷ postings) t = ground (arith, contains-keys postings t)

has_key-post_document :
    (index : ℕ) (tokens : List Bytes) (postings : Postings) (t : Bytes)
    → has_key beq (post_document index tokens postings) t
      ≡ (has_key beq postings t || contains tokens t)
unfolding post_document contains
has_key-post_document index [] postings t = ground arith
has_key-post_document index (token ∷ tokens) postings t = ground (
  arith,
  has_key-post_document index tokens (push_back beq postings token index) t,
  has_key-push_back beq beq-IsKeyTest postings token index t,
)

has_key-post_documents :
    (index : ℕ) (ds : List EntryDocument) (postings : Postings) (t : Bytes)
    → has_key beq (post_documents index ds postings) t
      ≡ (has_key beq postings t || any (λ (d : EntryDocument). contains d.all_tokens t) ds)
unfolding post_documents
has_key-post_documents index [] postings t = ground arith
has_key-post_documents index (d ∷ ds) postings t = ground (
  arith,
  has_key-post_documents (index + 1) ds (post_document index d.all_tokens postings) t,
  has_key-post_document index d.all_tokens postings t,
)

-- The vocabulary is made of the tokens of the documents.
vocabulary-documents :
    (documents : List EntryDocument) (known_commands : List Bytes) (t : Bytes)
    → contains (index_of documents known_commands).vocabulary t
      ≡ any (λ (d : EntryDocument). contains d.all_tokens t) documents
unfolding index_of vocabulary_of
vocabulary-documents documents known_commands t =
    let posted = post_documents 0 documents [] in
    contains-sort_by (map (λ (p : Bytes × List ℕ). p.0) (tidy_postings posted)) t
    ∙ contains-keys (tidy_postings posted) t
    ∙ has_key-tidy_postings posted t
    ∙ has_key-post_documents 0 documents [] t
    ∙ unfold has_key in refl

contains-push_back :
    (buckets : List (ℕ × List Bytes)) (token : Bytes) (n : ℕ) (t : Bytes)
    → contains (values_at ◌==◌ (push_back ◌==◌ buckets (length token) token) n) t
      ≡ (contains (values_at ◌==◌ buckets n) t || length token == n && beq token t)
contains-push_back buckets token n t =
    rw (values_at-push_back ◌==◌ ==-IsKeyTest buckets (length token) token n)
      (ground (arith, contains-snoc (values_at ◌==◌ buckets n) token t))

contains-by_length :
    (vocabulary : List Bytes) (buckets : List (ℕ × List Bytes)) (n : ℕ) (t : Bytes)
    → contains (values_at ◌==◌ (by_length vocabulary buckets) n) t
      ≡ (contains (values_at ◌==◌ buckets n) t || contains vocabulary t && length t == n)
unfolding by_length contains
contains-by_length [] buckets n t = ground arith
contains-by_length (token ∷ vocabulary) buckets n t = ground (
  arith,
  contains-by_length vocabulary (push_back ◌==◌ buckets (length token) token) n t,
  contains-push_back buckets token n t,
  beq_iff token t,
)

-- The bucket of a length is made of the words of the vocabulary that have it.
pub contains-bucket :
    (documents : List EntryDocument) (known_commands : List Bytes) (n : ℕ) (t : Bytes)
    → contains (values_at ◌==◌ (index_of documents known_commands).vocabulary_by_length n) t
      ≡ (contains (index_of documents known_commands).vocabulary t && length t == n)
unfolding index_of
contains-bucket documents known_commands n t =
    contains-by_length (index_of documents known_commands).vocabulary [] n t
    ∙ unfold values_at contains in refl
