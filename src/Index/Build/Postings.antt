-- ===== src/Index/Build/Postings.antt =====
-- The postings that `InvertedIndex::build` of src/index.cpp leaves.
use howlinux.Base.{
  ℕ, zero, suc, ◌+◌, ◌<◌, Bool, false, ◌&&◌, ◌||◌, List, [], ◌∷◌, ◌++◌, ◌≡◌, refl, ap, ◌∙◌, arith,
  Option, none, some, ltb, ◌==◌, Bytes, beq, beq_iff, beq_refl, contains, any,
}
use howlinux.Base.Sort.{sort_by, any-sort_by}
use howlinux.Base.Multimap.{values_at, push_back, has_key, IsKeyTest, values_at-push_back}
use howlinux.Index.Documents.{EntryDocument}
use howlinux.Index.Build.{
  Postings, post_document, post_documents, unique_indices, tidy, tidy_postings, document_at,
  index_of,
}

abbrev pub has : List ℕ → ℕ → Bool
has indices i = any (λ j. j == i) indices

pub beq-IsKeyTest : IsKeyTest beq
beq-IsKeyTest = record { same_eq = λ a b. (beq_iff a b).0; same_refl = beq_refl }

has-snoc : (xs : List ℕ) (y i : ℕ) → has (xs ++ y ∷ []) i ≡ (has xs i || y == i)
has-snoc [] y i = ground arith
has-snoc (x ∷ xs) y i = ground (arith, has-snoc xs y i)

has-push_back :
    (postings : Postings) (token : Bytes) (index : ℕ) (t : Bytes) (i : ℕ)
    → has (values_at beq (push_back beq postings token index) t) i
      ≡ (has (values_at beq postings t) i || beq token t && index == i)
has-push_back postings token index t i =
    rw (values_at-push_back beq beq-IsKeyTest postings token index t)
      (ground (arith, has-snoc (values_at beq postings t) index i))

has-post_document :
    (index : ℕ) (tokens : List Bytes) (postings : Postings) (t : Bytes) (i : ℕ)
    → has (values_at beq (post_document index tokens postings) t) i
      ≡ (has (values_at beq postings t) i || contains tokens t && index == i)
unfolding post_document contains
has-post_document index [] postings t i = ground arith
has-post_document index (token ∷ tokens) postings t i = ground (
  arith,
  has-post_document index tokens (push_back beq postings token index) t i,
  has-push_back postings token index t i,
)

-- One of the documents, the first of which has this index, holds the token and has the index `i`.
abbrev holds_from : ℕ → List EntryDocument → ℕ → Bytes → Bool
holds_from index [] i t = false
holds_from index (d ∷ ds) i t =
    contains d.all_tokens t && index == i || holds_from (index + 1) ds i t

has-post_documents :
    (index : ℕ) (ds : List EntryDocument) (postings : Postings) (t : Bytes) (i : ℕ)
    → has (values_at beq (post_documents index ds postings) t) i
      ≡ (has (values_at beq postings t) i || holds_from index ds i t)
unfolding post_documents
has-post_documents index [] postings t i = ground arith
has-post_documents index (d ∷ ds) postings t i = ground (
  arith,
  has-post_documents (index + 1) ds (post_document index d.all_tokens postings) t i,
  has-post_document index d.all_tokens postings t i,
)

has-unique_indices : (xs : List ℕ) (i : ℕ) → has (unique_indices xs) i ≡ has xs i
unfolding unique_indices
has-unique_indices [] i = refl
has-unique_indices (x ∷ []) i = refl
has-unique_indices (x ∷ y ∷ xs) i = ground (arith, has-unique_indices (y ∷ xs) i)

has-tidy : (xs : List ℕ) (i : ℕ) → has (tidy xs) i ≡ has xs i
unfolding tidy
has-tidy xs i = has-unique_indices (sort_by ltb xs) i ∙ any-sort_by ltb (λ j. j == i) xs

values_at-tidy_postings :
    (postings : Postings) (t : Bytes)
    → values_at beq (tidy_postings postings) t ≡ tidy (values_at beq postings t)
unfolding values_at tidy_postings
values_at-tidy_postings [] t = unfold tidy sort_by unique_indices in refl
values_at-tidy_postings ((token, indices) ∷ postings) t =
    ground (arith, values_at-tidy_postings postings t)

pub has_key-tidy_postings :
    (postings : Postings) (t : Bytes)
    → has_key beq (tidy_postings postings) t ≡ has_key beq postings t
unfolding has_key tidy_postings
has_key-tidy_postings [] t = refl
has_key-tidy_postings ((token, indices) ∷ postings) t =
    ground (arith, has_key-tidy_postings postings t)

-- The document at an index holds the token.
abbrev holds : Option EntryDocument → Bytes → Bool
holds none t = false
holds (some d) t = contains d.all_tokens t

abbrev pub document_holds : List EntryDocument → ℕ → Bytes → Bool
document_holds documents i t = holds (document_at documents i) t

holds_from-below :
    (index : ℕ) (ds : List EntryDocument) (i : ℕ) (t : Bytes)
    → i < index
    → holds_from index ds i t ≡ false
holds_from-below index [] i t h = refl
holds_from-below index (d ∷ ds) i t h =
    ground (arith, holds_from-below (index + 1) ds i t (omega arith))

holds_from-document_at :
    (index : ℕ) (ds : List EntryDocument) (i : ℕ) (t : Bytes)
    → holds_from index ds (index + i) t ≡ document_holds ds i t
unfolding document_at
holds_from-document_at index [] i t = refl
holds_from-document_at index (d ∷ ds) zero t =
    ground (arith, holds_from-below (index + 1) ds (index + 0) t (omega arith))
holds_from-document_at index (d ∷ ds) (suc i) t =
    let e : index + suc i ≡ index + 1 + i = omega arith in
    ground
      (arith, ap (λ n. holds_from (index + 1) ds n t) e, holds_from-document_at (index + 1) ds i t)

-- The posting of a token holds an index exactly if the document at that index holds the token.
pub posting-document_holds :
    (documents : List EntryDocument) (known_commands : List Bytes) (t : Bytes) (i : ℕ)
    → has (values_at beq (index_of documents known_commands).postings t) i
      ≡ document_holds documents i t
unfolding index_of
posting-document_holds documents known_commands t i =
    rw (values_at-tidy_postings (post_documents 0 documents []) t) (
      has-tidy (values_at beq (post_documents 0 documents []) t) i
      ∙ has-post_documents 0 documents [] t i
      ∙ unfold values_at in
        ap (λ n. holds_from 0 documents n t) (omega arith) ∙ holds_from-document_at 0 documents i t)
