-- ===== src/Index/Build/Rarities.antt =====
-- The numbers that the inverse document frequencies of src/index.cpp are computed from.
use howlinux.Base.{
  ℕ, suc, ◌+◌, ◌≤◌, ◌<◌, false, List, [], ◌∷◌, ◌≡◌, arith, map, some, none, Option, ltb, ◌==◌,
  Bytes, beq, length, All, All-map, All-append, Bool-cases, inl, inr,
}
use howlinux.Base.Sort.{sort_by, IsStrictWeak, IsSorted, sort_by-All, sort_by-IsSorted}
use howlinux.Base.Multimap.{push_back}
use howlinux.Concepts.Dictionary.{ConceptDictionary}
use howlinux.Knowledge.{KnowledgeEntry}
use howlinux.Index.Documents.{EntryDocument, document_of}
use howlinux.Index.Build.{
  Postings, Rarity, post_document, post_documents, unique_indices, tidy, tidy_postings, rarities,
  index_of, build, idf_of,
}

-- Each index is below the number.
abbrev AreBelow : ℕ → Postings → Type 0
AreBelow n postings = All (λ (p : Bytes × List ℕ). All (λ i. i < n) p.1) postings

module _ (n : ℕ) where
  push_back-AreBelow :
      (postings : Postings) (token : Bytes) (index : ℕ)
      → index < n
      → AreBelow n postings
      → AreBelow n (push_back beq postings token index)
  unfolding push_back
  push_back-AreBelow [] token index h below = ((h, tt), tt)
  push_back-AreBelow ((key, indices) ∷ postings) token index h (here, below) =
      elim (Bool-cases (beq key token)) [
        | inl e ↦ rw e (All-append (λ i. i < n) indices (index ∷ []) here (h, tt), below)
        | inr e ↦ rw e (here, push_back-AreBelow postings token index h below)
      ]

  post_document-AreBelow :
      (index : ℕ) (tokens : List Bytes) (postings : Postings)
      → index < n
      → AreBelow n postings
      → AreBelow n (post_document index tokens postings)
  unfolding post_document
  post_document-AreBelow index [] postings h below = below
  post_document-AreBelow index (token ∷ tokens) postings h below =
      post_document-AreBelow index tokens (push_back beq postings token index) h
        (push_back-AreBelow postings token index h below)

  post_documents-AreBelow :
      (index : ℕ) (documents : List EntryDocument) (postings : Postings)
      → index + length documents ≤ n
      → AreBelow n postings
      → AreBelow n (post_documents index documents postings)
  unfolding post_documents
  post_documents-AreBelow index [] postings h below = below
  post_documents-AreBelow index (document ∷ documents) postings h below =
      post_documents-AreBelow (index + 1) documents
        (post_document index document.all_tokens postings) (omega (arith, h))
        (post_document-AreBelow index document.all_tokens postings (omega (arith, h)) below)

unique_indices-All : (P : ℕ → Type 0) (xs : List ℕ) → All P xs → All P (unique_indices xs)
unfolding unique_indices
unique_indices-All P [] h = tt
unique_indices-All P (x ∷ []) h = h
unique_indices-All P (x ∷ y ∷ xs) (p, h) = elim (Bool-cases (x == y)) [
  | inl e ↦ rw e (unique_indices-All P (y ∷ xs) h)
  | inr e ↦ rw e (p, unique_indices-All P (y ∷ xs) h)
]

-- Each index is greater than those in front of it.
abbrev IsRising : List ℕ → Type 0
IsRising [] = Unit
IsRising (x ∷ xs) = All (λ y. x < y) xs × IsRising xs

unique_indices-IsRising : (xs : List ℕ) → IsSorted ltb xs → IsRising (unique_indices xs)
unfolding unique_indices
unique_indices-IsRising [] h = tt
unique_indices-IsRising (x ∷ []) h = (tt, tt)
unique_indices-IsRising (x ∷ y ∷ xs) ((first, above), (above_y, h)) = elim (Bool-cases (x == y)) [
  | inl e ↦ rw e (unique_indices-IsRising (y ∷ xs) (above_y, h))
  | inr e ↦
      let x_y : x < y = ground (arith, e, first) in
      rw e (
        unique_indices-All (λ z. x < z) (y ∷ xs)
            (x_y, All-map (λ z k. less_of x y z x_y k) xs above_y),
        unique_indices-IsRising (y ∷ xs) (above_y, h),
      )
]
  where
    less_of : (x y z : ℕ) → x < y → ltb z y ≡ false → x < z
    less_of x y z h k = ground (arith, h, k)

rising-length :
    (low n : ℕ) (xs : List ℕ)
    → low ≤ n
    → All (λ x. low ≤ x) xs
    → IsRising xs
    → All (λ x. x < n) xs
    → low + length xs ≤ n
rising-length low n [] h from rising below = omega (arith, h)
rising-length low n (x ∷ xs) h (x_from, from) (above, rising) (x_below, below) =
    let rest = rising-length (suc x) n xs (omega (arith, x_below)) above rising below in
    omega (arith, rest, x_from)

ltb-IsStrictWeak : IsStrictWeak ltb
ltb-IsStrictWeak = record {
  asym = λ x y h. ground (arith, h);
  neg_trans = λ x y z h k. ground (arith, h, k);
}

length-tidy : (n : ℕ) (xs : List ℕ) → All (λ x. x < n) xs → length (tidy xs) ≤ n
unfolding tidy
length-tidy n xs h =
    let sorted = sort_by ltb xs in
    omega (
      arith,
      rising-length 0 n (unique_indices sorted) (omega arith)
          (unique_indices-All (λ x. 0 ≤ x) sorted
            (sort_by-All ltb (λ x. 0 ≤ x) xs (All-map (λ x k. omega arith) xs h)))
          (unique_indices-IsRising sorted (sort_by-IsSorted ltb ltb-IsStrictWeak xs))
          (unique_indices-All (λ x. x < n) sorted (sort_by-All ltb (λ x. x < n) xs h)),
    )

-- A text is in no more documents than there are.
abbrev pub IsRare : Option Rarity → Type 0
IsRare none = Unit
IsRare (some r) = r.frequency ≤ r.document_count

rarities-IsRare :
    (n : ℕ) (postings : Postings) (t : Bytes)
    → AreBelow n postings
    → IsRare (idf_of (rarities n (tidy_postings postings)) t)
unfolding rarities tidy_postings idf_of
rarities-IsRare n [] t h = tt
rarities-IsRare n ((token, indices) ∷ postings) t (here, h) = elim (Bool-cases (beq token t)) [
  | inl e ↦ rw e (length-tidy n indices here)
  | inr e ↦ rw e (rarities-IsRare n postings t h)
]

pub build-IsRare :
    (entries : List KnowledgeEntry) (concepts : ConceptDictionary) (t : Bytes)
    → IsRare (idf_of (build entries concepts).idf t)
unfolding build index_of
build-IsRare entries concepts t =
    let documents = map (document_of concepts) entries in
    rarities-IsRare (length documents) (post_documents 0 documents []) t
      (post_documents-AreBelow (length documents) 0 documents [] (omega arith) tt)
