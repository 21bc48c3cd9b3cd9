-- ===== src/Query/Tokens/Filter.antt =====
-- What the filter of `tokenize` in src/query.cpp keeps.
use howlinux.Base.Contains.{IsFresh}
use howlinux.Base.{
  Bool, true, false, ◌&&◌, ◌||◌, not, List, [], ◌∷◌, ◌≡◌, refl, arith, Bytes, contains, beq_iff,
  Bool-cases, inl, inr, All,
}
use howlinux.Query.Tokens.{is_stopword, filter_tokens}

-- What a filter with these flags lets through.
abbrev pub IsFiltered : Bool → Bool → List Bytes → List Bytes → Type 0
IsFiltered r d seen ts =
    (r ≡ true → All (λ t. is_stopword t ≡ false) ts) × (d ≡ true → IsFresh seen ts)

module _ (r d : Bool) where
  pub filter_tokens-All :
      (P : Bytes → Type 0) (ts seen : List Bytes) → All P ts → All P (filter_tokens r d ts seen)
  unfolding filter_tokens
  filter_tokens-All P [] seen h = tt
  filter_tokens-All P (t ∷ ts) seen (p, h) = elim (Bool-cases (r && is_stopword t)) [
    | inl e ↦ rw e (filter_tokens-All P ts seen h)
    | inr e ↦ elim (Bool-cases (d && contains seen t)) [
      | inl k ↦ rw (e, k) (filter_tokens-All P ts seen h)
      | inr k ↦ rw (e, k) (p, filter_tokens-All P ts _ h)
    ]
  ]

-- Words that pass the filter stay as they are.
pub filter_tokens-id :
    (r d : Bool) (ts seen : List Bytes) → IsFiltered r d seen ts → filter_tokens r d ts seen ≡ ts
unfolding filter_tokens
filter_tokens-id false false [] seen h = refl
filter_tokens-id false true [] seen h = refl
filter_tokens-id true false [] seen h = refl
filter_tokens-id true true [] seen h = refl
filter_tokens-id false false (t ∷ ts) seen h =
    rw (filter_tokens-id false false ts seen (λ e. cc, λ e. cc))
filter_tokens-id false true (t ∷ ts) seen (h, k) =
    rw ((k refl).0, filter_tokens-id false true ts (t ∷ seen) (λ e. cc, λ e. (k refl).1))
filter_tokens-id true false (t ∷ ts) seen (h, k) =
    rw ((h refl).0, filter_tokens-id true false ts seen (λ e. (h refl).1, λ e. cc))
filter_tokens-id true true (t ∷ ts) seen (h, k) = rw (
  (h refl).0,
  (k refl).0,
  filter_tokens-id true true ts (t ∷ seen) (λ e. (h refl).1, λ e. (k refl).1),
)

filter_tokens-words :
    (d : Bool) (ts seen : List Bytes)
    → All (λ t. is_stopword t ≡ false) (filter_tokens true d ts seen)
unfolding filter_tokens
filter_tokens-words d [] seen = tt
filter_tokens-words d (t ∷ ts) seen = elim (Bool-cases (is_stopword t)) [
  | inl e ↦ rw e (filter_tokens-words d ts seen)
  | inr e ↦ elim (Bool-cases (d && contains seen t)) [
    | inl k ↦ rw (e, k) (filter_tokens-words d ts seen)
    | inr k ↦ rw (e, k) (e, filter_tokens-words d ts _)
  ]
]

filter_tokens-IsFresh :
    (r : Bool) (ts seen : List Bytes) → IsFresh seen (filter_tokens r true ts seen)
unfolding filter_tokens
filter_tokens-IsFresh r [] seen = tt
filter_tokens-IsFresh r (t ∷ ts) seen = elim (Bool-cases (r && is_stopword t)) [
  | inl e ↦ rw e (filter_tokens-IsFresh r ts seen)
  | inr e ↦ elim (Bool-cases (contains seen t)) [
    | inl k ↦ rw (e, k) (filter_tokens-IsFresh r ts seen)
    | inr k ↦ rw (e, k) (k, filter_tokens-IsFresh r ts (t ∷ seen))
  ]
]

pub filter_tokens-IsFiltered :
    (r d : Bool) (ts seen : List Bytes) → IsFiltered r d seen (filter_tokens r d ts seen)
filter_tokens-IsFiltered false false ts seen = (λ e. cc, λ e. cc)
filter_tokens-IsFiltered false true ts seen = (λ e. cc, λ e. filter_tokens-IsFresh false ts seen)
filter_tokens-IsFiltered true false ts seen = (λ e. filter_tokens-words false ts seen, λ e. cc)
filter_tokens-IsFiltered true true ts seen =
    (λ e. filter_tokens-words true ts seen, λ e. filter_tokens-IsFresh true ts seen)

-- A token is kept exactly if it is read, and is no stopword where those are removed.
contains-filter_tokens :
    (r d : Bool) (ts seen : List Bytes) (t : Bytes)
    → (d && contains seen t || contains (filter_tokens r d ts seen) t)
      ≡ (d && contains seen t || contains ts t && not (r && is_stopword t))
unfolding filter_tokens contains
contains-filter_tokens r d [] seen t = ground arith
contains-filter_tokens r d (x ∷ ts) seen t = ground (
  arith,
  beq_iff x t,
  contains-filter_tokens r d ts seen t,
  contains-filter_tokens r d ts (x ∷ seen) t,
)
