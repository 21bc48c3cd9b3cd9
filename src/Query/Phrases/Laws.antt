-- ===== src/Query/Phrases/Laws.antt =====
-- Which phrases `buildPhrases` in src/query.cpp returns.
use howlinux.Base.{
  ℕ, zero, suc, ◌≤◌, ◌||◌, List, [], ◌∷◌, ◌++◌, append-nil, ◌≡◌, refl, sym, ap, arith, map, ltb,
  leb, Bytes, contains, beq_iff, length, take, drop, take-append-drop, All, All-append, All-map,
  Bool-cases, inl, inr, ◌⊎◌,
}
use howlinux.Query.Tokens.{join_tokens}
use howlinux.Base.Contains.{IsFresh}
use howlinux.Query.Phrases.{maximum_ngram_length, windows, ngrams, push_new, parts, build_phrases}

-- A part of `ts`: where it stands in it.
pub record IsPart (ts : List Bytes) (part : List Bytes) : Type 0 where
  pub before : List Bytes
  pub behind : List Bytes
  pub splits : ts ≡ before ++ (part ++ behind)

-- A part that has a phrase: two to five tokens, or all of them.
pub record IsPhrasePart (ts : List Bytes) (part : List Bytes) : Type 0 where
  pub part_of : IsPart ts part
  pub at_least : 2 ≤ length part
  pub at_most : (length part ≤ maximum_ngram_length) ⊎ (part ≡ ts)

-- A phrase of `ts`: the joined tokens of such a part.
pub record IsPhrase (ts : List Bytes) (phrase : Bytes) : Type 0 where
  pub part : List Bytes
  pub phrase_part : IsPhrasePart ts part
  pub joins : phrase ≡ join_tokens part

record IsWindow (n : ℕ) (ts part : List Bytes) : Type 0 where
  part_of : IsPart ts part
  size : length part ≡ n

length-take_le : (n : ℕ) (ts : List Bytes) → n ≤ length ts → length (take n ts) ≡ n
length-take_le zero ts h = refl
length-take_le (suc n) [] h = absurd (omega arith)
length-take_le (suc n) (t ∷ ts) h = omega (arith, length-take_le n ts)

IsPart-cons : (t : Bytes) (ts part : List Bytes) → IsPart ts part → IsPart (t ∷ ts) part
IsPart-cons t ts part p = record {
  before = t ∷ p.before;
  behind = p.behind;
  splits = ap (λ u. t ∷ u) p.splits;
}

windows-IsWindow : (n : ℕ) (ts : List Bytes) → All (IsWindow n ts) (windows n ts)
unfolding windows
windows-IsWindow n [] = tt
windows-IsWindow n (t ∷ ts) = elim (Bool-cases (leb n (length (t ∷ ts)))) [
  | inl h ↦ rw h (
    record {
      part_of = record {
        before = [];
        behind = drop n (t ∷ ts);
        splits = sym (take-append-drop n (t ∷ ts));
      };
      size = length-take_le n (t ∷ ts) (ground arith);
    },
    All-map (λ part w. record { part_of = IsPart-cons t ts part w.part_of; size = w.size }) _
        (windows-IsWindow n ts),
  )
  | inr h ↦ rw h tt
]

ngrams-IsPhrasePart :
    (n : ℕ) (ts : List Bytes) → n ≤ maximum_ngram_length → All (IsPhrasePart ts) (ngrams n ts)
unfolding ngrams
ngrams-IsPhrasePart zero ts h = tt
ngrams-IsPhrasePart (suc zero) ts h = tt
ngrams-IsPhrasePart (suc (suc n)) ts h =
    All-append (IsPhrasePart ts) (windows (suc (suc n)) ts) _
      (All-map
        (λ part w. record {
          part_of = w.part_of;
          at_least = omega (arith, w.size);
          at_most = inl (omega (arith, w.size));
        })
        _ (windows-IsWindow (suc (suc n)) ts))
      (ngrams-IsPhrasePart (suc n) ts (omega arith))

parts-IsPhrasePart : (ts : List Bytes) → 2 ≤ length ts → All (IsPhrasePart ts) (parts ts)
unfolding parts
parts-IsPhrasePart ts h = elim (Bool-cases (ltb maximum_ngram_length (length ts))) [
  | inl e ↦ rw e (
    record {
      part_of = record { before = []; behind = []; splits = sym (append-nil ts) };
      at_least = h;
      at_most = inr refl;
    },
    ngrams-IsPhrasePart maximum_ngram_length ts (omega arith),
  )
  | inr e ↦ rw e (ngrams-IsPhrasePart (length ts) ts (ground arith))
]

push_new-All :
    (P : Bytes → Type 0) (phrases seen : List Bytes) → All P phrases → All P (push_new phrases seen)
unfolding push_new
push_new-All P [] seen h = tt
push_new-All P (p ∷ ps) seen (hp, h) = elim (Bool-cases (contains seen p)) [
  | inl e ↦ rw e (push_new-All P ps seen h)
  | inr e ↦ rw e (hp, push_new-All P ps (p ∷ seen) h)
]

push_new-IsFresh : (phrases seen : List Bytes) → IsFresh seen (push_new phrases seen)
unfolding push_new
push_new-IsFresh [] seen = tt
push_new-IsFresh (p ∷ ps) seen = elim (Bool-cases (contains seen p)) [
  | inl e ↦ rw e (push_new-IsFresh ps seen)
  | inr e ↦ rw e (e, push_new-IsFresh ps (p ∷ seen))
]

pub contains-push_new :
    (phrases seen : List Bytes) (p : Bytes)
    → (contains seen p || contains (push_new phrases seen) p)
      ≡ (contains seen p || contains phrases p)
unfolding push_new contains
contains-push_new [] seen p = refl
contains-push_new (q ∷ qs) seen p =
    ground (arith, beq_iff q p, contains-push_new qs seen p, contains-push_new qs (q ∷ seen) p)

map-IsPhrase :
    (ts : List Bytes) (ps : List (List Bytes))
    → All (IsPhrasePart ts) ps
    → All (IsPhrase ts) (map join_tokens ps)
map-IsPhrase ts [] h = tt
map-IsPhrase ts (p ∷ ps) (hp, h) =
    (record { part = p; phrase_part = hp; joins = refl }, map-IsPhrase ts ps h)

-- Each phrase joins two to five neighbouring tokens, or all the tokens, and none stands twice.
pub build_phrases_sound :
    (ts : List Bytes) → All (IsPhrase ts) (build_phrases ts) × IsFresh [] (build_phrases ts)
unfolding build_phrases
build_phrases_sound ts = elim (Bool-cases (ltb (length ts) 2)) [
  | inl e ↦ rw e (tt, tt)
  | inr e ↦ rw e (
    push_new-All (IsPhrase ts) _ [] (map-IsPhrase ts _ (parts-IsPhrasePart ts (ground arith))),
    push_new-IsFresh _ [],
  )
]
