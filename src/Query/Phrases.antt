-- ===== src/Query/Phrases.antt =====
-- `buildPhrases` of src/query.cpp.
pub mod Laws
pub mod Complete
use howlinux.Base.{
  ℕ, zero, suc, Bool, List, [], ◌∷◌, ◌++◌, ◌≡◌, refl, map, ltb, leb, if◌then◌else◌, Bytes, codes,
  contains, beq, length, take,
}
use howlinux.Query.Tokens.{join_tokens, join_onto}

abbrev pub maximum_ngram_length : ℕ
maximum_ngram_length = 5

-- The inner loop: the parts of one length, at each offset where one fits.
unfoldable pub windows : ℕ → List Bytes → List (List Bytes)
windows n [] = []
windows n (t ∷ ts) =
    let rest = windows n ts in if leb n (length (t ∷ ts)) then take n (t ∷ ts) ∷ rest else []

-- The outer loop, from this length down to 2.
unfoldable pub ngrams : ℕ → List Bytes → List (List Bytes)
unfolding windows
ngrams zero ts = []
ngrams (suc zero) ts = []
ngrams (suc (suc n)) ts = windows (suc (suc n)) ts ++ ngrams (suc n) ts

-- The phrases that are not yet in `seen`, each the first time.
unfoldable pub push_new : List Bytes → List Bytes → List Bytes
push_new [] seen = []
push_new (phrase ∷ phrases) seen =
    let rest = push_new phrases seen in
    let pushed = phrase ∷ push_new phrases (phrase ∷ seen) in
    if contains seen phrase then rest else pushed

-- The parts whose phrases are pushed: a long query whole, then from the longest part on.
unfoldable pub parts : List Bytes → List (List Bytes)
unfolding ngrams
parts ts =
    if ltb maximum_ngram_length (length ts)
    then ts ∷ ngrams maximum_ngram_length ts
    else ngrams (length ts) ts

unfoldable pub build_phrases : List Bytes → List Bytes
unfolding parts push_new
build_phrases ts = if ltb (length ts) 2 then [] else push_new (map join_tokens (parts ts)) []

example :
    build_phrases (codes "a" ∷ codes "b" ∷ codes "a" ∷ codes "b" ∷ [])
    ≡ codes "a b a b" ∷ codes "a b a" ∷ codes "b a b" ∷ codes "a b" ∷ codes "b a" ∷ []
unfolding build_phrases join_tokens contains beq
example = refl
