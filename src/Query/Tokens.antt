-- ===== src/Query/Tokens.antt =====
-- `stopwords`, `tokenize` and `joinTokens` of src/query.cpp.
pub mod Filter
pub mod RoundTrip
use howlinux.Base.{
  Bool, true, false, ◌&&◌, not, List, [], ◌∷◌, ◌++◌, ◌≡◌, refl, if◌then◌else◌, Bytes, codes,
  contains, beq, is_empty,
}
use howlinux.Query.Lexer.Scan.{lexical_tokens}

-- `stopwords`
abbrev pub stopwords : List Bytes
stopwords =
    codes "a"
    ∷ codes "an"
    ∷ codes "and"
    ∷ codes "are"
    ∷ codes "be"
    ∷ codes "can"
    ∷ codes "could"
    ∷ codes "define"
    ∷ codes "describe"
    ∷ codes "did"
    ∷ codes "do"
    ∷ codes "does"
    ∷ codes "explain"
    ∷ codes "for"
    ∷ codes "from"
    ∷ codes "help"
    ∷ codes "how"
    ∷ codes "i"
    ∷ codes "in"
    ∷ codes "is"
    ∷ codes "it"
    ∷ codes "me"
    ∷ codes "mean"
    ∷ codes "means"
    ∷ codes "my"
    ∷ codes "of"
    ∷ codes "on"
    ∷ codes "or"
    ∷ codes "please"
    ∷ codes "should"
    ∷ codes "show"
    ∷ codes "that"
    ∷ codes "the"
    ∷ codes "this"
    ∷ codes "to"
    ∷ codes "was"
    ∷ codes "were"
    ∷ codes "what"
    ∷ codes "why"
    ∷ codes "with"
    ∷ codes "would"
    ∷ []

-- `isStopword`
unfoldable pub is_stopword : Bytes → Bool
unfolding contains beq
is_stopword token = contains stopwords token

-- The loop of `tokenize`; the last argument is the set `seen`.
unfoldable pub filter_tokens : Bool → Bool → List Bytes → List Bytes → List Bytes
filter_tokens remove_stopwords deduplicate [] seen = []
filter_tokens remove_stopwords deduplicate (token ∷ lexical) seen =
    let skipped = filter_tokens remove_stopwords deduplicate lexical seen in
    let kept =
      token
      ∷ filter_tokens remove_stopwords deduplicate lexical
          (if deduplicate then token ∷ seen else seen) in
    if remove_stopwords && is_stopword token
    then skipped
    else if deduplicate && contains seen token
    then skipped
    else kept

-- `tokenize`
unfoldable pub tokenize : Bytes → Bool → Bool → List Bytes
unfolding filter_tokens
tokenize input remove_stopwords deduplicate =
    filter_tokens remove_stopwords deduplicate (lexical_tokens input) []

-- The loop of `joinTokens`; the first argument is `output`.
unfoldable pub join_onto : Bytes → List Bytes → Bytes
join_onto output [] = output
join_onto output (token ∷ tokens) =
    join_onto ((if is_empty output then output else output ++ b' ' ∷ []) ++ token) tokens

-- `joinTokens`
unfoldable pub join_tokens : List Bytes → Bytes
unfolding join_onto
join_tokens tokens = join_onto [] tokens
