-- ===== src/Query/Tokens/RoundTrip.antt =====
-- `joinTokens` and `tokenize` of src/query.cpp are inverse to each other on tokens.
use howlinux.Base.{
  Bool, List, [], ◌∷◌, ◌++◌, append-nil, append_assoc, ◌≡◌, ◌≢◌, refl, sym, ◌∙◌, ap, Bytes, All,
}
use howlinux.Query.Chars.{is_chunk_byte}
use howlinux.Query.Lexer.Scan.{lexical_tokens, lexical_tokens-cons, lexical_tokens-nil, round}
use howlinux.Query.Lexer.Shape.{IsToken}
use howlinux.Query.Lexer.Shape.Tokens.{lexical_tokens-IsToken}
use howlinux.Query.Lexer.Relex.{Ends, end, blank, relex, IsToken-ne-nil}
use howlinux.Query.Tokens.{filter_tokens, tokenize, join_onto, join_tokens}
use howlinux.Query.Tokens.Filter.{filter_tokens-All, filter_tokens-id, filter_tokens-IsFiltered}

-- Every token behind a blank.
unfoldable pub spaced : List Bytes → Bytes
spaced [] = []
spaced (t ∷ ts) = b' ' ∷ (t ++ spaced ts)

spaced-Ends : (ts : List Bytes) → Ends (spaced ts)
unfolding spaced
spaced-Ends [] = end
spaced-Ends (t ∷ ts) = blank (t ++ spaced ts)

pub join_onto-spaced :
    (output : Bytes) (ts : List Bytes) → output ≢ [] → join_onto output ts ≡ output ++ spaced ts
unfolding join_onto spaced
join_onto-spaced output [] h = sym (append-nil output)
join_onto-spaced [] (t ∷ ts) h = absurd (h refl)
join_onto-spaced (c ∷ o) (t ∷ ts) h =
    join_onto-spaced (((c ∷ o) ++ b' ' ∷ []) ++ t) ts (cc) ∙ rw (append_assoc, append_assoc)

pub join_tokens-cons :
    (t : Bytes) (ts : List Bytes) → t ≢ [] → join_tokens (t ∷ ts) ≡ t ++ spaced ts
unfolding join_tokens
join_tokens-cons t ts h = join_onto-spaced t ts h

lex_blank : (s : Bytes) → lexical_tokens (b' ' ∷ s) ≡ lexical_tokens s
unfolding round is_chunk_byte
lex_blank s = lexical_tokens-cons b' ' s

lex-spaced : (ts : List Bytes) → All IsToken ts → lexical_tokens (spaced ts) ≡ ts
unfolding spaced
lex-spaced [] h = lexical_tokens-nil
lex-spaced (t ∷ ts) (ht, h) =
    lex_blank (t ++ spaced ts)
    ∙ relex t (spaced ts) ht (spaced-Ends ts)
    ∙ ap (λ u. t ∷ u) (lex-spaced ts h)

-- Joined tokens are read back.
pub lexical_tokens-join_tokens :
    (ts : List Bytes) → All IsToken ts → lexical_tokens (join_tokens ts) ≡ ts
lexical_tokens-join_tokens [] h = unfold join_tokens in lexical_tokens-nil
lexical_tokens-join_tokens (t ∷ ts) (ht, h) =
    rw (join_tokens-cons t ts (IsToken-ne-nil t ht))
      (relex t (spaced ts) ht (spaced-Ends ts) ∙ ap (λ u. t ∷ u) (lex-spaced ts h))

pub tokenize-IsToken : (s : Bytes) (r d : Bool) → All IsToken (tokenize s r d)
unfolding tokenize
tokenize-IsToken s r d =
    filter_tokens-All r d IsToken (lexical_tokens s) [] (lexical_tokens-IsToken s)

-- For each choice of the two flags, joining the tokens of a text with blanks and reading the
-- result again with the same flags gives the same tokens, in the same order.
pub tokenize-join_tokens :
    (s : Bytes) (r d : Bool) → tokenize (join_tokens (tokenize s r d)) r d ≡ tokenize s r d
unfolding tokenize
tokenize-join_tokens s r d =
    let ts = filter_tokens r d (lexical_tokens s) [] in
    ap (λ u. filter_tokens r d u []) (lexical_tokens-join_tokens ts (tokenize-IsToken s r d))
    ∙ filter_tokens-id r d ts [] (filter_tokens-IsFiltered r d (lexical_tokens s) [])
