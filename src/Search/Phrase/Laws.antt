-- ===== src/Search/Phrase/Laws.antt =====
-- `containsNormalizedPhrase` of src/search.cpp on joined tokens.
use howlinux.Base.{
  Bool, false, ◌&&◌, ◌||◌, not, List, [], ◌∷◌, ◌++◌, ◌≡◌, ◌≢◌, refl, ap, ◌∙◌, arith, Bytes, beq,
  is_empty, append_assoc, All, All-map,
}
use howlinux.Query.Lexer.Shape.{IsToken}
use howlinux.Query.Lexer.Relex.{IsToken-ne-nil}
use howlinux.Query.Tokens.{join_tokens}
use howlinux.Query.Tokens.RoundTrip.{spaced, join_tokens-cons}
use howlinux.Query.Processor.{begins_with}
use howlinux.Query.Processor.Commands.{NoBlank, token-NoBlank}
use howlinux.Search.Phrase.{text_starts, text_contains, contains_normalized_phrase}

-- The blanks around the tokens.
abbrev blanked : List Bytes → Bytes
blanked ts = spaced ts ++ b' ' ∷ []

-- The tokens stand next to one another among the others.
abbrev pub has_part : List Bytes → List Bytes → Bool
has_part [] part = begins_with [] part
has_part (t ∷ ts) part = begins_with (t ∷ ts) part || has_part ts part

starts_joined :
    (t p : Bytes) (ts ps : List Bytes)
    → NoBlank t
    → NoBlank p
    → text_starts (p ++ blanked ps) (t ++ blanked ts)
      ≡ (beq p t && text_starts (blanked ps) (blanked ts))
unfolding text_starts spaced beq
starts_joined [] [] ts ps h k = refl
starts_joined [] (b ∷ p) [] ps h k = ground arith
starts_joined [] (b ∷ p) (t ∷ ts) ps h k = ground arith
starts_joined (a ∷ t) [] ts [] h k = ground arith
starts_joined (a ∷ t) [] ts (q ∷ ps) h k = ground arith
starts_joined (a ∷ t) (b ∷ p) ts ps (ha, h) (hb, k) = ground (arith, starts_joined t p ts ps h k)

starts_nothing : (p : Bytes) (ps : List Bytes) → text_starts (p ++ blanked ps) [] ≡ false
unfolding text_starts spaced
starts_nothing [] [] = refl
starts_nothing [] (q ∷ ps) = refl
starts_nothing (b ∷ p) ps = refl

starts_blanked :
    (ts ps : List Bytes)
    → All NoBlank ts
    → All NoBlank ps
    → text_starts (blanked ps) (blanked ts) ≡ begins_with ts ps
unfolding text_starts spaced begins_with
starts_blanked [] [] h k = refl
starts_blanked (t ∷ ts) [] h k = refl
starts_blanked [] (p ∷ ps) h k = rw append_assoc (starts_nothing p ps)
starts_blanked (t ∷ ts) (p ∷ ps) (ht, h) (hp, k) =
    rw (append_assoc, append_assoc)
      (starts_joined t p ts ps ht hp ∙ ap (λ b. beq p t && b) (starts_blanked ts ps h k))

contains_word :
    (t rest part : Bytes)
    → NoBlank t
    → text_contains (t ++ rest) (b' ' ∷ part) ≡ text_contains rest (b' ' ∷ part)
unfolding text_contains text_starts
contains_word [] rest part h = refl
contains_word (c ∷ t) rest part (hc, h) = ground (arith, contains_word t rest part h)

contains_blanked :
    (ts : List Bytes) (p : Bytes) (ps : List Bytes)
    → All NoBlank ts
    → All NoBlank (p ∷ ps)
    → text_contains (blanked ts) (blanked (p ∷ ps)) ≡ has_part ts (p ∷ ps)
unfolding text_contains text_starts spaced begins_with
contains_blanked [] p ps h k = ground (arith, starts_blanked [] (p ∷ ps) tt k)
contains_blanked (t ∷ ts) p ps (ht, h) k =
    let starts = starts_blanked (t ∷ ts) (p ∷ ps) (ht, h) k in
    let behind =
      contains_word t (blanked ts) ((p ++ spaced ps) ++ b' ' ∷ []) ht
      ∙ contains_blanked ts p ps h k in
    cc (starts, behind, append_assoc t (spaced ts) (b' ' ∷ []))

words_contained :
    (t p : Bytes) (ts ps : List Bytes)
    → t ≢ []
    → p ≢ []
    → All NoBlank (t ∷ ts)
    → All NoBlank (p ∷ ps)
    → contains_normalized_phrase (t ++ spaced ts) (p ++ spaced ps) ≡ has_part (t ∷ ts) (p ∷ ps)
words_contained [] p ts ps n m h k = absurd (n refl)
words_contained (a ∷ t) [] ts ps n m h k = absurd (m refl)
words_contained (a ∷ t) (b ∷ p) ts ps n m h k =
    unfold contains_normalized_phrase spaced in contains_blanked ((a ∷ t) ∷ ts) (b ∷ p) ps h k

-- On joined tokens: the test of the texts is false without a token on either side, and else it says
-- whether the tokens of the phrase stand next to one another among those of the text.
pub contains_normalized_phrase-tokens :
    (ts ps : List Bytes)
    → All IsToken ts
    → All IsToken ps
    → contains_normalized_phrase (join_tokens ts) (join_tokens ps)
      ≡ (not (is_empty ts) && not (is_empty ps) && has_part ts ps)
contains_normalized_phrase-tokens [] ps h k = unfold contains_normalized_phrase join_tokens in refl
contains_normalized_phrase-tokens (t ∷ ts) [] h k =
    unfold contains_normalized_phrase join_tokens in ground arith
contains_normalized_phrase-tokens (t ∷ ts) (p ∷ ps) (ht, h) (hp, k) =
    rw (join_tokens-cons t ts (IsToken-ne-nil t ht), join_tokens-cons p ps (IsToken-ne-nil p hp))
      (words_contained t p ts ps (IsToken-ne-nil t ht) (IsToken-ne-nil p hp)
        (token-NoBlank t ht, All-map token-NoBlank ts h)
        (token-NoBlank p hp, All-map token-NoBlank ps k))
