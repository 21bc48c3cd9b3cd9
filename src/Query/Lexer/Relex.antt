-- ===== src/Query/Lexer/Relex.antt =====
-- Reading a token of `lexicalTokens` in src/query.cpp back from a text that holds it.
use howlinux.Base.{
  ℕ, true, false, ◌||◌, [], ◌∷◌, ◌++◌, append-nil, append_assoc, ◌≡◌, ◌≢◌, refl, sym, ◌∙◌, ap,
  arith, ◌==◌, Bytes, All, All-append, All-map, all, &&-eq-true,
}
use howlinux.Query.Chars.{
  is_ascii_digit, is_word_byte, is_chunk_byte, is_direction, ascii_lower, IsLower, lower-digit,
  chunk-digit, direction-not_chunk,
}
use howlinux.Query.Lexer.Word.{
  is_all_digits, is_flag_chunk, flush, dot_aware, segments, chunk_tokens,
}
use howlinux.Query.Lexer.Scan.{
  take_chunk, take_run, chunk_step, round, lexical_tokens, lexical_tokens-cons,
}
use howlinux.Query.Lexer.Shape.{
  IsWordByte, IsChunkByte, IsWord, single, snoc, dot, IsFlag, Repeats, none_left, one_more,
  IsRedirect, IsToken, word, flag, redirect, dot_aware-word, dot_aware-dot,
}

-- A text that ends a token: nothing, or a blank first.
pub data Ends : Bytes → Type 0 where
  end : Ends []
  blank : (s : Bytes) → Ends (b' ' ∷ s)

abbrev Stops : Bytes → Type 0
Stops [] = Unit
Stops (c ∷ s) = is_chunk_byte c ≡ false

Ends-Stops : (s : Bytes) → Ends s → Stops s
unfolding is_chunk_byte
Ends-Stops s end = tt
Ends-Stops s (blank r) = refl

take_chunk-append :
    (s rest : Bytes) → All IsChunkByte s → Stops rest → take_chunk (s ++ rest) ≡ (s, rest)
unfolding take_chunk
take_chunk-append [] [] h k = refl
take_chunk-append [] (c ∷ rest) h k = rw k
take_chunk-append (c ∷ s) rest ((hc, lc), h) k = rw (hc, lc, take_chunk-append s rest h k)

take_run-append :
    (d : ℕ) (s rest : Bytes)
    → is_direction d ≡ true
    → Repeats d s
    → Ends rest
    → take_run d (s ++ rest) ≡ (s, rest)
unfolding take_run is_direction
take_run-append d s rest h none_left end = refl
take_run-append d s rest h none_left (blank r) = ground arith
take_run-append d s rest h (one_more {s = s'} r) k = ground (arith, take_run-append d s' rest h r k)

-- Behind a chunk stands its end: the chunk alone makes the tokens.
chunk_step-Ends :
    (chunk rest : Bytes) → Ends rest → chunk_step chunk rest ≡ (chunk_tokens chunk, rest)
unfolding chunk_step is_direction
chunk_step-Ends chunk rest end = refl
chunk_step-Ends chunk rest (blank s) = ground arith

append-ne-nil : (t s : Bytes) → s ≢ [] → t ++ s ≢ []
append-ne-nil [] s h = h
append-ne-nil (c ∷ t) s h = cc

IsWord-ne-nil : {t : Bytes} → IsWord t → t ≢ []
IsWord-ne-nil (single b) = cc
IsWord-ne-nil (snoc {t} {c} w b) = append-ne-nil t (c ∷ []) cc
IsWord-ne-nil (dot {t} {c} w b) = append-ne-nil t (b'.' ∷ c ∷ []) cc

dot_aware-IsWord : {t : Bytes} → IsWord t → (s : Bytes) → dot_aware (t ++ s) [] ≡ dot_aware s t
dot_aware-IsWord (single {c} b) s = dot_aware-word c s [] b.0
dot_aware-IsWord (snoc {t} {c} w b) s =
    rw append_assoc (dot_aware-IsWord w (c ∷ s) ∙ dot_aware-word c s t b.0)
dot_aware-IsWord (dot {t} {c} w b) s =
    rw append_assoc (dot_aware-IsWord w (b'.' ∷ c ∷ s) ∙ dot_aware-dot c s t b.0 (IsWord-ne-nil w))

-- The bytes of a word: no dash and no underscore among them.
abbrev IsWordPart : ℕ → Type 0
IsWordPart c = (is_chunk_byte c ≡ true) × IsLower c × ((c == b'-' || c == b'_') ≡ false)

part-word : (c : ℕ) → IsWordByte c → IsWordPart c
unfolding is_word_byte is_chunk_byte
part-word c h = (ground arith, h.1, ground arith)

part-dot : IsWordPart b'.'
unfolding is_chunk_byte ascii_lower
part-dot = (refl, refl, refl)

IsWord-parts : {t : Bytes} → IsWord t → All IsWordPart t
IsWord-parts (single {c} b) = (part-word c b, tt)
IsWord-parts (snoc {t} {c} w b) =
    All-append IsWordPart t (c ∷ []) (IsWord-parts w) (part-word c b, tt)
IsWord-parts (dot {t} {c} w b) =
    All-append IsWordPart t (b'.' ∷ c ∷ []) (IsWord-parts w) (part-dot, (part-word c b, tt))

segments-parts :
    (s segment : Bytes) → All IsWordPart s → segments s segment ≡ dot_aware (segment ++ s) []
unfolding segments
segments-parts [] segment h = rw append-nil
segments-parts (c ∷ s) segment (hc, h) =
    rw (hc.2, segments-parts s (segment ++ c ∷ []) h, append_assoc)

not_flag : (t : Bytes) → All IsWordPart t → is_flag_chunk t ≡ false
unfolding is_flag_chunk
not_flag [] h = refl
not_flag (a ∷ []) h = refl
not_flag (a ∷ b ∷ s) ((p, l, q), h) = ground arith

flush-ne-nil : (t : Bytes) → t ≢ [] → flush t ≡ t ∷ []
unfolding flush
flush-ne-nil [] h = absurd (h refl)
flush-ne-nil (c ∷ t) h = refl

segments-IsWord : (t : Bytes) → IsWord t → segments t [] ≡ t ∷ []
segments-IsWord t w =
    segments-parts t [] (IsWord-parts w)
    ∙ ap (λ s. dot_aware s []) (sym (append-nil t))
    ∙ dot_aware-IsWord w []
    ∙ unfold dot_aware in flush-ne-nil t (IsWord-ne-nil w)

-- A word is its own only token, and so is an option.
chunk_tokens-IsWord : (t : Bytes) → IsWord t → chunk_tokens t ≡ t ∷ []
unfolding chunk_tokens
chunk_tokens-IsWord [] w = absurd (IsWord-ne-nil w refl)
chunk_tokens-IsWord (c ∷ s) w = rw (not_flag (c ∷ s) (IsWord-parts w)) (segments-IsWord (c ∷ s) w)

IsFlag-ne-nil : (t : Bytes) → IsFlag t → t ≢ []
unfolding is_flag_chunk
IsFlag-ne-nil [] f = cc f.flag
IsFlag-ne-nil (c ∷ t) f = cc

chunk_tokens-IsFlag : (t : Bytes) → IsFlag t → chunk_tokens t ≡ t ∷ []
unfolding chunk_tokens
chunk_tokens-IsFlag [] f = absurd (IsFlag-ne-nil [] f refl)
chunk_tokens-IsFlag (c ∷ s) f = rw (f.flag, f.stripped) (flush-ne-nil (c ∷ s) cc)

-- A whole token of chunk bytes, read up to its end.
relex_chunk :
    (t rest : Bytes)
    → t ≢ []
    → All IsChunkByte t
    → chunk_tokens t ≡ t ∷ []
    → Ends rest
    → lexical_tokens (t ++ rest) ≡ t ∷ lexical_tokens rest
unfolding round
relex_chunk [] rest ne h e k = absurd (ne refl)
relex_chunk (c ∷ s) rest ne ((hc, lc), h) e k =
    lexical_tokens-cons c (s ++ rest)
    ∙ rw (take_chunk-append s rest h (Ends-Stops rest k), hc, lc, chunk_step-Ends (c ∷ s) rest k, e)

all_digits-bytes : (s : Bytes) → all is_ascii_digit s ≡ true → All IsChunkByte s
all_digits-bytes [] h = tt
all_digits-bytes (c ∷ s) h =
    let (d, r) = &&-eq-true _ _ h in ((chunk-digit c d, lower-digit c d), all_digits-bytes s r)

relex_redirect :
    (ds : Bytes) (sign : ℕ) (run rest : Bytes)
    → is_all_digits ds ≡ true
    → is_direction sign ≡ true
    → Repeats sign run
    → Ends rest
    → lexical_tokens (ds ++ sign ∷ (run ++ rest)) ≡ (ds ++ sign ∷ run) ∷ lexical_tokens rest
unfolding round chunk_step
relex_redirect [] sign run rest h d r k = unfold is_all_digits in cc
relex_redirect (c ∷ ds) sign run rest h d r k =
    let ((hc, lc), b) = all_digits-bytes (c ∷ ds) (unfold is_all_digits in h) in
    lexical_tokens-cons c (ds ++ sign ∷ (run ++ rest))
    ∙ rw (
      take_chunk-append ds (sign ∷ (run ++ rest)) b (direction-not_chunk sign d),
      hc,
      lc,
      h,
      d,
      take_run-append sign run rest d r k,
    )

-- A token in front of the end of the input, or of a blank, is read back as it is.
pub relex :
    (t rest : Bytes) → IsToken t → Ends rest → lexical_tokens (t ++ rest) ≡ t ∷ lexical_tokens rest
relex t rest (word w) k =
    relex_chunk t rest (IsWord-ne-nil w) (All-map (λ c p. (p.0, p.1)) t (IsWord-parts w))
      (chunk_tokens-IsWord t w) k
relex t rest (flag f) k = relex_chunk t rest (IsFlag-ne-nil t f) f.bytes (chunk_tokens-IsFlag t f) k
relex t rest (redirect r) k =
    rw (r.spells, append_assoc)
      (relex_redirect r.digits r.sign r.run rest r.all_digits r.is_sign r.repeats k)

IsRedirect-ne-nil : (t : Bytes) → IsRedirect t → t ≢ []
IsRedirect-ne-nil t r = rw r.spells (append-ne-nil r.digits (r.sign ∷ r.run) cc)

pub IsToken-ne-nil : (t : Bytes) → IsToken t → t ≢ []
IsToken-ne-nil t (word w) = IsWord-ne-nil w
IsToken-ne-nil t (flag f) = IsFlag-ne-nil t f
IsToken-ne-nil t (redirect r) = IsRedirect-ne-nil t r

-- A byte of a token: of a chunk, or a redirection sign.
abbrev IsTokenByte : ℕ → Type 0
IsTokenByte c = (is_chunk_byte c || is_direction c) ≡ true

Repeats-bytes : (d : ℕ) (s : Bytes) → is_direction d ≡ true → Repeats d s → All IsTokenByte s
Repeats-bytes d s h none_left = tt
Repeats-bytes d s h (one_more {s = s'} r) = (ground arith, Repeats-bytes d s' h r)

chunk_bytes : (s : Bytes) → All IsChunkByte s → All IsTokenByte s
chunk_bytes s h = All-map (λ c p. ground arith) s h

pub IsToken-bytes : (t : Bytes) → IsToken t → All IsTokenByte t
IsToken-bytes t (word w) = chunk_bytes t (All-map (λ c p. (p.0, p.1)) t (IsWord-parts w))
IsToken-bytes t (flag f) = chunk_bytes t f.bytes
IsToken-bytes t (redirect r) = rw r.spells (
    All-append IsTokenByte r.digits (r.sign ∷ r.run)
      (chunk_bytes r.digits (all_digits-bytes r.digits (digits_all r.digits r.all_digits)))
      (ground (arith, r.is_sign), Repeats-bytes r.sign r.run r.is_sign r.repeats))
  where
    digits_all : (s : Bytes) → is_all_digits s ≡ true → all is_ascii_digit s ≡ true
    digits_all [] h = refl
    digits_all (c ∷ s) h = unfold is_all_digits in h
