-- ===== src/Query/Lexer/Shape/Words.antt =====
-- The words and options that `appendChunk` in src/query.cpp makes of one chunk.
use howlinux.Base.{
  ℕ, true, false, not, ◌&&◌, ◌||◌, [], ◌∷◌, ◌++◌, ◌≡◌, ◌≢◌, refl, arith, ◌==◌, Bytes, any, is_empty,
  All, All-append, All-map, Bool-cases, ◌⊎◌, inl, inr,
}
use howlinux.Query.Chars.{is_word_byte, IsLower}
use howlinux.Query.Lexer.Word.{
  is_flag_chunk, flush, starts_word, dot_aware, strip_dots, segments, chunk_tokens,
}
use howlinux.Query.Lexer.Shape.{
  IsWordByte, IsChunkByte, IsWord, dot, IsFlag, IsToken, word, flag, IsWord-flush, IsWord-grow,
  dot_aware-word, dot_aware-dot, dot_aware-cut,
}

record DotRound (c : ℕ) (t : Bytes) (d : ℕ) : Type 0 where
  is_dot : c ≡ b'.'
  grown : t ≢ []
  next : is_word_byte d ≡ true

dot_round :
    (c : ℕ) (t : Bytes) (d : ℕ) (s : Bytes)
    → (c == b'.' && not (is_empty t) && starts_word (d ∷ s)) ≡ true
    → DotRound c t d
unfolding starts_word
dot_round c [] d s k = absurd (ground arith)
dot_round c (a ∷ t) d s k = record { is_dot = ground arith; grown = cc; next = ground arith }

no_word : (c : ℕ) (t : Bytes) → (c == b'.' && not (is_empty t) && starts_word []) ≡ false
unfolding starts_word
no_word c t = ground arith

IsWord-dot :
    (t : Bytes) (d : ℕ) → t ≢ [] → (t ≡ []) ⊎ IsWord t → IsWordByte d → IsWord (t ++ b'.' ∷ d ∷ [])
IsWord-dot t d ne (inl e) b = absurd (ne e)
IsWord-dot t d ne (inr w) b = dot w b

pub dot_aware-IsWord :
    (s t : Bytes) → All IsLower s → (t ≡ []) ⊎ IsWord t → All IsWord (dot_aware s t)
dot_aware-IsWord [] t h w = unfold dot_aware in IsWord-flush t w
dot_aware-IsWord (c ∷ []) t (hc, h) w = elim (Bool-cases (is_word_byte c)) [
  | inl b ↦
      rw (dot_aware-word c [] t b)
        (dot_aware-IsWord [] (t ++ c ∷ []) tt (IsWord-grow t c w (b, hc)))
  | inr b ↦
      rw (dot_aware-cut c [] t b (no_word c t))
        (All-append IsWord (flush t) _ (IsWord-flush t w) (dot_aware-IsWord [] [] tt (inl refl)))
]
dot_aware-IsWord (c ∷ d ∷ s) t (hc, (hd, h)) w = elim (Bool-cases (is_word_byte c)) [
  | inl b ↦
      rw (dot_aware-word c (d ∷ s) t b)
        (dot_aware-IsWord (d ∷ s) (t ++ c ∷ []) (hd, h) (IsWord-grow t c w (b, hc)))
  | inr b ↦ elim (Bool-cases (c == b'.' && not (is_empty t) && starts_word (d ∷ s))) [
    | inl k ↦
        let r = dot_round c t d s k in
        rw (r.is_dot, dot_aware-dot d s t r.next r.grown)
          (dot_aware-IsWord s (t ++ b'.' ∷ d ∷ []) h (inr (IsWord-dot t d r.grown w (r.next, hd))))
    | inr k ↦ rw (dot_aware-cut c (d ∷ s) t b k) (
        All-append IsWord (flush t) _ (IsWord-flush t w)
          (dot_aware-IsWord (d ∷ s) [] (hd, h) (inl refl)))
  ]
]

pub segments-IsWord :
    (s segment : Bytes) → All IsLower s → All IsLower segment → All IsWord (segments s segment)
unfolding segments
segments-IsWord [] segment h k = dot_aware-IsWord segment [] k (inl refl)
segments-IsWord (c ∷ s) segment (hc, h) k = elim (Bool-cases (c == b'-' || c == b'_')) [
  | inl e ↦ rw e (
      All-append IsWord (dot_aware segment []) _ (dot_aware-IsWord segment [] k (inl refl))
        (segments-IsWord s [] h tt))
  | inr e ↦ rw e (segments-IsWord s (segment ++ c ∷ []) h (All-append IsLower segment _ k (hc, tt)))
]

-- A word byte in a text keeps its first byte when the dots at its end go.
strip-any :
    (c : ℕ) (s : Bytes)
    → any is_word_byte (c ∷ s) ≡ true
    → (strip_dots (c ∷ s) ≡ c ∷ strip_dots s) × (any is_word_byte (c ∷ strip_dots s) ≡ true)
unfolding strip_dots is_word_byte
strip-any c [] h = ground arith
strip-any c (d ∷ s) h = ground (arith, strip-any d s)

strip-dash : (c : ℕ) (s : Bytes) → c ≡ b'-' → strip_dots (c ∷ s) ≡ c ∷ strip_dots s
unfolding strip_dots
strip-dash c s h = ground arith

flag-strip : (t : Bytes) → is_flag_chunk t ≡ true → is_flag_chunk (strip_dots t) ≡ true
unfolding is_flag_chunk
flag-strip [] h = cc
flag-strip (a ∷ []) h = cc
flag-strip (a ∷ b ∷ []) h = ground (arith, strip-dash a (b ∷ []), strip-any b [])
flag-strip (a ∷ b ∷ c ∷ s) h =
    ground
      (arith, strip-dash a (b ∷ c ∷ s), strip-dash b (c ∷ s), strip-any c s, strip-any b (c ∷ s))

strip_idem : (t : Bytes) → strip_dots (strip_dots t) ≡ strip_dots t
unfolding strip_dots
strip_idem [] = refl
strip_idem (c ∷ s) = ground (arith, strip_idem s)

All-strip : (P : ℕ → Type 0) (t : Bytes) → All P t → All P (strip_dots t)
unfolding strip_dots
All-strip P [] h = tt
All-strip P (c ∷ s) (hc, h) = elim (Bool-cases (is_empty (strip_dots s) && c == b'.')) [
  | inl e ↦ rw e tt
  | inr e ↦ rw e (hc, All-strip P s h)
]

flag-flush : (t : Bytes) → IsFlag t → All IsToken (flush t)
unfolding flush
flag-flush [] h = tt
flag-flush (c ∷ t) h = (flag h, tt)

-- Each token that a chunk yields is a word or an option.
pub chunk_tokens-IsToken :
    (chunk : Bytes) → All IsChunkByte chunk → All IsToken (chunk_tokens chunk)
unfolding chunk_tokens
chunk_tokens-IsToken [] h = tt
chunk_tokens-IsToken (c ∷ s) h = elim (Bool-cases (is_flag_chunk (c ∷ s))) [
  | inl e ↦ rw e (
      flag-flush (strip_dots (c ∷ s)) (record {
        flag = flag-strip (c ∷ s) e;
        bytes = All-strip IsChunkByte (c ∷ s) h;
        stripped = strip_idem (c ∷ s);
      }))
  | inr e ↦ rw e (
      All-map (λ t w. word w) (segments (c ∷ s) [])
        (segments-IsWord (c ∷ s) [] (All-map (λ b k. k.1) (c ∷ s) h) tt))
]
