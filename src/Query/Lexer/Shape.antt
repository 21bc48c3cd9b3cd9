-- ===== src/Query/Lexer/Shape.antt =====
-- The shapes of the tokens that `lexicalTokens` in src/query.cpp returns.
pub mod Words
pub mod Tokens
use howlinux.Base.{
  ℕ, zero, suc, ◌+◌, Bool, true, false, not, ◌&&◌, ◌||◌, List, [], ◌∷◌, ◌++◌, append_assoc, ◌≡◌,
  ◌≢◌, refl, sym, ◌∙◌, ap, subst, arith, ◌==◌, if◌then◌else◌, Bytes, any, all, is_empty, All,
  All-append, All-append_inv, Bool-cases, ◌⊎◌, inl, inr,
}
use howlinux.Query.Chars.{
  is_ascii_digit, is_word_byte, is_chunk_byte, is_direction, ascii_lower, IsLower, ascii_lower_idem,
  lower-digit, chunk-digit, chunk-word,
}
use howlinux.Query.Lexer.Word.{
  is_all_digits, is_long_flag, is_flag_chunk, flush, starts_word, dot_aware, strip_dots, segments,
  chunk_tokens,
}
use howlinux.Query.Lexer.Scan.{take_chunk, take_run, chunk_step, round, lex, lexical_tokens}

abbrev pub IsWordByte : ℕ → Type 0
IsWordByte c = (is_word_byte c ≡ true) × IsLower c

abbrev pub IsChunkByte : ℕ → Type 0
IsChunkByte c = (is_chunk_byte c ≡ true) × IsLower c

-- Word bytes, with single dots between them.
pub data IsWord : Bytes → Type 0 where
  single : {c : ℕ} → IsWordByte c → IsWord (c ∷ [])
  snoc : {t : Bytes} {c : ℕ} → IsWord t → IsWordByte c → IsWord (t ++ c ∷ [])
  dot : {t : Bytes} {c : ℕ} → IsWord t → IsWordByte c → IsWord (t ++ b'.' ∷ c ∷ [])

-- An option: one or two dashes with a word byte behind them, and no dot at the end.
pub record IsFlag (t : Bytes) : Type 0 where
  pub flag : is_flag_chunk t ≡ true
  pub bytes : All IsChunkByte t
  pub stripped : strip_dots t ≡ t

-- A redirection: a file descriptor, and one or more of the same sign.
pub data Repeats (d : ℕ) : Bytes → Type 0 where
  none_left : Repeats d []
  one_more : {s : Bytes} → Repeats d s → Repeats d (d ∷ s)

pub record IsRedirect (t : Bytes) : Type 0 where
  pub digits : Bytes
  pub sign : ℕ
  pub run : Bytes
  pub spells : t ≡ digits ++ sign ∷ run
  pub all_digits : is_all_digits digits ≡ true
  pub is_sign : is_direction sign ≡ true
  pub repeats : Repeats sign run

pub data IsToken (t : Bytes) : Type 0 where
  word : IsWord t → IsToken t
  flag : IsFlag t → IsToken t
  redirect : IsRedirect t → IsToken t

IsWord-flush : (t : Bytes) → (t ≡ []) ⊎ IsWord t → All IsWord (flush t)
unfolding flush
IsWord-flush [] h = tt
IsWord-flush (c ∷ t) (inl e) = cc
IsWord-flush (c ∷ t) (inr w) = (w, tt)

IsWord-grow :
    (t : Bytes) (c : ℕ)
    → (t ≡ []) ⊎ IsWord t
    → IsWordByte c
    → (t ++ c ∷ [] ≡ []) ⊎ IsWord (t ++ c ∷ [])
IsWord-grow t c (inl e) b = inr (rw e (single b))
IsWord-grow t c (inr w) b = inr (snoc w b)

pub dot_aware-word :
    (c : ℕ) (s t : Bytes) → is_word_byte c ≡ true → dot_aware (c ∷ s) t ≡ dot_aware s (t ++ c ∷ [])
unfolding dot_aware
dot_aware-word c s t h = rw h

pub dot_aware-dot :
    (c : ℕ) (s t : Bytes)
    → is_word_byte c ≡ true
    → t ≢ []
    → dot_aware (b'.' ∷ c ∷ s) t ≡ dot_aware s (t ++ b'.' ∷ c ∷ [])
unfolding dot_aware is_word_byte
dot_aware-dot c s [] h ne = absurd (ne refl)
dot_aware-dot c s (a ∷ t) h ne = rw h (rw append_assoc)

dot_aware-cut :
    (c : ℕ) (s t : Bytes)
    → is_word_byte c ≡ false
    → (c == b'.' && not (is_empty t) && starts_word s) ≡ false
    → dot_aware (c ∷ s) t ≡ flush t ++ dot_aware s []
unfolding dot_aware
dot_aware-cut c s t h k = rw (h, k)
