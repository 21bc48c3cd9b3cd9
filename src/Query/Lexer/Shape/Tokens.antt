-- ===== src/Query/Lexer/Shape/Tokens.antt =====
-- Every token of `lexicalTokens` in src/query.cpp has one of the three shapes.
use howlinux.Base.{
  ℕ, zero, suc, ◌&&◌, [], ◌∷◌, ◌≡◌, refl, arith, ◌==◌, Bytes, All, All-append, Bool-cases, inl, inr,
  length, &&-eq-true,
}
use howlinux.Query.Chars.{
  is_chunk_byte, is_direction, ascii_lower, ascii_lower_idem, chunk_byte-lower,
}
use howlinux.Query.Lexer.Word.{is_all_digits}
use howlinux.Query.Lexer.Scan.{take_chunk, take_run, chunk_step, round, lex, lexical_tokens}
use howlinux.Query.Lexer.Shape.{IsChunkByte, Repeats, none_left, one_more, IsToken, redirect}
use howlinux.Query.Lexer.Shape.Words.{chunk_tokens-IsToken}

take_chunk-bytes : (s : Bytes) → All IsChunkByte (take_chunk s).0
unfolding take_chunk
take_chunk-bytes [] = tt
take_chunk-bytes (c ∷ s) = elim (Bool-cases (is_chunk_byte c)) [
  | inl h ↦ rw h ((rw chunk_byte-lower h, ascii_lower_idem c), take_chunk-bytes s)
  | inr h ↦ rw h tt
]

Repeats-eq : (c d : ℕ) (s : Bytes) → c ≡ d → Repeats d s → Repeats d (c ∷ s)
Repeats-eq c d s e r = rw e (one_more r)

take_run-Repeats : (d : ℕ) (s : Bytes) → Repeats d (take_run d s).0
unfolding take_run
take_run-Repeats d [] = none_left
take_run-Repeats d (c ∷ s) = elim (Bool-cases (c == d)) [
  | inl h ↦ rw h (Repeats-eq c d _ (ground arith) (take_run-Repeats d s))
  | inr h ↦ rw h none_left
]

chunk_step-IsToken :
    (chunk rest : Bytes) → All IsChunkByte chunk → All IsToken (chunk_step chunk rest).0
unfolding chunk_step
chunk_step-IsToken chunk [] h = chunk_tokens-IsToken chunk h
chunk_step-IsToken chunk (d ∷ rest) h = elim (Bool-cases (is_all_digits chunk && is_direction d)) [
  | inl e ↦ rw e (
    redirect (record {
      digits = chunk;
      sign = d;
      run = (take_run d rest).0;
      spells = refl;
      all_digits = (&&-eq-true _ _ e).0;
      is_sign = (&&-eq-true _ _ e).1;
      repeats = take_run-Repeats d rest;
    }),
    tt,
  )
  | inr e ↦ rw e (chunk_tokens-IsToken chunk h)
]

round-IsToken : (c : ℕ) (s : Bytes) → All IsToken (round c s).0
unfolding round
round-IsToken c s = elim (Bool-cases (is_chunk_byte c)) [
  | inl h ↦ rw h (
      chunk_step-IsToken (ascii_lower c ∷ (take_chunk s).0) (take_chunk s).1
        ((rw chunk_byte-lower h, ascii_lower_idem c), take_chunk-bytes s))
  | inr h ↦ rw h tt
]

lex-IsToken : (fuel : ℕ) (s : Bytes) → All IsToken (lex fuel s)
unfolding lex
lex-IsToken zero s = tt
lex-IsToken (suc fuel) [] = tt
lex-IsToken (suc fuel) (c ∷ s) =
    All-append IsToken (round c s).0 _ (round-IsToken c s) (lex-IsToken fuel (round c s).1)

-- Each token is a dotted word, an option, or a redirection, all in lower case.
pub lexical_tokens-IsToken : (input : Bytes) → All IsToken (lexical_tokens input)
unfolding lexical_tokens
lexical_tokens-IsToken input = lex-IsToken (length input) input
