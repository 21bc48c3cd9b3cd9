-- ===== src/Query/Lexer/Case.antt =====
-- The letter case of the input of `lexicalTokens` in src/query.cpp.
use howlinux.Base.{
  ℕ, zero, suc, true, [], ◌∷◌, ◌≡◌, refl, ◌∙◌, ap, arith, ◌==◌, Bytes, length, map, Bool-cases, inl,
  inr,
}
use howlinux.Query.Chars.{
  is_direction, ascii_lower, ascii_lower_idem, chunk_byte-lower, direction-lower, lower-direction,
}
use howlinux.Query.Lexer.Scan.{take_chunk, take_run, chunk_step, round, lex, lexical_tokens}

-- The same tokens, and the lowered rest.
abbrev lower_rest : {A : Type 0} → A × Bytes → A × Bytes
lower_rest r = (r.0, map ascii_lower r.1)

take_chunk-lower : (s : Bytes) → take_chunk (map ascii_lower s) ≡ lower_rest (take_chunk s)
unfolding take_chunk
take_chunk-lower [] = refl
take_chunk-lower (c ∷ s) =
    ground (arith, take_chunk-lower s, ascii_lower_idem c, chunk_byte-lower c)

run_byte-lower : (c d : ℕ) → is_direction d ≡ true → (ascii_lower c == d) ≡ (c == d)
unfolding is_direction ascii_lower
run_byte-lower c d h = ground arith

take_run-lower :
    (d : ℕ) (s : Bytes)
    → is_direction d ≡ true
    → take_run d (map ascii_lower s) ≡ lower_rest (take_run d s)
unfolding take_run
take_run-lower d [] h = refl
take_run-lower d (c ∷ s) h =
    ground (arith, take_run-lower d s h, run_byte-lower c d h, lower-direction d h)

chunk_step-lower :
    (chunk rest : Bytes)
    → chunk_step chunk (map ascii_lower rest) ≡ lower_rest (chunk_step chunk rest)
unfolding chunk_step
chunk_step-lower chunk [] = refl
chunk_step-lower chunk (d ∷ rest) = elim (Bool-cases (is_direction d)) [
  | inl h ↦ ground (arith, take_run-lower d rest h, lower-direction d h)
  | inr h ↦ ground (arith, direction-lower d)
]

round-lower :
    (c : ℕ) (s : Bytes) → round (ascii_lower c) (map ascii_lower s) ≡ lower_rest (round c s)
unfolding round
round-lower c s = ground (
  arith,
  take_chunk-lower s,
  ascii_lower_idem c,
  chunk_byte-lower c,
  chunk_step-lower (ascii_lower c ∷ (take_chunk s).0) (take_chunk s).1,
)

lex-lower : (f : ℕ) (s : Bytes) → lex f (map ascii_lower s) ≡ lex f s
unfolding lex
lex-lower zero s = refl
lex-lower (suc f) [] = refl
lex-lower (suc f) (c ∷ s) = ground (arith, round-lower c s, lex-lower f (round c s).1)

length-map : (s : Bytes) → length (map ascii_lower s) ≡ length s
length-map [] = refl
length-map (c ∷ s) = ap suc (length-map s)

-- The tokens do not depend on the case of ASCII letters in the input.
pub lexical_tokens-lower :
    (input : Bytes) → lexical_tokens (map ascii_lower input) ≡ lexical_tokens input
unfolding lexical_tokens
lexical_tokens-lower input =
    ap (λ f. lex f (map ascii_lower input)) (length-map input) ∙ lex-lower (length input) input
