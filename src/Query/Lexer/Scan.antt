-- ===== src/Query/Lexer/Scan.antt =====
-- The loops of `lexicalTokens` in src/query.cpp over the whole input.
use howlinux.Base.{
  ℕ, zero, suc, ◌≤◌, ◌&&◌, List, [], ◌∷◌, ◌++◌, ◌≡◌, refl, ap, arith, ◌==◌, if◌then◌else◌, Bytes,
  codes, length,
}
use howlinux.Query.Chars.{is_chunk_byte, is_direction, ascii_lower}
use howlinux.Query.Lexer.Word.{is_all_digits, chunk_tokens}

-- The inner `while`: the lowered chunk, and the input behind it.
unfoldable pub take_chunk : Bytes → Bytes × Bytes
take_chunk [] = ([], [])
take_chunk (c ∷ s) =
    let (chunk, rest) = take_chunk s in
    if is_chunk_byte c then (ascii_lower c ∷ chunk, rest) else ([], c ∷ s)

-- The `do … while`: the run of one redirection sign, and the input behind it.
unfoldable pub take_run : ℕ → Bytes → Bytes × Bytes
take_run d [] = ([], [])
take_run d (c ∷ s) =
    let (run, rest) = take_run d s in if c == d then (c ∷ run, rest) else ([], c ∷ s)

-- The tokens of a chunk that `rest` follows, and the input behind them.
unfoldable pub chunk_step : Bytes → Bytes → List Bytes × Bytes
chunk_step chunk [] = (chunk_tokens chunk, [])
chunk_step chunk (d ∷ rest) =
    let (run, behind) = take_run d rest in
    if is_all_digits chunk && is_direction d
    then ((chunk ++ d ∷ run) ∷ [], behind)
    else (chunk_tokens chunk, d ∷ rest)

-- One round of the outer `while`.
unfoldable pub round : ℕ → Bytes → List Bytes × Bytes
round c s =
    let (chunk, rest) = take_chunk s in
    if is_chunk_byte c then chunk_step (ascii_lower c ∷ chunk) rest else ([], s)

-- The outer `while`, with fuel for the rounds.
unfoldable pub lex : ℕ → Bytes → List Bytes
lex zero s = []
lex (suc fuel) [] = []
lex (suc fuel) (c ∷ s) = let (tokens, rest) = round c s in tokens ++ lex fuel rest

-- `lexicalTokens`. A round reads a byte, so the length of the input is enough fuel.
unfoldable pub lexical_tokens : Bytes → List Bytes
unfolding lex round take_chunk chunk_step is_all_digits chunk_tokens take_run is_direction
    is_chunk_byte ascii_lower
lexical_tokens input = lex (length input) input

length-take_chunk : (s : Bytes) → length (take_chunk s).1 ≤ length s
unfolding take_chunk
length-take_chunk [] = omega arith
length-take_chunk (c ∷ s) = ground (arith, length-take_chunk s)

length-take_run : (d : ℕ) (s : Bytes) → length (take_run d s).1 ≤ length s
unfolding take_run
length-take_run d [] = omega arith
length-take_run d (c ∷ s) = ground (arith, length-take_run d s)

length-chunk_step : (chunk rest : Bytes) → length (chunk_step chunk rest).1 ≤ length rest
unfolding chunk_step
length-chunk_step chunk [] = omega arith
length-chunk_step chunk (d ∷ rest) = ground (arith, length-take_run d rest)

length-round : (c : ℕ) (s : Bytes) → length (round c s).1 ≤ length s
unfolding round
length-round c s = ground (
  arith,
  length-take_chunk s,
  length-chunk_step (ascii_lower c ∷ (take_chunk s).0) (take_chunk s).1,
)

lex-fuel : (f g : ℕ) (s : Bytes) → length s ≤ f → length s ≤ g → lex f s ≡ lex g s
unfolding lex
lex-fuel zero zero s hf hg = refl
lex-fuel zero (suc g) [] hf hg = refl
lex-fuel zero (suc g) (c ∷ s) hf hg = absurd (omega arith)
lex-fuel (suc f) zero [] hf hg = refl
lex-fuel (suc f) zero (c ∷ s) hf hg = absurd (omega arith)
lex-fuel (suc f) (suc g) [] hf hg = refl
lex-fuel (suc f) (suc g) (c ∷ s) hf hg =
    ap (λ t. (round c s).0 ++ t)
      (lex-fuel f g (round c s).1 (omega (arith, length-round c s))
        (omega (arith, length-round c s)))

pub lexical_tokens-nil : lexical_tokens [] ≡ []
unfolding lexical_tokens
lexical_tokens-nil = refl

-- The loop reads on behind each round: the fuel never runs out.
pub lexical_tokens-cons :
    (c : ℕ) (s : Bytes) → lexical_tokens (c ∷ s) ≡ (round c s).0 ++ lexical_tokens (round c s).1
unfolding lexical_tokens
lexical_tokens-cons c s =
    ap (λ t. (round c s).0 ++ t)
      (lex-fuel (length s) (length (round c s).1) (round c s).1 (length-round c s) (omega arith))

example :
    lexical_tokens (codes "What does `chmod 755` 2>/dev/null DO-it -rf?")
    ≡ codes "what"
      ∷ codes "does"
      ∷ codes "chmod"
      ∷ codes "755"
      ∷ codes "2>"
      ∷ codes "dev"
      ∷ codes "null"
      ∷ codes "do"
      ∷ codes "it"
      ∷ codes "-rf"
      ∷ []
unfolding lexical_tokens
example = refl
