-- ===== src/Render/Utf8.antt =====
-- `decodeUtf8` of src/render.cpp, and UTF-8 as it is defined, by the encoding of a code point.
pub mod Sound
use howlinux.Base.{
  ℕ, ◌+◌, ◌*◌, ◌/◌, ◌%◌, ◌≤◌, ◌<◌, Bool, ◌&&◌, ◌||◌, [], ◌∷◌, ◌++◌, ◌≡◌, arith, Option, none, some,
  if◌then◌else◌, Bytes, leb, ltb, ◌==◌, length, ◌⊎◌, inl, inr, Bool-cases, ap, ◌∙◌, ltb→lt, ltb→le,
}

-- `low <= byte && byte <= high`
abbrev pub is_between : ℕ → ℕ → ℕ → Bool
is_between low high byte = leb low byte && leb byte high

-- `isContinuationByte`
abbrev pub is_continuation_byte : ℕ → Bool
is_continuation_byte byte = leb 0x80 byte && leb byte 0xBF

-- The length and the code point.
abbrev pub Decoded : Type 0
Decoded = Option (ℕ × ℕ)

-- What the first byte says of the bytes behind it.
unfoldable pub decode_two : ℕ → Bytes → Decoded
decode_two first (second ∷ rest) =
    if is_continuation_byte second then some (2, (first % 32) * 64 + second % 64) else none
decode_two first [] = none

abbrev pub valid_second_of_three : ℕ → ℕ → Bool
valid_second_of_three first second =
    first == 0xE0 && is_between 0xA0 0xBF second
    || first == 0xED && is_between 0x80 0x9F second
    || is_between 0xE1 0xEC first && is_continuation_byte second
    || is_between 0xEE 0xEF first && is_continuation_byte second

unfoldable pub decode_three : ℕ → Bytes → Decoded
decode_three first (second ∷ third ∷ rest) =
    if valid_second_of_three first second && is_continuation_byte third
    then some (3, (first % 16) * 4096 + (second % 64) * 64 + third % 64)
    else none
decode_three first _ = none

abbrev pub valid_second_of_four : ℕ → ℕ → Bool
valid_second_of_four first second =
    first == 0xF0 && is_between 0x90 0xBF second
    || first == 0xF4 && is_between 0x80 0x8F second
    || is_between 0xF1 0xF3 first && is_continuation_byte second

unfoldable pub decode_four : ℕ → Bytes → Decoded
decode_four first (second ∷ third ∷ fourth ∷ rest) =
    if valid_second_of_four first second
      && is_continuation_byte third
      && is_continuation_byte fourth
    then some (4, (first % 8) * 262144 + (second % 64) * 4096 + (third % 64) * 64 + fourth % 64)
    else none
decode_four first _ = none

-- `decodeUtf8`, of the bytes from the offset on. A first byte whose range is right, but behind which too
-- few bytes remain, falls through every test.
unfoldable pub decode_utf8 : Bytes → Decoded
unfolding decode_two decode_three decode_four
decode_utf8 [] = none
decode_utf8 (first ∷ rest) =
    if leb first 0x7F
    then some (1, first)
    else if is_between 0xC2 0xDF first
    then decode_two first rest
    else if is_between 0xE0 0xEF first
    then decode_three first rest
    else if is_between 0xF0 0xF4 first
    then decode_four first rest
    else none

-- A Unicode scalar value.
abbrev pub IsScalar : ℕ → Type 0
IsScalar code_point = (code_point < 0xD800) ⊎ ((0xE000 ≤ code_point) × (code_point ≤ 0x10FFFF))

-- The encoding of a code point.
unfoldable pub encode : ℕ → Bytes
encode code_point =
    if ltb code_point 0x80
    then code_point ∷ []
    else if ltb code_point 0x800
    then (0xC0 + code_point / 64) ∷ (0x80 + code_point % 64) ∷ []
    else if ltb code_point 0x10000
    then (0xE0 + code_point / 4096)
      ∷ (0x80 + (code_point / 64) % 64)
      ∷ (0x80 + code_point % 64)
      ∷ []
    else (0xF0 + code_point / 262144)
      ∷ (0x80 + (code_point / 4096) % 64)
      ∷ (0x80 + (code_point / 64) % 64)
      ∷ (0x80 + code_point % 64)
      ∷ []

abbrev IsContinuation : ℕ → Type 0
IsContinuation byte = (0x80 ≤ byte) × (byte ≤ 0xBF)

decode-two :
    (first second : ℕ) (rest : Bytes)
    → 0xC2 ≤ first
    → first ≤ 0xDF
    → IsContinuation second
    → decode_utf8 (first ∷ second ∷ rest) ≡ some (2, (first % 32) * 64 + second % 64)
unfolding decode_utf8 decode_two
decode-two first second rest low high (c, d) = ground (arith, low, high, c, d)

decode-three :
    (first second third : ℕ) (rest : Bytes)
    → 0xE0 ≤ first
    → first ≤ 0xEF
    → IsContinuation second
    → IsContinuation third
    → (first ≡ 0xE0 → 0xA0 ≤ second)
    → (first ≡ 0xED → second ≤ 0x9F)
    → decode_utf8 (first ∷ second ∷ third ∷ rest)
      ≡ some (3, (first % 16) * 4096 + (second % 64) * 64 + third % 64)
unfolding decode_utf8 decode_three
decode-three first second third rest low high (c, d) (e, f) shortest surrogate =
    ground (arith, low, high, c, d, e, f, shortest, surrogate)

decode-four :
    (first second third fourth : ℕ) (rest : Bytes)
    → 0xF0 ≤ first
    → first ≤ 0xF4
    → IsContinuation second
    → IsContinuation third
    → IsContinuation fourth
    → (first ≡ 0xF0 → 0x90 ≤ second)
    → (first ≡ 0xF4 → second ≤ 0x8F)
    → decode_utf8 (first ∷ second ∷ third ∷ fourth ∷ rest)
      ≡ some (4, (first % 8) * 262144 + (second % 64) * 4096 + (third % 64) * 64 + fourth % 64)
unfolding decode_utf8 decode_four
decode-four first second third fourth rest low high (c, d) (e, f) (g, h) shortest largest =
    ground (arith, low, high, c, d, e, f, g, h, shortest, largest)

continuation : (n : ℕ) → IsContinuation (0x80 + n % 64)
continuation n = (omega arith, omega arith)

decode-one :
    (first : ℕ) (rest : Bytes) → first < 0x80 → decode_utf8 (first ∷ rest) ≡ some (1, first)
unfolding decode_utf8
decode-one first rest h = ground (arith, h)

encoded-two :
    (code_point : ℕ) (rest : Bytes)
    → 0x80 ≤ code_point
    → code_point < 0x800
    → decode_utf8 ((0xC0 + code_point / 64) ∷ (0x80 + code_point % 64) ∷ rest)
      ≡ some (2, code_point)
encoded-two code_point rest low high =
    decode-two (0xC0 + code_point / 64) (0x80 + code_point % 64) rest (omega (arith, low))
      (omega (arith, high)) (continuation code_point)
    ∙ ap (λ n. some (2, n)) (omega (arith, high))

encoded-three :
    (code_point : ℕ) (rest : Bytes)
    → 0x800 ≤ code_point
    → code_point < 0x10000
    → IsScalar code_point
    → decode_utf8 (
        (0xE0 + code_point / 4096)
        ∷ (0x80 + (code_point / 64) % 64)
        ∷ (0x80 + code_point % 64)
        ∷ rest)
      ≡ some (3, code_point)
encoded-three code_point rest low high scalar =
    decode-three (0xE0 + code_point / 4096) (0x80 + (code_point / 64) % 64) (0x80 + code_point % 64)
      rest (omega arith) (omega (arith, high)) (continuation (code_point / 64))
      (continuation code_point) (λ e. omega (arith, e, low)) (λ e. ground (arith, e, scalar))
    ∙ ap (λ n. some (3, n)) (omega (arith, high))

encoded-four :
    (code_point : ℕ) (rest : Bytes)
    → 0x10000 ≤ code_point
    → code_point ≤ 0x10FFFF
    → decode_utf8 (
        (0xF0 + code_point / 262144)
        ∷ (0x80 + (code_point / 4096) % 64)
        ∷ (0x80 + (code_point / 64) % 64)
        ∷ (0x80 + code_point % 64)
        ∷ rest)
      ≡ some (4, code_point)
encoded-four code_point rest low high =
    decode-four (0xF0 + code_point / 262144) (0x80 + (code_point / 4096) % 64)
      (0x80 + (code_point / 64) % 64) (0x80 + code_point % 64) rest (omega arith)
      (omega (arith, high)) (continuation (code_point / 4096)) (continuation (code_point / 64))
      (continuation code_point) (λ e. omega (arith, e, low)) (λ e. omega (arith, e, high))
    ∙ ap (λ n. some (4, n)) (omega (arith, high))

scalar-below : (code_point : ℕ) → IsScalar code_point → code_point ≤ 0x10FFFF
scalar-below code_point h = ground (arith, h)

-- `decodeUtf8` finds the code point that is encoded, and the length of its encoding.
pub decode_utf8-encode :
    (code_point : ℕ) (rest : Bytes)
    → IsScalar code_point
    → decode_utf8 (encode code_point ++ rest) ≡ some (length (encode code_point), code_point)
unfolding encode
decode_utf8-encode code_point rest h = elim (Bool-cases (ltb code_point 0x80)) [
  | inl a ↦ rw a (decode-one code_point rest (ltb→lt code_point 0x80 a))
  | inr a ↦ elim (Bool-cases (ltb code_point 0x800)) [
    | inl b ↦
        rw (a, b)
          (encoded-two code_point rest (ltb→le code_point 0x80 a) (ltb→lt code_point 0x800 b))
    | inr b ↦ elim (Bool-cases (ltb code_point 0x10000)) [
      | inl c ↦
          rw (a, b, c)
            (encoded-three code_point rest (ltb→le code_point 0x800 b) (ltb→lt code_point 0x10000 c)
              h)
      | inr c ↦
          rw (a, b, c)
            (encoded-four code_point rest (ltb→le code_point 0x10000 c) (scalar-below code_point h))
    ]
  ]
]
