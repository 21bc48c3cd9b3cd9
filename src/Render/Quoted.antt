-- ===== src/Render/Quoted.antt =====
-- A reader of the text between the quotes of a JSON string, by RFC 8259, and what it makes of the text
-- that `escapeJson` of src/render.cpp writes.
pub mod RoundTrip
use howlinux.Base.{
  ℕ, zero, suc, ◌+◌, ◌-◌, ◌*◌, ◌/◌, ◌%◌, ◌≤◌, ◌<◌, Bool, true, false, ◌&&◌, ◌||◌, List, [], ◌∷◌,
  ◌++◌, ◌≡◌, refl, sym, subst, ap, ◌∙◌, arith, append_assoc, Option, none, some, if◌then◌else◌,
  Bytes, leb, ltb, ◌==◌, All, length, take, Bool-cases, inl, inr, ltb→lt, ltb→le,
}
use howlinux.Render.Utf8.{IsScalar, encode, decode_utf8, decode_utf8-encode}
use howlinux.Render.Escape.{
  hex_digit, backslash, short_escape, is_control, unicode_escape, ascii_byte, escape_ascii,
  is_escaped, escape_decoded, escape_from, escape_json,
}

-- Inside a string; behind a backslash; or in a `\u` escape, with the digits that follow the next one
-- and the value of those before it.
pub data Reading : Type 0 where
  plain escaped : Reading
  hexadecimal : ℕ → ℕ → Reading

abbrev pub Step : Type 0
Step = Option (Bytes × Reading)

abbrev pub unescaped : ℕ → Step
unescaped c =
    if c == b'"' || c == b'\\' || c == b'/'
    then some (c ∷ [], plain)
    else if c == b'b'
    then some (0x08 ∷ [], plain)
    else if c == b'f'
    then some (0x0C ∷ [], plain)
    else if c == b'n'
    then some (0x0A ∷ [], plain)
    else if c == b'r'
    then some (0x0D ∷ [], plain)
    else if c == b't'
    then some (0x09 ∷ [], plain)
    else if c == b'u'
    then some ([], hexadecimal 3 0)
    else none

abbrev pub hex_value : ℕ → Option ℕ
hex_value c =
    if leb b'0' c && leb c b'9'
    then some (c - b'0')
    else if leb b'A' c && leb c b'F'
    then some (c - b'A' + 10)
    else if leb b'a' c && leb c b'f'
    then some (c - b'a' + 10)
    else none

-- A code unit that stands for itself.
abbrev pub is_single : ℕ → Bool
is_single unit = ltb unit 0xD800 || leb 0xE000 unit

abbrev pub read_digit : ℕ → ℕ → Option ℕ → Step
read_digit left value none = none
read_digit (suc left) value (some digit) = some ([], hexadecimal left (value * 16 + digit))
read_digit zero value (some digit) =
    let unit = value * 16 + digit in if is_single unit then some (encode unit, plain) else none

abbrev pub step : Reading → ℕ → Step
step plain c =
    if c == b'\\'
    then some ([], escaped)
    else if c == b'"' || ltb c 0x20
    then none
    else some (c ∷ [], plain)
step escaped c = unescaped c
step (hexadecimal left value) c = read_digit left value (hex_value c)

abbrev pub prepend : Bytes → Option Bytes → Option Bytes
prepend bytes none = none
prepend bytes (some rest) = some (bytes ++ rest)

abbrev pub resume : Step → (Reading → Option Bytes) → Option Bytes
resume none rest = none
resume (some (bytes, state)) rest = prepend bytes (rest state)

unfoldable pub read_from : Reading → Bytes → Option Bytes
read_from plain [] = some []
read_from escaped [] = none
read_from (hexadecimal left value) [] = none
read_from state (c ∷ text') = resume (step state c) (λ next. read_from next text')

-- The bytes that the text of a JSON string stands for, in UTF-8; nothing where the text is none.
unfoldable pub read_json : Bytes → Option Bytes
unfolding read_from
read_json text' = read_from plain text'

unfoldable pub encode_all : List ℕ → Bytes
unfolding encode
encode_all [] = []
encode_all (code_point ∷ code_points) = encode code_point ++ encode_all code_points

hex_value-hex_digit : (n : ℕ) → n < 16 → hex_value (hex_digit n) ≡ some n
unfolding hex_digit
hex_value-hex_digit n h = ground (arith, h)

pub prepend-nil : (rest : Option Bytes) → prepend [] rest ≡ rest
prepend-nil none = refl
prepend-nil (some rest) = refl

four_digits :
    (n : ℕ)
    → n < 0xD800
    → (((0 + (n / 4096) % 16) * 16 + (n / 256) % 16) * 16 + (n / 16) % 16) * 16 + n % 16 ≡ n
four_digits n h = omega (arith, h)

single : (n : ℕ) → n < 0xD800 → is_single n ≡ true
single n h = ground (arith, h)

pub read_unicode_escape :
    (code_point : ℕ) (rest : Bytes)
    → code_point < 0xD800
    → read_from plain (unicode_escape code_point ++ rest)
      ≡ prepend (encode code_point) (read_from plain rest)
unfolding read_from unicode_escape
read_unicode_escape code_point rest h =
    rw
      (
        hex_value-hex_digit ((code_point / 4096) % 16) (omega arith),
        hex_value-hex_digit ((code_point / 256) % 16) (omega arith),
        hex_value-hex_digit ((code_point / 16) % 16) (omega arith),
        hex_value-hex_digit (code_point % 16) (omega arith),
        four_digits code_point h,
        single code_point h,
      )
      (simp prepend-nil refl)

prepend-prepend :
    (xs ys : Bytes) (rest : Option Bytes) → prepend xs (prepend ys rest) ≡ prepend (xs ++ ys) rest
prepend-prepend xs ys none = refl
prepend-prepend xs ys (some rest) = ap some (sym (append_assoc xs ys rest))

pub encode-small : (byte : ℕ) → byte < 0x80 → encode byte ≡ byte ∷ []
unfolding encode
encode-small byte h = ground (arith, h)

abbrev IsRead : Bytes → Bytes → Bytes → Type 0
IsRead bytes written rest = read_from plain (written ++ rest) ≡ prepend bytes (read_from plain rest)

step-byte :
    (byte : ℕ)
    → is_control byte ≡ false
    → byte == b'"' ≡ false
    → byte == b'\\' ≡ false
    → step plain byte ≡ some (byte ∷ [], plain)
step-byte byte h q b = ground (arith, h, q, b)

IsRead-step :
    (byte c : ℕ) (rest : Bytes)
    → step plain byte ≡ some (c ∷ [], plain)
    → IsRead (c ∷ []) (byte ∷ []) rest
unfolding read_from
IsRead-step byte c rest e = ap (λ s. resume s (λ next. read_from next rest)) e

IsRead-backslash :
    (byte c : ℕ) (rest : Bytes)
    → unescaped c ≡ some (byte ∷ [], plain)
    → IsRead (byte ∷ []) (backslash c) rest
unfolding read_from
IsRead-backslash byte c rest e =
    prepend-nil (resume (unescaped c) (λ next. read_from next rest))
    ∙ ap (λ s. resume s (λ next. read_from next rest)) e

short_escape-unescaped :
    (byte c : ℕ) → short_escape byte ≡ some c → unescaped c ≡ some (byte ∷ [], plain)
short_escape-unescaped byte c h = ground (arith, h)

IsRead-ascii_byte :
    (byte : ℕ) (rest : Bytes) (short : Option ℕ)
    → short_escape byte ≡ short
    → byte ≤ 0x7F
    → byte == b'"' ≡ false
    → byte == b'\\' ≡ false
    → IsRead (byte ∷ []) (ascii_byte byte short) rest
IsRead-ascii_byte byte rest none same h q b = elim (Bool-cases (is_control byte)) [
  | inl e ↦ rw e (
      read_unicode_escape byte rest (omega (arith, h))
      ∙ ap (λ bytes. prepend bytes (read_from plain rest)) (encode-small byte (omega (arith, h))))
  | inr e ↦ rw e (IsRead-step byte byte rest (step-byte byte e q b))
]
IsRead-ascii_byte byte rest (some c) same h q b =
    IsRead-backslash byte c rest (short_escape-unescaped byte c same)

pub IsRead-escape_ascii :
    (byte : ℕ) (rest : Bytes) → byte ≤ 0x7F → IsRead (byte ∷ []) (escape_ascii byte) rest
unfolding escape_ascii
IsRead-escape_ascii byte rest h = elim (Bool-cases (byte == b'"')) [
  | inl e ↦ rw e (IsRead-backslash byte b'"' rest (ground (arith, e)))
  | inr e ↦ elim (Bool-cases (byte == b'\\')) [
    | inl f ↦ rw (e, f) (IsRead-backslash byte b'\\' rest (ground (arith, f)))
    | inr f ↦ rw (e, f) (IsRead-ascii_byte byte rest (short_escape byte) refl h e f)
  ]
]

-- A byte of an encoding with more than one byte.
abbrev pub IsHigh : ℕ → Type 0
IsHigh byte = 0x80 ≤ byte

pub IsRead-high : (bytes rest : Bytes) → All IsHigh bytes → IsRead bytes bytes rest
IsRead-high [] rest h = sym (prepend-nil (read_from plain rest))
IsRead-high (byte ∷ bytes) rest (p, h) =
    IsRead-step byte byte (bytes ++ rest) (ground (arith, p))
    ∙ ap (prepend (byte ∷ [])) (IsRead-high bytes rest h)
    ∙ prepend-prepend (byte ∷ []) bytes (read_from plain rest)

pub encode-IsHigh : (code_point : ℕ) → 0x80 ≤ code_point → All IsHigh (encode code_point)
unfolding encode
encode-IsHigh code_point h = elim (Bool-cases (ltb code_point 0x80)) [
  | inl a ↦ absurd (ground (arith, a, h))
  | inr a ↦ elim (Bool-cases (ltb code_point 0x800)) [
    | inl b ↦ rw (a, b) (omega arith, (omega arith, tt))
    | inr b ↦ elim (Bool-cases (ltb code_point 0x10000)) [
      | inl c ↦ rw (a, b, c) (omega arith, (omega arith, (omega arith, tt)))
      | inr c ↦ rw (a, b, c) (omega arith, (omega arith, (omega arith, (omega arith, tt))))
    ]
  ]
]
