-- ===== src/Render/Quoted/RoundTrip.antt =====
-- `escapeJson` of src/render.cpp, read back from the text that it writes for well-formed UTF-8.
use howlinux.Base.{
  ℕ, suc, ◌-◌, ◌<◌, true, false, List, [], ◌∷◌, ◌++◌, ◌≡◌, refl, sym, subst, ap, ◌∙◌, arith, some,
  if◌then◌else◌, Bytes, leb, ltb, All, length, take, Bool-cases, inl, inr, ltb→lt, ltb→le,
}
use howlinux.Render.Utf8.{IsScalar, encode, decode_utf8, decode_utf8-encode}
use howlinux.Render.Escape.{unicode_escape, is_escaped, escape_decoded, escape_from, escape_json}
use howlinux.Render.Quoted.{
  plain, plain, prepend, read_from, read_json, encode_all, prepend-nil, read_unicode_escape,
  encode-small, IsRead-escape_ascii, IsHigh, IsRead-high, encode-IsHigh,
}

escape_from-skip : (xs rest : Bytes) → escape_from (length xs) (xs ++ rest) ≡ escape_from 0 rest
unfolding escape_from
escape_from-skip [] rest = refl
escape_from-skip (x ∷ xs) rest = escape_from-skip xs rest

take-append : (xs rest : Bytes) → take (length xs) (xs ++ rest) ≡ xs
take-append [] rest = refl
take-append (x ∷ xs) rest = ap (λ ys. x ∷ ys) (take-append xs rest)

-- The text that `escapeJson` writes for one code point that is encoded in several bytes.
escape_from-high :
    (code_point byte : ℕ) (bytes rest : Bytes)
    → leb byte 0x7F ≡ false
    → decode_utf8 (byte ∷ bytes ++ rest) ≡ some (suc (length bytes), code_point)
    → escape_from 0 (byte ∷ bytes ++ rest)
      ≡ (if is_escaped code_point then unicode_escape code_point else byte ∷ bytes)
        ++ escape_from 0 rest
unfolding escape_from escape_decoded
escape_from-high code_point byte bytes rest h e =
    rw (h, e)
      (ap
          (λ chunk.
            (if is_escaped code_point then unicode_escape code_point else byte ∷ chunk)
            ++ escape_from (suc (length bytes) - 1) (bytes ++ rest))
          (take-append bytes rest)
        ∙ ap
            (λ n.
              (if is_escaped code_point then unicode_escape code_point else byte ∷ bytes)
              ++ escape_from n (bytes ++ rest))
            (omega arith)
        ∙ ap
            (λ text'.
              (if is_escaped code_point then unicode_escape code_point else byte ∷ bytes) ++ text')
            (escape_from-skip bytes rest))

-- What the reader makes of it.
read_escaped :
    (code_point : ℕ) (bytes rest : Bytes)
    → encode code_point ≡ bytes
    → All IsHigh bytes
    → decode_utf8 (bytes ++ rest) ≡ some (length bytes, code_point)
    → read_from plain (escape_from 0 (bytes ++ rest))
      ≡ prepend bytes (read_from plain (escape_from 0 rest))
read_escaped code_point [] rest same h e = sym (prepend-nil (read_from plain (escape_from 0 rest)))
read_escaped code_point (byte ∷ bytes) rest same (p, h) e =
    ap (read_from plain) (escape_from-high code_point byte bytes rest (ground (arith, p)) e)
    ∙ (elim (Bool-cases (is_escaped code_point)) [
      | inl f ↦ rw f (
          read_unicode_escape code_point (escape_from 0 rest) (ground (arith, f))
          ∙ ap (λ b. prepend b (read_from plain (escape_from 0 rest))) same)
      | inr f ↦ rw f (IsRead-high (byte ∷ bytes) (escape_from 0 rest) (p, h))
    ])

escape_from-low :
    (byte : ℕ) (rest : Bytes)
    → byte < 0x80
    → read_from plain (escape_from 0 (byte ∷ rest))
      ≡ prepend (byte ∷ []) (read_from plain (escape_from 0 rest))
unfolding escape_from
escape_from-low byte rest h =
    rw (low byte h) (IsRead-escape_ascii byte (escape_from 0 rest) (omega (arith, h)))
  where
    low : (byte' : ℕ) → byte' < 0x80 → leb byte' 0x7F ≡ true
    low byte' h = ground (arith, h)

escape_from-encode :
    (code_point : ℕ) (rest : Bytes)
    → IsScalar code_point
    → read_from plain (escape_from 0 (encode code_point ++ rest))
      ≡ prepend (encode code_point) (read_from plain (escape_from 0 rest))
escape_from-encode code_point rest scalar = elim (Bool-cases (ltb code_point 0x80)) [
  | inl e ↦
      subst
        (λ bytes.
          read_from plain (escape_from 0 (bytes ++ rest))
          ≡ prepend bytes (read_from plain (escape_from 0 rest)))
        (sym (encode-small code_point (ltb→lt code_point 0x80 e)))
        (escape_from-low code_point rest (ltb→lt code_point 0x80 e))
  | inr e ↦
      read_escaped code_point (encode code_point) rest refl
        (encode-IsHigh code_point (ltb→le code_point 0x80 e))
        (decode_utf8-encode code_point rest scalar)
]

-- Reading the text that `escapeJson` writes for a string in UTF-8 gives back the string: no byte of the
-- text ends the JSON string or is a control byte, and every escape stands for what it replaces.
pub read_json-escape_json :
    (code_points : List ℕ)
    → All IsScalar code_points
    → read_json (escape_json (encode_all code_points)) ≡ some (encode_all code_points)
unfolding read_json escape_json encode_all
read_json-escape_json [] h = refl
read_json-escape_json (code_point ∷ code_points) (scalar, h) =
    escape_from-encode code_point (encode_all code_points) scalar
    ∙ ap (prepend (encode code_point)) (read_json-escape_json code_points h)
