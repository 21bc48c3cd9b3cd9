-- ===== src/Render/Any/Encoded.antt =====
-- What `escapeJson` of src/render.cpp writes is UTF-8, whatever it reads.
use howlinux.Base.{
  ℕ, zero, suc, ◌-◌, ◌<◌, Bool, true, false, [], ◌∷◌, ◌++◌, ◌≡◌, refl, subst, arith, Option, none,
  some, if◌then◌else◌, Bytes, codes, leb, ◌==◌, All, inl, inr, Bool-cases,
}
use howlinux.Knowledge.Lookup.{is_some}
use howlinux.Render.Utf8.{Decoded, decode_utf8, IsScalar, encode}
use howlinux.Render.Utf8.Sound.{encode_one, IsEncoded, decode_utf8-IsEncoded}
use howlinux.Render.Escape.{
  hex_digit, short_escape, is_control, unicode_escape, ascii_byte, escape_ascii, is_escaped,
  escape_decoded, escape_from, escape_json,
}
use howlinux.Render.Quoted.{read_json}
use howlinux.Render.Any.{escape_json-IsText}

-- Encodings of Unicode scalar values, one behind the other.
pub data IsUtf8 : Bytes → Type 0 where
  over : IsUtf8 []
  encoded : (c : ℕ) (rest : Bytes) → IsScalar c → IsUtf8 rest → IsUtf8 (encode c ++ rest)

byte-IsUtf8 : (c : ℕ) (rest : Bytes) → c < 0x80 → IsUtf8 rest → IsUtf8 (c ∷ rest)
byte-IsUtf8 c rest low h =
    subst (λ bytes. IsUtf8 (bytes ++ rest)) (encode_one c low)
      (encoded c rest (inl (omega (arith, low))) h)

abbrev AreAscii : Bytes → Type 0
AreAscii bytes = All (λ c. c < 0x80) bytes

AreAscii-IsUtf8 : (bytes rest : Bytes) → AreAscii bytes → IsUtf8 rest → IsUtf8 (bytes ++ rest)
AreAscii-IsUtf8 [] rest low h = h
AreAscii-IsUtf8 (c ∷ bytes) rest (here, low) h =
    byte-IsUtf8 c (bytes ++ rest) here (AreAscii-IsUtf8 bytes rest low h)

if-AreAscii :
    (test : Bool) (xs ys : Bytes) → AreAscii xs → AreAscii ys → AreAscii (if test then xs else ys)
if-AreAscii true xs ys h k = h
if-AreAscii false xs ys h k = k

digit_low : (n : ℕ) → n < 16 → hex_digit n < 0x80
unfolding hex_digit
digit_low n h = ground (arith, h)

unicode_escape-AreAscii : (c : ℕ) → AreAscii (unicode_escape c)
unfolding unicode_escape
unicode_escape-AreAscii c = (
  omega arith,
  (
    omega arith,
    (
      digit_low _ (omega arith),
      (digit_low _ (omega arith), (digit_low _ (omega arith), (digit_low _ (omega arith), tt))),
    ),
  ),
)

short_low : (byte c : ℕ) → short_escape byte ≡ some c → c < 0x80
short_low byte c h = ground (arith, h)

ascii_byte-AreAscii :
    (byte : ℕ) (short : Option ℕ)
    → byte < 0x80
    → ((c : ℕ) → short ≡ some c → c < 0x80)
    → AreAscii (ascii_byte byte short)
ascii_byte-AreAscii byte (some c) low h = (omega arith, (h c refl, tt))
ascii_byte-AreAscii byte none low h =
    if-AreAscii (is_control byte) _ _ (unicode_escape-AreAscii byte) (low, tt)

escape_ascii-AreAscii : (byte : ℕ) → byte < 0x80 → AreAscii (escape_ascii byte)
unfolding escape_ascii
escape_ascii-AreAscii byte low =
    if-AreAscii (byte == b'"') _ _ (omega arith, (omega arith, tt))
      (if-AreAscii (byte == b'\\') _ _ (omega arith, (omega arith, tt))
        (ascii_byte-AreAscii byte (short_escape byte) low (λ c h. short_low byte c h)))

escape_decoded-IsUtf8 :
    (value : Bytes) (decoded : Decoded) (next : ℕ → Bytes)
    → IsEncoded value decoded
    → ((n : ℕ) → IsUtf8 (next n))
    → IsUtf8 (escape_decoded decoded value next)
unfolding escape_decoded
escape_decoded-IsUtf8 value none next h k =
    AreAscii-IsUtf8 (b'\\' ∷ codes "uFFFD") (next 0)
      (omega arith, (omega arith, (omega arith, (omega arith, (omega arith, (omega arith, tt))))))
      (k 0)
escape_decoded-IsUtf8 value (some (length, c)) next (same, scalar) k =
    elim (Bool-cases (is_escaped c)) [
      | inl e ↦ rw e (
          AreAscii-IsUtf8 (unicode_escape c) (next (length - 1)) (unicode_escape-AreAscii c)
            (k (length - 1)))
      | inr e ↦ rw (e, same) (encoded c (next (length - 1)) scalar (k (length - 1)))
    ]

escape_from-IsUtf8 : (skipped : ℕ) (value : Bytes) → IsUtf8 (escape_from skipped value)
unfolding escape_from
escape_from-IsUtf8 skipped [] = over
escape_from-IsUtf8 (suc skipped) (byte ∷ value) = escape_from-IsUtf8 skipped value
escape_from-IsUtf8 zero (byte ∷ value) = elim (Bool-cases (leb byte 0x7F)) [
  | inl e ↦ rw e (
      AreAscii-IsUtf8 (escape_ascii byte) (escape_from 0 value)
        (escape_ascii-AreAscii byte (ground (arith, e))) (escape_from-IsUtf8 0 value))
  | inr e ↦ rw e (
      escape_decoded-IsUtf8 (byte ∷ value) (decode_utf8 (byte ∷ value)) (λ n. escape_from n value)
        (decode_utf8-IsEncoded byte value) (λ n. escape_from-IsUtf8 n value))
]

-- Whatever the bytes are, `escapeJson` writes valid UTF-8, and a reader of JSON strings takes it to its end:
-- nothing in it ends the string, is a control byte, or is a broken escape.
pub escape_json-IsUtf8 :
    (value : Bytes) → IsUtf8 (escape_json value) × (is_some (read_json (escape_json value)) ≡ true)
unfolding escape_json
escape_json-IsUtf8 value = (escape_from-IsUtf8 0 value, escape_json-IsText value)
