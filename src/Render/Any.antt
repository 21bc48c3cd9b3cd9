-- ===== src/Render/Any.antt =====
-- What `escapeJson` of src/render.cpp writes for bytes that need not be UTF-8.
pub mod Encoded
use howlinux.Base.{
  ℕ, zero, suc, ◌-◌, Bool, true, false, ◌&&◌, [], ◌∷◌, ◌++◌, ◌≡◌, refl, ap, ◌∙◌, arith, Option,
  none, some, if◌then◌else◌, Bytes, codes, leb, All, take, Bool-cases, inl, inr, leb→le, leb→lt,
  &&-eq-true,
}
use howlinux.Knowledge.Lookup.{is_some}
use howlinux.Render.Utf8.{
  is_between, is_continuation_byte, Decoded, decode_two, valid_second_of_three, decode_three,
  valid_second_of_four, decode_four, decode_utf8, encode,
}
use howlinux.Render.Escape.{is_escaped, escape_decoded, escape_from, escape_json}
use howlinux.Render.Quoted.{
  plain, read_from, read_json, prepend, read_unicode_escape, IsHigh, IsRead-high,
  IsRead-escape_ascii,
}

-- The bytes of a decoded sequence are no ASCII.
abbrev AreHigh : Bytes → Decoded → Type 0
AreHigh value none = Unit
AreHigh value (some (length, code_point)) = All IsHigh (take length value)

when-AreHigh :
    (value : Bytes) (test : Bool) (decoded : ℕ × ℕ)
    → (test ≡ true → AreHigh value (some decoded))
    → AreHigh value (if test then some decoded else none)
when-AreHigh value true decoded h = h refl
when-AreHigh value false decoded h = tt

high : (byte : ℕ) → is_continuation_byte byte ≡ true → IsHigh byte
high byte h = ground (arith, h)

second_of_three : (first second : ℕ) → valid_second_of_three first second ≡ true → IsHigh second
second_of_three first second h = ground (arith, h)

second_of_four : (first second : ℕ) → valid_second_of_four first second ≡ true → IsHigh second
second_of_four first second h = ground (arith, h)

module _ (first : ℕ) (p : IsHigh first) where
  decode_two-AreHigh : (rest : Bytes) → AreHigh (first ∷ rest) (decode_two first rest)
  unfolding decode_two
  decode_two-AreHigh [] = tt
  decode_two-AreHigh (second ∷ rest) =
      when-AreHigh (first ∷ second ∷ rest) (is_continuation_byte second) _
        (λ h. (p, (high second h, tt)))

  decode_three-AreHigh : (rest : Bytes) → AreHigh (first ∷ rest) (decode_three first rest)
  unfolding decode_three
  decode_three-AreHigh [] = tt
  decode_three-AreHigh (second ∷ []) = tt
  decode_three-AreHigh (second ∷ third ∷ rest) =
      when-AreHigh (first ∷ second ∷ third ∷ rest)
        (valid_second_of_three first second && is_continuation_byte third) _
        (λ h.
          let (a, b) = &&-eq-true _ _ h in
          (p, (second_of_three first second a, (high third b, tt))))

  decode_four-AreHigh : (rest : Bytes) → AreHigh (first ∷ rest) (decode_four first rest)
  unfolding decode_four
  decode_four-AreHigh [] = tt
  decode_four-AreHigh (second ∷ []) = tt
  decode_four-AreHigh (second ∷ third ∷ []) = tt
  decode_four-AreHigh (second ∷ third ∷ fourth ∷ rest) =
      when-AreHigh (first ∷ second ∷ third ∷ fourth ∷ rest)
        (valid_second_of_four first second
          && is_continuation_byte third
          && is_continuation_byte fourth)
        _
        (λ h.
          let (ab, c) = &&-eq-true _ _ h in
          let (a, b) = &&-eq-true _ _ ab in
          (p, (second_of_four first second a, (high third b, (high fourth c, tt)))))

  by_test :
      (value : Bytes) (test : Bool) (a b : Decoded)
      → AreHigh value a
      → AreHigh value b
      → AreHigh value (if test then a else b)
  by_test value true a b h k = h
  by_test value false a b h k = k

  decode_utf8-AreHigh : (rest : Bytes) → AreHigh (first ∷ rest) (decode_utf8 (first ∷ rest))
  unfolding decode_utf8
  decode_utf8-AreHigh rest =
      by_test (first ∷ rest) (leb first 0x7F) _ _ (p, tt)
        (by_test (first ∷ rest) (is_between 0xC2 0xDF first) _ _ (decode_two-AreHigh rest) (
          by_test (first ∷ rest) (is_between 0xE0 0xEF first) _ _ (decode_three-AreHigh rest) (
            by_test (first ∷ rest) (is_between 0xF0 0xF4 first) _ _ (decode_four-AreHigh rest) tt)))

abbrev IsText : Bytes → Type 0
IsText written = is_some (read_from plain written) ≡ true

prepend-IsText :
    (bytes : Bytes) (read : Option Bytes)
    → is_some read ≡ true
    → is_some (prepend bytes read) ≡ true
prepend-IsText bytes none h = h
prepend-IsText bytes (some rest) h = refl

none-IsText : (rest : Bytes) → IsText rest → IsText (b'\\' ∷ codes "uFFFD" ++ rest)
unfolding read_from
none-IsText rest h = prepend-IsText [] _ (
    prepend-IsText [] _ (
      prepend-IsText [] _ (
        prepend-IsText [] _
          (prepend-IsText [] _ (prepend-IsText (encode 0xFFFD) (read_from plain rest) h)))))

escape_decoded-IsText :
    (value : Bytes) (decoded : Decoded) (next : ℕ → Bytes)
    → AreHigh value decoded
    → ((n : ℕ) → IsText (next n))
    → IsText (escape_decoded decoded value next)
unfolding escape_decoded read_from
escape_decoded-IsText value none next h k = none-IsText (next 0) (k 0)
escape_decoded-IsText value (some (length, code_point)) next h k =
    elim (Bool-cases (is_escaped code_point)) [
      | inl f ↦ rw f (
          ap is_some (read_unicode_escape code_point (next (length - 1)) (ground (arith, f)))
          ∙ prepend-IsText (encode code_point) (read_from plain (next (length - 1)))
              (k (length - 1)))
      | inr f ↦ rw f (
          ap is_some (IsRead-high (take length value) (next (length - 1)) h)
          ∙ prepend-IsText (take length value) (read_from plain (next (length - 1)))
              (k (length - 1)))
    ]

escape_from-IsText : (skipped : ℕ) (value : Bytes) → IsText (escape_from skipped value)
unfolding escape_from read_from
escape_from-IsText skipped [] = refl
escape_from-IsText (suc skipped) (byte ∷ value) = escape_from-IsText skipped value
escape_from-IsText zero (byte ∷ value) = elim (Bool-cases (leb byte 0x7F)) [
  | inl e ↦ rw e (
      ap is_some (IsRead-escape_ascii byte (escape_from 0 value) (leb→le byte 0x7F e))
      ∙ prepend-IsText (byte ∷ []) (read_from plain (escape_from 0 value))
          (escape_from-IsText 0 value))
  | inr e ↦ rw e (
      escape_decoded-IsText (byte ∷ value) (decode_utf8 (byte ∷ value)) (λ n. escape_from n value)
        (decode_utf8-AreHigh byte (leb→lt byte 0x7F e) value) (λ n. escape_from-IsText n value))
]

-- What is written is the text of a JSON string, but for bytes from 0x80 on.
pub escape_json-IsText : (value : Bytes) → is_some (read_json (escape_json value)) ≡ true
unfolding read_json escape_json
escape_json-IsText value = escape_from-IsText 0 value
