-- ===== src/Render/Number.antt =====
-- The numbers of JSON, by RFC 8259.
use howlinux.Base.{
  ℕ, zero, suc, ◌+◌, ◌/◌, ◌%◌, ◌<◌, Bool, true, false, ◌&&◌, ◌||◌, [], ◌∷◌, ◌≡◌, refl, arith, ap,
  ◌∙◌, Option, none, some, if◌then◌else◌, Bytes, codes, leb, ltb, ◌==◌, Bool-cases, inl, inr,
  ltb→lt, ltb→le, All,
}
use howlinux.Base.Numbers.{digits_onto, to_string}

-- Where a reader stands in a number.
pub data Part : Type 0 where
  start behind_minus behind_zero whole behind_point fraction behind_e behind_sign power : Part

abbrev pub is_digit : ℕ → Bool
is_digit c = leb b'0' c && leb c b'9'

abbrev pub exponent : ℕ → Option Part
exponent c = if c == b'e' || c == b'E' then some behind_e else none

abbrev pub behind_whole : ℕ → Option Part
behind_whole c = if c == b'.' then some behind_point else exponent c

abbrev pub first_digit : ℕ → Option Part
first_digit c = if c == b'0' then some behind_zero else if is_digit c then some whole else none

abbrev pub next : Part → ℕ → Option Part
next start c = if c == b'-' then some behind_minus else first_digit c
next behind_minus c = first_digit c
next behind_zero c = behind_whole c
next whole c = if is_digit c then some whole else behind_whole c
next behind_point c = if is_digit c then some fraction else none
next fraction c = if is_digit c then some fraction else exponent c
next behind_e c =
    if c == b'+' || c == b'-' then some behind_sign else if is_digit c then some power else none
next behind_sign c = if is_digit c then some power else none
next power c = if is_digit c then some power else none

abbrev pub may_end : Part → Bool
may_end start = false
may_end behind_minus = false
may_end behind_zero = true
may_end whole = true
may_end behind_point = false
may_end fraction = true
may_end behind_e = false
may_end behind_sign = false
may_end power = true

abbrev pub on_part : Option Part → (Part → Bool) → Bool
on_part none rest = false
on_part (some part) rest = rest part

unfoldable pub reads_number : Part → Bytes → Bool
reads_number part [] = may_end part
reads_number part (c ∷ text) = on_part (next part c) (λ part'. reads_number part' text)

unfoldable pub is_number : Bytes → Bool
unfolding reads_number
is_number text = reads_number start text

abbrev AreDigits : Bytes → Type 0
AreDigits text = All (λ c. is_digit c ≡ true) text

whole-digits : (text : Bytes) → AreDigits text → reads_number whole text ≡ true
unfolding reads_number
whole-digits [] h = refl
whole-digits (c ∷ text) (p, h) = rw p (whole-digits text h)

digit-is_digit : (n : ℕ) → n < 10 → is_digit (b'0' + n) ≡ true
digit-is_digit n h = ground (arith, h)

first : (n : ℕ) → 0 < n → n < 10 → next start (b'0' + n) ≡ some whole
first n low high = ground (arith, low, high)

digits_onto-is_number :
    (fuel n : ℕ) (behind : Bytes)
    → n < fuel
    → 0 < n
    → AreDigits behind
    → reads_number start (digits_onto fuel n behind) ≡ true
unfolding digits_onto reads_number
digits_onto-is_number zero n behind enough positive h = absurd (omega (arith, enough))
digits_onto-is_number (suc fuel) n behind enough positive h = elim (Bool-cases (ltb n 10)) [
  | inl e ↦ rw e (
      ap (λ part. on_part part (λ part'. reads_number part' behind))
        (first n positive (ltb→lt n 10 e))
      ∙ whole-digits behind h)
  | inr e ↦ rw e (
      digits_onto-is_number fuel (n / 10) ((b'0' + n % 10) ∷ behind)
        (omega (arith, enough, ltb→le n 10 e)) (omega (arith, ltb→le n 10 e))
        (digit-is_digit (n % 10) (omega arith), h))
]

-- The decimal text of a natural number is one.
pub to_string-is_number : (n : ℕ) → is_number (to_string n) ≡ true
unfolding is_number to_string
to_string-is_number zero = refl
to_string-is_number (suc n) =
    digits_onto-is_number (suc (suc n)) (suc n) [] (omega arith) (omega arith) tt

examples :
    (is_number (codes "-0.5e+10") ≡ true)
    × (is_number (codes "007") ≡ false)
    × (is_number (codes "nan") ≡ false)
unfolding is_number
examples = (refl, refl, refl)
