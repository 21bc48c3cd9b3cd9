-- ===== src/Render/Utf8/Sound.antt =====
-- What `decodeUtf8` of src/render.cpp finds is the encoding of a scalar value.
use howlinux.Base.{
  ℕ, ◌+◌, ◌*◌, ◌/◌, ◌%◌, ◌≤◌, ◌<◌, Bool, true, false, ◌&&◌, [], ◌∷◌, ◌≡◌, refl, sym, arith, some,
  none, if◌then◌else◌, Bytes, leb, take, ◌⊎◌, inl, inr, &&-eq-true,
}
use howlinux.Render.Utf8.{
  is_between, is_continuation_byte, Decoded, decode_two, valid_second_of_three, decode_three,
  valid_second_of_four, decode_four, decode_utf8, IsScalar, encode,
}

pub encode_one : (c : ℕ) → c < 0x80 → encode c ≡ c ∷ []
unfolding encode
encode_one c h = ground (arith, h)

encode_two : (c : ℕ) → 0x80 ≤ c → c < 0x800 → encode c ≡ (0xC0 + c / 64) ∷ (0x80 + c % 64) ∷ []
unfolding encode
encode_two c low high = ground (arith, low, high)

encode_three :
    (c : ℕ)
    → 0x800 ≤ c
    → c < 0x10000
    → encode c ≡ (0xE0 + c / 4096) ∷ (0x80 + (c / 64) % 64) ∷ (0x80 + c % 64) ∷ []
unfolding encode
encode_three c low high = ground (arith, low, high)

encode_four :
    (c : ℕ)
    → 0x10000 ≤ c
    → encode c
      ≡ (0xF0 + c / 262144)
        ∷ (0x80 + (c / 4096) % 64)
        ∷ (0x80 + (c / 64) % 64)
        ∷ (0x80 + c % 64)
        ∷ []
unfolding encode
encode_four c low = ground (arith, low)

-- The bytes that are decoded encode the code point, which is a scalar value.
abbrev pub IsEncoded : Bytes → Decoded → Type 0
IsEncoded value none = Unit
IsEncoded value (some (length, c)) = (take length value ≡ encode c) × IsScalar c

module _ (value : Bytes) where
  when-IsEncoded :
      (test : Bool) (decoded : ℕ × ℕ)
      → (test ≡ true → IsEncoded value (some decoded))
      → IsEncoded value (if test then some decoded else none)
  when-IsEncoded true decoded h = h refl
  when-IsEncoded false decoded h = tt

  either-IsEncoded :
      (test : Bool) (a b : Decoded)
      → (test ≡ true → IsEncoded value a)
      → IsEncoded value b
      → IsEncoded value (if test then a else b)
  either-IsEncoded true a b h k = h refl
  either-IsEncoded false a b h k = k

two :
    (first second : ℕ)
    → is_between 0xC2 0xDF first ≡ true
    → is_continuation_byte second ≡ true
    → let c = (first % 32) * 64 + second % 64 in (first ∷ second ∷ [] ≡ encode c) × IsScalar c
two first second h k =
    let (a, b) : (0xC2 ≤ first) × (first ≤ 0xDF) = (ground (arith, h), ground (arith, h)) in
    let (d, e) : (0x80 ≤ second) × (second ≤ 0xBF) = (ground (arith, k), ground (arith, k)) in
    let c = (first % 32) * 64 + second % 64 in
    let x : 0xC0 + c / 64 ≡ first = omega (arith, a, b) in
    let y : 0x80 + c % 64 ≡ second = omega (arith, d, e) in
    (cc (encode_two c (omega (arith, a, b)) (omega (arith, a, b)), x, y), inl (omega (arith, a, b)))

three_low :
    (first second : ℕ)
    → 0xE0 ≤ first
    → valid_second_of_three first second ≡ true
    → (0xA0 ≤ second) ⊎ (0xE1 ≤ first)
three_low first second a k = ground (arith, a, k)

three_high :
    (first second : ℕ)
    → valid_second_of_three first second ≡ true
    → (first ≤ 0xEC) ⊎ ((first ≡ 0xED) × (second ≤ 0x9F)) ⊎ (0xEE ≤ first)
three_high first second k = ground (arith, k)

four_low :
    (first second : ℕ)
    → 0xF0 ≤ first
    → valid_second_of_four first second ≡ true
    → (0x90 ≤ second) ⊎ (0xF1 ≤ first)
four_low first second a k = ground (arith, a, k)

four_high :
    (first second : ℕ)
    → first ≤ 0xF4
    → valid_second_of_four first second ≡ true
    → (second ≤ 0x8F) ⊎ (first ≤ 0xF3)
four_high first second b k = ground (arith, b, k)

three :
    (first second third : ℕ)
    → is_between 0xE0 0xEF first ≡ true
    → valid_second_of_three first second ≡ true
    → is_continuation_byte third ≡ true
    → let c = (first % 16) * 4096 + (second % 64) * 64 + third % 64 in
      (first ∷ second ∷ third ∷ [] ≡ encode c) × IsScalar c
three first second third h k m =
    let (a, b) : (0xE0 ≤ first) × (first ≤ 0xEF) = (ground (arith, h), ground (arith, h)) in
    let (d, e) : (0x80 ≤ second) × (second ≤ 0xBF) = (ground (arith, k), ground (arith, k)) in
    let (f, g) : (0x80 ≤ third) × (third ≤ 0xBF) = (ground (arith, m), ground (arith, m)) in
    let c = (first % 16) * 4096 + (second % 64) * 64 + third % 64 in
    let x : 0xE0 + c / 4096 ≡ first = omega (arith, a, b) in
    let y : 0x80 + (c / 64) % 64 ≡ second = omega (arith, d, e) in
    let z : 0x80 + c % 64 ≡ third = omega (arith, f, g) in
    let shortest : first ≡ 0xE0 → 0xA0 ≤ second = λ t. ground (arith, k, t) in
    let low : 0x800 ≤ c = elim (three_low first second a k) [
      | inl p ↦ omega (arith, a, b, d, e, p)
      | inr p ↦ omega (arith, a, b, p)
    ] in
    (
      cc (encode_three c low (omega (arith, a, b)), x, y, z),
      elim (three_high first second k) [
        | inl p ↦ inl (omega (arith, a, p))
        | inr p ↦ elim p [
          | inl q ↦ let (r, t) = q in inl (omega (arith, r, t, d))
          | inr q ↦ inr (omega (arith, b, q), omega (arith, a, b))
        ]
      ],
    )

four :
    (first second third fourth : ℕ)
    → is_between 0xF0 0xF4 first ≡ true
    → valid_second_of_four first second ≡ true
    → is_continuation_byte third ≡ true
    → is_continuation_byte fourth ≡ true
    → let c = (first % 8) * 262144 + (second % 64) * 4096 + (third % 64) * 64 + fourth % 64 in
      (first ∷ second ∷ third ∷ fourth ∷ [] ≡ encode c) × IsScalar c
four first second third fourth h k m n =
    let (a, b) : (0xF0 ≤ first) × (first ≤ 0xF4) = (ground (arith, h), ground (arith, h)) in
    let (d, e) : (0x80 ≤ second) × (second ≤ 0xBF) = (ground (arith, k), ground (arith, k)) in
    let (f, g) : (0x80 ≤ third) × (third ≤ 0xBF) = (ground (arith, m), ground (arith, m)) in
    let (i, j) : (0x80 ≤ fourth) × (fourth ≤ 0xBF) = (ground (arith, n), ground (arith, n)) in
    let c = (first % 8) * 262144 + (second % 64) * 4096 + (third % 64) * 64 + fourth % 64 in
    let x : 0xF0 + c / 262144 ≡ first = omega (arith, a, b) in
    let y : 0x80 + (c / 4096) % 64 ≡ second = omega (arith, d, e) in
    let z : 0x80 + (c / 64) % 64 ≡ third = omega (arith, f, g) in
    let u : 0x80 + c % 64 ≡ fourth = omega (arith, i, j) in
    let low : 0x10000 ≤ c = elim (four_low first second a k) [
      | inl p ↦ omega (arith, a, b, d, e, p)
      | inr p ↦ omega (arith, a, b, p)
    ] in
    (
      cc (encode_four c low, x, y, z, u),
      inr (
        omega (arith, low),
        elim (four_high first second b k) [
          | inl p ↦ omega (arith, a, b, d, e, p)
          | inr p ↦ omega (arith, a, b, p)
        ],
      ),
    )

module _ (first : ℕ) where
  decode_two-IsEncoded :
      (rest : Bytes)
      → is_between 0xC2 0xDF first ≡ true
      → IsEncoded (first ∷ rest) (decode_two first rest)
  unfolding decode_two
  decode_two-IsEncoded [] h = tt
  decode_two-IsEncoded (second ∷ rest) h =
      when-IsEncoded (first ∷ second ∷ rest) (is_continuation_byte second) _
        (λ k. two first second h k)

  decode_three-IsEncoded :
      (rest : Bytes)
      → is_between 0xE0 0xEF first ≡ true
      → IsEncoded (first ∷ rest) (decode_three first rest)
  unfolding decode_three
  decode_three-IsEncoded [] h = tt
  decode_three-IsEncoded (second ∷ []) h = tt
  decode_three-IsEncoded (second ∷ third ∷ rest) h =
      when-IsEncoded (first ∷ second ∷ third ∷ rest)
        (valid_second_of_three first second && is_continuation_byte third) _
        (λ k. let (a, b) = &&-eq-true _ _ k in three first second third h a b)

  decode_four-IsEncoded :
      (rest : Bytes)
      → is_between 0xF0 0xF4 first ≡ true
      → IsEncoded (first ∷ rest) (decode_four first rest)
  unfolding decode_four
  decode_four-IsEncoded [] h = tt
  decode_four-IsEncoded (second ∷ []) h = tt
  decode_four-IsEncoded (second ∷ third ∷ []) h = tt
  decode_four-IsEncoded (second ∷ third ∷ fourth ∷ rest) h =
      when-IsEncoded (first ∷ second ∷ third ∷ fourth ∷ rest)
        (valid_second_of_four first second
          && is_continuation_byte third
          && is_continuation_byte fourth)
        _
        (λ k.
          let (ab, c) = &&-eq-true _ _ k in
          let (a, b) = &&-eq-true _ _ ab in four first second third fourth h a b c)

  pub decode_utf8-IsEncoded : (rest : Bytes) → IsEncoded (first ∷ rest) (decode_utf8 (first ∷ rest))
  unfolding decode_utf8
  decode_utf8-IsEncoded rest =
      let value = first ∷ rest in
      either-IsEncoded value (leb first 0x7F) _ _ one (
        either-IsEncoded value (is_between 0xC2 0xDF first) _ _ (decode_two-IsEncoded rest) (
          either-IsEncoded value (is_between 0xE0 0xEF first) _ _ (decode_three-IsEncoded rest) (
            either-IsEncoded value (is_between 0xF0 0xF4 first) _ _ (decode_four-IsEncoded rest)
              tt)))
    where
      one : leb first 0x7F ≡ true → (first ∷ [] ≡ encode first) × IsScalar first
      one h =
          let low : first < 0x80 = ground (arith, h) in
          (sym (encode_one first low), inl (omega (arith, low)))
