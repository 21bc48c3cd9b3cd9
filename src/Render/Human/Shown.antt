-- ===== src/Render/Human/Shown.antt =====
-- Bytes that do not steer a terminal, and the parts that the outputs of src/render.cpp are put together from.
use howlinux.Base.{
  ℕ, zero, suc, ◌+◌, ◌/◌, ◌%◌, ◌<◌, Bool, true, false, not, List, [], ◌∷◌, ◌≡◌, refl, ◌∙◌, arith,
  Option, none, some, if◌then◌else◌, Bytes, codes, all, Bool-cases, inl, inr, All-append, ltb,
  ltb→lt, &&-eq-true,
}
use howlinux.Base.Numbers.{digits_onto, to_string}
use howlinux.Markdown.Text.{is_hidden}
use howlinux.Markdown.Inline.Shown.{AreShown}
use howlinux.Render.Escape.{hex_digit, is_control, short_escape, human_byte, human_safe}
use howlinux.Render.Write.{
  Writer, ◌<<◌, put, nothing, put_each, put_indexed, put_safe, put_number, joined_human,
}
use howlinux.Render.Human.{when}

abbrev pub is_shown : Bytes → Bool
is_shown text = all (λ c. not (is_hidden c)) text

-- A writer that adds nothing that is hidden.
abbrev pub IsSafe : Writer → Type 0
IsSafe write = (rest : Bytes) → is_shown (write rest) ≡ is_shown rest

pub AreShown-IsSafe : (text : Bytes) → AreShown text → IsSafe (put text)
AreShown-IsSafe [] h rest = refl
AreShown-IsSafe (c ∷ text) (p, h) rest = rw p (AreShown-IsSafe text h rest)

pub AreShown-of : (text : Bytes) → is_shown text ≡ true → AreShown text
AreShown-of [] h = tt
AreShown-of (c ∷ text) h =
    let (p, rest) = &&-eq-true (not (is_hidden c)) (is_shown text) h in
    (ground (arith, p), AreShown-of text rest)

hex_digit-shown : (n : ℕ) → n < 16 → is_hidden (hex_digit n) ≡ false
unfolding hex_digit
hex_digit-shown n h = ground (arith, h)

short-shown : (c d : ℕ) → short_escape c ≡ some d → is_hidden d ≡ false
short-shown c d h = ground (arith, h)

control-shown : (c : ℕ) → is_control c ≡ false → is_hidden c ≡ false
control-shown c h = ground (arith, h)

human_byte-AreShown :
    (c : ℕ) (short : Option ℕ) → short_escape c ≡ short → AreShown (human_byte c short)
human_byte-AreShown c (some d) same = (refl, (short-shown c d same, tt))
human_byte-AreShown c none same = elim (Bool-cases (is_control c)) [
  | inl e ↦ rw e (
    refl,
    (
      refl,
      (hex_digit-shown ((c / 16) % 16) (omega arith), (hex_digit-shown (c % 16) (omega arith), tt)),
    ),
  )
  | inr e ↦ rw e (control-shown c e, tt)
]

human_safe-AreShown : (value : Bytes) → AreShown (human_safe value)
unfolding human_safe
human_safe-AreShown [] = tt
human_safe-AreShown (c ∷ value) =
    All-append (λ d. is_hidden d ≡ false) (human_byte c (short_escape c)) (human_safe value)
      (human_byte-AreShown c (short_escape c) refl) (human_safe-AreShown value)

pub safe : (value : Bytes) → IsSafe (put_safe value)
safe value = AreShown-IsSafe (human_safe value) (human_safe-AreShown value)

digit-shown : (n : ℕ) → n < 10 → is_hidden (b'0' + n) ≡ false
digit-shown n h = ground (arith, h)

digits_onto-AreShown :
    (fuel n : ℕ) (behind : Bytes) → AreShown behind → AreShown (digits_onto fuel n behind)
unfolding digits_onto
digits_onto-AreShown zero n behind h = h
digits_onto-AreShown (suc fuel) n behind h = elim (Bool-cases (ltb n 10)) [
  | inl e ↦ rw e (digit-shown n (ltb→lt n 10 e), h)
  | inr e ↦ rw e (
      digits_onto-AreShown fuel (n / 10) ((b'0' + n % 10) ∷ behind)
        (digit-shown (n % 10) (omega arith), h))
]

pub printed : (n : ℕ) → IsSafe (put_number n)
unfolding to_string
printed n = AreShown-IsSafe (to_string n) (digits_onto-AreShown (suc n) n [] tt)

pub if-IsSafe : (test : Bool) (v w : Writer) → IsSafe v → IsSafe w → IsSafe (if test then v else w)
if-IsSafe true v w h k rest = h rest
if-IsSafe false v w h k rest = k rest

pub when-IsSafe : (test : Bool) (w : Writer) → IsSafe w → IsSafe (when test w)
when-IsSafe test w h = if-IsSafe test w nothing h (λ rest. refl)

then-IsSafe : (v w : Writer) → IsSafe v → IsSafe w → IsSafe (v << w)
then-IsSafe v w h k rest = h (w rest) ∙ k rest

pub each-IsSafe :
    {A : Type 0} (write : A → Writer)
    → ((x : A) → IsSafe (write x))
    → (xs : List A) → IsSafe (put_each write xs)
each-IsSafe write h [] rest = refl
each-IsSafe write h (x ∷ xs) rest = h x (put_each write xs rest) ∙ each-IsSafe write h xs rest

pub indexed-IsSafe :
    {A : Type 0} (write : ℕ → A → Writer)
    → ((n : ℕ) (x : A) → IsSafe (write n x))
    → (n : ℕ) (xs : List A) → IsSafe (put_indexed n write xs)
indexed-IsSafe write h n [] rest = refl
indexed-IsSafe write h n (x ∷ xs) rest =
    h n x (put_indexed (n + 1) write xs rest) ∙ indexed-IsSafe write h (n + 1) xs rest

pub joined-IsSafe :
    (values : List Bytes) (label : Bytes) → AreShown label → IsSafe (joined_human values label)
unfolding joined_human
joined-IsSafe [] label h rest = AreShown-IsSafe label h rest
joined-IsSafe (value ∷ values) label h rest =
    safe value _ ∙ each-IsSafe (λ v. put (codes ", ") << put_safe v) (λ v r. safe v r) values rest
