-- ===== src/Render/Json/Grammar/Parts.antt =====
-- How the reader of JSON goes through a number and a string that src/render.cpp writes.
use howlinux.Base.{
  ℕ, Bool, true, false, ◌||◌, List, [], ◌∷◌, ◌++◌, ◌≡◌, refl, ◌∙◌, sym, arith, Option, none, some,
  if◌then◌else◌, Bytes, ◌==◌,
}
use howlinux.Knowledge.Lookup.{is_some}
use howlinux.Render.Number.{
  Part, start, behind_minus, behind_zero, whole, behind_point, fraction, behind_e, behind_sign,
  power, next, may_end, on_part, reads_number,
}
use howlinux.Render.Quoted.{
  Reading, plain, escaped, hexadecimal, Step, step, prepend, resume, read_from,
}
use howlinux.Render.Json.Grammar.{
  Frame, at_colon, behind_value, in_string, in_number, value_move, in_number_move, on_move,
  string_move, reads,
}

-- The bytes that follow a value.
abbrev pub is_close : ℕ → Bool
is_close c = c == b',' || c == b']' || c == b'}' || c == 10

abbrev pub Closes : Bytes → Type 0
Closes [] = ⊥
Closes (c ∷ text) = is_close c ≡ true

-- No number goes on with such a byte.
next-close : (part : Part) (c : ℕ) → is_close c ≡ true → next part c ≡ none
next-close start c h = ground (arith, h)
next-close behind_minus c h = ground (arith, h)
next-close behind_zero c h = ground (arith, h)
next-close whole c h = ground (arith, h)
next-close behind_point c h = ground (arith, h)
next-close fraction c h = ground (arith, h)
next-close behind_e c h = ground (arith, h)
next-close behind_sign c h = ground (arith, h)
next-close power c h = ground (arith, h)

is_some-prepend :
    (bytes : Bytes) (rest : Option Bytes) → is_some (prepend bytes rest) ≡ is_some rest
is_some-prepend bytes none = refl
is_some-prepend bytes (some rest) = refl

refused :
    (found : Step) (text : Bytes)
    → found ≡ none
    → is_some (resume found (λ reading. read_from reading text)) ≡ false
refused found text e = rw e refl

module _ (stack : List Frame) where
  behind-number :
      (part : Part) (rest : Bytes)
      → may_end part ≡ true
      → Closes rest
      → reads (in_number part) stack rest ≡ reads behind_value stack rest
  unfolding reads
  behind-number part [] h k = absurd k
  behind-number part (c ∷ rest) h k = rw (next-close part c k, h) refl

  number_moved :
      (part : Part) (c : ℕ) (text rest : Bytes) (found : Option Part)
      → on_part found (λ part'. reads_number part' text) ≡ true
      → ((part' : Part)
          → reads_number part' text ≡ true
          → reads (in_number part') stack (text ++ rest) ≡ reads behind_value stack rest)
      → on_move
          (in_number_move part stack c found)
          (λ place stack'. reads place stack' (text ++ rest))
        ≡ reads behind_value stack rest
  number_moved part c text rest none h k = absurd (ground (arith, h))
  number_moved part c text rest (some part') h k = k part' h

  pub number-read :
      (part : Part) (text rest : Bytes)
      → reads_number part text ≡ true
      → Closes rest
      → reads (in_number part) stack (text ++ rest) ≡ reads behind_value stack rest
  unfolding reads reads_number
  number-read part [] rest h k = behind-number part rest h k
  number-read part (c ∷ text) rest h k =
      number_moved part c text rest (next part c) h (λ part' h'. number-read part' text rest h' k)

  pub value-number :
      (c : ℕ) (part : Part)
      → next start c ≡ some part
      → value_move stack c ≡ some (in_number part, stack)
  value-number c part h = ground (arith, h)

  string_moved :
      (is_name result : Bool) (text after : Bytes) (found : Step)
      → is_some (resume found (λ reading. read_from reading text)) ≡ true
      → ((reading : Reading)
          → is_some (read_from reading text) ≡ true
          → reads (in_string is_name reading) stack after ≡ result)
      → on_move (string_move is_name stack found) (λ place stack'. reads place stack' after)
        ≡ result
  string_moved is_name result text after none h k = absurd (ground (arith, h))
  string_moved is_name result text after (some (bytes, reading)) h k =
      k reading (sym (is_some-prepend bytes (read_from reading text)) ∙ h)

  plain_moved :
      (is_name quote : Bool) (text rest : Bytes) (found : Step)
      → is_some (resume found (λ reading. read_from reading text)) ≡ true
      → (quote ≡ true → found ≡ none)
      → ((reading : Reading)
          → is_some (read_from reading text) ≡ true
          → reads (in_string is_name reading) stack (text ++ b'"' ∷ rest)
            ≡ reads (if is_name then at_colon else behind_value) stack rest)
      → on_move
          (if quote
            then some (if is_name then at_colon else behind_value, stack)
            else string_move is_name stack found)
          (λ place stack'. reads place stack' (text ++ b'"' ∷ rest))
        ≡ reads (if is_name then at_colon else behind_value) stack rest
  plain_moved is_name true text rest found h only k =
      absurd (cc (h, refused found text (only refl)))
  plain_moved is_name false text rest found h only k =
      string_moved is_name (reads (if is_name then at_colon else behind_value) stack rest) text
        (text ++ b'"' ∷ rest) found h k

  quote-none : (c : ℕ) → c == b'"' ≡ true → step plain c ≡ none
  quote-none c h = ground (arith, h)

  pub string-read :
      (is_name : Bool) (reading : Reading) (text rest : Bytes)
      → is_some (read_from reading text) ≡ true
      → reads (in_string is_name reading) stack (text ++ b'"' ∷ rest)
        ≡ reads (if is_name then at_colon else behind_value) stack rest
  unfolding reads read_from
  string-read is_name plain [] rest h = refl
  string-read is_name escaped [] rest h = absurd (ground (arith, h))
  string-read is_name (hexadecimal left value) [] rest h = absurd (ground (arith, h))
  string-read is_name plain (c ∷ text) rest h =
      plain_moved is_name (c == b'"') text rest (step plain c) h (quote-none c)
        (λ reading h'. string-read is_name reading text rest h')
  string-read is_name escaped (c ∷ text) rest h =
      string_moved is_name (reads (if is_name then at_colon else behind_value) stack rest) text
        (text ++ b'"' ∷ rest) (step escaped c) h
        (λ reading h'. string-read is_name reading text rest h')
  string-read is_name (hexadecimal left value) (c ∷ text) rest h =
      string_moved is_name (reads (if is_name then at_colon else behind_value) stack rest) text
        (text ++ b'"' ∷ rest) (step (hexadecimal left value) c) h
        (λ reading h'. string-read is_name reading text rest h')
