-- ===== src/Render/Json/Grammar.antt =====
-- A reader of JSON by RFC 8259, for one value without white space and a newline: an independent
-- description of what the JSON outputs of src/render.cpp and src/app.cpp are.
pub mod Parts
use howlinux.Base.{
  ℕ, Bool, true, false, ◌||◌, List, [], ◌∷◌, ◌++◌, ◌≡◌, refl, Option, none, some, if◌then◌else◌,
  Bytes, codes, ◌==◌,
}
use howlinux.Render.Number.{Part, start, next, may_end}
use howlinux.Render.Quoted.{Reading, plain, Step, step}

-- The arrays and objects around a place, the innermost first.
pub data Frame : Type 0 where
  in_array in_object : Frame

-- Where the reader stands: in front of a value, an item or a name, behind a name or a value, in a word, in
-- a string, which may be a name, in a number, or behind the newline.
pub data Place : Type 0 where
  at_value at_first_item at_first_name at_name at_colon behind_value at_end : Place
  in_word : ℕ → Bytes → Place
  in_string : Bool → Reading → Place
  in_number : Part → Place

abbrev pub Move : Type 0
Move = Option (Place × List Frame)

-- In the rest of a word.
abbrev pub word_place : Bytes → Place
word_place [] = behind_value
word_place (c ∷ word) = in_word c word

abbrev pub number_move : List Frame → Option Part → Move
number_move stack none = none
number_move stack (some part) = some (in_number part, stack)

-- The first byte of a value.
abbrev pub value_move : List Frame → ℕ → Move
value_move stack c =
    if c == b'"'
    then some (in_string false plain, stack)
    else if c == b'['
    then some (at_first_item, in_array ∷ stack)
    else if c == b'{'
    then some (at_first_name, in_object ∷ stack)
    else if c == b't'
    then some (word_place (codes "rue"), stack)
    else if c == b'f'
    then some (word_place (codes "alse"), stack)
    else if c == b'n'
    then some (word_place (codes "ull"), stack)
    else number_move stack (next start c)

-- The byte behind a value.
abbrev pub behind_move : List Frame → ℕ → Move
behind_move [] c = if c == 10 then some (at_end, []) else none
behind_move (in_array ∷ stack) c =
    if c == b','
    then some (at_value, in_array ∷ stack)
    else if c == b']'
    then some (behind_value, stack)
    else none
behind_move (in_object ∷ stack) c =
    if c == b','
    then some (at_name, in_object ∷ stack)
    else if c == b'}'
    then some (behind_value, stack)
    else none

abbrev pub name_move : List Frame → ℕ → Move
name_move stack c = if c == b'"' then some (in_string true plain, stack) else none

-- A `]` or `}` in front of the first item or name.
abbrev pub empty_move : List Frame → Move
empty_move [] = none
empty_move (frame ∷ stack) = some (behind_value, stack)

abbrev pub string_move : Bool → List Frame → Step → Move
string_move is_name stack none = none
string_move is_name stack (some (bytes, reading)) = some (in_string is_name reading, stack)

abbrev pub in_number_move : Part → List Frame → ℕ → Option Part → Move
in_number_move part stack c (some part') = some (in_number part', stack)
in_number_move part stack c none = if may_end part then behind_move stack c else none

abbrev pub move : Place → List Frame → ℕ → Move
move at_value stack c = value_move stack c
move at_first_item stack c = if c == b']' then empty_move stack else value_move stack c
move at_first_name stack c = if c == b'}' then empty_move stack else name_move stack c
move at_name stack c = name_move stack c
move at_colon stack c = if c == b':' then some (at_value, stack) else none
move behind_value stack c = behind_move stack c
move at_end stack c = none
move (in_word d word) stack c = if c == d then some (word_place word, stack) else none
move (in_string is_name plain) stack c =
    if c == b'"'
    then some (if is_name then at_colon else behind_value, stack)
    else string_move is_name stack (step plain c)
move (in_string is_name reading) stack c = string_move is_name stack (step reading c)
move (in_number part) stack c = in_number_move part stack c (next part c)

abbrev pub is_end : Place → Bool
is_end at_end = true
is_end _ = false

abbrev pub on_move : Move → (Place → List Frame → Bool) → Bool
on_move none rest = false
on_move (some (place, stack)) rest = rest place stack

unfoldable pub reads : Place → List Frame → Bytes → Bool
reads place stack [] = is_end place
reads place stack (c ∷ text) =
    on_move (move place stack c) (λ place' stack'. reads place' stack' text)

-- The text is one JSON value and a newline.
unfoldable pub is_json_line : Bytes → Bool
unfolding reads
is_json_line text = reads at_value [] text

examples :
    (is_json_line (codes "{" ++ b'"' ∷ codes "a" ++ b'"' ∷ codes ":[1,-2.5e3,null,{}]}" ++ 10 ∷ [])
      ≡ true)
    × (is_json_line (codes "[1,]" ++ 10 ∷ []) ≡ false)
    × (is_json_line (codes "[1]]" ++ 10 ∷ []) ≡ false)
    × (is_json_line (codes "tru" ++ 10 ∷ []) ≡ false)
    × (is_json_line (codes "[]") ≡ false)
unfolding is_json_line
examples = (refl, refl, refl, refl, refl)
