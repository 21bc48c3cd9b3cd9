-- ===== src/Render/Json/Accepted.antt =====
-- The text of a JSON value, as the outputs of src/render.cpp are put together, is read as one.
use howlinux.Base.{
  ℕ, Bool, true, false, List, [], ◌∷◌, ◌++◌, ◌≡◌, refl, ap, ◌∙◌, arith, Option, none, some,
  if◌then◌else◌, Bytes, ◌==◌,
}
use howlinux.Render.Escape.{escape_json}
use howlinux.Render.Number.{Part, start, next, on_part, reads_number, is_number}
use howlinux.Render.Quoted.{plain, read_json}
use howlinux.Render.Any.{escape_json-IsText}
use howlinux.Render.Json.{json_string}
use howlinux.Render.Json.Values.{
  Json, null, boolean, number, string, array, object, Items, no_items, item, Members, no_members,
  member, print, print_items, print_members,
}
use howlinux.Render.Json.Outputs.{newline}
use howlinux.Render.Json.Grammar.{
  Frame, in_array, in_object, at_value, at_first_item, at_name, at_colon, behind_value, in_string,
  move, on_move, reads, is_json_line,
}
use howlinux.Render.Json.Grammar.Parts.{Closes, number-read, value-number, string-read}

number_value :
    (stack : List Frame) (c : ℕ) (text rest : Bytes) (found : Option Part)
    → next start c ≡ found
    → on_part found (λ part. reads_number part text) ≡ true
    → Closes rest
    → reads at_value stack (c ∷ (text ++ rest)) ≡ reads behind_value stack rest
unfolding reads
number_value stack c text rest none same h k = absurd (ground (arith, h))
number_value stack c text rest (some part) same h k =
    rw (value-number stack c part same) (number-read stack part text rest h k)

text_value :
    (stack : List Frame) (text rest : Bytes)
    → is_number text ≡ true
    → Closes rest
    → reads at_value stack (text ++ rest) ≡ reads behind_value stack rest
unfolding is_number reads_number
text_value stack [] rest h k = absurd (ground (arith, h))
text_value stack (c ∷ text) rest h k = number_value stack c text rest (next start c) refl h k

string_text :
    (stack : List Frame) (is_name : Bool) (value rest : Bytes)
    → reads (in_string is_name plain) stack (escape_json value ++ b'"' ∷ rest)
      ≡ reads (if is_name then at_colon else behind_value) stack rest
unfolding read_json
string_text stack is_name value rest =
    string-read stack is_name plain (escape_json value) rest (escape_json-IsText value)

items-Closes : (items : Items) (rest : Bytes) → Closes (print_items false items (b']' ∷ rest))
unfolding print
items-Closes no_items rest = refl
items-Closes (item value items) rest = refl

members-Closes :
    (others : Members) (rest : Bytes) → Closes (print_members false others (b'}' ∷ rest))
unfolding print
members-Closes no_members rest = refl
members-Closes (member name value others) rest = refl

-- A number does not begin with the bracket of an empty array.
first_digit_lem : (c : ℕ) (part : Part) → next start c ≡ some part → c == b']' ≡ false
first_digit_lem c part h = ground (arith, h)

first_number :
    (stack : List Frame) (c : ℕ) (text : Bytes) (found : Option Part)
    → next start c ≡ found
    → on_part found (λ part. reads_number part text) ≡ true
    → move at_first_item stack c ≡ move at_value stack c
first_number stack c text none same h = absurd (ground (arith, h))
first_number stack c text (some part) same h = rw (first_digit_lem c part same) refl

first_item :
    (value : Json) (stack : List Frame) (rest : Bytes)
    → reads at_first_item stack (print value rest) ≡ reads at_value stack (print value rest)
unfolding reads print json_string is_number reads_number
first_item null stack rest = refl
first_item (boolean true) stack rest = refl
first_item (boolean false) stack rest = refl
first_item (number [] valid) stack rest = absurd (ground (arith, valid))
first_item (number (c ∷ text) valid) stack rest =
    ap (λ found. on_move found (λ place stack'. reads place stack' (text ++ rest)))
      (first_number stack c text (next start c) refl valid)
first_item (string value) stack rest = refl
first_item (array items) stack rest = refl
first_item (object others) stack rest = refl

member-read :
    (name : Bytes) (value : Json) (stack : List Frame) (behind : Bytes)
    → reads at_value (in_object ∷ stack) (print value behind)
      ≡ reads behind_value (in_object ∷ stack) behind
    → reads at_name (in_object ∷ stack) (json_string name (b':' ∷ print value behind))
      ≡ reads behind_value (in_object ∷ stack) behind
unfolding reads json_string
member-read name value stack behind h =
    string_text (in_object ∷ stack) true name (b':' ∷ print value behind) ∙ h

mutual
  unfolding reads print json_string

  value-read :
      (value : Json) (stack : List Frame) (rest : Bytes)
      → Closes rest
      → reads at_value stack (print value rest) ≡ reads behind_value stack rest
  value-read null stack rest h = refl
  value-read (boolean true) stack rest h = refl
  value-read (boolean false) stack rest h = refl
  value-read (number text valid) stack rest h = text_value stack text rest valid h
  value-read (string value) stack rest h = string_text stack false value rest
  value-read (array no_items) stack rest h = refl
  value-read (array (item value items)) stack rest h =
      let behind = print_items false items (b']' ∷ rest) in
      first_item value (in_array ∷ stack) behind
      ∙ value-read value (in_array ∷ stack) behind (items-Closes items rest)
      ∙ items-read items stack rest
  value-read (object no_members) stack rest h = refl
  value-read (object (member name value others)) stack rest h =
      let behind = print_members false others (b'}' ∷ rest) in
      member-read name value stack behind
        (value-read value (in_object ∷ stack) behind (members-Closes others rest))
      ∙ members-read others stack rest

  items-read :
      (items : Items) (stack : List Frame) (rest : Bytes)
      → reads behind_value (in_array ∷ stack) (print_items false items (b']' ∷ rest))
        ≡ reads behind_value stack rest
  items-read no_items stack rest = refl
  items-read (item value items) stack rest =
      value-read value (in_array ∷ stack) (print_items false items (b']' ∷ rest))
        (items-Closes items rest)
      ∙ items-read items stack rest

  members-read :
      (others : Members) (stack : List Frame) (rest : Bytes)
      → reads behind_value (in_object ∷ stack) (print_members false others (b'}' ∷ rest))
        ≡ reads behind_value stack rest
  members-read no_members stack rest = refl
  members-read (member name value others) stack rest =
      let behind = print_members false others (b'}' ∷ rest) in
      member-read name value stack behind
        (value-read value (in_object ∷ stack) behind (members-Closes others rest))
      ∙ members-read others stack rest

-- The text of a JSON value and a newline is a line that the reader takes.
pub print-is_json_line : (value : Json) → is_json_line (print value newline) ≡ true
unfolding is_json_line
print-is_json_line value = value-read value [] newline refl
