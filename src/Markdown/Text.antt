-- ===== src/Markdown/Text.antt =====
-- The helpers of src/markdown.cpp, and what it uses of `std::string_view`.
use howlinux.Base.{
  ℕ, zero, suc, ◌/◌, ◌%◌, Bool, true, false, ◌&&◌, ◌||◌, not, [], ◌∷◌, ◌++◌, Option, none, some,
  if◌then◌else◌, Bytes, codes, beq, leb, ltb, ◌==◌, is_empty,
}
use howlinux.Knowledge.Reader.{is_space}
use howlinux.Render.Escape.{hex_digit}

-- `find_first_not_of`, as what is left
abbrev pub drop_while : (ℕ → Bool) → Bytes → Bytes
drop_while p [] = []
drop_while p (c ∷ text) = if p c then drop_while p text else c ∷ text

-- The text without the bytes at its end of which this holds.
abbrev pub trim_end : (ℕ → Bool) → Bytes → Bytes
trim_end p [] = []
trim_end p (c ∷ text) = let rest = trim_end p text in if is_empty rest && p c then [] else c ∷ rest

abbrev is_blank : ℕ → Bool
is_blank c = c == b' ' || c == 9 || c == 13

-- `trim`
unfoldable pub trim : Bytes → Bytes
trim text = trim_end is_blank (drop_while is_blank text)

-- How many bytes at the front are this one.
abbrev pub run_of : ℕ → Bytes → ℕ
run_of c [] = 0
run_of c (d ∷ text) = let rest = suc (run_of c text) in if c == d then rest else 0

abbrev pub starts_with : Bytes → Bytes → Bool
starts_with [] text = true
starts_with (c ∷ prefix) [] = false
starts_with (c ∷ prefix) (d ∷ text) = c == d && starts_with prefix text

abbrev pub next_index : Option ℕ → Option ℕ
next_index none = none
next_index (some n) = some (suc n)

-- `find`
unfoldable pub find : Bytes → Bytes → Option ℕ
find needle [] = if is_empty needle then some 0 else none
find needle (c ∷ text) =
    let rest = next_index (find needle text) in
    if starts_with needle (c ∷ text) then some 0 else rest

-- `whitespace`, by `std::isspace` in the C locale
unfoldable pub whitespace : ℕ → Bool
unfolding is_space
whitespace c = is_space c

-- `std::isalnum` in the C locale
abbrev pub is_alnum : ℕ → Bool
is_alnum c = leb b'0' c && leb c b'9' || leb b'A' c && leb c b'Z' || leb b'a' c && leb c b'z'

-- The byte at an index, where there is one.
abbrev pub byte_at : ℕ → Bytes → Option ℕ
byte_at n [] = none
byte_at zero (c ∷ text) = some c
byte_at (suc n) (c ∷ text) = byte_at n text

-- Whether a byte is there and this holds of it.
abbrev pub holds : (ℕ → Bool) → Option ℕ → Bool
holds p none = false
holds p (some c) = p c

-- A control byte that is no tab and no newline.
abbrev pub is_hidden : ℕ → Bool
is_hidden c = ltb c 32 && not (c == 9) && not (c == 10) || c == 127

-- `literal`
unfoldable pub literal : Bytes → Bytes
unfolding hex_digit
literal [] = []
literal (c ∷ text) =
    (if is_hidden c
      then b'\\' ∷ b'x' ∷ hex_digit ((c / 16) % 16) ∷ hex_digit (c % 16) ∷ []
      else c ∷ [])
    ++ literal text

abbrev is_set : Option Bytes → Bool
is_set none = false
is_set (some value) = not (is_empty value)

-- `terminalColorEnabled`, by the variables `NO_COLOR` and `TERM`, and whether the output is `std::cout`
-- and a terminal.
unfoldable pub terminal_color_enabled : Option Bytes → Option Bytes → Bool → Bool
terminal_color_enabled no_color none is_terminal = false
terminal_color_enabled no_color (some term) is_terminal =
    if is_set no_color || is_empty term || beq term (codes "dumb") then false else is_terminal

-- The escape sequence of a terminal style.
abbrev pub style : Bytes → Bytes
style name = 27 ∷ b'[' ∷ name ++ b'm' ∷ []

-- A text between the style and its reset.
abbrev pub in_style : Bool → Bytes → Bytes → Bytes
in_style color name text = if color then style name ++ (text ++ style (codes "0")) else text

-- `styled`
unfoldable pub styled : Bool → Bytes → Bytes → Bytes
unfolding literal
styled color name text = in_style color name (literal text)
