-- ===== src/Markdown/Inline.antt =====
-- `inlineText` of src/markdown.cpp.
pub mod Shown
use howlinux.Base.{
  ℕ, zero, suc, ◌+◌, ◌-◌, Bool, false, ◌&&◌, ◌||◌, not, [], ◌∷◌, ◌++◌, ◌≡◌, refl, Option, none,
  some, map, if◌then◌else◌, Bytes, codes, beq, leb, ltb, ◌==◌, is_empty, any, take, drop,
}
use howlinux.Markdown.Text.{run_of, find, whitespace, is_alnum, byte_at, holds, literal, styled}

-- What one round of the loop takes from the text, and what it writes.
abbrev pub Token : Type 0
Token = ℕ × Bytes

-- The byte at the position as it is.
abbrev pub plain : Bytes → Token
plain text = (1, literal (take 1 text))

abbrev pub is_escapable : ℕ → Bool
is_escapable c = any (λ d. c == d) (b'\\' ∷ codes "`*_{}[]()#+-.!>")

abbrev pub suc_index : Option ℕ → Option ℕ
suc_index none = none
suc_index (some n) = some (suc n)

-- The index of the delimiter that ends a code span: so many backticks, with none beside them. The text
-- is behind `previous`; so many bytes of it are part of a delimiter that was passed over.
unfoldable pub code_end : ℕ → ℕ → ℕ → Bytes → Option ℕ
code_end count skipped previous [] = none
code_end count (suc skipped) previous (c ∷ text) = suc_index (code_end count skipped c text)
code_end count zero previous (c ∷ text) =
    let is_delimiter = leb count (run_of b'`' (c ∷ text)) in
    let is_beside = previous == b'`' || holds (λ d. d == b'`') (byte_at count (c ∷ text)) in
    let later = suc_index (code_end count (if is_delimiter then count - 1 else 0) c text) in
    if is_delimiter && not is_beside then some 0 else later

abbrev pub code_span : Bool → Bytes → ℕ → Option ℕ → Token
code_span color text count none = (count, literal (take count text))
code_span color text count (some end) = (
  count + end + count,
  styled color (codes "36") (map (λ c. if c == 10 then b' ' else c) (take end (drop count text))),
)

-- The index of the parenthesis that closes a link, at this depth.
unfoldable pub closing : ℕ → Bytes → Option ℕ
closing depth [] = none
closing depth (c ∷ text) =
    let depth' = if c == b'(' then depth + 1 else depth in
    let later = suc_index (closing (if c == b')' then depth' - 1 else depth') text) in
    if c == b')' && depth' == 1 then some 0 else later

-- A link with its label and its target.
abbrev pub link : Bool → Bytes → Bytes → Bytes
link color label url =
    styled color (codes "4") label
    ++ (if beq url label then [] else codes " (" ++ (literal url ++ codes ")"))

-- A link whose label ends at this index behind its bracket, by the end of its target.
abbrev pub link_token : Bool → Bytes → ℕ → Option ℕ → Option Token
link_token color text label_end none = none
link_token color text label_end (some end) = some (
  1 + label_end + 2 + end + 1,
  link color (take label_end (drop 1 text)) (take end (drop (1 + label_end + 2) text)),
)

unfoldable pub link_at : Bool → Bytes → Option ℕ → Option Token
unfolding closing find
link_at color text none = none
link_at color text (some label_end) =
    link_token color text label_end (closing 1 (drop (1 + label_end + 2) text))

-- Emphasis with a marker of so many bytes, by the index of the marker that ends it.
abbrev pub emphasis_token : Bool → Bytes → ℕ → Option ℕ → Option Token
emphasis_token color text count none = none
emphasis_token color text count (some end) =
    let body = take end (drop count text) in
    if ltb 0 end
      && not (holds whitespace (byte_at (count + end - 1) text))
      && not (holds is_alnum (byte_at (count + end + count) text))
    then some (count + end + count, styled color (if count == 2 then codes "1" else codes "3") body)
    else none

-- The byte in front of the text is no letter and no digit, or there is none.
abbrev pub is_boundary : Option ℕ → Bool
is_boundary previous = not (holds is_alnum previous)

abbrev pub marker_count : Bytes → ℕ
marker_count [] = 1
marker_count (c ∷ []) = 1
marker_count (c ∷ d ∷ text) = if d == c then 2 else 1

unfoldable pub emphasis_at : Bool → Option ℕ → Bytes → Option Token
unfolding find
emphasis_at color previous text =
    let count = marker_count text in
    let start = drop count text in
    if is_boundary previous && not (is_empty start) && not (holds whitespace (byte_at 0 start))
    then emphasis_token color text count (find (take count text) start)
    else none

abbrev pub or_token : Option Token → Token → Token
or_token none other = other
or_token (some token) other = token

-- One round of the loop, by the byte in front of the position.
unfoldable pub inline_token : Bool → Option ℕ → Bytes → Token
unfolding find code_end
inline_token color previous [] = (1, [])
inline_token color previous (c ∷ text) =
    if c == b'\\' && holds is_escapable (byte_at 0 text)
    then (2, literal (take 1 text))
    else if c == b'`'
    then (let count = run_of b'`' (c ∷ text) in
        code_span color (c ∷ text) count (code_end count 0 b'`' (drop count (c ∷ text))))
    else if c == b'['
    then or_token (link_at color (c ∷ text) (find (codes "](") text)) (plain (c ∷ text))
    else if c == b'*' || c == b'_'
    then or_token (emphasis_at color previous (c ∷ text)) (plain (c ∷ text))
    else plain (c ∷ text)

-- `inlineText`: the loop, whose position is still to advance by so many bytes, behind this byte.
unfoldable pub inline_from : Bool → ℕ → Option ℕ → Bytes → Bytes
inline_from color skipped previous [] = []
inline_from color (suc skipped) previous (c ∷ text) = inline_from color skipped (some c) text
inline_from color zero previous (c ∷ text) =
    let (taken, written) = inline_token color previous (c ∷ text) in
    written ++ inline_from color (taken - 1) (some c) text

unfoldable pub inline_text : Bool → Bytes → Bytes
unfolding inline_from inline_token link_at emphasis_at styled whitespace
inline_text color text = inline_from color 0 none text

examples :
    (inline_text false (codes "`b`") ≡ codes "b")
    × (inline_text false (codes "*e*") ≡ codes "e")
    × (inline_text false (codes "3*4*") ≡ codes "3*4*")
    × (inline_text false (codes "[c](d)") ≡ codes "c (d)")
    × (inline_text false (codes "[c](c)") ≡ codes "c")
unfolding inline_text beq
examples = (refl, refl, refl, refl, refl)
