-- ===== src/Markdown/Blocks.antt =====
-- `renderMarkdown` of src/markdown.cpp.
pub mod Shown
use howlinux.Base.{
  ℕ, zero, suc, ◌+◌, ◌-◌, Bool, true, false, ◌&&◌, ◌||◌, not, List, [], ◌∷◌, ◌++◌, ◌≡◌, refl,
  Option, none, some, if◌then◌else◌, Bytes, codes, beq, leb, ltb, ◌==◌, is_empty, any, take, drop,
  length,
}
use howlinux.Markdown.Text.{
  drop_while, trim_end, trim, run_of, starts_with, whitespace, byte_at, holds, style, in_style,
  styled,
}
use howlinux.Markdown.Inline.{suc_index, inline_text}

-- The lines; what follows the last newline is a line where it is not empty.
abbrev extend_line : ℕ → List Bytes → List Bytes
extend_line c [] = (c ∷ []) ∷ []
extend_line c (line ∷ lines) = (c ∷ line) ∷ lines

unfoldable pub split_lines : Bytes → List Bytes
split_lines [] = []
split_lines (c ∷ text) =
    let rest = split_lines text in if c == 10 then [] ∷ rest else extend_line c rest

-- The line without one carriage return at its end.
unfoldable pub strip_return : Bytes → Bytes
strip_return [] = []
strip_return (c ∷ []) = if c == 13 then [] else c ∷ []
strip_return (c ∷ d ∷ line) = c ∷ strip_return (d ∷ line)

-- `find_first_not_of(' ')`
abbrev pub indent_of : Bytes → Option ℕ
indent_of [] = none
indent_of (c ∷ line) = let rest = suc_index (indent_of line) in if c == b' ' then rest else some 0

-- `npos` is greater than every number.
abbrev pub is_at_most : ℕ → Option ℕ → Bool
is_at_most n none = false
is_at_most n (some m) = leb m n

abbrev pub or_zero : Option ℕ → ℕ
or_zero none = 0
or_zero (some n) = n

-- The variables of the loop; no fence is 0.
pub record Block : Type 0 where
  pub fence : ℕ
  pub fence_length : ℕ
  pub fence_indent : ℕ
  pub paragraph : Bytes

abbrev pub no_block : Block
no_block = record { fence = 0; fence_length = 0; fence_indent = 0; paragraph = [] }

-- What a round leaves, and what it writes.
abbrev pub Round : Type 0
Round = Block × Bytes

-- `flushParagraph`
unfoldable pub flush : Bool → Bytes → Bytes
unfolding inline_text
flush color [] = []
flush color (c ∷ paragraph) = inline_text color (c ∷ paragraph) ++ 10 ∷ []

-- A round that flushes the paragraph and writes this.
abbrev pub flushed : Bool → Block → Bytes → Round
flushed color block written =
    (record block { paragraph = [] }, flush color block.paragraph ++ written)

abbrev pub fence_run : Bytes → ℕ
fence_run [] = 0
fence_run (c ∷ body) = if c == b'`' || c == b'~' then run_of c (c ∷ body) else 0

abbrev pub front : Bytes → ℕ
front [] = 0
front (c ∷ body) = c

-- At most so many spaces are taken away.
abbrev pub drop_spaces : ℕ → Bytes → Bytes
drop_spaces zero line = line
drop_spaces (suc n) [] = []
drop_spaces (suc n) (c ∷ line) = if c == b' ' then drop_spaces n line else c ∷ line

abbrev pub spaces : ℕ → Bytes
spaces zero = []
spaces (suc n) = b' ' ∷ spaces n

-- A line inside a fence.
unfoldable pub fenced_line : Bool → Block → Bytes → Bytes → Bool → Round
unfolding styled trim
fenced_line color block line body fence_candidate =
    if fence_candidate
      && front body == block.fence
      && leb block.fence_length (fence_run body)
      && is_empty (trim (drop (fence_run body) body))
    then (record block { fence = 0 }, [])
    else (
      block,
      codes "    " ++ (styled color (codes "36") (drop_spaces block.fence_indent line) ++ 10 ∷ []),
    )

-- The last byte and the text in front of it.
abbrev pub without_last : Bytes → Bytes
without_last [] = []
without_last (c ∷ []) = []
without_last (c ∷ d ∷ text) = c ∷ without_last (d ∷ text)

abbrev pub last_byte : Bytes → Option ℕ
last_byte [] = none
last_byte (c ∷ []) = some c
last_byte (c ∷ d ∷ text) = last_byte (d ∷ text)

-- A title without the number signs that close it.
unfoldable pub heading_title : Bytes → Bytes
unfolding trim whitespace
heading_title title =
    let kept = trim_end (λ c. c == b'#') title in
    if not (is_empty kept) && ltb (length kept) (length title) && holds whitespace (last_byte kept)
    then trim (without_last kept)
    else title

abbrev pub underline : ℕ → ℕ → Bytes
underline c zero = []
underline c (suc n) = c ∷ underline c n

-- A heading of this level.
unfoldable pub heading_line : Bool → ℕ → Bytes → Bytes
unfolding heading_title inline_text trim
heading_line color heading body =
    let title = heading_title (trim (drop heading body)) in
    in_style color (codes "1;36") (inline_text false title)
    ++ (10
        ∷ (if color
            then []
            else underline (if heading == 1 then b'=' else b'-') (length title) ++ 10 ∷ []))

abbrev pub is_heading : Bytes → Bool
is_heading body =
    let heading = run_of b'#' body in
    leb 1 heading
    && leb heading 6
    && (heading == length body || holds whitespace (byte_at heading body))

abbrev pub add_line : Bytes → Bytes → Bytes
add_line [] line = line
add_line (c ∷ paragraph) line = (c ∷ paragraph) ++ 10 ∷ line

-- A line outside a fence that neither opens one nor is code.
unfoldable pub text_line : Bool → Block → Bytes → Bytes → Option ℕ → Round
unfolding inline_text heading_line flush
text_line color block line body indent =
    if is_heading body
    then flushed color block (heading_line color (run_of b'#' body) body)
    else if starts_with (codes "> ") body || beq body (codes ">")
    then flushed color block (codes "  | " ++ (inline_text color (drop 2 body) ++ 10 ∷ []))
    else if starts_with (codes "- ") body
        || starts_with (codes "* ") body
        || starts_with (codes "+ ") body
    then flushed color block
        (spaces (or_zero indent) ++ (codes "  - " ++ (inline_text color (drop 2 body) ++ 10 ∷ [])))
    else if is_empty body
    then flushed color block (10 ∷ [])
    else (record block { paragraph = add_line block.paragraph line }, [])

-- A round of the loop.
unfoldable pub line_round : Bool → Block → Bytes → Round
unfolding trim fenced_line text_line styled flush
line_round color block line =
    let body = trim line in
    let indent = indent_of line in
    let run = fence_run body in
    let fence_candidate = is_at_most 3 indent && leb 3 run in
    if not (block.fence == 0)
    then fenced_line color block line body fence_candidate
    else if fence_candidate
        && (not (front body == b'`') || not (any (λ c. c == b'`') (drop run body)))
    then (
      record {
        fence = front body;
        fence_length = run;
        fence_indent = or_zero indent;
        paragraph = [];
      },
      flush color block.paragraph,
    )
    else if (not (is_at_most 3 indent) || holds (λ c. c == 9) (byte_at 0 line))
        && not (is_empty body)
    then flushed color block (styled color (codes "36") line ++ 10 ∷ [])
    else text_line color block line body indent

-- The loop over the lines.
unfoldable pub line_rounds : Bool → Block → List Bytes → Bytes
unfolding strip_return
line_rounds color block [] = flush color block.paragraph
line_rounds color block (line ∷ lines) =
    let (next, written) = line_round color block (strip_return line) in
    written ++ line_rounds color next lines

-- `renderMarkdown`
unfoldable pub render_markdown : Bool → Bytes → Bytes
unfolding line_rounds line_round flush split_lines
render_markdown color markdown = line_rounds color no_block (split_lines markdown)

examples :
    (split_lines (97 ∷ 10 ∷ 10 ∷ 98 ∷ []) ≡ (97 ∷ []) ∷ [] ∷ (98 ∷ []) ∷ [])
    × (render_markdown false (codes "# a #") ≡ codes "a" ++ 10 ∷ codes "=" ++ 10 ∷ [])
    × (render_markdown false (codes "- a") ≡ codes "  - a" ++ 10 ∷ [])
    × (render_markdown false (codes "~~~" ++ 10 ∷ codes "*" ++ 10 ∷ codes "~~~")
        ≡ codes "    *" ++ 10 ∷ [])
unfolding render_markdown beq
examples = (refl, refl, refl, refl)
