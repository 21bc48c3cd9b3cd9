-- ===== src/Markdown/Blocks/Shown.antt =====
-- Without color, src/markdown.cpp writes no control byte but tabs and newlines.
use howlinux.Base.{
  ℕ, zero, suc, Bool, true, false, ◌&&◌, ◌||◌, not, List, [], ◌∷◌, ◌++◌, refl, Option,
  if◌then◌else◌, Bytes, codes, beq, Bool-cases, inl, inr, drop, ◌==◌, leb, any, length, is_empty,
}
use howlinux.Markdown.Text.{trim, run_of, starts_with, byte_at, holds}
use howlinux.Markdown.Inline.{inline_text}
use howlinux.Markdown.Blocks.{
  Block, no_block, Round, flush, flushed, fence_run, front, drop_spaces, spaces, fenced_line,
  heading_title, heading_line, underline, is_heading, text_line, line_round, line_rounds,
  strip_return, split_lines, render_markdown, indent_of, is_at_most, or_zero,
}
use howlinux.Markdown.Inline.Shown.{
  IsShown, AreShown, append-AreShown, styled-AreShown, inline_text-AreShown,
}

abbrev RoundShown : Round → Type 0
RoundShown (block, written) = AreShown written

if-RoundShown :
    (test : Bool) (a b : Round) → RoundShown a → RoundShown b → RoundShown (if test then a else b)
if-RoundShown true a b h k = h
if-RoundShown false a b h k = k

line-AreShown : (text : Bytes) → AreShown text → AreShown (text ++ 10 ∷ [])
line-AreShown text h = append-AreShown text (10 ∷ []) h (refl, tt)

flush-AreShown : (paragraph : Bytes) → AreShown (flush false paragraph)
unfolding flush
flush-AreShown [] = tt
flush-AreShown (c ∷ paragraph) = line-AreShown _ (inline_text-AreShown (c ∷ paragraph))

flushed-RoundShown :
    (block : Block) (written : Bytes) → AreShown written → RoundShown (flushed false block written)
flushed-RoundShown block written h =
    append-AreShown (flush false block.paragraph) written (flush-AreShown block.paragraph) h

underline-AreShown : (c n : ℕ) → IsShown c → AreShown (underline c n)
underline-AreShown c zero h = tt
underline-AreShown c (suc n) h = (h, underline-AreShown c n h)

spaces-AreShown : (n : ℕ) → AreShown (spaces n)
spaces-AreShown zero = tt
spaces-AreShown (suc n) = (refl, spaces-AreShown n)

heading_line-AreShown : (heading : ℕ) (body : Bytes) → AreShown (heading_line false heading body)
unfolding heading_line
heading_line-AreShown heading body =
    let title = heading_title (trim (drop heading body)) in
    append-AreShown (inline_text false title) _ (inline_text-AreShown title) (
      refl,
      line-AreShown _ (elim (Bool-cases (heading == 1)) [
        | inl e ↦ rw e (underline-AreShown b'=' (length title) refl)
        | inr e ↦ rw e (underline-AreShown b'-' (length title) refl)
      ]),
    )

text_line-RoundShown :
    (block : Block) (line body : Bytes) (indent : Option ℕ)
    → RoundShown (text_line false block line body indent)
unfolding text_line
text_line-RoundShown block line body indent =
    let inner = line-AreShown _ (inline_text-AreShown (drop 2 body)) in
    if-RoundShown (is_heading body) _ _
      (flushed-RoundShown block _ (heading_line-AreShown (run_of b'#' body) body))
      (if-RoundShown (starts_with (codes "> ") body || beq body (codes ">")) _ _
        (flushed-RoundShown block _ (refl, (refl, (refl, (refl, inner)))))
        (if-RoundShown
          (starts_with (codes "- ") body
            || starts_with (codes "* ") body
            || starts_with (codes "+ ") body)
          _ _
          (flushed-RoundShown block _ (
            append-AreShown (spaces (or_zero indent)) _ (spaces-AreShown (or_zero indent))
              (refl, (refl, (refl, (refl, inner))))))
          (if-RoundShown (is_empty body) _ _ (flushed-RoundShown block (10 ∷ []) (refl, tt)) tt)))

fenced_line-RoundShown :
    (block : Block) (line body : Bytes) (candidate : Bool)
    → RoundShown (fenced_line false block line body candidate)
unfolding fenced_line
fenced_line-RoundShown block line body candidate =
    if-RoundShown
      (candidate
        && front body == block.fence
        && leb block.fence_length (fence_run body)
        && is_empty (trim (drop (fence_run body) body)))
      _ _ tt
      (
        refl,
        (
          refl,
          (
            refl,
            (
              refl,
              line-AreShown _ (styled-AreShown (codes "36") (drop_spaces block.fence_indent line)),
            ),
          ),
        ),
      )

line_round-RoundShown : (block : Block) (line : Bytes) → RoundShown (line_round false block line)
unfolding line_round
line_round-RoundShown block line =
    let body = trim line in
    let indent = indent_of line in
    let run = fence_run body in
    let candidate = is_at_most 3 indent && leb 3 run in
    if-RoundShown (not (block.fence == 0)) _ _ (fenced_line-RoundShown block line body candidate) (
      if-RoundShown
        (candidate && (not (front body == b'`') || not (any (λ c. c == b'`') (drop run body)))) _ _
        (flush-AreShown block.paragraph)
        (if-RoundShown
          ((not (is_at_most 3 indent) || holds (λ c. c == 9) (byte_at 0 line))
            && not (is_empty body))
          _ _ (flushed-RoundShown block _ (line-AreShown _ (styled-AreShown (codes "36") line)))
          (text_line-RoundShown block line body indent)))

line_rounds-AreShown :
    (block : Block) (lines : List Bytes) → AreShown (line_rounds false block lines)
unfolding line_rounds
line_rounds-AreShown block [] = flush-AreShown block.paragraph
line_rounds-AreShown block (line ∷ lines) =
    let (next, written) = line_round false block (strip_return line) in
    append-AreShown written _ (line_round-RoundShown block (strip_return line))
      (line_rounds-AreShown next lines)

-- Without color, whatever the text holds, `renderMarkdown` writes no control byte but tabs and newlines:
-- an escape sequence in the text does not reach the terminal.
pub render_markdown-AreShown : (markdown : Bytes) → AreShown (render_markdown false markdown)
unfolding render_markdown
render_markdown-AreShown markdown = line_rounds-AreShown no_block (split_lines markdown)
