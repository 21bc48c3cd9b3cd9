-- ===== src/Knowledge/Lint/Markdown/Pages.antt =====
-- The text of an entry for which `lintMarkdown` of src/knowledge.cpp reports nothing.
use howlinux.Base.{
  ℕ, ◌+◌, Bool, true, false, ◌&&◌, ◌||◌, List, [], ◌∷◌, ◌++◌, ◌≡◌, refl, subst, arith, Option, none,
  some, if◌then◌else◌, Bytes, leb, ◌==◌, is_empty, drop, map, not, Bool-cases, inl, inr,
}
use howlinux.Diagnostics.{Diagnostic}
use howlinux.Files.{FileSystem}
use howlinux.Knowledge.{KnowledgeEntry}
use howlinux.Knowledge.Metadata.{content_path}
use howlinux.Knowledge.Reported.{split-append}
use howlinux.Knowledge.Lint.Links.{trimmed, lint_markdown_links}
use howlinux.Knowledge.Lint.Links.Silent.{HasGoodLinks, lint_markdown_links-HasGoodLinks}
use howlinux.Knowledge.Lint.Markdown.{
  OpenFence, offset_of, fence_round, fence_at, fence_step, is_open, lint_lines, lint_markdown,
}
use howlinux.Markdown.Text.{run_of}
use howlinux.Markdown.Blocks.{split_lines, strip_return}

-- A row of a marker, and what follows it.
pub record Fence : Type 0 where
  pub marker : ℕ
  pub count : ℕ
  pub behind : Bytes

abbrev fence_in : Bytes → Option Fence
fence_in [] = none
fence_in (c ∷ text) =
    let count = run_of c (c ∷ text) in
    if (c == b'`' || c == b'~') && leb 3 count
    then some (record { marker = c; count = count; behind = drop count (c ∷ text) })
    else none

-- Three backticks or tildes, or more, behind at most three spaces.
abbrev pub fence_of : Bytes → Option Fence
fence_of line =
    let offset = offset_of 4 line in if leb offset 3 then fence_in (drop offset line) else none

-- A fence closes one with the same marker that is no longer, where only white space follows it.
abbrev pub closes : Option Fence → Fence → Bool
closes none opened = false
closes (some fence) opened =
    opened.marker == fence.marker && leb opened.count fence.count && is_empty (trimmed fence.behind)

module _ (files : FileSystem) (path root : Bytes) where
  -- The lines behind an open fence, or outside: every fence is closed, and outside of fences all links
  -- have a good target.
  pub data IsPage : Option Fence → List Bytes → Type 0 where
    over : IsPage none []
    text :
        (line : Bytes) (lines : List Bytes)
        → fence_of line ≡ none
        → HasGoodLinks files path root line
        → IsPage none lines
        → IsPage none (line ∷ lines)
    fence_start :
        (fence : Fence) (line : Bytes) (lines : List Bytes)
        → fence_of line ≡ some fence
        → IsPage (some fence) lines
        → IsPage none (line ∷ lines)
    fenced :
        (fence : Fence) (line : Bytes) (lines : List Bytes)
        → closes (fence_of line) fence ≡ false
        → IsPage (some fence) lines
        → IsPage (some fence) (line ∷ lines)
    fence_end :
        (fence : Fence) (line : Bytes) (lines : List Bytes)
        → closes (fence_of line) fence ≡ true
        → IsPage none lines
        → IsPage (some fence) (line ∷ lines)

-- An open fence and what is kept of it.
abbrev kept : ℕ → Fence → OpenFence
kept number fence = record { marker = fence.marker; length = fence.count; line = number }

-- The step on a line, by the fence that it is.
abbrev stepped : ℕ → Option Fence → Option OpenFence × Bool
stepped number none = (none, false)
stepped number (some fence) = (some (kept number fence), true)

abbrev stepped_inside : Bool → OpenFence → Option OpenFence × Bool
stepped_inside is_closed opened = if is_closed then (none, true) else (some opened, false)

module _ (number : ℕ) where
  fence_at-outside : (line : Bytes) → fence_at number line none ≡ stepped number (fence_in line)
  unfolding fence_at fence_round
  fence_at-outside [] = refl
  fence_at-outside (c ∷ line) =
      elim (Bool-cases ((c == b'`' || c == b'~') && leb 3 (run_of c (c ∷ line)))) [
        | inl e ↦ rw e refl
        | inr e ↦ rw e refl
      ]

  fence_step-outside : (line : Bytes) → fence_step number line none ≡ stepped number (fence_of line)
  unfolding fence_step
  fence_step-outside line = elim (Bool-cases (leb (offset_of 4 line) 3)) [
    | inl e ↦ rw e (fence_at-outside (drop (offset_of 4 line) line))
    | inr e ↦ rw e refl
  ]

  module _ (before : ℕ) (fence : Fence) where
    fence_at-inside :
        (line : Bytes)
        → fence_at number line (some (kept before fence))
          ≡ stepped_inside (closes (fence_in line) fence) (kept before fence)
    unfolding fence_at fence_round
    fence_at-inside [] = refl
    fence_at-inside (c ∷ line) =
        elim (Bool-cases ((c == b'`' || c == b'~') && leb 3 (run_of c (c ∷ line)))) [
          | inl e ↦ rw e refl
          | inr e ↦ rw e refl
        ]

    fence_step-inside :
        (line : Bytes)
        → fence_step number line (some (kept before fence))
          ≡ stepped_inside (closes (fence_of line) fence) (kept before fence)
    unfolding fence_step
    fence_step-inside line = elim (Bool-cases (leb (offset_of 4 line) 3)) [
      | inl e ↦ rw e (fence_at-inside (drop (offset_of 4 line) line))
      | inr e ↦ rw e refl
    ]

-- An open fence, and the line that opened it.
abbrev Opened : Type 0
Opened = Option (ℕ × Fence)

abbrev held : Opened → Option OpenFence
held none = none
held (some (number, fence)) = some (kept number fence)

abbrev fence_held : Opened → Option Fence
fence_held none = none
fence_held (some (number, fence)) = some fence

module _ (files : FileSystem) (root : Bytes) (entry : KnowledgeEntry) where
  abbrev path : Bytes
  path = content_path entry.source_directory

  -- What is reported on a line and behind it, by the step on the line.
  abbrev reported : ℕ → Bytes → List Bytes → Option OpenFence × Bool → List Diagnostic
  reported number line lines (next, is_fence) =
      (if not (is_open next) && not is_fence
        then lint_markdown_links files path root entry.id number line
        else [])
      ++ lint_lines files root entry number next lines

  -- The lines behind are a page where nothing is reported on them.
  abbrev ArePages : ℕ → List Bytes → Type 0
  ArePages number lines =
      (opened : Opened)
      → is_empty (lint_lines files root entry number (held opened) lines) ≡ true
      → IsPage files path root (fence_held opened) (map strip_return lines)

  outside-IsPage :
      (number : ℕ) (line : Bytes) (lines : List Bytes) (found : Option Fence)
      → fence_of line ≡ found
      → is_empty (reported number line lines (stepped number found)) ≡ true
      → ArePages number lines
      → IsPage files path root none (line ∷ map strip_return lines)
  outside-IsPage number line lines none same h k =
      let (links, rest) =
        split-append (lint_markdown_links files path root entry.id number line)
          (lint_lines files root entry number none lines) h in
      text line (map strip_return lines) same
        (lint_markdown_links-HasGoodLinks files path root entry.id number line links) (k none rest)
  outside-IsPage number line lines (some fence) same h k =
      fence_start fence line (map strip_return lines) same (k (some (number, fence)) h)

  inside-IsPage :
      (number before : ℕ) (fence : Fence) (line : Bytes) (lines : List Bytes) (is_closed : Bool)
      → closes (fence_of line) fence ≡ is_closed
      → is_empty (reported number line lines (stepped_inside is_closed (kept before fence))) ≡ true
      → ArePages number lines
      → IsPage files path root (some fence) (line ∷ map strip_return lines)
  inside-IsPage number before fence line lines false same h k =
      fenced fence line (map strip_return lines) same (k (some (before, fence)) h)
  inside-IsPage number before fence line lines true same h k =
      fence_end fence line (map strip_return lines) same (k none h)

  lint_lines-IsPage : (number : ℕ) (lines : List Bytes) → ArePages number lines
  unfolding lint_lines
  lint_lines-IsPage number [] none h = over
  lint_lines-IsPage number [] (some opened) h = absurd (ground (arith, h))
  lint_lines-IsPage number (raw ∷ lines) none h =
      let line = strip_return raw in
      outside-IsPage (number + 1) line lines (fence_of line) refl
        (subst (λ step. is_empty (reported (number + 1) line lines step) ≡ true)
          (fence_step-outside (number + 1) line) h)
        (lint_lines-IsPage (number + 1) lines)
  lint_lines-IsPage number (raw ∷ lines) (some (before, fence)) h =
      let line = strip_return raw in
      inside-IsPage (number + 1) before fence line lines (closes (fence_of line) fence) refl
        (subst (λ step. is_empty (reported (number + 1) line lines step) ≡ true)
          (fence_step-inside (number + 1) before fence line) h)
        (lint_lines-IsPage (number + 1) lines)

  -- Where nothing is reported on an entry, its lines are a page.
  pub lint_markdown-IsPage :
      is_empty (lint_markdown files root entry) ≡ true
      → IsPage files path root none (map strip_return (split_lines entry.content))
  unfolding lint_markdown
  lint_markdown-IsPage h = lint_lines-IsPage 0 (split_lines entry.content) none h
