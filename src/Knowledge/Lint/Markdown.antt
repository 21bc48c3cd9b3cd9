-- ===== src/Knowledge/Lint/Markdown.antt =====
-- `lintMarkdown` of src/knowledge.cpp.
pub mod Pages
use howlinux.Base.{
  ℕ, zero, suc, ◌+◌, Bool, true, false, ◌&&◌, ◌||◌, not, List, [], ◌∷◌, ◌++◌, Option, none, some,
  if◌then◌else◌, Bytes, codes, leb, ◌==◌, is_empty, drop,
}
use howlinux.Base.Numbers.{to_string}
use howlinux.Diagnostics.{Diagnostic}
use howlinux.Files.{FileSystem}
use howlinux.Knowledge.{KnowledgeEntry}
use howlinux.Knowledge.Reader.{warn}
use howlinux.Knowledge.Metadata.{content_path}
use howlinux.Knowledge.Lint.Links.{trimmed, lint_markdown_links}
use howlinux.Markdown.Text.{run_of}
use howlinux.Markdown.Blocks.{split_lines, strip_return}

-- `OpenFence`
pub record OpenFence : Type 0 where
  pub marker : ℕ
  pub length : ℕ
  pub line : ℕ

-- The line without at most four spaces in front, and how many they are.
abbrev pub offset_of : ℕ → Bytes → ℕ
offset_of zero line = 0
offset_of (suc left) [] = 0
offset_of (suc left) (c ∷ line) =
    let rest = suc (offset_of left line) in if c == b' ' then rest else 0

-- A line that starts with so many of a marker, with what follows: the fence that is open behind it, and
-- whether it is a fence's line.
unfoldable pub fence_round : ℕ → ℕ → Bytes → ℕ → Option OpenFence → Option OpenFence × Bool
unfolding trimmed
fence_round marker length' rest line_number none =
    (some (record { marker = marker; length = length'; line = line_number }), true)
fence_round marker length' rest line_number (some opened) =
    if opened.marker == marker && leb opened.length length' && is_empty (trimmed rest)
    then (none, true)
    else (some opened, false)

-- A line without its indentation.
unfoldable pub fence_at : ℕ → Bytes → Option OpenFence → Option OpenFence × Bool
unfolding fence_round
fence_at line_number [] opened = (opened, false)
fence_at line_number (c ∷ text) opened =
    let length' = run_of c (c ∷ text) in
    if (c == b'`' || c == b'~') && leb 3 length'
    then fence_round c length' (drop length' (c ∷ text)) line_number opened
    else (opened, false)

unfoldable pub fence_step : ℕ → Bytes → Option OpenFence → Option OpenFence × Bool
unfolding fence_at
fence_step line_number line opened =
    let offset = offset_of 4 line in
    if leb offset 3 then fence_at line_number (drop offset line) opened else (opened, false)

abbrev pub is_open : Option OpenFence → Bool
is_open none = false
is_open (some opened) = true

abbrev pub unclosed : Bytes → Bytes → Option OpenFence → List Diagnostic
unclosed path entry_id none = []
unclosed path entry_id (some opened) =
    warn path entry_id
      (codes "unclosed Markdown code fence opened on line " ++ to_string opened.line)
    ∷ []

-- The loop over the lines behind the first `line_number`.
unfoldable pub lint_lines :
    FileSystem → Bytes → KnowledgeEntry → ℕ → Option OpenFence → List Bytes → List Diagnostic
unfolding fence_step strip_return lint_markdown_links
lint_lines files root entry line_number opened [] =
    unclosed (content_path entry.source_directory) entry.id opened
lint_lines files root entry line_number opened (raw ∷ lines) =
    let line = strip_return raw in
    let number = line_number + 1 in
    let (next, is_fence) = fence_step number line opened in
    (if not (is_open next) && not is_fence
      then lint_markdown_links files (content_path entry.source_directory) root entry.id number line
      else [])
    ++ lint_lines files root entry number next lines

-- `lintMarkdown`
unfoldable pub lint_markdown : FileSystem → Bytes → KnowledgeEntry → List Diagnostic
unfolding lint_lines split_lines
lint_markdown files root entry = lint_lines files root entry 0 none (split_lines entry.content)
