-- ===== src/Knowledge/Lint/Links.antt =====
-- `lintMarkdownLinks` and `pathEscapesRoot` of src/knowledge.cpp. A step returns the diagnostics that it
-- adds.
pub mod Silent
use howlinux.Base.{
  ℕ, zero, suc, ◌+◌, Bool, true, false, ◌&&◌, ◌||◌, List, [], ◌∷◌, ◌++◌, Option, none, some,
  if◌then◌else◌, Bytes, codes, beq, leb, ◌==◌, length, take, drop,
}
use howlinux.Base.Numbers.{to_string}
use howlinux.Diagnostics.{Diagnostic}
use howlinux.Yaml.{Answer, answer, failed}
use howlinux.Files.{FileSystem, join_path, parent_path}
use howlinux.Knowledge.Reader.{warn, is_space, front_is, back_is}
use howlinux.Markdown.Text.{drop_while, trim_end, starts_with, find}

-- `trimmed`
unfoldable pub trimmed : Bytes → Bytes
unfolding is_space
trimmed value = trim_end is_space (drop_while is_space value)

abbrev front_component_is : Bytes → List Bytes → Bool
front_component_is name [] = false
front_component_is name (component ∷ components) = beq component name

abbrev escapes_from : FileSystem → Answer Bytes → Answer Bytes → Bool
escapes_from files (failed message) root = false
escapes_from files (answer resolved) (failed message) = false
escapes_from files (answer resolved) (answer resolved_root) =
    front_component_is (codes "..") (files.lexically_relative resolved resolved_root)

-- `pathEscapesRoot`
unfoldable pub path_escapes_root : FileSystem → Bytes → Bytes → Bool
path_escapes_root files path root =
    escapes_from files (files.weakly_canonical path) (files.weakly_canonical root)

-- The text in front of the first of these bytes.
abbrev pub until : (ℕ → Bool) → Bytes → Bytes
until p [] = []
until p (c ∷ text) = if p c then [] else c ∷ until p text

abbrev without_last : Bytes → Bytes
without_last [] = []
without_last (c ∷ []) = []
without_last (c ∷ d ∷ text) = c ∷ without_last (d ∷ text)

-- `target`, out of the text between the parentheses.
unfoldable pub link_target : Bytes → Bytes
unfolding trimmed
link_target text =
    let target = trimmed text in
    if leb 2 (length target) && front_is b'<' target && back_is b'>' target
    then drop 1 (without_last target)
    else until (λ c. c == b' ' || c == 9) target

abbrev pub has_scheme : Option ℕ → Bool
has_scheme none = false
has_scheme (some index) = true

abbrev pub is_there : Answer Bool → Bool
is_there (failed message) = false
is_there (answer there) = there

module _ (files : FileSystem) (content_path root entry_id : Bytes) (line_number : ℕ) where
  abbrev on_line : Bytes → Bytes → Diagnostic
  on_line message behind =
      warn content_path entry_id
        (message ++ (codes " on line " ++ (to_string line_number ++ behind)))

  abbrev quoted : Bytes → Bytes
  quoted target = codes ": '" ++ (target ++ codes "'")

  -- A target that is a path, without its suffix.
  unfoldable pub check_path : Bytes → List Diagnostic
  unfolding path_escapes_root
  check_path [] = []
  check_path (c ∷ target) =
      let resolved = join_path (parent_path content_path) (c ∷ target) in
      if path_escapes_root files resolved root
      then on_line (codes "Markdown link escapes the knowledge root") (quoted (c ∷ target)) ∷ []
      else if is_there (files.exists resolved)
      then []
      else on_line (codes "Markdown link target does not exist") (quoted (c ∷ target)) ∷ []

  unfoldable pub check_target : Bytes → List Diagnostic
  unfolding check_path find
  check_target [] = on_line (codes "empty Markdown link target") [] ∷ []
  check_target (c ∷ target) =
      if c == b'#'
        || has_scheme (find (codes "://") (c ∷ target))
        || starts_with (codes "mailto:") (c ∷ target)
      then []
      else if c == b'/'
      then on_line (codes "absolute Markdown link target") (quoted (c ∷ target)) ∷ []
      else check_path (until (λ d. d == b'#' || d == b'?') (c ∷ target))

  -- A link, by the index of its closing parenthesis in the text behind its marker; `next n` is what is
  -- added for what follows the bracket, without its first `n` bytes.
  unfoldable pub check_link : Bytes → Option ℕ → (ℕ → List Diagnostic) → List Diagnostic
  unfolding check_target link_target
  check_link behind none next = on_line (codes "unterminated Markdown link") [] ∷ []
  check_link behind (some target_end) next =
      check_target (link_target (take target_end behind)) ++ next (target_end + 2)

  -- The loop, whose position is still to advance by so many bytes.
  unfoldable pub lint_from : ℕ → Bytes → List Diagnostic
  unfolding check_link find
  lint_from skipped [] = []
  lint_from (suc skipped) (c ∷ line) = lint_from skipped line
  lint_from zero (c ∷ line) =
      if starts_with (codes "](") (c ∷ line)
      then check_link (drop 1 line) (find (codes ")") (drop 1 line)) (λ n. lint_from n line)
      else lint_from 0 line

  -- `lintMarkdownLinks`
  unfoldable pub lint_markdown_links : Bytes → List Diagnostic
  unfolding lint_from
  lint_markdown_links line = lint_from 0 line
