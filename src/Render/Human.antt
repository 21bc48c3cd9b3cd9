-- ===== src/Render/Human.antt =====
-- The human output of src/render.cpp.
pub mod Safe
pub mod Shown
pub mod Reports
pub mod Results
use howlinux.Base.{
  ℕ, zero, suc, ◌+◌, Bool, true, false, ◌&&◌, ◌||◌, not, List, [], ◌∷◌, ◌++◌, Option, none, some,
  if◌then◌else◌, Bytes, codes, beq, length, is_empty, ◌==◌, take, drop,
}
use howlinux.Diagnostics.{Diagnostic}
use howlinux.Concepts.Dictionary.{ConceptLoadReport}
use howlinux.Query.Processor.{query_type_name}
use howlinux.Knowledge.{KnowledgeEntry}
use howlinux.Knowledge.Reader.{back_is}
use howlinux.Knowledge.Load.{KnowledgeLoadReport, KnowledgeBase}
use howlinux.Knowledge.Lint.{KnowledgeLintReport}
use howlinux.Search.Doubles.{Doubles}
use howlinux.Search.Score.{ScoreBreakdown, SearchResult}
use howlinux.Render.Total.{breakdown_total}
use howlinux.Search.Engine.{SearchResponse}
use howlinux.Markdown.Text.{starts_with, find, style}
use howlinux.Markdown.Blocks.{strip_return, render_markdown}
use howlinux.Render.Write.{
  Writer, ◌<<◌, put, put_byte, nothing, put_each, put_indexed, put_safe, put_number, joined_human,
  put_related, sorted_entries, severity_name, validation_status, limited_results,
}
use howlinux.Render.Json.{Printing}

-- `'\n'`
abbrev pub newline : Writer
newline = put_byte 10

abbrev pub when : Bool → Writer → Writer
when test written = if test then written else nothing

abbrev pub yes_no : Bool → Writer
yes_no value = put (if value then codes "yes" else codes "no")

-- `writeHumanDiagnostic`
unfoldable pub human_diagnostic : Bytes → Diagnostic → Writer
human_diagnostic scope diagnostic =
    put (codes "  [")
    << put (severity_name diagnostic.severity)
    << put (codes "] ")
    << put scope
    << when (not (is_empty diagnostic.path)) (put (codes " ") << put_safe diagnostic.path)
    << when (not (is_empty diagnostic.entry_id))
        (put (codes " (ID: ") << put_safe diagnostic.entry_id << put (codes ")"))
    << put (codes ": ")
    << put_safe diagnostic.message
    << newline

-- The text in front of the first newline, and that behind it.
abbrev pub first_line : Bytes → Option ℕ → Bytes
first_line content none = content
first_line content (some index) = take index content

abbrev pub behind_line : Bytes → Option ℕ → Bytes
behind_line content none = []
behind_line content (some index) = drop (index + 1) content

abbrev pub skip_blank_line : Bytes → Bytes
skip_blank_line content =
    if starts_with (13 ∷ 10 ∷ []) content
    then drop 2 content
    else if starts_with (10 ∷ []) content
    then drop 1 content
    else content

-- The content without a heading that repeats the title.
unfoldable pub without_title : Bytes → Bytes → Bytes
unfolding strip_return find
without_title title content =
    let newline_at = find (10 ∷ []) content in
    if beq (strip_return (first_line content newline_at)) (codes "# " ++ title)
    then skip_blank_line (behind_line content newline_at)
    else content

-- `Renderer::entry`; the first argument is what `terminalColorEnabled` answers for the stream.
unfoldable pub human_entry : Bool → KnowledgeEntry → KnowledgeBase → Bool → Writer
unfolding without_title render_markdown put_related
human_entry terminal_color value knowledge raw =
    let color = not raw && terminal_color in
    when color (put (style (codes "1;36")))
    << put_safe value.title
    << newline
    << when color (put (style (codes "0")))
    << put (codes "ID: ")
    << put_safe value.id
    << newline
    << newline
    << (if raw
        then put value.content
        else put (render_markdown color (without_title value.title value.content)))
    << when (is_empty value.content || raw && not (back_is 10 value.content)) newline
    << when (not (is_empty value.related)) (
        newline
        << put (codes "Related:")
        << newline
        << put_each (λ id. put (codes "  - ") << put_related knowledge id << newline) value.related)

-- `Renderer::noMatch`
unfoldable pub no_match_text : Bytes → Writer
no_match_text query =
    put (codes "No local knowledge match found for: ")
    << put_safe query
    << newline
    << put (codes "Example: howlinux \"rename a folder\"")
    << newline

abbrev pub list_line : KnowledgeEntry → Writer
list_line entry =
    put (codes "  - ")
    << put_safe entry.title
    << put (codes " (ID: ")
    << put_safe entry.id
    << put (codes ")")
    << when (not (is_empty entry.category))
        (put (codes " [") << put_safe entry.category << put (codes "]"))
    << newline

-- `Renderer::list`
unfoldable pub list_text : KnowledgeBase → Writer
unfolding sorted_entries
list_text knowledge =
    let entries = sorted_entries knowledge in
    put (codes "Knowledge entries: ")
    << put_number (length entries)
    << newline
    << (if is_empty entries
        then put (codes "No knowledge entries are loaded.") << newline
        else put_each list_line entries)

abbrev pub count_line : Bytes → ℕ → Writer
count_line label n = put label << put_number n << newline

abbrev pub flag_line : Bytes → Bool → Writer
flag_line label value = put label << yes_no value << newline

-- `Renderer::validation`
unfoldable pub validation_text :
    KnowledgeLoadReport → ConceptLoadReport → KnowledgeLintReport → Writer
unfolding validation_status human_diagnostic
validation_text knowledge_report concept_report lint_report =
    put (codes "Validation status: ")
    << put (validation_status knowledge_report concept_report lint_report)
    << newline
    << put (codes "Knowledge:")
    << newline
    << flag_line (codes "  Root available: ") knowledge_report.root_available
    << count_line (codes "  Discovered entries: ") knowledge_report.discovered_entries
    << count_line (codes "  Loaded entries: ") knowledge_report.loaded_entries
    << count_line (codes "  Skipped entries: ") knowledge_report.skipped_entries
    << put (codes "Concepts:")
    << newline
    << flag_line (codes "  File present: ") concept_report.file_present
    << flag_line (codes "  Usable: ") concept_report.usable
    << count_line (codes "  Loaded concepts: ") concept_report.concepts_loaded
    << put (codes "Lint:")
    << newline
    << flag_line (codes "  Performed: ") lint_report.performed
    << count_line (codes "  Entries checked: ") lint_report.entries_checked
    << count_line (codes "  Aliases checked: ") lint_report.aliases_checked
    << count_line (codes "  Keywords checked: ") lint_report.keywords_checked
    << count_line (codes "  Concepts checked: ") lint_report.concepts_checked
    << when (knowledge_report.root_available && knowledge_report.loaded_entries == 0)
        (put (codes "Note: the Knowledge directory contains no valid entries.") << newline)
    << count_line (codes "Diagnostics: ") (
        length knowledge_report.diagnostics
        + length concept_report.diagnostics
        + length lint_report.diagnostics)
    << put_each (human_diagnostic (codes "knowledge")) knowledge_report.diagnostics
    << put_each (human_diagnostic (codes "concepts")) concept_report.diagnostics
    << put_each (human_diagnostic (codes "lint")) lint_report.diagnostics
