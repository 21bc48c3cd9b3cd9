-- ===== src/Render/Json.antt =====
-- The JSON output of src/render.cpp, and the error object of src/app.cpp.
pub mod Values
pub mod Grammar
pub mod Accepted
pub mod Outputs
pub mod Shown
pub mod Search
pub mod Results
use howlinux.Base.{
  ℕ, ◌+◌, Bool, true, false, ◌&&◌, List, [], ◌∷◌, ◌++◌, Option, none, some, if◌then◌else◌, Bytes,
  codes, length, is_empty, ◌==◌,
}
use howlinux.Diagnostics.{Diagnostic}
use howlinux.Concepts.Dictionary.{ConceptLoadReport}
use howlinux.Query.Processor.{query_type_name}
use howlinux.Knowledge.{KnowledgeEntry}
use howlinux.Knowledge.Load.{KnowledgeLoadReport, KnowledgeBase}
use howlinux.Knowledge.Lint.{KnowledgeLintReport}
use howlinux.Search.Doubles.{Doubles, zero_double}
use howlinux.Search.Score.{ScoreBreakdown, SearchResult}
use howlinux.Render.Total.{breakdown_total}
use howlinux.Search.Engine.{SearchResponse}
use howlinux.Search.Policy.{ResultStatus, confident, uncertain, no_match, PolicyDecision}
use howlinux.Render.Escape.{escape_json}
use howlinux.Render.Write.{
  Writer, ◌<<◌, put, put_byte, nothing, put_each, put_separated, put_number, sorted_entries,
  severity_name, validation_status, limited_results,
}

-- How a `double` is printed to 15 significant digits, in the classic locale.
pub record Printing (N : Doubles) : Type 0 where
  pub is_finite : N.Double → Bool
  pub precise : N.Double → Bytes

abbrev pub put_bool : Bool → Writer
put_bool value = put (if value then codes "true" else codes "false")

-- `statusName`
unfoldable pub status_name : ResultStatus → Bytes
status_name confident = codes "confident"
status_name uncertain = codes "uncertain"
status_name no_match = codes "no_match"

-- `writeJsonString`
unfoldable pub json_string : Bytes → Writer
json_string value = put_byte b'"' << put (escape_json value) << put_byte b'"'

-- `writeJsonStringArray`
unfoldable pub json_string_array : List Bytes → Writer
unfolding json_string
json_string_array values =
    put_byte b'[' << put_separated (put_byte b',') json_string values << put_byte b']'

-- `writeJsonEntryValue`
unfoldable pub json_entry : KnowledgeEntry → Writer
unfolding json_string
json_entry entry =
    put (codes "{\"id\":")
    << json_string entry.id
    << put (codes ",\"title\":")
    << json_string entry.title
    << put (codes ",\"type\":")
    << json_string entry.type
    << put (codes ",\"command\":")
    << json_string entry.command
    << put (codes ",\"aliases\":")
    << json_string_array entry.aliases
    << put (codes ",\"keywords\":")
    << json_string_array entry.keywords
    << put (codes ",\"related\":")
    << json_string_array entry.related
    << put (codes ",\"intent\":")
    << json_string_array entry.intents
    << put (codes ",\"difficulty\":")
    << json_string entry.difficulty
    << put (codes ",\"platforms\":")
    << json_string_array entry.platforms
    << put (codes ",\"tags\":")
    << json_string_array entry.tags
    << put (codes ",\"examples\":")
    << json_string_array entry.examples
    << put (codes ",\"category\":")
    << json_string entry.category
    << put (codes ",\"content\":")
    << json_string entry.content
    << put_byte b'}'

-- `writeJsonEntrySummary`
unfoldable pub json_summary : KnowledgeEntry → Writer
unfolding json_string
json_summary entry =
    put (codes "{\"id\":")
    << json_string entry.id
    << put (codes ",\"title\":")
    << json_string entry.title
    << put (codes ",\"type\":")
    << json_string entry.type
    << put (codes ",\"command\":")
    << json_string entry.command
    << put (codes ",\"category\":")
    << json_string entry.category
    << put_byte b'}'

-- `writeJsonDiagnostic`
unfoldable pub json_diagnostic : Bytes → Diagnostic → Writer
unfolding json_string
json_diagnostic scope diagnostic =
    put (codes "{\"scope\":")
    << json_string scope
    << put (codes ",\"severity\":")
    << json_string (severity_name diagnostic.severity)
    << put (codes ",\"path\":")
    << json_string diagnostic.path
    << put (codes ",\"entry_id\":")
    << json_string diagnostic.entry_id
    << put (codes ",\"message\":")
    << json_string diagnostic.message
    << put_byte b'}'

-- A loop over diagnostics in `validationJson`, by the value of `first` in front of it.
unfoldable pub json_diagnostics : Bool → Bytes → List Diagnostic → Writer
json_diagnostics first scope [] = nothing
json_diagnostics first scope (diagnostic ∷ diagnostics) =
    (if first then nothing else put_byte b',')
    << json_diagnostic scope diagnostic
    << json_diagnostics false scope diagnostics

-- `entryJson`
unfoldable pub entry_json : KnowledgeEntry → Writer
entry_json value =
    put (codes "{\"status\":\"ok\",\"entry\":") << json_entry value << put (b'}' ∷ 10 ∷ [])

-- `listJson`
unfoldable pub list_json : KnowledgeBase → Writer
unfolding sorted_entries
list_json knowledge =
    let entries = sorted_entries knowledge in
    put (codes "{\"status\":\"ok\",\"count\":")
    << put_number (length entries)
    << put (codes ",\"entries\":[")
    << put_separated (put_byte b',') json_summary entries
    << put (b']' ∷ b'}' ∷ 10 ∷ [])

-- `validationJson`
unfoldable pub validation_json :
    KnowledgeLoadReport → ConceptLoadReport → KnowledgeLintReport → Writer
unfolding json_string validation_status
validation_json knowledge_report concept_report lint_report =
    put (codes "{\"status\":")
    << json_string (validation_status knowledge_report concept_report lint_report)
    << put (codes ",\"knowledge\":{\"root_available\":")
    << put_bool knowledge_report.root_available
    << put (codes ",\"discovered_entries\":")
    << put_number knowledge_report.discovered_entries
    << put (codes ",\"loaded_entries\":")
    << put_number knowledge_report.loaded_entries
    << put (codes ",\"skipped_entries\":")
    << put_number knowledge_report.skipped_entries
    << put (codes ",\"empty\":")
    << put_bool (knowledge_report.loaded_entries == 0)
    << put (codes "},\"concepts\":{\"file_present\":")
    << put_bool concept_report.file_present
    << put (codes ",\"usable\":")
    << put_bool concept_report.usable
    << put (codes ",\"concepts_loaded\":")
    << put_number concept_report.concepts_loaded
    << put (codes "},\"lint\":{\"performed\":")
    << put_bool lint_report.performed
    << put (codes ",\"entries_checked\":")
    << put_number lint_report.entries_checked
    << put (codes ",\"aliases_checked\":")
    << put_number lint_report.aliases_checked
    << put (codes ",\"keywords_checked\":")
    << put_number lint_report.keywords_checked
    << put (codes ",\"concepts_checked\":")
    << put_number lint_report.concepts_checked
    << put (codes "},\"diagnostics\":[")
    << json_diagnostics true (codes "knowledge") knowledge_report.diagnostics
    << json_diagnostics (is_empty knowledge_report.diagnostics) (codes "concepts")
        concept_report.diagnostics
    << json_diagnostics
        (is_empty knowledge_report.diagnostics && is_empty concept_report.diagnostics)
        (codes "lint") lint_report.diagnostics
    << put (b']' ∷ b'}' ∷ 10 ∷ [])

-- A diagnostic of `renderConfigurationErrorJson` of src/app.cpp.
unfoldable pub error_diagnostic : Diagnostic → Writer
error_diagnostic diagnostic =
    put (codes "{\"severity\":\"")
    << put (severity_name diagnostic.severity)
    << put (codes "\",\"path\":\"")
    << put (escape_json diagnostic.path)
    << put (codes "\",\"entry_id\":\"")
    << put (escape_json diagnostic.entry_id)
    << put (codes "\",\"message\":\"")
    << put (escape_json diagnostic.message)
    << put (codes "\"}")

-- `renderConfigurationErrorJson`
unfoldable pub error_json : Bytes → List Diagnostic → Writer
error_json error_code diagnostics =
    put (codes "{\"status\":\"error\",\"error\":\"")
    << put (escape_json error_code)
    << put (codes "\",\"diagnostics\":[")
    << put_separated (put_byte b',') error_diagnostic diagnostics
    << put (b']' ∷ b'}' ∷ 10 ∷ [])

-- What `show` writes of an identifier that no entry has, in `runApplication` of src/app.cpp.
unfoldable pub not_found_json : Bytes → Writer
not_found_json id =
    put (codes "{\"status\":\"not_found\",\"id\":\"")
    << put (escape_json id)
    << put (b'"' ∷ b'}' ∷ 10 ∷ [])
