-- ===== src/Render/Json/Outputs.antt =====
-- Every JSON output of src/render.cpp and src/app.cpp is the text of one JSON value, and a newline.
use howlinux.Base.{
  Bool, true, false, ◌&&◌, List, [], ◌∷◌, ◌++◌, ◌≡◌, refl, ap, ◌∙◌, Bytes, codes, length, is_empty,
  ◌==◌, map, append-nil,
}
use howlinux.Diagnostics.{Severity, warning, error, Diagnostic}
use howlinux.Concepts.Dictionary.{ConceptLoadReport}
use howlinux.Knowledge.{KnowledgeEntry}
use howlinux.Knowledge.Load.{KnowledgeLoadReport, KnowledgeBase}
use howlinux.Knowledge.Lint.{KnowledgeLintReport}
use howlinux.Render.Escape.{escape_json}
use howlinux.Render.Write.{sorted_entries, severity_name, validation_status}
use howlinux.Render.Json.{
  json_string, json_summary, json_diagnostic, json_diagnostics, entry_json, list_json,
  validation_json, error_diagnostic, error_json, not_found_json,
}
use howlinux.Render.Json.Values.{
  Json, boolean, string, array, object, no_members, member, print, print_items, natural, items_of,
  put_separated-print, entry_value, entry-print,
}

abbrev pub summary_value : KnowledgeEntry → Json
summary_value entry = object (
    member (codes "id") (string entry.id) (
      member (codes "title") (string entry.title) (
        member (codes "type") (string entry.type) (
          member (codes "command") (string entry.command)
            (member (codes "category") (string entry.category) no_members)))))

abbrev pub list_value : KnowledgeBase → Json
list_value knowledge =
    let entries = sorted_entries knowledge in
    object (
      member (codes "status") (string (codes "ok")) (
        member (codes "count") (natural (length entries))
          (member (codes "entries") (array (items_of summary_value entries)) no_members)))

-- A diagnostic with its scope.
abbrev pub scoped_value : Bytes × Diagnostic → Json
scoped_value (scope, diagnostic) = object (
    member (codes "scope") (string scope) (
      member (codes "severity") (string (severity_name diagnostic.severity)) (
        member (codes "path") (string diagnostic.path) (
          member (codes "entry_id") (string diagnostic.entry_id)
            (member (codes "message") (string diagnostic.message) no_members)))))

abbrev pub scoped : Bytes → List Diagnostic → List (Bytes × Diagnostic)
scoped scope diagnostics = map (λ diagnostic. (scope, diagnostic)) diagnostics

module _ (knowledge_report : KnowledgeLoadReport) (concept_report : ConceptLoadReport)
    (lint_report : KnowledgeLintReport) where
  abbrev pub all_scoped : List (Bytes × Diagnostic)
  all_scoped =
      scoped (codes "knowledge") knowledge_report.diagnostics
      ++ (scoped (codes "concepts") concept_report.diagnostics
          ++ scoped (codes "lint") lint_report.diagnostics)

  abbrev pub validation_value : Json
  validation_value = object (
      member (codes "status")
        (string (validation_status knowledge_report concept_report lint_report))
        (member (codes "knowledge")
          (object (
            member (codes "root_available") (boolean knowledge_report.root_available) (
              member (codes "discovered_entries") (natural knowledge_report.discovered_entries) (
                member (codes "loaded_entries") (natural knowledge_report.loaded_entries) (
                  member (codes "skipped_entries") (natural knowledge_report.skipped_entries) (
                    member (codes "empty") (boolean (knowledge_report.loaded_entries == 0))
                      no_members))))))
          (member (codes "concepts")
            (object (
              member (codes "file_present") (boolean concept_report.file_present) (
                member (codes "usable") (boolean concept_report.usable) (
                  member (codes "concepts_loaded") (natural concept_report.concepts_loaded)
                    no_members))))
            (member (codes "lint")
              (object (
                member (codes "performed") (boolean lint_report.performed) (
                  member (codes "entries_checked") (natural lint_report.entries_checked) (
                    member (codes "aliases_checked") (natural lint_report.aliases_checked) (
                      member (codes "keywords_checked") (natural lint_report.keywords_checked) (
                        member (codes "concepts_checked") (natural lint_report.concepts_checked)
                          no_members))))))
              (member (codes "diagnostics") (array (items_of scoped_value all_scoped))
                no_members)))))

abbrev pub error_value : Diagnostic → Json
error_value diagnostic = object (
    member (codes "severity") (string (severity_name diagnostic.severity)) (
      member (codes "path") (string diagnostic.path) (
        member (codes "entry_id") (string diagnostic.entry_id)
          (member (codes "message") (string diagnostic.message) no_members))))

abbrev pub newline : Bytes
newline = 10 ∷ []

-- `entryJson` writes one JSON object and a newline.
pub entry_json-print :
    (entry : KnowledgeEntry)
    → entry_json entry []
      ≡ print
          (object (
            member
              (codes "status")
              (string (codes "ok"))
              (member (codes "entry") (entry_value entry) no_members)))
          newline
unfolding entry_json print json_string escape_json
entry_json-print entry = rw entry-print refl

summary-print :
    (entry : KnowledgeEntry) (rest : Bytes)
    → json_summary entry rest ≡ print (summary_value entry) rest
unfolding json_summary print json_string escape_json
summary-print entry rest = refl

pub list_json-print :
    (knowledge : KnowledgeBase) → list_json knowledge [] ≡ print (list_value knowledge) newline
unfolding list_json print json_string escape_json
list_json-print knowledge =
    rw
      (put_separated-print json_summary summary_value summary-print (sorted_entries knowledge)
        (b']' ∷ b'}' ∷ newline))
      refl

escaped-severity :
    (severity : Severity) → escape_json (severity_name severity) ≡ severity_name severity
unfolding escape_json
escaped-severity warning = refl
escaped-severity error = refl

error_diagnostic-print :
    (diagnostic : Diagnostic) (rest : Bytes)
    → error_diagnostic diagnostic rest ≡ print (error_value diagnostic) rest
unfolding error_diagnostic print json_string escape_json
error_diagnostic-print diagnostic rest = rw (escaped-severity diagnostic.severity) refl

pub error_json-print :
    (error_code : Bytes) (diagnostics : List Diagnostic)
    → error_json error_code diagnostics []
      ≡ print
          (object (
            member (codes "status") (string (codes "error")) (
              member (codes "error") (string error_code) (
                member
                  (codes "diagnostics")
                  (array (items_of error_value diagnostics))
                  no_members))))
          newline
unfolding error_json print json_string escape_json
error_json-print error_code diagnostics =
    rw
      (put_separated-print error_diagnostic error_value error_diagnostic-print diagnostics
        (b']' ∷ b'}' ∷ newline))
      refl

pub not_found_json-print :
    (id : Bytes)
    → not_found_json id []
      ≡ print
          (object (
            member
              (codes "status")
              (string (codes "not_found"))
              (member (codes "id") (string id) no_members)))
          newline
unfolding not_found_json print json_string escape_json
not_found_json-print id = refl

json_diagnostic-print :
    (scope : Bytes) (diagnostic : Diagnostic) (rest : Bytes)
    → json_diagnostic scope diagnostic rest ≡ print (scoped_value (scope, diagnostic)) rest
unfolding json_diagnostic print json_string escape_json
json_diagnostic-print scope diagnostic rest = refl

-- A loop over diagnostics writes their values in front of those of the loops behind it.
json_diagnostics-print :
    (first : Bool) (scope : Bytes) (diagnostics : List Diagnostic)
    → (more : List (Bytes × Diagnostic)) (rest : Bytes)
    → json_diagnostics first scope diagnostics
        (print_items (first && is_empty diagnostics) (items_of scoped_value more) rest)
      ≡ print_items first (items_of scoped_value (scoped scope diagnostics ++ more)) rest
unfolding json_diagnostics print
json_diagnostics-print true scope [] more rest = refl
json_diagnostics-print false scope [] more rest = refl
json_diagnostics-print true scope (diagnostic ∷ diagnostics) more rest =
    json_diagnostic-print scope diagnostic _
    ∙ ap (print (scoped_value (scope, diagnostic)))
        (json_diagnostics-print false scope diagnostics more rest)
json_diagnostics-print false scope (diagnostic ∷ diagnostics) more rest =
    ap (λ text. b',' ∷ text)
      (json_diagnostic-print scope diagnostic _
        ∙ ap (print (scoped_value (scope, diagnostic)))
            (json_diagnostics-print false scope diagnostics more rest))

-- The three loops of `validationJson`.
loops-print :
    (knowledge_report : KnowledgeLoadReport) (concept_report : ConceptLoadReport)
    → (lint_report : KnowledgeLintReport) (rest : Bytes)
    → json_diagnostics true (codes "knowledge") knowledge_report.diagnostics (
        json_diagnostics
          (is_empty knowledge_report.diagnostics)
          (codes "concepts")
          concept_report.diagnostics
          (json_diagnostics
            (is_empty knowledge_report.diagnostics && is_empty concept_report.diagnostics)
            (codes "lint")
            lint_report.diagnostics
            rest))
      ≡ print_items true
          (items_of scoped_value (all_scoped knowledge_report concept_report lint_report))
          rest
unfolding print
loops-print knowledge_report concept_report lint_report rest =
    let k = knowledge_report.diagnostics in
    let c = concept_report.diagnostics in
    let l = scoped (codes "lint") lint_report.diagnostics in
    ap
      (λ text.
        json_diagnostics true (codes "knowledge") k
          (json_diagnostics (is_empty k) (codes "concepts") c text))
      (json_diagnostics-print (is_empty k && is_empty c) (codes "lint") lint_report.diagnostics []
          rest
        ∙ ap (λ more. print_items (is_empty k && is_empty c) (items_of scoped_value more) rest)
            (append-nil l))
    ∙ ap (json_diagnostics true (codes "knowledge") k)
        (json_diagnostics-print (is_empty k) (codes "concepts") c l rest)
    ∙ json_diagnostics-print true (codes "knowledge") k (scoped (codes "concepts") c ++ l) rest

-- `validationJson` writes the text of one JSON object, whose diagnostics are those of the three reports
-- in their order, each with its scope, and a newline.
pub validation_json-print :
    (knowledge_report : KnowledgeLoadReport) (concept_report : ConceptLoadReport)
    → (lint_report : KnowledgeLintReport)
    → validation_json knowledge_report concept_report lint_report []
      ≡ print (validation_value knowledge_report concept_report lint_report) newline
unfolding validation_json print json_string escape_json
validation_json-print knowledge_report concept_report lint_report =
    rw (loops-print knowledge_report concept_report lint_report (b']' ∷ b'}' ∷ newline)) refl
