-- ===== src/App/Commands.antt =====
-- The ends of `runApplication` in src/app.cpp without a usable configuration, and the commands `validate`, `list` and `show`.
use howlinux.Base.{◌&&◌, ◌||◌, Option, none, some, if◌then◌else◌, codes}
use howlinux.Cli.Options.{CliOptions}
use howlinux.Concepts.Dictionary.{ConceptDictionary, ConceptLoadReport, empty_report}
use howlinux.Concepts.Dictionary
use howlinux.Knowledge.{KnowledgeEntry}
use howlinux.Knowledge.Load.{KnowledgeLoadReport, KnowledgeBase, has_issues}
use howlinux.Knowledge.Lint.{KnowledgeLintReport, empty_lint, lint_issues}
use howlinux.Knowledge.Lint.Run.{lint}
use howlinux.Render.Write.{Writer, ◌<<◌, put, nothing}
use howlinux.Render.Json.{entry_json, list_json, validation_json, error_json, not_found_json}
use howlinux.Render.Human.{newline, human_entry, list_text, validation_text}
use howlinux.App.Outcome.{
  terminal_color, Surroundings, Ending, ends, success, no_confident_result, configuration_error,
  emit_diagnostics, is_validate,
}

-- The knowledge root is not available.
unfoldable pub run_unavailable : CliOptions → KnowledgeLoadReport → Ending
unfolding emit_diagnostics
run_unavailable options report =
    ends configuration_error
      (if is_validate options.command && options.json
        then validation_json report empty_report empty_lint
        else if options.json
        then error_json (codes "knowledge_unavailable") report.diagnostics
        else nothing)
      (emit_diagnostics report.diagnostics)

abbrev pub validation :
    CliOptions → KnowledgeLoadReport → ConceptLoadReport → KnowledgeLintReport → Writer
validation options knowledge_report concept_report lint_report =
    if options.json
    then validation_json knowledge_report concept_report lint_report
    else validation_text knowledge_report concept_report lint_report

-- The concepts cannot be used.
unfoldable pub run_unusable : CliOptions → Writer → KnowledgeLoadReport → ConceptLoadReport → Ending
run_unusable options errors knowledge_report concept_report =
    ends configuration_error
      (if is_validate options.command
        then validation options knowledge_report concept_report empty_lint
        else if options.json
        then error_json (codes "concepts_invalid") concept_report.diagnostics
        else nothing)
      errors

-- `validate`
unfoldable pub run_validate : Surroundings → CliOptions → KnowledgeBase → ConceptDictionary → Ending
unfolding lint Dictionary.has_issues
run_validate surroundings options knowledge concepts =
    let lint_report = lint surroundings.files concepts knowledge in
    ends
      (if has_issues knowledge.report
          || Dictionary.has_issues concepts.report
          || lint_issues lint_report
        then no_confident_result
        else success)
      (validation options knowledge.report concepts.report lint_report) nothing

-- `list`
unfoldable pub run_list : CliOptions → KnowledgeBase → Writer → Ending
unfolding list_json list_text
run_list options knowledge errors =
    ends success (if options.json then list_json knowledge else list_text knowledge) errors

-- `show`, by what `findById` finds.
unfoldable pub run_show :
    Surroundings → CliOptions → KnowledgeBase → Writer → Option KnowledgeEntry → Ending
unfolding entry_json human_entry not_found_json
run_show surroundings options knowledge errors none =
    ends no_confident_result
      (if options.json
        then not_found_json options.entry_id
        else put (codes "No knowledge entry with ID '")
          << put options.entry_id
          << put (codes "'.")
          << newline)
      errors
run_show surroundings options knowledge errors (some entry) =
    ends success
      (if options.json
        then entry_json entry
        else human_entry (terminal_color surroundings) entry knowledge options.raw)
      errors
