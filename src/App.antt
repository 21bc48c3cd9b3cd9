-- ===== src/App.antt =====
-- `runApplication` of src/app.cpp.
pub mod Resolve
pub mod Ends
pub mod Main
pub mod Json
pub mod Validated
pub mod Find
pub mod Commands
pub mod Outcome
use howlinux.Base.{
  ℕ, Bool, true, false, ◌&&◌, ◌||◌, not, List, [], ◌∷◌, ◌++◌, ◌≡◌, Option, none, some,
  if◌then◌else◌, Bytes, codes, ltb, is_empty,
}
use howlinux.Yaml.{Answer, answer, failed}
use howlinux.Diagnostics.{Diagnostic, format_diagnostic}
use howlinux.Files.{FileSystem, join_path}
use howlinux.Cli.Options.{CliOptions, CliParseResult, CliCommand}
use howlinux.Cli.Parse.{parse_command_line}
use howlinux.Concepts.Dictionary.{ConceptDictionary, ConceptLoadReport, empty_report}
use howlinux.Concepts.Dictionary
use howlinux.Concepts.Load.{ConceptFile}
use howlinux.Concepts.Load as ConceptLoad
use howlinux.Knowledge.{KnowledgeEntry}
use howlinux.Knowledge.Lookup.{find_by_id}
use howlinux.Knowledge.Load.{KnowledgeLoadReport, KnowledgeBase, has_issues}
use howlinux.Knowledge.Load as KnowledgeLoad
use howlinux.Knowledge.Lint.{KnowledgeLintReport, empty_lint, lint_issues}
use howlinux.Knowledge.Lint.Run.{lint}
use howlinux.Search.Doubles.{Doubles, default_search_config}
use howlinux.Search.Score.{SearchResult}
use howlinux.Search.Engine.{SearchResponse, new_engine, search_for_query}
use howlinux.Search.Policy.{ResultStatus, confident, uncertain, no_match, PolicyDecision, decide}
use howlinux.Render.Write.{Writer, ◌<<◌, put, put_byte, nothing, put_each}
use howlinux.Render.Json.{
  Printing, entry_json, list_json, validation_json, error_json, not_found_json,
}
use howlinux.Render.Json.Results.{search_json}
use howlinux.Render.Human.{newline, human_entry, no_match_text, list_text, validation_text}
use howlinux.Render.Human.Results.{explain_text, suggestions_text}
use howlinux.App.Resolve.{resolve_knowledge_path, print_help}
use howlinux.App.Find.{run_search}
use howlinux.App.Commands.{run_unavailable, run_unusable, run_validate, run_list, run_show}
use howlinux.App.Outcome.{
  Surroundings, Ending, ends, success, invalid_arguments, emit_diagnostics, out_of_fuel,
  is_validate,
}

module _ (N : Doubles) (P : Printing N) where
  -- The commands that need the concepts to be usable; `help` and `version` ended before.
  unfoldable pub run_usable :
      Surroundings → CliOptions → KnowledgeBase → ConceptDictionary → Writer → CliCommand → Ending
  unfolding run_validate run_list run_show run_search find_by_id
  run_usable surroundings options knowledge concepts errors CliCommand.validate =
      run_validate surroundings options knowledge concepts
  run_usable surroundings options knowledge concepts errors CliCommand.list =
      run_list options knowledge errors
  run_usable surroundings options knowledge concepts errors CliCommand.show =
      run_show surroundings options knowledge errors
        (find_by_id knowledge.entries knowledge.id_lookup options.entry_id)
  run_usable surroundings options knowledge concepts errors _ =
      run_search N P surroundings options knowledge concepts errors

  -- The warning on a knowledge base without entries; `validate` ended before it.
  abbrev pub empty_warning : Bytes → KnowledgeBase → Writer
  empty_warning knowledge_path knowledge =
      if is_empty knowledge.entries
      then put (codes "Warning: the knowledge directory contains no valid entries: ")
        << put knowledge_path
        << newline
      else nothing

  unfoldable pub run_command :
      Surroundings → CliOptions → Bytes → KnowledgeBase → ConceptDictionary → Writer → Ending
  unfolding run_usable
  run_command surroundings options knowledge_path knowledge concepts emitted =
      run_usable surroundings options knowledge concepts
        (emitted << empty_warning knowledge_path knowledge) options.command

  -- The diagnostics of both reports, which `validate` writes in its report instead.
  abbrev pub emitted_of : CliOptions → KnowledgeBase → ConceptDictionary → Writer
  emitted_of options knowledge concepts =
      if is_validate options.command
      then nothing
      else emit_diagnostics knowledge.report.diagnostics
        << emit_diagnostics concepts.report.diagnostics

  -- A knowledge base whose root is available.
  unfoldable pub run_available :
      Surroundings → CliOptions → Bytes → KnowledgeBase → ConceptDictionary → Ending
  unfolding run_command run_unusable emit_diagnostics
  run_available surroundings options knowledge_path knowledge concepts =
      let emitted = emitted_of options knowledge concepts in
      if concepts.report.usable
      then run_command surroundings options knowledge_path knowledge concepts emitted
      else run_unusable options emitted knowledge.report concepts.report

  unfoldable pub run_loaded : Surroundings → CliOptions → Bytes → Option KnowledgeBase → Ending
  unfolding run_available run_unavailable
  run_loaded surroundings options knowledge_path none = out_of_fuel
  run_loaded surroundings options knowledge_path (some knowledge) =
      if knowledge.report.root_available
      then run_available surroundings options knowledge_path knowledge (
          ConceptLoad.load
            (surroundings.concept_file (join_path knowledge_path (codes "concepts.yaml"))))
      else run_unavailable options knowledge.report

  -- A command, where the knowledge base is at this path.
  unfoldable pub run_parsed : Surroundings → ℕ → CliOptions → Bytes → CliCommand → Ending
  unfolding run_loaded print_help
  run_parsed surroundings fuel options knowledge_path CliCommand.help =
      ends success (print_help surroundings.version) nothing
  run_parsed surroundings fuel options knowledge_path CliCommand.version =
      ends success (put (codes "howlinux ") << put surroundings.version << newline) nothing
  run_parsed surroundings fuel options knowledge_path _ =
      run_loaded surroundings options knowledge_path
        (KnowledgeLoad.load surroundings.files fuel knowledge_path)

  -- Options that are parsed.
  unfoldable pub run_options : Surroundings → ℕ → CliOptions → Bytes → Bytes → Ending
  unfolding run_parsed resolve_knowledge_path
  run_options surroundings fuel options executable_path current_directory =
      run_parsed surroundings fuel options
        (resolve_knowledge_path surroundings.files surroundings.data_directory surroundings.variable
          options executable_path current_directory)
        options.command

  -- `runApplication`
  unfoldable pub run_application : Surroundings → ℕ → List Bytes → Bytes → Bytes → Ending
  unfolding run_options
  run_application surroundings fuel arguments executable_path current_directory =
      let parsed = parse_command_line arguments in
      if parsed.ok
      then run_options surroundings fuel parsed.options executable_path current_directory
      else ends invalid_arguments nothing (
          put (codes "Error: ")
          << put parsed.error
          << newline
          << put (codes "Try 'howlinux --help' for usage.")
          << newline)
