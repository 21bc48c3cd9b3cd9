-- ===== src/App/Json.antt =====
-- With `--json`, what a run of `runApplication` of src/app.cpp writes to its output is one JSON value.
pub mod Line
use howlinux.Base.{
  ℕ, Bool, true, false, ◌&&◌, List, [], ◌≡◌, subst, arith, Option, none, some, if◌then◌else◌, Bytes,
  codes,
}
use howlinux.Files.{join_path}
use howlinux.Cli.Options.{CliOptions, CliCommand}
use howlinux.Cli.Parse.{parse_command_line}
use howlinux.Concepts.Dictionary.{ConceptDictionary, ConceptLoadReport, empty_report}
use howlinux.Concepts.Load as ConceptLoad
use howlinux.Knowledge.{KnowledgeEntry}
use howlinux.Knowledge.Lookup.{find_by_id}
use howlinux.Knowledge.Load.{KnowledgeLoadReport, KnowledgeBase}
use howlinux.Knowledge.Load as KnowledgeLoad
use howlinux.Knowledge.Lint.{KnowledgeLintReport, empty_lint}
use howlinux.Knowledge.Lint.Run.{lint}
use howlinux.Search.Doubles.{Doubles, default_search_config}
use howlinux.Search.Engine.{SearchResponse, new_engine, search_for_query}
use howlinux.Search.Policy.{decide}
use howlinux.Render.Write.{Writer, ◌<<◌, nothing}
use howlinux.Render.Json.{Printing, validation_json}
use howlinux.Render.Json.Values.{Json, print}
use howlinux.Render.Json.Outputs.{
  newline, entry_json-print, list_json-print, error_json-print, not_found_json-print,
  validation_json-print,
}
use howlinux.Render.Json.Search.{IsPrinting, search_json-print}
use howlinux.App.Resolve.{resolve_knowledge_path}
use howlinux.App.{
  run_usable, run_command, empty_warning, emitted_of, run_available, run_loaded, run_parsed,
  run_options, run_application,
}
use howlinux.App.Outcome.{is_validate, Surroundings, Outcome, Ending, returned, broken, out_of_fuel}
use howlinux.App.Commands.{
  validation, run_unavailable, run_unusable, run_validate, run_list, run_show,
}
use howlinux.App.Find.{run_response, internal_limit, run_search}

-- The text of a JSON value, and a newline.
abbrev pub IsJson : Bytes → Type 0
IsJson output = (value : Json) × (output ≡ print value newline)

abbrev pub WritesJson : Ending → Type 0
WritesJson (returned outcome) = IsJson outcome.output
WritesJson broken = Unit
WritesJson out_of_fuel = Unit

if-IsJson :
    (test : Bool) (v w : Writer)
    → IsJson (v [])
    → IsJson (w [])
    → IsJson ((if test then v else w) [])
if-IsJson true v w h k = h
if-IsJson false v w h k = k

then-IsJson :
    (test : Bool) (v w : Writer) → test ≡ true → IsJson (v []) → IsJson ((if test then v else w) [])
then-IsJson true v w same h = h
then-IsJson false v w same h = absurd (ground (arith, same))

if-WritesJson :
    (test : Bool) (a b : Ending) → WritesJson a → WritesJson b → WritesJson (if test then a else b)
if-WritesJson true a b h k = h
if-WritesJson false a b h k = k

then-WritesJson :
    (test : Bool) (a b : Ending) → test ≡ true → WritesJson a → WritesJson (if test then a else b)
then-WritesJson true a b same h = h
then-WritesJson false a b same h = absurd (ground (arith, same))

module _ (N : Doubles) (P : Printing N) (w : IsPrinting N P) (surroundings : Surroundings)
    (options : CliOptions) (json : options.json ≡ true) where
  validation-IsJson :
      (k : KnowledgeLoadReport) (c : ConceptLoadReport) (l : KnowledgeLintReport)
      → IsJson (validation options k c l [])
  validation-IsJson k c l =
      then-IsJson options.json (validation_json k c l) _ json (_, validation_json-print k c l)

  unavailable-WritesJson :
      (report : KnowledgeLoadReport) → WritesJson (run_unavailable options report)
  unfolding run_unavailable
  unavailable-WritesJson report =
      if-IsJson (is_validate options.command && options.json) _ _
        (_, validation_json-print report empty_report empty_lint)
        (then-IsJson options.json _ nothing json
          (_, error_json-print (codes "knowledge_unavailable") report.diagnostics))

  unusable-WritesJson :
      (errors : Writer) (k : KnowledgeLoadReport) (c : ConceptLoadReport)
      → WritesJson (run_unusable options errors k c)
  unfolding run_unusable
  unusable-WritesJson errors k c =
      if-IsJson (is_validate options.command) (validation options k c empty_lint) _
        (validation-IsJson k c empty_lint)
        (then-IsJson options.json _ nothing json
          (_, error_json-print (codes "concepts_invalid") c.diagnostics))

  show-WritesJson :
      (knowledge : KnowledgeBase) (errors : Writer) (found : Option KnowledgeEntry)
      → WritesJson (run_show surroundings options knowledge errors found)
  unfolding run_show
  show-WritesJson knowledge errors none =
      then-IsJson options.json _ _ json (_, not_found_json-print options.entry_id)
  show-WritesJson knowledge errors (some entry) =
      then-IsJson options.json _ _ json (_, entry_json-print entry)

  response-WritesJson :
      (knowledge : KnowledgeBase) (errors : Writer) (response : Option (SearchResponse N))
      → WritesJson (run_response N P surroundings options knowledge errors response)
  unfolding run_response
  response-WritesJson knowledge errors none = tt
  response-WritesJson knowledge errors (some response) =
      let decision = decide N (default_search_config N) response.results in
      then-WritesJson options.json _ _ json
        (_, search_json-print N P w response decision options.limit options.explain)

  search-WritesJson :
      (knowledge : KnowledgeBase) (concepts : ConceptDictionary) (errors : Writer)
      → WritesJson (run_search N P surroundings options knowledge concepts errors)
  unfolding run_search
  search-WritesJson knowledge concepts errors = response-WritesJson knowledge errors (
      search_for_query N (new_engine N knowledge.entries concepts (default_search_config N))
        options.query (internal_limit N P options.limit))

  usable-WritesJson :
      (knowledge : KnowledgeBase) (concepts : ConceptDictionary) (errors : Writer)
      → (command : CliCommand)
      → WritesJson (run_usable N P surroundings options knowledge concepts errors command)
  unfolding run_usable run_list run_validate
  usable-WritesJson knowledge concepts errors CliCommand.validate =
      validation-IsJson knowledge.report concepts.report
        (lint surroundings.files concepts knowledge)
  usable-WritesJson knowledge concepts errors CliCommand.list =
      then-IsJson options.json _ _ json (_, list_json-print knowledge)
  usable-WritesJson knowledge concepts errors CliCommand.show =
      show-WritesJson knowledge errors
        (find_by_id knowledge.entries knowledge.id_lookup options.entry_id)
  usable-WritesJson knowledge concepts errors CliCommand.search =
      search-WritesJson knowledge concepts errors
  usable-WritesJson knowledge concepts errors CliCommand.help =
      search-WritesJson knowledge concepts errors
  usable-WritesJson knowledge concepts errors CliCommand.version =
      search-WritesJson knowledge concepts errors

  command-WritesJson :
      (path : Bytes) (knowledge : KnowledgeBase) (concepts : ConceptDictionary) (emitted : Writer)
      → WritesJson (run_command N P surroundings options path knowledge concepts emitted)
  unfolding run_command
  command-WritesJson path knowledge concepts emitted =
      usable-WritesJson knowledge concepts (emitted << empty_warning N P path knowledge)
        options.command

  available-WritesJson :
      (path : Bytes) (knowledge : KnowledgeBase) (concepts : ConceptDictionary)
      → WritesJson (run_available N P surroundings options path knowledge concepts)
  unfolding run_available
  available-WritesJson path knowledge concepts =
      let emitted = emitted_of N P options knowledge concepts in
      if-WritesJson concepts.report.usable _ _ (command-WritesJson path knowledge concepts emitted)
        (unusable-WritesJson emitted knowledge.report concepts.report)

  loaded-WritesJson :
      (path : Bytes) (knowledge : Option KnowledgeBase)
      → WritesJson (run_loaded N P surroundings options path knowledge)
  unfolding run_loaded
  loaded-WritesJson path none = tt
  loaded-WritesJson path (some knowledge) =
      if-WritesJson knowledge.report.root_available _ _
        (available-WritesJson path knowledge
          (ConceptLoad.load (surroundings.concept_file (join_path path (codes "concepts.yaml")))))
        (unavailable-WritesJson knowledge.report)

-- The commands that read the knowledge base.
abbrev pub reads_knowledge : CliCommand → Bool
reads_knowledge CliCommand.help = false
reads_knowledge CliCommand.version = false
reads_knowledge _ = true

parsed-WritesJson :
    (N : Doubles) (P : Printing N) (w : IsPrinting N P) (surroundings : Surroundings)
    (options : CliOptions)
    → (fuel : ℕ) (path : Bytes) (command : CliCommand) → options.json ≡ true
    → reads_knowledge command ≡ true
    → WritesJson (run_parsed N P surroundings fuel options path command)
unfolding run_parsed
parsed-WritesJson N P w surroundings options fuel path CliCommand.help json h =
    absurd (ground (arith, h))
parsed-WritesJson N P w surroundings options fuel path CliCommand.version json h =
    absurd (ground (arith, h))
parsed-WritesJson N P w surroundings options fuel path CliCommand.search json h =
    loaded-WritesJson N P w surroundings options json path
      (KnowledgeLoad.load surroundings.files fuel path)
parsed-WritesJson N P w surroundings options fuel path CliCommand.list json h =
    loaded-WritesJson N P w surroundings options json path
      (KnowledgeLoad.load surroundings.files fuel path)
parsed-WritesJson N P w surroundings options fuel path CliCommand.show json h =
    loaded-WritesJson N P w surroundings options json path
      (KnowledgeLoad.load surroundings.files fuel path)
parsed-WritesJson N P w surroundings options fuel path CliCommand.validate json h =
    loaded-WritesJson N P w surroundings options json path
      (KnowledgeLoad.load surroundings.files fuel path)

-- What such a run writes is the text of a JSON value, and a newline.
pub run_application-IsJson :
    (N : Doubles) (P : Printing N) (w : IsPrinting N P) (surroundings : Surroundings) (fuel : ℕ)
    → (arguments : List Bytes) (executable_path current_directory : Bytes) (outcome : Outcome)
    → (parse_command_line arguments).ok ≡ true
    → (parse_command_line arguments).options.json ≡ true
    → reads_knowledge (parse_command_line arguments).options.command ≡ true
    → run_application N P surroundings fuel arguments executable_path current_directory
      ≡ returned outcome
    → IsJson outcome.output
unfolding run_application run_options
run_application-IsJson N P w surroundings fuel arguments executable_path current_directory outcome
      ok json reads same =
    let options = (parse_command_line arguments).options in
    subst WritesJson same (
      then-WritesJson (parse_command_line arguments).ok _ _ ok (
        parsed-WritesJson N P w surroundings options fuel
          (resolve_knowledge_path surroundings.files surroundings.data_directory
            surroundings.variable options executable_path current_directory)
          options.command json reads))
