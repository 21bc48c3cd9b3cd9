-- ===== src/App/Ends.antt =====
-- Every run of `runApplication` of src/app.cpp over a finite tree of directories returns.
use howlinux.Base.{
  ℕ, ◌≤◌, Bool, true, false, ◌||◌, List, ◌≡◌, ◌≢◌, refl, arith, Option, none, some, if◌then◌else◌,
  Bytes, codes, Bool-cases, inl, inr,
}
use howlinux.Files.{join_path}
use howlinux.Cli.Options.{CliOptions, CliCommand}
use howlinux.Cli.Parse.{parse_command_line}
use howlinux.Concepts.Dictionary.{ConceptDictionary}
use howlinux.Concepts.Dictionary
use howlinux.Concepts.Load as ConceptLoad
use howlinux.Knowledge.{KnowledgeEntry}
use howlinux.Knowledge.Lookup.{find_by_id}
use howlinux.Knowledge.Load.{KnowledgeBase, has_issues}
use howlinux.Knowledge.Load as KnowledgeLoad
use howlinux.Knowledge.Scan.Tree.{HasDepth, tree_size}
use howlinux.Knowledge.Load.Ends.{load-ends}
use howlinux.Knowledge.Lint.{lint_issues}
use howlinux.Knowledge.Lint.Run.{lint}
use howlinux.Search.Doubles.{Doubles, IsOrdered, default_search_config}
use howlinux.Search.Score.{SearchResult}
use howlinux.Search.Engine.{SearchResponse, new_engine, search_for_query}
use howlinux.Search.Engine.Answer.{IsAnswer, search-IsAnswer}
use howlinux.Search.Policy.{ResultStatus, confident, uncertain, no_match, decide}
use howlinux.Search.Policy.Laws.{decide-search}
use howlinux.Render.Write.{Writer, ◌<<◌}
use howlinux.Render.Json.{Printing}
use howlinux.App.Resolve.{resolve_knowledge_path}
use howlinux.App.{
  empty_warning, emitted_of, run_usable, run_command, run_available, run_loaded, run_parsed,
  run_options, run_application,
}
use howlinux.App.Outcome.{Surroundings, Outcome, Ending, returned, broken, out_of_fuel}
use howlinux.App.Commands.{run_unavailable, run_unusable, run_validate, run_list, run_show}
use howlinux.App.Find.{run_decided, exit_of, run_response, internal_limit, run_search}

-- A run that returns, with one of the four exit codes.
abbrev pub Returns : Ending → Type 0
Returns (returned outcome) = outcome.exit_code ≤ 3
Returns broken = ⊥
Returns out_of_fuel = ⊥

if-at_most : (test : Bool) (a b : ℕ) → a ≤ 3 → b ≤ 3 → (if test then a else b) ≤ 3
if-at_most true a b h k = h
if-at_most false a b h k = k

if-Returns : (test : Bool) (a b : Ending) → Returns a → Returns b → Returns (if test then a else b)
if-Returns true a b h k = h
if-Returns false a b h k = k

module _ (N : Doubles) (P : Printing N) (o : IsOrdered N) (surroundings : Surroundings)
    (options : CliOptions) where
  show-Returns :
      (knowledge : KnowledgeBase) (errors : Writer) (found : Option KnowledgeEntry)
      → Returns (run_show surroundings options knowledge errors found)
  unfolding run_show
  show-Returns knowledge errors none = omega arith
  show-Returns knowledge errors (some entry) = omega arith

  decided-Returns :
      (knowledge : KnowledgeBase) (errors : Writer) (response : SearchResponse N)
      → (status : ResultStatus) (selected : Option (SearchResult N))
      → (status ≡ confident → selected ≢ none)
      → Returns (run_decided N P surroundings options knowledge errors response status selected)
  unfolding run_decided
  decided-Returns knowledge errors response confident (some result) h = omega arith
  decided-Returns knowledge errors response confident none h = absurd (h refl refl)
  decided-Returns knowledge errors response uncertain selected h = omega arith
  decided-Returns knowledge errors response no_match selected h = omega arith

  exit_of-at_most : (status : ResultStatus) → exit_of N P status ≤ 3
  exit_of-at_most confident = omega arith
  exit_of-at_most uncertain = omega arith
  exit_of-at_most no_match = omega arith

  response-Returns :
      (knowledge : KnowledgeBase) (errors : Writer) (concepts : ConceptDictionary) (limit : ℕ)
      → (response : Option (SearchResponse N))
      → search_for_query N
          (new_engine N knowledge.entries concepts (default_search_config N))
          options.query
          limit
        ≡ response
      → IsAnswer N (default_search_config N) limit response
      → Returns (run_response N P surroundings options knowledge errors response)
  unfolding run_response
  response-Returns knowledge errors concepts limit none same h = elim h [ ]
  response-Returns knowledge errors concepts limit (some response) same h =
      let decision = decide N (default_search_config N) response.results in
      let d =
        decide-search N o knowledge.entries concepts (default_search_config N) options.query limit
          response same in
      elim (Bool-cases options.json) [
        | inl e ↦ rw e (exit_of-at_most decision.status)
        | inr e ↦ rw e (
            decided-Returns knowledge errors response decision.status decision.selected
              (d.selects.0))
      ]

  search-Returns :
      (knowledge : KnowledgeBase) (concepts : ConceptDictionary) (errors : Writer)
      → Returns (run_search N P surroundings options knowledge concepts errors)
  unfolding run_search
  search-Returns knowledge concepts errors =
      response-Returns knowledge errors concepts (internal_limit N P options.limit)
        (search_for_query N (new_engine N knowledge.entries concepts (default_search_config N))
          options.query (internal_limit N P options.limit))
        refl
        (search-IsAnswer N o knowledge.entries concepts (default_search_config N) options.query
          (internal_limit N P options.limit))

  usable-Returns :
      (knowledge : KnowledgeBase) (concepts : ConceptDictionary) (errors : Writer)
      → (command : CliCommand)
      → Returns (run_usable N P surroundings options knowledge concepts errors command)
  unfolding run_usable run_list run_validate
  usable-Returns knowledge concepts errors CliCommand.validate =
      let lint_report = lint surroundings.files concepts knowledge in
      if-at_most
        (has_issues knowledge.report
          || Dictionary.has_issues concepts.report
          || lint_issues lint_report)
        1 0 (omega arith) (omega arith)
  usable-Returns knowledge concepts errors CliCommand.list = omega arith
  usable-Returns knowledge concepts errors CliCommand.show =
      show-Returns knowledge errors
        (find_by_id knowledge.entries knowledge.id_lookup options.entry_id)
  usable-Returns knowledge concepts errors CliCommand.search =
      search-Returns knowledge concepts errors
  usable-Returns knowledge concepts errors CliCommand.help =
      search-Returns knowledge concepts errors
  usable-Returns knowledge concepts errors CliCommand.version =
      search-Returns knowledge concepts errors

  command-Returns :
      (path : Bytes) (knowledge : KnowledgeBase) (concepts : ConceptDictionary) (emitted : Writer)
      → Returns (run_command N P surroundings options path knowledge concepts emitted)
  unfolding run_command
  command-Returns path knowledge concepts emitted =
      usable-Returns knowledge concepts (emitted << empty_warning N P path knowledge)
        options.command

  available-Returns :
      (path : Bytes) (knowledge : KnowledgeBase) (concepts : ConceptDictionary)
      → Returns (run_available N P surroundings options path knowledge concepts)
  unfolding run_available run_unusable
  available-Returns path knowledge concepts =
      if-Returns concepts.report.usable _ _
        (command-Returns path knowledge concepts (emitted_of N P options knowledge concepts))
        (omega arith)

  loaded-Returns :
      (path : Bytes) (knowledge : KnowledgeBase)
      → Returns (run_loaded N P surroundings options path (some knowledge))
  unfolding run_loaded run_unavailable
  loaded-Returns path knowledge =
      if-Returns knowledge.report.root_available _ _
        (available-Returns path knowledge
          (ConceptLoad.load (surroundings.concept_file (join_path path (codes "concepts.yaml")))))
        (omega arith)

  parsed-Returns :
      (fuel : ℕ) (path : Bytes) (command : CliCommand)
      → (base : KnowledgeBase) × (KnowledgeLoad.load surroundings.files fuel path ≡ some base)
      → Returns (run_parsed N P surroundings fuel options path command)
  unfolding run_parsed
  parsed-Returns fuel path CliCommand.help h = omega arith
  parsed-Returns fuel path CliCommand.version h = omega arith
  parsed-Returns fuel path CliCommand.search (base, e) = rw e (loaded-Returns path base)
  parsed-Returns fuel path CliCommand.list (base, e) = rw e (loaded-Returns path base)
  parsed-Returns fuel path CliCommand.show (base, e) = rw e (loaded-Returns path base)
  parsed-Returns fuel path CliCommand.validate (base, e) = rw e (loaded-Returns path base)

-- The knowledge root of a run.
abbrev pub root_of : Surroundings → List Bytes → Bytes → Bytes → Bytes
root_of surroundings arguments executable_path current_directory =
    resolve_knowledge_path surroundings.files surroundings.data_directory surroundings.variable
      (parse_command_line arguments).options executable_path current_directory

returned-outcome :
    (ending : Ending)
    → Returns ending
    → (outcome : Outcome) × (ending ≡ returned outcome) × (outcome.exit_code ≤ 3)
returned-outcome (returned outcome) h = (outcome, refl, h)
returned-outcome broken h = absurd h
returned-outcome out_of_fuel h = absurd h

-- Whatever the command line, the files and the environment are: where the directories of the knowledge root
-- form a tree of a finite depth, with as many units of fuel as they are, `runApplication` returns, by none
-- of its exceptions and through no null pointer, with one of the exit codes 0 to 3. The comparisons of
-- doubles are taken to be those without a NaN.
pub run_application-returned :
    (N : Doubles) (P : Printing N)
    → IsOrdered N
    → (surroundings : Surroundings) (depth fuel : ℕ) (arguments : List Bytes)
    → (executable_path current_directory : Bytes)
    → let root =
        surroundings.files.lexically_normal
          (root_of surroundings arguments executable_path current_directory) in
      HasDepth surroundings.files depth root
      → tree_size surroundings.files depth root ≤ fuel
      → (outcome : Outcome) × (run_application N P surroundings fuel arguments executable_path
            current_directory
          ≡ returned outcome)
        × (outcome.exit_code ≤ 3)
unfolding run_application run_options
run_application-returned N P o surroundings depth fuel arguments executable_path current_directory h
      enough =
    let parsed = parse_command_line arguments in
    let path = root_of surroundings arguments executable_path current_directory in
    returned-outcome
      (run_application N P surroundings fuel arguments executable_path current_directory)
      (elim (Bool-cases parsed.ok) [
        | inl e ↦ rw e (
            parsed-Returns N P o surroundings parsed.options fuel path parsed.options.command
              (load-ends surroundings.files depth fuel path h enough))
        | inr e ↦ rw e (omega arith)
      ])
