-- ===== src/App/Find.antt =====
-- The `search` command of `runApplication` in src/app.cpp.
use howlinux.Base.{ℕ, Option, none, some, if◌then◌else◌, ltb}
use howlinux.Cli.Options.{CliOptions}
use howlinux.Concepts.Dictionary.{ConceptDictionary}
use howlinux.Knowledge.{KnowledgeEntry}
use howlinux.Knowledge.Load.{KnowledgeBase}
use howlinux.Search.Doubles.{Doubles, default_search_config}
use howlinux.Search.Score.{SearchResult}
use howlinux.Search.Engine.{SearchResponse, new_engine, search_for_query}
use howlinux.Search.Policy.{ResultStatus, confident, uncertain, no_match, decide}
use howlinux.Render.Write.{Writer, ◌<<◌, nothing}
use howlinux.Render.Json.{Printing}
use howlinux.Render.Json.Results.{search_json}
use howlinux.Render.Human.{human_entry, no_match_text}
use howlinux.Render.Human.Results.{explain_text, suggestions_text}
use howlinux.App.Outcome.{
  terminal_color, broken, Surroundings, Ending, ends, success, no_confident_result,
}

module _ (N : Doubles) (P : Printing N) where
  -- The output of a search that is not JSON, where the decision is confident.
  abbrev pub confident_output :
      Surroundings → CliOptions → KnowledgeBase → SearchResponse N → KnowledgeEntry → Writer
  confident_output surroundings options knowledge response entry =
      human_entry (terminal_color surroundings) entry knowledge options.raw
      << (if options.explain then explain_text N P response options.limit else nothing)

  -- A decision; a confident one without a selected result would be the null pointer.
  unfoldable pub run_decided :
      Surroundings
      → CliOptions
      → KnowledgeBase
      → Writer
      → SearchResponse N
      → ResultStatus
      → Option (SearchResult N)
      → Ending
  unfolding suggestions_text explain_text no_match_text
  run_decided surroundings options knowledge errors response confident (some result) =
      ends success (confident_output surroundings options knowledge response result.entry) errors
  run_decided surroundings options knowledge errors response confident none = broken
  run_decided surroundings options knowledge errors response uncertain selected =
      ends no_confident_result (suggestions_text N P response options.limit options.explain) errors
  run_decided surroundings options knowledge errors response no_match selected =
      ends no_confident_result (no_match_text options.query) errors

  abbrev pub exit_of : ResultStatus → ℕ
  exit_of confident = success
  exit_of uncertain = no_confident_result
  exit_of no_match = no_confident_result

  -- The response, where `search` does not throw.
  unfoldable pub run_response :
      Surroundings → CliOptions → KnowledgeBase → Writer → Option (SearchResponse N) → Ending
  unfolding run_decided search_json
  run_response surroundings options knowledge errors none = broken
  run_response surroundings options knowledge errors (some response) =
      let decision = decide N (default_search_config N) response.results in
      if options.json
      then ends (exit_of decision.status)
          (search_json N P response decision options.limit options.explain) errors
      else run_decided surroundings options knowledge errors response decision.status
          decision.selected

  -- `std::max(options.limit, 2)`
  abbrev pub internal_limit : ℕ → ℕ
  internal_limit limit = if ltb limit 2 then 2 else limit

  unfoldable pub run_search :
      Surroundings → CliOptions → KnowledgeBase → ConceptDictionary → Writer → Ending
  unfolding run_response
  run_search surroundings options knowledge concepts errors =
      run_response surroundings options knowledge errors (
        search_for_query N (new_engine N knowledge.entries concepts (default_search_config N))
          options.query (internal_limit options.limit))
