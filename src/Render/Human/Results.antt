-- ===== src/Render/Human/Results.antt =====
-- The results of a search for a terminal, in src/render.cpp.
use howlinux.Base.{ℕ, ◌+◌, Bool, if◌then◌else◌, Bytes, codes, is_empty}
use howlinux.Query.Processor.{query_type_name}
use howlinux.Search.Doubles.{Doubles}
use howlinux.Search.Score.{ScoreBreakdown, SearchResult}
use howlinux.Render.Total.{breakdown_total}
use howlinux.Search.Engine.{SearchResponse}
use howlinux.Render.Write.{
  Writer, ◌<<◌, put, put_indexed, put_safe, put_number, joined_human, limited_results,
}
use howlinux.Render.Json.{Printing}
use howlinux.Render.Human.{newline, when, no_match_text, flag_line}

module _ (N : Doubles) (P : Printing N) where
  -- `humanNumber`
  unfoldable pub human_number : N.Double → Writer
  human_number value = put (if P.is_finite value then N.fixed value else codes "n/a")

  abbrev pub score_line : Bytes → N.Double → Writer
  score_line label value = put label << human_number value << newline

  -- `writeHumanBreakdown`
  unfoldable pub human_breakdown : ScoreBreakdown N → Writer
  unfolding human_number
  human_breakdown b =
      score_line (codes "    exact_alias: ") b.exact_alias
      << score_line (codes "    phrase: ") b.phrase
      << score_line (codes "    command: ") b.command
      << score_line (codes "    keywords: ") b.keywords
      << score_line (codes "    concepts: ") b.concepts
      << score_line (codes "    intent: ") b.intent
      << score_line (codes "    title: ") b.title
      << score_line (codes "    token_idf: ") b.token_idf
      << score_line (codes "    fuzzy: ") b.fuzzy
      << score_line (codes "    total: ") (breakdown_total N b)

  abbrev pub explained : ℕ → SearchResult N → Writer
  explained index result =
      put (codes "  ")
      << put_number (index + 1)
      << put (codes ". ")
      << put_safe result.entry.title
      << put (codes " (")
      << put_safe result.entry.id
      << put (codes ")")
      << newline
      << score_line (codes "    score: ") result.score
      << put (codes "    match_reasons: ")
      << joined_human result.match_reasons (codes "none")
      << newline
      << flag_line (codes "    fuzzy_used: ") result.fuzzy_used
      << put (codes "    breakdown:")
      << newline
      << human_breakdown result.breakdown

  -- `Renderer::explain`
  unfoldable pub explain_text : SearchResponse N → ℕ → Writer
  unfolding human_breakdown joined_human query_type_name limited_results
  explain_text response limit =
      let results = limited_results N response limit in
      put (codes "Ranking explanation")
      << newline
      << put (codes "  Query: ")
      << put_safe response.query.original
      << newline
      << put (codes "  Query type: ")
      << put (query_type_name response.query.type)
      << newline
      << put (codes "  Normalized: ")
      << put_safe response.query.normalized_query
      << newline
      << put (codes "  Concepts: ")
      << joined_human response.query.concepts (codes "none")
      << newline
      << put (codes "  Tokens: ")
      << joined_human response.query.tokens (codes "none")
      << newline
      << (if is_empty results
          then put (codes "  Results: none") << newline
          else put (codes "  Results:") << newline << put_indexed 0 explained results)

  abbrev pub suggested : ℕ → SearchResult N → Writer
  suggested index result =
      put (codes "  ")
      << put_number (index + 1)
      << put (codes ". ")
      << put_safe result.entry.title
      << newline
      << put (codes "     ID: ")
      << put_safe result.entry.id
      << newline
      << score_line (codes "     Score: ") result.score
      << put (codes "     Match: ")
      << joined_human result.match_reasons (codes "candidate match")
      << when result.fuzzy_used (put (codes " (fuzzy used)"))
      << newline

  -- `Renderer::suggestions`
  unfoldable pub suggestions_text : SearchResponse N → ℕ → Bool → Writer
  unfolding explain_text no_match_text
  suggestions_text response limit explain_requested =
      let results = limited_results N response limit in
      (if is_empty results
        then no_match_text response.query.original
        else put (codes "No confident local match for: ")
          << put_safe response.query.original
          << newline
          << newline
          << put (codes "Suggestions:")
          << newline
          << put_indexed 0 suggested results)
      << when explain_requested (newline << explain_text response limit)
