-- ===== src/Render/Human/Safe.antt =====
-- The human output of src/render.cpp holds no control byte but tabs and newlines.
use howlinux.Base.{
  ℕ, ◌+◌, Bool, true, false, [], ◌≡◌, refl, ◌∙◌, Bytes, codes, Bool-cases, inl, inr, is_empty,
}
use howlinux.Concepts.Dictionary.{ConceptLoadReport}
use howlinux.Query.Processor.{QueryType, query_type_name}
use howlinux.Knowledge.{KnowledgeEntry}
use howlinux.Knowledge.Load.{KnowledgeLoadReport, KnowledgeBase}
use howlinux.Knowledge.Lint.{KnowledgeLintReport}
use howlinux.Search.Doubles.{Doubles}
use howlinux.Search.Score.{ScoreBreakdown, SearchResult}
use howlinux.Render.Total.{breakdown_total}
use howlinux.Search.Engine.{SearchResponse}
use howlinux.Markdown.Inline.Shown.{AreShown}
use howlinux.Render.Write.{put, limited_results}
use howlinux.Render.Json.{Printing}
use howlinux.Render.Human.{human_entry, no_match_text, list_text, validation_text}
use howlinux.Render.Human.Results.{
  human_number, human_breakdown, explained, explain_text, suggested, suggestions_text,
}
use howlinux.Render.Human.Shown.{
  is_shown, IsSafe, AreShown-IsSafe, AreShown-of, safe, printed, if-IsSafe, when-IsSafe,
  indexed-IsSafe, joined-IsSafe,
}
use howlinux.Render.Human.Reports.{
  entry-IsSafe, list-IsSafe, flag-IsSafe, validation-IsSafe, no_match-IsSafe,
}

query_type-IsSafe : (type : QueryType) → IsSafe (put (query_type_name type))
unfolding query_type_name
query_type-IsSafe QueryType.explain rest = refl
query_type-IsSafe QueryType.how_to rest = refl
query_type-IsSafe QueryType.why rest = refl
query_type-IsSafe QueryType.command rest = refl
query_type-IsSafe QueryType.general rest = refl

module _ (N : Doubles) (P : Printing N) (fixed : (x : N.Double) → AreShown (N.fixed x)) where
  number-IsSafe : (x : N.Double) → IsSafe (human_number N P x)
  unfolding human_number
  number-IsSafe x rest = elim (Bool-cases (P.is_finite x)) [
    | inl e ↦ rw e (AreShown-IsSafe (N.fixed x) (fixed x) rest)
    | inr e ↦ rw e refl
  ]

  breakdown-IsSafe : (b : ScoreBreakdown N) → IsSafe (human_breakdown N P b)
  unfolding human_breakdown
  breakdown-IsSafe b rest =
      number-IsSafe b.exact_alias _
      ∙ number-IsSafe b.phrase _
      ∙ number-IsSafe b.command _
      ∙ number-IsSafe b.keywords _
      ∙ number-IsSafe b.concepts _
      ∙ number-IsSafe b.intent _
      ∙ number-IsSafe b.title _
      ∙ number-IsSafe b.token_idf _
      ∙ number-IsSafe b.fuzzy _
      ∙ number-IsSafe (breakdown_total N b) _

  explained-IsSafe : (n : ℕ) (result : SearchResult N) → IsSafe (explained N P n result)
  explained-IsSafe n result rest =
      printed (n + 1) _
      ∙ safe result.entry.title _
      ∙ safe result.entry.id _
      ∙ number-IsSafe result.score _
      ∙ joined-IsSafe result.match_reasons (codes "none") (AreShown-of (codes "none") refl) _
      ∙ flag-IsSafe result.fuzzy_used _
      ∙ breakdown-IsSafe result.breakdown rest

  explain-IsSafe :
      (response : SearchResponse N) (limit : ℕ) → IsSafe (explain_text N P response limit)
  unfolding explain_text
  explain-IsSafe response limit rest =
      let results = limited_results N response limit in
      safe response.query.original _
      ∙ query_type-IsSafe response.query.type _
      ∙ safe response.query.normalized_query _
      ∙ joined-IsSafe response.query.concepts (codes "none") (AreShown-of (codes "none") refl) _
      ∙ joined-IsSafe response.query.tokens (codes "none") (AreShown-of (codes "none") refl) _
      ∙ if-IsSafe (is_empty results) _ _ (λ r. refl)
          (λ r. indexed-IsSafe (explained N P) explained-IsSafe 0 results r) rest

  suggested-IsSafe : (n : ℕ) (result : SearchResult N) → IsSafe (suggested N P n result)
  suggested-IsSafe n result rest =
      printed (n + 1) _
      ∙ safe result.entry.title _
      ∙ safe result.entry.id _
      ∙ number-IsSafe result.score _
      ∙ joined-IsSafe result.match_reasons (codes "candidate match")
          (AreShown-of (codes "candidate match") refl) _
      ∙ when-IsSafe result.fuzzy_used (put (codes " (fuzzy used)")) (λ r. refl) _

  suggestions-IsSafe :
      (response : SearchResponse N) (limit : ℕ) (explain : Bool)
      → IsSafe (suggestions_text N P response limit explain)
  unfolding suggestions_text
  suggestions-IsSafe response limit explain rest =
      let results = limited_results N response limit in
      if-IsSafe (is_empty results) _ _ (no_match-IsSafe response.query.original)
        (λ r.
          safe response.query.original _
          ∙ indexed-IsSafe (suggested N P) suggested-IsSafe 0 results r)
        _
      ∙ when-IsSafe explain _ (λ r. explain-IsSafe response limit r) rest

  -- Where the printed numbers hold no control byte, no output for a terminal without color holds one but
  -- tabs and newlines, whatever the query and the knowledge base hold: an entry that is not raw, the
  -- suggestions with and without an explanation, the explanation, the list, the validation report, and
  -- the text of no match.
  pub human-is_shown :
      (value : KnowledgeEntry) (knowledge : KnowledgeBase) (response : SearchResponse N) (limit : ℕ)
      → (explain : Bool) (knowledge_report : KnowledgeLoadReport)
      → (concept_report : ConceptLoadReport) (lint_report : KnowledgeLintReport) (query : Bytes)
      → (is_shown (human_entry false value knowledge false []) ≡ true)
        × (is_shown (suggestions_text N P response limit explain []) ≡ true)
        × (is_shown (explain_text N P response limit []) ≡ true)
        × (is_shown (list_text knowledge []) ≡ true)
        × (is_shown (validation_text knowledge_report concept_report lint_report []) ≡ true)
        × (is_shown (no_match_text query []) ≡ true)
  human-is_shown value knowledge response limit explain k c l query = (
    entry-IsSafe value knowledge [],
    suggestions-IsSafe response limit explain [],
    explain-IsSafe response limit [],
    list-IsSafe knowledge [],
    validation-IsSafe k c l [],
    no_match-IsSafe query [],
  )
