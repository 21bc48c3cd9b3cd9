-- ===== src/Render/Json/Results.antt =====
-- The results of a search as JSON, in src/render.cpp.
use howlinux.Base.{ℕ, Bool, List, [], ◌∷◌, Option, none, some, if◌then◌else◌, codes}
use howlinux.Query.Processor.{query_type_name}
use howlinux.Knowledge.{KnowledgeEntry}
use howlinux.Search.Doubles.{Doubles, zero_double}
use howlinux.Search.Score.{ScoreBreakdown, SearchResult}
use howlinux.Render.Total.{breakdown_total}
use howlinux.Search.Engine.{SearchResponse}
use howlinux.Search.Policy.{confident, uncertain, no_match, PolicyDecision}
use howlinux.Render.Write.{Writer, ◌<<◌, put, put_byte, nothing, put_separated, limited_results}
use howlinux.Render.Json.{
  Printing, put_bool, status_name, json_string, json_string_array, json_entry,
}

module _ (N : Doubles) (P : Printing N) where
  -- `writeJsonNumber`
  unfoldable pub json_number : N.Double → Writer
  json_number value =
      if P.is_finite value
      then put (if N.same value (zero_double N) then codes "0" else P.precise value)
      else put (codes "null")

  -- `writeJsonBreakdown`
  unfoldable pub json_breakdown : ScoreBreakdown N → Writer
  json_breakdown b =
      put (codes "{\"exact_alias\":")
      << json_number b.exact_alias
      << put (codes ",\"phrase\":")
      << json_number b.phrase
      << put (codes ",\"command\":")
      << json_number b.command
      << put (codes ",\"keywords\":")
      << json_number b.keywords
      << put (codes ",\"concepts\":")
      << json_number b.concepts
      << put (codes ",\"intent\":")
      << json_number b.intent
      << put (codes ",\"title\":")
      << json_number b.title
      << put (codes ",\"token_idf\":")
      << json_number b.token_idf
      << put (codes ",\"fuzzy\":")
      << json_number b.fuzzy
      << put (codes ",\"total\":")
      << json_number (breakdown_total N b)
      << put_byte b'}'

  -- `writeJsonSearchResult`
  unfoldable pub json_result : Bool → SearchResult N → Writer
  unfolding json_string
  json_result explain result =
      put (codes "{\"id\":")
      << json_string result.entry.id
      << put (codes ",\"title\":")
      << json_string result.entry.title
      << put (codes ",\"score\":")
      << json_number result.score
      << put (codes ",\"fuzzy_used\":")
      << put_bool result.fuzzy_used
      << put (codes ",\"match_reasons\":")
      << json_string_array result.match_reasons
      << (if explain
          then put (codes ",\"breakdown\":") << json_breakdown result.breakdown
          else nothing)
      << put_byte b'}'

  -- `selected`, where the status is confident.
  abbrev pub selected_or_first :
      Option (SearchResult N) → List (SearchResult N) → Option KnowledgeEntry
  selected_or_first (some result) results = some result.entry
  selected_or_first none (result ∷ results) = some result.entry
  selected_or_first none [] = none

  abbrev pub selected_entry : PolicyDecision N → List (SearchResult N) → Option KnowledgeEntry
  selected_entry decision results = elim decision.status [
    | confident ↦ selected_or_first decision.selected results
    | uncertain ↦ none
    | no_match ↦ none
  ]

  abbrev pub json_selected : Option KnowledgeEntry → Writer
  json_selected none = put (codes "null")
  json_selected (some entry) = json_entry entry

  -- `searchJson`
  unfoldable pub search_json : SearchResponse N → PolicyDecision N → ℕ → Bool → Writer
  unfolding json_string limited_results status_name query_type_name
  search_json response decision limit explain_requested =
      let results = limited_results N response limit in
      put (codes "{\"status\":")
      << json_string (status_name decision.status)
      << put (codes ",\"query\":")
      << json_string response.query.original
      << put (codes ",\"query_type\":")
      << json_string (query_type_name response.query.type)
      << put (codes ",\"concepts\":")
      << json_string_array response.query.concepts
      << put (codes ",\"results\":[")
      << put_separated (put_byte b',') (json_result explain_requested) results
      << put (codes "],\"entry\":")
      << json_selected (selected_entry decision results)
      << put (b'}' ∷ 10 ∷ [])
