-- ===== src/Render/Json/Search.antt =====
-- The JSON output of `Renderer::searchJson` in src/render.cpp is the text of one JSON value, and a
-- newline.
use howlinux.Base.{
  ℕ, Bool, true, false, List, [], ◌∷◌, ◌++◌, ◌≡◌, refl, Option, none, some, if◌then◌else◌, Bytes,
  codes, Bool-cases, inl, inr,
}
use howlinux.Knowledge.{KnowledgeEntry}
use howlinux.Search.Doubles.{Doubles, zero_double}
use howlinux.Render.Total.{breakdown_total-total}
use howlinux.Search.Score.{ScoreBreakdown, total, SearchResult}
use howlinux.Search.Engine.{SearchResponse}
use howlinux.Search.Policy.{ResultStatus, confident, uncertain, no_match, PolicyDecision}
use howlinux.Render.Json.Shown.{
  within, status_text, type_text, status_name-text, query_type_name-text, limited_results-within,
}
use howlinux.Render.Escape.{escape_json}
use howlinux.Render.Number.{is_number}
use howlinux.Render.Json.{Printing, json_string}
use howlinux.Render.Json.Results.{
  json_number, json_breakdown, json_result, selected_entry, json_selected, search_json,
}
use howlinux.Render.Json.Values.{
  Json, null, boolean, number, string, array, object, no_members, member, print, items_of, strings,
  put_separated-print, string_array-print, entry_value, entry-print,
}
use howlinux.Render.Json.Outputs.{newline}

pub zero-is_number : is_number (codes "0") ≡ true
unfolding is_number
zero-is_number = refl

-- What a stream prints of a `double` that is finite is a number of JSON.
pub record IsPrinting (N : Doubles) (P : Printing N) : Type 0 where
  pub number' : (value : N.Double) → P.is_finite value ≡ true → is_number (P.precise value) ≡ true

module _ (N : Doubles) (P : Printing N) (w : IsPrinting N P) where
  abbrev pub finite_value : (value : N.Double) (finite : Bool) → P.is_finite value ≡ finite → Json
  finite_value value false same = null
  finite_value value true same =
      if N.same value (zero_double N)
      then number (codes "0") zero-is_number
      else number (P.precise value) (w.number' value same)

  abbrev pub number_value : N.Double → Json
  number_value value = finite_value value (P.is_finite value) refl

  abbrev pub breakdown_value : ScoreBreakdown N → Json
  breakdown_value b = object (
      member (codes "exact_alias") (number_value b.exact_alias) (
        member (codes "phrase") (number_value b.phrase) (
          member (codes "command") (number_value b.command) (
            member (codes "keywords") (number_value b.keywords) (
              member (codes "concepts") (number_value b.concepts) (
                member (codes "intent") (number_value b.intent) (
                  member (codes "title") (number_value b.title) (
                    member (codes "token_idf") (number_value b.token_idf) (
                      member (codes "fuzzy") (number_value b.fuzzy)
                        (member (codes "total") (number_value (total N b)) no_members))))))))))

  abbrev pub result_value : Bool → SearchResult N → Json
  result_value explain result = object (
      member (codes "id") (string result.entry.id) (
        member (codes "title") (string result.entry.title) (
          member (codes "score") (number_value result.score) (
            member (codes "fuzzy_used") (boolean result.fuzzy_used) (
              member (codes "match_reasons") (strings result.match_reasons) (
                if explain
                then member (codes "breakdown") (breakdown_value result.breakdown) no_members
                else no_members))))))

  abbrev pub selected_value : Option KnowledgeEntry → Json
  selected_value none = null
  selected_value (some entry) = entry_value entry

  -- The entry at the end: where the decision is confident, that of the selected result or, without one, of
  -- the first result that is written.
  abbrev pub entry_at_end :
      ResultStatus → Option (SearchResult N) → List (SearchResult N) → Option KnowledgeEntry
  entry_at_end confident (some selected) results = some selected.entry
  entry_at_end confident none (result ∷ results) = some result.entry
  entry_at_end confident none [] = none
  entry_at_end uncertain selected results = none
  entry_at_end no_match selected results = none

  abbrev pub search_value : SearchResponse N → PolicyDecision N → ℕ → Bool → Json
  search_value response decision limit explain =
      let results = within limit response.results in
      object (
        member (codes "status") (string (status_text decision.status)) (
          member (codes "query") (string response.query.original) (
            member (codes "query_type") (string (type_text response.query.type)) (
              member (codes "concepts") (strings response.query.concepts) (
                member (codes "results") (array (items_of (result_value explain) results)) (
                  member (codes "entry")
                    (selected_value (entry_at_end decision.status decision.selected results))
                    no_members))))))

  finite-print :
      (value : N.Double) (finite : Bool) (same : P.is_finite value ≡ finite) (rest : Bytes)
      → json_number N P value rest ≡ print (finite_value value finite same) rest
  unfolding json_number print
  finite-print value false same rest = rw same refl
  finite-print value true same rest = elim (Bool-cases (N.same value (zero_double N))) [
    | inl e ↦ rw (same, e) refl
    | inr e ↦ rw (same, e) refl
  ]

  number-print : json_number N P ≡ (λ value. print (number_value value))
  number-print = λ i value rest. finite-print value (P.is_finite value) refl rest i

  breakdown-print :
      (b : ScoreBreakdown N) (rest : Bytes)
      → json_breakdown N P b rest ≡ print (breakdown_value b) rest
  unfolding json_breakdown print json_string escape_json
  breakdown-print b rest = rw (breakdown_total-total N, number-print) refl

  result-print :
      (explain : Bool) (result : SearchResult N) (rest : Bytes)
      → json_result N P explain result rest ≡ print (result_value explain result) rest
  unfolding json_result print json_string escape_json
  result-print true result rest =
      rw (number-print, string_array-print, breakdown-print result.breakdown (b'}' ∷ rest)) refl
  result-print false result rest = rw (number-print, string_array-print) refl

  selected-print :
      (entry : Option KnowledgeEntry) (rest : Bytes)
      → json_selected N P entry rest ≡ print (selected_value entry) rest
  unfolding print
  selected-print none rest = refl
  selected-print (some entry) rest = rw entry-print refl

  selected_entry-at_end :
      (decision : PolicyDecision N) (results : List (SearchResult N))
      → selected_entry N P decision results ≡ entry_at_end decision.status decision.selected results
  selected_entry-at_end decision results = by_status decision.status decision.selected results
    where
      by_status :
          (status : ResultStatus) (selected : Option (SearchResult N))
          (results : List (SearchResult N))
          → selected_entry N P (record { status = status; selected = selected }) results
            ≡ entry_at_end status selected results
      by_status confident none [] = refl
      by_status confident none (result ∷ results) = refl
      by_status confident (some selected) results = refl
      by_status uncertain selected results = refl
      by_status no_match selected results = refl

  -- `searchJson` writes the text of one JSON object and a newline: the results are the first of the
  -- response, as many as the limit says, or all for 0, each with its breakdown where an explanation is
  -- asked for; and the entry is null unless the decision is confident, and else that of the selected
  -- result or, without one, of the first result that is written. What a stream prints of a finite double
  -- is taken to be a number of JSON.
  pub search_json-print :
      (response : SearchResponse N) (decision : PolicyDecision N) (limit : ℕ) (explain : Bool)
      → search_json N P response decision limit explain []
        ≡ print (search_value response decision limit explain) newline
  unfolding search_json print json_string escape_json
  search_json-print response decision limit explain =
      let results = within limit response.results in
      let entry = entry_at_end decision.status decision.selected results in
      rw
        (
          limited_results-within N response limit,
          selected_entry-at_end decision results,
          status_name-text decision.status,
          query_type_name-text response.query.type,
          string_array-print,
          put_separated-print (json_result N P explain) (result_value explain)
              (result-print explain) results
              (codes "],\"entry\":" ++ json_selected N P entry (b'}' ∷ newline)),
          selected-print entry (b'}' ∷ newline),
        )
        refl
