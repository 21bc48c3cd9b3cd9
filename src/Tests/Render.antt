-- ===== src/Tests/Render.antt =====
-- The theorems on src/render.cpp and src/markdown.cpp at concrete inputs.
use howlinux.Base.{true, false, [], ◌∷◌, ◌++◌, ◌≡◌, refl, arith, inl, inr, none, some, codes}
use howlinux.Diagnostics.{Diagnostic, warning}
use howlinux.Concepts.Dictionary.{empty_report}
use howlinux.Knowledge.Lookup.{is_some}
use howlinux.Knowledge.Load.{KnowledgeBase, unavailable}
use howlinux.Knowledge.Lint.{KnowledgeLintReport, empty_lint}
use howlinux.Query.Processor.{process, new_processor}
use howlinux.Search.Score.{SearchResult, no_score}
use howlinux.Search.Engine.{SearchResponse}
use howlinux.Search.Policy.{PolicyDecision, confident}
use howlinux.Markdown.Blocks.{render_markdown}
use howlinux.Markdown.Blocks.Shown.{render_markdown-AreShown}
use howlinux.Markdown.Inline.Shown.{AreShown}
use howlinux.Render.Escape.{escape_json}
use howlinux.Render.Quoted.{read_json, encode_all}
use howlinux.Render.Quoted.RoundTrip.{read_json-escape_json}
use howlinux.Render.Number.{is_number}
use howlinux.Render.Any.Encoded.{IsUtf8, escape_json-IsUtf8}
use howlinux.Render.Json.{Printing}
use howlinux.Render.Json.Results.{search_json}
use howlinux.Render.Json.Values.{print}
use howlinux.Render.Json.Outputs.{newline}
use howlinux.Render.Json.Search.{IsPrinting, search_value, search_json-print}
use howlinux.Render.Human.{human_entry, list_text, validation_text, no_match_text}
use howlinux.Render.Human.Results.{suggestions_text, explain_text}
use howlinux.Render.Human.Safe.{human-is_shown}
use howlinux.Render.Human.Shown.{is_shown}
use howlinux.Tests.Search.{numbers, entry}

read_json-escape_json_example :
    read_json (escape_json (encode_all (b'"' ∷ 0x85 ∷ 0xE9 ∷ 0x2028 ∷ 0x1F600 ∷ [])))
    ≡ some (encode_all (b'"' ∷ 0x85 ∷ 0xE9 ∷ 0x2028 ∷ 0x1F600 ∷ []))
read_json-escape_json_example = read_json-escape_json (b'"' ∷ 0x85 ∷ 0xE9 ∷ 0x2028 ∷ 0x1F600 ∷ []) (
  inl (omega arith),
  (
    inl (omega arith),
    (inl (omega arith), (inl (omega arith), (inr (omega arith, omega arith), tt))),
  ),
)

escape_json-IsUtf8_example :
    IsUtf8 (escape_json (0xC3 ∷ b'"' ∷ 0xFF ∷ 27 ∷ []))
    × (is_some (read_json (escape_json (0xC3 ∷ b'"' ∷ 0xFF ∷ 27 ∷ []))) ≡ true)
escape_json-IsUtf8_example = escape_json-IsUtf8 (0xC3 ∷ b'"' ∷ 0xFF ∷ 27 ∷ [])

render_markdown-AreShown_example :
    AreShown (render_markdown false (codes "# a" ++ 27 ∷ 10 ∷ codes "*b*"))
render_markdown-AreShown_example = render_markdown-AreShown (codes "# a" ++ 27 ∷ 10 ∷ codes "*b*")

abbrev pub printing : Printing numbers
printing = record { is_finite = λ x. true; precise = λ x. codes "1" }

pub printing-IsPrinting : IsPrinting numbers printing
unfolding is_number
printing-IsPrinting = record { number' = λ value h. refl }

abbrev result : SearchResult numbers
result = record {
  entry = entry;
  score = 100;
  breakdown = no_score numbers;
  fuzzy_used = false;
  match_reasons = codes "title" ∷ [];
}

abbrev response : SearchResponse numbers
response = record { query = process (new_processor none []) (codes "cp"); results = result ∷ [] }

abbrev decision : PolicyDecision numbers
decision = record { status = confident; selected = some result }

search_json-print_example :
    search_json numbers printing response decision 5 true []
    ≡ print (search_value numbers printing printing-IsPrinting response decision 5 true) newline
search_json-print_example =
    search_json-print numbers printing printing-IsPrinting response decision 5 true

abbrev problem : Diagnostic
problem = record {
  severity = warning;
  path = codes "k";
  entry_id = codes "e";
  message = b'"' ∷ 27 ∷ [];
}

abbrev base : KnowledgeBase
base = unavailable (codes "k") problem

abbrev lint : KnowledgeLintReport
lint = record empty_lint { diagnostics = problem ∷ [] }

human-is_shown_example :
    (is_shown (human_entry false entry base false []) ≡ true)
    × (is_shown (suggestions_text numbers printing response 5 true []) ≡ true)
    × (is_shown (explain_text numbers printing response 5 []) ≡ true)
    × (is_shown (list_text base []) ≡ true)
    × (is_shown (validation_text base.report empty_report lint []) ≡ true)
    × (is_shown (no_match_text (27 ∷ []) []) ≡ true)
human-is_shown_example =
    human-is_shown numbers printing (λ x. tt) entry base response 5 true base.report empty_report
      lint (27 ∷ [])
