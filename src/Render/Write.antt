-- ===== src/Render/Write.antt =====
-- The writers of src/render.cpp that its operations share. A writer puts its text in front of what is
-- written after it.
use howlinux.Base.{
  ℕ, ◌+◌, Bool, ◌||◌, not, List, [], ◌∷◌, ◌++◌, Option, none, some, if◌then◌else◌, Bytes, codes,
  beq, blt, ltb, ◌==◌, take, length, is_empty,
}
use howlinux.Base.Numbers.{to_string}
use howlinux.Base.Sort.{sort_by}
use howlinux.Diagnostics.{Severity, warning, error}
use howlinux.Concepts.Dictionary.{ConceptLoadReport}
use howlinux.Knowledge.{KnowledgeEntry}
use howlinux.Knowledge.Lookup.{find_by_id}
use howlinux.Knowledge.Load.{KnowledgeLoadReport, KnowledgeBase}
use howlinux.Knowledge.Lint.{KnowledgeLintReport, lint_issues}
use howlinux.Search.Doubles.{Doubles}
use howlinux.Search.Score.{SearchResult}
use howlinux.Search.Engine.{SearchResponse}
use howlinux.Render.Escape.{human_safe}

abbrev pub Writer : Type 0
Writer = Bytes → Bytes

infixr 20 ◌<<◌
abbrev pub ◌<<◌ : Writer → Writer → Writer
first << second = λ rest. first (second rest)

-- The bytes as they are.
abbrev pub put : Bytes → Writer
put bytes = λ rest. bytes ++ rest

abbrev pub put_byte : ℕ → Writer
put_byte byte = λ rest. byte ∷ rest

abbrev pub nothing : Writer
nothing = λ rest. rest

-- A loop over the values.
abbrev pub put_each : {A : Type 0} → (A → Writer) → List A → Writer
put_each write [] = nothing
put_each write (x ∷ xs) = write x << put_each write xs

-- A loop that writes a separator in front of every value but the first.
abbrev pub put_separated : {A : Type 0} → Writer → (A → Writer) → List A → Writer
put_separated separator write [] = nothing
put_separated separator write (x ∷ xs) = write x << put_each (λ y. separator << write y) xs

-- A loop with the index of the value, from this index on.
abbrev pub put_indexed : {A : Type 0} → ℕ → (ℕ → A → Writer) → List A → Writer
put_indexed index write [] = nothing
put_indexed index write (x ∷ xs) = write index x << put_indexed (index + 1) write xs

abbrev pub put_safe : Bytes → Writer
put_safe value = put (human_safe value)

abbrev pub put_number : ℕ → Writer
put_number n = put (to_string n)

-- `joinedHuman`
unfoldable pub joined_human : List Bytes → Bytes → Writer
unfolding human_safe
joined_human [] empty_label = put empty_label
joined_human (value ∷ values) empty_label =
    put_separated (put (codes ", ")) put_safe (value ∷ values)

abbrev pub related_label : Bytes → Option KnowledgeEntry → Writer
related_label id none = put_safe id
related_label id (some related) =
    if is_empty related.title
    then put_safe id
    else put_safe related.title << put (codes " (") << put_safe related.id << put (codes ")")

-- `relatedLabel`
unfoldable pub put_related : KnowledgeBase → Bytes → Writer
unfolding human_safe find_by_id
put_related knowledge id = related_label id (find_by_id knowledge.entries knowledge.id_lookup id)

-- The comparison of `sortedEntries`
unfoldable pub entry_before : KnowledgeEntry → KnowledgeEntry → Bool
entry_before left right =
    if not (beq left.id right.id)
    then blt left.id right.id
    else if not (beq left.title right.title)
    then blt left.title right.title
    else if not (beq left.category right.category)
    then blt left.category right.category
    else blt left.source_directory right.source_directory

-- `sortedEntries`
unfoldable pub sorted_entries : KnowledgeBase → List KnowledgeEntry
unfolding entry_before
sorted_entries knowledge = sort_by entry_before knowledge.entries

-- `severityName`
abbrev pub severity_name : Severity → Bytes
severity_name warning = codes "warning"
severity_name error = codes "error"

-- `hasValidationIssues`
unfoldable pub has_validation_issues :
    KnowledgeLoadReport → ConceptLoadReport → KnowledgeLintReport → Bool
has_validation_issues knowledge_report concept_report lint_report =
    not knowledge_report.root_available
    || not (knowledge_report.skipped_entries == 0)
    || not (is_empty knowledge_report.diagnostics)
    || not concept_report.usable
    || not (is_empty concept_report.diagnostics)
    || lint_issues lint_report

-- `validation_status`
unfoldable pub validation_status :
    KnowledgeLoadReport → ConceptLoadReport → KnowledgeLintReport → Bytes
unfolding has_validation_issues
validation_status knowledge_report concept_report lint_report =
    if not knowledge_report.root_available
    then codes "error"
    else if has_validation_issues knowledge_report concept_report lint_report
    then codes "invalid"
    else codes "valid"

-- `limitedResults`; a result's entry is there.
unfoldable pub limited_results : (N : Doubles) → SearchResponse N → ℕ → List (SearchResult N)
limited_results N response limit =
    take
      (if limit == 0
        then length response.results
        else if ltb (length response.results) limit
        then length response.results
        else limit)
      response.results
