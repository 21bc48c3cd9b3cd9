-- ===== src/Concepts/Dictionary.antt =====
-- `ConceptDictionary` of include/concepts.hpp, and its lookups in src/concepts.cpp.
use howlinux.Base.{
  ℕ, Bool, true, false, ◌||◌, not, List, [], ◌∷◌, ◌≡◌, Option, none, some, if◌then◌else◌, Bytes,
  beq, is_empty,
}
use howlinux.Diagnostics.{Diagnostic}
use howlinux.Concepts.Detect.{PhraseDefinition, ConceptMatch}
use howlinux.Concepts.Detect
use howlinux.Query.Tokens.{tokenize, join_tokens}
use howlinux.Query.Tokens.RoundTrip.{tokenize-join_tokens}

-- `ConceptLoadReport`
pub record ConceptLoadReport : Type 0 where
  pub file_present : Bool
  pub usable : Bool
  pub concepts_loaded : ℕ
  pub diagnostics : List Diagnostic

abbrev pub empty_report : ConceptLoadReport
empty_report = record { file_present = false; usable = true; concepts_loaded = 0; diagnostics = [] }

-- `ConceptLoadReport::hasIssues`
unfoldable pub has_issues : ConceptLoadReport → Bool
has_issues report = not report.usable || not (is_empty report.diagnostics)

abbrev pub Phrases : Type 0
Phrases = List (Bytes × Bytes)

-- `find` of the map from phrases to canonical names.
unfoldable pub find : Phrases → Bytes → Option Bytes
find [] phrase = none
find ((key, canonical) ∷ phrases) phrase =
    if beq key phrase then some canonical else find phrases phrase

pub record ConceptDictionary : Type 0 where
  pub phrase_to_canonical : Phrases
  pub definitions : List PhraseDefinition
  pub report : ConceptLoadReport

abbrev pub empty_dictionary : ConceptDictionary
empty_dictionary = record { phrase_to_canonical = []; definitions = []; report = empty_report }

-- `empty`
unfoldable pub is_empty_dictionary : ConceptDictionary → Bool
is_empty_dictionary dictionary = is_empty dictionary.phrase_to_canonical

abbrev pub detect : ConceptDictionary → List Bytes → List ConceptMatch
detect dictionary ordered_tokens = Detect.detect dictionary.definitions ordered_tokens

-- `normalizePhrase`
unfoldable pub normalize_phrase : Bytes → Bytes
normalize_phrase phrase = join_tokens (tokenize phrase true false)

-- `canonicalForPhrase`
unfoldable pub canonical_for_phrase : ConceptDictionary → Bytes → Option Bytes
unfolding normalize_phrase find
canonical_for_phrase dictionary normalized_phrase =
    find dictionary.phrase_to_canonical (normalize_phrase normalized_phrase)

-- Normalising a phrase that is normalised changes nothing.
pub normalize_phrase_idem : (s : Bytes) → normalize_phrase (normalize_phrase s) ≡ normalize_phrase s
unfolding normalize_phrase
normalize_phrase_idem s = λ i. join_tokens (tokenize-join_tokens s true false i)
