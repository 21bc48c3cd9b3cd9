-- ===== src/Concepts/Load/Canonical/Dictionary.antt =====
-- What every dictionary that `ConceptDictionary::load` of src/concepts.cpp makes satisfies, and what
-- `detect` and `canonicalForPhrase` then return.
use howlinux.Base.{
  Bool, true, false, List, [], ◌∷◌, ◌≡◌, refl, sym, subst, some, map, Bytes, Bool-cases, inl, inr,
  ◌==◌, All, All-map,
}
use howlinux.Base.Sort.{sort_by-All}
use howlinux.Diagnostics.{Diagnostic, has_errors}
use howlinux.Yaml.{Node, undefined, mapping, Fields, Answer, answer, failed, Loaded, document}
use howlinux.Concepts.Detect.{PhraseDefinition}
use howlinux.Concepts.Detect.Laws.{HasTokens}
use howlinux.Concepts.Detect.Longest.{LongestFirst, Reports, Follow, detect_longest}
use howlinux.Concepts.Dictionary.{Phrases, ConceptDictionary, detect, canonical_for_phrase}
use howlinux.Concepts.Groups.{ParsedConceptGroup, sort_groups}
use howlinux.Concepts.Load.{
  ConceptFile, concepts_keys, phrase_state, built_diagnostics, build_dictionary, duplicate_error,
  concept_groups, load_concepts, load_root, load_document, load_existing, load_answered, load,
  definition_of, definitions_of, definition_before,
}
use howlinux.Concepts.Load.Order.{definitions_of-order}
use howlinux.Concepts.Load.Normal.{IsNormalGroup, sorted_groups-normal}
use howlinux.Concepts.Load.Canonical.{IsEntry}
use howlinux.Concepts.Load.Canonical.Aliases.{phrase_state-AreEntries}

-- The lookups of a dictionary agree on a definition: its phrase has its name, and so has its name.
pub record IsResolved (dictionary : ConceptDictionary) (d : PhraseDefinition) : Type 0 where
  pub phrase : canonical_for_phrase dictionary d.phrase ≡ some d.canonical
  pub name : canonical_for_phrase dictionary d.canonical ≡ some d.canonical

pub record IsSound (dictionary : ConceptDictionary) : Type 0 where
  pub has_tokens : HasTokens dictionary.definitions
  pub longest_first : LongestFirst dictionary.definitions
  pub resolved : All (IsResolved dictionary) dictionary.definitions

entry-IsResolved :
    (dictionary : ConceptDictionary) (entry : Bytes × Bytes)
    → IsEntry dictionary.phrase_to_canonical entry
    → IsResolved dictionary (definition_of entry)
unfolding canonical_for_phrase
entry-IsResolved dictionary entry e = record {
  phrase = rw e.phrase_normal.normal e.found;
  name = rw e.name_normal.normal e.name_found;
}

definitions-IsResolved :
    (dictionary : ConceptDictionary) (phrases : Phrases)
    → All (IsEntry dictionary.phrase_to_canonical) phrases
    → All (IsResolved dictionary) (definitions_of phrases)
unfolding definitions_of
definitions-IsResolved dictionary phrases h =
    sort_by-All definition_before (IsResolved dictionary) _ (each phrases h)
  where
    each :
        (ps : Phrases)
        → All (IsEntry dictionary.phrase_to_canonical) ps
        → All (IsResolved dictionary) (map definition_of ps)
    each [] k = tt
    each (p ∷ ps) (e, k) = (entry-IsResolved dictionary p e, each ps k)

build-IsSound :
    (path : Bytes) (diagnostics : List Diagnostic) (groups : List ParsedConceptGroup)
    → All IsNormalGroup groups
    → IsSound (build_dictionary path diagnostics groups)
unfolding build_dictionary
build-IsSound path diagnostics groups n =
    let entries = phrase_state-AreEntries path diagnostics groups n in
    let phrases = (phrase_state path diagnostics groups).phrases in
    let order =
      definitions_of-order phrases
        (All-map (λ p (e : IsEntry phrases p). e.phrase_normal) phrases entries) in
    elim (Bool-cases (has_errors (built_diagnostics path diagnostics groups))) [
      | inl e ↦ rw e (record { has_tokens = tt; longest_first = tt; resolved = tt })
      | inr e ↦ rw e (record {
        has_tokens = order.0;
        longest_first = order.1;
        resolved = definitions-IsResolved _ phrases entries;
      })
    ]

-- A dictionary with nothing in it.
abbrev IsBare : ConceptDictionary → Type 0
IsBare dictionary = dictionary.definitions ≡ []

bare-IsSound : (dictionary : ConceptDictionary) → IsBare dictionary → IsSound dictionary
bare-IsSound dictionary e = record {
  has_tokens = rw e tt;
  longest_first = rw e tt;
  resolved = subst (λ ds. All (IsResolved dictionary) ds) (sym e) tt;
}

load_concepts-IsSound :
    (path : Bytes) (duplicates : List Diagnostic) (node : Node)
    → IsSound (load_concepts path duplicates node)
unfolding load_concepts
load_concepts-IsSound path duplicates (mapping fields) =
    let state = concept_groups path duplicates fields in
    build-IsSound path state.diagnostics (sort_groups state.groups)
      (sorted_groups-normal path duplicates fields)
load_concepts-IsSound path duplicates _ = bare-IsSound _ refl

load_root-IsSound : (path : Bytes) (root : Fields) → IsSound (load_root path root)
unfolding load_root
load_root-IsSound path root = elim (Bool-cases ((concepts_keys root (undefined, 0)).1 == 0)) [
  | inl e ↦ rw e (bare-IsSound _ refl)
  | inr e ↦ rw e (
      load_concepts-IsSound path (duplicate_error path (concepts_keys root (undefined, 0)).1)
        (concepts_keys root (undefined, 0)).0)
]

load_document-IsSound : (path : Bytes) (loaded : Loaded) → IsSound (load_document path loaded)
unfolding load_document
load_document-IsSound path (document (mapping root)) = load_root-IsSound path root
load_document-IsSound path (document _) = bare-IsSound _ refl
load_document-IsSound path _ = bare-IsSound _ refl

load_existing-IsSound :
    (path : Bytes) (kind : Answer Bool) (loaded : Loaded) → IsSound (load_existing path kind loaded)
unfolding load_existing
load_existing-IsSound path (answer true) loaded = load_document-IsSound path loaded
load_existing-IsSound path (answer false) loaded = bare-IsSound _ refl
load_existing-IsSound path (failed message) loaded = bare-IsSound _ refl

load_answered-IsSound :
    (exists : Answer Bool) (file : ConceptFile) → IsSound (load_answered exists file)
unfolding load_answered
load_answered-IsSound (answer true) file = load_existing-IsSound file.path _ file.loaded
load_answered-IsSound (answer false) file = bare-IsSound _ refl
load_answered-IsSound (failed message) file = bare-IsSound _ refl

-- Whatever file `load` reads, valid or not: the definitions stand longest first, each has a token,
-- and `canonicalForPhrase` gives the name of a definition both for its phrase and for that name.
pub load-IsSound : (file : ConceptFile) → IsSound (load file)
unfolding load
load-IsSound file = load_answered-IsSound file.exists file

-- `detect` of a dictionary that `load` made: every match stands in the tokens at its offset and is
-- the longest one there, and the matches follow one another without overlap.
pub load-detect :
    (file : ConceptFile) (tokens : List Bytes)
    → All (Reports (load file).definitions tokens) (detect (load file) tokens)
      × Follow 0 (detect (load file) tokens)
load-detect file tokens =
    let sound = load-IsSound file in
    detect_longest (load file).definitions tokens sound.has_tokens sound.longest_first
