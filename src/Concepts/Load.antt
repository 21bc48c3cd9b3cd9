-- ===== src/Concepts/Load.antt =====
-- `ConceptDictionary::load` of src/concepts.cpp. The file system's answers and the document that
-- yaml-cpp makes of the file are arguments.
pub mod Report
pub mod Order
pub mod Normal
pub mod Canonical
pub mod Acyclic
use howlinux.Base.{
  ℕ, zero, suc, ◌+◌, Bool, true, false, ◌||◌, not, List, [], ◌∷◌, ◌++◌, ◌≡◌, refl, Option, none,
  some, map, if◌then◌else◌, ltb, ◌==◌, Bytes, codes, contains, beq, blt, is_empty, length,
}
use howlinux.Base.Sort.{sort_by}
use howlinux.Diagnostics.{Diagnostic, has_errors}
use howlinux.Yaml.{
  Text, text, unreadable, Node, undefined, null, scalar, sequence, mapping, Nodes, Fields, done,
  field, Answer, answer, failed, Loaded, yaml_error, other_error, document,
}
use howlinux.Query.Tokens.{tokenize}
use howlinux.Concepts.Detect.{PhraseDefinition}
use howlinux.Concepts.Dictionary.{ConceptLoadReport, empty_report, Phrases, find, ConceptDictionary}
use howlinux.Concepts.Groups.{ParsedConceptGroup, error_of, GroupState, read_concepts, sort_groups}
use howlinux.Concepts.Cycles.{detect_cycles}

-- What the environment says of the file: `exists`, `is_regular_file` and `YAML::LoadFile`.
pub record ConceptFile : Type 0 where
  pub path : Bytes
  pub exists : Answer Bool
  pub is_regular_file : Answer Bool
  pub loaded : Loaded

-- The loop over the root: the last value of the key `concepts`, and how often it is a key.
unfoldable pub concepts_keys : Fields → Node × ℕ → Node × ℕ
concepts_keys done found = found
concepts_keys (field (scalar (text key)) value fields) (node, keys) =
    concepts_keys fields (if beq key (codes "concepts") then (value, keys + 1) else (node, keys))
concepts_keys (field _ value fields) found = concepts_keys fields found

-- `emplace`: a key that is there keeps its value. The last argument is what `find` says.
unfoldable pub emplace_found : Phrases → Bytes → Bytes → Option Bytes → Phrases
emplace_found phrases phrase canonical none = phrases ++ (phrase, canonical) ∷ []
emplace_found phrases phrase canonical (some other) = phrases

unfoldable pub emplace : Phrases → Bytes → Bytes → Phrases
unfolding emplace_found
emplace phrases phrase canonical = emplace_found phrases phrase canonical (find phrases phrase)

-- The first loop over the groups.
unfoldable pub canonical_phrases : List ParsedConceptGroup → Phrases → Phrases
unfolding emplace
canonical_phrases [] phrases = phrases
canonical_phrases (group ∷ groups) phrases =
    canonical_phrases groups (emplace phrases group.canonical group.canonical)

-- The state of the second loop: `phrases`, and the diagnostics.
pub record PhraseState : Type 0 where
  pub phrases : Phrases
  pub diagnostics : List Diagnostic

abbrev pub collision : Bytes → Bytes → Bytes → Bytes → Diagnostic
collision path canonical alias existing = error_of path canonical (
    codes "concept phrase collision for '"
    ++ (alias
        ++ (codes "': maps to both '"
            ++ (existing ++ (codes "' and '" ++ (canonical ++ codes "'"))))))

-- An alias that is not the name itself; the last argument is `phrases.find(alias)`.
unfoldable pub add_alias_phrase : Bytes → Bytes → Bytes → PhraseState → Option Bytes → PhraseState
add_alias_phrase path canonical alias state (some existing) = record state {
  diagnostics = state.diagnostics ++ collision path canonical alias existing ∷ [];
}
add_alias_phrase path canonical alias state none = record state {
  phrases = emplace state.phrases alias canonical;
}

-- One round of the loop over the aliases.
unfoldable pub next_alias : Bytes → Bytes → PhraseState → Bytes → PhraseState
unfolding add_alias_phrase
next_alias path canonical state alias =
    if beq alias canonical
    then state
    else add_alias_phrase path canonical alias state (find state.phrases alias)

unfoldable pub alias_phrases : Bytes → Bytes → List Bytes → PhraseState → PhraseState
unfolding next_alias
alias_phrases path canonical [] state = state
alias_phrases path canonical (alias ∷ aliases) state =
    alias_phrases path canonical aliases (next_alias path canonical state alias)

unfoldable pub group_phrases : Bytes → List ParsedConceptGroup → PhraseState → PhraseState
unfolding alias_phrases
group_phrases path [] state = state
group_phrases path (group ∷ groups) state =
    group_phrases path groups (alias_phrases path group.canonical group.aliases state)

-- The comparison of the definitions: longest first, then by phrase, then by name.
unfoldable pub definition_before : PhraseDefinition → PhraseDefinition → Bool
definition_before left right =
    if not (length left.tokens == length right.tokens)
    then ltb (length right.tokens) (length left.tokens)
    else if not (beq left.phrase right.phrase)
    then blt left.phrase right.phrase
    else blt left.canonical right.canonical

abbrev pub definition_of : Bytes × Bytes → PhraseDefinition
definition_of (phrase, canonical) = record {
  phrase = phrase;
  canonical = canonical;
  tokens = tokenize phrase true false;
}

unfoldable pub definitions_of : Phrases → List PhraseDefinition
unfolding definition_before
definitions_of phrases = sort_by definition_before (map definition_of phrases)

-- A dictionary that holds nothing but its report.
abbrev pub failure : Bool → List Diagnostic → ConceptDictionary
failure file_present diagnostics = record {
  phrase_to_canonical = [];
  definitions = [];
  report = record {
    file_present = file_present;
    usable = false;
    concepts_loaded = 0;
    diagnostics = diagnostics;
  };
}

-- `phrases` and the diagnostics behind the loops over the groups.
unfoldable pub phrase_state : Bytes → List Diagnostic → List ParsedConceptGroup → PhraseState
unfolding canonical_phrases group_phrases
phrase_state path diagnostics groups =
    group_phrases path groups
      (record { phrases = canonical_phrases groups []; diagnostics = diagnostics })

unfoldable pub built_diagnostics :
    Bytes → List Diagnostic → List ParsedConceptGroup → List Diagnostic
unfolding phrase_state detect_cycles emplace
built_diagnostics path diagnostics groups =
    (phrase_state path diagnostics groups).diagnostics ++ detect_cycles groups path

-- The end of `load`, from the groups on; the diagnostics are those so far.
unfoldable pub build_dictionary :
    Bytes → List Diagnostic → List ParsedConceptGroup → ConceptDictionary
unfolding built_diagnostics definitions_of has_errors
build_dictionary path diagnostics groups =
    if has_errors (built_diagnostics path diagnostics groups)
    then failure true (built_diagnostics path diagnostics groups)
    else record {
      phrase_to_canonical = (phrase_state path diagnostics groups).phrases;
      definitions = definitions_of (phrase_state path diagnostics groups).phrases;
      report = record {
        file_present = true;
        usable = true;
        concepts_loaded = length groups;
        diagnostics = built_diagnostics path diagnostics groups;
      };
    }

-- The groups of the mapping, with the diagnostics of reading them behind those so far.
unfoldable pub concept_groups : Bytes → List Diagnostic → Fields → GroupState
unfolding read_concepts
concept_groups path duplicates fields =
    read_concepts path fields
      (record { diagnostics = duplicates; groups = []; canonical_sources = [] })

-- The value of the key `concepts`; `duplicates` are the diagnostics so far.
unfoldable pub load_concepts : Bytes → List Diagnostic → Node → ConceptDictionary
unfolding concept_groups sort_groups build_dictionary
load_concepts path duplicates (mapping fields) =
    let state = concept_groups path duplicates fields in
    build_dictionary path state.diagnostics (sort_groups state.groups)
load_concepts path duplicates _ =
    failure true (duplicates ++ error_of path [] (codes "'concepts' must be a mapping") ∷ [])

unfoldable pub duplicate_error : Bytes → ℕ → List Diagnostic
duplicate_error path keys =
    if ltb 1 keys
    then error_of path [] (codes "duplicate 'concepts' definitions at the YAML root") ∷ []
    else []

-- The root mapping, read.
unfoldable pub load_root : Bytes → Fields → ConceptDictionary
unfolding concepts_keys load_concepts duplicate_error
load_root path root =
    let (concepts_node, keys) = concepts_keys root (undefined, 0) in
    if keys == 0
    then failure true
        (error_of path [] (codes "concepts YAML must contain a 'concepts' mapping") ∷ [])
    else load_concepts path (duplicate_error path keys) concepts_node

unfoldable pub load_document : Bytes → Loaded → ConceptDictionary
unfolding load_root
load_document path (yaml_error what) =
    failure true (error_of path [] (codes "cannot parse concepts YAML: " ++ what) ∷ [])
load_document path (other_error what) =
    failure true (error_of path [] (codes "cannot read concepts file: " ++ what) ∷ [])
load_document path (document (mapping root)) = load_root path root
load_document path (document _) =
    failure true (error_of path [] (codes "concepts YAML root must be a mapping") ∷ [])

-- A path that exists; the second argument is the answer of `is_regular_file`.
unfoldable pub load_existing : Bytes → Answer Bool → Loaded → ConceptDictionary
unfolding load_document
load_existing path (failed message) loaded =
    failure true (error_of path [] (codes "cannot inspect concepts file: " ++ message) ∷ [])
load_existing path (answer false) loaded =
    failure true (error_of path [] (codes "concepts path is not a regular file") ∷ [])
load_existing path (answer true) loaded = load_document path loaded

-- `load`, by the answer of `exists`.
unfoldable pub load_answered : Answer Bool → ConceptFile → ConceptDictionary
unfolding load_existing
load_answered (failed message) file =
    failure false (error_of file.path [] (codes "cannot inspect concepts file: " ++ message) ∷ [])
load_answered (answer false) file = record {
  phrase_to_canonical = [];
  definitions = [];
  report = empty_report;
}
load_answered (answer true) file = load_existing file.path file.is_regular_file file.loaded

-- `load`: the dictionary that it leaves; its report is what `load` returns.
unfoldable pub load : ConceptFile → ConceptDictionary
unfolding load_answered
load file = load_answered file.exists file
