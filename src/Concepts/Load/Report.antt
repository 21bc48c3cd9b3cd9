-- ===== src/Concepts/Load/Report.antt =====
-- The report that `ConceptDictionary::load` of src/concepts.cpp returns.
use howlinux.Base.{
  any-append, Bool, true, false, not, List, [], ◌∷◌, ◌++◌, ◌≡◌, refl, arith, Bytes, Bool-cases, inl,
  inr, ◌==◌,
}
use howlinux.Diagnostics.{Diagnostic, is_error, has_errors}
use howlinux.Yaml.{
  Node, undefined, mapping, Fields, Answer, answer, failed, Loaded, yaml_error, other_error,
  document,
}
use howlinux.Concepts.Dictionary.{ConceptDictionary}
use howlinux.Concepts.Groups.{ParsedConceptGroup, error_of, sort_groups}
use howlinux.Concepts.Load.{
  ConceptFile, concepts_keys, failure, built_diagnostics, build_dictionary, duplicate_error,
  concept_groups, load_concepts, load_root, load_document, load_existing, load_answered, load,
}

-- A dictionary is usable exactly if no error was reported, and holds phrases only if it is.
pub record IsReported (dictionary : ConceptDictionary) : Type 0 where
  pub usable : dictionary.report.usable ≡ not (has_errors dictionary.report.diagnostics)
  pub no_phrases : dictionary.report.usable ≡ false → dictionary.phrase_to_canonical ≡ []
  pub no_definitions : dictionary.report.usable ≡ false → dictionary.definitions ≡ []

failure-IsReported :
    (present : Bool) (before : List Diagnostic) (path name message : Bytes)
    → IsReported (failure present (before ++ error_of path name message ∷ []))
unfolding has_errors
failure-IsReported present before path name message = record {
  usable = ground (
    arith,
    any-append (λ (d : Diagnostic). is_error d.severity) before (error_of path name message ∷ []),
  );
  no_phrases = λ _. refl;
  no_definitions = λ _. refl;
}

build-IsReported :
    (path : Bytes) (diagnostics : List Diagnostic) (groups : List ParsedConceptGroup)
    → IsReported (build_dictionary path diagnostics groups)
unfolding build_dictionary
build-IsReported path diagnostics groups =
    elim (Bool-cases (has_errors (built_diagnostics path diagnostics groups))) [
      | inl e ↦ rw e (record { usable = rw e; no_phrases = λ _. refl; no_definitions = λ _. refl })
      | inr e ↦ rw e (record { usable = rw e; no_phrases = λ h. cc; no_definitions = λ h. cc })
    ]

load_concepts-IsReported :
    (path : Bytes) (duplicates : List Diagnostic) (node : Node)
    → IsReported (load_concepts path duplicates node)
unfolding load_concepts
load_concepts-IsReported path duplicates (mapping fields) =
    let state = concept_groups path duplicates fields in
    build-IsReported path state.diagnostics (sort_groups state.groups)
load_concepts-IsReported path duplicates _ = failure-IsReported true duplicates path [] _

load_root-IsReported : (path : Bytes) (root : Fields) → IsReported (load_root path root)
unfolding load_root
load_root-IsReported path root = elim (Bool-cases ((concepts_keys root (undefined, 0)).1 == 0)) [
  | inl e ↦ rw e (failure-IsReported true [] path [] _)
  | inr e ↦ rw e (
      load_concepts-IsReported path (duplicate_error path (concepts_keys root (undefined, 0)).1)
        (concepts_keys root (undefined, 0)).0)
]

load_document-IsReported : (path : Bytes) (loaded : Loaded) → IsReported (load_document path loaded)
unfolding load_document
load_document-IsReported path (yaml_error what) = failure-IsReported true [] path [] _
load_document-IsReported path (other_error what) = failure-IsReported true [] path [] _
load_document-IsReported path (document (mapping root)) = load_root-IsReported path root
load_document-IsReported path (document _) = failure-IsReported true [] path [] _

load_existing-IsReported :
    (path : Bytes) (kind : Answer Bool) (loaded : Loaded)
    → IsReported (load_existing path kind loaded)
unfolding load_existing
load_existing-IsReported path (failed message) loaded = failure-IsReported true [] path [] _
load_existing-IsReported path (answer false) loaded = failure-IsReported true [] path [] _
load_existing-IsReported path (answer true) loaded = load_document-IsReported path loaded

load_answered-IsReported :
    (exists : Answer Bool) (file : ConceptFile) → IsReported (load_answered exists file)
unfolding load_answered
load_answered-IsReported (failed message) file = failure-IsReported false [] file.path [] _
load_answered-IsReported (answer false) file = record {
  usable = unfold has_errors in refl;
  no_phrases = λ _. refl;
  no_definitions = λ _. refl;
}
load_answered-IsReported (answer true) file = load_existing-IsReported file.path _ file.loaded

-- However `load` ends, the dictionary is usable exactly if its report holds no error, and one that
-- is not usable has no phrases and no definitions.
pub load-IsReported : (file : ConceptFile) → IsReported (load file)
unfolding load
load-IsReported file = load_answered-IsReported file.exists file
