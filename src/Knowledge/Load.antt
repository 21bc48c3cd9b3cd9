-- ===== src/Knowledge/Load.antt =====
-- `KnowledgeBase::load` of src/knowledge.cpp, and the records of include/knowledge.hpp.
pub mod Ends
pub mod State
pub mod Warnings
pub mod Valid
use howlinux.Base.{
  ℕ, zero, suc, ◌+◌, Bool, true, false, not, ◌||◌, List, [], ◌∷◌, ◌++◌, Option, none, some, map,
  if◌then◌else◌, Bytes, codes, beq, blt, length, is_empty, filter,
}
use howlinux.Base.Sort.{sort_by}
use howlinux.Diagnostics.{Severity, warning, error, Diagnostic}
use howlinux.Files.{
  FileType, directory, not_found, none_type, Status, has_type, missing, status_error, FileSystem,
}
use howlinux.Knowledge.{KnowledgeEntry}
use howlinux.Knowledge.Lookup.{IdLookup, index_of_id, rebuild_lookup}
use howlinux.Knowledge.Reader.{warn}
use howlinux.Knowledge.Metadata.{metadata_path, candidate_id}
use howlinux.Knowledge.Entry.{Loading, load_entry}
use howlinux.Knowledge.Ids.{id_before}
use howlinux.Knowledge.Scan.{
  Visit, path_diagnostic, Walk, root_failed, walked, walk, find_candidates,
}

-- `KnowledgeLoadReport`
pub record KnowledgeLoadReport : Type 0 where
  pub root_available : Bool
  pub discovered_entries : ℕ
  pub loaded_entries : ℕ
  pub skipped_entries : ℕ
  pub diagnostics : List Diagnostic

-- `KnowledgeLoadReport::hasIssues`
abbrev pub has_issues : KnowledgeLoadReport → Bool
has_issues report = not (is_empty report.diagnostics)

-- `KnowledgeBase`
pub record KnowledgeBase : Type 0 where
  pub root : Bytes
  pub entries : List KnowledgeEntry
  pub id_lookup : IdLookup
  pub report : KnowledgeLoadReport

-- `relativeComponents`
unfoldable pub relative_components : FileSystem → Bytes → Bytes → List Bytes
relative_components files path root =
    filter (λ component. not (beq component (codes ".") || is_empty component))
      (files.lexically_relative path root)

-- What the loop over the candidates changes: the diagnostics that it adds, the entries that it skips and
-- the entries in the order in which they are loaded, and `first_source_by_id`.
pub record Candidates : Type 0 where
  pub added : List Diagnostic
  pub skipped : ℕ
  pub loaded : List KnowledgeEntry
  pub first_source_by_id : List (Bytes × Bytes)

abbrev pub no_candidates : Candidates
no_candidates = record { added = []; skipped = 0; loaded = []; first_source_by_id = [] }

-- `++report_.skipped_entries`, with the diagnostics.
abbrev pub skip : List Diagnostic → Candidates → Candidates
skip added state = record state { added = state.added ++ added; skipped = state.skipped + 1 }

-- `find` of `first_source_by_id`
unfoldable pub first_source : List (Bytes × Bytes) → Bytes → Option Bytes
first_source [] id = none
first_source ((key, source) ∷ sources) id =
    if beq key id then some source else first_source sources id

-- An entry, by what `first_source_by_id` holds at its identifier.
unfoldable pub insert_entry :
    Candidates → List Diagnostic → KnowledgeEntry → Option Bytes → Candidates
insert_entry state added entry (some source) =
    skip
      (added
        ++ (warn (metadata_path entry.source_directory) entry.id (
              codes "duplicate id; the entry at '"
              ++ (source ++ codes "' was loaded first, so this entry was skipped"))
            ∷ []))
      state
insert_entry state added entry none = record state {
  added = state.added ++ added;
  loaded = state.loaded ++ entry ∷ [];
  first_source_by_id = (entry.id, entry.source_directory) ∷ state.first_source_by_id;
}

-- What `loadEntry` returned.
unfoldable pub add_loaded : Candidates → Loading → Candidates
unfolding first_source insert_entry
add_loaded state (added, none) = skip added state
add_loaded state (added, some entry) =
    insert_entry state added entry (first_source state.first_source_by_id entry.id)

-- The body of the loop, by the components of the path.
unfoldable pub add_below : FileSystem → Candidates → Bytes → List Bytes → Candidates
unfolding add_loaded
add_below files state entry_directory (category ∷ name ∷ components) =
    add_loaded state (load_entry files entry_directory category)
add_below files state entry_directory _ =
    skip
      (warn entry_directory (candidate_id entry_directory)
          (codes "entry must be stored below a category directory")
        ∷ [])
      state

unfoldable pub add_candidates : FileSystem → Bytes → Candidates → List Bytes → Candidates
unfolding add_below relative_components
add_candidates files root state [] = state
add_candidates files root state (entry_directory ∷ candidates) =
    add_candidates files root
      (add_below files state entry_directory (relative_components files entry_directory root))
      candidates

-- A related identifier, by what `id_lookup_` holds there.
abbrev pub related_warning : KnowledgeEntry → Bytes → Option ℕ → List Diagnostic
related_warning entry related_id (some index) = []
related_warning entry related_id none =
    warn (metadata_path entry.source_directory) entry.id
      (codes "related id '" ++ (related_id ++ codes "' does not refer to a loaded entry"))
    ∷ []

unfoldable pub related_warnings : IdLookup → KnowledgeEntry → List Bytes → List Diagnostic
related_warnings lookup entry [] = []
related_warnings lookup entry (related_id ∷ related) =
    related_warning entry related_id (index_of_id lookup related_id)
    ++ related_warnings lookup entry related

unfoldable pub all_related_warnings : IdLookup → List KnowledgeEntry → List Diagnostic
unfolding related_warnings
all_related_warnings lookup [] = []
all_related_warnings lookup (entry ∷ entries) =
    related_warnings lookup entry entry.related ++ all_related_warnings lookup entries

-- `return report_` where the root cannot be read.
abbrev pub unavailable : Bytes → Diagnostic → KnowledgeBase
unavailable root diagnostic = record {
  root = root;
  entries = [];
  id_lookup = [];
  report = record {
    root_available = false;
    discovered_entries = 0;
    loaded_entries = 0;
    skipped_entries = 0;
    diagnostics = diagnostic ∷ [];
  };
}

-- Behind the loop over the candidates.
unfoldable pub finish : Bytes → List Diagnostic → ℕ → Candidates → KnowledgeBase
unfolding all_related_warnings rebuild_lookup
finish root added discovered state =
    let entries = sort_by id_before state.loaded in
    let lookup = rebuild_lookup entries in
    record {
      root = root;
      entries = entries;
      id_lookup = lookup;
      report = record {
        root_available = true;
        discovered_entries = discovered;
        loaded_entries = length entries;
        skipped_entries = state.skipped;
        diagnostics = added ++ (state.added ++ all_related_warnings lookup entries);
      };
    }

unfoldable pub load_walked : FileSystem → Bytes → Walk → KnowledgeBase
unfolding finish add_candidates find_candidates
load_walked files root (root_failed diagnostic) = unavailable root diagnostic
load_walked files root (walked (added, directories)) =
    let candidates = find_candidates files directories in
    finish root added (length candidates) (add_candidates files root no_candidates candidates)

abbrev pub map_walk : FileSystem → Bytes → Option Walk → Option KnowledgeBase
map_walk files root none = none
map_walk files root (some walk') = some (load_walked files root walk')

abbrev pub root_unavailable : Bytes → Bytes → Option KnowledgeBase
root_unavailable root message = some (unavailable root (path_diagnostic error root message))

-- The root, by its status.
unfoldable pub load_root : FileSystem → ℕ → Bytes → Status → Option KnowledgeBase
unfolding load_walked walk
load_root files fuel root (missing message) =
    root_unavailable root (codes "knowledge root does not exist")
load_root files fuel root (status_error message) =
    root_unavailable root (codes "cannot inspect knowledge root: " ++ message)
load_root files fuel root (has_type not_found) =
    root_unavailable root (codes "knowledge root does not exist")
load_root files fuel root (has_type none_type) =
    root_unavailable root (codes "knowledge root does not exist")
load_root files fuel root (has_type directory) = map_walk files root (walk files fuel root)
load_root files fuel root (has_type type) =
    root_unavailable root (codes "knowledge root is not a directory")

-- `load`; nothing, when the fuel of the walk is out.
unfoldable pub load : FileSystem → ℕ → Bytes → Option KnowledgeBase
unfolding load_root
load files fuel directory' =
    let root = files.lexically_normal directory' in load_root files fuel root (files.status root)
