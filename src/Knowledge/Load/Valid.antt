-- ===== src/Knowledge/Load/Valid.antt =====
-- What `KnowledgeBase::load` of src/knowledge.cpp promises of the knowledge base and of its report.
use howlinux.Base.{
  ℕ, ◌+◌, true, false, not, List, [], ◌++◌, ◌≡◌, refl, sym, subst, ◌∙◌, arith, Option, none, some,
  Bytes, All, All-map, length,
}
use howlinux.Base.Sort.{sort_by, sort_by-All, length-sort_by}
use howlinux.Diagnostics.{Diagnostic, is_error, has_errors}
use howlinux.Files.{
  regular, directory, symlink, other, not_found, none_type, Status, has_type, missing, status_error,
  FileSystem,
}
use howlinux.Knowledge.{KnowledgeEntry}
use howlinux.Knowledge.Lookup.{find_by_id, rebuild_lookup, is_some, index_of_id-find_by_id}
use howlinux.Knowledge.Reported.{has_errors-append, split-append}
use howlinux.Knowledge.Sound.{IsComplete}
use howlinux.Knowledge.Ids.{id_before, IsAscending, sort_by-IsAscending, IsAscending-find_by_id}
use howlinux.Knowledge.Scan.{Walk, root_failed, walked, walk, find_candidates}
use howlinux.Knowledge.Load.{
  has_issues, KnowledgeBase, Candidates, no_candidates, add_candidates, all_related_warnings,
  unavailable, finish, load_walked, map_walk, load_root, load,
}
use howlinux.Knowledge.Load.State.{IsAfter, no_candidates-IsAfter, add_candidates-IsAfter}
use howlinux.Knowledge.Load.Warnings.{IsWarned, walk-IsWarned, all_related_warnings-warns}

pub record IsValid (base : KnowledgeBase) : Type 0 where
  pub ascending : IsAscending base.entries
  pub complete : All IsComplete base.entries
  pub found :
      All
        (λ (e : KnowledgeEntry). find_by_id base.entries base.id_lookup e.id ≡ some e)
        base.entries
  pub loaded : base.report.loaded_entries ≡ length base.entries
  pub counted :
      base.report.loaded_entries + base.report.skipped_entries ≡ base.report.discovered_entries
  pub errors : has_errors base.report.diagnostics ≡ not base.report.root_available
  pub unavailable' : base.report.root_available ≡ false → base.entries ≡ []

-- What a report without issues says.
pub record IsClean (base : KnowledgeBase) : Type 0 where
  pub available : base.report.root_available ≡ true
  pub nothing_skipped : base.report.skipped_entries ≡ 0
  pub related :
      All
        (λ (e : KnowledgeEntry).
          All (λ id. is_some (find_by_id base.entries base.id_lookup id) ≡ true) e.related)
        base.entries

unavailable-IsValid :
    (root : Bytes) (diagnostic : Diagnostic)
    → is_error diagnostic.severity ≡ true
    → IsValid (unavailable root diagnostic)
unfolding has_errors
unavailable-IsValid root diagnostic h = record {
  ascending = tt;
  complete = tt;
  found = tt;
  loaded = refl;
  counted = refl;
  errors = ground (arith, h);
  unavailable' = λ _. refl;
}

module _ (root : Bytes) (added : List Diagnostic) (n : ℕ) (state : Candidates) where
  finish-IsValid : has_errors added ≡ false → IsAfter n state → IsValid (finish root added n state)
  unfolding finish
  finish-IsValid h s =
      let entries = sort_by id_before state.loaded in
      let lookup = rebuild_lookup entries in
      let related = all_related_warnings lookup entries in
      let (warns, _) = all_related_warnings-warns lookup entries in
      let ascending = sort_by-IsAscending state.loaded s.distinct in
      record {
        ascending = ascending;
        complete = sort_by-All id_before IsComplete state.loaded s.complete;
        found = IsAscending-find_by_id entries ascending;
        loaded = refl;
        counted = omega (arith, s.counted, length-sort_by id_before state.loaded);
        errors =
            has_errors-append added (state.added ++ related)
            ∙ ground (arith, h, has_errors-append state.added related, s.all_warnings, warns);
        unavailable' = λ f. absurd (ground (arith, f));
      }

  finish-IsClean :
      IsAfter n state
      → has_issues (finish root added n state).report ≡ false
      → IsClean (finish root added n state)
  unfolding finish
  finish-IsClean s h =
      let entries = sort_by id_before state.loaded in
      let lookup = rebuild_lookup entries in
      let related = all_related_warnings lookup entries in
      let (_, known) = all_related_warnings-warns lookup entries in
      let (_, rest) = split-append added (state.added ++ related) (ground (arith, h)) in
      let (nothing, none_related) = split-append state.added related rest in
      record {
        available = refl;
        nothing_skipped = s.has_reason nothing;
        related =
            All-map
              (λ e r. All-map (λ id i. sym (index_of_id-find_by_id entries id) ∙ i) e.related r)
              entries (known none_related);
      }

-- What is proved of a run: a valid base, which is clean where its report has no issues.
abbrev IsLoaded : Option KnowledgeBase → Type 0
IsLoaded none = Unit
IsLoaded (some base) = IsValid base × (has_issues base.report ≡ false → IsClean base)

module _ (files : FileSystem) where
  unavailable-IsLoaded :
      (root : Bytes) (diagnostic : Diagnostic)
      → is_error diagnostic.severity ≡ true
      → IsLoaded (some (unavailable root diagnostic))
  unavailable-IsLoaded root diagnostic h =
      (unavailable-IsValid root diagnostic h, λ f. absurd (ground (arith, f)))

  map_walk-IsLoaded :
      (root : Bytes) (found : Option Walk)
      → IsWarned files found
      → IsLoaded (map_walk files root found)
  unfolding load_walked
  map_walk-IsLoaded root none h = tt
  map_walk-IsLoaded root (some (root_failed diagnostic)) h = unavailable-IsLoaded root diagnostic h
  map_walk-IsLoaded root (some (walked (added, directories))) h =
      let candidates = find_candidates files directories in
      let state = add_candidates files root no_candidates candidates in
      let s =
        subst (λ n. IsAfter n state) (omega arith)
          (add_candidates-IsAfter files root 0 no_candidates candidates no_candidates-IsAfter) in
      (
        finish-IsValid root added (length candidates) state h s,
        finish-IsClean root added (length candidates) state s,
      )

  load_root-IsLoaded :
      (fuel : ℕ) (root : Bytes) (status : Status) → IsLoaded (load_root files fuel root status)
  unfolding load_root
  load_root-IsLoaded fuel root (missing message) = unavailable-IsLoaded root _ refl
  load_root-IsLoaded fuel root (status_error message) = unavailable-IsLoaded root _ refl
  load_root-IsLoaded fuel root (has_type regular) = unavailable-IsLoaded root _ refl
  load_root-IsLoaded fuel root (has_type directory) =
      map_walk-IsLoaded root (walk files fuel root) (walk-IsWarned files fuel root)
  load_root-IsLoaded fuel root (has_type symlink) = unavailable-IsLoaded root _ refl
  load_root-IsLoaded fuel root (has_type other) = unavailable-IsLoaded root _ refl
  load_root-IsLoaded fuel root (has_type not_found) = unavailable-IsLoaded root _ refl
  load_root-IsLoaded fuel root (has_type none_type) = unavailable-IsLoaded root _ refl

load-IsLoaded : (files : FileSystem) (fuel : ℕ) (path : Bytes) → IsLoaded (load files fuel path)
unfolding load
load-IsLoaded files fuel path =
    load_root-IsLoaded files fuel (files.lexically_normal path)
      (files.status (files.lexically_normal path))

-- Whatever the files hold, a knowledge base that `KnowledgeBase::load` returns is valid: the identifiers
-- ascend strictly, each entry has an identifier, a title, a type and a content that are not blank and
-- is the one that `findById` finds, the report counts the entries, and those loaded and skipped make up
-- those discovered, it has an error exactly where the root is not available, and then no entry.
pub load-IsValid :
    (files : FileSystem) (fuel : ℕ) (path : Bytes) (base : KnowledgeBase)
    → load files fuel path ≡ some base
    → IsValid base
load-IsValid files fuel path base e =
    let (valid, _) = subst IsLoaded e (load-IsLoaded files fuel path) in valid

-- A load report without issues has an available root and skipped no entry, and `findById` finds every
-- related identifier of every entry.
pub load-IsClean :
    (files : FileSystem) (fuel : ℕ) (path : Bytes) (base : KnowledgeBase)
    → load files fuel path ≡ some base
    → has_issues base.report ≡ false
    → IsClean base
load-IsClean files fuel path base e h =
    let (_, clean) = subst IsLoaded e (load-IsLoaded files fuel path) in clean h
