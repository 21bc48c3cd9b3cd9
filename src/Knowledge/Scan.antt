-- ===== src/Knowledge/Scan.antt =====
-- The walk over the directories in `KnowledgeBase::load` of src/knowledge.cpp. A run has fuel, one for
-- each directory that is read.
pub mod Tree
use howlinux.Base.{
  ℕ, zero, suc, Bool, true, false, ◌||◌, List, [], ◌∷◌, ◌++◌, Option, none, some, map,
  if◌then◌else◌, Bytes, codes, beq, blt, filter,
}
use howlinux.Base.Sort.{sort_by}
use howlinux.Diagnostics.{Severity, warning, error, Diagnostic}
use howlinux.Files.{
  directory, symlink, not_found, none_type, Status, has_type, missing, status_error, Listing,
  unreadable_directory, listed, broken, FileSystem, join_path,
}
use howlinux.Knowledge.Reader.{metadata_filename, content_filename}

-- A diagnostic on a path without an entry.
abbrev pub path_diagnostic : Severity → Bytes → Bytes → Diagnostic
path_diagnostic severity path message = record {
  severity = severity;
  path = path;
  entry_id = [];
  message = message;
}

-- What a loop adds: to `report_.diagnostics` and to `directories`.
abbrev pub Visit : Type 0
Visit = List Diagnostic × List Bytes

abbrev pub then_visit : Visit → Visit → Visit
then_visit (added, found) (added', found') = (added ++ added', found ++ found')

-- A symbolic link, by the status of its target.
unfoldable pub visit_symlink : Bytes → Status → Visit
visit_symlink child (has_type directory) =
    (path_diagnostic warning child (codes "symbolic-link directory was not traversed") ∷ [], [])
visit_symlink child _ = ([], [])

abbrev cannot_inspect : Bytes → Bytes → Visit
cannot_inspect child message = (
  path_diagnostic warning child
        (codes "cannot inspect path while scanning knowledge root: " ++ message)
      ∷ [],
  [],
)

-- A child, by its `symlink_status`.
unfoldable pub visit_child : FileSystem → Bytes → Status → Visit
unfolding visit_symlink
visit_child files child (missing message) = cannot_inspect child message
visit_child files child (status_error message) = cannot_inspect child message
visit_child files child (has_type directory) = ([], child ∷ [])
visit_child files child (has_type symlink) = visit_symlink child (files.status child)
visit_child files child (has_type _) = ([], [])

unfoldable pub visit_children : FileSystem → List Bytes → Visit
visit_children files [] = ([], [])
visit_children files (child ∷ children) =
    then_visit (visit_child files child (files.symlink_status child))
      (visit_children files children)

-- The children in the order of their texts.
unfoldable pub visit_names : FileSystem → Bytes → List Bytes → Visit
unfolding visit_children
visit_names files current names = visit_children files (sort_by blt (map (join_path current) names))

abbrev cannot_read : Bytes → Bytes
cannot_read message = codes "cannot read directory: " ++ message

abbrev failed_reading : Bytes → Bytes
failed_reading message = codes "failed while reading directory: " ++ message

-- A directory behind the first one, by its listing.
unfoldable pub visit_listing : FileSystem → Bytes → Listing → Visit
unfolding visit_names
visit_listing files current (unreadable_directory message) =
    (path_diagnostic warning current (cannot_read message) ∷ [], [])
visit_listing files current (listed names) = visit_names files current names
visit_listing files current (broken names message) =
    then_visit (path_diagnostic warning current (failed_reading message) ∷ [], [])
      (visit_names files current names)

unfoldable pub visit : FileSystem → Bytes → Visit
unfolding visit_listing
visit files current = visit_listing files current (files.list_directory current)

abbrev pub add_visit : Visit → Option Visit → Option Visit
add_visit before none = none
add_visit before (some rest) = some (then_visit before rest)

-- The directories that are still to be read, in their order: those that are read, and the diagnostics.
-- Nothing, when the fuel is out.
unfoldable pub scan : FileSystem → ℕ → List Bytes → Option Visit
scan files fuel [] = some ([], [])
scan files zero (current ∷ pending) = none
scan files (suc fuel) (current ∷ pending) =
    let (added, found) = visit files current in
    add_visit (added, current ∷ []) (scan files fuel (pending ++ found))

-- The whole walk.
pub data Walk : Type 0 where
  root_failed : Diagnostic → Walk
  walked : Visit → Walk

-- The root, by its listing.
abbrev pub as_walk : Option Visit → Option Walk
as_walk none = none
as_walk (some found) = some (walked found)

unfoldable pub walk_listing : FileSystem → ℕ → Bytes → Listing → Option Walk
unfolding visit_names
walk_listing files fuel root (unreadable_directory message) =
    some (root_failed (path_diagnostic error root (cannot_read message)))
walk_listing files fuel root (broken names message) =
    some (root_failed (path_diagnostic error root (failed_reading message)))
walk_listing files fuel root (listed names) =
    let (added, found) = visit_names files root names in
    as_walk (add_visit (added, root ∷ []) (scan files fuel found))

unfoldable pub walk : FileSystem → ℕ → Bytes → Option Walk
unfolding walk_listing
walk files fuel root = walk_listing files fuel root (files.list_directory root)

-- `pathIsPresent`, by the answer of `symlink_status`.
unfoldable pub is_present : Status → Bool
is_present (missing message) = false
is_present (status_error message) = true
is_present (has_type not_found) = false
is_present (has_type none_type) = false
is_present (has_type type) = true

unfoldable pub is_candidate : FileSystem → Bytes → Bool
unfolding is_present
is_candidate files current =
    is_present (files.symlink_status (join_path current metadata_filename))
    || is_present (files.symlink_status (join_path current content_filename))

-- `std::unique` with `erase`.
unfoldable pub unique_after : Bytes → List Bytes → List Bytes
unique_after last [] = []
unique_after last (path ∷ paths) =
    let rest = path ∷ unique_after path paths in
    if beq last path then unique_after last paths else rest

unfoldable pub unique : List Bytes → List Bytes
unfolding unique_after
unique [] = []
unique (path ∷ paths) = path ∷ unique_after path paths

-- `candidates`
unfoldable pub find_candidates : FileSystem → List Bytes → List Bytes
unfolding is_candidate unique
find_candidates files directories = unique (sort_by blt (filter (is_candidate files) directories))
