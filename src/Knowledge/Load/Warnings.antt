-- ===== src/Knowledge/Load/Warnings.antt =====
-- The walk and the check of the related identifiers in `KnowledgeBase::load` of src/knowledge.cpp add
-- only warnings.
use howlinux.Base.{
  ℕ, zero, suc, true, false, List, [], ◌∷◌, ◌++◌, map, ◌≡◌, refl, ◌∙◌, arith, Option, none, some,
  Bytes, blt, All, is_empty, &&-eq-true, sym,
}
use howlinux.Base.Sort.{sort_by}
use howlinux.Diagnostics.{is_error, has_errors}
use howlinux.Files.{
  regular, directory, symlink, other, not_found, none_type, Status, has_type, missing, status_error,
  Listing, unreadable_directory, listed, broken, FileSystem, join_path,
}
use howlinux.Knowledge.{KnowledgeEntry}
use howlinux.Knowledge.Lookup.{IdLookup, index_of_id, is_some}
use howlinux.Knowledge.Reported.{has_errors-append, is_empty-append}
use howlinux.Knowledge.Scan.{
  Visit, then_visit, visit_symlink, visit_child, visit_children, visit_names, visit_listing, visit,
  add_visit, scan, Walk, root_failed, walked, as_walk, walk_listing, walk,
}
use howlinux.Knowledge.Load.{related_warning, related_warnings, all_related_warnings}

abbrev OnlyWarns : Visit → Type 0
OnlyWarns (added, found) = has_errors added ≡ false

then_visit-warns : (v w : Visit) → OnlyWarns v → OnlyWarns w → OnlyWarns (then_visit v w)
then_visit-warns (added, found) (added', found') h k =
    has_errors-append added added' ∙ ground (arith, h, k)

visit_symlink-warns : (child : Bytes) (status : Status) → OnlyWarns (visit_symlink child status)
unfolding visit_symlink has_errors
visit_symlink-warns child (missing message) = refl
visit_symlink-warns child (status_error message) = refl
visit_symlink-warns child (has_type regular) = refl
visit_symlink-warns child (has_type directory) = refl
visit_symlink-warns child (has_type symlink) = refl
visit_symlink-warns child (has_type other) = refl
visit_symlink-warns child (has_type not_found) = refl
visit_symlink-warns child (has_type none_type) = refl

module _ (files : FileSystem) where
  visit_child-warns : (child : Bytes) (status : Status) → OnlyWarns (visit_child files child status)
  unfolding visit_child has_errors
  visit_child-warns child (missing message) = refl
  visit_child-warns child (status_error message) = refl
  visit_child-warns child (has_type regular) = refl
  visit_child-warns child (has_type directory) = refl
  visit_child-warns child (has_type symlink) = visit_symlink-warns child (files.status child)
  visit_child-warns child (has_type other) = refl
  visit_child-warns child (has_type not_found) = refl
  visit_child-warns child (has_type none_type) = refl

  visit_children-warns : (children : List Bytes) → OnlyWarns (visit_children files children)
  unfolding visit_children has_errors
  visit_children-warns [] = refl
  visit_children-warns (child ∷ children) =
      then_visit-warns (visit_child files child (files.symlink_status child))
        (visit_children files children) (visit_child-warns child (files.symlink_status child))
        (visit_children-warns children)

  visit_names-warns :
      (current : Bytes) (names : List Bytes) → OnlyWarns (visit_names files current names)
  unfolding visit_names
  visit_names-warns current names =
      visit_children-warns (sort_by blt (map (join_path current) names))

  visit_listing-warns :
      (current : Bytes) (listing : Listing) → OnlyWarns (visit_listing files current listing)
  unfolding visit_listing has_errors
  visit_listing-warns current (unreadable_directory message) = refl
  visit_listing-warns current (listed names) = visit_names-warns current names
  visit_listing-warns current (broken names message) = visit_names-warns current names

  abbrev WalkWarns : Option Visit → Type 0
  WalkWarns none = Unit
  WalkWarns (some found) = OnlyWarns found

  add_visit-warns :
      (before : Visit) (rest : Option Visit)
      → OnlyWarns before
      → WalkWarns rest
      → WalkWarns (add_visit before rest)
  add_visit-warns before none h k = tt
  add_visit-warns before (some rest) h k = then_visit-warns before rest h k

  scan-warns : (fuel : ℕ) (pending : List Bytes) → WalkWarns (scan files fuel pending)
  unfolding scan visit has_errors
  scan-warns fuel [] = refl
  scan-warns zero (current ∷ pending) = tt
  scan-warns (suc fuel) (current ∷ pending) =
      let (added, found) = visit files current in
      add_visit-warns (added, current ∷ []) (scan files fuel (pending ++ found))
        (visit_listing-warns current (files.list_directory current))
        (scan-warns fuel (pending ++ found))

  -- A root that cannot be read is an error; else there are only warnings.
  abbrev pub IsWarned : Option Walk → Type 0
  IsWarned none = Unit
  IsWarned (some (root_failed diagnostic)) = is_error diagnostic.severity ≡ true
  IsWarned (some (walked (added, found))) = has_errors added ≡ false

  as_walk-IsWarned : (found : Option Visit) → WalkWarns found → IsWarned (as_walk found)
  as_walk-IsWarned none h = tt
  as_walk-IsWarned (some found) h = h

  walk_listing-IsWarned :
      (fuel : ℕ) (root : Bytes) (listing : Listing)
      → IsWarned (walk_listing files fuel root listing)
  unfolding walk_listing
  walk_listing-IsWarned fuel root (unreadable_directory message) = refl
  walk_listing-IsWarned fuel root (broken names message) = refl
  walk_listing-IsWarned fuel root (listed names) =
      let (added, found) = visit_names files root names in
      as_walk-IsWarned (add_visit (added, root ∷ []) (scan files fuel found)) (
        add_visit-warns (added, root ∷ []) (scan files fuel found) (visit_names-warns root names)
          (scan-warns fuel found))

  pub walk-IsWarned : (fuel : ℕ) (root : Bytes) → IsWarned (walk files fuel root)
  unfolding walk
  walk-IsWarned fuel root = walk_listing-IsWarned fuel root (files.list_directory root)

module _ (lookup : IdLookup) where
  -- The related identifiers that the map has.
  abbrev pub AreRelated : KnowledgeEntry → Type 0
  AreRelated entry = All (λ id. is_some (index_of_id lookup id) ≡ true) entry.related

  related_warning-warns :
      (entry : KnowledgeEntry) (id : Bytes) (index : Option ℕ)
      → (has_errors (related_warning entry id index) ≡ false)
        × (is_empty (related_warning entry id index) ≡ true → is_some index ≡ true)
  unfolding has_errors
  related_warning-warns entry id none = (refl, λ h. h)
  related_warning-warns entry id (some index) = (refl, λ h. refl)

  related_warnings-warns :
      (entry : KnowledgeEntry) (related : List Bytes)
      → (has_errors (related_warnings lookup entry related) ≡ false)
        × (is_empty (related_warnings lookup entry related) ≡ true
            → All (λ id. is_some (index_of_id lookup id) ≡ true) related)
  unfolding related_warnings has_errors
  related_warnings-warns entry [] = (refl, λ h. tt)
  related_warnings-warns entry (id ∷ related) =
      let first = related_warning entry id (index_of_id lookup id) in
      let others = related_warnings lookup entry related in
      let (warns, known) = related_warning-warns entry id (index_of_id lookup id) in
      let (rest_warns, rest_known) = related_warnings-warns entry related in
      (
        has_errors-append first others ∙ ground (arith, warns, rest_warns),
        λ h.
            let (a, b) =
              &&-eq-true (is_empty first) (is_empty others)
                (sym (is_empty-append first others) ∙ h) in
            (known a, rest_known b),
      )

  pub all_related_warnings-warns :
      (entries : List KnowledgeEntry)
      → (has_errors (all_related_warnings lookup entries) ≡ false)
        × (is_empty (all_related_warnings lookup entries) ≡ true → All AreRelated entries)
  unfolding all_related_warnings has_errors
  all_related_warnings-warns [] = (refl, λ h. tt)
  all_related_warnings-warns (entry ∷ entries) =
      let first = related_warnings lookup entry entry.related in
      let others = all_related_warnings lookup entries in
      let (warns, known) = related_warnings-warns entry entry.related in
      let (rest_warns, rest_known) = all_related_warnings-warns entries in
      (
        has_errors-append first others ∙ ground (arith, warns, rest_warns),
        λ h.
            let (a, b) =
              &&-eq-true (is_empty first) (is_empty others)
                (sym (is_empty-append first others) ∙ h) in
            (known a, rest_known b),
      )
