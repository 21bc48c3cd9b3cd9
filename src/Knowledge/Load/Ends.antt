-- ===== src/Knowledge/Load/Ends.antt =====
-- `KnowledgeBase::load` of src/knowledge.cpp ends on every finite tree of directories.
use howlinux.Base.{
  ℕ, zero, suc, ◌≤◌, map, List, [], ◌∷◌, ◌++◌, ◌≡◌, refl, ap, subst, arith, some, Bytes, All,
  All-append,
}
use howlinux.Files.{
  regular, directory, symlink, other, not_found, none_type, Status, has_type, missing, status_error,
  Listing, unreadable_directory, listed, broken, FileSystem, join_path,
}
use howlinux.Knowledge.Scan.{
  Visit, then_visit, visit, visit_names, add_visit, scan, Walk, walked, as_walk, walk_listing, walk,
}
use howlinux.Knowledge.Scan.Tree.{
  names_of, subdirectories, HasDepth, found_in, directories, total, tree_size, total-append,
  names-All, names-total, visit-All, visit-total,
}
use howlinux.Knowledge.Load.{KnowledgeBase, load_walked, map_walk, load_root, load}

module _ (files : FileSystem) where
  -- A greater depth changes nothing.
  deeper :
      (n : ℕ) (xs : List Bytes)
      → All (HasDepth files n) xs
      → All (HasDepth files (suc n)) xs
        × (total (tree_size files (suc n)) xs ≡ total (tree_size files n) xs)
  deeper n [] h = (tt, refl)
  deeper zero (x ∷ xs) (p, h) = absurd p
  deeper (suc n) (x ∷ xs) (p, h) =
      let (below, size) = deeper n (subdirectories files x) p in
      let (rest, sizes) = deeper (suc n) xs h in ((below, rest), omega (arith, size, sizes))

  -- With one unit of fuel for each directory, the queue is emptied.
  scan-ends :
      (n fuel : ℕ) (pending : List Bytes)
      → All (HasDepth files n) pending
      → total (tree_size files n) pending ≤ fuel
      → (found : Visit) × (scan files fuel pending ≡ some found)
  unfolding scan
  scan-ends n fuel [] h enough = (([], []), refl)
  scan-ends zero fuel (x ∷ pending) (p, h) enough = absurd p
  scan-ends (suc n) zero (x ∷ pending) h enough = absurd (omega (arith, enough))
  scan-ends (suc n) (suc fuel) (x ∷ pending) (p, h) enough =
      let (below, size) = deeper n (subdirectories files x) p in
      let found = found_in (visit files x) in
      let (rest, e) =
        scan-ends (suc n) fuel (pending ++ found)
          (All-append (HasDepth files (suc n)) pending found h
            (visit-All files x (HasDepth files (suc n)) below))
          (omega (
            arith,
            enough,
            size,
            visit-total files x (tree_size files (suc n)),
            total-append (tree_size files (suc n)) pending found,
          )) in
      let (added, _) = visit files x in
      (then_visit (added, x ∷ []) rest, ap (add_visit (added, x ∷ [])) e)

  walk_listing-ends :
      (n fuel : ℕ) (root : Bytes) (listing : Listing)
      → files.list_directory root ≡ listing
      → HasDepth files n root
      → tree_size files n root ≤ fuel
      → (found : Walk) × (walk_listing files fuel root listing ≡ some found)
  unfolding walk_listing
  walk_listing-ends n fuel root (unreadable_directory message) same h enough = (_, refl)
  walk_listing-ends n fuel root (broken names message) same h enough = (_, refl)
  walk_listing-ends zero fuel root (listed names) same h enough = absurd h
  walk_listing-ends (suc n) fuel root (listed names) same h enough =
      let children = visit_names files root names in
      let (found, e) =
        scan-ends n fuel (found_in children)
          (names-All files root (HasDepth files n) names
            (subst (All (HasDepth files n)) (below same) h))
          (omega (
            arith,
            enough,
            names-total files root (tree_size files n) names,
            ap (total (tree_size files n)) (below same),
          )) in
      let (added, _) = children in
      (
        walked (then_visit (added, root ∷ []) found),
        ap (λ r. as_walk (add_visit (added, root ∷ []) r)) e,
      )
    where
      below :
          files.list_directory root ≡ listed names
          → subdirectories files root ≡ directories files (map (join_path root) names)
      below same = ap (λ l. directories files (map (join_path root) (names_of l))) same

  load_root-ends :
      (n fuel : ℕ) (root : Bytes) (status : Status)
      → HasDepth files n root
      → tree_size files n root ≤ fuel
      → (base : KnowledgeBase) × (load_root files fuel root status ≡ some base)
  unfolding load_root walk
  load_root-ends n fuel root (missing message) h enough = (_, refl)
  load_root-ends n fuel root (status_error message) h enough = (_, refl)
  load_root-ends n fuel root (has_type directory) h enough =
      let (found, e) = walk_listing-ends n fuel root (files.list_directory root) refl h enough in
      (load_walked files root found, ap (map_walk files root) e)
  load_root-ends n fuel root (has_type regular) h enough = (_, refl)
  load_root-ends n fuel root (has_type symlink) h enough = (_, refl)
  load_root-ends n fuel root (has_type other) h enough = (_, refl)
  load_root-ends n fuel root (has_type not_found) h enough = (_, refl)
  load_root-ends n fuel root (has_type none_type) h enough = (_, refl)

-- Where the directories below the root that are no symbolic links form a tree of a finite depth, as many
-- units of fuel as this tree has directories are enough for `KnowledgeBase::load` to return, wherever the
-- symbolic links lead.
pub load-ends :
    (files : FileSystem) (depth fuel : ℕ) (directory' : Bytes)
    → HasDepth files depth (files.lexically_normal directory')
    → tree_size files depth (files.lexically_normal directory') ≤ fuel
    → (base : KnowledgeBase) × (load files fuel directory' ≡ some base)
unfolding load
load-ends files depth fuel directory' h enough =
    load_root-ends files depth fuel (files.lexically_normal directory')
      (files.status (files.lexically_normal directory')) h enough
