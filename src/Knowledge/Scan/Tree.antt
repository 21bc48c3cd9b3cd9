-- ===== src/Knowledge/Scan/Tree.antt =====
-- The directories below one, as a file system has them, and what the walk of src/knowledge.cpp finds of them.
use howlinux.Base.{
  ℕ, zero, suc, ◌+◌, Bool, true, false, List, [], ◌∷◌, ◌++◌, ◌≡◌, refl, sym, ap, ◌∙◌, subst, arith,
  map, if◌then◌else◌, filter, Bytes, blt, All, Bool-cases, inl, inr,
}
use howlinux.Base.Sort.{insert_sorted, sort_by, sort_by-All}
use howlinux.Files.{
  regular, directory, symlink, other, not_found, none_type, Status, has_type, missing, status_error,
  Listing, unreadable_directory, listed, broken, FileSystem, join_path,
}
use howlinux.Knowledge.Scan.{
  Visit, visit_symlink, visit_child, visit_children, visit_names, visit_listing, visit,
}

abbrev pub names_of : Listing → List Bytes
names_of (unreadable_directory message) = []
names_of (listed names) = names
names_of (broken names message) = names

abbrev pub is_real_directory : Status → Bool
is_real_directory (has_type directory) = true
is_real_directory _ = false

-- The directories in this one that are no symbolic links to one, in the order of the listing.
abbrev pub subdirectories : FileSystem → Bytes → List Bytes
subdirectories files current =
    filter (λ path. is_real_directory (files.symlink_status path))
      (map (join_path current) (names_of (files.list_directory current)))

-- No chain of directories below this one, itself counted, is longer than this.
abbrev pub HasDepth : FileSystem → ℕ → Bytes → Type 0
HasDepth files zero current = ⊥
HasDepth files (suc n) current = All (HasDepth files n) (subdirectories files current)

abbrev pub found_in : Visit → List Bytes
found_in (added, found) = found

abbrev pub total : (Bytes → ℕ) → List Bytes → ℕ
total f [] = 0
total f (x ∷ xs) = f x + total f xs

-- The directories of a tree of this depth.
abbrev pub tree_size : FileSystem → ℕ → Bytes → ℕ
tree_size files zero current = 0
tree_size files (suc n) current = suc (total (tree_size files n) (subdirectories files current))

pub total-append :
    (f : Bytes → ℕ) (xs ys : List Bytes) → total f (xs ++ ys) ≡ total f xs + total f ys
total-append f [] ys = omega arith
total-append f (x ∷ xs) ys = omega (arith, total-append f xs ys)

-- Sorting changes neither a sum nor what holds of all that pass a test.
module _ (f : Bytes → ℕ) (test : Bytes → Bool) where
  total-insert_sorted :
      (x : Bytes) (xs : List Bytes)
      → total f (filter test (insert_sorted blt x xs)) ≡ total f (filter test (x ∷ xs))
  unfolding insert_sorted
  total-insert_sorted x [] = refl
  total-insert_sorted x (y ∷ xs) = ground (arith, total-insert_sorted x xs)

  total-sort_by :
      (xs : List Bytes) → total f (filter test (sort_by blt xs)) ≡ total f (filter test xs)
  unfolding sort_by
  total-sort_by [] = refl
  total-sort_by (x ∷ xs) = ground (arith, total-insert_sorted x (sort_by blt xs), total-sort_by xs)

-- What passes the test has the property.
abbrev Guarded : (Bytes → Type 0) → (Bytes → Bool) → Bytes → Type 0
Guarded P test x = test x ≡ true → P x

module _ (P : Bytes → Type 0) (test : Bytes → Bool) where
  All-Guarded : (xs : List Bytes) → All P (filter test xs) → All (Guarded P test) xs
  All-Guarded [] h = tt
  All-Guarded (x ∷ xs) h = elim (Bool-cases (test x)) [
    | inl e ↦
        let (p, rest) : P x × All P (filter test xs) = rw e at h in ((λ k. p), All-Guarded xs rest)
    | inr e ↦ ((λ k. absurd (ground (arith, e, k))), All-Guarded xs (rw e at h))
  ]

  All-filtered : (xs : List Bytes) → All (Guarded P test) xs → All P (filter test xs)
  All-filtered [] h = tt
  All-filtered (x ∷ xs) (p, h) = elim (Bool-cases (test x)) [
    | inl e ↦ rw e (p e, All-filtered xs h)
    | inr e ↦ rw e (All-filtered xs h)
  ]

  All-sorted : (xs : List Bytes) → All P (filter test xs) → All P (filter test (sort_by blt xs))
  All-sorted xs h =
      All-filtered (sort_by blt xs) (sort_by-All blt (Guarded P test) xs (All-Guarded xs h))

-- The directories among these paths, which are all that the loop over the children adds.
abbrev pub directories : FileSystem → List Bytes → List Bytes
directories files paths = filter (λ path. is_real_directory (files.symlink_status path)) paths

found-child :
    (files : FileSystem) (child : Bytes) (status : Status) (rest : List Bytes)
    → found_in (visit_child files child status) ++ rest
      ≡ (if is_real_directory status then child ∷ rest else rest)
unfolding visit_child visit_symlink
found-child files child (missing message) rest = refl
found-child files child (status_error message) rest = refl
found-child files child (has_type directory) rest = refl
found-child files child (has_type symlink) rest = found-symlink (files.status child)
  where
    found-symlink : (status : Status) → found_in (visit_symlink child status) ++ rest ≡ rest
    found-symlink (missing message) = refl
    found-symlink (status_error message) = refl
    found-symlink (has_type directory) = refl
    found-symlink (has_type regular) = refl
    found-symlink (has_type symlink) = refl
    found-symlink (has_type other) = refl
    found-symlink (has_type not_found) = refl
    found-symlink (has_type none_type) = refl
found-child files child (has_type regular) rest = refl
found-child files child (has_type other) rest = refl
found-child files child (has_type not_found) rest = refl
found-child files child (has_type none_type) rest = refl

found-children :
    (files : FileSystem) (children : List Bytes)
    → found_in (visit_children files children) ≡ directories files children
unfolding visit_children
found-children files [] = refl
found-children files (child ∷ children) =
    ap (λ rest. found_in (visit_child files child (files.symlink_status child)) ++ rest)
      (found-children files children)
    ∙ found-child files child (files.symlink_status child) (directories files children)

module _ (files : FileSystem) (current : Bytes) where
  -- The directories among the children of these names.
  abbrev children_of : List Bytes → List Bytes
  children_of names = directories files (map (join_path current) names)

  found-names :
      (names : List Bytes)
      → found_in (visit_names files current names)
        ≡ directories files (sort_by blt (map (join_path current) names))
  unfolding visit_names
  found-names names = found-children files (sort_by blt (map (join_path current) names))

  pub names-All :
      (P : Bytes → Type 0) (names : List Bytes)
      → All P (children_of names)
      → All P (found_in (visit_names files current names))
  names-All P names h = subst (All P) (sym (found-names names)) (
      All-sorted P (λ path. is_real_directory (files.symlink_status path))
        (map (join_path current) names) h)

  pub names-total :
      (f : Bytes → ℕ) (names : List Bytes)
      → total f (found_in (visit_names files current names)) ≡ total f (children_of names)
  names-total f names =
      ap (total f) (found-names names)
      ∙ total-sort_by f (λ path. is_real_directory (files.symlink_status path))
          (map (join_path current) names)

  -- The directories that are added by reading one are its subdirectories, in the order of their paths.
  pub visit-All :
      (P : Bytes → Type 0)
      → All P (subdirectories files current)
      → All P (found_in (visit files current))
  unfolding visit visit_listing
  visit-All P h = by_listing (files.list_directory current) h
    where
      by_listing :
          (listing : Listing)
          → All P (children_of (names_of listing))
          → All P (found_in (visit_listing files current listing))
      by_listing (unreadable_directory message) h = tt
      by_listing (listed names) h = names-All P names h
      by_listing (broken names message) h = names-All P names h

  pub visit-total :
      (f : Bytes → ℕ)
      → total f (found_in (visit files current)) ≡ total f (subdirectories files current)
  unfolding visit visit_listing
  visit-total f = by_listing (files.list_directory current)
    where
      by_listing :
          (listing : Listing)
          → total f (found_in (visit_listing files current listing))
            ≡ total f (children_of (names_of listing))
      by_listing (unreadable_directory message) = refl
      by_listing (listed names) = names-total f names
      by_listing (broken names message) = names-total f names
