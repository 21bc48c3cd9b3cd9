-- ===== src/Knowledge/Lint/Used.antt =====
-- The concepts that `KnowledgeBase::lint` of src/knowledge.cpp takes for used, and what is so of the entries
-- and the dictionary where it reports nothing.
use howlinux.Base.{
  true, false, Bool, ◌||◌, List, [], ◌∷◌, ◌++◌, ◌≡◌, refl, ap, ◌∙◌, arith, map, Bytes, beq, beq_iff,
  blt, contains, any, All, All-map, Bool-cases, inl, inr,
}
use howlinux.Base.Sort.{sort_by}
use howlinux.Base.Contains.{contains-append, contains-sort_by, All-contains, All-contained}
use howlinux.Concepts.Dictionary.{ConceptDictionary}
use howlinux.Files.{FileSystem}
use howlinux.Index.Documents.Words.{names_concept}
use howlinux.Knowledge.{KnowledgeEntry}
use howlinux.Knowledge.Scan.{unique_after, unique}
use howlinux.Knowledge.Load.{KnowledgeBase}
use howlinux.Knowledge.Lint.{lint_issues}
use howlinux.Knowledge.Lint.Aliases.{collect_concepts}
use howlinux.Knowledge.Lint.Run.{
  LintState, no_lint, collect_all, lint_entry, lint_entries, canonical_concepts, lint,
}
use howlinux.Knowledge.Lint.Clean.{IsReciprocal, lint-silent, lint-AreQuiet, unused_concepts-silent}

contains-unique_after :
    (last : Bytes) (xs : List Bytes) (t : Bytes)
    → (beq last t || contains (unique_after last xs) t) ≡ (beq last t || contains xs t)
unfolding unique_after contains
contains-unique_after last [] t = refl
contains-unique_after last (x ∷ xs) t = elim (Bool-cases (beq last x)) [
  | inl e ↦
      rw e
        (ground (arith, contains-unique_after last xs t, ap (λ y. beq y t) ((beq_iff last x).0 e)))
  | inr e ↦ rw e (ground (arith, contains-unique_after x xs t))
]

contains-unique : (xs : List Bytes) (t : Bytes) → contains (unique xs) t ≡ contains xs t
unfolding unique contains
contains-unique [] t = refl
contains-unique (x ∷ xs) t = contains-unique_after x xs t

module _ (concepts : ConceptDictionary) where
  -- The dictionary detects the concept in the identifier, the title, the command, an alias or a keyword of
  -- the entry.
  abbrev pub uses : Bytes → KnowledgeEntry → Bool
  uses canonical entry =
      any (λ text. names_concept concepts text canonical)
        ((entry.id ∷ entry.title ∷ entry.command ∷ []) ++ (entry.aliases ++ entry.keywords))

  -- Each name in the dictionary is used by one of the entries.
  abbrev pub AreUsed : List KnowledgeEntry → Type 0
  AreUsed entries =
      All (λ canonical. any (uses canonical) entries ≡ true)
        (map (λ (phrase, canonical). canonical) concepts.phrase_to_canonical)

  contains-collect_concepts :
      (used : List Bytes) (text t : Bytes)
      → contains (collect_concepts concepts used text) t
        ≡ (names_concept concepts text t || contains used t)
  unfolding collect_concepts
  contains-collect_concepts used text t = contains-append _ used t

  contains-collect_all :
      (used values : List Bytes) (t : Bytes)
      → contains (collect_all concepts used values) t
        ≡ (contains used t || any (λ text. names_concept concepts text t) values)
  unfolding collect_all
  contains-collect_all used [] t = ground arith
  contains-collect_all used (value ∷ values) t =
      contains-collect_all (collect_concepts concepts used value) values t
      ∙ ground (arith, contains-collect_concepts used value t)

  module _ (files : FileSystem) (base : KnowledgeBase) where
    contains-used :
        (state : LintState) (entries : List KnowledgeEntry) (t : Bytes)
        → contains (lint_entries files concepts base state entries).used_concepts t
          ≡ (contains state.used_concepts t || any (uses t) entries)
    unfolding lint_entries lint_entry
    contains-used state [] t = ground arith
    contains-used state (entry ∷ entries) t =
        contains-used (lint_entry files concepts base state entry) entries t
        ∙ ground (
          arith,
          contains-collect_all state.used_concepts
              ((entry.id ∷ entry.title ∷ entry.command ∷ []) ++ (entry.aliases ++ entry.keywords))
              t,
        )

    -- A name in the dictionary, by what `lint` takes for used behind the loop over the entries.
    used_name :
        (t : Bytes)
        → contains (lint_entries files concepts base no_lint base.entries).used_concepts t ≡ true
        → any (uses t) base.entries ≡ true
    unfolding contains
    used_name t h = ground (arith, contains-used no_lint base.entries t, h)

    canonical-AreUsed :
        All
          (λ canonical.
            contains (lint_entries files concepts base no_lint base.entries).used_concepts canonical
            ≡ true)
          (canonical_concepts files concepts base)
        → AreUsed base.entries
    unfolding canonical_concepts
    canonical-AreUsed h =
        let names = map (λ (p : Bytes × Bytes). p.1) concepts.phrase_to_canonical in
        All-map
          (λ t k. used_name t (
            All-contains
              (λ canonical.
                contains (lint_entries files concepts base no_lint base.entries).used_concepts
                  canonical
                ≡ true)
              (unique (sort_by blt names)) t h
              (contains-unique (sort_by blt names) t ∙ contains-sort_by names t ∙ k)))
          names (All-contained names)

module _ (files : FileSystem) (concepts : ConceptDictionary) (base : KnowledgeBase) where
  -- Where the report of `lint` has no issues: no entry relates to itself, every entry that a related
  -- identifier finds relates back, and every canonical name in the dictionary is that of a concept which
  -- the dictionary detects in the identifier, the title, the command, an alias or a keyword of an entry.
  pub lint-IsReciprocal :
      lint_issues (lint files concepts base) ≡ false
      → All (IsReciprocal base.entries base.id_lookup) base.entries × AreUsed concepts base.entries
  lint-IsReciprocal h =
      let state = lint_entries files concepts base no_lint base.entries in
      let (_, used) = lint-silent files concepts base h in
      (
        All-map (λ entry quiet. quiet.reciprocal) base.entries
            (lint-AreQuiet files concepts base h),
        canonical-AreUsed concepts files base (
            unused_concepts-silent files concepts base state.used_concepts
              (canonical_concepts files concepts base) used),
      )
