-- ===== src/Knowledge/Lint/Clean.antt =====
-- What a lint report of `KnowledgeBase::lint` in src/knowledge.cpp counts, and what it says where it has
-- no diagnostics.
use howlinux.Base.{
  ℕ, ◌+◌, true, false, List, [], ◌∷◌, ◌++◌, ◌≡◌, ◌∙◌, arith, Option, none, some, Bytes, beq, length,
  is_empty, contains, All, Bool-cases, inl, inr,
}
use howlinux.Concepts.Dictionary.{ConceptDictionary}
use howlinux.Files.{FileSystem}
use howlinux.Knowledge.{KnowledgeEntry}
use howlinux.Knowledge.Lookup.{IdLookup, find_by_id}
use howlinux.Knowledge.Reported.{split-append}
use howlinux.Knowledge.Load.{KnowledgeBase}
use howlinux.Knowledge.Lint.{lint_issues}
use howlinux.Knowledge.Lint.Markdown.{lint_markdown}
use howlinux.Knowledge.Lint.Aliases.{
  Aliases, lint_aliases, similar_pairs, lint_keywords, reciprocal_warning, related_round,
  lint_related,
}
use howlinux.Knowledge.Lint.Run.{
  LintState, no_lint, lint_entry, lint_entries, canonical_concepts, unused_concepts, lint,
}

-- The entry that a related identifier finds relates back.
abbrev pub RelatesBack : Bytes → Option KnowledgeEntry → Type 0
RelatesBack id none = Unit
RelatesBack id (some other) = contains other.related id ≡ true

abbrev pub IsReciprocal : List KnowledgeEntry → IdLookup → KnowledgeEntry → Type 0
IsReciprocal entries lookup entry =
    All
      (λ related_id.
        (beq related_id entry.id ≡ false)
        × RelatesBack entry.id (find_by_id entries lookup related_id))
      entry.related

abbrev pub total_of : (KnowledgeEntry → ℕ) → List KnowledgeEntry → ℕ
total_of f [] = 0
total_of f (entry ∷ entries) = f entry + total_of f entries

reciprocal_warning-RelatesBack :
    (entry : KnowledgeEntry) (id : Bytes) (other : Option KnowledgeEntry)
    → is_empty (reciprocal_warning entry id other) ≡ true
    → RelatesBack entry.id other
unfolding reciprocal_warning
reciprocal_warning-RelatesBack entry id none h = tt
reciprocal_warning-RelatesBack entry id (some other) h =
    elim (Bool-cases (contains other.related entry.id)) [
      | inl e ↦ e
      | inr e ↦ absurd (ground (arith, h, e))
    ]

module _ (entries : List KnowledgeEntry) (lookup : IdLookup) (entry : KnowledgeEntry) where
  related_round-silent :
      (seen : List Bytes) (id : Bytes)
      → is_empty (related_round entry entries lookup seen id) ≡ true
      → (beq id entry.id ≡ false) × RelatesBack entry.id (find_by_id entries lookup id)
  unfolding related_round
  related_round-silent seen id h = elim (Bool-cases (contains seen id)) [
    | inl e ↦ absurd (ground (arith, rw e at h))
    | inr e ↦ elim (Bool-cases (beq id entry.id)) [
      | inl f ↦ absurd (ground (arith, rw (e, f) at h))
      | inr f ↦ (
        f,
        reciprocal_warning-RelatesBack entry id (find_by_id entries lookup id) (rw (e, f) at h),
      )
    ]
  ]

  lint_related-silent :
      (seen related : List Bytes)
      → is_empty (lint_related entry entries lookup seen related) ≡ true
      → All
          (λ id. (beq id entry.id ≡ false) × RelatesBack entry.id (find_by_id entries lookup id))
          related
  unfolding lint_related
  lint_related-silent seen [] h = tt
  lint_related-silent seen (id ∷ related) h =
      let (first, rest) =
        split-append (related_round entry entries lookup seen id)
          (lint_related entry entries lookup (id ∷ seen) related) h in
      (related_round-silent seen id first, lint_related-silent (id ∷ seen) related rest)

module _ (files : FileSystem) (concepts : ConceptDictionary) (base : KnowledgeBase) where
  -- The loops of one entry, in their order, where none of them adds a diagnostic.
  pub record IsQuietRound (state : LintState) (entry : KnowledgeEntry) (aliases : Aliases)
      : Type 0 where
    pub quiet_before : is_empty state.added ≡ true
    pub quiet_aliases : is_empty aliases.added ≡ true
    pub quiet_keywords : is_empty (lint_keywords entry [] entry.keywords) ≡ true
    pub quiet_related :
        is_empty (lint_related entry base.entries base.id_lookup [] entry.related) ≡ true
    pub quiet_markdown : is_empty (lint_markdown files base.root entry) ≡ true

  -- What an entry has where its round adds nothing, whatever stands before it.
  pub record IsQuiet (entry : KnowledgeEntry) : Type 0 where
    pub reciprocal : IsReciprocal base.entries base.id_lookup entry
    pub quiet_text : is_empty (lint_markdown files base.root entry) ≡ true

  -- The loop over the aliases of an entry.
  abbrev pub aliases_of_entry : LintState → KnowledgeEntry → Aliases
  aliases_of_entry state entry =
      lint_aliases entry
        (record { added = []; local = []; sources = state.sources; normalized = [] }) entry.aliases

  pub lint_entry-IsQuietRound :
      (state : LintState) (entry : KnowledgeEntry)
      → is_empty (lint_entry files concepts base state entry).added ≡ true
      → IsQuietRound state entry (aliases_of_entry state entry)
  unfolding lint_entry
  lint_entry-IsQuietRound state entry h =
      let aliases = aliases_of_entry state entry in
      let related = lint_related entry base.entries base.id_lookup [] entry.related in
      let markdown = lint_markdown files base.root entry in
      let keywords = lint_keywords entry [] entry.keywords in
      let similar = similar_pairs entry aliases.normalized in
      let (before, a) =
        split-append state.added (aliases.added ++ (similar ++ (keywords ++ (related ++ markdown))))
          h in
      let (quiet, b) =
        split-append aliases.added (similar ++ (keywords ++ (related ++ markdown))) a in
      let (_, c) = split-append similar (keywords ++ (related ++ markdown)) b in
      let (words, d) = split-append keywords (related ++ markdown) c in
      let (silent, text) = split-append related markdown d in
      record {
        quiet_before = before;
        quiet_aliases = quiet;
        quiet_keywords = words;
        quiet_related = silent;
        quiet_markdown = text;
      }

  lint_entry-silent :
      (state : LintState) (entry : KnowledgeEntry)
      → is_empty (lint_entry files concepts base state entry).added ≡ true
      → (is_empty state.added ≡ true) × IsQuiet entry
  lint_entry-silent state entry h =
      let quiet = lint_entry-IsQuietRound state entry h in
      (
        quiet.quiet_before,
        record {
          reciprocal =
              lint_related-silent base.entries base.id_lookup entry [] entry.related
                quiet.quiet_related;
          quiet_text = quiet.quiet_markdown;
        },
      )

  pub lint_entries-silent :
      (state : LintState) (entries : List KnowledgeEntry)
      → is_empty (lint_entries files concepts base state entries).added ≡ true
      → (is_empty state.added ≡ true) × All IsQuiet entries
  unfolding lint_entries
  lint_entries-silent state [] h = (h, tt)
  lint_entries-silent state (entry ∷ entries) h =
      let (here, rest) =
        lint_entries-silent (lint_entry files concepts base state entry) entries h in
      let (before, quiet) = lint_entry-silent state entry here in (before, (quiet, rest))

  lint_entries-counts :
      (state : LintState) (entries : List KnowledgeEntry)
      → let after = lint_entries files concepts base state entries in
        (after.aliases_checked
          ≡ state.aliases_checked
            + total_of (λ (entry : KnowledgeEntry). length entry.aliases) entries)
        × (after.keywords_checked
            ≡ state.keywords_checked
              + total_of (λ (entry : KnowledgeEntry). length entry.keywords) entries)
  unfolding lint_entries lint_entry
  lint_entries-counts state [] = (omega arith, omega arith)
  lint_entries-counts state (entry ∷ entries) =
      let (aliases, keywords) =
        lint_entries-counts (lint_entry files concepts base state entry) entries in
      (aliases ∙ omega arith, keywords ∙ omega arith)

  pub unused_concepts-silent :
      (used canonicals : List Bytes)
      → is_empty (unused_concepts files concepts base used canonicals) ≡ true
      → All (λ canonical. contains used canonical ≡ true) canonicals
  unfolding unused_concepts
  unused_concepts-silent used [] h = tt
  unused_concepts-silent used (canonical ∷ canonicals) h =
      elim (Bool-cases (contains used canonical)) [
        | inl e ↦ (e, unused_concepts-silent used canonicals (rw e at h))
        | inr e ↦ absurd (ground (arith, rw e at h))
      ]

  -- `lint` checks every alias and every keyword of every entry, and says how many.
  pub lint-counts :
      let report = lint files concepts base in
      (report.aliases_checked
        ≡ total_of (λ (entry : KnowledgeEntry). length entry.aliases) base.entries)
      × (report.keywords_checked
          ≡ total_of (λ (entry : KnowledgeEntry). length entry.keywords) base.entries)
  unfolding lint
  lint-counts =
      let (aliases, keywords) = lint_entries-counts no_lint base.entries in
      (aliases ∙ omega arith, keywords ∙ omega arith)

  -- Without issues, neither a round of the loop over the entries nor the last loop adds anything.
  pub lint-silent :
      lint_issues (lint files concepts base) ≡ false
      → let state = lint_entries files concepts base no_lint base.entries in
        (is_empty state.added ≡ true)
        × (is_empty (
              unused_concepts files concepts base state.used_concepts
                (canonical_concepts files concepts base))
            ≡ true)
  unfolding lint
  lint-silent h =
      let state = lint_entries files concepts base no_lint base.entries in
      split-append state.added
        (unused_concepts files concepts base state.used_concepts
          (canonical_concepts files concepts base))
        (ground (arith, h))

  pub lint-AreQuiet : lint_issues (lint files concepts base) ≡ false → All IsQuiet base.entries
  lint-AreQuiet h =
      let (silent, _) = lint-silent h in
      let (_, quiet) = lint_entries-silent no_lint base.entries silent in quiet
