-- ===== src/Knowledge/Lint/Tidy.antt =====
-- What a knowledge base has where `KnowledgeBase::lint` of src/knowledge.cpp reports nothing: no alias,
-- keyword or related identifier stands twice.
use howlinux.Base.{
  ℕ, true, false, List, [], ◌∷◌, ◌++◌, ◌≡◌, arith, some, Bytes, beq_refl, contains, is_empty, All,
  All-append, Bool-cases, inl, inr,
}
use howlinux.Concepts.Dictionary.{ConceptDictionary}
use howlinux.Files.{FileSystem}
use howlinux.Knowledge.{KnowledgeEntry}
use howlinux.Knowledge.Lookup.{IdLookup}
use howlinux.Knowledge.Ids.{IsNew, AreDistinct, IsAscending-AreDistinct}
use howlinux.Knowledge.Reported.{split-append}
use howlinux.Knowledge.Load.{KnowledgeBase, load}
use howlinux.Knowledge.Load.Valid.{load-IsValid}
use howlinux.Knowledge.Lint.{lint_issues}
use howlinux.Knowledge.Lint.Aliases.{
  normalized_search_phrase, Sources, source_of, lint_keywords, related_round, lint_related,
}
use howlinux.Knowledge.Lint.Run.{LintState, no_lint, lint_entry, lint_entries, lint}
use howlinux.Knowledge.Lint.Clean.{lint_entry-IsQuietRound, lint_entries-silent, lint-silent}
use howlinux.Base.Contains.{IsFresh, pushed, IsFresh-append}
use howlinux.Knowledge.Lint.Distinct.{AreFilled, normalized, IsMap, IsOwn, lint_aliases-IsFresh}

module _ (entry : KnowledgeEntry) where
  lint_keywords-IsFresh :
      (local keywords : List Bytes)
      → is_empty (lint_keywords entry local keywords) ≡ true
      → IsFresh local (normalized keywords) × AreFilled (normalized keywords)
  unfolding lint_keywords
  lint_keywords-IsFresh local [] h = (tt, tt)
  lint_keywords-IsFresh local (keyword ∷ keywords) h =
      let text = normalized_search_phrase keyword in
      elim (Bool-cases (is_empty text)) [
        | inl e ↦ absurd (ground (arith, rw e at h))
        | inr e ↦ elim (Bool-cases (contains local text)) [
          | inl f ↦ absurd (ground (arith, rw (e, f) at h))
          | inr f ↦
              let (_, rest) =
                split-append _ (lint_keywords entry (text ∷ local) keywords) (rw (e, f) at h) in
              let (new, filled) = lint_keywords-IsFresh (text ∷ local) keywords rest in
              ((f, new), (e, filled))
        ]
      ]

  lint_related-IsFresh :
      (entries : List KnowledgeEntry) (lookup : IdLookup) (seen related : List Bytes)
      → is_empty (lint_related entry entries lookup seen related) ≡ true
      → IsFresh seen related
  unfolding lint_related related_round
  lint_related-IsFresh entries lookup seen [] h = tt
  lint_related-IsFresh entries lookup seen (id ∷ related) h =
      let (here, rest) =
        split-append (related_round entry entries lookup seen id)
          (lint_related entry entries lookup (id ∷ seen) related) h in
      (
        elim (Bool-cases (contains seen id)) [
          | inl e ↦ absurd (ground (arith, rw e at here))
          | inr e ↦ e
        ],
        lint_related-IsFresh entries lookup (id ∷ seen) related rest,
      )

-- The aliases of all the entries, as they are compared.
abbrev pub all_aliases : List KnowledgeEntry → List Bytes
all_aliases [] = []
all_aliases (entry ∷ entries) = normalized entry.aliases ++ all_aliases entries

-- The keywords of an entry, as they are compared, and its related identifiers.
abbrev pub HasNewWords : KnowledgeEntry → Type 0
HasNewWords entry =
    IsFresh [] (normalized entry.keywords)
    × AreFilled (normalized entry.keywords)
    × IsFresh [] entry.related

-- No text is empty or stands twice.
pub record AreTidy (entries : List KnowledgeEntry) : Type 0 where
  pub new_aliases : IsFresh [] (all_aliases entries)
  pub filled_aliases : AreFilled (all_aliases entries)
  pub new_words : All HasNewWords entries

empty-IsMap : (entries : List KnowledgeEntry) → IsMap [] entries []
unfolding contains source_of
empty-IsMap entries = record { covers = λ text h. cc; foreign = λ text id h. cc }

-- The map in front of the loop over the aliases of the first entry.
IsMap-IsOwn :
    (entry : KnowledgeEntry) (entries : List KnowledgeEntry) (before : List Bytes)
    (sources : Sources)
    → (new_id : IsNew entry.id entries) → IsMap before (entry ∷ entries) sources
    → IsOwn entry entries new_id before [] sources
IsMap-IsOwn entry entries before sources new_id m = record {
  is_map = record {
    covers = m.covers;
    foreign = λ text id h. let (_, rest) = m.foreign text id h in rest;
  };
  own = λ text h.
      let (first, _) = m.foreign text entry.id h in
      absurd (ground (arith, first, beq_refl entry.id));
}

module _ (files : FileSystem) (concepts : ConceptDictionary) (base : KnowledgeBase) where
  lint_entries-quiet :
      (state : LintState) (entries : List KnowledgeEntry)
      → is_empty (lint_entries files concepts base state entries).added ≡ true
      → is_empty state.added ≡ true
  lint_entries-quiet state entries h =
      let (quiet, _) = lint_entries-silent files concepts base state entries h in quiet

  lint_entries-AreTidy :
      (before : List Bytes) (state : LintState) (entries : List KnowledgeEntry)
      → AreDistinct entries
      → IsMap before entries state.sources
      → is_empty (lint_entries files concepts base state entries).added ≡ true
      → IsFresh before (all_aliases entries)
        × AreFilled (all_aliases entries)
        × All HasNewWords entries
  unfolding lint_entries
  lint_entries-AreTidy before state [] d m h = (tt, tt, tt)
  lint_entries-AreTidy before state (entry ∷ entries) (new_id, d) m h =
      let after = lint_entry files concepts base state entry in
      let quiet =
        lint_entry-IsQuietRound files concepts base state entry
          (lint_entries-quiet after entries h) in
      let (new, filled, m') =
        lint_aliases-IsFresh entry entries new_id before _ entry.aliases
          (IsMap-IsOwn entry entries before state.sources new_id m) quiet.quiet_aliases in
      let (words, filled_words) =
        lint_keywords-IsFresh entry [] entry.keywords quiet.quiet_keywords in
      let related =
        lint_related-IsFresh entry base.entries base.id_lookup [] entry.related
          quiet.quiet_related in
      let (new', filled', words') =
        lint_entries-AreTidy (pushed before (normalized entry.aliases)) after entries d
          (unfold lint_entry in m') h in
      (
        IsFresh-append before (normalized entry.aliases) (all_aliases entries) new new',
        All-append (λ text. is_empty text ≡ false) (normalized entry.aliases) (all_aliases entries)
            filled filled',
        ((words, filled_words, related), words'),
      )

-- Where the report of `lint` on a knowledge base that `load` returned has no issues: no alias, as it is
-- normalized for the search, is empty or stands twice in the whole knowledge base, no keyword is empty or
-- stands twice in its entry, and no related identifier stands twice in its entry.
pub lint-AreTidy :
    (files : FileSystem) (concepts : ConceptDictionary) (fuel : ℕ) (path : Bytes)
    (base : KnowledgeBase)
    → load files fuel path ≡ some base
    → lint_issues (lint files concepts base) ≡ false
    → AreTidy base.entries
lint-AreTidy files concepts fuel path base loaded h =
    let valid = load-IsValid files fuel path base loaded in
    let (silent, _) = lint-silent files concepts base h in
    let (new, filled, words) =
      lint_entries-AreTidy files concepts base [] no_lint base.entries
        (IsAscending-AreDistinct base.entries valid.ascending) (empty-IsMap base.entries) silent in
    record { new_aliases = new; filled_aliases = filled; new_words = words }
