-- ===== src/Knowledge/Lint/Run.antt =====
-- `KnowledgeBase::lint` of src/knowledge.cpp.
use howlinux.Base.{
  ℕ, ◌+◌, true, List, [], ◌∷◌, ◌++◌, map, if◌then◌else◌, Bytes, codes, blt, length, contains,
}
use howlinux.Base.Sort.{sort_by}
use howlinux.Diagnostics.{Diagnostic}
use howlinux.Concepts.Dictionary.{ConceptDictionary}
use howlinux.Files.{FileSystem, join_path}
use howlinux.Knowledge.{KnowledgeEntry}
use howlinux.Knowledge.Reader.{warn}
use howlinux.Knowledge.Scan.{unique}
use howlinux.Knowledge.Load.{KnowledgeBase}
use howlinux.Knowledge.Lint.{KnowledgeLintReport}
use howlinux.Knowledge.Lint.Markdown.{lint_markdown}
use howlinux.Knowledge.Lint.Aliases.{
  Sources, collect_concepts, lint_aliases, similar_pairs, lint_keywords, lint_related,
}

-- What the loop over the entries changes.
pub record LintState : Type 0 where
  pub added : List Diagnostic
  pub aliases_checked : ℕ
  pub keywords_checked : ℕ
  pub sources : Sources
  pub used_concepts : List Bytes

abbrev pub no_lint : LintState
no_lint = record {
  added = [];
  aliases_checked = 0;
  keywords_checked = 0;
  sources = [];
  used_concepts = [];
}

unfoldable pub collect_all : ConceptDictionary → List Bytes → List Bytes → List Bytes
unfolding collect_concepts
collect_all concepts used [] = used
collect_all concepts used (value ∷ values) =
    collect_all concepts (collect_concepts concepts used value) values

module _ (files : FileSystem) (concepts : ConceptDictionary) (base : KnowledgeBase) where
  -- A round of the loop over the entries.
  unfoldable pub lint_entry : LintState → KnowledgeEntry → LintState
  unfolding lint_aliases similar_pairs lint_keywords lint_related lint_markdown collect_all
  lint_entry state entry =
      let aliases =
        lint_aliases entry
          (record { added = []; local = []; sources = state.sources; normalized = [] })
          entry.aliases in
      record {
        added =
            state.added
            ++ (aliases.added
                ++ (similar_pairs entry aliases.normalized
                    ++ (lint_keywords entry [] entry.keywords
                        ++ (lint_related entry base.entries base.id_lookup [] entry.related
                            ++ lint_markdown files base.root entry))));
        aliases_checked = state.aliases_checked + length entry.aliases;
        keywords_checked = state.keywords_checked + length entry.keywords;
        sources = aliases.sources;
        used_concepts =
            collect_all concepts state.used_concepts
              ((entry.id ∷ entry.title ∷ entry.command ∷ []) ++ (entry.aliases ++ entry.keywords));
      }

  unfoldable pub lint_entries : LintState → List KnowledgeEntry → LintState
  unfolding lint_entry
  lint_entries state [] = state
  lint_entries state (entry ∷ entries) = lint_entries (lint_entry state entry) entries

  -- `canonical_concepts`
  unfoldable pub canonical_concepts : List Bytes
  unfolding unique
  canonical_concepts =
      unique (sort_by blt (map (λ (phrase, canonical). canonical) concepts.phrase_to_canonical))

  unfoldable pub unused_concepts : List Bytes → List Bytes → List Diagnostic
  unused_concepts used [] = []
  unused_concepts used (canonical ∷ canonicals) =
      (if contains used canonical
        then []
        else warn (join_path base.root (codes "concepts.yaml")) canonical
            (codes "concept is not used by any searchable entry metadata")
          ∷ [])
      ++ unused_concepts used canonicals

  -- `lint`
  unfoldable pub lint : KnowledgeLintReport
  unfolding lint_entries canonical_concepts unused_concepts
  lint =
      let state = lint_entries no_lint base.entries in
      record {
        performed = true;
        entries_checked = length base.entries;
        aliases_checked = state.aliases_checked;
        keywords_checked = state.keywords_checked;
        concepts_checked = length canonical_concepts;
        diagnostics = state.added ++ unused_concepts state.used_concepts canonical_concepts;
      }
