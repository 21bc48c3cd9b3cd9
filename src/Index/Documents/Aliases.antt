-- ===== src/Index/Documents/Aliases.antt =====
-- The normalized aliases that `InvertedIndex::build` of src/index.cpp puts into a document.
use howlinux.Base.{
  Bool, true, ◌&&◌, ◌||◌, not, List, [], ◌∷◌, ◌≡◌, refl, ap, ◌∙◌, arith, Bytes, beq, beq_iff,
  contains, is_empty, any, Bool-cases, inl, inr,
}
use howlinux.Query.Tokens.{tokenize, join_tokens}
use howlinux.Concepts.Dictionary.{ConceptDictionary}
use howlinux.Knowledge.{KnowledgeEntry}
use howlinux.Index.Documents.{
  EntryDocument, add_normalized, add_aliases, add_keywords, add_command, titled, document_of,
  contains-snoc,
}

-- The text is what the alias reads as, with single blanks between the tokens.
abbrev pub reads_as : Bytes → Bytes → Bool
reads_as t alias =
    let normalized = join_tokens (tokenize alias true true) in
    not (is_empty normalized) && beq normalized t

contains-add_normalized :
    (aliases : List Bytes) (normalized t : Bytes)
    → contains (add_normalized aliases normalized) t
      ≡ (contains aliases t || not (is_empty normalized) && beq normalized t)
unfolding add_normalized
contains-add_normalized aliases normalized t =
    ground (arith, contains-snoc aliases normalized t, beq_iff normalized t)

module _ (concepts : ConceptDictionary) (t : Bytes) where
  contains-add_aliases :
      (aliases : List Bytes) (d : EntryDocument)
      → contains (add_aliases concepts aliases d).aliases_normalized t
        ≡ (contains d.aliases_normalized t || any (reads_as t) aliases)
  unfolding add_aliases
  contains-add_aliases [] d = ground arith
  contains-add_aliases (alias ∷ aliases) d =
      contains-add_aliases aliases _
      ∙ ground (
        arith,
        contains-add_normalized d.aliases_normalized (join_tokens (tokenize alias true true)) t,
      )

  add_keywords-aliases :
      (keywords : List Bytes) (d : EntryDocument)
      → (add_keywords concepts keywords d).aliases_normalized ≡ d.aliases_normalized
  unfolding add_keywords
  add_keywords-aliases [] d = refl
  add_keywords-aliases (keyword ∷ keywords) d = add_keywords-aliases keywords _

  add_command-aliases :
      (entry : KnowledgeEntry) (d : EntryDocument)
      → (add_command concepts entry d).aliases_normalized ≡ d.aliases_normalized
  unfolding add_command
  add_command-aliases entry d = elim (Bool-cases (is_empty entry.command)) [
    | inl e ↦ rw e refl
    | inr e ↦ rw e refl
  ]

  -- The document of an entry holds what its aliases read as, and nothing else.
  pub contains-aliases :
      (entry : KnowledgeEntry)
      → contains (document_of concepts entry).aliases_normalized t ≡ any (reads_as t) entry.aliases
  unfolding document_of contains
  contains-aliases entry =
      let aliased = add_aliases concepts entry.aliases (titled concepts entry) in
      ap (λ texts. contains texts t)
        (add_command-aliases entry (add_keywords concepts entry.keywords aliased)
          ∙ add_keywords-aliases entry.keywords aliased)
      ∙ contains-add_aliases entry.aliases (titled concepts entry)
