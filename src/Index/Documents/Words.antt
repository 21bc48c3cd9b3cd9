-- ===== src/Index/Documents/Words.antt =====
-- The words of an entry that `InvertedIndex::build` of src/index.cpp puts into its document.
use howlinux.Base.{
  Bool, true, false, ◌&&◌, ◌||◌, not, List, [], ◌∷◌, ◌++◌, ◌≡◌, ◌∙◌, arith, map, Bytes, contains,
  is_empty, any, any-append, Bool-cases, inl, inr,
}
use howlinux.Query.Tokens.{tokenize}
use howlinux.Concepts.Detect.{ConceptMatch}
use howlinux.Concepts.Dictionary.{ConceptDictionary, detect}
use howlinux.Knowledge.{KnowledgeEntry}
use howlinux.Index.Documents.{
  EntryDocument, add_tokens, add_concepts, add_aliases, add_keywords, command_tokens_of,
  add_command, titled, all_tokens_of, document_of, contains-add_tokens,
}

module _ (concepts : ConceptDictionary) where
  -- The name of a concept that the dictionary detects in a text.
  abbrev pub names_concept : Bytes → Bytes → Bool
  names_concept text t =
      contains
        (map (λ (m : ConceptMatch). m.canonical) (detect concepts (tokenize text true false))) t

  -- A token that is read from a text, but for the stopwords, or such a name.
  abbrev pub is_word_of : Bytes → Bytes → Bool
  is_word_of text t = contains (tokenize text true true) t || names_concept text t

  -- A token or a concept of the identifier, the title, an alias, a keyword, or the command of an entry.
  abbrev pub is_word : KnowledgeEntry → Bytes → Bool
  is_word entry t =
      any (λ text. is_word_of text t) (entry.id ∷ entry.title ∷ (entry.aliases ++ entry.keywords))
      || not (is_empty entry.command)
        && (contains (tokenize entry.command false true) t || names_concept entry.command t)

  module _ (t : Bytes) where
    -- A text of one of the sets that make up `all_tokens`.
    abbrev held : EntryDocument → Bool
    held d =
        contains d.id_tokens t
        || contains d.title_tokens t
        || contains d.alias_tokens t
        || contains d.keyword_tokens t
        || contains d.command_tokens t
        || contains d.concept_tokens t

    contains-all_tokens_of : (d : EntryDocument) → contains (all_tokens_of d) t ≡ held d
    unfolding all_tokens_of contains
    contains-all_tokens_of d =
        let named = add_tokens [] d.id_tokens in
        let titled = add_tokens named d.title_tokens in
        let aliased = add_tokens titled d.alias_tokens in
        let keyed = add_tokens aliased d.keyword_tokens in
        ground (
          arith,
          contains-add_tokens [] d.id_tokens t,
          contains-add_tokens named d.title_tokens t,
          contains-add_tokens titled d.alias_tokens t,
          contains-add_tokens aliased d.keyword_tokens t,
          contains-add_tokens keyed d.command_tokens t,
          contains-add_tokens (add_tokens keyed d.command_tokens) d.concept_tokens t,
        )

    contains-add_concepts :
        (target : List Bytes) (text : Bytes)
        → contains (add_concepts concepts target text) t
          ≡ (contains target t || names_concept text t)
    unfolding add_concepts
    contains-add_concepts target text = contains-add_tokens target _ t

    held-add_aliases :
        (aliases : List Bytes) (d : EntryDocument)
        → held (add_aliases concepts aliases d)
          ≡ (held d || any (λ text. is_word_of text t) aliases)
    unfolding add_aliases
    held-add_aliases [] d = ground arith
    held-add_aliases (alias ∷ aliases) d =
        held-add_aliases aliases _
        ∙ ground (
          arith,
          contains-add_tokens d.alias_tokens (tokenize alias true true) t,
          contains-add_concepts d.concept_tokens alias,
        )

    held-add_keywords :
        (keywords : List Bytes) (d : EntryDocument)
        → held (add_keywords concepts keywords d)
          ≡ (held d || any (λ text. is_word_of text t) keywords)
    unfolding add_keywords
    held-add_keywords [] d = ground arith
    held-add_keywords (keyword ∷ keywords) d =
        held-add_keywords keywords _
        ∙ ground (
          arith,
          contains-add_tokens d.keyword_tokens (tokenize keyword true true) t,
          contains-add_concepts d.concept_tokens keyword,
        )

    held-add_command :
        (entry : KnowledgeEntry) (d : EntryDocument)
        → held (add_command concepts entry d) ≡ (
            held d
            || not (is_empty entry.command)
              && (contains (tokenize entry.command false true) t || names_concept entry.command t))
    unfolding add_command command_tokens_of
    held-add_command entry d = elim (Bool-cases (is_empty entry.command)) [
      | inl e ↦ rw e (ground arith)
      | inr e ↦ rw e (
          ground (
            arith,
            contains-add_tokens d.command_tokens (tokenize entry.command false true) t,
            contains-add_concepts d.concept_tokens entry.command,
          ))
    ]

    held-titled :
        (entry : KnowledgeEntry)
        → held (titled concepts entry) ≡ (is_word_of entry.id t || is_word_of entry.title t)
    unfolding contains
    held-titled entry = ground (
      arith,
      contains-add_tokens [] (tokenize entry.id true true) t,
      contains-add_tokens [] (tokenize entry.title true true) t,
      contains-add_concepts [] entry.id,
      contains-add_concepts (add_concepts concepts [] entry.id) entry.title,
    )

    -- The document of an entry holds its words, and nothing else.
    pub contains-document_of :
        (entry : KnowledgeEntry)
        → contains (document_of concepts entry).all_tokens t ≡ is_word entry t
    unfolding document_of
    contains-document_of entry =
        let aliased = add_aliases concepts entry.aliases (titled concepts entry) in
        let keyed = add_keywords concepts entry.keywords aliased in
        contains-all_tokens_of (add_command concepts entry keyed)
        ∙ ground (
          arith,
          held-add_command entry keyed,
          held-add_keywords entry.keywords aliased,
          held-add_aliases entry.aliases (titled concepts entry),
          held-titled entry,
          any-append (λ text. is_word_of text t) entry.aliases entry.keywords,
        )
