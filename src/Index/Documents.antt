-- ===== src/Index/Documents.antt =====
-- The documents that `InvertedIndex::build` of src/index.cpp makes of the entries. A set of strings
-- is the list of its elements in the order of their insertion.
pub mod Words
pub mod Aliases
use howlinux.Base.{
  true, false, ◌&&◌, ◌||◌, not, List, [], ◌∷◌, ◌++◌, ◌≡◌, arith, map, ◌==◌, if◌then◌else◌, Bytes,
  codes, beq, beq_iff, contains, is_empty,
}
use howlinux.Query.Chars.{ascii_lower}
use howlinux.Query.Tokens.{tokenize, join_tokens}
use howlinux.Concepts.Detect.{ConceptMatch}
use howlinux.Concepts.Dictionary.{ConceptDictionary, detect}
use howlinux.Knowledge.{KnowledgeEntry}

-- `EntryDocument`
pub record EntryDocument : Type 0 where
  pub id_tokens : List Bytes
  pub title_tokens : List Bytes
  pub alias_tokens : List Bytes
  pub aliases_normalized : List Bytes
  pub keyword_tokens : List Bytes
  pub command_tokens : List Bytes
  pub concept_tokens : List Bytes
  pub all_tokens : List Bytes
  pub intents : List Bytes

-- `insert` of a set.
unfoldable pub insert : List Bytes → Bytes → List Bytes
insert target value = if contains target value then target else target ++ value ∷ []

-- `addTokens`, and `insert` of a range.
unfoldable pub add_tokens : List Bytes → List Bytes → List Bytes
unfolding insert
add_tokens target [] = target
add_tokens target (value ∷ values) = add_tokens (insert target value) values

-- `normalizeIntent`
unfoldable pub normalize_intent : Bytes → Bytes
unfolding ascii_lower
normalize_intent value = map (λ byte. if byte == b'-' then b'_' else ascii_lower byte) value

-- `addConcepts`
unfoldable pub add_concepts : ConceptDictionary → List Bytes → Bytes → List Bytes
unfolding add_tokens
add_concepts concepts target value =
    add_tokens target
      (map (λ (m : ConceptMatch). m.canonical) (detect concepts (tokenize value true false)))

-- A normalised alias that is not yet there.
unfoldable pub add_normalized : List Bytes → Bytes → List Bytes
add_normalized aliases normalized =
    if not (is_empty normalized) && not (contains aliases normalized)
    then aliases ++ normalized ∷ []
    else aliases

-- The loop over the aliases.
unfoldable pub add_aliases : ConceptDictionary → List Bytes → EntryDocument → EntryDocument
unfolding add_concepts add_normalized
add_aliases concepts [] document = document
add_aliases concepts (alias ∷ aliases) document =
    let alias_tokens = tokenize alias true true in
    add_aliases concepts aliases (record document {
      alias_tokens = add_tokens document.alias_tokens alias_tokens;
      aliases_normalized = add_normalized document.aliases_normalized (join_tokens alias_tokens);
      concept_tokens = add_concepts concepts document.concept_tokens alias;
    })

-- The loop over the keywords.
unfoldable pub add_keywords : ConceptDictionary → List Bytes → EntryDocument → EntryDocument
unfolding add_concepts
add_keywords concepts [] document = document
add_keywords concepts (keyword ∷ keywords) document =
    add_keywords concepts keywords (record document {
      keyword_tokens = add_tokens document.keyword_tokens (tokenize keyword true true);
      concept_tokens = add_concepts concepts document.concept_tokens keyword;
    })

-- `command_tokens` of an entry that has a command.
unfoldable pub command_tokens_of : KnowledgeEntry → List Bytes
command_tokens_of entry = if is_empty entry.command then [] else tokenize entry.command false true

unfoldable pub add_command : ConceptDictionary → KnowledgeEntry → EntryDocument → EntryDocument
unfolding command_tokens_of add_concepts
add_command concepts entry document = if is_empty entry.command then document else record document {
  command_tokens = add_tokens document.command_tokens (command_tokens_of entry);
  concept_tokens = add_concepts concepts document.concept_tokens entry.command;
}

-- The loop over the intents.
unfoldable pub add_intents : List Bytes → List Bytes → List Bytes
unfolding normalize_intent insert
add_intents [] intents = intents
add_intents (intent ∷ rest) intents =
    let normalized = normalize_intent intent in
    add_intents rest (if is_empty normalized then intents else insert intents normalized)

-- The intent of the entry's type.
unfoldable pub add_type : Bytes → List Bytes → List Bytes
unfolding insert
add_type normalized_type intents =
    if beq normalized_type (codes "howto") || beq normalized_type (codes "how_to")
    then insert intents (codes "how_to")
    else if beq normalized_type (codes "command")
    then insert intents (codes "command")
    else if beq normalized_type (codes "explain") || beq normalized_type (codes "explanation")
    then insert intents (codes "explain")
    else intents

-- `all_tokens`, from the other sets.
unfoldable pub all_tokens_of : EntryDocument → List Bytes
unfolding add_tokens
all_tokens_of document =
    add_tokens
      (add_tokens
        (add_tokens
          (add_tokens (add_tokens (add_tokens [] document.id_tokens) document.title_tokens)
            document.alias_tokens)
          document.keyword_tokens)
        document.command_tokens)
      document.concept_tokens

-- The document with the tokens and concepts of the entry's identifier and title.
abbrev pub titled : ConceptDictionary → KnowledgeEntry → EntryDocument
titled concepts entry = record {
  id_tokens = add_tokens [] (tokenize entry.id true true);
  title_tokens = add_tokens [] (tokenize entry.title true true);
  alias_tokens = [];
  aliases_normalized = [];
  keyword_tokens = [];
  command_tokens = [];
  concept_tokens = add_concepts concepts (add_concepts concepts [] entry.id) entry.title;
  all_tokens = [];
  intents = [];
}

-- One round of the loop over the entries.
unfoldable pub document_of : ConceptDictionary → KnowledgeEntry → EntryDocument
unfolding add_aliases add_keywords add_command add_intents add_type all_tokens_of
document_of concepts entry =
    let document = add_command concepts entry (
      add_keywords concepts entry.keywords
        (add_aliases concepts entry.aliases (titled concepts entry))) in
    record document {
      intents = add_type (normalize_intent entry.type) (add_intents entry.intents []);
      all_tokens = all_tokens_of document;
    }

pub contains-snoc :
    (xs : List Bytes) (y t : Bytes) → contains (xs ++ y ∷ []) t ≡ (contains xs t || beq y t)
unfolding contains
contains-snoc [] y t = ground arith
contains-snoc (x ∷ xs) y t = ground (arith, contains-snoc xs y t)

-- The elements of a set behind insertions.
contains-insert :
    (set : List Bytes) (value t : Bytes)
    → contains (insert set value) t ≡ (contains set t || beq value t)
unfolding insert
contains-insert set value t = ground (arith, contains-snoc set value t, beq_iff value t)

pub contains-add_tokens :
    (target values : List Bytes) (t : Bytes)
    → contains (add_tokens target values) t ≡ (contains target t || contains values t)
unfolding add_tokens contains
contains-add_tokens target [] t = ground arith
contains-add_tokens target (value ∷ values) t =
    ground
      (arith, contains-add_tokens (insert target value) values t, contains-insert target value t)
