-- ===== src/Query/Processor.antt =====
-- `QueryProcessor` of src/query.cpp. `raw_query` is a parameter of `detectType` that it does not use.
pub mod Commands
pub mod Laws
use howlinux.Base.{
  ℕ, ◌+◌, Bool, true, false, ◌&&◌, ◌||◌, not, List, [], ◌∷◌, ◌++◌, ◌≡◌, refl, map, Option, none,
  some, ltb, ◌==◌, if◌then◌else◌, Bytes, codes, beq, contains, length, any, is_empty,
}
use howlinux.Query.Chars.{is_ascii_digit, is_direction}
use howlinux.Query.Lexer.Word.{is_flag_chunk}
use howlinux.Query.Tokens.{is_stopword, tokenize, join_tokens}
use howlinux.Query.Phrases.{build_phrases, push_new}
use howlinux.Concepts.Detect.{ConceptMatch}
use howlinux.Concepts.Dictionary.{ConceptDictionary, is_empty_dictionary, detect}

pub data QueryType : Type 0 where
  explain how_to why command general : QueryType

-- `queryTypeName`
unfoldable pub query_type_name : QueryType → Bytes
query_type_name explain = codes "explain"
query_type_name how_to = codes "how_to"
query_type_name why = codes "why"
query_type_name command = codes "command"
query_type_name general = codes "general"

pub record QueryContext : Type 0 where
  pub original : Bytes
  pub sequence_tokens : List Bytes
  pub tokens : List Bytes
  pub normalized_query : Bytes
  pub phrases : List Bytes
  pub concepts : List Bytes
  pub type : QueryType

-- `concepts` is the null pointer in a processor without a dictionary.
pub record QueryProcessor : Type 0 where
  pub concepts : Option ConceptDictionary
  pub known_commands : List Bytes

-- `beginsWith`
unfoldable pub begins_with : List Bytes → List Bytes → Bool
begins_with tokens [] = true
begins_with [] (p ∷ prefix) = false
begins_with (t ∷ tokens) (p ∷ prefix) = beq p t && begins_with tokens prefix

-- The text behind the digits at its start.
unfoldable pub skip_digits : Bytes → Bytes
skip_digits [] = []
skip_digits (c ∷ s) = if is_ascii_digit c then skip_digits s else c ∷ s

unfoldable pub starts_direction : Bytes → Bool
starts_direction [] = false
starts_direction (c ∷ s) = is_direction c

-- `looksLikeShellSyntax`: `index > 0` says that the first byte is a digit.
unfoldable pub looks_like_shell_syntax : Bytes → Bool
looks_like_shell_syntax [] = is_flag_chunk []
looks_like_shell_syntax (c ∷ s) =
    is_flag_chunk (c ∷ s) || is_ascii_digit c && starts_direction (skip_digits s)

-- The bytes of a command and a blank start `normalized`.
unfoldable pub starts_command : Bytes → Bytes → Bool
starts_command normalized [] = elim normalized [ [] ↦ false | c ∷ s ↦ c == b' ' ]
starts_command [] (p ∷ name) = false
starts_command (c ∷ normalized) (p ∷ name) = p == c && starts_command normalized name

-- The test on one of `known_commands_`.
unfoldable pub is_command_query : Bytes → Bytes → Bool
unfolding starts_command
is_command_query normalized name = beq normalized name || starts_command normalized name

abbrev pub action_verbs : List Bytes
action_verbs =
    codes "add"
    ∷ codes "change"
    ∷ codes "copy"
    ∷ codes "create"
    ∷ codes "delete"
    ∷ codes "extract"
    ∷ codes "find"
    ∷ codes "install"
    ∷ codes "list"
    ∷ codes "make"
    ∷ codes "move"
    ∷ codes "remove"
    ∷ codes "rename"
    ∷ codes "replace"
    ∷ codes "set"
    ∷ codes "unpack"
    ∷ codes "update"
    ∷ []

-- `significant_tokens`
unfoldable pub significant : List Bytes → List Bytes
significant [] = []
significant (token ∷ tokens) =
    let rest = significant tokens in if is_stopword token then rest else token ∷ rest

abbrev pub first_is : (Bytes → Bool) → List Bytes → Bool
first_is test [] = false
first_is test (token ∷ tokens) = test token

-- The tests of `detectType` behind those on the question words.
unfoldable pub type_of_significant : List Bytes → List Bytes → QueryType
unfolding looks_like_shell_syntax is_command_query
type_of_significant known_commands significant_tokens =
    if any looks_like_shell_syntax significant_tokens
    then command
    else if any (is_command_query (join_tokens significant_tokens)) known_commands
    then command
    else if first_is (contains action_verbs) significant_tokens
    then how_to
    else general

-- `detectType`
unfoldable pub detect_type : QueryProcessor → List Bytes → QueryType
unfolding type_of_significant begins_with
detect_type processor tokens =
    if is_empty tokens
    then general
    else if first_is (beq (codes "why")) tokens
    then why
    else if first_is
          (λ t.
            beq (codes "what") t
            || beq (codes "explain") t
            || beq (codes "define") t
            || beq (codes "describe") t)
          tokens
        || begins_with tokens (codes "meaning" ∷ codes "of" ∷ [])
    then explain
    else if first_is (beq (codes "how")) tokens
        || begins_with tokens (codes "show" ∷ codes "me" ∷ [])
        || begins_with tokens (codes "help" ∷ codes "me" ∷ [])
    then how_to
    else type_of_significant processor.known_commands (significant tokens)

-- The loop of the constructor over the commands.
unfoldable pub add_commands : List Bytes → List Bytes → List Bytes
add_commands known [] = known
add_commands known (name ∷ names) =
    let command_tokens = tokenize name false false in
    let joined = join_tokens command_tokens in
    add_commands
      (if is_empty command_tokens || contains known joined then known else joined ∷ known) names

-- The constructor
unfoldable pub new_processor : Option ConceptDictionary → List Bytes → QueryProcessor
unfolding add_commands
new_processor concepts known_commands = record {
  concepts = concepts;
  known_commands = add_commands [] known_commands;
}

-- The names of the matches, each the first time.
unfoldable pub detected_concepts : Option ConceptDictionary → List Bytes → List Bytes
detected_concepts none tokens = []
detected_concepts (some dictionary) tokens =
    if is_empty_dictionary dictionary
    then []
    else push_new (map (λ (m : ConceptMatch). m.canonical) (detect dictionary tokens)) []

-- `process`
unfoldable pub process : QueryProcessor → Bytes → QueryContext
unfolding detect_type detected_concepts
process processor raw_query =
    let intent_tokens = tokenize raw_query false false in
    let sequence_tokens = tokenize raw_query true false in
    let tokens = tokenize raw_query true true in
    record {
      original = raw_query;
      sequence_tokens = sequence_tokens;
      tokens = tokens;
      normalized_query = join_tokens tokens;
      phrases = build_phrases sequence_tokens;
      concepts = detected_concepts processor.concepts sequence_tokens;
      type = detect_type processor intent_tokens;
    }
