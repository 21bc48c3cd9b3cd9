-- ===== src/Query/Processor/Laws.antt =====
-- The contexts that `QueryProcessor::process` of src/query.cpp returns.
use howlinux.Base.{
  true, false, ◌||◌, List, [], ◌∷◌, ◌≡◌, arith, Option, if◌then◌else◌, Bytes, contains, any, map,
  All, Bool-cases, inl, inr,
}
use howlinux.Query.Chars.{ascii_lower}
use howlinux.Query.Lexer.Scan.{lexical_tokens}
use howlinux.Query.Lexer.Case.{lexical_tokens-lower}
use howlinux.Query.Lexer.Shape.{IsToken}
use howlinux.Query.Lexer.Shape.Tokens.{lexical_tokens-IsToken}
use howlinux.Query.Tokens.{is_stopword, filter_tokens, tokenize, join_tokens}
use howlinux.Query.Tokens.Filter.{IsFiltered, filter_tokens-IsFiltered, filter_tokens-id}
use howlinux.Query.Tokens.RoundTrip.{lexical_tokens-join_tokens, tokenize-IsToken}
use howlinux.Query.Processor.{
  how_to, command, general, QueryContext, QueryProcessor, process, type_of_significant, significant,
  new_processor, looks_like_shell_syntax, first_is, action_verbs,
}
use howlinux.Query.Processor.Commands.{starts_with_command, known_command-tokens}
use howlinux.Concepts.Dictionary.{ConceptDictionary}

-- All of a context but the text that it was made from.
record SameContext (a b : QueryContext) : Type 0 where
  pub sequence_tokens : a.sequence_tokens ≡ b.sequence_tokens
  pub tokens : a.tokens ≡ b.tokens
  pub normalized_query : a.normalized_query ≡ b.normalized_query
  pub phrases : a.phrases ≡ b.phrases
  pub concepts : a.concepts ≡ b.concepts
  pub type : a.type ≡ b.type

process-tokens :
    (p : QueryProcessor) (a b : Bytes)
    → lexical_tokens a ≡ lexical_tokens b
    → SameContext (process p a) (process p b)
unfolding process tokenize
process-tokens p a b h = record {
  sequence_tokens = rw h;
  tokens = rw h;
  normalized_query = rw h;
  phrases = rw h;
  concepts = rw h;
  type = rw h;
}

-- A query in lower case has the context of the query.
process-lower :
    (p : QueryProcessor) (query : Bytes)
    → SameContext (process p (map ascii_lower query)) (process p query)
process-lower p query = process-tokens p _ _ (lexical_tokens-lower query)

filter_tokens-all : (ts seen : List Bytes) → filter_tokens false false ts seen ≡ ts
filter_tokens-all ts seen = filter_tokens-id false false ts seen (λ e. cc, λ e. cc)

-- The text of all the tokens of a query, with single blanks between them, has its context.
process-join_tokens :
    (p : QueryProcessor) (query : Bytes)
    → SameContext (process p (join_tokens (tokenize query false false))) (process p query)
process-join_tokens p query = process-tokens p _ _ (
    unfold tokenize in
    rw filter_tokens-all
      (lexical_tokens-join_tokens (lexical_tokens query) (lexical_tokens-IsToken query)))

-- The tokens of the context are words, options and redirections; none is a stopword, and `tokens`
-- holds none twice.
pub process-IsFiltered :
    (p : QueryProcessor) (query : Bytes)
    → All IsToken (process p query).tokens
      × All IsToken (process p query).sequence_tokens
      × IsFiltered true true [] (process p query).tokens
      × IsFiltered true false [] (process p query).sequence_tokens
unfolding process
process-IsFiltered p query = (
  tokenize-IsToken query true true,
  tokenize-IsToken query true false,
  unfold tokenize in filter_tokens-IsFiltered true true (lexical_tokens query) [],
  unfold tokenize in filter_tokens-IsFiltered true false (lexical_tokens query) [],
)

significant-IsToken : (ts : List Bytes) → All IsToken ts → All IsToken (significant ts)
unfolding significant
significant-IsToken [] h = tt
significant-IsToken (t ∷ ts) (ht, h) = elim (Bool-cases (is_stopword t)) [
  | inl e ↦ rw e (significant-IsToken ts h)
  | inr e ↦ rw e (ht, significant-IsToken ts h)
]

-- The kind of a query that no question word decides, over its significant tokens and the commands
-- that the constructor was given: a command if one of the tokens looks like shell syntax or the
-- tokens of a command stand first; else a how-to if an action verb stands first; else general.
pub type_of_significant-tokens :
    (concepts : Option ConceptDictionary) (names : List Bytes) (query : Bytes)
    → type_of_significant
        (new_processor concepts names).known_commands
        (significant (tokenize query false false))
      ≡ (let ts = significant (tokenize query false false) in
          if any looks_like_shell_syntax ts || any (starts_with_command ts) names
          then command
          else if first_is (contains action_verbs) ts
          then how_to
          else general)
unfolding type_of_significant
type_of_significant-tokens concepts names query =
    let ts = significant (tokenize query false false) in
    ground (
      arith,
      known_command-tokens concepts names ts
          (significant-IsToken _ (tokenize-IsToken query false false)),
    )
