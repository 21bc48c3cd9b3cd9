-- ===== src/Tests/Query.antt =====
-- The theorems on src/query.cpp at concrete queries.
use howlinux.Base.{
  true, false, ◌||◌, List, [], ◌∷◌, ◌≡◌, refl, arith, none, if◌then◌else◌, Bytes, codes, contains,
  any, All, inl,
}
use howlinux.Query.Lexer.Scan.{lexical_tokens}
use howlinux.Query.Lexer.Shape.{IsToken}
use howlinux.Query.Lexer.Shape.Tokens.{lexical_tokens-IsToken}
use howlinux.Query.Tokens.{tokenize, join_tokens}
use howlinux.Query.Tokens.Filter.{IsFiltered}
use howlinux.Base.Contains.{IsFresh}
use howlinux.Query.Tokens.RoundTrip.{tokenize-join_tokens}
use howlinux.Query.Phrases.{build_phrases}
use howlinux.Query.Phrases.Laws.{IsPhrasePart, IsPhrase, build_phrases_sound}
use howlinux.Query.Processor.{
  QueryProcessor, new_processor, process, significant, type_of_significant, looks_like_shell_syntax,
  first_is, action_verbs, command, how_to, general,
}
use howlinux.Query.Processor.Commands.{starts_with_command}
use howlinux.Query.Processor.Laws.{process-IsFiltered, type_of_significant-tokens}

abbrev query : Bytes
query = codes "How do I use tar.gz with --exclude 2>&1? Tar!"

abbrev commands : List Bytes
commands = codes "git" ∷ codes "Git  rebase" ∷ codes "?" ∷ []

abbrev processor : QueryProcessor
processor = new_processor none commands

tokenize-join_tokens_example :
    tokenize (join_tokens (tokenize query true true)) true true ≡ tokenize query true true
tokenize-join_tokens_example = tokenize-join_tokens query true true

lexical_tokens-IsToken_example : All IsToken (lexical_tokens query)
lexical_tokens-IsToken_example = lexical_tokens-IsToken query

abbrev words : List Bytes
words = codes "the" ∷ codes "file" ∷ codes "file" ∷ []

build_phrases_sound_example :
    All (IsPhrase words) (build_phrases words) × IsFresh [] (build_phrases words)
build_phrases_sound_example = build_phrases_sound words

abbrev end_part : IsPhrasePart words (codes "file" ∷ codes "file" ∷ [])
end_part = record {
  part_of = record { before = codes "the" ∷ []; behind = []; splits = refl };
  at_least = omega arith;
  at_most = inl (omega arith);
}

process-IsFiltered_example :
    All IsToken (process processor query).tokens
    × All IsToken (process processor query).sequence_tokens
    × IsFiltered true true [] (process processor query).tokens
    × IsFiltered true false [] (process processor query).sequence_tokens
process-IsFiltered_example = process-IsFiltered processor query

type_of_significant-tokens_example :
    type_of_significant
      (new_processor none commands).known_commands
      (significant (tokenize (codes "git rebase main") false false))
    ≡ (let ts = significant (tokenize (codes "git rebase main") false false) in
        if any looks_like_shell_syntax ts || any (starts_with_command ts) commands
        then command
        else if first_is (contains action_verbs) ts
        then how_to
        else general)
type_of_significant-tokens_example =
    type_of_significant-tokens none commands (codes "git rebase main")
