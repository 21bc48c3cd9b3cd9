-- ===== src/Lib.antt =====
-- howlinux: an offline command-line search in a knowledge base about Linux.
--
-- The knowledge base is a tree of directories, each entry a directory below a category with a file of
-- metadata and one of Markdown; it is walked over, read and checked (src/knowledge.cpp), and a file of
-- concepts beside it is read into a dictionary of phrases (src/concepts.cpp). A query is read into
-- tokens and phrases (src/query.cpp), an inverted index over the entries yields candidates, with near
-- misses by edit distance (src/index.cpp), which are scored, sorted and decided on (src/search.cpp).
-- The command line (src/cli.cpp) says what to run, the application (src/app.cpp) runs it, and the
-- answer is written as JSON or as text for a terminal (src/render.cpp, src/markdown.cpp).
--
-- Files, and the code that they model:
--   Base         lists, texts as lists of bytes, Boolean tests, numbers, sorting by insertion;
--                `std::sort` is the stable `sort_by`, which is one of the orders that it may leave
--   Diagnostics  include/diagnostics.hpp, and `formatDiagnostic`
--   Files        what the program asks of the file system
--   Yaml         documents as the program reads them from yaml-cpp
--   Query        src/query.cpp: Chars (byte classes), Lexer (`lexicalTokens`, `appendChunk`,
--                `appendDotAware`), Tokens (`tokenize`, `joinTokens`), Phrases (`buildPhrases`),
--                Processor (`QueryProcessor`)
--   Concepts     src/concepts.cpp: Groups and Load (`load`), Cycles (`detectCycles`), Detect
--                (`detect`), Dictionary (`canonicalForPhrase`)
--   Knowledge    include/knowledge.hpp and src/knowledge.cpp: Reader (texts, files and the readers of
--                YAML nodes), Metadata (the fields of the metadata), Entry (`loadEntry`), Ids
--                (`isValidId` and the order of the entries), Scan (the walk over the directories),
--                Load (`KnowledgeBase::load`), Lookup (`rebuildLookup`, `findById`), Lint (the checks
--                behind `validate`: Links, Markdown, Aliases, and Run for `lint`)
--   Index        src/index.cpp: Documents and Build (`InvertedIndex::build`), Candidates
--                (`InvertedIndex::candidates`), Distance (`damerauLevenshteinDistance`, the restricted
--                distance: no part is edited twice)
--   Search       src/search.cpp: Doubles (the operations on `double`), Phrase
--                (`containsNormalizedPhrase`), Fuzzy and Score (`SearchEngine::score`), Engine
--                (`SearchEngine::search`), Policy (`ResultPolicy::decide`)
--   Markdown     src/markdown.cpp: Text, Inline (one line) and Blocks (`renderMarkdown`)
--   Render       src/render.cpp: Utf8 (`decodeUtf8`), Escape (`escapeJson`, `humanSafe`), Number, Json
--                (the JSON outputs, and a reader of JSON in Json/Grammar), Total (`breakdownTotal`),
--                Human (the outputs for a terminal), Write (streams)
--   Cli          src/cli.cpp: Limit (`parseLimit`), Parse (`parseCommandLine`)
--   App          src/app.cpp: Outcome (surroundings and exit codes), Resolve (the path of the knowledge
--                base, the help), Commands, Find (`search`), and `runApplication`;
--                Main for src/main.cpp
--   Tests        the theorems at concrete inputs
--
-- How they interact: `run_application` takes the record `Surroundings` of what the program asks of its
-- surroundings, parses the arguments, resolves the path, runs `load` of the knowledge base and of the
-- concepts, and then the command of the options: `lint`, a lookup, or `search_for_query` and `decide`
-- over the loaded entries. It answers an exit code and the bytes on the two streams, or that an
-- exception or a null pointer ended it.
--
-- State: an object is a record and a method that changes it is a function to the new record;
-- `ConceptDictionary::load` and `KnowledgeBase::load` are functions from what the file system and
-- yaml-cpp answer to the object that they leave. A hash set or map is a list; where the code walks over
-- one, in `QueryProcessor` and at the end of `ConceptDictionary::load`, the result does not depend on
-- the order, or is sorted. A stream is a function that puts text in front of what is written later.
--
-- Numbers: `parseLimit` checks the range of a 64-bit `std::size_t` as `std::from_chars` does. Sizes and
-- offsets of texts are natural numbers: they are bounded by the memory that the texts take. The
-- doubles of the scores are a parameter, a record of the operations that the code uses; where a theorem
-- needs their comparisons to be orders, as they are without a NaN, it has that as a hypothesis
-- (`IsOrdered`), and so where sums and products of numbers that are not negative must not fall below
-- their parts (`IsMonotone`). What a stream prints of a double is a parameter too, the record
-- `Printing`.
--
-- Loops: those over a list are structural; where the code advances an offset by more than one, as in
-- `escapeJson` and the Markdown reader, the function has the number of bytes that are still to be
-- skipped. `lexicalTokens` and `ConceptDictionary::detect` have as fuel the number of bytes and of
-- tokens, of which each round reads one at least; `detectCycles` has the number of groups as the depth
-- of its search, since each call marks a group that was not marked; Concepts.Cycles.Depth counts
-- them. The loop over the lengths of near tokens counts them. The walk over the directories in
-- `KnowledgeBase::load` has fuel, one for each directory that is read; it needs as much as there are
-- directories from the root down that are no symbolic links, which are finitely many where they are
-- nested to a finite depth.
--
-- Not modelled: the file system, the YAML parser, the arithmetic on doubles and how they are printed,
-- whose answers are arguments; the test of `terminalColorEnabled` whether the output is a terminal,
-- whose answer is an argument; the layout and the reservation of memory; the build, the tests and the data.
pub mod Base
pub mod Diagnostics
pub mod Yaml
pub mod Query
pub mod Concepts
pub mod Knowledge
pub mod Index
pub mod Search
pub mod Render
pub mod Markdown
pub mod Cli
pub mod App
pub mod Tests
pub mod Files
