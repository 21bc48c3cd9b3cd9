-- ===== src/Tests/Index.antt =====
-- The theorems on src/index.cpp at concrete words and entries.
use howlinux.Base.{
  ◌+◌, ◌-◌, ◌&&◌, ◌||◌, not, List, [], ◌∷◌, ◌++◌, ◌≡◌, ◌≢◌, refl, none, map, leb, ◌==◌, Bytes,
  codes, contains, beq, length, any, All,
}
use howlinux.Base.Multimap.{values_at}
use howlinux.Query.Processor.{QueryContext, new_processor, process}
use howlinux.Concepts.Dictionary.{empty_dictionary}
use howlinux.Knowledge.{KnowledgeEntry}
use howlinux.Index.Distance.{distance}
use howlinux.Index.Distance.Scripts.{IsLeast}
use howlinux.Index.Distance.Exact.{UpTo, text_distance, distance-IsLeast}
use howlinux.Index.Documents.{EntryDocument, document_of}
use howlinux.Index.Build.{index_of, document_at, build}
use howlinux.Index.Build.Postings.{has}
use howlinux.Index.Build.Words.{word_at, posting-build}
use howlinux.Index.Candidates.{default_config, is_protected_from_fuzzy, near_lengths, candidates}
use howlinux.Index.Candidates.Words.{near_word_at, has-candidates-build}
use howlinux.Index.Candidates.Near.{is_near, near_lengths-distance}
use howlinux.Index.Candidates.Order.{IsAscending, candidates-IsAscending}

distance-IsLeast_example :
    IsLeast (codes "hcmod") (codes "chmod") (text_distance (codes "hcmod") (codes "chmod"))
    × UpTo 2
        (text_distance (codes "hcmod") (codes "chmod"))
        (distance (codes "hcmod") (codes "chmod") 2)
distance-IsLeast_example = distance-IsLeast (codes "hcmod") (codes "chmod") 2

-- A swap and an insertion between its bytes would be two edits.
restricted : distance (codes "ca") (codes "abc") 3 ≡ 3
unfolding distance beq
restricted = refl

abbrev entry : Bytes → Bytes → List Bytes → KnowledgeEntry
entry id command aliases = record {
  id = id;
  title = id;
  type = codes "howto";
  command = command;
  aliases = aliases;
  keywords = codes "permission" ∷ [];
  related = [];
  intents = [];
  difficulty = [];
  platforms = [];
  tags = [];
  examples = [];
  category = [];
  source_directory = [];
  content = [];
}

abbrev entries : List KnowledgeEntry
entries =
    entry (codes "chmod") (codes "chmod") (codes "change mode" ∷ [])
    ∷ entry (codes "list-files") (codes "ls") (codes "show files" ∷ [])
    ∷ []

abbrev documents : List EntryDocument
documents = map (document_of empty_dictionary) entries

abbrev commands : List Bytes
commands = codes "chmod" ∷ codes "ls" ∷ []

abbrev query : QueryContext
query = process (new_processor none commands) (codes "list permision")

posting-build_example :
    has (values_at beq (build entries empty_dictionary).postings (codes "files")) 1
    ≡ word_at empty_dictionary entries 1 (codes "files")
posting-build_example = posting-build empty_dictionary entries (codes "files") 1

has-candidates-build_example :
    has (candidates (build entries empty_dictionary) query default_config).entry_indices 0 ≡ (
      any (word_at empty_dictionary entries 0) (query.tokens ++ query.concepts)
      || any (near_word_at entries empty_dictionary query default_config 0) query.tokens)
has-candidates-build_example = has-candidates-build entries empty_dictionary query default_config 0

candidates-IsAscending_example :
    IsAscending (candidates (index_of documents commands) query default_config).entry_indices
    × All
        (λ i. document_at documents i ≢ none)
        (candidates (index_of documents commands) query default_config).entry_indices
candidates-IsAscending_example = candidates-IsAscending documents commands query default_config

near_lengths-distance_example :
    any (is_near (codes "permission") 1) (
      near_lengths
        (index_of documents commands)
        (codes "permision")
        2
        (length (codes "permision") + 2 + 1 - (length (codes "permision") - 2))
        (length (codes "permision") - 2))
    ≡ (contains (index_of documents commands).vocabulary (codes "permission")
        && not (is_protected_from_fuzzy (codes "permission") commands)
        && leb (text_distance (codes "permision") (codes "permission")) 2
        && text_distance (codes "permision") (codes "permission") == 1)
near_lengths-distance_example =
    near_lengths-distance documents commands (codes "permision") 2 (codes "permission") 1
