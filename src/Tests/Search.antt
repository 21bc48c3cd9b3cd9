-- ===== src/Tests/Search.antt =====
-- The theorems on src/search.cpp, with hundredths of whole numbers for the doubles.
use howlinux.Base.{
  ◌&&◌, not, is_empty, List, Bytes, true, false, ℕ, ◌+◌, ◌-◌, ◌*◌, ◌/◌, [], ◌∷◌, ◌≡◌, refl, arith,
  Option, none, some, ltb, ◌==◌, codes, contains, beq,
}
use howlinux.Base.Sort.{sort_by}
use howlinux.Concepts.Dictionary.{empty_dictionary, is_empty_dictionary}
use howlinux.Concepts.Detect.{detect}
use howlinux.Knowledge.{KnowledgeEntry, entry_at}
use howlinux.Search.Score.Positive.{IsMonotone}
use howlinux.Search.Engine.Alias.{FindsAlias, search-FindsAlias}
use howlinux.Query.Tokens.{tokenize, is_stopword, join_tokens}
use howlinux.Query.Tokens.RoundTrip.{tokenize-IsToken}
use howlinux.Search.Phrase.{contains_normalized_phrase}
use howlinux.Search.Phrase.Laws.{has_part, contains_normalized_phrase-tokens}
use howlinux.Query.Lexer.Scan.{lexical_tokens}
use howlinux.Search.Doubles.{Doubles, IsOrdered, default_search_config}
use howlinux.Search.Engine.{SearchResponse, SearchEngine, new_engine, search_for_query}
use howlinux.Search.Engine.Answer.{IsAnswer, search-IsAnswer}
use howlinux.Query.Processor.{QueryContext, process, new_processor}
use howlinux.Index.Build.Postings.{has}
use howlinux.Index.Candidates.{CandidateSet, candidates}
use howlinux.Search.Score.{SearchResult, no_score}
use howlinux.Search.Engine.{score}
use howlinux.Search.Engine.Best.{IsBest, search-IsBest}
use howlinux.Search.Engine.Answer.{IsMeaningful}
use howlinux.Search.Policy.{decide}
use howlinux.Search.Policy.Laws.{IsDecision, decide-search}

abbrev pub numbers : Doubles
numbers = record {
  Double = ℕ;
  hundredths = λ n. n;
  plus = λ x y. x + y;
  minus = λ x y. x - y;
  times = λ x y. x * y / 100;
  less = ltb;
  same = ◌==◌;
  fixed = λ x. [];
  rarity = λ r. 100;
}

pub numbers-IsOrdered : IsOrdered numbers
numbers-IsOrdered = record {
  asym = λ x y h. ground arith;
  neg_trans = λ x y z h k. ground arith;
  same_iff = λ x y. ground arith;
}

abbrev pub entry : KnowledgeEntry
entry = record {
  id = codes "cp";
  title = codes "cp";
  type = [];
  command = [];
  aliases = [];
  keywords = [];
  related = [];
  intents = [];
  difficulty = [];
  platforms = [];
  tags = [];
  examples = [];
  category = [];
  source_directory = [];
  content = [];
}

abbrev engine : SearchEngine numbers
engine = new_engine numbers (entry ∷ []) empty_dictionary (default_search_config numbers)

search-IsAnswer_example :
    IsAnswer numbers
      (default_search_config numbers)
      3
      (search_for_query numbers engine (codes "cp") 3)
search-IsAnswer_example =
    search-IsAnswer numbers numbers-IsOrdered (entry ∷ []) empty_dictionary
      (default_search_config numbers) (codes "cp") 3

abbrev response_of : Option (SearchResponse numbers) → SearchResponse numbers
response_of (some response) = response
response_of none = record { query = process (new_processor none []) []; results = [] }

abbrev response : SearchResponse numbers
response = response_of (search_for_query numbers engine (codes "cp") 3)

returns : search_for_query numbers engine (codes "cp") 3 ≡ some response
unfolding search_for_query tokenize lexical_tokens is_stopword new_engine is_empty_dictionary detect
    sort_by
returns = refl

decide-search_example :
    IsDecision numbers
      (default_search_config numbers)
      response.results
      (decide numbers (default_search_config numbers) response.results)
decide-search_example =
    decide-search numbers numbers-IsOrdered (entry ∷ []) empty_dictionary
      (default_search_config numbers) (codes "cp") 3 response returns

abbrev query : QueryContext
query = process engine.query_processor (codes "cp")

abbrev found : CandidateSet
found = candidates engine.index query (default_search_config numbers).fuzzy

abbrev result_or : SearchResult numbers → Option (SearchResult numbers) → SearchResult numbers
result_or other (some r) = r
result_or other none = other

abbrev result : SearchResult numbers
result =
    result_or
      (record {
        entry = entry;
        score = 0;
        breakdown = no_score numbers;
        fuzzy_used = false;
        match_reasons = [];
      })
      (score numbers engine query found 0)

found-entry : has found.entry_indices 0 ≡ true
unfolding search_for_query tokenize lexical_tokens is_stopword new_engine is_empty_dictionary detect
    sort_by
found-entry = refl

scored-result : score numbers engine query found 0 ≡ some result
unfolding search_for_query tokenize lexical_tokens is_stopword new_engine is_empty_dictionary detect
    sort_by
scored-result = refl

result-IsMeaningful : IsMeaningful numbers (default_search_config numbers) result
unfolding search_for_query tokenize lexical_tokens is_stopword new_engine is_empty_dictionary detect
    sort_by
result-IsMeaningful = refl

search-IsBest_example : IsBest numbers (default_search_config numbers) 3 result response.results
search-IsBest_example =
    search-IsBest numbers numbers-IsOrdered (entry ∷ []) empty_dictionary
      (default_search_config numbers) (codes "cp") 3 response 0 result returns found-entry
      scored-result result-IsMeaningful

abbrev words : Bytes → List Bytes
words text' = tokenize text' true true

contains_normalized_phrase-tokens_example :
    contains_normalized_phrase
      (join_tokens (words (codes "copy one file now")))
      (join_tokens (words (codes "one file")))
    ≡ (not (is_empty (words (codes "copy one file now")))
        && not (is_empty (words (codes "one file")))
        && has_part (words (codes "copy one file now")) (words (codes "one file")))
contains_normalized_phrase-tokens_example =
    contains_normalized_phrase-tokens (words (codes "copy one file now")) (words (codes "one file"))
      (tokenize-IsToken (codes "copy one file now") true true)
      (tokenize-IsToken (codes "one file") true true)

numbers-IsMonotone : IsMonotone numbers
numbers-IsMonotone = record {
  grows = λ x y h. ground arith;
  product = λ x y h k. ground arith;
  literals = λ n m h. ground (arith, h);
  logarithm = λ r h. refl;
}

-- An entry with an alias that holds a stopword.
abbrev copy : KnowledgeEntry
copy = record entry { aliases = codes "move" ∷ codes "Copy the files" ∷ [] }

second : entry_at (entry ∷ copy ∷ []) 1 ≡ some copy
unfolding entry_at
second = refl

its_alias : contains copy.aliases (codes "Copy the files") ≡ true
unfolding contains beq
its_alias = refl

same_tokens : tokenize (codes "Copy the files") true true ≡ tokenize (codes "copy files!") true true
unfolding tokenize lexical_tokens is_stopword
same_tokens = refl

has_tokens : is_empty (tokenize (codes "copy files!") true true) ≡ false
unfolding tokenize lexical_tokens is_stopword
has_tokens = refl

search-FindsAlias_example : FindsAlias numbers copy 3 (
    search_for_query numbers
      (new_engine numbers (entry ∷ copy ∷ []) empty_dictionary (default_search_config numbers))
      (codes "copy files!")
      3)
search-FindsAlias_example =
    search-FindsAlias numbers numbers-IsOrdered numbers-IsMonotone (entry ∷ copy ∷ [])
      empty_dictionary (codes "copy files!") 3 1 copy (codes "Copy the files") second its_alias
      same_tokens has_tokens
