-- ===== src/Index/Build/Words.antt =====
-- The postings that `InvertedIndex::build` of src/index.cpp makes, by the words of the entries.
use howlinux.Base.{ℕ, zero, suc, Bool, false, List, [], ◌∷◌, ◌≡◌, refl, ◌∙◌, map, Bytes, beq}
use howlinux.Base.Multimap.{values_at}
use howlinux.Concepts.Dictionary.{ConceptDictionary}
use howlinux.Knowledge.{KnowledgeEntry}
use howlinux.Index.Documents.{document_of}
use howlinux.Index.Documents.Words.{is_word, contains-document_of}
use howlinux.Index.Build.{document_at, known_commands_of, build}
use howlinux.Index.Build.Postings.{has, document_holds, posting-document_holds}

module _ (concepts : ConceptDictionary) where
  -- The entry at an index has the word.
  abbrev pub word_at : List KnowledgeEntry → ℕ → Bytes → Bool
  word_at [] i t = false
  word_at (entry ∷ entries) zero t = is_word concepts entry t
  word_at (entry ∷ entries) (suc i) t = word_at entries i t

  pub document_holds-word_at :
      (entries : List KnowledgeEntry) (i : ℕ) (t : Bytes)
      → document_holds (map (document_of concepts) entries) i t ≡ word_at entries i t
  unfolding document_at
  document_holds-word_at [] i t = refl
  document_holds-word_at (entry ∷ entries) zero t = contains-document_of concepts t entry
  document_holds-word_at (entry ∷ entries) (suc i) t = document_holds-word_at entries i t

  -- In the index that `build` makes, the posting of a text holds an index exactly if the text is a word of
  -- the entry at the index: a token, but for the stopwords, of its identifier, its title, an alias or a
  -- keyword, a token of its command, or the name of a concept that the dictionary detects in one of these.
  pub posting-build :
      (entries : List KnowledgeEntry) (t : Bytes) (i : ℕ)
      → has (values_at beq (build entries concepts).postings t) i ≡ word_at entries i t
  unfolding build
  posting-build entries t i =
      posting-document_holds (map (document_of concepts) entries) (known_commands_of entries []) t i
      ∙ document_holds-word_at entries i t
