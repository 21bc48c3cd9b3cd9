-- ===== src/Index/Candidates/Aliases.antt =====
-- The entries of which a query is an alias, in the index of src/index.cpp.
use howlinux.Base.{
  ℕ, zero, suc, Bool, true, false, ◌||◌, List, [], ◌∷◌, ◌++◌, ◌≡◌, refl, sym, ap, subst, arith, map,
  some, Bytes, beq, beq_iff, beq_refl, contains, is_empty, any, any-append, Bool-cases, inl, inr,
}
use howlinux.Query.Lexer.Scan.{lexical_tokens}
use howlinux.Query.Tokens.{tokenize, join_tokens}
use howlinux.Query.Tokens.RoundTrip.{tokenize-join_tokens}
use howlinux.Concepts.Dictionary.{ConceptDictionary}
use howlinux.Knowledge.{KnowledgeEntry, entry_at}
use howlinux.Index.Documents.{document_of}
use howlinux.Index.Documents.Words.{is_word, is_word_of}
use howlinux.Index.Build.{document_at}
use howlinux.Index.Build.Words.{word_at}

pub any-contains :
    (p : Bytes → Bool) (xs : List Bytes) (x : Bytes)
    → contains xs x ≡ true
    → p x ≡ true
    → any p xs ≡ true
unfolding contains
any-contains p [] x h k = cc
any-contains p (y ∷ xs) x h k = elim (Bool-cases (beq y x)) [
  | inl e ↦ subst (λ z. (p z || any p xs) ≡ true) (sym ((beq_iff y x).0 e)) (ground (arith, k))
  | inr e ↦ ground (arith, any-contains p xs x (ground (arith, h, e)) k)
]

pub first-any :
    (p : Bytes → Bool) (tokens concepts : List Bytes)
    → is_empty tokens ≡ false
    → ((t : Bytes) → contains tokens t ≡ true → p t ≡ true)
    → any p (tokens ++ concepts) ≡ true
unfolding contains
first-any p [] concepts h k = absurd (ground (arith, h))
first-any p (t ∷ tokens) concepts h k = ground (arith, k t (ground (arith, beq_refl t)))

tokenize-nil : tokenize [] true true ≡ []
unfolding tokenize lexical_tokens
tokenize-nil = refl

-- Tokens that are read from a text are not joined to nothing.
pub join-filled :
    (text : Bytes)
    → is_empty (tokenize text true true) ≡ false
    → is_empty (join_tokens (tokenize text true true)) ≡ false
join-filled text h =
    by_text (join_tokens (tokenize text true true)) (tokenize-join_tokens text true true)
  where
    by_text :
        (joined : Bytes)
        → tokenize joined true true ≡ tokenize text true true
        → is_empty joined ≡ false
    by_text [] same = absurd (ground (arith, rw (← same, tokenize-nil) at h))
    by_text (c ∷ joined) same = refl

module _ (concepts : ConceptDictionary) where
  pub word_at-entry :
      (entries : List KnowledgeEntry) (i : ℕ) (entry : KnowledgeEntry) (t : Bytes)
      → entry_at entries i ≡ some entry
      → is_word concepts entry t ≡ true
      → word_at concepts entries i t ≡ true
  unfolding entry_at
  word_at-entry [] i entry t h k = absurd (cc h)
  word_at-entry (e ∷ entries) zero entry t h k =
      let same : e ≡ entry = cc h in subst (λ f. is_word concepts f t ≡ true) (sym same) k
  word_at-entry (e ∷ entries) (suc i) entry t h k = word_at-entry entries i entry t h k

  pub document_at-entry :
      (entries : List KnowledgeEntry) (i : ℕ) (entry : KnowledgeEntry)
      → entry_at entries i ≡ some entry
      → document_at (map (document_of concepts) entries) i ≡ some (document_of concepts entry)
  unfolding entry_at document_at
  document_at-entry [] i entry h = absurd (cc h)
  document_at-entry (e ∷ entries) zero entry h =
      let same : e ≡ entry = cc h in ap (λ f. some (document_of concepts f)) same
  document_at-entry (e ∷ entries) (suc i) entry h = document_at-entry entries i entry h

  pub alias-is_word :
      (entry : KnowledgeEntry) (alias t : Bytes)
      → contains entry.aliases alias ≡ true
      → contains (tokenize alias true true) t ≡ true
      → is_word concepts entry t ≡ true
  alias-is_word entry alias t h k = ground (
    arith,
    any-append (λ text. is_word_of concepts text t) entry.aliases entry.keywords,
    any-contains (λ text. is_word_of concepts text t) entry.aliases alias h (ground (arith, k)),
  )
