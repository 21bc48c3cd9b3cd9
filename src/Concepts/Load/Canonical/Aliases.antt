-- ===== src/Concepts/Load/Canonical/Aliases.antt =====
-- The loops over groups and aliases in `ConceptDictionary::load` of src/concepts.cpp keep the map
-- from phrases to names consistent.
use howlinux.Base.{
  List, [], ◌∷◌, ◌≡◌, refl, ◌∙◌, ap, arith, Option, none, some, Bytes, Bool-cases, inl, inr, beq,
  beq_iff, All, All-map,
}
use howlinux.Diagnostics.{Diagnostic}
use howlinux.Concepts.Dictionary.{Phrases, find}
use howlinux.Concepts.Groups.{ParsedConceptGroup}
use howlinux.Concepts.Load.{
  emplace, canonical_phrases, PhraseState, add_alias_phrase, next_alias, alias_phrases,
  group_phrases, phrase_state,
}
use howlinux.Concepts.Load.Order.{IsNormal}
use howlinux.Concepts.Load.Normal.{IsNormalGroup}
use howlinux.Concepts.Load.Canonical.{
  AreEntries, find-append, emplace-keeps, emplace-finds, emplace-AreEntries,
  canonical_phrases-AreEntries,
}

-- Before the aliases, each phrase stands for itself.
abbrev pub IsDiagonal : Phrases → Type 0
IsDiagonal phrases = (k v : Bytes) → find phrases k ≡ some v → v ≡ k

emplace-IsDiagonal :
    (phrases : Phrases) (name : Bytes) → IsDiagonal phrases → IsDiagonal (emplace phrases name name)
unfolding emplace
emplace-IsDiagonal phrases name h k v e =
    ground (arith, find-append phrases name name k, h k v, beq_iff name k)

emplace-name :
    (phrases : Phrases) (name : Bytes) (found : Option Bytes)
    → find phrases name ≡ found
    → IsDiagonal phrases
    → find (emplace phrases name name) name ≡ some name
emplace-name phrases name none e h = emplace-finds phrases name name e
emplace-name phrases name (some v) e h =
    emplace-keeps phrases name name name name (e ∙ ap some (h name v e))

canonical_phrases-keeps :
    (groups : List ParsedConceptGroup) (phrases : Phrases) (k v : Bytes)
    → find phrases k ≡ some v
    → find (canonical_phrases groups phrases) k ≡ some v
unfolding canonical_phrases
canonical_phrases-keeps [] phrases k v h = h
canonical_phrases-keeps (g ∷ groups) phrases k v h =
    canonical_phrases-keeps groups _ k v (emplace-keeps phrases g.canonical g.canonical k v h)

abbrev pub NamesFound : Phrases → List ParsedConceptGroup → Type 0
NamesFound phrases = All (λ (g : ParsedConceptGroup). find phrases g.canonical ≡ some g.canonical)

pub canonical_phrases-NamesFound :
    (groups : List ParsedConceptGroup) (phrases : Phrases)
    → IsDiagonal phrases
    → NamesFound (canonical_phrases groups phrases) groups
unfolding canonical_phrases
canonical_phrases-NamesFound [] phrases h = tt
canonical_phrases-NamesFound (g ∷ groups) phrases h = (
  canonical_phrases-keeps groups _ g.canonical g.canonical
      (emplace-name phrases g.canonical _ refl h),
  canonical_phrases-NamesFound groups _ (emplace-IsDiagonal phrases g.canonical h),
)

module _ (path canonical : Bytes) where
  add_alias_phrase-keeps :
      (alias : Bytes) (state : PhraseState) (found : Option Bytes) (k v : Bytes)
      → find state.phrases k ≡ some v
      → find (add_alias_phrase path canonical alias state found).phrases k ≡ some v
  unfolding add_alias_phrase
  add_alias_phrase-keeps alias state (some other) k v h = h
  add_alias_phrase-keeps alias state none k v h = emplace-keeps state.phrases alias canonical k v h

  add_alias_phrase-AreEntries :
      (alias : Bytes) (state : PhraseState) (found : Option Bytes)
      → find state.phrases alias ≡ found
      → IsNormal alias
      → IsNormal canonical
      → find state.phrases canonical ≡ some canonical
      → AreEntries state.phrases
      → AreEntries (add_alias_phrase path canonical alias state found).phrases
  unfolding add_alias_phrase
  add_alias_phrase-AreEntries alias state (some other) e n m f h = h
  add_alias_phrase-AreEntries alias state none e n m f h =
      emplace-AreEntries state.phrases alias canonical e n m
        (emplace-keeps state.phrases alias canonical canonical canonical f) h

  pub next_alias-keeps :
      (state : PhraseState) (alias k v : Bytes)
      → find state.phrases k ≡ some v
      → find (next_alias path canonical state alias).phrases k ≡ some v
  unfolding next_alias
  next_alias-keeps state alias k v h = elim (Bool-cases (beq alias canonical)) [
    | inl e ↦ rw e h
    | inr e ↦ rw e (add_alias_phrase-keeps alias state (find state.phrases alias) k v h)
  ]

  next_alias-AreEntries :
      (state : PhraseState) (alias : Bytes)
      → IsNormal alias
      → IsNormal canonical
      → find state.phrases canonical ≡ some canonical
      → AreEntries state.phrases
      → AreEntries (next_alias path canonical state alias).phrases
  unfolding next_alias
  next_alias-AreEntries state alias n m f h = elim (Bool-cases (beq alias canonical)) [
    | inl e ↦ rw e h
    | inr e ↦ rw e (add_alias_phrase-AreEntries alias state (find state.phrases alias) refl n m f h)
  ]

  pub alias_phrases-keeps :
      (aliases : List Bytes) (state : PhraseState) (k v : Bytes)
      → find state.phrases k ≡ some v
      → find (alias_phrases path canonical aliases state).phrases k ≡ some v
  unfolding alias_phrases
  alias_phrases-keeps [] state k v h = h
  alias_phrases-keeps (alias ∷ aliases) state k v h =
      alias_phrases-keeps aliases _ k v (next_alias-keeps state alias k v h)

  alias_phrases-AreEntries :
      (aliases : List Bytes) (state : PhraseState)
      → All IsNormal aliases
      → IsNormal canonical
      → find state.phrases canonical ≡ some canonical
      → AreEntries state.phrases
      → AreEntries (alias_phrases path canonical aliases state).phrases
  unfolding alias_phrases
  alias_phrases-AreEntries [] state n m f h = h
  alias_phrases-AreEntries (alias ∷ aliases) state (na, n) m f h =
      alias_phrases-AreEntries aliases _ n m (next_alias-keeps state alias canonical canonical f)
        (next_alias-AreEntries state alias na m f h)

group_phrases-AreEntries :
    (path : Bytes) (groups : List ParsedConceptGroup) (state : PhraseState)
    → All IsNormalGroup groups
    → NamesFound state.phrases groups
    → AreEntries state.phrases
    → AreEntries (group_phrases path groups state).phrases
unfolding group_phrases
group_phrases-AreEntries path [] state n f h = h
group_phrases-AreEntries path (g ∷ groups) state (ng, n) (fg, f) h =
    group_phrases-AreEntries path groups _ n
      (All-map
        (λ g' k. alias_phrases-keeps path g.canonical g.aliases state g'.canonical g'.canonical k)
        groups f)
      (alias_phrases-AreEntries path g.canonical g.aliases state ng.aliases ng.canonical fg h)

-- The map that `load` ends with.
pub phrase_state-AreEntries :
    (path : Bytes) (diagnostics : List Diagnostic) (groups : List ParsedConceptGroup)
    → All IsNormalGroup groups
    → AreEntries (phrase_state path diagnostics groups).phrases
unfolding phrase_state find
phrase_state-AreEntries path diagnostics groups n =
    group_phrases-AreEntries path groups _ n (canonical_phrases-NamesFound groups [] (λ k v e. cc))
      (canonical_phrases-AreEntries groups [] n tt)
