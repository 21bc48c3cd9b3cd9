-- ===== src/Concepts/Load/Canonical.antt =====
-- The map from phrases to names that `ConceptDictionary::load` in src/concepts.cpp makes.
pub mod Aliases
pub mod Dictionary
use howlinux.Base.{
  ℕ, Bool, true, false, ◌||◌, not, List, [], ◌∷◌, ◌++◌, ◌≡◌, refl, sym, ◌∙◌, ap, subst, arith,
  Option, none, some, map, if◌then◌else◌, Bytes, codes, Bool-cases, inl, inr, beq, beq_iff,
  beq_refl, is_empty, All, All-map, All-append,
}
use howlinux.Diagnostics.{Diagnostic}
use howlinux.Concepts.Dictionary.{Phrases, find, normalize_phrase}
use howlinux.Concepts.Groups.{ParsedConceptGroup}
use howlinux.Concepts.Load.{
  emplace_found, emplace, canonical_phrases, PhraseState, add_alias_phrase, alias_phrases,
  group_phrases, phrase_state,
}
use howlinux.Concepts.Load.Order.{IsNormal}
use howlinux.Concepts.Load.Normal.{IsNormalGroup}

-- An entry of the map: it is what `find` finds, and its name stands for itself.
pub record IsEntry (phrases : Phrases) (entry : Bytes × Bytes) : Type 0 where
  pub phrase_normal : IsNormal entry.0
  pub name_normal : IsNormal entry.1
  pub found : find phrases entry.0 ≡ some entry.1
  pub name_found : find phrases entry.1 ≡ some entry.1

abbrev pub AreEntries : Phrases → Type 0
AreEntries phrases = All (IsEntry phrases) phrases

pub find-append :
    (phrases : Phrases) (phrase canonical k : Bytes)
    → find (phrases ++ (phrase, canonical) ∷ []) k ≡ elim (find phrases k) [
      | some v ↦ some v
      | none ↦ if beq phrase k then some canonical else none
    ]
unfolding find
find-append [] phrase canonical k = refl
find-append ((j, v) ∷ phrases) phrase canonical k =
    ground (arith, find-append phrases phrase canonical k)

-- What is found stays found.
pub emplace-keeps :
    (phrases : Phrases) (phrase canonical k v : Bytes)
    → find phrases k ≡ some v
    → find (emplace phrases phrase canonical) k ≡ some v
unfolding emplace
emplace-keeps phrases phrase canonical k v h =
    ground (arith, find-append phrases phrase canonical k)

pub emplace-finds :
    (phrases : Phrases) (phrase canonical : Bytes)
    → find phrases phrase ≡ none
    → find (emplace phrases phrase canonical) phrase ≡ some canonical
unfolding emplace
emplace-finds phrases phrase canonical h =
    ground (arith, find-append phrases phrase canonical phrase, beq_refl phrase)

IsEntry-emplace :
    (phrases : Phrases) (phrase canonical : Bytes) (entry : Bytes × Bytes)
    → IsEntry phrases entry
    → IsEntry (emplace phrases phrase canonical) entry
IsEntry-emplace phrases phrase canonical entry e = record {
  phrase_normal = e.phrase_normal;
  name_normal = e.name_normal;
  found = emplace-keeps phrases phrase canonical entry.0 entry.1 e.found;
  name_found = emplace-keeps phrases phrase canonical entry.1 entry.1 e.name_found;
}

emplace-none :
    (phrases : Phrases) (phrase canonical : Bytes)
    → find phrases phrase ≡ none
    → emplace phrases phrase canonical ≡ phrases ++ (phrase, canonical) ∷ []
unfolding emplace
emplace-none phrases phrase canonical h = rw h

-- A new phrase whose name is then found is one more entry.
pub emplace-AreEntries :
    (phrases : Phrases) (phrase canonical : Bytes)
    → find phrases phrase ≡ none
    → IsNormal phrase
    → IsNormal canonical
    → find (emplace phrases phrase canonical) canonical ≡ some canonical
    → AreEntries phrases
    → AreEntries (emplace phrases phrase canonical)
emplace-AreEntries phrases phrase canonical h n m f es =
    let new = emplace phrases phrase canonical in
    let all_of : All (IsEntry new) (phrases ++ (phrase, canonical) ∷ []) =
      All-append (IsEntry new) phrases _
        (All-map (IsEntry-emplace phrases phrase canonical) phrases es)
        (
          record {
            phrase_normal = n;
            name_normal = m;
            found = emplace-finds phrases phrase canonical h;
            name_found = f;
          },
          tt,
        ) in
    subst (λ ps. All (IsEntry new) ps) (sym (emplace-none phrases phrase canonical h)) all_of

emplace_old :
    (phrases : Phrases) (phrase canonical v : Bytes)
    → find phrases phrase ≡ some v
    → emplace phrases phrase canonical ≡ phrases
unfolding emplace
emplace_old phrases phrase canonical v h = rw h

-- The name of a group is put in, or is there.
name-AreEntries :
    (phrases : Phrases) (name : Bytes) (found : Option Bytes)
    → find phrases name ≡ found
    → IsNormal name
    → AreEntries phrases
    → AreEntries (emplace phrases name name)
name-AreEntries phrases name none e n h =
    emplace-AreEntries phrases name name e n n (emplace-finds phrases name name e) h
name-AreEntries phrases name (some v) e n h = rw (emplace_old phrases name name v e) h

pub canonical_phrases-AreEntries :
    (groups : List ParsedConceptGroup) (phrases : Phrases)
    → All IsNormalGroup groups
    → AreEntries phrases
    → AreEntries (canonical_phrases groups phrases)
unfolding canonical_phrases
canonical_phrases-AreEntries [] phrases n h = h
canonical_phrases-AreEntries (g ∷ groups) phrases (ng, n) h =
    canonical_phrases-AreEntries groups (emplace phrases g.canonical g.canonical) n
      (name-AreEntries phrases g.canonical _ refl ng.canonical h)
