-- ===== src/Concepts/Load/Acyclic.antt =====
-- Where `ConceptDictionary::load` of src/concepts.cpp finds no collision, `detectCycles` finds no cycle.
use howlinux.Base.{
  any, ◌&&◌, not, sym, ap, false, ◌||◌, List, [], ◌∷◌, ◌++◌, ◌≡◌, refl, ◌∙◌, arith, map, Option,
  none, some, Bytes, beq, beq_iff, contains, All, All-map, Bool-cases, inl, inr,
}
use howlinux.Diagnostics.{Diagnostic, has_errors, is_error}
use howlinux.Concepts.Dictionary.{find}
use howlinux.Concepts.Groups.{ParsedConceptGroup}
use howlinux.Concepts.Cycles.{links, canonicals_of, detect_cycles}
use howlinux.Concepts.Cycles.Walks.{Leads-first}
use howlinux.Concepts.Cycles.Edges.{is_link, contains-nil, contains-links, contains-canonicals_of}
use howlinux.Concepts.Cycles.Message.{walk-Leads}
use howlinux.Concepts.Cycles.Exact.{detect_cycles-Decided}
use howlinux.Concepts.Load.{
  PhraseState, built_diagnostics, canonical_phrases, add_alias_phrase, next_alias, alias_phrases,
  group_phrases, collision, phrase_state,
}
use howlinux.Concepts.Load.Canonical.Aliases.{
  next_alias-keeps, alias_phrases-keeps, NamesFound, canonical_phrases-NamesFound,
}

abbrev Clean : PhraseState → Type 0
Clean state = has_errors state.diagnostics ≡ false

has_errors-snoc :
    (ds : List Diagnostic) (d : Diagnostic)
    → has_errors (ds ++ d ∷ []) ≡ (has_errors ds || is_error d.severity)
unfolding has_errors
has_errors-snoc [] d = ground arith
has_errors-snoc (e ∷ ds) d = ground (arith, has_errors-snoc ds d)

-- Each name is a phrase.
abbrev Known : List Bytes → PhraseState → Type 0
Known canonicals state = All (λ name. find state.phrases name ≡ some name) canonicals

module _ (path canonical : Bytes) where
  add_alias_phrase-Clean :
      (alias : Bytes) (state : PhraseState) (found : Option Bytes)
      → Clean (add_alias_phrase path canonical alias state found)
      → Clean state × (found ≡ none)
  unfolding add_alias_phrase
  add_alias_phrase-Clean alias state none h = (h, refl)
  add_alias_phrase-Clean alias state (some other) h =
      absurd (
        ground (arith, h, has_errors-snoc state.diagnostics (collision path canonical alias other)))

  next_alias-Clean :
      (state : PhraseState) (alias : Bytes)
      → Clean (next_alias path canonical state alias)
      → Clean state × (beq alias canonical ≡ false → find state.phrases alias ≡ none)
  unfolding next_alias
  next_alias-Clean state alias h = elim (Bool-cases (beq alias canonical)) [
    | inl e ↦ (rw e at h, λ k. absurd (cc (e, k)))
    | inr e ↦
        let (clean, missing) =
          add_alias_phrase-Clean alias state (find state.phrases alias) (rw e at h) in
        (clean, λ k. missing)
  ]

  Known-contains :
      (canonicals : List Bytes) (state : PhraseState) (name : Bytes)
      → Known canonicals state
      → find state.phrases name ≡ none
      → contains canonicals name ≡ false
  unfolding contains
  Known-contains [] state name k e = refl
  Known-contains (c ∷ canonicals) state name (h, k) e =
      ground (arith, beq_iff c name, Known-contains canonicals state name k e)

  alias_phrases-Clean :
      (canonicals aliases : List Bytes) (state : PhraseState)
      → Known canonicals state
      → Clean (alias_phrases path canonical aliases state)
      → Clean state × (links canonicals canonical aliases ≡ [])
  unfolding alias_phrases links
  alias_phrases-Clean canonicals [] state k h = (h, refl)
  alias_phrases-Clean canonicals (alias ∷ aliases) state k h =
      let (next_clean, none_behind) =
        alias_phrases-Clean canonicals aliases (next_alias path canonical state alias)
          (All-map (λ name f. next_alias-keeps path canonical state alias name name f) canonicals k)
          h in
      let (clean, missing) = next_alias-Clean state alias next_clean in
      (
        clean,
        elim (Bool-cases (beq alias canonical)) [
          | inl e ↦ rw e none_behind
          | inr e ↦ rw (e, Known-contains canonicals state alias k (missing e)) none_behind
        ],
      )

group_phrases-Clean :
    (path : Bytes) (canonicals : List Bytes) (groups : List ParsedConceptGroup)
    (state : PhraseState)
    → Known canonicals state
    → Clean (group_phrases path groups state)
    → Clean state
      × All (λ (g : ParsedConceptGroup). links canonicals g.canonical g.aliases ≡ []) groups
unfolding group_phrases
group_phrases-Clean path canonicals [] state k h = (h, tt)
group_phrases-Clean path canonicals (g ∷ groups) state k h =
    let (group_clean, behind) =
      group_phrases-Clean path canonicals groups (alias_phrases path g.canonical g.aliases state)
        (All-map (λ name f. alias_phrases-keeps path g.canonical g.aliases state name name f)
          canonicals k)
        h in
    let (clean, none_here) =
      alias_phrases-Clean path g.canonical canonicals g.aliases state k group_clean in
    (clean, (none_here, behind))

-- Where no group has a link, none leads anywhere.
no_link :
    (canonicals : List Bytes) (groups : List ParsedConceptGroup) (name other : Bytes)
    → All (λ (g : ParsedConceptGroup). links canonicals g.canonical g.aliases ≡ []) groups
    → (any (λ (g : ParsedConceptGroup). beq g.canonical name && contains g.aliases other) groups
        && not (beq other name)
        && contains canonicals other)
      ≡ false
no_link canonicals [] name other h = refl
no_link canonicals (g ∷ groups) name other (hg, h) = ground (
  arith,
  beq_iff g.canonical name,
  sym (contains-links canonicals g.canonical g.aliases other)
      ∙ ap (λ names. contains names other) hg
      ∙ contains-nil other,
  no_link canonicals groups name other h,
)

is_link-none :
    (groups : List ParsedConceptGroup) (name other : Bytes)
    → All
        (λ (g : ParsedConceptGroup). links (canonicals_of groups) g.canonical g.aliases ≡ [])
        groups
    → is_link groups name other ≡ false
is_link-none groups name other h =
    ground (
      arith,
      contains-canonicals_of groups other,
      no_link (canonicals_of groups) groups name other h,
    )

NamesFound-Known :
    (groups : List ParsedConceptGroup) (state : PhraseState)
    → NamesFound state.phrases groups
    → Known (map (λ (g : ParsedConceptGroup). g.canonical) groups) state
NamesFound-Known [] state h = tt
NamesFound-Known (g ∷ groups) state (f, h) = (f, NamesFound-Known groups state h)

-- If the loops over the groups report no error, `detectCycles` reports nothing: where there is a cycle,
-- the names on it collide as phrases.
pub detect_cycles-none :
    (path : Bytes) (diagnostics : List Diagnostic) (groups : List ParsedConceptGroup)
    → has_errors (phrase_state path diagnostics groups).diagnostics ≡ false
    → detect_cycles groups path ≡ []
unfolding phrase_state find
detect_cycles-none path diagnostics groups h =
    let canonicals = map (λ (g : ParsedConceptGroup). g.canonical) groups in
    let known =
      NamesFound-Known groups
        (record { phrases = canonical_phrases groups []; diagnostics = diagnostics })
        (canonical_phrases-NamesFound groups [] (λ k v e. cc)) in
    let (clean, unlinked) = group_phrases-Clean path canonicals groups _ known h in
    elim (detect_cycles-Decided groups path) [
      | inl r ↦
          let (next, e) =
            Leads-first (walk-Leads (is_link groups) r.first r.between r.first r.closed_walk) in
          absurd (ground (arith, e, is_link-none groups r.first next unlinked))
      | inr (e, none_leads) ↦ e
    ]

has_errors-append :
    (xs ys : List Diagnostic) → has_errors (xs ++ ys) ≡ (has_errors xs || has_errors ys)
unfolding has_errors
has_errors-append [] ys = refl
has_errors-append (x ∷ xs) ys = ground (arith, has_errors-append xs ys)

-- Whether the diagnostics hold an error, and so whether the dictionary is usable, does not depend on
-- what `detectCycles` adds to those of the loops over the groups.
pub has_errors-built_diagnostics :
    (path : Bytes) (diagnostics : List Diagnostic) (groups : List ParsedConceptGroup)
    → has_errors (built_diagnostics path diagnostics groups)
      ≡ has_errors (phrase_state path diagnostics groups).diagnostics
unfolding built_diagnostics
has_errors-built_diagnostics path diagnostics groups =
    let before = (phrase_state path diagnostics groups).diagnostics in
    has_errors-append before (detect_cycles groups path) ∙ elim (Bool-cases (has_errors before)) [
      | inl e ↦ rw e refl
      | inr e ↦ rw (e, detect_cycles-none path diagnostics groups e) (unfold has_errors in refl)
    ]
