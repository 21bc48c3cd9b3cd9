-- ===== src/Concepts/Detect/Longest.antt =====
-- The order of the definitions, longest first, in `detect` of src/concepts.cpp.
use howlinux.Base.{
  ℕ, ◌+◌, ◌≤◌, List, [], ◌∷◌, ◌++◌, ◌≡◌, refl, arith, Bytes, length, length-append, append_assoc,
  All, All-map,
}
use howlinux.Concepts.Detect.{PhraseDefinition, ConceptMatch, detect}
use howlinux.Concepts.Detect.Laws.{
  MatchesAt, FirstAt, first, later, match_of, Scans, done, skip, hit, HasTokens, detect-Scans,
}

-- Longer definitions stand first.
abbrev pub LongestFirst : List PhraseDefinition → Type 0
LongestFirst [] = Unit
LongestFirst (d ∷ ds) =
    All (λ (e : PhraseDefinition). length e.tokens ≤ length d.tokens) ds × LongestFirst ds

-- Every definition of the list that matches at `ts` is at most as long as `d`.
abbrev pub LongestAt : List Bytes → PhraseDefinition → List PhraseDefinition → Type 0
LongestAt ts d = All (λ (e : PhraseDefinition). MatchesAt e ts → length e.tokens ≤ length d.tokens)

FirstAt-Longest :
    {ts : List Bytes} {d : PhraseDefinition} {ds : List PhraseDefinition}
    → FirstAt ts d ds
    → LongestFirst ds
    → LongestAt ts d ds
FirstAt-Longest (first {ds = ds} m) (h, _) = (λ _. omega arith, All-map (λ e le _. le) ds h)
FirstAt-Longest (later n f) (_, h) = (λ m. absurd (n m), FirstAt-Longest f h)

-- A report is right about the text `ts`: its tokens stand there at its offset, they are those of a
-- definition with its names, and no definition with more tokens matches at that place.
pub record Reports (ds : List PhraseDefinition) (ts : List Bytes) (m : ConceptMatch) : Type 0 where
  pub definition : PhraseDefinition
  pub before : List Bytes
  pub behind : List Bytes
  pub names : m ≡ match_of definition (length before)
  pub stands : ts ≡ before ++ (definition.tokens ++ behind)
  pub longest : LongestAt (definition.tokens ++ behind) definition ds

-- The matches do not overlap, and follow one another.
abbrev pub Follow : ℕ → List ConceptMatch → Type 0
Follow offset [] = Unit
Follow offset (m ∷ ms) = (offset ≤ m.token_offset) × Follow (m.token_offset + m.token_length) ms

Follow-le : (a b : ℕ) (ms : List ConceptMatch) → a ≤ b → Follow b ms → Follow a ms
Follow-le a b [] le f = tt
Follow-le a b (m ∷ ms) le (h, f) = (omega arith, f)

Scans-Follow :
    {ds : List PhraseDefinition} {offset : ℕ} {ts : List Bytes} {ms : List ConceptMatch}
    → Scans ds offset ts ms
    → Follow offset ms
Scans-Follow done = tt
Scans-Follow (skip {offset} {ms = ms} n s) =
    Follow-le offset (offset + 1) ms (omega arith) (Scans-Follow s)
Scans-Follow (hit d f e s) = (omega arith, Scans-Follow s)

Scans-Reports :
    {ds : List PhraseDefinition} (text before : List Bytes) {offset : ℕ} {ts : List Bytes}
    {ms : List ConceptMatch}
    → LongestFirst ds
    → offset ≡ length before
    → text ≡ before ++ ts
    → Scans ds offset ts ms
    → All (Reports ds text) ms
Scans-Reports text before h o e done = tt
Scans-Reports text before h o e (skip {t = t} {ts = ts} n s) =
    Scans-Reports text (before ++ t ∷ []) h (omega (arith, length-append before (t ∷ [])))
      (rw append_assoc e) s
Scans-Reports text before h o e (hit {ts = ts} {behind = behind} d f split s) = (
  record {
    definition = d;
    before = before;
    behind = behind;
    names = λ i. match_of d (o i);
    stands = rw (← split) e;
    longest = rw split at (FirstAt-Longest f h);
  },
  Scans-Reports text (before ++ d.tokens) h (omega (arith, length-append before d.tokens))
      (rw append_assoc (rw (← split) e)) s,
)

-- With the longest definitions first, and a token in each: every match stands in the text at its
-- offset and is the longest one there, and the matches follow one another without overlap.
pub detect_longest :
    (ds : List PhraseDefinition) (ts : List Bytes)
    → HasTokens ds
    → LongestFirst ds
    → All (Reports ds ts) (detect ds ts) × Follow 0 (detect ds ts)
detect_longest ds ts h l =
    (Scans-Reports ts [] l refl refl (detect-Scans ds ts h), Scans-Follow (detect-Scans ds ts h))
