-- ===== src/Concepts/Detect/Laws.antt =====
-- The matches of `detect` in src/concepts.cpp against an inductive description of them.
use howlinux.Base.{
  ℕ, zero, suc, ◌+◌, ◌-◌, ◌≤◌, ◌<◌, true, false, List, [], ◌∷◌, ◌++◌, ◌≡◌, refl, ap, arith, Option,
  none, some, ltb, Bytes, beq_iff, length, length-append, drop, All, Bool-cases, inl, inr,
}
use howlinux.Concepts.Detect.{
  PhraseDefinition, ConceptMatch, starts_with, select, detect_from, detect,
}

-- `definition` matches at the head of `ts`: these begin with its tokens.
pub record MatchesAt (definition : PhraseDefinition) (ts : List Bytes) : Type 0 where
  pub behind : List Bytes
  pub splits : ts ≡ definition.tokens ++ behind

-- No definition of the list matches at the head of `ts`.
abbrev pub NoneAt : List PhraseDefinition → List Bytes → Type 0
NoneAt definitions ts = All (λ d. ¬ (MatchesAt d ts)) definitions

-- The first definition of the list that matches there.
pub data FirstAt (ts : List Bytes) (d : PhraseDefinition) : List PhraseDefinition → Type 0 where
  first : {ds : List PhraseDefinition} → MatchesAt d ts → FirstAt ts d (d ∷ ds)
  later :
      {e : PhraseDefinition} {ds : List PhraseDefinition}
      → ¬ (MatchesAt e ts)
      → FirstAt ts d ds
      → FirstAt ts d (e ∷ ds)

abbrev pub match_of : PhraseDefinition → ℕ → ConceptMatch
match_of d offset = record {
  canonical = d.canonical;
  phrase = d.phrase;
  token_offset = offset;
  token_length = length d.tokens;
}

-- A scan from left to right: where a definition matches, the first one is taken and its tokens are
-- passed over; where none does, one token is.
pub data Scans (definitions : List PhraseDefinition)
    : ℕ → List Bytes → List ConceptMatch → Type 0 where
  done : {offset : ℕ} → Scans definitions offset [] []
  skip :
      {offset : ℕ} {t : Bytes} {ts : List Bytes} {ms : List ConceptMatch}
      → NoneAt definitions (t ∷ ts)
      → Scans definitions (offset + 1) ts ms
      → Scans definitions offset (t ∷ ts) ms
  hit :
      {offset : ℕ} {ts behind : List Bytes} {ms : List ConceptMatch} (d : PhraseDefinition)
      → FirstAt ts d definitions
      → ts ≡ d.tokens ++ behind
      → Scans definitions (offset + length d.tokens) behind ms
      → Scans definitions offset ts (match_of d offset ∷ ms)

starts_with_sound : (ps ts : List Bytes) → starts_with ps ts ≡ true → ts ≡ ps ++ drop (length ps) ts
unfolding starts_with
starts_with_sound [] ts h = refl
starts_with_sound (p ∷ ps) [] h = cc
starts_with_sound (p ∷ ps) (t ∷ ts) h = ground (arith, beq_iff p t, starts_with_sound ps ts)

starts_with_complete : (ps behind : List Bytes) → starts_with ps (ps ++ behind) ≡ true
unfolding starts_with
starts_with_complete [] behind = refl
starts_with_complete (p ∷ ps) behind = ground (arith, beq_iff p p, starts_with_complete ps behind)

not_at :
    (d : PhraseDefinition) (ts : List Bytes) → starts_with d.tokens ts ≡ false → ¬ (MatchesAt d ts)
not_at d ts h m = cc (ap (starts_with d.tokens) m.splits, starts_with_complete d.tokens m.behind, h)

not_at_short :
    (d : PhraseDefinition) (ts : List Bytes) → length ts < length d.tokens → ¬ (MatchesAt d ts)
not_at_short d ts h m = omega (arith, ap length m.splits, length-append d.tokens m.behind)

select-none : (ds : List PhraseDefinition) (ts : List Bytes) → select ds ts ≡ none → NoneAt ds ts
unfolding select
select-none [] ts h = tt
select-none (d ∷ ds) ts h = elim (Bool-cases (ltb (length ts) (length d.tokens))) [
  | inl e ↦ (not_at_short d ts (ground arith), select-none ds ts (rw e at h))
  | inr e ↦ elim (Bool-cases (starts_with d.tokens ts)) [
    | inl k ↦ absurd (ground arith)
    | inr k ↦ (not_at d ts k, select-none ds ts (rw (e, k) at h))
  ]
]

select-some :
    (ds : List PhraseDefinition) (ts : List Bytes) (d : PhraseDefinition)
    → select ds ts ≡ some d
    → FirstAt ts d ds × (ts ≡ d.tokens ++ drop (length d.tokens) ts)
unfolding select
select-some [] ts d h = cc
select-some (e ∷ ds) ts d h = elim (Bool-cases (ltb (length ts) (length e.tokens))) [
  | inl s ↦
      let (f, q) = select-some ds ts d (rw s at h) in
      (later (not_at_short e ts (ground arith)) f, q)
  | inr s ↦ elim (Bool-cases (starts_with e.tokens ts)) [
    | inl k ↦
        let same : e ≡ d = ground arith in
        let split = starts_with_sound e.tokens ts k in
        rw (← same) (first (record { behind = drop (length e.tokens) ts; splits = split }), split)
    | inr k ↦ let (f, q) = select-some ds ts d (rw (s, k) at h) in (later (not_at e ts k) f, q)
  ]
]

-- Each definition has a token.
abbrev pub HasTokens : List PhraseDefinition → Type 0
HasTokens = All (λ (d : PhraseDefinition). 1 ≤ length d.tokens)

FirstAt-HasTokens :
    {ts : List Bytes} {d : PhraseDefinition} {ds : List PhraseDefinition}
    → FirstAt ts d ds
    → HasTokens ds
    → 1 ≤ length d.tokens
FirstAt-HasTokens (first m) (h, _) = h
FirstAt-HasTokens (later n f) (_, h) = FirstAt-HasTokens f h

length-drop : {A : Type 0} (n : ℕ) (xs : List A) → length (drop n xs) ≡ length xs - n
length-drop zero xs = omega arith
length-drop (suc n) [] = omega arith
length-drop (suc n) (x ∷ xs) = omega (arith, length-drop n xs)

-- One round of the loop, from the loop that goes on behind it.
scan_round :
    (ds : List PhraseDefinition) (fuel offset : ℕ) (t : Bytes) (ts : List Bytes)
    → HasTokens ds
    → length ts ≤ fuel
    → ((next : ℕ) (rest : List Bytes)
        → length rest ≤ fuel
        → Scans ds next rest (detect_from ds fuel next rest))
    → Scans ds offset (t ∷ ts) (detect_from ds (suc fuel) offset (t ∷ ts))
unfolding detect_from
scan_round ds fuel offset t ts h k go_on = by_selection (select ds (t ∷ ts)) refl
  where
    by_selection :
        (o : Option PhraseDefinition)
        → select ds (t ∷ ts) ≡ o
        → Scans ds offset (t ∷ ts) (elim o [
          | none ↦ detect_from ds fuel (offset + 1) ts
          | some d ↦
              match_of d offset
              ∷ detect_from ds fuel (offset + length d.tokens) (drop (length d.tokens) (t ∷ ts))
        ])
    by_selection none e = skip (select-none ds (t ∷ ts) e) (go_on (offset + 1) ts k)
    by_selection (some d) e =
        let (f, split) = select-some ds (t ∷ ts) d e in
        hit d f split (
          go_on (offset + length d.tokens) (drop (length d.tokens) (t ∷ ts))
            (omega (arith, length-drop (length d.tokens) (t ∷ ts), FirstAt-HasTokens f h)))

detect_from-Scans :
    (ds : List PhraseDefinition) (fuel offset : ℕ) (ts : List Bytes)
    → HasTokens ds
    → length ts ≤ fuel
    → Scans ds offset ts (detect_from ds fuel offset ts)
detect_from-Scans ds zero offset [] h k = unfold detect_from in done
detect_from-Scans ds zero offset (t ∷ ts) h k = absurd (omega arith)
detect_from-Scans ds (suc fuel) offset [] h k = unfold detect_from in done
detect_from-Scans ds (suc fuel) offset (t ∷ ts) h k =
    scan_round ds fuel offset t ts h (omega arith)
      (λ next rest. detect_from-Scans ds fuel next rest h)

-- If each definition has a token, `detect` runs the whole scan: at each place the first definition
-- that matches there is reported and its tokens are passed over, and where none matches one token is.
pub detect-Scans :
    (ds : List PhraseDefinition) (ts : List Bytes) → HasTokens ds → Scans ds 0 ts (detect ds ts)
unfolding detect
detect-Scans ds ts h = detect_from-Scans ds (length ts) 0 ts h (omega arith)
