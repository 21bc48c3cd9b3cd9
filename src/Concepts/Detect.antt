-- ===== src/Concepts/Detect.antt =====
-- `ConceptDictionary::detect` of src/concepts.cpp. The tokens from `offset` on are a list.
pub mod Laws
pub mod Longest
use howlinux.Base.{
  ℕ, zero, suc, ◌+◌, ◌≤◌, Bool, true, false, ◌&&◌, List, [], ◌∷◌, ◌++◌, ◌≡◌, refl, Option, none,
  some, ltb, if◌then◌else◌, Bytes, codes, beq, length, drop,
}

-- `PhraseDefinition`
pub record PhraseDefinition : Type 0 where
  pub phrase : Bytes
  pub canonical : Bytes
  pub tokens : List Bytes

-- `ConceptMatch`
pub record ConceptMatch : Type 0 where
  pub canonical : Bytes
  pub phrase : Bytes
  pub token_offset : ℕ
  pub token_length : ℕ

-- `std::equal` of the definition's tokens and as many of the others.
unfoldable pub starts_with : List Bytes → List Bytes → Bool
unfolding beq
starts_with [] ts = true
starts_with (p ∷ ps) [] = false
starts_with (p ∷ ps) (t ∷ ts) = beq p t && starts_with ps ts

-- The loop over `definitions_`: the first that fits the remaining tokens and equals them.
unfoldable pub select : List PhraseDefinition → List Bytes → Option PhraseDefinition
unfolding starts_with
select [] ts = none
select (definition ∷ definitions) ts =
    if ltb (length ts) (length definition.tokens)
    then select definitions ts
    else if starts_with definition.tokens ts
    then some definition
    else select definitions ts

-- `while (offset < ordered_tokens.size())`, with fuel for the rounds.
unfoldable pub detect_from : List PhraseDefinition → ℕ → ℕ → List Bytes → List ConceptMatch
detect_from definitions zero offset ts = []
detect_from definitions (suc fuel) offset [] = []
detect_from definitions (suc fuel) offset (t ∷ ts) = elim (select definitions (t ∷ ts)) [
  | none ↦ detect_from definitions fuel (offset + 1) ts
  | some selected ↦
      record {
        canonical = selected.canonical;
        phrase = selected.phrase;
        token_offset = offset;
        token_length = length selected.tokens;
      }
      ∷ detect_from definitions fuel (offset + length selected.tokens)
          (drop (length selected.tokens) (t ∷ ts))
]

-- A round reads a token, if no definition is without tokens: their number is enough fuel.
unfoldable pub detect : List PhraseDefinition → List Bytes → List ConceptMatch
unfolding detect_from select
detect definitions ordered_tokens = detect_from definitions (length ordered_tokens) 0 ordered_tokens

abbrev definition : Bytes → List Bytes → PhraseDefinition
definition canonical tokens = record { phrase = []; canonical = canonical; tokens = tokens }

example :
    detect
      (definition (codes "sym") (codes "soft" ∷ codes "link" ∷ [])
        ∷ definition (codes "l") (codes "link" ∷ [])
        ∷ [])
      (codes "a" ∷ codes "soft" ∷ codes "link" ∷ codes "link" ∷ [])
    ≡ (record { canonical = codes "sym"; phrase = []; token_offset = 1; token_length = 2 }
        ∷ record { canonical = codes "l"; phrase = []; token_offset = 3; token_length = 1 }
        ∷ [])
unfolding detect
example = refl
