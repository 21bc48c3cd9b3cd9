-- ===== src/Concepts/Load/Order.antt =====
-- The definitions of a dictionary that `ConceptDictionary::load` of src/concepts.cpp made.
use howlinux.Base.{
  true, false, List, [], ◌∷◌, ◌≡◌, arith, ◌≤◌, map, Bytes, is_empty, beq_iff, blt_asym,
  blt_neg_trans, blt_total, length, All, All-map,
}
use howlinux.Base.Sort.{IsStrictWeak, IsSorted, sort_by-All, sort_by-IsSorted}
use howlinux.Query.Tokens.{tokenize, join_tokens}
use howlinux.Concepts.Detect.{PhraseDefinition}
use howlinux.Concepts.Detect.Laws.{HasTokens}
use howlinux.Concepts.Detect.Longest.{LongestFirst}
use howlinux.Concepts.Dictionary.{Phrases, normalize_phrase}
use howlinux.Concepts.Load.{definition_before, definition_of, definitions_of}

definition_before-IsStrictWeak : IsStrictWeak definition_before
unfolding definition_before
definition_before-IsStrictWeak = record {
  asym = λ x y h. ground (
    arith,
    beq_iff x.phrase y.phrase,
    beq_iff y.phrase x.phrase,
    blt_asym x.phrase y.phrase,
    blt_asym x.canonical y.canonical,
  );
  neg_trans = λ x y z h k. ground (
    arith,
    beq_iff x.phrase y.phrase,
    beq_iff y.phrase z.phrase,
    beq_iff x.phrase z.phrase,
    beq_iff y.phrase x.phrase,
    beq_iff z.phrase y.phrase,
    beq_iff z.phrase x.phrase,
    blt_neg_trans x.phrase y.phrase z.phrase,
    blt_neg_trans x.canonical y.canonical z.canonical,
    blt_total x.phrase y.phrase,
    blt_total y.phrase z.phrase,
    blt_total x.phrase z.phrase,
  );
}

IsSorted-LongestFirst :
    (ds : List PhraseDefinition) → IsSorted definition_before ds → LongestFirst ds
unfolding definition_before
IsSorted-LongestFirst [] h = tt
IsSorted-LongestFirst (d ∷ ds) (h, k) =
    (All-map (λ e b. ground arith) ds h, IsSorted-LongestFirst ds k)

-- A phrase in normal form that is not empty.
pub record IsNormal (phrase : Bytes) : Type 0 where
  pub normal : normalize_phrase phrase ≡ phrase
  pub not_empty : is_empty phrase ≡ false

abbrev pub AreNormal : Phrases → Type 0
AreNormal = All (λ entry. IsNormal entry.0)

tokens_of_normal : (phrase : Bytes) → IsNormal phrase → 1 ≤ length (tokenize phrase true false)
tokens_of_normal phrase n = count (tokenize phrase true false) (unfold normalize_phrase in n.normal)
  where
    count : (ts : List Bytes) → join_tokens ts ≡ phrase → 1 ≤ length ts
    count [] e = unfold join_tokens in absurd (ground (arith, n.not_empty))
    count (t ∷ ts) e = omega arith

-- The definitions of phrases in normal form stand longest first, and each has a token.
pub definitions_of-order :
    (phrases : Phrases)
    → AreNormal phrases
    → HasTokens (definitions_of phrases) × LongestFirst (definitions_of phrases)
unfolding definitions_of
definitions_of-order phrases n = (
  sort_by-All definition_before _ _ (with_tokens phrases n),
  IsSorted-LongestFirst _ (sort_by-IsSorted definition_before definition_before-IsStrictWeak _),
)
  where
    with_tokens : (ps : Phrases) → AreNormal ps → HasTokens (map definition_of ps)
    with_tokens [] h = tt
    with_tokens (p ∷ ps) (h, k) = (tokens_of_normal p.0 h, with_tokens ps k)
