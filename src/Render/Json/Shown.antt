-- ===== src/Render/Json/Shown.antt =====
-- What `searchJson` of src/render.cpp is to show of a search: the names of the kinds, and the results within
-- the limit.
use howlinux.Base.{
  ℕ, zero, suc, ◌≤◌, false, List, [], ◌∷◌, ◌≡◌, refl, sym, ap, ◌∙◌, arith, ltb, ◌==◌, Bytes, codes,
  length, take, Bool-cases, inl, inr,
}
use howlinux.Query.Processor.{QueryType, explain, how_to, why, command, general, query_type_name}
use howlinux.Search.Doubles.{Doubles}
use howlinux.Search.Engine.{SearchResponse}
use howlinux.Search.Policy.{ResultStatus, confident, uncertain, no_match}
use howlinux.Render.Write.{limited_results}
use howlinux.Render.Json.{status_name}

-- The first so many elements, or all for 0.
abbrev pub within {ℓ} : {A : Type ℓ} → ℕ → List A → List A
within zero xs = xs
within (suc limit) xs = take (suc limit) xs

abbrev pub status_text : ResultStatus → Bytes
status_text confident = codes "confident"
status_text uncertain = codes "uncertain"
status_text no_match = codes "no_match"

abbrev pub type_text : QueryType → Bytes
type_text explain = codes "explain"
type_text how_to = codes "how_to"
type_text why = codes "why"
type_text command = codes "command"
type_text general = codes "general"

pub status_name-text : (status : ResultStatus) → status_name status ≡ status_text status
unfolding status_name
status_name-text confident = refl
status_name-text uncertain = refl
status_name-text no_match = refl

pub query_type_name-text : (type : QueryType) → query_type_name type ≡ type_text type
unfolding query_type_name
query_type_name-text explain = refl
query_type_name-text how_to = refl
query_type_name-text why = refl
query_type_name-text command = refl
query_type_name-text general = refl

take-all {ℓ} : {A : Type ℓ} (n : ℕ) (xs : List A) → length xs ≤ n → take n xs ≡ xs
take-all zero [] h = refl
take-all zero (x ∷ xs) h = absurd (omega (arith, h))
take-all (suc n) [] h = refl
take-all (suc n) (x ∷ xs) h = ap (λ ys. x ∷ ys) (take-all n xs (omega (arith, h)))

not_zero : (n : ℕ) → suc n == 0 ≡ false
not_zero n = ground arith

pub limited_results-within :
    (N : Doubles) (response : SearchResponse N) (limit : ℕ)
    → limited_results N response limit ≡ within limit response.results
unfolding limited_results
limited_results-within N response zero =
    take-all (length response.results) response.results (omega arith)
limited_results-within N response (suc limit) =
    elim (Bool-cases (ltb (length response.results) (suc limit))) [
      | inl e ↦
          rw (not_zero limit, e)
            (take-all (length response.results) response.results (omega arith)
              ∙ sym (take-all (suc limit) response.results (ground (arith, e))))
      | inr e ↦ rw (not_zero limit, e) refl
    ]
