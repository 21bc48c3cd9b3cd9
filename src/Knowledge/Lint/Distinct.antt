-- ===== src/Knowledge/Lint/Distinct.antt =====
-- The loop of `KnowledgeBase::lint` in src/knowledge.cpp over the aliases, where it adds no diagnostic: no
-- alias is one that the loop has seen.
use howlinux.Base.{
  true, false, List, [], ◌∷◌, ◌++◌, ◌≡◌, refl, sym, ap, ◌∙◌, arith, map, Option, none, some, subst,
  Bytes, beq, beq_iff, contains, is_empty, All, Bool-cases, inl, inr,
}
use howlinux.Base.Contains.{IsFresh, pushed}
use howlinux.Diagnostics.{Diagnostic}
use howlinux.Knowledge.{KnowledgeEntry}
use howlinux.Knowledge.Lookup.{is_some}
use howlinux.Knowledge.Ids.{IsNew}
use howlinux.Knowledge.Reported.{split-append}
use howlinux.Knowledge.Lint.Aliases.{
  normalized_search_phrase, Sources, source_of, emplace_source, Aliases, duplicate_of, alias_round,
  lint_aliases,
}

abbrev pub AreFilled : List Bytes → Type 0
AreFilled texts = All (λ text. is_empty text ≡ false) texts

abbrev pub normalized : List Bytes → List Bytes
normalized values = map normalized_search_phrase values

-- `aliases_by_normalized_value` between two entries: it holds the aliases before, and no identifier of
-- an entry that follows.
pub record IsMap (before : List Bytes) (rest : List KnowledgeEntry) (sources : Sources)
    : Type 0 where
  pub covers :
      (text : Bytes) → contains before text ≡ true → is_some (source_of sources text) ≡ true
  pub foreign : (text id : Bytes) → source_of sources text ≡ some id → IsNew id rest

some_id : (a b : Bytes) → ◌≡◌ {A = Option Bytes} (some a) (some b) → a ≡ b
some_id a b h = cc

snoc-not_empty : (xs : List Diagnostic) (x : Diagnostic) → is_empty (xs ++ x ∷ []) ≡ true → ⊥
snoc-not_empty [] x h = cc
snoc-not_empty (y ∷ xs) x h = cc

module _ (entry : KnowledgeEntry) (rest : List KnowledgeEntry) (new_id : IsNew entry.id rest) where
  -- In the loop over the aliases of an entry, what the entry put into the map is in `local_aliases`.
  pub record IsOwn (before local : List Bytes) (sources : Sources) : Type 0 where
    pub is_map : IsMap before rest sources
    pub own : (text : Bytes) → source_of sources text ≡ some entry.id → contains local text ≡ true

  -- A round that adds nothing.
  record IsQuiet (state : Aliases) (text : Bytes) (after : Aliases) : Type 0 where
    quiet_before : is_empty state.added ≡ true
    filled : is_empty text ≡ false
    missing : source_of state.sources text ≡ none
    local_after : after.local ≡ text ∷ state.local
    sources_after : after.sources ≡ (text, entry.id) ∷ state.sources

  duplicate_of-own :
      (text id : Bytes) → is_empty (duplicate_of entry text (some id)) ≡ true → id ≡ entry.id
  duplicate_of-own text id h = elim (Bool-cases (beq id entry.id)) [
    | inl e ↦ (beq_iff id entry.id).0 e
    | inr e ↦ absurd (ground (arith, h, e))
  ]

  emplaced :
      (before : List Bytes) (state : Aliases) (alias text : Bytes) (found : Option Bytes)
      → source_of state.sources text ≡ found
      → IsOwn before state.local state.sources
      → contains state.local text ≡ false
      → is_empty (duplicate_of entry text found) ≡ true
      → found ≡ none
  emplaced before state alias text none e i new h = refl
  emplaced before state alias text (some id) e i new h =
      absurd (ground (arith, new, i.own text (e ∙ ap (λ s. some s) (duplicate_of-own text id h))))

  -- An alias that is neither empty nor local.
  abbrev kept : Aliases → Bytes → Bytes → Aliases
  kept state alias text =
      let source = source_of state.sources text in
      record {
        added = state.added ++ duplicate_of entry text source;
        local = text ∷ state.local;
        sources = emplace_source state.sources text entry.id source;
        normalized = state.normalized ++ (alias, text) ∷ [];
      }

  alias_round-cases :
      (state : Aliases) (alias text : Bytes)
      → is_empty (alias_round entry state alias text).added ≡ true
      → (is_empty text ≡ false)
        × (contains state.local text ≡ false)
        × (alias_round entry state alias text ≡ kept state alias text)
  unfolding alias_round
  alias_round-cases state alias text h = elim (Bool-cases (is_empty text)) [
    | inl e ↦ absurd (snoc-not_empty state.added _ (rw e at h))
    | inr e ↦ elim (Bool-cases (contains state.local text)) [
      | inl f ↦ absurd (snoc-not_empty state.added _ (rw (e, f) at h))
      | inr f ↦ (e, f, rw (e, f) refl)
    ]
  ]

  alias_round-quiet :
      (state : Aliases) (alias text : Bytes)
      → is_empty (alias_round entry state alias text).added ≡ true
      → is_empty state.added ≡ true
  alias_round-quiet state alias text h =
      let (_, _, same) = alias_round-cases state alias text h in
      let (quiet, _) =
        split-append state.added (duplicate_of entry text (source_of state.sources text))
          (subst (λ (s : Aliases). is_empty s.added ≡ true) same h) in
      quiet

  kept-IsQuiet :
      (before : List Bytes) (state : Aliases) (alias text : Bytes)
      → IsOwn before state.local state.sources
      → is_empty text ≡ false
      → contains state.local text ≡ false
      → is_empty (kept state alias text).added ≡ true
      → IsQuiet state text (kept state alias text)
  kept-IsQuiet before state alias text i filled new h =
      let (quiet, silent) =
        split-append state.added (duplicate_of entry text (source_of state.sources text)) h in
      let missing =
        emplaced before state alias text (source_of state.sources text) refl i new silent in
      record {
        quiet_before = quiet;
        filled = filled;
        missing = missing;
        local_after = refl;
        sources_after = ap (emplace_source state.sources text entry.id) missing;
      }

  alias_round-IsQuiet :
      (before : List Bytes) (state : Aliases) (alias text : Bytes)
      → IsOwn before state.local state.sources
      → is_empty (alias_round entry state alias text).added ≡ true
      → IsQuiet state text (alias_round entry state alias text)
  alias_round-IsQuiet before state alias text i h =
      let (filled, new, same) = alias_round-cases state alias text h in
      subst (IsQuiet state text) (sym same) (
        kept-IsQuiet before state alias text i filled new
          (subst (λ (s : Aliases). is_empty s.added ≡ true) same h))

  -- What a quiet round leaves.
  IsQuiet-IsOwn :
      (before : List Bytes) (state after : Aliases) (text : Bytes)
      → IsOwn before state.local state.sources
      → IsQuiet state text after
      → IsOwn (text ∷ before) after.local after.sources
  unfolding contains source_of
  IsQuiet-IsOwn before state after text i q =
      subst (λ sources. IsOwn (text ∷ before) after.local sources) (sym q.sources_after)
        (subst (λ local. IsOwn (text ∷ before) local ((text, entry.id) ∷ state.sources))
          (sym q.local_after)
          (record {
            is_map = record {
              covers = λ other h. ground (arith, h, i.is_map.covers other);
              foreign = λ other id h. elim (Bool-cases (beq text other)) [
                | inl e ↦ subst (λ s. IsNew s rest) (some_id entry.id id (cc (rw e at h))) new_id
                | inr e ↦ i.is_map.foreign other id (cc (rw e at h))
              ];
            };
            own = λ other h. elim (Bool-cases (beq text other)) [
              | inl e ↦ ground (arith, e)
              | inr e ↦ ground (arith, e, i.own other (cc (rw e at h)))
            ];
          }))

  IsQuiet-new :
      (before : List Bytes) (state after : Aliases) (text : Bytes)
      → IsOwn before state.local state.sources
      → IsQuiet state text after
      → contains before text ≡ false
  IsQuiet-new before state after text i q = elim (Bool-cases (contains before text)) [
    | inl e ↦ absurd (ground (arith, i.is_map.covers text e, ap is_some q.missing))
    | inr e ↦ e
  ]

  -- The loop only adds diagnostics.
  lint_aliases-quiet :
      (state : Aliases) (aliases : List Bytes)
      → is_empty (lint_aliases entry state aliases).added ≡ true
      → is_empty state.added ≡ true
  unfolding lint_aliases
  lint_aliases-quiet state [] h = h
  lint_aliases-quiet state (alias ∷ aliases) h =
      alias_round-quiet state alias (normalized_search_phrase alias) (
        lint_aliases-quiet (alias_round entry state alias (normalized_search_phrase alias)) aliases
          h)

  -- What the loop finds where it adds nothing.
  pub lint_aliases-IsFresh :
      (before : List Bytes) (state : Aliases) (aliases : List Bytes)
      → IsOwn before state.local state.sources
      → is_empty (lint_aliases entry state aliases).added ≡ true
      → IsFresh before (normalized aliases)
        × AreFilled (normalized aliases)
        × IsMap (pushed before (normalized aliases)) rest (lint_aliases entry state aliases).sources
  unfolding lint_aliases
  lint_aliases-IsFresh before state [] i h = (tt, tt, i.is_map)
  lint_aliases-IsFresh before state (alias ∷ aliases) i h =
      let text = normalized_search_phrase alias in
      let after = alias_round entry state alias text in
      let q = alias_round-IsQuiet before state alias text i (lint_aliases-quiet after aliases h) in
      let (new, filled, is_map) =
        lint_aliases-IsFresh (text ∷ before) after aliases
          (IsQuiet-IsOwn before state after text i q) h in
      ((IsQuiet-new before state after text i q, new), (q.filled, filled), is_map)
