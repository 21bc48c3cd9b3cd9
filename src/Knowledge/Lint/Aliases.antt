-- ===== src/Knowledge/Lint/Aliases.antt =====
-- `aliasesAreOverlySimilar`, and the loops of `KnowledgeBase::lint` over the aliases, the keywords and the
-- related identifiers of an entry, in src/knowledge.cpp.
use howlinux.Base.{
  Bool, true, false, ◌&&◌, ◌||◌, not, List, [], ◌∷◌, ◌++◌, Option, none, some, map, if◌then◌else◌,
  Bytes, codes, beq, ltb, leb, ◌==◌, is_empty, length, contains,
}
use howlinux.Diagnostics.{Diagnostic}
use howlinux.Concepts.Detect.{ConceptMatch}
use howlinux.Concepts.Dictionary.{ConceptDictionary, detect}
use howlinux.Query.Tokens.{tokenize, join_tokens}
use howlinux.Index.Distance.{distance, length_difference}
use howlinux.Knowledge.{KnowledgeEntry}
use howlinux.Knowledge.Lookup.{IdLookup, find_by_id}
use howlinux.Knowledge.Reader.{warn}
use howlinux.Knowledge.Metadata.{metadata_path}

-- `normalizedSearchPhrase`
unfoldable pub normalized_search_phrase : Bytes → Bytes
normalized_search_phrase value = join_tokens (tokenize value true false)

-- `aliasesAreOverlySimilar`
unfoldable pub aliases_are_overly_similar : Bytes → Bytes → Bool
unfolding distance length_difference
aliases_are_overly_similar left right =
    if beq left right || ltb (length left) 8 || ltb (length right) 8
    then false
    else let left_tokens = tokenize left true false in
      let right_tokens = tokenize right true false in
      if ltb (length left_tokens) 2 || not (length left_tokens == length right_tokens)
      then false
      else leb (length_difference left right) 1 && leb (distance left right 1) 1

-- `collect_concepts`
unfoldable pub collect_concepts : ConceptDictionary → List Bytes → Bytes → List Bytes
collect_concepts concepts used value =
    map (λ (m : ConceptMatch). m.canonical) (detect concepts (tokenize value true false)) ++ used

-- `aliases_by_normalized_value`
abbrev pub Sources : Type 0
Sources = List (Bytes × Bytes)

unfoldable pub source_of : Sources → Bytes → Option Bytes
source_of [] normalized = none
source_of ((key, source) ∷ sources) normalized =
    if beq key normalized then some source else source_of sources normalized

-- `emplace`, by what the map holds.
abbrev pub emplace_source : Sources → Bytes → Bytes → Option Bytes → Sources
emplace_source sources normalized id none = (normalized, id) ∷ sources
emplace_source sources normalized id (some source) = sources

-- What the loop over the aliases changes.
pub record Aliases : Type 0 where
  pub added : List Diagnostic
  pub local : List Bytes
  pub sources : Sources
  pub normalized : List (Bytes × Bytes)

module _ (entry : KnowledgeEntry) where
  abbrev lint_warning : Bytes → Diagnostic
  lint_warning message = warn (metadata_path entry.source_directory) entry.id message

  abbrev pub duplicate_of : Bytes → Option Bytes → List Diagnostic
  duplicate_of normalized none = []
  duplicate_of normalized (some source) =
      if beq source entry.id
      then []
      else lint_warning (
          codes "alias '"
          ++ (normalized ++ (codes "' duplicates an alias from entry '" ++ (source ++ codes "'"))))
        ∷ []

  unfoldable pub alias_round : Aliases → Bytes → Bytes → Aliases
  unfolding source_of
  alias_round state alias normalized =
      if is_empty normalized
      then record state {
        added =
            state.added
            ++ lint_warning
                (codes "alias '" ++ (alias ++ codes "' is empty after search normalization"))
              ∷ [];
      }
      else if contains state.local normalized
      then record state {
        added =
            state.added
            ++ lint_warning
                (codes "duplicate alias after search normalization: '" ++ (normalized ++ codes "'"))
              ∷ [];
      }
      else let source = source_of state.sources normalized in
        record {
          added = state.added ++ duplicate_of normalized source;
          local = normalized ∷ state.local;
          sources = emplace_source state.sources normalized entry.id source;
          normalized = state.normalized ++ (alias, normalized) ∷ [];
        }

  unfoldable pub lint_aliases : Aliases → List Bytes → Aliases
  unfolding alias_round normalized_search_phrase
  lint_aliases state [] = state
  lint_aliases state (alias ∷ aliases) =
      lint_aliases (alias_round state alias (normalized_search_phrase alias)) aliases

  -- The loop over the aliases behind this one.
  unfoldable pub similar_to : Bytes → Bytes → List (Bytes × Bytes) → List Diagnostic
  unfolding aliases_are_overly_similar
  similar_to alias normalized [] = []
  similar_to alias normalized ((other, other_normalized) ∷ others) =
      (if aliases_are_overly_similar normalized other_normalized
        then lint_warning (
            codes "overly similar aliases: '"
            ++ (alias ++ (codes "' and '" ++ (other ++ codes "'"))))
          ∷ []
        else [])
      ++ similar_to alias normalized others

  unfoldable pub similar_pairs : List (Bytes × Bytes) → List Diagnostic
  unfolding similar_to
  similar_pairs [] = []
  similar_pairs ((alias, normalized) ∷ others) =
      similar_to alias normalized others ++ similar_pairs others

  abbrev pub broad_keywords : List Bytes
  broad_keywords =
      codes "basic"
      ∷ codes "basics"
      ∷ codes "command"
      ∷ codes "commands"
      ∷ codes "general"
      ∷ codes "help"
      ∷ codes "linux"
      ∷ codes "stuff"
      ∷ codes "thing"
      ∷ codes "things"
      ∷ codes "tutorial"
      ∷ codes "use"
      ∷ codes "using"
      ∷ []

  abbrev is_broad : List Bytes → Bool
  is_broad (token ∷ []) = contains broad_keywords token
  is_broad _ = false

  unfoldable pub lint_keywords : List Bytes → List Bytes → List Diagnostic
  unfolding normalized_search_phrase
  lint_keywords local [] = []
  lint_keywords local (keyword ∷ keywords) =
      let normalized = normalized_search_phrase keyword in
      if is_empty normalized
      then lint_warning
          (codes "keyword '" ++ (keyword ++ codes "' is empty after search normalization"))
        ∷ lint_keywords local keywords
      else (if contains local normalized
          then lint_warning
              (codes "duplicate keyword after search normalization: '" ++ (normalized ++ codes "'"))
            ∷ []
          else [])
        ++ ((if is_broad (tokenize normalized false false)
              then lint_warning (codes "overly broad keyword: '" ++ (keyword ++ codes "'")) ∷ []
              else [])
            ++ lint_keywords (normalized ∷ local) keywords)

  -- A related entry that is found.
  unfoldable pub reciprocal_warning : Bytes → Option KnowledgeEntry → List Diagnostic
  reciprocal_warning related_id none = []
  reciprocal_warning related_id (some related_entry) =
      if contains related_entry.related entry.id
      then []
      else lint_warning (codes "related id '" ++ (related_id ++ codes "' is not reciprocal")) ∷ []

  unfoldable pub related_round :
      List KnowledgeEntry → IdLookup → List Bytes → Bytes → List Diagnostic
  unfolding reciprocal_warning find_by_id
  related_round entries lookup seen related_id =
      if contains seen related_id
      then lint_warning (codes "duplicate related id: '" ++ (related_id ++ codes "'")) ∷ []
      else if beq related_id entry.id
      then lint_warning (codes "entry must not relate to itself") ∷ []
      else reciprocal_warning related_id (find_by_id entries lookup related_id)

  unfoldable pub lint_related :
      List KnowledgeEntry → IdLookup → List Bytes → List Bytes → List Diagnostic
  unfolding related_round
  lint_related entries lookup seen [] = []
  lint_related entries lookup seen (related_id ∷ related) =
      related_round entries lookup seen related_id
      ++ lint_related entries lookup (related_id ∷ seen) related
