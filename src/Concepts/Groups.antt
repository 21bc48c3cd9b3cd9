-- ===== src/Concepts/Groups.antt =====
-- The loops of `ConceptDictionary::load` in src/concepts.cpp over the YAML mapping. Each returns the
-- diagnostics that it adds in front of what it yields.
use howlinux.Base.{
  List, [], ◌∷◌, ◌++◌, Option, none, some, if◌then◌else◌, Bytes, codes, contains, blt, is_empty,
}
use howlinux.Base.Sort.{sort_by}
use howlinux.Diagnostics.{Diagnostic, error}
use howlinux.Yaml.{text, unreadable, Node, scalar, sequence, Nodes, end, item, Fields, done, field}
use howlinux.Concepts.Dictionary.{Phrases, find, normalize_phrase}

-- `ParsedConceptGroup`
pub record ParsedConceptGroup : Type 0 where
  pub canonical : Bytes
  pub source_name : Bytes
  pub aliases : List Bytes

-- `addError`, as the diagnostic that it adds.
abbrev pub error_of : Bytes → Bytes → Bytes → Diagnostic
error_of path concept_name message = record {
  severity = error;
  path = path;
  entry_id = concept_name;
  message = message;
}

-- The state of the loop over the aliases of one concept: `diagnostics`, `group.aliases` and
-- `local_aliases`.
pub record AliasState : Type 0 where
  pub diagnostics : List Diagnostic
  pub aliases : List Bytes
  pub local_aliases : List Bytes

abbrev alias_error : Bytes → Bytes → AliasState → Bytes → AliasState
alias_error path canonical state message = record state {
  diagnostics = state.diagnostics ++ error_of path canonical message ∷ [];
}

-- An alias whose text could be read.
unfoldable pub add_alias : Bytes → Bytes → AliasState → Bytes → AliasState
add_alias path canonical state source_alias =
    let alias = normalize_phrase source_alias in
    if is_empty alias
    then alias_error path canonical state
        (codes "concept alias '" ++ (source_alias ++ codes "' is empty after normalization"))
    else if contains state.local_aliases alias
    then alias_error path canonical state
        (codes "duplicate alias after normalization: '" ++ (alias ++ codes "'"))
    else record {
      diagnostics = state.diagnostics;
      aliases = state.aliases ++ alias ∷ [];
      local_aliases = alias ∷ state.local_aliases;
    }

unfoldable pub read_alias : Bytes → Bytes → AliasState → Node → AliasState
unfolding add_alias
read_alias path canonical state (scalar (text source_alias)) =
    add_alias path canonical state source_alias
read_alias path canonical state (scalar (unreadable raw what)) =
    alias_error path canonical state (codes "cannot read concept alias: " ++ what)
read_alias path canonical state _ =
    alias_error path canonical state (codes "each concept alias must be a scalar string")

-- The loop over `item.second`.
unfoldable pub read_aliases : Bytes → Bytes → Nodes → AliasState → AliasState
unfolding read_alias
read_aliases path canonical end state = state
read_aliases path canonical (item node nodes) state =
    read_aliases path canonical nodes (read_alias path canonical state node)

-- The state of the loop over the concepts: `diagnostics`, `groups` and `canonical_sources`.
pub record GroupState : Type 0 where
  pub diagnostics : List Diagnostic
  pub groups : List ParsedConceptGroup
  pub canonical_sources : Phrases

abbrev group_error : Bytes → Bytes → GroupState → Bytes → GroupState
group_error path concept_name state message = record state {
  diagnostics = state.diagnostics ++ error_of path concept_name message ∷ [];
}

-- The group of a concept whose name is new.
unfoldable pub add_group : Bytes → Bytes → Bytes → GroupState → Node → GroupState
unfolding read_aliases
add_group path canonical source_name state (sequence nodes) =
    let state' =
      read_aliases path canonical nodes
        (record { diagnostics = state.diagnostics; aliases = []; local_aliases = [] }) in
    record {
      diagnostics = state'.diagnostics;
      groups =
          state.groups
          ++ record { canonical = canonical; source_name = source_name; aliases = state'.aliases }
            ∷ [];
      canonical_sources = state.canonical_sources;
    }
add_group path canonical source_name state _ =
    group_error path canonical state (codes "concept aliases must be a sequence")

-- A concept with this normal name; the last argument is `canonical_sources.find(canonical)`.
unfoldable pub read_named : Bytes → Bytes → Bytes → Node → GroupState → Option Bytes → GroupState
unfolding add_group
read_named path canonical source_name aliases state (some source) =
    group_error path canonical state (
      codes "duplicate canonical concept after normalization; also defined as '"
      ++ (source ++ codes "'"))
read_named path canonical source_name aliases state none =
    add_group path canonical source_name
      (record state {
        canonical_sources = state.canonical_sources ++ (canonical, source_name) ∷ [];
      })
      aliases

-- A concept whose name could be read.
unfoldable pub read_group : Bytes → Bytes → Node → GroupState → GroupState
unfolding read_named
read_group path source_name aliases state =
    let canonical = normalize_phrase source_name in
    if is_empty canonical
    then group_error path source_name state
        (codes "concept canonical name is empty after normalization")
    else read_named path canonical source_name aliases state
        (find state.canonical_sources canonical)

unfoldable pub read_concept : Bytes → Node → Node → GroupState → GroupState
unfolding read_group
read_concept path (scalar (text source_name)) aliases state =
    read_group path source_name aliases state
read_concept path (scalar (unreadable raw what)) aliases state =
    group_error path [] state (codes "cannot read concept canonical name: " ++ what)
read_concept path _ aliases state =
    group_error path [] state (codes "each concept canonical name must be a scalar string")

-- The loop over `concepts_node`.
unfoldable pub read_concepts : Bytes → Fields → GroupState → GroupState
unfolding read_concept
read_concepts path done state = state
read_concepts path (field name aliases fields) state =
    read_concepts path fields (read_concept path name aliases state)

-- `std::sort` of the groups by their names.
unfoldable pub sort_groups : List ParsedConceptGroup → List ParsedConceptGroup
sort_groups groups = sort_by (λ (l r : ParsedConceptGroup). blt l.canonical r.canonical) groups
