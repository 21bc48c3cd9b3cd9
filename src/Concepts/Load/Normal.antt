-- ===== src/Concepts/Load/Normal.antt =====
-- The names that the loops of `ConceptDictionary::load` in src/concepts.cpp gather are normal.
use howlinux.Base.{
  false, List, ◌≡◌, Option, none, some, Bytes, Bool-cases, inl, inr, is_empty, contains, All,
  All-append,
}
use howlinux.Base.Sort.{sort_by-All}
use howlinux.Diagnostics.{Diagnostic}
use howlinux.Yaml.{text, unreadable, Node, scalar, sequence, Nodes, end, item, Fields, done, field}
use howlinux.Concepts.Dictionary.{find, normalize_phrase, normalize_phrase_idem}
use howlinux.Concepts.Groups.{
  ParsedConceptGroup, AliasState, add_alias, read_alias, read_aliases, GroupState, add_group,
  read_named, read_group, read_concept, read_concepts, sort_groups,
}
use howlinux.Concepts.Load.{concept_groups}
use howlinux.Concepts.Load.Order.{IsNormal}

pub record IsNormalGroup (g : ParsedConceptGroup) : Type 0 where
  pub canonical : IsNormal g.canonical
  pub aliases : All IsNormal g.aliases

normalized : (s : Bytes) → is_empty (normalize_phrase s) ≡ false → IsNormal (normalize_phrase s)
normalized s h = record { normal = normalize_phrase_idem s; not_empty = h }

module _ (path canonical : Bytes) where
  add_alias-normal :
      (state : AliasState) (source : Bytes)
      → All IsNormal state.aliases
      → All IsNormal (add_alias path canonical state source).aliases
  unfolding add_alias
  add_alias-normal state source h = elim (Bool-cases (is_empty (normalize_phrase source))) [
    | inl e ↦ rw e h
    | inr e ↦ elim (Bool-cases (contains state.local_aliases (normalize_phrase source))) [
      | inl k ↦ rw (e, k) h
      | inr k ↦ rw (e, k) (All-append IsNormal state.aliases _ h (normalized source e, tt))
    ]
  ]

  read_alias-normal :
      (state : AliasState) (node : Node)
      → All IsNormal state.aliases
      → All IsNormal (read_alias path canonical state node).aliases
  unfolding read_alias
  read_alias-normal state (scalar (text source)) h = add_alias-normal state source h
  read_alias-normal state (scalar (unreadable raw what)) h = h
  read_alias-normal state _ h = h

  read_aliases-normal :
      (nodes : Nodes) (state : AliasState)
      → All IsNormal state.aliases
      → All IsNormal (read_aliases path canonical nodes state).aliases
  unfolding read_aliases
  read_aliases-normal end state h = h
  read_aliases-normal (item node nodes) state h =
      read_aliases-normal nodes (read_alias path canonical state node)
        (read_alias-normal state node h)

add_group-normal :
    (path canonical source : Bytes) (state : GroupState) (node : Node)
    → IsNormal canonical
    → All IsNormalGroup state.groups
    → All IsNormalGroup (add_group path canonical source state node).groups
unfolding add_group
add_group-normal path canonical source state (sequence nodes) n h =
    All-append IsNormalGroup state.groups _ h
      (record { canonical = n; aliases = read_aliases-normal path canonical nodes _ tt }, tt)
add_group-normal path canonical source state _ n h = h

read_named-normal :
    (path canonical source : Bytes) (aliases : Node) (state : GroupState) (found : Option Bytes)
    → IsNormal canonical
    → All IsNormalGroup state.groups
    → All IsNormalGroup (read_named path canonical source aliases state found).groups
unfolding read_named
read_named-normal path canonical source aliases state (some other) n h = h
read_named-normal path canonical source aliases state none n h =
    add_group-normal path canonical source _ aliases n h

read_group-normal :
    (path source : Bytes) (aliases : Node) (state : GroupState)
    → All IsNormalGroup state.groups
    → All IsNormalGroup (read_group path source aliases state).groups
unfolding read_group
read_group-normal path source aliases state h =
    elim (Bool-cases (is_empty (normalize_phrase source))) [
      | inl e ↦ rw e h
      | inr e ↦ rw e (
          read_named-normal path (normalize_phrase source) source aliases state
            (find state.canonical_sources (normalize_phrase source)) (normalized source e) h)
    ]

read_concept-normal :
    (path : Bytes) (name aliases : Node) (state : GroupState)
    → All IsNormalGroup state.groups
    → All IsNormalGroup (read_concept path name aliases state).groups
unfolding read_concept
read_concept-normal path (scalar (text source)) aliases state h =
    read_group-normal path source aliases state h
read_concept-normal path (scalar (unreadable raw what)) aliases state h = h
read_concept-normal path _ aliases state h = h

read_concepts-normal :
    (path : Bytes) (fields : Fields) (state : GroupState)
    → All IsNormalGroup state.groups
    → All IsNormalGroup (read_concepts path fields state).groups
unfolding read_concepts
read_concepts-normal path done state h = h
read_concepts-normal path (field name aliases fields) state h =
    read_concepts-normal path fields (read_concept path name aliases state)
      (read_concept-normal path name aliases state h)

-- The groups that `load` goes on with have normal names and aliases.
pub sorted_groups-normal :
    (path : Bytes) (duplicates : List Diagnostic) (fields : Fields)
    → All IsNormalGroup (sort_groups (concept_groups path duplicates fields).groups)
unfolding sort_groups concept_groups
sorted_groups-normal path duplicates fields =
    sort_by-All _ IsNormalGroup _ (read_concepts-normal path fields _ tt)
