-- ===== src/Concepts/Cycles/Edges.antt =====
-- The edges of the graph that `detectCycles` of src/concepts.cpp makes, by the groups alone.
use howlinux.Base.{
  Bool, true, false, ◌&&◌, ◌||◌, not, List, [], ◌∷◌, ◌++◌, ◌≡◌, refl, ◌∙◌, arith, Bytes, beq,
  beq_iff, beq_refl, sym, blt, contains, any, Bool-cases, inl, inr,
}
use howlinux.Base.Sort.{sort_by}
use howlinux.Base.Contains.{contains-sort_by, contains-append}
use howlinux.Concepts.Groups.{ParsedConceptGroup}
use howlinux.Concepts.Cycles.{
  unique, links, canonicals_of, Graph, add_destinations, graph_from, adjacency,
}

-- A group with the first name has the second one as an alias, and it is the name of another group.
abbrev pub is_link : List ParsedConceptGroup → Bytes → Bytes → Bool
is_link groups name other =
    any (λ (g : ParsedConceptGroup). beq g.canonical name && contains g.aliases other) groups
    && not (beq other name)
    && any (λ (g : ParsedConceptGroup). beq g.canonical other) groups

-- The graph has this edge.
abbrev pub has_edge : Graph → Bytes → Bytes → Bool
has_edge graph name other = contains (adjacency graph name) other

contains-unique : (xs : List Bytes) (t : Bytes) → contains (unique xs) t ≡ contains xs t
unfolding unique contains
contains-unique [] t = refl
contains-unique (x ∷ []) t = refl
contains-unique (x ∷ y ∷ xs) t = ground (arith, beq_iff x y, contains-unique (y ∷ xs) t)

pub contains-nil : (t : Bytes) → contains [] t ≡ false
unfolding contains
contains-nil t = refl

pub contains-links :
    (canonicals : List Bytes) (canonical : Bytes) (aliases : List Bytes) (t : Bytes)
    → contains (links canonicals canonical aliases) t
      ≡ (contains aliases t && not (beq t canonical) && contains canonicals t)
unfolding links contains
contains-links canonicals canonical [] t = refl
contains-links canonicals canonical (alias ∷ aliases) t =
    ground (arith, beq_iff alias t, contains-links canonicals canonical aliases t)

pub contains-canonicals_of :
    (groups : List ParsedConceptGroup) (t : Bytes)
    → contains (canonicals_of groups) t ≡ any (λ (g : ParsedConceptGroup). beq g.canonical t) groups
unfolding contains
contains-canonicals_of [] t = refl
contains-canonicals_of (g ∷ groups) t = ground (arith, contains-canonicals_of groups t)

sorted_unique : (xs : List Bytes) (t : Bytes) → contains (unique (sort_by blt xs)) t ≡ contains xs t
sorted_unique xs t = contains-unique (sort_by blt xs) t ∙ contains-sort_by xs t

different :
    (key canonical name : Bytes)
    → beq key canonical ≡ false
    → beq key name ≡ true
    → beq canonical name ≡ false
different key canonical name h k = elim (Bool-cases (beq canonical name)) [
  | inl e ↦
      let same = (beq_iff key name).0 k ∙ sym ((beq_iff canonical name).0 e) in
      absurd (ground (arith, h, (beq_iff key canonical).1 same))
  | inr e ↦ e
]

edge-add_destinations :
    (graph : Graph) (canonical : Bytes) (added : List Bytes) (name t : Bytes)
    → has_edge (add_destinations graph canonical added) name t
      ≡ (has_edge graph name t || beq canonical name && contains added t)
unfolding add_destinations adjacency
edge-add_destinations [] canonical added name t =
    ground (arith, sorted_unique added t, contains-nil t)
edge-add_destinations ((key, destinations) ∷ graph) canonical added name t =
    elim (Bool-cases (beq key canonical)) [
      | inl e ↦ rw ((beq_iff key canonical).0 e) (
          ground (
            arith,
            beq_refl canonical,
            sorted_unique (destinations ++ added) t,
            contains-append destinations added t,
          ))
      | inr e ↦ ground (
        arith,
        beq_iff key name,
        beq_iff canonical name,
        different key canonical name e,
        edge-add_destinations graph canonical added name t,
      )
    ]

edge-graph_from :
    (canonicals : List Bytes) (groups : List ParsedConceptGroup) (graph : Graph) (name t : Bytes)
    → has_edge (graph_from canonicals groups graph) name t ≡ (
        has_edge graph name t
        || any (λ (g : ParsedConceptGroup). beq g.canonical name && contains g.aliases t) groups
          && not (beq t name)
          && contains canonicals t)
unfolding graph_from
edge-graph_from canonicals [] graph name t = ground arith
edge-graph_from canonicals (g ∷ groups) graph name t =
    let added = links canonicals g.canonical g.aliases in
    ground (
      arith,
      beq_iff g.canonical name,
      edge-add_destinations graph g.canonical added name t,
      contains-links canonicals g.canonical g.aliases t,
      edge-graph_from canonicals groups (add_destinations graph g.canonical added) name t,
    )

-- The edges are the links between the groups.
pub edge-graph_of :
    (groups : List ParsedConceptGroup) (name t : Bytes)
    → has_edge (graph_from (canonicals_of groups) groups []) name t ≡ is_link groups name t
edge-graph_of groups name t = ground (
  arith,
  edge-graph_from (canonicals_of groups) groups [] name t,
  contains-canonicals_of groups t,
  unfolded,
)
  where
    unfolded : has_edge [] name t ≡ false
    unfolded = unfold adjacency contains in refl

any-both :
    (groups : List ParsedConceptGroup) (name t : Bytes)
    → any (λ (g : ParsedConceptGroup). beq g.canonical name && contains g.aliases t) groups ≡ true
    → any (λ (g : ParsedConceptGroup). beq g.canonical name) groups ≡ true
any-both [] name t h = h
any-both (g ∷ groups) name t h = ground (arith, h, any-both groups name t)

-- Both names of a link are names of groups.
pub link-names :
    (groups : List ParsedConceptGroup) (name t : Bytes)
    → is_link groups name t ≡ true
    → (contains (canonicals_of groups) name ≡ true) × (contains (canonicals_of groups) t ≡ true)
link-names groups name t h = (
  ground (arith, h, any-both groups name t, contains-canonicals_of groups name),
  ground (arith, h, contains-canonicals_of groups t),
)
