-- ===== src/Concepts/Cycles.antt =====
-- `detectCycles` of src/concepts.cpp.
pub mod Walks
pub mod Edges
pub mod Unseen
pub mod Loop
pub mod Depth
pub mod Message
pub mod Exact
use howlinux.Base.{
  ℕ, zero, suc, ◌&&◌, not, List, [], ◌∷◌, ◌++◌, Option, none, some, map, if◌then◌else◌, Bytes,
  codes, contains, beq, blt, length,
}
use howlinux.Base.Sort.{sort_by}
use howlinux.Diagnostics.{Diagnostic}
use howlinux.Concepts.Groups.{ParsedConceptGroup, error_of}

-- `std::unique`
unfoldable pub unique : List Bytes → List Bytes
unique [] = []
unique (x ∷ []) = x ∷ []
unique (x ∷ y ∷ xs) = let rest = unique (y ∷ xs) in if beq x y then rest else x ∷ rest

-- `canonicals`
abbrev pub canonicals_of : List ParsedConceptGroup → List Bytes
canonicals_of groups = map (λ (g : ParsedConceptGroup). g.canonical) groups

-- The aliases of a group that name another group.
unfoldable pub links : List Bytes → Bytes → List Bytes → List Bytes
links canonicals canonical [] = []
links canonicals canonical (alias ∷ aliases) =
    let rest = links canonicals canonical aliases in
    if not (beq alias canonical) && contains canonicals alias then alias ∷ rest else rest

-- `graph`: its lists of destinations are sorted, and hold none twice.
abbrev pub Graph : Type 0
Graph = List (Bytes × List Bytes)

-- More destinations of a concept, behind those that it has.
unfoldable pub add_destinations : Graph → Bytes → List Bytes → Graph
unfolding unique
add_destinations [] canonical added = (canonical, unique (sort_by blt added)) ∷ []
add_destinations ((name, destinations) ∷ graph) canonical added =
    let rest = (name, destinations) ∷ add_destinations graph canonical added in
    if beq name canonical
    then (name, unique (sort_by blt (destinations ++ added))) ∷ graph
    else rest

-- The loop over the groups; the last argument is the graph so far.
unfoldable pub graph_from : List Bytes → List ParsedConceptGroup → Graph → Graph
unfolding links add_destinations
graph_from canonicals [] graph = graph
graph_from canonicals (group ∷ groups) graph =
    graph_from canonicals groups
      (add_destinations graph group.canonical (links canonicals group.canonical group.aliases))

unfoldable pub adjacency : Graph → Bytes → List Bytes
adjacency [] canonical = []
adjacency ((name, destinations) ∷ graph) canonical =
    if beq name canonical then destinations else adjacency graph canonical

pub data VisitState : Type 0 where
  unseen visiting complete : VisitState

-- `states` (the last one written counts), `stack` (its last element first), the message of the
-- cycle that was reported, with the concept that it was reported at.
pub record Search : Type 0 where
  pub states : List (Bytes × VisitState)
  pub stack : List Bytes
  pub cycle : Option (Bytes × Bytes)

unfoldable pub state_of : List (Bytes × VisitState) → Bytes → VisitState
state_of [] canonical = unseen
state_of ((name, state) ∷ states) canonical =
    if beq name canonical then state else state_of states canonical

-- The stack from `destination` on, its last element first.
unfoldable pub from_destination : Bytes → List Bytes → List Bytes
from_destination destination [] = []
from_destination destination (name ∷ stack) =
    if beq name destination then name ∷ [] else name ∷ from_destination destination stack

-- The names of a cycle, their last one first, with arrows between them.
unfoldable pub arrows : List Bytes → Bytes
arrows [] = []
arrows (name ∷ []) = name
arrows (name ∷ next ∷ names) = arrows (next ∷ names) ++ (codes " -> " ++ name)

unfoldable pub cycle_message : Bytes → List Bytes → Bytes
unfolding from_destination arrows
cycle_message destination stack =
    codes "circular concept definition: "
    ++ (arrows (from_destination destination stack) ++ (codes " -> " ++ destination))

-- The loop over the destinations; `visit` is the call for one that is unseen.
unfoldable pub visit_all : (Bytes → Search → Search) → Bytes → List Bytes → Search → Search
unfolding state_of cycle_message
visit_all visit canonical [] search' = search'
visit_all visit canonical (destination ∷ destinations) search' =
    elim (state_of search'.states destination) [
      | unseen ↦
          let visited = visit destination search' in
          elim visited.cycle [
            | none ↦ visit_all visit canonical destinations visited
            | some message ↦ visited
          ]
      | visiting ↦ record search' {
        cycle = some (canonical, cycle_message destination search'.stack);
      }
      | complete ↦ visit_all visit canonical destinations search'
    ]

unfoldable pub leave : Bytes → Search → Search
leave canonical (search') = elim search'.cycle [
  | some message ↦ search'
  | none ↦ record {
    states = (canonical, complete) ∷ search'.states;
    stack = elim search'.stack [ [] ↦ [] | name ∷ stack ↦ stack ];
    cycle = none;
  }
]

-- `visit`, with fuel for its depth: each call marks a concept that was unseen.
unfoldable pub visit : Graph → ℕ → Bytes → Search → Search
unfolding visit_all leave adjacency
visit graph zero canonical search' = search'
visit graph (suc fuel) canonical search' = elim search'.cycle [
  | some message ↦ search'
  | none ↦ leave canonical (
      visit_all (visit graph fuel) canonical (adjacency graph canonical) (record {
        states = (canonical, visiting) ∷ search'.states;
        stack = canonical ∷ search'.stack;
        cycle = none;
      }))
]

-- The loop over the groups.
unfoldable pub visit_groups : Graph → ℕ → List ParsedConceptGroup → Search → Search
unfolding visit
visit_groups graph fuel [] search' = search'
visit_groups graph fuel (group ∷ groups) search' = elim (state_of search'.states group.canonical) [
  | unseen ↦
      let visited = visit graph fuel group.canonical search' in
      elim visited.cycle [ none ↦ visit_groups graph fuel groups visited | some message ↦ visited ]
  | visiting ↦ visit_groups graph fuel groups search'
  | complete ↦ visit_groups graph fuel groups search'
]

abbrev pub start : Search
start = record { states = []; stack = []; cycle = none }

unfoldable pub find_cycle : List ParsedConceptGroup → Search
unfolding graph_from visit_groups
find_cycle groups =
    let graph = graph_from (canonicals_of groups) groups [] in
    visit_groups graph (length groups) groups start

-- `detectCycles`, as the diagnostics that it adds.
unfoldable pub detect_cycles : List ParsedConceptGroup → Bytes → List Diagnostic
unfolding find_cycle
detect_cycles groups path = elim (find_cycle groups).cycle [
  | none ↦ []
  | some (canonical, message) ↦ error_of path canonical message ∷ []
]
