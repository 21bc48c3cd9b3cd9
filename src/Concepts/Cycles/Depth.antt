-- ===== src/Concepts/Cycles/Depth.antt =====
-- The recursive search of `detectCycles` in src/concepts.cpp: what a visit finds, and what it leaves.
use howlinux.Base.{
  ℕ, zero, suc, true, List, [], ◌∷◌, ◌≡◌, refl, arith, none, some, Bytes, beq, beq_iff, contains,
  All, Bool-cases, inl, inr, subst, sym, ap,
}
use howlinux.Base.Contains.{All-contains, All-contained}
use mathlib.Core.WellFounded.{Acc}
use howlinux.Concepts.Cycles.{
  Graph, adjacency, unseen, visiting, complete, Search, state_of, visit_all, leave, visit,
}
use howlinux.Concepts.Cycles.Edges.{has_edge}
use howlinux.Concepts.Cycles.Unseen.{is_unseen, count-mark, count-mark_unseen}
use howlinux.Concepts.Cycles.Loop.{
  Done, IsChain, IsSilent, Found, reported, nothing_found, Found-map, visit_all-Found,
}

module _ (graph : Graph) (names : List Bytes) where
  -- The search in front of the loop of a visit.
  abbrev entered : Bytes → Search → Search
  entered canonical s = record {
    states = (canonical, visiting) ∷ s.states;
    stack = canonical ∷ s.stack;
    cycle = none;
  }

  visit-step :
      (fuel : ℕ) (canonical : Bytes) (s : Search)
      → s.cycle ≡ none
      → visit graph (suc fuel) canonical s
        ≡ leave canonical (
            visit_all
              (visit graph fuel)
              canonical
              (adjacency graph canonical)
              (entered canonical s))
  unfolding visit
  visit-step fuel canonical s h = rw (h, visit) refl

  entered-IsSilent :
      (fuel : ℕ) (canonical : Bytes) (stack : List Bytes) (s : Search)
      → contains names canonical ≡ true
      → state_of s.states canonical ≡ unseen
      → IsSilent graph names stack (suc fuel) s
      → IsSilent graph names (canonical ∷ stack) fuel (entered canonical s)
  unfolding state_of contains
  entered-IsSilent fuel canonical stack s known e i = record {
    silent = refl;
    same_stack = λ k. canonical ∷ i.same_stack k;
    visited = λ name h. ground (arith, h, i.visited name);
    done = λ name h. elim (Bool-cases (beq canonical name)) [
      | inl b ↦ absurd (ground (arith, h, b))
      | inr b ↦ i.done name (ground (arith, h, b))
    ];
    few = omega (
      arith,
      i.few,
      count-mark_unseen s.states canonical visiting refl names known (ap is_unseen e),
    );
  }

  leave-silent :
      (canonical : Bytes) (s : Search)
      → s.cycle ≡ none
      → leave canonical s ≡ record {
        states = (canonical, complete) ∷ s.states;
        stack = elim s.stack [ [] ↦ [] | name ∷ stack ↦ stack ];
        cycle = none;
      }
  unfolding leave
  leave-silent canonical s h = rw (h, leave) refl

  leave-reported :
      (canonical : Bytes) (message : Bytes × Bytes) (s : Search)
      → s.cycle ≡ some message
      → leave canonical s ≡ s
  unfolding leave
  leave-reported canonical message s h = simp (h, leave)

  left-IsSilent :
      (fuel : ℕ) (canonical : Bytes) (stack : List Bytes) (s : Search)
      → IsSilent graph names (canonical ∷ stack) fuel s
      → Done graph canonical
      → IsSilent graph names stack (suc fuel) (leave canonical s)
  unfolding state_of contains
  left-IsSilent fuel canonical stack s i d =
      subst (IsSilent graph names stack (suc fuel)) (sym (leave-silent canonical s i.silent))
        (record {
          silent = refl;
          same_stack =
              ap (λ (names : List Bytes). elim names [ [] ↦ [] | name ∷ stack ↦ stack ])
                i.same_stack;
          visited = λ name h. ground (arith, h, i.visited name);
          done = λ name h. elim (Bool-cases (beq canonical name)) [
            | inl b ↦ subst (Done graph) ((beq_iff canonical name).0 b) d
            | inr b ↦ i.done name (ground (arith, h, b))
          ];
          few = omega (arith, i.few, count-mark s.states canonical complete refl names);
        })

  leave-Found :
      (fuel : ℕ) (canonical : Bytes) (stack : List Bytes) (s : Search)
      → Found graph names (canonical ∷ stack) fuel (Done graph canonical) s
      → Found graph names stack (suc fuel) (Done graph canonical) (leave canonical s)
  leave-Found fuel canonical stack s (reported message e c) =
      subst (Found graph names stack (suc fuel) (Done graph canonical))
        (sym (leave-reported canonical message s e)) (reported message e c)
  leave-Found fuel canonical stack s (nothing_found i d) =
      nothing_found (left-IsSilent fuel canonical stack s i d) d

  destinations_of :
      (canonical : Bytes) → All (λ d. has_edge graph canonical d ≡ true) (adjacency graph canonical)
  destinations_of canonical = All-contained (adjacency graph canonical)

  -- A visit of an unseen name, with as much fuel as names are unseen.
  pub visit-Found :
      ((name other : Bytes) → has_edge graph name other ≡ true → contains names other ≡ true)
      → (fuel : ℕ) (canonical : Bytes) (stack : List Bytes) (s : Search)
      → contains names canonical ≡ true
      → state_of s.states canonical ≡ unseen
      → IsChain graph (canonical ∷ stack)
      → IsSilent graph names stack fuel s
      → Found graph names stack fuel (Done graph canonical) (visit graph fuel canonical s)
  visit-Found known zero canonical stack s k e chain i = absurd (
      omega
        (arith, i.few, count-mark_unseen s.states canonical visiting refl names k (ap is_unseen e)))
  visit-Found known (suc fuel) canonical stack s k e chain i =
      let loop =
        visit_all-Found graph names (visit graph fuel) canonical stack fuel chain
          (λ d t edge u j.
            visit-Found known fuel d (canonical ∷ stack) t (known canonical d edge) u (edge, chain)
              j)
          (adjacency graph canonical) (destinations_of canonical) (entered canonical s)
          (entered-IsSilent fuel canonical stack s k e i) in
      subst (Found graph names stack (suc fuel) (Done graph canonical))
        (sym (visit-step fuel canonical s i.silent))
        (leave-Found fuel canonical stack _ (
          Found-map graph names (canonical ∷ stack) fuel _ _ _
            (λ h.
              Acc.intro canonical
                (λ d edge. All-contains (Done graph) (adjacency graph canonical) d h edge))
            loop))
