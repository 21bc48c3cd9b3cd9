-- ===== src/Concepts/Cycles/Loop.antt =====
-- The loop over the destinations in the search of `detectCycles` in src/concepts.cpp: what it finds, where
-- the calls for the unseen ones find it.
use howlinux.Base.{
  ℕ, ◌≤◌, true, List, [], ◌∷◌, ◌≡◌, refl, none, some, Bytes, contains, All, subst, sym, ap,
}
use howlinux.Concepts.Cycles.{
  Graph, VisitState, unseen, visiting, complete, Search, state_of, cycle_message, visit_all,
}
use howlinux.Concepts.Cycles.Walks.{IsDone}
use howlinux.Concepts.Cycles.Edges.{has_edge}
use howlinux.Concepts.Cycles.Unseen.{unseen_count}

-- The rounds of the loop over the destinations, by the state of the destination.
module _ (call : Bytes → Search → Search) (canonical destination : Bytes)
    (destinations : List Bytes) (s : Search) where
  round-unseen :
      state_of s.states destination ≡ unseen
      → (call destination s).cycle ≡ none
      → visit_all call canonical (destination ∷ destinations) s
        ≡ visit_all call canonical destinations (call destination s)
  unfolding visit_all
  round-unseen e h = rw (e, visit_all) (simp h)

  round-reported :
      (message : Bytes × Bytes)
      → state_of s.states destination ≡ unseen
      → (call destination s).cycle ≡ some message
      → visit_all call canonical (destination ∷ destinations) s ≡ call destination s
  unfolding visit_all
  round-reported message e h = rw (e, visit_all) (simp h)

  round-visiting :
      state_of s.states destination ≡ visiting
      → (visit_all call canonical (destination ∷ destinations) s).cycle
        ≡ some (canonical, cycle_message destination s.stack)
  unfolding visit_all
  round-visiting e = rw (e, visit_all) refl

  round-complete :
      state_of s.states destination ≡ complete
      → visit_all call canonical (destination ∷ destinations) s
        ≡ visit_all call canonical destinations s
  unfolding visit_all
  round-complete e = rw (e, visit_all) refl

module _ (graph : Graph) where
  abbrev pub Done : Bytes → Type 0
  Done = IsDone (has_edge graph)

  -- Each name on the stack has an edge to the one above it.
  abbrev pub IsChain : List Bytes → Type 0
  IsChain [] = Unit
  IsChain (name ∷ []) = Unit
  IsChain (name ∷ below ∷ stack) = (has_edge graph below name ≡ true) × IsChain (below ∷ stack)

  -- A cycle that was reported at the topmost name: the edge from it leads to a name on the stack.
  pub record IsCycle (message : Bytes × Bytes) : Type 0 where
    pub top : Bytes
    pub below : List Bytes
    pub name : Bytes
    pub says : message ≡ (top, cycle_message name (top ∷ below))
    pub chain : IsChain (top ∷ below)
    pub on_stack : contains (top ∷ below) name ≡ true
    pub closes : has_edge graph top name ≡ true

module _ (graph : Graph) (names : List Bytes) where
  -- A search that has reported nothing, with this stack and at most so many unseen names.
  pub record IsSilent (stack : List Bytes) (n : ℕ) (s : Search) : Type 0 where
    pub silent : s.cycle ≡ none
    pub same_stack : s.stack ≡ stack
    pub visited : (name : Bytes) → state_of s.states name ≡ visiting → contains stack name ≡ true
    pub done : (name : Bytes) → state_of s.states name ≡ complete → Done graph name
    pub few : unseen_count names s.states ≤ n

  -- A search that has reported a cycle; or that has reported nothing, and then this holds.
  pub data Found (stack : List Bytes) (n : ℕ) (P : Type 0) (s : Search) : Type 0 where
    reported :
        (message : Bytes × Bytes)
        → s.cycle ≡ some message
        → IsCycle graph message
        → Found stack n P s
    nothing_found : IsSilent stack n s → P → Found stack n P s

  pub Found-map :
      (stack : List Bytes) (n : ℕ) (P Q : Type 0) (s : Search)
      → (P → Q)
      → Found stack n P s
      → Found stack n Q s
  Found-map stack n P Q s f (reported message e c) = reported message e c
  Found-map stack n P Q s f (nothing_found i p) = nothing_found i (f p)

  -- The loop over the destinations of the topmost name, where each call finds what it should.
  module _ (call : Bytes → Search → Search) (canonical : Bytes) (stack : List Bytes) (n : ℕ)
      (chain : IsChain graph (canonical ∷ stack))
      (calls : (destination : Bytes) (s : Search)
        → has_edge graph canonical destination ≡ true
        → state_of s.states destination ≡ unseen
        → IsSilent (canonical ∷ stack) n s
        → Found (canonical ∷ stack) n (Done graph destination) (call destination s)) where
    abbrev LoopFinds : List Bytes → Type 0
    LoopFinds destinations =
        (s : Search)
        → IsSilent (canonical ∷ stack) n s
        → Found (canonical ∷ stack) n (All (Done graph) destinations)
            (visit_all call canonical destinations s)

    behind-Found :
        (destination : Bytes) (destinations : List Bytes) (s : Search)
        → state_of s.states destination ≡ unseen
        → Found (canonical ∷ stack) n (Done graph destination) (call destination s)
        → LoopFinds destinations
        → Found
            (canonical ∷ stack)
            n
            (All (Done graph) (destination ∷ destinations))
            (visit_all call canonical (destination ∷ destinations) s)
    behind-Found destination destinations s e (reported message cycle c) go_on =
        subst (Found _ n _)
          (sym (round-reported call canonical destination destinations s message e cycle))
          (reported message cycle c)
    behind-Found destination destinations s e (nothing_found i d) go_on =
        subst (Found _ n _)
          (sym (round-unseen call canonical destination destinations s e i.silent))
          (Found-map _ n _ _ _ (λ h. (d, h)) (go_on (call destination s) i))

    round-Found :
        (destination : Bytes) (destinations : List Bytes) (s : Search) (v : VisitState)
        → has_edge graph canonical destination ≡ true
        → state_of s.states destination ≡ v
        → IsSilent (canonical ∷ stack) n s
        → LoopFinds destinations
        → Found
            (canonical ∷ stack)
            n
            (All (Done graph) (destination ∷ destinations))
            (visit_all call canonical (destination ∷ destinations) s)
    round-Found destination destinations s unseen edge e i go_on =
        behind-Found destination destinations s e (calls destination s edge e i) go_on
    round-Found destination destinations s visiting edge e i go_on =
        reported _ (round-visiting call canonical destination destinations s e) (record {
          top = canonical;
          below = stack;
          name = destination;
          says = ap (λ names. (canonical, cycle_message destination names)) i.same_stack;
          chain = chain;
          on_stack = i.visited destination e;
          closes = edge;
        })
    round-Found destination destinations s complete edge e i go_on =
        subst (Found _ n _) (sym (round-complete call canonical destination destinations s e))
          (Found-map _ n _ _ _ (λ h. (i.done destination e, h)) (go_on s i))

    pub visit_all-Found :
        (destinations : List Bytes)
        → All (λ d. has_edge graph canonical d ≡ true) destinations
        → LoopFinds destinations
    visit_all-Found [] h s i = unfold visit_all in nothing_found i tt
    visit_all-Found (d ∷ destinations) (edge, h) s i =
        round-Found d destinations s (state_of s.states d) edge refl i
          (visit_all-Found destinations h)
