-- ===== src/Concepts/Cycles/Exact.antt =====
-- `detectCycles` of src/concepts.cpp reports a cycle exactly if the groups have one.
use howlinux.Base.{
  ℕ, true, List, [], ◌∷◌, ◌++◌, ◌≡◌, refl, arith, none, some, Bytes, codes, contains, All, subst,
  sym, ap, ◌∙◌, ◌⊎◌, inl, inr, length,
}
use howlinux.Base.Contains.{All-contains, All-contained}
use howlinux.Diagnostics.{Diagnostic}
use howlinux.Concepts.Groups.{ParsedConceptGroup, error_of}
use howlinux.Concepts.Cycles.{
  canonicals_of, Graph, graph_from, VisitState, unseen, visiting, complete, Search, state_of, visit,
  visit_groups, start, find_cycle, detect_cycles,
}
use howlinux.Concepts.Cycles.Walks.{Leads, not-Leads_back, Leads-map, Leads-first}
use howlinux.Concepts.Cycles.Edges.{is_link, has_edge, edge-graph_of, link-names}
use howlinux.Concepts.Cycles.Unseen.{count_start}
use howlinux.Concepts.Cycles.Loop.{Done, IsSilent, Found, reported, nothing_found, Found-map}
use howlinux.Concepts.Cycles.Depth.{visit-Found}
use howlinux.Concepts.Cycles.Message.{with_arrows, IsWalk, IsWalk-map, IsTold, IsCycle-IsTold}

-- The rounds of the loop over the groups, by the state of the group's name.
module _ (graph : Graph) (fuel : ℕ) (g : ParsedConceptGroup) (groups : List ParsedConceptGroup)
    (s : Search) where
  round-unseen :
      state_of s.states g.canonical ≡ unseen
      → (visit graph fuel g.canonical s).cycle ≡ none
      → visit_groups graph fuel (g ∷ groups) s
        ≡ visit_groups graph fuel groups (visit graph fuel g.canonical s)
  unfolding visit_groups
  round-unseen e h = rw (e, visit_groups) (simp h)

  round-reported :
      (message : Bytes × Bytes)
      → state_of s.states g.canonical ≡ unseen
      → (visit graph fuel g.canonical s).cycle ≡ some message
      → visit_groups graph fuel (g ∷ groups) s ≡ visit graph fuel g.canonical s
  unfolding visit_groups
  round-reported message e h = rw (e, visit_groups) (simp h)

  round-complete :
      state_of s.states g.canonical ≡ complete
      → visit_groups graph fuel (g ∷ groups) s ≡ visit_groups graph fuel groups s
  unfolding visit_groups
  round-complete e = rw (e, visit_groups) refl

-- Where every group of a list is done.
abbrev AllDone : Graph → List ParsedConceptGroup → Type 0
AllDone graph groups = All (λ (g : ParsedConceptGroup). Done graph g.canonical) groups

module _ (graph : Graph) (names : List Bytes) (fuel : ℕ)
    (known : (name other : Bytes)
      → has_edge graph name other ≡ true
      → contains names other ≡ true) where
  abbrev LoopFinds : List ParsedConceptGroup → Type 0
  LoopFinds groups =
      (s : Search)
      → IsSilent graph names [] fuel s
      → Found graph names [] fuel (AllDone graph groups) (visit_groups graph fuel groups s)

  behind-Found :
      (g : ParsedConceptGroup) (groups : List ParsedConceptGroup) (s : Search)
      → state_of s.states g.canonical ≡ unseen
      → Found graph names [] fuel (Done graph g.canonical) (visit graph fuel g.canonical s)
      → LoopFinds groups
      → Found graph names [] fuel
          (AllDone graph (g ∷ groups))
          (visit_groups graph fuel (g ∷ groups) s)
  behind-Found g groups s e (reported message cycle c) go_on =
      subst (Found graph names [] fuel _)
        (sym (round-reported graph fuel g groups s message e cycle)) (reported message cycle c)
  behind-Found g groups s e (nothing_found i d) go_on =
      subst (Found graph names [] fuel _) (sym (round-unseen graph fuel g groups s e i.silent)) (
        Found-map graph names [] fuel _ _ _ (λ h. (d, h))
          (go_on (visit graph fuel g.canonical s) i))

  round-Found :
      (g : ParsedConceptGroup) (groups : List ParsedConceptGroup) (s : Search) (v : VisitState)
      → contains names g.canonical ≡ true
      → state_of s.states g.canonical ≡ v
      → IsSilent graph names [] fuel s
      → LoopFinds groups
      → Found graph names [] fuel
          (AllDone graph (g ∷ groups))
          (visit_groups graph fuel (g ∷ groups) s)
  unfolding contains
  round-Found g groups s unseen k e i go_on =
      behind-Found g groups s e (visit-Found graph names known fuel g.canonical [] s k e tt i) go_on
  round-Found g groups s visiting k e i go_on = absurd (ground (arith, i.visited g.canonical e))
  round-Found g groups s complete k e i go_on =
      subst (Found graph names [] fuel _) (sym (round-complete graph fuel g groups s e))
        (Found-map graph names [] fuel _ _ _ (λ h. (i.done g.canonical e, h)) (go_on s i))

  pub visit_groups-Found :
      (groups : List ParsedConceptGroup)
      → All (λ (g : ParsedConceptGroup). contains names g.canonical ≡ true) groups
      → LoopFinds groups
  visit_groups-Found [] h s i = unfold visit_groups in nothing_found i tt
  visit_groups-Found (g ∷ groups) (k, h) s i =
      round-Found g groups s (state_of s.states g.canonical) k refl i (visit_groups-Found groups h)

All-canonicals_of :
    (P : Bytes → Type 0) (groups : List ParsedConceptGroup)
    → All (λ (g : ParsedConceptGroup). P g.canonical) groups
    → All P (canonicals_of groups)
All-canonicals_of P [] h = tt
All-canonicals_of P (g ∷ groups) (p, h) = (p, All-canonicals_of P groups h)

canonicals_of-All :
    (P : Bytes → Type 0) (groups : List ParsedConceptGroup)
    → All P (canonicals_of groups)
    → All (λ (g : ParsedConceptGroup). P g.canonical) groups
canonicals_of-All P [] h = tt
canonicals_of-All P (g ∷ groups) (p, h) = (p, canonicals_of-All P groups h)

length-canonicals_of :
    (groups : List ParsedConceptGroup) → length (canonicals_of groups) ≡ length groups
length-canonicals_of [] = refl
length-canonicals_of (g ∷ groups) = omega (arith, length-canonicals_of groups)

-- The one error of `detectCycles`: it names, with arrows between them, concepts each of which has the next
-- one as an alias, from one of them back to itself, and it stands at the last one in front of that.
pub record IsCircular (groups : List ParsedConceptGroup) (path : Bytes) (added : List Diagnostic)
    : Type 0 where
  pub first : Bytes
  pub between : List Bytes
  pub closed_walk : IsWalk (is_link groups) (first ∷ (between ++ first ∷ []))
  pub concept_name : Bytes
  pub last : (earlier : List Bytes) × (earlier ++ concept_name ∷ [] ≡ first ∷ between)
  pub told :
      added
      ≡ error_of path concept_name
          (codes "circular concept definition: " ++ with_arrows (first ∷ (between ++ first ∷ [])))
        ∷ []

module _ (groups : List ParsedConceptGroup) (path : Bytes) where
  abbrev graph : Graph
  graph = graph_from (canonicals_of groups) groups []

  abbrev names : List Bytes
  names = canonicals_of groups

  edge-is_link : (a b : Bytes) → has_edge graph a b ≡ true → is_link groups a b ≡ true
  edge-is_link a b h = sym (edge-graph_of groups a b) ∙ h

  -- Where every group is done, no walk leads back to its first name.
  no_cycle : AllDone graph groups → (name : Bytes) → Leads (is_link groups) name name → ⊥
  no_cycle h name w =
      let (next, e) = Leads-first w in
      let (known, _) = link-names groups name next e in
      not-Leads_back
        (All-contains (Done graph) names name (All-canonicals_of (Done graph) groups h) known)
        (Leads-map (λ a b k. edge-graph_of groups a b ∙ k) w)

  IsTold-IsCircular :
      (message : Bytes × Bytes)
      → IsTold graph message
      → IsCircular groups path (error_of path message.0 message.1 ∷ [])
  IsTold-IsCircular message t = record {
    first = t.start;
    between = t.between;
    closed_walk =
        IsWalk-map (has_edge graph) (is_link groups) edge-is_link
          (t.start ∷ (t.between ++ t.start ∷ [])) t.closed_walk;
    concept_name = message.0;
    last = t.place;
    told = ap (λ text. error_of path message.0 text ∷ []) t.message_text;
  }

  detect-reported :
      (message : Bytes × Bytes)
      → (find_cycle groups).cycle ≡ some message
      → detect_cycles groups path ≡ error_of path message.0 message.1 ∷ []
  unfolding detect_cycles
  detect-reported message e = rw (e, detect_cycles) refl

  detect-silent : (find_cycle groups).cycle ≡ none → detect_cycles groups path ≡ []
  unfolding detect_cycles
  detect-silent e = rw (e, detect_cycles) refl

  -- The search before the loop, with fuel for each group.
  start-IsSilent : IsSilent graph names [] (length groups) start
  unfolding state_of
  start-IsSilent = record {
    silent = refl;
    same_stack = refl;
    visited = λ name h. cc;
    done = λ name h. cc;
    few = omega (arith, count_start names, length-canonicals_of groups);
  }

  find_cycle-Found : Found graph names [] (length groups) (AllDone graph groups) (find_cycle groups)
  unfolding find_cycle
  find_cycle-Found =
      visit_groups-Found graph names (length groups)
        (λ a b h. (link-names groups a b (edge-is_link a b h)).1) groups
        (canonicals_of-All (λ name. contains names name ≡ true) groups (All-contained names)) start
        start-IsSilent

  abbrev pub Decided : List Diagnostic → Type 0
  Decided added =
      IsCircular groups path added
      ⊎ ((added ≡ []) × ((name : Bytes) → Leads (is_link groups) name name → ⊥))

  Found-Decided :
      Found graph names [] (length groups) (AllDone graph groups) (find_cycle groups)
      → Decided (detect_cycles groups path)
  Found-Decided (reported message e c) = inl (
      subst (IsCircular groups path) (sym (detect-reported message e))
        (IsTold-IsCircular message (IsCycle-IsTold graph message c)))
  Found-Decided (nothing_found i h) = inr (detect-silent i.silent, no_cycle h)

-- Whatever the groups are, `detectCycles` adds one error, which names a walk along aliases from a concept
-- back to itself, and stands at the last concept of it; or it adds nothing, and no such walk exists.
pub detect_cycles-Decided :
    (groups : List ParsedConceptGroup) (path : Bytes)
    → Decided groups path (detect_cycles groups path)
detect_cycles-Decided groups path = Found-Decided groups path (find_cycle-Found groups path)
