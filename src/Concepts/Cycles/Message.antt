-- ===== src/Concepts/Cycles/Message.antt =====
-- What the error of `detectCycles` in src/concepts.cpp says: the names on a walk that closes.
use howlinux.Base.{
  true, false, List, [], ◌∷◌, ◌++◌, ◌≡◌, refl, arith, Bytes, codes, beq, beq_iff, contains, Bool,
  Bool-cases, inl, inr, subst, sym, ap, ◌∙◌, append_assoc,
}
use howlinux.Concepts.Cycles.{Graph, from_destination, arrows, cycle_message}
use howlinux.Concepts.Cycles.Walks.{Leads, direct, onward}
use howlinux.Concepts.Cycles.Edges.{has_edge}
use howlinux.Concepts.Cycles.Loop.{IsChain, IsCycle}

-- The names in their order, with arrows between them.
pub with_arrows : List Bytes → Bytes
with_arrows [] = []
with_arrows (name ∷ []) = name
with_arrows (name ∷ next ∷ names) = name ++ (codes " -> " ++ with_arrows (next ∷ names))

-- Each name has an edge to the next one.
abbrev pub IsWalk : (Bytes → Bytes → Bool) → List Bytes → Type 0
IsWalk edge [] = Unit
IsWalk edge (name ∷ []) = Unit
IsWalk edge (name ∷ next ∷ names) = (edge name next ≡ true) × IsWalk edge (next ∷ names)

with_arrows-snoc :
    (names : List Bytes) (last next : Bytes)
    → with_arrows (names ++ last ∷ next ∷ [])
      ≡ with_arrows (names ++ last ∷ []) ++ (codes " -> " ++ next)
unfolding with_arrows
with_arrows-snoc [] last next = refl
with_arrows-snoc (a ∷ []) last next = rw (with_arrows-snoc [] last next) (sym (append_assoc a _ _))
with_arrows-snoc (a ∷ b ∷ names) last next =
    ap (λ text. a ++ (codes " -> " ++ text)) (with_arrows-snoc (b ∷ names) last next)
    ∙ sym (append_assoc a _ _)

IsWalk-snoc :
    (edge : Bytes → Bytes → Bool) (names : List Bytes) (last next : Bytes)
    → IsWalk edge (names ++ last ∷ [])
    → edge last next ≡ true
    → IsWalk edge (names ++ last ∷ next ∷ [])
IsWalk-snoc edge [] last next h e = (e, tt)
IsWalk-snoc edge (a ∷ []) last next (h, k) e = (h, (e, tt))
IsWalk-snoc edge (a ∷ b ∷ names) last next (h, k) e =
    (h, IsWalk-snoc edge (b ∷ names) last next k e)

pub IsWalk-map :
    (edge other : Bytes → Bytes → Bool)
    → ((a b : Bytes) → edge a b ≡ true → other a b ≡ true)
    → (names : List Bytes) → IsWalk edge names
    → IsWalk other names
IsWalk-map edge other f [] h = tt
IsWalk-map edge other f (a ∷ []) h = tt
IsWalk-map edge other f (a ∷ b ∷ names) (e, h) = (f a b e, IsWalk-map edge other f (b ∷ names) h)

-- A walk from its first name to its last one.
pub walk-Leads :
    (edge : Bytes → Bytes → Bool) (first : Bytes) (names : List Bytes) (last : Bytes)
    → IsWalk edge (first ∷ (names ++ last ∷ []))
    → Leads edge first last
walk-Leads edge first [] last (h, k) = direct h
walk-Leads edge first (a ∷ names) last (h, k) = onward h (walk-Leads edge a names last k)

module _ (graph : Graph) where
  -- The names of the stack from one of them on, in the order of the walk, which ends at the topmost.
  record IsTrace (top name : Bytes) (stack : List Bytes) : Type 0 where
    before : List Bytes
    rest : List Bytes
    starts : before ++ top ∷ [] ≡ name ∷ rest
    walk : IsWalk (has_edge graph) (before ++ top ∷ [])
    text : arrows (from_destination name stack) ≡ with_arrows (before ++ top ∷ [])

  arrows-above :
      (top name below : Bytes) (stack : List Bytes)
      → arrows (top ∷ from_destination name (below ∷ stack))
        ≡ arrows (from_destination name (below ∷ stack)) ++ (codes " -> " ++ top)
  unfolding arrows from_destination
  arrows-above top name below stack = elim (Bool-cases (beq below name)) [
    | inl e ↦ rw e refl
    | inr e ↦ rw e refl
  ]

  -- One more name on the stack, which is not the one that is looked for.
  IsTrace-above :
      (top name below : Bytes) (stack : List Bytes)
      → has_edge graph below top ≡ true
      → beq top name ≡ false
      → IsTrace below name (below ∷ stack)
      → IsTrace top name (top ∷ below ∷ stack)
  IsTrace-above top name below stack edge e t =
      let same = append_assoc t.before (below ∷ []) (top ∷ []) in
      record {
        before = t.before ++ below ∷ [];
        rest = t.rest ++ top ∷ [];
        starts = ap (λ names. names ++ top ∷ []) t.starts;
        walk =
            subst (IsWalk (has_edge graph)) (sym same)
              (IsWalk-snoc (has_edge graph) t.before below top t.walk edge);
        text =
            skipped
            ∙ arrows-above top name below stack
            ∙ ap (λ text. text ++ (codes " -> " ++ top)) t.text
            ∙ sym (with_arrows-snoc t.before below top)
            ∙ ap with_arrows (sym same);
      }
    where
      skipped :
          arrows (from_destination name (top ∷ below ∷ stack))
          ≡ arrows (top ∷ from_destination name (below ∷ stack))
      skipped = unfold from_destination in rw e refl

  IsTrace-here :
      (top : Bytes) (stack : List Bytes) (name : Bytes)
      → beq top name ≡ true
      → IsTrace top name (top ∷ stack)
  unfolding from_destination arrows with_arrows
  IsTrace-here top stack name e = record {
    before = [];
    rest = [];
    starts = ap (λ t. t ∷ []) ((beq_iff top name).0 e);
    walk = tt;
    text = rw e refl;
  }

  trace :
      (top : Bytes) (stack : List Bytes) (name : Bytes)
      → IsChain graph (top ∷ stack)
      → contains (top ∷ stack) name ≡ true
      → IsTrace top name (top ∷ stack)
  unfolding contains
  trace top [] name h k = elim (Bool-cases (beq top name)) [
    | inl e ↦ IsTrace-here top [] name e
    | inr e ↦ absurd (ground (arith, k, e))
  ]
  trace top (below ∷ stack) name (edge, h) k = elim (Bool-cases (beq top name)) [
    | inl e ↦ IsTrace-here top (below ∷ stack) name e
    | inr e ↦
        IsTrace-above top name below stack edge e (trace below stack name h (ground (arith, k, e)))
  ]

  -- What a reported cycle says.
  pub record IsTold (message : Bytes × Bytes) : Type 0 where
    pub start : Bytes
    pub between : List Bytes
    pub closed_walk : IsWalk (has_edge graph) (start ∷ (between ++ start ∷ []))
    pub place : (earlier : List Bytes) × (earlier ++ message.0 ∷ [] ≡ start ∷ between)
    pub message_text :
        message.1
        ≡ codes "circular concept definition: " ++ with_arrows (start ∷ (between ++ start ∷ []))

  -- The walk to the topmost name, and the edge from it, lead back to the first name.
  pub IsCycle-IsTold : (message : Bytes × Bytes) → IsCycle graph message → IsTold message
  unfolding cycle_message
  IsCycle-IsTold message c =
      let t = trace c.top c.below c.name c.chain c.on_stack in
      let closed =
        sym (append_assoc t.before (c.top ∷ []) (c.name ∷ []))
        ∙ ap (λ names. names ++ c.name ∷ []) t.starts in
      record {
        start = c.name;
        between = t.rest;
        place = (t.before, ap (λ (m : Bytes × Bytes). t.before ++ m.0 ∷ []) c.says ∙ t.starts);
        closed_walk =
            subst (IsWalk (has_edge graph)) closed
              (IsWalk-snoc (has_edge graph) t.before c.top c.name t.walk c.closes);
        message_text =
            ap (λ (m : Bytes × Bytes). m.1) c.says
            ∙ ap (λ text. codes "circular concept definition: " ++ text)
                (ap (λ text. text ++ (codes " -> " ++ c.name)) t.text
                  ∙ sym (with_arrows-snoc t.before c.top c.name)
                  ∙ ap with_arrows closed);
      }
