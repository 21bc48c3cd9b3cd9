-- ===== src/Concepts/Cycles/Walks.antt =====
-- Walks in a graph that is given by the test of its edges.
use howlinux.Base.{Bool, true, ◌≡◌, Bytes}
use mathlib.Core.WellFounded.{Acc}

-- A walk of one edge or more.
pub data Leads (edge : Bytes → Bytes → Bool) : Bytes → Bytes → Type 0 where
  direct : {from to : Bytes} → edge from to ≡ true → Leads edge from to
  onward : {from next to : Bytes} → edge from next ≡ true → Leads edge next to → Leads edge from to

-- A name that no endless walk starts from.
abbrev pub IsDone : (Bytes → Bytes → Bool) → Bytes → Type 0
IsDone edge = Acc (λ next name. edge name next ≡ true)

module _ {edge : Bytes → Bytes → Bool} where
  pub Leads-snoc : {a b c : Bytes} → Leads edge a b → edge b c ≡ true → Leads edge a c
  Leads-snoc (direct e) h = onward e (direct h)
  Leads-snoc (onward e w) h = onward e (Leads-snoc w h)

  -- No walk leads from such a name back to it.
  pub not-Leads_back : {name : Bytes} → IsDone edge name → Leads edge name name → ⊥
  not-Leads_back (Acc.intro name done) (direct e) = not-Leads_back (done name e) (direct e)
  not-Leads_back (Acc.intro name done) (onward {next} e w) =
      not-Leads_back (done next e) (Leads-snoc w e)

  pub Leads-map :
      {other : Bytes → Bytes → Bool}
      → ((a b : Bytes) → edge a b ≡ true → other a b ≡ true)
      → {a b : Bytes} → Leads edge a b
      → Leads other a b
  Leads-map f (direct {from} {to} e) = direct (f from to e)
  Leads-map f (onward {from} {next} e w) = onward (f from next e) (Leads-map f w)

  -- The first name of a walk has an edge.
  pub Leads-first : {a b : Bytes} → Leads edge a b → (next : Bytes) × (edge a next ≡ true)
  Leads-first (direct {to} e) = (to, e)
  Leads-first (onward {next} e w) = (next, e)
