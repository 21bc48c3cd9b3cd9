-- ===== src/Concepts/Cycles/Unseen.antt =====
-- How many concepts the search of `detectCycles` in src/concepts.cpp has not marked.
use howlinux.Base.{
  ℕ, suc, ◌≤◌, ◌<◌, Bool, true, false, List, [], ◌∷◌, ◌≡◌, arith, Bytes, beq_iff, contains, length,
  if◌then◌else◌,
}
use howlinux.Concepts.Cycles.{VisitState, unseen, visiting, complete, state_of}

abbrev pub is_unseen : VisitState → Bool
is_unseen unseen = true
is_unseen visiting = false
is_unseen complete = false

-- The number of these names that are unseen.
pub unseen_count : List Bytes → List (Bytes × VisitState) → ℕ
unseen_count [] states = 0
unseen_count (name ∷ names) states =
    let rest = unseen_count names states in
    if is_unseen (state_of states name) then suc rest else rest

module _ (states : List (Bytes × VisitState)) (canonical : Bytes) (mark : VisitState)
    (marks : is_unseen mark ≡ false) where
  pub count-mark :
      (names : List Bytes)
      → unseen_count names ((canonical, mark) ∷ states) ≤ unseen_count names states
  unfolding unseen_count state_of
  count-mark [] = omega arith
  count-mark (name ∷ names) = ground (arith, marks, count-mark names)

  -- The mark of an unseen name makes them fewer.
  pub count-mark_unseen :
      (names : List Bytes)
      → contains names canonical ≡ true
      → is_unseen (state_of states canonical) ≡ true
      → unseen_count names ((canonical, mark) ∷ states) < unseen_count names states
  unfolding unseen_count state_of contains
  count-mark_unseen [] h k = cc
  count-mark_unseen (name ∷ names) h k = ground (
    arith,
    marks,
    beq_iff canonical name,
    beq_iff name canonical,
    count-mark names,
    count-mark_unseen names,
  )

pub count_start : (names : List Bytes) → unseen_count names [] ≤ length names
unfolding unseen_count state_of
count_start [] = omega arith
count_start (name ∷ names) = omega (arith, count_start names)
