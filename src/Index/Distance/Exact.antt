-- ===== src/Index/Distance/Exact.antt =====
-- `damerauLevenshteinDistance` of src/index.cpp computes the distance, up to its limit.
use howlinux.Base.{
  ℕ, ◌+◌, ◌≤◌, ◌<◌, [], ◌∷◌, ◌≡◌, refl, sym, ◌∙◌, ap, arith, none, ltb, Bytes, length, beq, beq_iff,
  Bool-cases, inl, inr,
}
use howlinux.Index.Distance.{cells, minimum, last_cell, rows, columns, length_difference, distance}
use howlinux.Index.Distance.Table.{osa, head?, tail, row_behind, row_of, cells_row}
use howlinux.Index.Distance.Scripts.{IsLeast, osa-IsLeast}
use howlinux.Index.Distance.Bounds.{
  osa-nil, length-le-osa, osa_refl, OverRow-whole, reverse_onto, OverRow-reverse_onto,
  OverRow-row_behind, lt-minimum,
}

-- `result` is the distance `d` as far as the limit `m` asks: exact up to it, and above it beyond.
abbrev pub UpTo : ℕ → ℕ → ℕ → Type 0
UpTo m d result = (d ≤ m → result ≡ d) × (m < d → m < result)

last_cell-row : (l r s : Bytes) → last_cell (osa l r) (row_behind l r s) ≡ osa l (reverse_onto s r)
unfolding last_cell row_behind
last_cell-row l r [] = refl
last_cell-row l r (b ∷ s) = last_cell-row l (b ∷ r) s

columns-row : (r s : Bytes) → columns (length r) s ≡ row_of [] r s
unfolding columns row_behind osa
columns-row r [] = refl
columns-row r (b ∷ s) =
    ap (λ t. length r ∷ t) (ap (λ n. columns n s) (omega arith) ∙ columns-row (b ∷ r) s)

-- The next row of the table.
current_row :
    (a : ℕ) (l right : Bytes) (row : ℕ)
    → row ≡ length l + 1
    → row ∷ cells a (head? l) row none right (row_of l [] right) (row_of (tail l) [] right)
      ≡ row_of (a ∷ l) [] right
current_row a l right row e =
    let start : row ≡ osa (a ∷ l) [] = omega (arith, osa-nil (a ∷ l)) in
    rw start (ap (λ t. osa (a ∷ l) [] ∷ t) (cells_row a l [] right))

row_above :
    (m a : ℕ) (l right left : Bytes) (row : ℕ)
    → m < minimum row (row_of (a ∷ l) [] right)
    → m < osa (reverse_onto left (a ∷ l)) (reverse_onto right [])
row_above m a l right left row h =
    let (_, (first, others)) = lt-minimum m row (row_of (a ∷ l) [] right) h in
    OverRow-whole m _ _ (
      OverRow-reverse_onto m left (a ∷ l) (reverse_onto right [])
        (OverRow-row_behind m (a ∷ l) [] right first others))

rows-UpTo :
    (m : ℕ) (right l left : Bytes) (row : ℕ)
    → row ≡ length l + 1
    → UpTo m
        (osa (reverse_onto left l) (reverse_onto right []))
        (rows m right row (head? l) left (row_of l [] right) (row_of (tail l) [] right))
unfolding rows last_cell
rows-UpTo m right l [] row e = rw last_cell-row ((λ _. refl), λ h. h)
rows-UpTo m right l (a ∷ left) row e =
    rw (current_row a l right row e)
      (elim (Bool-cases (ltb m (minimum row (row_of (a ∷ l) [] right)))) [
        | inl h ↦ rw h (
          (λ k. absurd (omega (arith, row_above m a l right left row (ground arith)))),
          λ _. omega arith,
        )
        | inr h ↦ rw h (rows-UpTo m right (a ∷ l) left (row + 1) (omega arith))
      ])

-- The distance of two texts, for which the bytes are read from the last one on.
abbrev pub text_distance : Bytes → Bytes → ℕ
text_distance left right = osa (reverse_onto left []) (reverse_onto right [])

length-reverse_onto : (s l : Bytes) → length (reverse_onto s l) ≡ length s + length l
length-reverse_onto [] l = omega arith
length-reverse_onto (a ∷ s) l = omega (arith, length-reverse_onto s (a ∷ l))

difference-le : (left right : Bytes) → length_difference left right ≤ text_distance left right
unfolding length_difference
difference-le left right = ground (
  arith,
  length-reverse_onto left [],
  length-reverse_onto right [],
  length-le-osa (reverse_onto left []) (reverse_onto right []),
)

pub distance-UpTo :
    (left right : Bytes) (maximum_distance : ℕ)
    → UpTo maximum_distance (text_distance left right) (distance left right maximum_distance)
unfolding distance
distance-UpTo left right m = elim (Bool-cases (beq left right)) [
  | inl e ↦
      let same = (beq_iff left right).0 e in
      rw e (
        (λ _. sym (rw same (osa_refl _))),
        λ h. absurd (ground (arith, same, osa_refl (reverse_onto right []))),
      )
  | inr e ↦ elim (Bool-cases (ltb m (length_difference left right))) [
    | inl k ↦ rw (e, k) ((λ h. absurd (ground (arith, difference-le left right))), λ _. omega arith)
    | inr k ↦ rw (e, k, columns-row [] right) (rows-UpTo m right [] left 1 refl)
  ]
]

-- `text_distance` is the least number of edits that lead from one text to the other, each an insertion, a
-- deletion or a substitution of a byte or a swap of two neighbours, where nothing is edited twice (so that
-- "ca" is 3 edits from "abc", not 2); and `damerauLevenshteinDistance` returns it where it is at most
-- `maximum_distance`, and a number above `maximum_distance` where it is above it.
pub distance-IsLeast :
    (left right : Bytes) (maximum_distance : ℕ)
    → IsLeast left right (text_distance left right)
      × UpTo maximum_distance (text_distance left right) (distance left right maximum_distance)
distance-IsLeast left right m = (osa-IsLeast left right, distance-UpTo left right m)
