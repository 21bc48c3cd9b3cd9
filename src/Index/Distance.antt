-- ===== src/Index/Distance.antt =====
-- `damerauLevenshteinDistance` of src/index.cpp. A row of the table is a list; the loops read the
-- rows from their start on, so what stands at `column - 1` or `column - 2` is a list's head.
pub mod Table
pub mod Bounds
pub mod Scripts
pub mod Exact
use Prim.Native.Nat.{min}
use howlinux.Base.{
  ℕ, zero, suc, ◌+◌, ◌-◌, Bool, true, false, ◌&&◌, List, [], ◌∷◌, ◌≡◌, refl, Option, none, some,
  ltb, leb, ◌==◌, if◌then◌else◌, Bytes, codes, beq, length,
}

-- `left[row - 1] == right[column - 1] ? 0 : 1`
abbrev pub substitution_cost : ℕ → ℕ → ℕ
substitution_cost a b = if a == b then 0 else 1

abbrev pub is_byte : Option ℕ → ℕ → Bool
is_byte none c = false
is_byte (some b) c = b == c

-- The value of a cell from those beside it: `previous[column] + 1`, `current[column - 1] + 1` and
-- `previous[column - 1] + substitution_cost`.
abbrev pub edit : ℕ → ℕ → ℕ → ℕ → ℕ → ℕ
edit a b above beside corner = min (min (above + 1) (beside + 1)) (corner + substitution_cost a b)

-- The first column looks at no swap: its successor starts at the same cell.
abbrev pub next_swaps : Option ℕ → List ℕ → List ℕ
next_swaps none row = row
next_swaps (some b) [] = []
next_swaps (some b) (swapped ∷ row) = row

-- The loop over the columns. `a` and `a'` are `left[row - 1]` and `left[row - 2]`, `b'` is
-- `right[column - 2]` (each where there is one), `beside` is `current[column - 1]`; the rows start
-- at `previous[column - 1]`, and at `previous_previous[column - 2]`.
unfoldable pub cells : ℕ → Option ℕ → ℕ → Option ℕ → Bytes → List ℕ → List ℕ → List ℕ
cells a a' beside b' (b ∷ right) (corner ∷ above ∷ previous) (swapped ∷ previous_previous) =
    let plain = edit a b above beside corner in
    let value = if is_byte b' a && is_byte a' b then min plain (swapped + 1) else plain in
    value
    ∷ cells a a' value (some b) right (above ∷ previous)
        (next_swaps b' (swapped ∷ previous_previous))
cells a a' beside b' _ _ _ = []

-- `row_minimum`
unfoldable pub minimum : ℕ → List ℕ → ℕ
minimum least [] = least
minimum least (value ∷ row) = minimum (min least value) row

-- `previous[right.size()]`, the end of the row
unfoldable pub last_cell : ℕ → List ℕ → ℕ
last_cell value [] = value
last_cell value (next ∷ row) = last_cell next row

-- The loop over the rows; `row` is the number of the next one, and `a'` is `left[row - 2]`.
unfoldable pub rows : ℕ → Bytes → ℕ → Option ℕ → Bytes → List ℕ → List ℕ → ℕ
unfolding cells minimum last_cell
rows maximum_distance right row a' [] previous previous_previous = last_cell 0 previous
rows maximum_distance right row a' (a ∷ left) previous previous_previous =
    let current = row ∷ cells a a' row none right previous previous_previous in
    let rest = rows maximum_distance right (row + 1) (some a) left current previous in
    if ltb maximum_distance (minimum row current) then maximum_distance + 1 else rest

-- The columns from this one on, for `right`.
unfoldable pub columns : ℕ → Bytes → List ℕ
columns column [] = column ∷ []
columns column (b ∷ right) = column ∷ columns (column + 1) right

unfoldable pub length_difference : Bytes → Bytes → ℕ
length_difference left right =
    if ltb (length right) (length left)
    then length left - length right
    else length right - length left

unfoldable pub distance : Bytes → Bytes → ℕ → ℕ
unfolding rows columns length_difference
distance left right maximum_distance =
    if beq left right
    then 0
    else if ltb maximum_distance (length_difference left right)
    then maximum_distance + 1
    else rows maximum_distance right 1 none left (columns 0 right) (columns 0 right)

examples :
    (distance (codes "permision") (codes "permission") 2 ≡ 1)
    × (distance (codes "hcmod") (codes "chmod") 2 ≡ 1)
    × (distance (codes "kitten") (codes "sitting") 3 ≡ 3)
    × (distance (codes "abcdef") (codes "uvwxyz") 2 ≡ 3)
unfolding distance beq
examples = (refl, refl, refl, refl)
