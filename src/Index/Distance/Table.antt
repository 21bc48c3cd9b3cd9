-- ===== src/Index/Distance/Table.antt =====
-- The rows that `damerauLevenshteinDistance` of src/index.cpp computes hold the distances of the
-- prefixes of its texts.
use Prim.Native.Nat.{min}
use howlinux.Base.{
  ℕ, suc, ◌+◌, ◌&&◌, List, [], ◌∷◌, ◌≡◌, refl, arith, Option, none, some, ◌==◌, if◌then◌else◌,
  Bytes, length,
}
use howlinux.Index.Distance.{is_byte, edit, cells}

-- The distance of two texts, each from its last byte on, by the recursion that the table follows.
unfoldable pub osa : Bytes → Bytes → ℕ
osa [] r = length r
osa (a ∷ l) [] = suc (length l)
osa (a ∷ []) (b ∷ r) = edit a b (osa [] (b ∷ r)) (osa (a ∷ []) r) (osa [] r)
osa (a ∷ a' ∷ l) (b ∷ []) = edit a b (osa (a' ∷ l) (b ∷ [])) (osa (a ∷ a' ∷ l) []) (osa (a' ∷ l) [])
osa (a ∷ a' ∷ l) (b ∷ b' ∷ r) =
    let plain =
      edit a b (osa (a' ∷ l) (b ∷ b' ∷ r)) (osa (a ∷ a' ∷ l) (b' ∷ r)) (osa (a' ∷ l) (b' ∷ r)) in
    if b' == a && a' == b then min plain (osa l r + 1) else plain

abbrev pub head? : Bytes → Option ℕ
head? [] = none
head? (c ∷ s) = some c

abbrev pub tail : Bytes → Bytes
tail [] = []
tail (c ∷ s) = s

-- The recursion of the distance at two last bytes.
pub osa_step :
    (a : ℕ) (l : Bytes) (b : ℕ) (r : Bytes)
    → osa (a ∷ l) (b ∷ r) ≡ (
        let plain = edit a b (osa l (b ∷ r)) (osa (a ∷ l) r) (osa l r) in
        if is_byte (head? r) a && is_byte (head? l) b
        then min plain (osa (tail l) (tail r) + 1)
        else plain)
unfolding osa
osa_step a [] b [] = refl
osa_step a [] b (b' ∷ r) = ground arith
osa_step a (a' ∷ l) b [] = refl
osa_step a (a' ∷ l) b (b' ∷ r) = refl

-- The row of the table for `l`: its distances from `r` and from what extends `r` by bytes of `s`.
unfoldable pub row_behind : Bytes → Bytes → Bytes → List ℕ
row_behind l r [] = []
row_behind l r (b ∷ s) = osa l (b ∷ r) ∷ row_behind l (b ∷ r) s

abbrev pub row_of : Bytes → Bytes → Bytes → List ℕ
row_of l r s = osa l r ∷ row_behind l r s

-- The part of the row before that holds the corners of swaps.
abbrev swaps : Bytes → Bytes → Bytes → List ℕ
swaps l [] s = row_of (tail l) [] s
swaps l (b ∷ r) s = row_of (tail l) r (b ∷ s)

pub cells_row :
    (a : ℕ) (l r s : Bytes)
    → cells a (head? l) (osa (a ∷ l) r) (head? r) s (row_of l r s) (swaps l r s)
      ≡ row_behind (a ∷ l) r s
unfolding cells row_behind
cells_row a l r [] = refl
cells_row a l [] (b ∷ s) = cc (osa_step a l b [], cells_row a l (b ∷ []) s)
cells_row a l (b' ∷ r) (b ∷ s) = cc (osa_step a l b (b' ∷ r), cells_row a l (b ∷ b' ∷ r) s)
