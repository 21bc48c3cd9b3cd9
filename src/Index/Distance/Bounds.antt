-- ===== src/Index/Distance/Bounds.antt =====
-- Bounds of the distance that `damerauLevenshteinDistance` in src/index.cpp relies on when it stops
-- before the table is full.
use Prim.Native.Nat.{min}
use howlinux.Base.{
  ℕ, ◌+◌, ◌≤◌, ◌<◌, true, ◌&&◌, List, [], ◌∷◌, ◌≡◌, refl, arith, Bytes, length, All,
}
use howlinux.Index.Distance.{is_byte, minimum}
use howlinux.Index.Distance.Table.{osa, head?, tail, osa_step, row_behind}

pub osa-nil : (l : Bytes) → osa l [] ≡ length l
unfolding osa
osa-nil [] = refl
osa-nil (a ∷ []) = refl
osa-nil (a ∷ a' ∷ l) = refl

pub osa_corner : (a : ℕ) (l : Bytes) (b : ℕ) (r : Bytes) → osa (a ∷ l) (b ∷ r) ≤ osa l r + 1
osa_corner a l b r = ground (arith, osa_step a l b r)

-- A text is at most as long as the other and the distance together.
pub length-le-osa :
    (l r : Bytes) → (length l ≤ osa l r + length r) × (length r ≤ osa l r + length l)
unfolding osa
length-le-osa [] r = omega arith
length-le-osa (a ∷ l) [] = omega arith
length-le-osa (a ∷ []) (b ∷ r) =
    ground (arith, length-le-osa [] (b ∷ r), length-le-osa (a ∷ []) r, length-le-osa [] r)
length-le-osa (a ∷ a' ∷ l) (b ∷ []) = ground (
  arith,
  length-le-osa (a' ∷ l) (b ∷ []),
  length-le-osa (a ∷ a' ∷ l) [],
  length-le-osa (a' ∷ l) [],
)
length-le-osa (a ∷ a' ∷ l) (b ∷ b' ∷ r) = ground (
  arith,
  length-le-osa (a' ∷ l) (b ∷ b' ∷ r),
  length-le-osa (a ∷ a' ∷ l) (b' ∷ r),
  length-le-osa (a' ∷ l) (b' ∷ r),
  length-le-osa l r,
)

pub osa_refl : (s : Bytes) → osa s s ≡ 0
unfolding osa
osa_refl [] = refl
osa_refl (a ∷ []) = ground arith
osa_refl (a ∷ a' ∷ s) = ground (arith, osa_refl (a' ∷ s))

-- The distances of `l` from `r` and from each part at its end are above `m`.
abbrev pub OverRow : ℕ → Bytes → Bytes → Type 0
OverRow m l [] = m < osa l []
OverRow m l (b ∷ r) = (m < osa l (b ∷ r)) × OverRow m l r

pub OverRow-whole : (m : ℕ) (l r : Bytes) → OverRow m l r → m < osa l r
OverRow-whole m l [] h = h
OverRow-whole m l (b ∷ r) h = h.0

over_swap :
    (m : ℕ) (l r : Bytes) (a b : ℕ)
    → m < osa l r
    → (is_byte (head? r) a && is_byte (head? l) b) ≡ true
    → m < osa (tail l) (tail r) + 1
over_swap m [] [] a b h k = cc
over_swap m [] (b' ∷ r) a b h k = absurd (ground arith)
over_swap m (a' ∷ l) [] a b h k = cc
over_swap m (a' ∷ l) (b' ∷ r) a b h k = omega (arith, osa_corner a' l b' r)

-- A row above `m` is followed by rows above `m`: the early return misses nothing.
pub OverRow-cons : (m a : ℕ) (l r : Bytes) → OverRow m l r → OverRow m (a ∷ l) r
OverRow-cons m a l [] h = omega (arith, osa-nil l, osa-nil (a ∷ l))
OverRow-cons m a l (b ∷ r) (h, k) =
    let below = OverRow-cons m a l r k in
    (
      ground (
        arith,
        osa_step a l b r,
        OverRow-whole m l r k,
        OverRow-whole m (a ∷ l) r below,
        over_swap m l r a b,
      ),
      below,
    )

-- The bytes of a text, put one by one in front of another.
abbrev pub reverse_onto : Bytes → Bytes → Bytes
reverse_onto [] l = l
reverse_onto (a ∷ s) l = reverse_onto s (a ∷ l)

pub OverRow-reverse_onto : (m : ℕ) (s l r : Bytes) → OverRow m l r → OverRow m (reverse_onto s l) r
OverRow-reverse_onto m [] l r h = h
OverRow-reverse_onto m (a ∷ s) l r h = OverRow-reverse_onto m s (a ∷ l) r (OverRow-cons m a l r h)

pub OverRow-row_behind :
    (m : ℕ) (l r s : Bytes)
    → OverRow m l r
    → All (λ v. m < v) (row_behind l r s)
    → OverRow m l (reverse_onto s r)
unfolding row_behind
OverRow-row_behind m l r [] h k = h
OverRow-row_behind m l r (b ∷ s) h (kb, k) = OverRow-row_behind m l (b ∷ r) s (kb, h) k

pub lt-minimum :
    (m least : ℕ) (row : List ℕ) → m < minimum least row → (m < least) × All (λ v. m < v) row
unfolding minimum
lt-minimum m least [] h = (h, tt)
lt-minimum m least (v ∷ row) h =
    let (k, rest) = lt-minimum m (min least v) row h in (omega arith, (omega arith, rest))
