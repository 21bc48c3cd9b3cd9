-- ===== src/Base/Text.antt =====
-- `std::string` as the list of its bytes, and the containers of strings.
use Prim.Native.Nat.{ℕ}
use Prim.Native.Char.{code}
use Prim.Native.String.{String}
use mathlib.Core.Path.{◌≡◌, refl}
use mathlib.Core.Logic.{◌↔◌}
use mathlib.Core.Bool.{Bool, true, false, ◌&&◌, ◌||◌}
use mathlib.Core.List.{List, [], ◌∷◌}
use native.Mathlib.Omega.{arith}
use howlinux.Base.Tests.{◌==◌, ltb}

abbrev pub Bytes : Type 0
Bytes = List ℕ

-- The code points of a literal: its bytes, if it is ASCII.
abbrev pub codes : String → Bytes
codes String.[] = []
codes (String.◌∷◌ c s) = code c ∷ codes s

unfoldable pub beq : Bytes → Bytes → Bool
beq [] [] = true
beq [] (b ∷ bs) = false
beq (a ∷ as_) [] = false
beq (a ∷ as_) (b ∷ bs) = a == b && beq as_ bs

beq→eq : (a b : Bytes) → beq a b ≡ true → a ≡ b
unfolding beq
beq→eq [] [] h = refl
beq→eq [] (b ∷ bs) h = cc
beq→eq (a ∷ as_) [] h = cc
beq→eq (a ∷ as_) (b ∷ bs) h = ground (arith, beq→eq as_ bs)

pub beq_refl : (a : Bytes) → beq a a ≡ true
unfolding beq
beq_refl [] = refl
beq_refl (a ∷ as_) = ground (arith, beq_refl as_)

pub beq_iff : (a b : Bytes) → (beq a b ≡ true) ↔ (a ≡ b)
beq_iff a b = (beq→eq a b, λ e. cc (beq_refl a, e))

-- `<` of `std::string`: by unsigned bytes, a proper prefix first.
unfoldable pub blt : Bytes → Bytes → Bool
blt [] [] = false
blt [] (b ∷ bs) = true
blt (a ∷ as_) [] = false
blt (a ∷ as_) (b ∷ bs) = ltb a b || a == b && blt as_ bs

-- `contains`, or `find(…) != end()`, of a container of strings.
unfoldable pub contains : List Bytes → Bytes → Bool
contains [] t = false
contains (x ∷ xs) t = beq x t || contains xs t

pub blt_asym : (a b : Bytes) → blt a b ≡ true → blt b a ≡ false
unfolding blt
blt_asym [] [] h = refl
blt_asym [] (b ∷ bs) h = refl
blt_asym (a ∷ as_) [] h = cc
blt_asym (a ∷ as_) (b ∷ bs) h = ground (arith, blt_asym as_ bs)

-- Neither text is below the other only if they are equal.
pub blt_total : (a b : Bytes) → blt a b ≡ false → blt b a ≡ false → a ≡ b
unfolding blt
blt_total [] [] h k = refl
blt_total [] (b ∷ bs) h k = cc
blt_total (a ∷ as_) [] h k = cc
blt_total (a ∷ as_) (b ∷ bs) h k = ground (arith, blt_total as_ bs)

pub blt_neg_trans : (a b c : Bytes) → blt b a ≡ false → blt c b ≡ false → blt c a ≡ false
unfolding blt
blt_neg_trans [] [] c h k = k
blt_neg_trans [] (b ∷ bs) [] h k = cc
blt_neg_trans [] (b ∷ bs) (c ∷ cs) h k = refl
blt_neg_trans (a ∷ as_) [] c h k = cc
blt_neg_trans (a ∷ as_) (b ∷ bs) [] h k = cc
blt_neg_trans (a ∷ as_) (b ∷ bs) (c ∷ cs) h k = ground (arith, blt_neg_trans as_ bs cs)
