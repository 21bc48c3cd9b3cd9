-- ===== src/Base/Numbers.antt =====
-- `std::to_string` of a number.
use Prim.Native.Nat.{ℕ, zero, suc, ◌+◌, ◌/◌, ◌%◌}
use mathlib.Core.List.{[], ◌∷◌}
use howlinux.Base.Tests.{ltb, if◌then◌else◌}
use howlinux.Base.Text.{Bytes}

-- The digits of a number in front of `behind`; each round takes one, so the number is enough fuel.
unfoldable pub digits_onto : ℕ → ℕ → Bytes → Bytes
digits_onto zero n behind = behind
digits_onto (suc fuel) n behind =
    let rest = digits_onto fuel (n / 10) ((b'0' + n % 10) ∷ behind) in
    if ltb n 10 then (b'0' + n) ∷ behind else rest

unfoldable pub to_string : ℕ → Bytes
unfolding digits_onto
to_string n = digits_onto (suc n) n []
