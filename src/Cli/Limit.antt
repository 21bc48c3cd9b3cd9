-- ===== src/Cli/Limit.antt =====
-- `parseLimit` of src/cli.cpp, and the part of `std::from_chars` for a `std::size_t` that it uses.
use howlinux.Base.{
  ℕ, ◌+◌, ◌-◌, ◌*◌, ◌^◌, ◌≤◌, true, false, not, ◌&&◌, ◌||◌, [], ◌∷◌, ◌≡◌, refl, Option, none, some,
  arith, leb, ltb, ◌==◌, if◌then◌else◌, Bytes, all, is_empty,
}
use howlinux.Query.Chars.{is_ascii_digit}
use howlinux.Cli.Options.{maximum_limit}

abbrev pub size_t_end : ℕ
size_t_end = 2 ^ 64

-- The digits at the start of a text: the number that they spell behind `n`, and what is left.
unfoldable pub digits : ℕ → Bytes → ℕ × Bytes
digits n [] = (n, [])
digits n (c ∷ s) =
    let behind = digits (n * 10 + (c - b'0')) s in if is_ascii_digit c then behind else (n, c ∷ s)

-- `std::from_chars`: an error without a digit at the start, and where the number does not fit.
unfoldable pub from_chars : Bytes → Option (ℕ × Bytes)
unfolding digits
from_chars [] = none
from_chars (c ∷ s) =
    if not (is_ascii_digit c)
    then none
    else if ltb (digits 0 (c ∷ s)).0 size_t_end
    then some (digits 0 (c ∷ s))
    else none

-- What `parseLimit` asks of the number and of the place where it ends.
unfoldable pub accept_limit : Option (ℕ × Bytes) → Option ℕ
accept_limit none = none
accept_limit (some (parsed, rest)) =
    if not (is_empty rest) || parsed == 0 || ltb maximum_limit parsed then none else some parsed

-- `parseLimit`: the number, where it returns `true`.
unfoldable pub parse_limit : Bytes → Option ℕ
unfolding accept_limit from_chars is_ascii_digit
parse_limit [] = none
parse_limit (c ∷ s) = if c == b'-' || c == b'+' then none else accept_limit (from_chars (c ∷ s))

-- The number that a text of digits spells behind `n`, of any size.
abbrev pub decimal : ℕ → Bytes → ℕ
decimal n [] = n
decimal n (c ∷ s) = decimal (n * 10 + (c - b'0')) s

digits-decimal :
    (n : ℕ) (s : Bytes)
    → (all is_ascii_digit s ≡ true → digits n s ≡ (decimal n s, []))
      × (all is_ascii_digit s ≡ false → is_empty (digits n s).1 ≡ false)
unfolding digits
digits-decimal n [] = (λ h. refl, λ h. cc)
digits-decimal n (c ∷ s) = (
  λ h. ground (arith, digits-decimal (n * 10 + (c - b'0')) s),
  λ h. ground (arith, digits-decimal (n * 10 + (c - b'0')) s),
)

-- A text is taken as a limit exactly if it is one or more digits and spells a number from 1 to 100,
-- however many digits it has; the result is that number.
pub parse_limit-decimal :
    (value : Bytes)
    → parse_limit value ≡ (
        if not (is_empty value)
          && all is_ascii_digit value
          && leb 1 (decimal 0 value)
          && leb (decimal 0 value) maximum_limit
        then some (decimal 0 value)
        else none)
unfolding parse_limit
parse_limit-decimal [] = refl
parse_limit-decimal (c ∷ s) = ground (arith, digits-decimal 0 (c ∷ s))

pub parse_limit-range :
    (value : Bytes) (n : ℕ) → parse_limit value ≡ some n → (1 ≤ n) × (n ≤ maximum_limit)
parse_limit-range value n h = ground (arith, parse_limit-decimal value)
