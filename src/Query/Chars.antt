-- ===== src/Query/Chars.antt =====
-- The byte classes of src/query.cpp. A byte is a number; nothing here depends on an upper bound.
use howlinux.Base.{ℕ, ◌+◌, ◌-◌, ◌≡◌, Bool, true, false, ◌&&◌, ◌||◌, arith, leb, ◌==◌, if◌then◌else◌}

unfoldable pub is_ascii_digit : ℕ → Bool
is_ascii_digit value = leb b'0' value && leb value b'9'

unfoldable pub is_ascii_letter : ℕ → Bool
is_ascii_letter value = leb b'a' value && leb value b'z' || leb b'A' value && leb value b'Z'

-- The bytes of a UTF-8 sequence are word bytes.
unfoldable pub is_word_byte : ℕ → Bool
unfolding is_ascii_letter is_ascii_digit
is_word_byte value = is_ascii_letter value || is_ascii_digit value || leb 0x80 value

unfoldable pub ascii_lower : ℕ → ℕ
ascii_lower value = if leb b'A' value && leb value b'Z' then value + (b'a' - b'A') else value

unfoldable pub is_chunk_byte : ℕ → Bool
unfolding is_word_byte
is_chunk_byte value = is_word_byte value || value == b'.' || value == b'-' || value == b'_'

unfoldable pub is_direction : ℕ → Bool
is_direction value = value == b'>' || value == b'<'

-- A byte that a token keeps as it is.
abbrev pub IsLower : ℕ → Type 0
IsLower c = ascii_lower c ≡ c

pub ascii_lower_idem : (c : ℕ) → ascii_lower (ascii_lower c) ≡ ascii_lower c
unfolding ascii_lower
ascii_lower_idem c = ground arith

pub chunk_byte-lower : (c : ℕ) → is_chunk_byte (ascii_lower c) ≡ is_chunk_byte c
unfolding is_chunk_byte ascii_lower
chunk_byte-lower c = ground arith

pub direction-lower : (c : ℕ) → is_direction (ascii_lower c) ≡ is_direction c
unfolding is_direction ascii_lower
direction-lower c = ground arith

pub lower-direction : (c : ℕ) → is_direction c ≡ true → ascii_lower c ≡ c
unfolding is_direction ascii_lower
lower-direction c h = ground arith

pub lower-digit : (c : ℕ) → is_ascii_digit c ≡ true → ascii_lower c ≡ c
unfolding is_ascii_digit ascii_lower
lower-digit c h = ground arith

pub chunk-digit : (c : ℕ) → is_ascii_digit c ≡ true → is_chunk_byte c ≡ true
unfolding is_ascii_digit is_chunk_byte
chunk-digit c h = ground arith

pub chunk-word : (c : ℕ) → is_word_byte c ≡ true → is_chunk_byte c ≡ true
unfolding is_word_byte is_chunk_byte
chunk-word c h = ground arith

pub direction-not_chunk : (c : ℕ) → is_direction c ≡ true → is_chunk_byte c ≡ false
unfolding is_direction is_chunk_byte
direction-not_chunk c h = ground arith

pub ruleset char_rules = (
  ascii_lower_idem, chunk_byte-lower, direction-lower, lower-direction, lower-digit, chunk-digit,
  chunk-word, direction-not_chunk,
)
