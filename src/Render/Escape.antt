-- ===== src/Render/Escape.antt =====
-- `escapeJson` and `humanSafe` of src/render.cpp.
use howlinux.Base.{
  ℕ, zero, suc, ◌+◌, ◌-◌, ◌/◌, ◌%◌, Bool, ◌||◌, [], ◌∷◌, ◌++◌, ◌≡◌, refl, Option, none, some,
  if◌then◌else◌, Bytes, codes, leb, ltb, ◌==◌, take,
}
use howlinux.Render.Utf8.{is_between, Decoded, decode_utf8}

-- `kHexDigits`
unfoldable pub hex_digit : ℕ → ℕ
hex_digit n = if ltb n 10 then b'0' + n else b'A' + (n - 10)

-- A backslash and this character.
abbrev pub backslash : ℕ → Bytes
backslash c = b'\\' ∷ c ∷ []

-- `\b`, `\f`, `\n`, `\r` and `\t`
abbrev pub short_escape : ℕ → Option ℕ
short_escape byte =
    if byte == 0x08
    then some b'b'
    else if byte == 0x0C
    then some b'f'
    else if byte == 0x0A
    then some b'n'
    else if byte == 0x0D
    then some b'r'
    else if byte == 0x09
    then some b't'
    else none

-- `byte < 0x20U || byte == 0x7FU`
abbrev pub is_control : ℕ → Bool
is_control byte = ltb byte 0x20 || byte == 0x7F

abbrev pub human_byte : ℕ → Option ℕ → Bytes
human_byte byte (some c) = backslash c
human_byte byte none =
    if is_control byte
    then b'\\' ∷ b'x' ∷ hex_digit ((byte / 16) % 16) ∷ hex_digit (byte % 16) ∷ []
    else byte ∷ []

-- `humanSafe`
unfoldable pub human_safe : Bytes → Bytes
unfolding hex_digit
human_safe [] = []
human_safe (byte ∷ value) = human_byte byte (short_escape byte) ++ human_safe value

-- `appendUnicodeEscape`
unfoldable pub unicode_escape : ℕ → Bytes
unfolding hex_digit
unicode_escape code_point =
    b'\\'
    ∷ b'u'
    ∷ hex_digit ((code_point / 4096) % 16)
    ∷ hex_digit ((code_point / 256) % 16)
    ∷ hex_digit ((code_point / 16) % 16)
    ∷ hex_digit (code_point % 16)
    ∷ []

abbrev pub ascii_byte : ℕ → Option ℕ → Bytes
ascii_byte byte (some c) = backslash c
ascii_byte byte none = if is_control byte then unicode_escape byte else byte ∷ []

-- A byte up to 0x7F.
unfoldable pub escape_ascii : ℕ → Bytes
unfolding unicode_escape
escape_ascii byte =
    if byte == b'"'
    then backslash b'"'
    else if byte == b'\\'
    then backslash b'\\'
    else ascii_byte byte (short_escape byte)

-- The code points that are written as `\u`: the controls from 0x80 to 0x9F, and the line and paragraph separators.
abbrev pub is_escaped : ℕ → Bool
is_escaped code_point =
    is_between 0x80 0x9F code_point || code_point == 0x2028 || code_point == 0x2029

-- The bytes from the offset on, by what `decodeUtf8` says of them; `next n` is what is written for what
-- follows the first byte, without its first `n` bytes.
unfoldable pub escape_decoded : Decoded → Bytes → (ℕ → Bytes) → Bytes
unfolding unicode_escape
escape_decoded none value next = b'\\' ∷ codes "uFFFD" ++ next 0
escape_decoded (some (length, code_point)) value next =
    (if is_escaped code_point then unicode_escape code_point else take length value)
    ++ next (length - 1)

-- The loop, whose offset is still to advance by so many bytes.
unfoldable pub escape_from : ℕ → Bytes → Bytes
unfolding escape_decoded escape_ascii
escape_from skipped [] = []
escape_from (suc skipped) (byte ∷ value) = escape_from skipped value
escape_from zero (byte ∷ value) =
    if leb byte 0x7F
    then escape_ascii byte ++ escape_from 0 value
    else escape_decoded (decode_utf8 (byte ∷ value)) (byte ∷ value) (λ n. escape_from n value)

-- `escapeJson`
unfoldable pub escape_json : Bytes → Bytes
unfolding escape_from decode_utf8
escape_json value = escape_from 0 value

examples :
    (escape_json (codes "a/" ++ b'"' ∷ 10 ∷ 127 ∷ 0xC2 ∷ 0x85 ∷ 0xFF ∷ 0xC3 ∷ 0xA9 ∷ [])
      ≡ codes "a/"
        ++ b'\\' ∷ b'"' ∷ b'\\' ∷ b'n' ∷ b'\\' ∷ codes "u007F"
        ++ b'\\' ∷ codes "u0085"
        ++ b'\\' ∷ codes "uFFFD"
        ++ 0xC3 ∷ 0xA9 ∷ [])
    × (human_safe (codes "a" ++ 27 ∷ 9 ∷ [])
        ≡ codes "a" ++ b'\\' ∷ codes "x1B" ++ b'\\' ∷ b't' ∷ [])
unfolding escape_json human_safe
examples = (refl, refl)
