-- ===== src/Query/Lexer/Word.antt =====
-- One chunk of src/query.cpp: options, dotted words, and the words that dashes and underscores part.
use howlinux.Base.{
  Bool, false, not, ◌&&◌, ◌||◌, List, [], ◌∷◌, ◌++◌, ◌≡◌, refl, ◌==◌, if◌then◌else◌, Bytes, codes,
  any, all, is_empty,
}
use howlinux.Query.Chars.{is_ascii_digit, is_word_byte}

-- `isAllDigits`
unfoldable pub is_all_digits : Bytes → Bool
unfolding is_ascii_digit
is_all_digits value = not (is_empty value) && all is_ascii_digit value

-- What `isFlagChunk` asks of the bytes behind two dashes.
unfoldable pub is_long_flag : Bytes → Bool
is_long_flag [] = false
is_long_flag (c ∷ s) = not (c == b'-') && any is_word_byte (c ∷ s)

-- `isFlagChunk`
unfoldable pub is_flag_chunk : Bytes → Bool
unfolding is_long_flag is_word_byte
is_flag_chunk [] = false
is_flag_chunk (a ∷ []) = false
is_flag_chunk (a ∷ b ∷ s) =
    a == b'-' && (if b == b'-' then is_long_flag s else any is_word_byte (b ∷ s))

-- `flush` of `appendDotAware`
unfoldable pub flush : Bytes → List Bytes
flush [] = []
flush (c ∷ t) = (c ∷ t) ∷ []

unfoldable pub starts_word : Bytes → Bool
unfolding is_word_byte
starts_word [] = false
starts_word (c ∷ s) = is_word_byte c

-- The loop of `appendDotAware`; the second argument is `token`.
unfoldable pub dot_aware : Bytes → Bytes → List Bytes
unfolding flush starts_word
dot_aware [] token = flush token
dot_aware (c ∷ s) token =
    let kept = dot_aware s (token ++ c ∷ []) in
    let cut = flush token ++ dot_aware s [] in
    if is_word_byte c
    then kept
    else if c == b'.' && not (is_empty token) && starts_word s
    then kept
    else cut

-- `while (!flag.empty() && flag.back() == '.') flag.pop_back();`
unfoldable pub strip_dots : Bytes → Bytes
strip_dots [] = []
strip_dots (c ∷ s) = let rest = strip_dots s in if is_empty rest && c == b'.' then [] else c ∷ rest

-- The loop of `appendChunk` over an ordinary chunk; the second argument is the segment since
-- `begin`.
unfoldable pub segments : Bytes → Bytes → List Bytes
unfolding dot_aware
segments [] segment = dot_aware segment []
segments (c ∷ s) segment =
    let cut = dot_aware segment [] ++ segments s [] in
    let grown = segments s (segment ++ c ∷ []) in if c == b'-' || c == b'_' then cut else grown

-- `appendChunk`, as the tokens that it appends.
unfoldable pub chunk_tokens : Bytes → List Bytes
unfolding is_flag_chunk strip_dots flush segments
chunk_tokens chunk =
    if is_empty chunk
    then []
    else if is_flag_chunk chunk
    then flush (strip_dots chunk)
    else segments chunk []

flags :
    (chunk_tokens (codes "--no-color.") ≡ codes "--no-color" ∷ [])
    × (chunk_tokens (codes "foo-bar.txt") ≡ codes "foo" ∷ codes "bar.txt" ∷ [])
    × (chunk_tokens (codes "---x") ≡ codes "x" ∷ [])
    × (chunk_tokens (codes ".bashrc..") ≡ codes "bashrc" ∷ [])
unfolding chunk_tokens
flags = (refl, refl, refl, refl)
