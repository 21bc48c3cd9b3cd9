-- ===== src/Search/Phrase.antt =====
-- `containsNormalizedPhrase` of src/search.cpp.
pub mod Laws
use howlinux.Base.{
  Bool, true, false, ◌&&◌, ◌||◌, [], ◌∷◌, ◌++◌, ◌==◌, if◌then◌else◌, Bytes, is_empty,
}

-- The second text starts with the first.
unfoldable pub text_starts : Bytes → Bytes → Bool
text_starts [] text' = true
text_starts (p ∷ prefix) [] = false
text_starts (p ∷ prefix) (c ∷ text') = p == c && text_starts prefix text'

-- `find` of a part in a text.
unfoldable pub text_contains : Bytes → Bytes → Bool
unfolding text_starts
text_contains [] part = text_starts part []
text_contains (c ∷ text') part = text_starts part (c ∷ text') || text_contains text' part

abbrev pub padded : Bytes → Bytes
padded value = b' ' ∷ (value ++ b' ' ∷ [])

unfoldable pub contains_normalized_phrase : Bytes → Bytes → Bool
unfolding text_contains
contains_normalized_phrase text' phrase =
    if is_empty text' || is_empty phrase
    then false
    else text_contains (padded text') (padded phrase)
