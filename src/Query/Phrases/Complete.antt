-- ===== src/Query/Phrases/Complete.antt =====
-- Which phrases `buildPhrases` in src/query.cpp does not miss.
use howlinux.Base.{true, List, ◌≡◌, map, Bytes, contains}
use howlinux.Query.Tokens.{join_tokens}

-- Membership of a part.
abbrev Has : List (List Bytes) → List Bytes → Type 0
Has ps part = contains (map join_tokens ps) (join_tokens part) ≡ true
