-- ===== src/Query/Processor/Commands.antt =====
-- The test of `detectType` in src/query.cpp on the known commands, against lists of tokens.
use howlinux.Base.{
  ℕ, Bool, true, false, ◌&&◌, ◌||◌, not, List, [], ◌∷◌, ◌++◌, ◌≡◌, ◌≢◌, refl, ◌∙◌, ap, arith,
  Option, ◌==◌, Bytes, beq, beq_iff, contains, any, is_empty, All, All-map, Bool-cases, inl, inr,
}
use howlinux.Query.Chars.{is_chunk_byte, is_direction}
use howlinux.Query.Lexer.Shape.{IsToken}
use howlinux.Query.Lexer.Relex.{IsToken-ne-nil, IsToken-bytes}
use howlinux.Query.Tokens.{tokenize, join_tokens}
use howlinux.Query.Tokens.RoundTrip.{spaced, join_tokens-cons, tokenize-IsToken}
use howlinux.Concepts.Dictionary.{ConceptDictionary}
use howlinux.Query.Processor.{begins_with, is_command_query, add_commands, new_processor}

abbrev pub NoBlank : Bytes → Type 0
NoBlank = All (λ c. (c == b' ') ≡ false)

no_blank : (c : ℕ) → (is_chunk_byte c || is_direction c) ≡ true → (c == b' ') ≡ false
unfolding is_chunk_byte is_direction
no_blank c h = ground arith

pub token-NoBlank : (t : Bytes) → IsToken t → NoBlank t
token-NoBlank t h = All-map no_blank t (IsToken-bytes t h)

command_word :
    (t p : Bytes) (ts cs : List Bytes)
    → NoBlank t
    → NoBlank p
    → is_command_query (t ++ spaced ts) (p ++ spaced cs)
      ≡ (beq p t && is_command_query (spaced ts) (spaced cs))
unfolding is_command_query beq spaced
command_word [] [] ts cs h k = refl
command_word [] (b ∷ p) [] cs h k = refl
command_word [] (b ∷ p) (t ∷ ts) cs h k = ground arith
command_word (a ∷ t) [] ts [] h k = ground arith
command_word (a ∷ t) [] ts (c ∷ cs) h k = ground arith
command_word (a ∷ t) (b ∷ p) ts cs (ha, h) (hb, k) = ground (arith, command_word t p ts cs h k)

command_spaced :
    (ts cs : List Bytes)
    → All NoBlank ts
    → All NoBlank cs
    → is_command_query (spaced ts) (spaced cs) ≡ begins_with ts cs
unfolding is_command_query spaced begins_with beq
command_spaced [] [] h k = refl
command_spaced (t ∷ ts) [] h k = refl
command_spaced [] (c ∷ cs) h k = refl
command_spaced (t ∷ ts) (c ∷ cs) (ht, h) (hc, k) =
    ground (arith, command_word t c ts cs ht hc, command_spaced ts cs h k)

-- On joined tokens, the test of texts is the test that the command's tokens stand first.
pub command_query-tokens :
    (ts cs : List Bytes)
    → All IsToken ts
    → All IsToken cs
    → cs ≢ []
    → is_command_query (join_tokens ts) (join_tokens cs) ≡ begins_with ts cs
unfolding begins_with
command_query-tokens ts [] h k ne = absurd (ne refl)
command_query-tokens [] (c ∷ cs) h (hc, k) ne =
    rw (join_tokens-cons c cs (IsToken-ne-nil c hc)) (empty_query c (IsToken-ne-nil c hc))
  where
    empty_query : (p : Bytes) → p ≢ [] → is_command_query (join_tokens []) (p ++ spaced cs) ≡ false
    empty_query [] n = absurd (n refl)
    empty_query (a ∷ p) n = unfold is_command_query join_tokens beq in refl
command_query-tokens (t ∷ ts) (c ∷ cs) (ht, h) (hc, k) ne =
    rw (join_tokens-cons t ts (IsToken-ne-nil t ht), join_tokens-cons c cs (IsToken-ne-nil c hc))
      (command_word t c ts cs (token-NoBlank t ht) (token-NoBlank c hc)
        ∙ ap (λ b. beq c t && b)
            (command_spaced ts cs (All-map token-NoBlank ts h) (All-map token-NoBlank cs k)))

contains-any :
    (test : Bytes → Bool) (known : List Bytes) (name : Bytes)
    → contains known name ≡ true
    → test name ≡ true
    → any test known ≡ true
unfolding contains
contains-any test [] name h k = cc
contains-any test (x ∷ known) name h k =
    ground (arith, beq_iff x name, contains-any test known name)

-- What a set of commands says of a test, over the commands that were put in.
abbrev normalized : (Bytes → Bool) → Bytes → Bool
normalized test name =
    not (is_empty (tokenize name false false)) && test (join_tokens (tokenize name false false))

any-add_commands :
    (test : Bytes → Bool) (known names : List Bytes)
    → any test (add_commands known names) ≡ (any test known || any (normalized test) names)
unfolding add_commands
any-add_commands test known [] = ground arith
any-add_commands test known (name ∷ names) =
    let joined = join_tokens (tokenize name false false) in
    ground (
      arith,
      any-add_commands test known names,
      any-add_commands test (joined ∷ known) names,
      contains-any test known joined,
    )

-- The query starts with the tokens of this command.
abbrev pub starts_with_command : List Bytes → Bytes → Bool
starts_with_command ts name =
    not (is_empty (tokenize name false false)) && begins_with ts (tokenize name false false)

normalized-starts :
    (ts : List Bytes) (name : Bytes)
    → All IsToken ts
    → normalized (is_command_query (join_tokens ts)) name ≡ starts_with_command ts name
normalized-starts ts name h = elim (Bool-cases (is_empty (tokenize name false false))) [
  | inl e ↦ rw e
  | inr e ↦
      ap (λ b. not (is_empty (tokenize name false false)) && b)
        (command_query-tokens ts (tokenize name false false) h (tokenize-IsToken name false false)
          (not_empty (tokenize name false false) e))
]
  where
    not_empty : (cs : List Bytes) → is_empty cs ≡ false → cs ≢ []
    not_empty [] n = cc
    not_empty (c ∷ cs) n = cc

any-ext :
    (p q : Bytes → Bool) (names : List Bytes)
    → ((n : Bytes) → p n ≡ q n)
    → any p names ≡ any q names
any-ext p q [] h = refl
any-ext p q (n ∷ names) h = ground (arith, h n, any-ext p q names h)

-- On tokens, the search of the known commands by text finds one exactly if the tokens of one of the
-- commands given to the constructor are not none and stand first among those of the query.
pub known_command-tokens :
    (concepts : Option ConceptDictionary) (names ts : List Bytes)
    → All IsToken ts
    → any (is_command_query (join_tokens ts)) (new_processor concepts names).known_commands
      ≡ any (starts_with_command ts) names
unfolding new_processor
known_command-tokens concepts names ts h =
    any-add_commands (is_command_query (join_tokens ts)) [] names
    ∙ any-ext _ _ names (λ n. normalized-starts ts n h)
