-- ===== src/Markdown/Inline/Shown.antt =====
-- What `inlineText` of src/markdown.cpp writes does not steer a terminal.
use howlinux.Base.{
  ℕ, zero, suc, ◌+◌, ◌-◌, ◌/◌, ◌%◌, ◌<◌, Bool, true, false, ◌&&◌, ◌||◌, not, [], ◌∷◌, ◌++◌, ◌≡◌,
  refl, arith, Option, none, some, if◌then◌else◌, Bytes, codes, beq, All, All-append, Bool-cases,
  inl, inr, take, drop, ◌==◌, is_empty,
}
use howlinux.Render.Escape.{hex_digit}
use howlinux.Markdown.Text.{run_of, find, whitespace, byte_at, holds, is_hidden, literal, styled}
use howlinux.Markdown.Inline.{
  Token, plain, is_escapable, code_end, code_span, closing, link, link_token, link_at,
  emphasis_token, marker_count, is_boundary, emphasis_at, or_token, inline_token, inline_from,
  inline_text,
}

abbrev pub IsShown : ℕ → Type 0
IsShown c = is_hidden c ≡ false

abbrev pub AreShown : Bytes → Type 0
AreShown text = All IsShown text

pub append-AreShown : (xs ys : Bytes) → AreShown xs → AreShown ys → AreShown (xs ++ ys)
append-AreShown xs ys h k = All-append IsShown xs ys h k

hex_digit-IsShown : (n : ℕ) → n < 16 → IsShown (hex_digit n)
unfolding hex_digit
hex_digit-IsShown n h = ground (arith, h)

pub literal-AreShown : (text : Bytes) → AreShown (literal text)
unfolding literal
literal-AreShown [] = tt
literal-AreShown (c ∷ text) = elim (Bool-cases (is_hidden c)) [
  | inl e ↦ rw e (
    refl,
    (
      refl,
      (
        hex_digit-IsShown ((c / 16) % 16) (omega arith),
        (hex_digit-IsShown (c % 16) (omega arith), literal-AreShown text),
      ),
    ),
  )
  | inr e ↦ rw e (e, literal-AreShown text)
]

pub styled-AreShown : (name text : Bytes) → AreShown (styled false name text)
unfolding styled
styled-AreShown name text = literal-AreShown text

if-AreShown :
    (test : Bool) (xs ys : Bytes) → AreShown xs → AreShown ys → AreShown (if test then xs else ys)
if-AreShown true xs ys h k = h
if-AreShown false xs ys h k = k

-- What a token writes.
abbrev written_of : Token → Bytes
written_of (taken, written) = written

record WritesShown (token : Token) : Type 0 where
  shown : AreShown (written_of token)

data MayWrite : Option Token → Type 0 where
  writes_none : MayWrite none
  writes : {token : Token} → WritesShown token → MayWrite (some token)

wrote : {taken : ℕ} {written : Bytes} → AreShown written → WritesShown (taken, written)
wrote h = record { shown = h }

if-WritesShown :
    (test : Bool) (a b : Token)
    → WritesShown a
    → WritesShown b
    → WritesShown (if test then a else b)
if-WritesShown true a b h k = h
if-WritesShown false a b h k = k

if-MayWrite :
    (test : Bool) (a b : Option Token) → MayWrite a → MayWrite b → MayWrite (if test then a else b)
if-MayWrite true a b h k = h
if-MayWrite false a b h k = k

or_token-WritesShown :
    (a : Option Token) (b : Token) → MayWrite a → WritesShown b → WritesShown (or_token a b)
or_token-WritesShown _ b writes_none k = k
or_token-WritesShown _ b (writes h) k = h

code_span-WritesShown :
    (text : Bytes) (count : ℕ) (end : Option ℕ) → WritesShown (code_span false text count end)
code_span-WritesShown text count none = wrote (literal-AreShown (take count text))
code_span-WritesShown text count (some end) = wrote (styled-AreShown (codes "36") _)

link-AreShown : (label url : Bytes) → AreShown (link false label url)
link-AreShown label url =
    append-AreShown (styled false (codes "4") label) _ (styled-AreShown (codes "4") label) (
      if-AreShown (beq url label) [] (codes " (" ++ (literal url ++ codes ")")) tt
        (refl, (refl, append-AreShown (literal url) (codes ")") (literal-AreShown url) (refl, tt))))

link_token-MayWrite :
    (text : Bytes) (label_end : ℕ) (end : Option ℕ) → MayWrite (link_token false text label_end end)
link_token-MayWrite text label_end none = writes_none
link_token-MayWrite text label_end (some end) = writes (wrote (link-AreShown _ _))

link_at-MayWrite : (text : Bytes) (label_end : Option ℕ) → MayWrite (link_at false text label_end)
unfolding link_at
link_at-MayWrite text none = writes_none
link_at-MayWrite text (some label_end) =
    link_token-MayWrite text label_end (closing 1 (drop (1 + label_end + 2) text))

emphasis_token-MayWrite :
    (text : Bytes) (count : ℕ) (end : Option ℕ) → MayWrite (emphasis_token false text count end)
emphasis_token-MayWrite text count none = writes_none
emphasis_token-MayWrite text count (some end) =
    if-MayWrite _ _ none (writes (wrote (styled-AreShown _ (take end (drop count text)))))
      writes_none

emphasis_at-MayWrite :
    (previous : Option ℕ) (text : Bytes) → MayWrite (emphasis_at false previous text)
unfolding emphasis_at
emphasis_at-MayWrite previous text =
    let count = marker_count text in
    let start = drop count text in
    if-MayWrite
      (is_boundary previous && not (is_empty start) && not (holds whitespace (byte_at 0 start))) _
      none (emphasis_token-MayWrite text count (find (take count text) start)) writes_none

plain-WritesShown : (text : Bytes) → WritesShown (plain text)
plain-WritesShown text = wrote (literal-AreShown (take 1 text))

inline_token-WritesShown :
    (previous : Option ℕ) (text : Bytes) → WritesShown (inline_token false previous text)
unfolding inline_token
inline_token-WritesShown previous [] = wrote tt
inline_token-WritesShown previous (c ∷ text) =
    let whole = c ∷ text in
    let count = run_of b'`' whole in
    if-WritesShown (c == b'\\' && holds is_escapable (byte_at 0 text)) (2, literal (take 1 text)) _
      (wrote (literal-AreShown (take 1 text)))
      (if-WritesShown (c == b'`') _ _
        (code_span-WritesShown whole count (code_end count 0 b'`' (drop count whole)))
        (if-WritesShown (c == b'[') _ _
          (or_token-WritesShown (link_at false whole (find (codes "](") text)) (plain whole)
            (link_at-MayWrite whole (find (codes "](") text)) (plain-WritesShown whole))
          (if-WritesShown (c == b'*' || c == b'_') _ _
            (or_token-WritesShown (emphasis_at false previous whole) (plain whole)
              (emphasis_at-MayWrite previous whole) (plain-WritesShown whole))
            (plain-WritesShown whole))))

inline_from-AreShown :
    (skipped : ℕ) (previous : Option ℕ) (text : Bytes)
    → AreShown (inline_from false skipped previous text)
unfolding inline_from
inline_from-AreShown skipped previous [] = tt
inline_from-AreShown (suc skipped) previous (c ∷ text) = inline_from-AreShown skipped (some c) text
inline_from-AreShown zero previous (c ∷ text) =
    let (taken, written) = inline_token false previous (c ∷ text) in
    append-AreShown written _ (inline_token-WritesShown previous (c ∷ text)).shown
      (inline_from-AreShown (taken - 1) (some c) text)

pub inline_text-AreShown : (text : Bytes) → AreShown (inline_text false text)
unfolding inline_text
inline_text-AreShown text = inline_from-AreShown 0 none text
