-- ===== src/Knowledge/Lint/Links/Silent.antt =====
-- The links of a line on which `lintMarkdownLinks` of src/knowledge.cpp reports nothing.
use howlinux.Base.{
  ℕ, zero, suc, ◌+◌, Bool, true, false, ◌||◌, List, [], ◌∷◌, ◌++◌, ◌≡◌, refl, sym, ap, ◌∙◌, subst,
  arith, ◌⊎◌, inl, inr, Option, none, some, Bytes, codes, ◌==◌, is_empty, length, take, drop, All,
  Bool-cases,
}
use howlinux.Diagnostics.{Diagnostic}
use howlinux.Yaml.{Answer, answer, failed}
use howlinux.Files.{FileSystem, join_path, parent_path}
use howlinux.Knowledge.Reported.{split-append}
use howlinux.Knowledge.Lint.Links.{
  path_escapes_root, until, link_target, has_scheme, is_there, check_path, check_target, check_link,
  lint_from, lint_markdown_links,
}
use howlinux.Markdown.Text.{starts_with, next_index, find}

-- A byte is found at an index: the text is cut there, and the byte does not stand in front.
abbrev Cut : ℕ → Bytes → Option ℕ → Type 0
Cut c text none = Unit
Cut c text (some index) =
    (before : Bytes) × (behind : Bytes) × (text ≡ before ++ c ∷ behind)
    × (index ≡ length before)
    × All (λ d. (c == d) ≡ false) before

same_byte : (c d : ℕ) → c == d ≡ true → c ≡ d
same_byte c d e = ground (arith, e)

next-Cut :
    (c d : ℕ) (text : Bytes) (found : Option ℕ)
    → c == d ≡ false
    → Cut c text found
    → Cut c (d ∷ text) (next_index found)
next-Cut c d text none e cut = tt
next-Cut c d text (some index) e (before, behind, same, n, others) =
    (d ∷ before, behind, ap (λ t. d ∷ t) same, ap suc n, (e, others))

find-Cut : (c : ℕ) (text : Bytes) → Cut c text (find (c ∷ []) text)
unfolding find
find-Cut c [] = tt
find-Cut c (d ∷ text) = elim (Bool-cases (c == d)) [
  | inl e ↦ rw e ([], text, ap (λ x. x ∷ text) (sym (same_byte c d e)), refl, tt)
  | inr e ↦ rw e (next-Cut c d text (find (c ∷ []) text) e (find-Cut c text))
]

take-front : (before behind : Bytes) → take (length before) (before ++ behind) ≡ before
take-front [] behind = refl
take-front (c ∷ before) behind = ap (λ text. c ∷ text) (take-front before behind)

drop-front :
    (before : Bytes) (c : ℕ) (behind : Bytes)
    → drop (suc (length before)) (before ++ c ∷ behind) ≡ behind
drop-front [] c behind = refl
drop-front (d ∷ before) c behind = drop-front before c behind

module _ (files : FileSystem) (content_path root : Bytes) where
  -- A path from the directory of the content, where it is not empty, leads to something below the root.
  abbrev pub LeadsInside : Bytes → Type 0
  LeadsInside [] = Unit
  LeadsInside (c ∷ path) =
      let resolved = join_path (parent_path content_path) (c ∷ path) in
      (path_escapes_root files resolved root ≡ false) × (files.exists resolved ≡ answer true)

  -- A target is a place in the text, an address, or no absolute path and leads to something below the root.
  abbrev pub IsGood : Bytes → Type 0
  IsGood [] = ⊥
  IsGood (c ∷ target) =
      (c == b'#'
          || has_scheme (find (codes "://") (c ∷ target))
          || starts_with (codes "mailto:") (c ∷ target)
        ≡ true)
      ⊎ ((c == b'/' ≡ false) × LeadsInside (until (λ d. d == b'#' || d == b'?') (c ∷ target)))

  -- The bytes of a line are links with a good target, and bytes at which no link starts.
  pub data HasGoodLinks : Bytes → Type 0 where
    over : HasGoodLinks []
    beside :
        (c : ℕ) (line : Bytes)
        → starts_with (codes "](") (c ∷ line) ≡ false
        → HasGoodLinks line
        → HasGoodLinks (c ∷ line)
    good_link :
        (bracket parenthesis : ℕ) (text behind : Bytes)
        → starts_with (codes "](") (bracket ∷ parenthesis ∷ (text ++ b')' ∷ behind)) ≡ true
        → All (λ d. (b')' == d) ≡ false) text
        → IsGood (link_target text)
        → HasGoodLinks behind
        → HasGoodLinks (bracket ∷ parenthesis ∷ (text ++ b')' ∷ behind))

module _ (rest text behind : Bytes) (index : ℕ) (same : rest ≡ text ++ b')' ∷ behind)
    (n : index ≡ length text) where
  take_cut : take index rest ≡ text
  take_cut =
      ap (λ r. take index r) same
      ∙ ap (λ m. take m (text ++ b')' ∷ behind)) n
      ∙ take-front text (b')' ∷ behind)

  plus_two : index + 2 ≡ suc (suc (length text))
  plus_two = omega (arith, n)

  drop_cut : (parenthesis : ℕ) → drop (index + 2) (parenthesis ∷ rest) ≡ behind
  drop_cut parenthesis =
      ap (λ r. drop (index + 2) (parenthesis ∷ r)) same
      ∙ ap (λ m. drop m (parenthesis ∷ (text ++ b')' ∷ behind))) plus_two
      ∙ drop-front text b')' behind

module _ (files : FileSystem) (content_path root entry_id : Bytes) (line_number : ℕ) where
  there : (found : Answer Bool) → is_there found ≡ true → found ≡ answer true
  there (failed message) h = absurd (ground (arith, h))
  there (answer true) h = refl
  there (answer false) h = absurd (ground (arith, h))

  check_path-LeadsInside :
      (path : Bytes)
      → is_empty (check_path files content_path root entry_id line_number path) ≡ true
      → LeadsInside files content_path root path
  unfolding check_path
  check_path-LeadsInside [] h = tt
  check_path-LeadsInside (c ∷ path) h =
      let resolved = join_path (parent_path content_path) (c ∷ path) in
      elim (Bool-cases (path_escapes_root files resolved root)) [
        | inl e ↦ absurd (ground (arith, rw e at h))
        | inr e ↦ elim (Bool-cases (is_there (files.exists resolved))) [
          | inl f ↦ (e, there (files.exists resolved) f)
          | inr f ↦ absurd (ground (arith, rw (e, f) at h))
        ]
      ]

  check_target-IsGood :
      (target : Bytes)
      → is_empty (check_target files content_path root entry_id line_number target) ≡ true
      → IsGood files content_path root target
  unfolding check_target
  check_target-IsGood [] h = absurd (ground (arith, h))
  check_target-IsGood (c ∷ target) h =
      elim (Bool-cases (
        c == b'#'
        || has_scheme (find (codes "://") (c ∷ target))
        || starts_with (codes "mailto:") (c ∷ target))) [
          | inl e ↦ inl e
          | inr e ↦ elim (Bool-cases (c == b'/')) [
            | inl f ↦ absurd (ground (arith, rw (e, f) at h))
            | inr f ↦ inr (f, check_path-LeadsInside _ (rw (e, f) at h))
          ]
        ]

  check_link-HasGoodLinks :
      (bracket parenthesis : ℕ) (rest : Bytes) (found : Option ℕ) (next : ℕ → List Diagnostic)
      → starts_with (codes "](") (bracket ∷ parenthesis ∷ rest) ≡ true
      → Cut b')' rest found
      → is_empty (check_link files content_path root entry_id line_number rest found next) ≡ true
      → ((n : ℕ)
          → is_empty (next n) ≡ true
          → HasGoodLinks files content_path root (drop n (parenthesis ∷ rest)))
      → HasGoodLinks files content_path root (bracket ∷ parenthesis ∷ rest)
  unfolding check_link
  check_link-HasGoodLinks bracket parenthesis rest none next marker cut h k =
      absurd (ground (arith, h))
  check_link-HasGoodLinks bracket parenthesis rest (some index) next marker
        (text, behind, same, n, others) h k =
      let all_good = HasGoodLinks files content_path root in
      let (target, after) =
        split-append
          (check_target files content_path root entry_id line_number
            (link_target (take index rest)))
          (next (index + 2)) h in
      let good =
        good_link bracket parenthesis text behind
          (subst (λ r. starts_with (codes "](") (bracket ∷ parenthesis ∷ r) ≡ true) same marker)
          others
          (subst (λ t. IsGood files content_path root (link_target t))
            (take_cut rest text behind index same n) (check_target-IsGood _ target))
          (subst all_good (drop_cut rest text behind index same n parenthesis)
            (k (index + 2) after)) in
      subst (λ r. all_good (bracket ∷ parenthesis ∷ r)) (sym same) good

  lint_from-HasGoodLinks :
      (skipped : ℕ) (line : Bytes)
      → is_empty (lint_from files content_path root entry_id line_number skipped line) ≡ true
      → HasGoodLinks files content_path root (drop skipped line)
  unfolding lint_from
  lint_from-HasGoodLinks zero [] h = over
  lint_from-HasGoodLinks (suc skipped) [] h = over
  lint_from-HasGoodLinks (suc skipped) (c ∷ line) h = lint_from-HasGoodLinks skipped line h
  lint_from-HasGoodLinks zero (c ∷ []) h = beside c [] (ground arith) over
  lint_from-HasGoodLinks zero (c ∷ d ∷ line) h =
      elim (Bool-cases (starts_with (codes "](") (c ∷ d ∷ line))) [
        | inl e ↦
            check_link-HasGoodLinks c d line (find (codes ")") line)
              (λ n. lint_from files content_path root entry_id line_number n (d ∷ line)) e
              (find-Cut b')' line) (rw e at h) (λ n k. lint_from-HasGoodLinks n (d ∷ line) k)
        | inr e ↦ beside c (d ∷ line) e (lint_from-HasGoodLinks 0 (d ∷ line) (rw e at h))
      ]

  -- Where nothing is reported on a line, all its links have a good target.
  pub lint_markdown_links-HasGoodLinks :
      (line : Bytes)
      → is_empty (lint_markdown_links files content_path root entry_id line_number line) ≡ true
      → HasGoodLinks files content_path root line
  unfolding lint_markdown_links
  lint_markdown_links-HasGoodLinks line h = lint_from-HasGoodLinks 0 line h
