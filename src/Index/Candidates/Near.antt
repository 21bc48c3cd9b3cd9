-- ===== src/Index/Candidates/Near.antt =====
-- The near tokens that `InvertedIndex::candidates` of src/index.cpp finds in the parts of the
-- vocabulary by length.
use howlinux.Base.{
  ℕ, zero, suc, ◌+◌, ◌-◌, ◌≤◌, Bool, true, ◌&&◌, not, List, [], ◌∷◌, ◌≡◌, refl, ◌∙◌, ap, arith, ltb,
  leb, ◌==◌, Bytes, beq, beq_iff, contains, length, any, any-append, Bool-cases, inl, inr,
}
use howlinux.Base.Multimap.{values_at}
use howlinux.Index.Distance.{distance, length_difference}
use howlinux.Index.Distance.Exact.{text_distance, distance-UpTo}
use howlinux.Index.Documents.{EntryDocument}
use howlinux.Index.Build.{index_of}
use howlinux.Index.Build.Vocabulary.{contains-bucket}
use howlinux.Index.Candidates.{is_protected_from_fuzzy, near_tokens, near_lengths}

-- A near token, with its distance.
abbrev pub is_near : Bytes → ℕ → Bytes × ℕ → Bool
is_near t d near = beq near.0 t && near.1 == d

abbrev passes : List Bytes → Bytes → ℕ → Bytes → ℕ → Bool
passes known_commands q m t d =
    not (is_protected_from_fuzzy t known_commands) && leb (distance q t m) m && distance q t m == d

any-near_tokens :
    (known_commands : List Bytes) (q : Bytes) (m : ℕ) (bucket : List Bytes) (t : Bytes) (d : ℕ)
    → any (is_near t d) (near_tokens known_commands q m bucket)
      ≡ (contains bucket t && passes known_commands q m t d)
unfolding near_tokens contains
any-near_tokens known_commands q m [] t d = refl
any-near_tokens known_commands q m (x ∷ bucket) t d = elim (Bool-cases (beq x t)) [
  | inl e ↦
      rw (← (beq_iff x t).0 e)
        (ground (arith, beq_iff x x, any-near_tokens known_commands q m bucket x d))
  | inr e ↦ ground (arith, any-near_tokens known_commands q m bucket t d)
]

-- A text whose length differs by more than the limit is not within it.
distance-length :
    (q t : Bytes) (m : ℕ)
    → leb (distance q t m) m ≡ true
    → (length q - m ≤ length t) × (length t ≤ length q + m)
unfolding distance length_difference
distance-length q t m h = elim (Bool-cases (beq q t)) [
  | inl e ↦ let same = ap length ((beq_iff q t).0 e) in (omega arith, omega arith)
  | inr e ↦ ground arith
]

module _ (documents : List EntryDocument) (known_commands : List Bytes) (q : Bytes) (m : ℕ) where
  any-near_lengths :
      (count n : ℕ) (t : Bytes) (d : ℕ)
      → any (is_near t d) (near_lengths (index_of documents known_commands) q m count n) ≡ (
          leb n (length t)
          && ltb (length t) (n + count)
          && contains (index_of documents known_commands).vocabulary t
          && passes known_commands q m t d)
  unfolding near_lengths index_of
  any-near_lengths zero n t d = ground arith
  any-near_lengths (suc count) n t d =
      let bucket = values_at ◌==◌ (index_of documents known_commands).vocabulary_by_length n in
      any-append (is_near t d) (near_tokens known_commands q m bucket)
        (near_lengths (index_of documents known_commands) q m count (n + 1))
      ∙ ground (
        arith,
        any-near_tokens known_commands q m bucket t d,
        contains-bucket documents known_commands n t,
        any-near_lengths count (n + 1) t d,
      )

  -- The loop over the lengths finds a text with a number exactly if the text is in the vocabulary, is
  -- not protected, and has this number, at most `m`, as its distance from the query's token.
  pub near_lengths-distance :
      (t : Bytes) (d : ℕ)
      → any (is_near t d) (
          near_lengths
            (index_of documents known_commands)
            q
            m
            (length q + m + 1 - (length q - m))
            (length q - m))
        ≡ (contains (index_of documents known_commands).vocabulary t
            && not (is_protected_from_fuzzy t known_commands)
            && leb (text_distance q t) m
            && text_distance q t == d)
  near_lengths-distance t d =
      any-near_lengths (length q + m + 1 - (length q - m)) (length q - m) t d
      ∙ ground (arith, distance-length q t m, distance-UpTo q t m)
