-- ===== src/Index/Distance/Scripts.antt =====
-- Edits from one text to another, which `damerauLevenshteinDistance` of src/index.cpp counts at best.
use Prim.Native.Nat.{min}
use howlinux.Base.{
  ℕ, suc, ◌+◌, ◌≤◌, ◌&&◌, [], ◌∷◌, ◌++◌, ◌≡◌, ◌⊎◌, refl, sym, ◌∙◌, subst, arith, append-nil,
  if◌then◌else◌, ◌==◌, Bytes, length, inl, inr, Bool-cases, ==_iff, &&-eq-true,
}
use howlinux.Index.Distance.{substitution_cost, edit}
use howlinux.Index.Distance.Table.{osa, osa_step}
use howlinux.Index.Distance.Bounds.{osa-nil, osa_corner, reverse_onto}

-- A way through both texts from their first bytes on, with the number of its edits. A byte is kept,
-- inserted, deleted or replaced, or two neighbours are swapped; what was edited is not edited again.
pub data Script : Bytes → Bytes → ℕ → Type 0 where
  done : Script [] [] 0
  kept : {l r : Bytes} {n : ℕ} (c : ℕ) → Script l r n → Script (c ∷ l) (c ∷ r) n
  inserted : {l r : Bytes} {n : ℕ} (c : ℕ) → Script l r n → Script l (c ∷ r) (suc n)
  deleted : {l r : Bytes} {n : ℕ} (c : ℕ) → Script l r n → Script (c ∷ l) r (suc n)
  replaced : {l r : Bytes} {n : ℕ} (c d : ℕ) → Script l r n → Script (c ∷ l) (d ∷ r) (suc n)
  swapped : {l r : Bytes} {n : ℕ} (c d : ℕ) → Script l r n → Script (c ∷ d ∷ l) (d ∷ c ∷ r) (suc n)

-- The number of edits of a script, and no script has less.
pub record IsLeast (left right : Bytes) (d : ℕ) : Type 0 where
  pub attained : Script left right d
  pub least : (n : ℕ) → Script left right n → d ≤ n

inserted-le : (l r : Bytes) (c : ℕ) → osa l (c ∷ r) ≤ osa l r + 1
unfolding osa
inserted-le [] r c = omega arith
inserted-le (a ∷ l) r c = ground (arith, osa_step a l c r)

deleted-le : (l r : Bytes) (c : ℕ) → osa (c ∷ l) r ≤ osa l r + 1
deleted-le l [] c = omega (arith, osa-nil l, osa-nil (c ∷ l))
deleted-le l (b ∷ r) c = ground (arith, osa_step c l b r)

osa-least : (l r : Bytes) (n : ℕ) → Script l r n → osa l r ≤ n
osa-least l r n done = omega (arith, osa-nil [])
osa-least l r n (kept {l = l'} {r = r'} c s) =
    ground (arith, osa_step c l' c r', osa-least l' r' n s)
osa-least l r n (inserted {l = l'} {r = r'} {n = m} c s) =
    omega (arith, inserted-le l' r' c, osa-least l' r' m s)
osa-least l r n (deleted {l = l'} {r = r'} {n = m} c s) =
    omega (arith, deleted-le l' r' c, osa-least l' r' m s)
osa-least l r n (replaced {l = l'} {r = r'} {n = m} c d s) =
    omega (arith, osa_corner c l' d r', osa-least l' r' m s)
osa-least l r n (swapped {l = l'} {r = r'} {n = m} c d s) =
    ground (arith, osa_step c (d ∷ l') d (c ∷ r'), osa-least l' r' m s)

module _ (l r : Bytes) where
  min-Script : (n m : ℕ) → Script l r n → Script l r m → Script l r (min n m)
  min-Script n m s t = elim (either n m) [
    | inl e ↦ subst (Script l r) (sym e) s
    | inr e ↦ subst (Script l r) (sym e) t
  ]
    where
      either : (n m : ℕ) → (min n m ≡ n) ⊎ (min n m ≡ m)
      either n m = ground arith

  one_more : (n : ℕ) → Script l r (suc n) → Script l r (n + 1)
  one_more n s = subst (Script l r) (omega arith) s

module _ (a b : ℕ) (l r : Bytes) where
  corner-Script : (n : ℕ) → Script l r n → Script (a ∷ l) (b ∷ r) (n + substitution_cost a b)
  corner-Script n s = elim (Bool-cases (a == b)) [
    | inl e ↦ rw e (
        subst (λ d. Script (a ∷ l) (d ∷ r) (n + 0)) ((==_iff a b).0 e)
          (subst (Script (a ∷ l) (a ∷ r)) (omega arith) (kept a s)))
    | inr e ↦ rw e (one_more (a ∷ l) (b ∷ r) n (replaced a b s))
  ]

  edit-Script :
      (above beside corner : ℕ)
      → Script l (b ∷ r) above
      → Script (a ∷ l) r beside
      → Script l r corner
      → Script (a ∷ l) (b ∷ r) (edit a b above beside corner)
  edit-Script above beside corner s t u =
      min-Script (a ∷ l) (b ∷ r) _ _
        (min-Script (a ∷ l) (b ∷ r) _ _ (one_more (a ∷ l) (b ∷ r) above (deleted a s))
          (one_more (a ∷ l) (b ∷ r) beside (inserted b t)))
        (corner-Script corner u)

swap-Script :
    (a a' b b' : ℕ) (l r : Bytes) (plain n : ℕ)
    → Script (a ∷ a' ∷ l) (b ∷ b' ∷ r) plain
    → Script l r n
    → Script (a ∷ a' ∷ l) (b ∷ b' ∷ r) (if b' == a && a' == b then min plain (n + 1) else plain)
swap-Script a a' b b' l r plain n s t = elim (Bool-cases (b' == a && a' == b)) [
  | inr e ↦ rw e s
  | inl e ↦
      let (p, q) = &&-eq-true _ _ e in
      let swap =
        subst (λ c. Script (a ∷ a' ∷ l) (c ∷ b' ∷ r) (suc n)) ((==_iff a' b).0 q)
          (subst (λ c. Script (a ∷ a' ∷ l) (a' ∷ c ∷ r) (suc n)) (sym ((==_iff b' a).0 p))
            (swapped a a' t)) in
      rw e (
        min-Script (a ∷ a' ∷ l) (b ∷ b' ∷ r) plain (n + 1) s
          (one_more (a ∷ a' ∷ l) (b ∷ b' ∷ r) n swap))
]

insert-Script : (r : Bytes) → Script [] r (length r)
insert-Script [] = done
insert-Script (b ∷ r) = inserted b (insert-Script r)

delete-Script : (l : Bytes) → Script l [] (length l)
delete-Script [] = done
delete-Script (a ∷ l) = deleted a (delete-Script l)

osa-Script : (l r : Bytes) → Script l r (osa l r)
unfolding osa
osa-Script [] r = insert-Script r
osa-Script (a ∷ l) [] = delete-Script (a ∷ l)
osa-Script (a ∷ []) (b ∷ r) =
    edit-Script a b [] r _ _ _ (osa-Script [] (b ∷ r)) (osa-Script (a ∷ []) r) (osa-Script [] r)
osa-Script (a ∷ a' ∷ l) (b ∷ []) =
    edit-Script a b (a' ∷ l) [] _ _ _ (osa-Script (a' ∷ l) (b ∷ [])) (osa-Script (a ∷ a' ∷ l) [])
      (osa-Script (a' ∷ l) [])
osa-Script (a ∷ a' ∷ l) (b ∷ b' ∷ r) =
    swap-Script a a' b b' l r _ _
      (edit-Script a b (a' ∷ l) (b' ∷ r) _ _ _ (osa-Script (a' ∷ l) (b ∷ b' ∷ r))
        (osa-Script (a ∷ a' ∷ l) (b' ∷ r)) (osa-Script (a' ∷ l) (b' ∷ r)))
      (osa-Script l r)

Script-reverse_onto :
    (s t : Bytes) (n : ℕ) (l r : Bytes) (m : ℕ)
    → Script s t n
    → Script l r m
    → Script (reverse_onto s l) (reverse_onto t r) (n + m)
Script-reverse_onto s t n l r m done behind = subst (Script l r) (omega arith) behind
Script-reverse_onto s t n l r m (kept {l = s'} {r = t'} c script) behind =
    Script-reverse_onto s' t' n (c ∷ l) (c ∷ r) m script (kept c behind)
Script-reverse_onto s t n l r m (inserted {l = s'} {r = t'} {n = k} c script) behind =
    subst (Script _ _) (omega arith)
      (Script-reverse_onto s' t' k l (c ∷ r) (suc m) script (inserted c behind))
Script-reverse_onto s t n l r m (deleted {l = s'} {r = t'} {n = k} c script) behind =
    subst (Script _ _) (omega arith)
      (Script-reverse_onto s' t' k (c ∷ l) r (suc m) script (deleted c behind))
Script-reverse_onto s t n l r m (replaced {l = s'} {r = t'} {n = k} c d script) behind =
    subst (Script _ _) (omega arith)
      (Script-reverse_onto s' t' k (c ∷ l) (d ∷ r) (suc m) script (replaced c d behind))
Script-reverse_onto s t n l r m (swapped {l = s'} {r = t'} {n = k} c d script) behind =
    subst (Script _ _) (omega arith)
      (Script-reverse_onto s' t' k (d ∷ c ∷ l) (c ∷ d ∷ r) (suc m) script (swapped d c behind))

reverse_onto-twice : (s l r : Bytes) → reverse_onto (reverse_onto s l) r ≡ reverse_onto l (s ++ r)
reverse_onto-twice [] l r = refl
reverse_onto-twice (a ∷ s) l r = reverse_onto-twice s (a ∷ l) r

reverse-reverse : (s : Bytes) → reverse_onto (reverse_onto s []) [] ≡ s
reverse-reverse s = reverse_onto-twice s [] [] ∙ append-nil s

-- The scripts of two texts are those of the texts from their last bytes on.
pub osa-IsLeast :
    (left right : Bytes) → IsLeast left right (osa (reverse_onto left []) (reverse_onto right []))
osa-IsLeast left right =
    let l = reverse_onto left [] in
    let r = reverse_onto right [] in
    record {
      attained =
          subst (λ s. Script s right (osa l r)) (reverse-reverse left)
            (subst (λ t. Script (reverse_onto l []) t (osa l r)) (reverse-reverse right)
              (subst (Script (reverse_onto l []) (reverse_onto r [])) (omega arith)
                (Script-reverse_onto l r (osa l r) [] [] 0 (osa-Script l r) done)));
      least = λ n script.
          omega
            (arith, osa-least l r (n + 0) (Script-reverse_onto left right n [] [] 0 script done));
    }
