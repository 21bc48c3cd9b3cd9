-- ===== src/Knowledge/Ids.antt =====
-- Entries with distinct identifiers, in the order of `KnowledgeBase::load` of src/knowledge.cpp.
use howlinux.Base.{
  Bool, true, false, List, [], ◌∷◌, ◌++◌, ◌≡◌, refl, ◌∙◌, arith, some, Bytes, beq, beq_iff,
  beq_refl, blt, blt_asym, blt_total, blt_neg_trans, All, All-append, All-map, Bool-cases, inl, inr,
}
use howlinux.Base.Sort.{
  IsStrictWeak, IsSorted, insert_sorted, insert_sorted-above, sort_by, sort_by-IsSorted,
  sort_by-All,
}
use howlinux.Knowledge.{KnowledgeEntry}
use howlinux.Knowledge.Lookup.{find_by_id, rebuild_lookup, first_with, find_by_id-first_with}

abbrev pub id_before : KnowledgeEntry → KnowledgeEntry → Bool
id_before lhs rhs = blt lhs.id rhs.id

-- No entry of the list has this identifier.
abbrev pub IsNew : Bytes → List KnowledgeEntry → Type 0
IsNew id entries = All (λ (entry : KnowledgeEntry). beq entry.id id ≡ false) entries

abbrev pub AreDistinct : List KnowledgeEntry → Type 0
AreDistinct [] = Unit
AreDistinct (entry ∷ entries) = IsNew entry.id entries × AreDistinct entries

-- Every identifier is smaller than those behind it.
abbrev pub IsAscending : List KnowledgeEntry → Type 0
IsAscending [] = Unit
IsAscending (entry ∷ entries) =
    All (λ (other : KnowledgeEntry). blt entry.id other.id ≡ true) entries × IsAscending entries

beq-false_sym : (a b : Bytes) → beq a b ≡ false → beq b a ≡ false
beq-false_sym a b h = ground (arith, beq_iff a b, beq_iff b a, h)

id_before-IsStrictWeak : IsStrictWeak id_before
id_before-IsStrictWeak = record {
  asym = λ x y. blt_asym x.id y.id;
  neg_trans = λ x y z. blt_neg_trans x.id y.id z.id;
}

pub append-AreDistinct :
    (entries : List KnowledgeEntry) (entry : KnowledgeEntry)
    → AreDistinct entries
    → IsNew entry.id entries
    → AreDistinct (entries ++ entry ∷ [])
append-AreDistinct [] entry h new = (tt, tt)
append-AreDistinct (other ∷ entries) entry (distinct, h) (p, new) = (
  All-append (λ (e : KnowledgeEntry). beq e.id other.id ≡ false) entries (entry ∷ []) distinct
      (beq-false_sym other.id entry.id p, tt),
  append-AreDistinct entries entry h new,
)

insert_sorted-AreDistinct :
    (entry : KnowledgeEntry) (entries : List KnowledgeEntry)
    → AreDistinct entries
    → IsNew entry.id entries
    → AreDistinct (insert_sorted id_before entry entries)
unfolding insert_sorted
insert_sorted-AreDistinct entry [] h new = (tt, tt)
insert_sorted-AreDistinct entry (other ∷ entries) (distinct, h) (p, new) =
    elim (Bool-cases (blt other.id entry.id)) [
      | inl e ↦ rw e (
        insert_sorted-above id_before (λ (a : KnowledgeEntry). beq a.id other.id ≡ false) entry
            entries (beq-false_sym other.id entry.id p) distinct,
        insert_sorted-AreDistinct entry entries h new,
      )
      | inr e ↦ rw e ((p, new), (distinct, h))
    ]

sort_by-AreDistinct :
    (entries : List KnowledgeEntry) → AreDistinct entries → AreDistinct (sort_by id_before entries)
unfolding sort_by
sort_by-AreDistinct [] h = tt
sort_by-AreDistinct (entry ∷ entries) (new, h) =
    insert_sorted-AreDistinct entry (sort_by id_before entries) (sort_by-AreDistinct entries h)
      (sort_by-All id_before (λ (e : KnowledgeEntry). beq e.id entry.id ≡ false) entries new)

beq-same : (x y : Bytes) → x ≡ y → beq x y ≡ true
beq-same x y e = cc (beq_refl x, e)

blt-differ : (x y : Bytes) → blt x y ≡ true → beq x y ≡ false
blt-differ x y h = elim (Bool-cases (beq x y)) [
  | inl e ↦ absurd (ground (arith, h, blt_asym x y h, beq_iff x y, e))
  | inr e ↦ e
]

ascending : (x y : Bytes) → blt y x ≡ false → beq y x ≡ false → blt x y ≡ true
ascending x y h k = elim (Bool-cases (blt x y)) [
  | inl e ↦ e
  | inr e ↦ absurd (cc (k, beq-same y x (blt_total y x h e)))
]

All-ascending :
    (x : Bytes) (entries : List KnowledgeEntry)
    → All (λ (y : KnowledgeEntry). blt y.id x ≡ false) entries
    → IsNew x entries
    → All (λ (y : KnowledgeEntry). blt x y.id ≡ true) entries
All-ascending x [] above new = tt
All-ascending x (y ∷ entries) (h, above) (k, new) =
    (ascending x y.id h k, All-ascending x entries above new)

IsSorted-IsAscending :
    (entries : List KnowledgeEntry)
    → IsSorted id_before entries
    → AreDistinct entries
    → IsAscending entries
IsSorted-IsAscending [] s h = tt
IsSorted-IsAscending (x ∷ entries) (above, s) (new, h) =
    (All-ascending x.id entries above new, IsSorted-IsAscending entries s h)

pub sort_by-IsAscending :
    (entries : List KnowledgeEntry) → AreDistinct entries → IsAscending (sort_by id_before entries)
sort_by-IsAscending entries h =
    IsSorted-IsAscending (sort_by id_before entries)
      (sort_by-IsSorted id_before id_before-IsStrictWeak entries) (sort_by-AreDistinct entries h)

first_with-behind :
    (x : KnowledgeEntry) (entries behind : List KnowledgeEntry)
    → All (λ (y : KnowledgeEntry). blt x.id y.id ≡ true) behind
    → All (λ (y : KnowledgeEntry). first_with entries y.id ≡ some y) behind
    → All (λ (y : KnowledgeEntry). first_with (x ∷ entries) y.id ≡ some y) behind
first_with-behind x entries [] above h = tt
first_with-behind x entries (y ∷ behind) (p, above) (k, h) =
    (rw (blt-differ x.id y.id p) k, first_with-behind x entries behind above h)

-- With ascending identifiers, each entry is the first one with its identifier.
IsAscending-first_with :
    (entries : List KnowledgeEntry)
    → IsAscending entries
    → All (λ (e : KnowledgeEntry). first_with entries e.id ≡ some e) entries
IsAscending-first_with [] h = tt
IsAscending-first_with (x ∷ entries) (above, h) = (
  rw (beq_refl x.id) refl,
  first_with-behind x entries entries above (IsAscending-first_with entries h),
)

pub IsAscending-find_by_id :
    (entries : List KnowledgeEntry)
    → IsAscending entries
    → All
        (λ (e : KnowledgeEntry). find_by_id entries (rebuild_lookup entries) e.id ≡ some e)
        entries
IsAscending-find_by_id entries h =
    All-map (λ e k. find_by_id-first_with entries e.id ∙ k) entries
      (IsAscending-first_with entries h)

less-differs : (a b : Bytes) → blt a b ≡ true → beq b a ≡ false
less-differs a b h = elim (Bool-cases (beq b a)) [
  | inl e ↦ cc (h, (beq_iff b a).0 e, blt_asym a b h)
  | inr e ↦ e
]

pub IsAscending-AreDistinct :
    (entries : List KnowledgeEntry) → IsAscending entries → AreDistinct entries
IsAscending-AreDistinct [] h = tt
IsAscending-AreDistinct (entry ∷ entries) (above, h) = (
  All-map (λ (other : KnowledgeEntry). less-differs entry.id other.id) entries above,
  IsAscending-AreDistinct entries h,
)
