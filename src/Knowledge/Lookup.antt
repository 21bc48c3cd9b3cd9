-- ===== src/Knowledge/Lookup.antt =====
-- `KnowledgeBase::rebuildLookup` and `findById` of src/knowledge.cpp.
use howlinux.Base.{
  ℕ, suc, ◌+◌, Bool, true, false, List, [], ◌∷◌, ◌≡◌, refl, sym, ap, ◌∙◌, arith, Option, none, some,
  if◌then◌else◌, Bytes, beq, beq_iff, Bool-cases, inl, inr,
}
use howlinux.Knowledge.{KnowledgeEntry, entry_at}

-- `id_lookup_`
abbrev pub IdLookup : Type 0
IdLookup = List (Bytes × ℕ)

-- `find` of the map.
unfoldable pub index_of_id : IdLookup → Bytes → Option ℕ
index_of_id [] id = none
index_of_id ((key, index) ∷ lookup) id = if beq key id then some index else index_of_id lookup id

-- `emplace`: a key that is there keeps its value.
unfoldable pub emplace_id : IdLookup → Bytes → ℕ → IdLookup
emplace_id [] id index = (id, index) ∷ []
emplace_id ((key, other) ∷ lookup) id index =
    let rest = (key, other) ∷ emplace_id lookup id index in
    if beq key id then (key, other) ∷ lookup else rest

-- The loop over the entries, from this index on.
unfoldable pub add_ids : ℕ → List KnowledgeEntry → IdLookup → IdLookup
unfolding emplace_id
add_ids index [] lookup = lookup
add_ids index (entry ∷ entries) lookup =
    add_ids (index + 1) entries (emplace_id lookup entry.id index)

-- `rebuildLookup`
unfoldable pub rebuild_lookup : List KnowledgeEntry → IdLookup
unfolding add_ids
rebuild_lookup entries = add_ids 0 entries []

-- The entry at an index that was found. `operator[]` past the end, which is undefined, is nothing too.
unfoldable pub found_entry : List KnowledgeEntry → Option ℕ → Option KnowledgeEntry
unfolding entry_at
found_entry entries none = none
found_entry entries (some index) = entry_at entries index

-- `findById`: nothing stands for the null pointer.
unfoldable pub find_by_id : List KnowledgeEntry → IdLookup → Bytes → Option KnowledgeEntry
unfolding found_entry index_of_id
find_by_id entries lookup id = found_entry entries (index_of_id lookup id)

-- The first entry with this identifier.
abbrev pub first_with : List KnowledgeEntry → Bytes → Option KnowledgeEntry
first_with [] id = none
first_with (entry ∷ entries) id = if beq entry.id id then some entry else first_with entries id

-- Its index, where the first entry has the index `n`.
abbrev first_index : ℕ → List KnowledgeEntry → Bytes → Option ℕ
first_index n [] id = none
first_index n (entry ∷ entries) id =
    if beq entry.id id then some n else first_index (n + 1) entries id

abbrev pub is_some {ℓ} : {A : Type ℓ} → Option A → Bool
is_some none = false
is_some (some x) = true

abbrev or_else : Option ℕ → Option ℕ → Option ℕ
or_else none other = other
or_else (some index) other = some index

index_of_id-emplace_id :
    (lookup : IdLookup) (key : Bytes) (index : ℕ) (id : Bytes)
    → index_of_id (emplace_id lookup key index) id
      ≡ or_else (index_of_id lookup id) (if beq key id then some index else none)
unfolding index_of_id emplace_id
index_of_id-emplace_id [] key index id = refl
index_of_id-emplace_id ((k, other) ∷ lookup) key index id =
    ground (
      arith,
      beq_iff k key,
      beq_iff k id,
      beq_iff key id,
      index_of_id-emplace_id lookup key index id,
    )

or_else-step :
    (a : Option ℕ) (b : Bool) (index : ℕ) (rest : Option ℕ)
    → or_else (or_else a (if b then some index else none)) rest
      ≡ or_else a (if b then some index else rest)
or_else-step none true index rest = refl
or_else-step none false index rest = refl
or_else-step (some n) b index rest = refl

index_of_id-add_ids :
    (n : ℕ) (entries : List KnowledgeEntry) (lookup : IdLookup) (id : Bytes)
    → index_of_id (add_ids n entries lookup) id
      ≡ or_else (index_of_id lookup id) (first_index n entries id)
unfolding add_ids
index_of_id-add_ids n [] lookup id = or_none (index_of_id lookup id)
  where
    or_none : (a : Option ℕ) → a ≡ or_else a none
    or_none none = refl
    or_none (some i) = refl
index_of_id-add_ids n (entry ∷ entries) lookup id =
    index_of_id-add_ids (n + 1) entries (emplace_id lookup entry.id n) id
    ∙ ap (λ a. or_else a (first_index (n + 1) entries id))
        (index_of_id-emplace_id lookup entry.id n id)
    ∙ or_else-step (index_of_id lookup id) (beq entry.id id) n (first_index (n + 1) entries id)

-- The entries behind `before` others.
found-first :
    (before : List KnowledgeEntry) (entries : List KnowledgeEntry) (id : Bytes)
    → (n : ℕ) → ((i : ℕ) → entry_at before (n + i) ≡ entry_at entries i)
    → found_entry before (first_index n entries id) ≡ first_with entries id
unfolding found_entry entry_at
found-first before [] id n h = refl
found-first before (entry ∷ entries) id n h = elim (Bool-cases (beq entry.id id)) [
  | inl e ↦ rw e (ap (entry_at before) (omega arith) ∙ h 0)
  | inr e ↦
      rw e (
        found-first before entries id (n + 1) (λ i. ap (entry_at before) (omega arith) ∙ h (suc i)))
]

-- With the lookup that `rebuildLookup` makes, `findById` finds the first entry with the identifier, and
-- nothing where no entry has it.
pub find_by_id-first_with :
    (entries : List KnowledgeEntry) (id : Bytes)
    → find_by_id entries (rebuild_lookup entries) id ≡ first_with entries id
unfolding find_by_id rebuild_lookup
find_by_id-first_with entries id =
    ap (found_entry entries) (index_of_id-add_ids 0 entries [] id)
    ∙ found-first entries entries id 0 (λ i. ap (entry_at entries) (omega arith))

first_index-first_with :
    (n : ℕ) (entries : List KnowledgeEntry) (id : Bytes)
    → is_some (first_index n entries id) ≡ is_some (first_with entries id)
first_index-first_with n [] id = refl
first_index-first_with n (entry ∷ entries) id = elim (Bool-cases (beq entry.id id)) [
  | inl e ↦ rw e refl
  | inr e ↦ rw e (first_index-first_with (n + 1) entries id)
]

-- The map has an identifier where `findById` finds an entry.
pub index_of_id-find_by_id :
    (entries : List KnowledgeEntry) (id : Bytes)
    → is_some (index_of_id (rebuild_lookup entries) id)
      ≡ is_some (find_by_id entries (rebuild_lookup entries) id)
unfolding rebuild_lookup index_of_id
index_of_id-find_by_id entries id =
    ap is_some (index_of_id-add_ids 0 entries [] id)
    ∙ first_index-first_with 0 entries id
    ∙ sym (ap is_some (find_by_id-first_with entries id))
