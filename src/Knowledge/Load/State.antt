-- ===== src/Knowledge/Load/State.antt =====
-- The loop over the candidates in `KnowledgeBase::load` of src/knowledge.cpp: what holds after each.
use howlinux.Base.{
  ℕ, suc, ◌+◌, true, false, List, [], ◌∷◌, ◌≡◌, refl, subst, ◌∙◌, arith, Option, none, some, Bytes,
  beq, All, All-append, length, length-append, Bool-cases, inl, inr, is_empty,
}
use howlinux.Diagnostics.{Diagnostic, has_errors}
use howlinux.Files.{FileSystem}
use howlinux.Knowledge.{KnowledgeEntry}
use howlinux.Knowledge.Reported.{
  IsReported, one_warning, has_errors-append, is_empty-append, append-IsReported,
}
use howlinux.Knowledge.Entry.{Loading, load_entry}
use howlinux.Knowledge.Sound.{IsComplete, IsSound, load_entry-IsSound}
use howlinux.Knowledge.Ids.{IsNew, AreDistinct, append-AreDistinct}
use howlinux.Knowledge.Load.{
  Candidates, no_candidates, skip, first_source, insert_entry, add_loaded, add_below,
  add_candidates, relative_components,
}

-- After `n` candidates.
pub record IsAfter (n : ℕ) (state : Candidates) : Type 0 where
  pub all_warnings : has_errors state.added ≡ false
  pub has_reason : is_empty state.added ≡ true → state.skipped ≡ 0
  pub complete : All IsComplete state.loaded
  pub distinct : AreDistinct state.loaded
  pub sources :
      (id : Bytes) → first_source state.first_source_by_id id ≡ none → IsNew id state.loaded
  pub counted : length state.loaded + state.skipped ≡ n

pub no_candidates-IsAfter : IsAfter 0 no_candidates
unfolding has_errors
no_candidates-IsAfter = record {
  all_warnings = refl;
  has_reason = λ h. refl;
  complete = tt;
  distinct = tt;
  sources = λ id h. tt;
  counted = refl;
}

skip-IsAfter :
    (n : ℕ) (state : Candidates) (added : List Diagnostic)
    → IsAfter n state
    → IsReported false added
    → IsAfter (suc n) (skip added state)
skip-IsAfter n state added s r = record {
  all_warnings =
      has_errors-append state.added added ∙ ground (arith, s.all_warnings, r.all_warnings);
  has_reason =
      λ h. absurd (ground (arith, h, is_empty-append state.added added, r.has_reason refl));
  complete = s.complete;
  distinct = s.distinct;
  sources = s.sources;
  counted = omega (arith, s.counted);
}

first_source-new :
    (sources : List (Bytes × Bytes)) (key source id : Bytes)
    → first_source ((key, source) ∷ sources) id ≡ none
    → (beq key id ≡ false) × (first_source sources id ≡ none)
unfolding first_source
first_source-new sources key source id h = elim (Bool-cases (beq key id)) [
  | inl e ↦ absurd (ground (arith, h, e))
  | inr e ↦ (e, ground (arith, h, e))
]

insert_entry-IsAfter :
    (n : ℕ) (state : Candidates) (added : List Diagnostic) (entry : KnowledgeEntry)
    → (found : Option Bytes) → first_source state.first_source_by_id entry.id ≡ found
    → IsAfter n state
    → has_errors added ≡ false
    → IsComplete entry
    → IsAfter (suc n) (insert_entry state added entry found)
unfolding insert_entry
insert_entry-IsAfter n state added entry (some source) same s r complete =
    skip-IsAfter n state _ s (
      append-IsReported
        (record { all_warnings = r; has_reason = λ (h : true ≡ false). absurd (ground (arith, h)) })
        (one_warning false))
insert_entry-IsAfter n state added entry none same s r complete = record {
  all_warnings = has_errors-append state.added added ∙ ground (arith, s.all_warnings, r);
  has_reason = λ h. s.has_reason (ground (arith, h, is_empty-append state.added added));
  complete = All-append IsComplete state.loaded (entry ∷ []) s.complete (complete, tt);
  distinct = append-AreDistinct state.loaded entry s.distinct (s.sources entry.id same);
  sources = λ id h.
      let (new, old) =
        first_source-new state.first_source_by_id entry.id entry.source_directory id h in
      All-append (λ (e : KnowledgeEntry). beq e.id id ≡ false) state.loaded (entry ∷ [])
        (s.sources id old) (new, tt);
  counted = omega (arith, s.counted, length-append state.loaded (entry ∷ []));
}

add_loaded-IsAfter :
    (n : ℕ) (state : Candidates) (entry_directory category : Bytes) (loading : Loading)
    → IsAfter n state
    → IsSound entry_directory category loading
    → IsAfter (suc n) (add_loaded state loading)
unfolding add_loaded
add_loaded-IsAfter n state entry_directory category (added, none) s r =
    skip-IsAfter n state added s r
add_loaded-IsAfter n state entry_directory category (added, some entry) s (r, of) =
    insert_entry-IsAfter n state added entry (first_source state.first_source_by_id entry.id) refl s
      r of.complete

add_below-IsAfter :
    (files : FileSystem) (n : ℕ) (state : Candidates) (entry_directory : Bytes)
    → (components : List Bytes) → IsAfter n state
    → IsAfter (suc n) (add_below files state entry_directory components)
unfolding add_below
add_below-IsAfter files n state entry_directory [] s = skip-IsAfter n state _ s (one_warning false)
add_below-IsAfter files n state entry_directory (category ∷ []) s =
    skip-IsAfter n state _ s (one_warning false)
add_below-IsAfter files n state entry_directory (category ∷ name ∷ components) s =
    add_loaded-IsAfter n state entry_directory category (load_entry files entry_directory category)
      s (load_entry-IsSound entry_directory category files)

pub add_candidates-IsAfter :
    (files : FileSystem) (root : Bytes) (n : ℕ) (state : Candidates) (candidates : List Bytes)
    → IsAfter n state
    → IsAfter (n + length candidates) (add_candidates files root state candidates)
unfolding add_candidates
add_candidates-IsAfter files root n state [] s = subst (λ m. IsAfter m state) (omega arith) s
add_candidates-IsAfter files root n state (entry_directory ∷ candidates) s =
    subst (λ m. IsAfter m (add_candidates files root state (entry_directory ∷ candidates)))
      (omega arith)
      (add_candidates-IsAfter files root (suc n)
        (add_below files state entry_directory (relative_components files entry_directory root))
        candidates
        (add_below-IsAfter files n state entry_directory
          (relative_components files entry_directory root) s))
