-- ===== src/Knowledge/Sound.antt =====
-- What `KnowledgeBase::loadEntry` of src/knowledge.cpp promises.
use howlinux.Base.{
  true, false, ◌&&◌, List, [], ◌∷◌, ◌++◌, map, ◌≡◌, refl, subst, ◌∙◌, arith, none, some, Bytes, blt,
  beq, Bool-cases, inl, inr, &&-eq-true, codes,
}
use howlinux.Base.Sort.{sort_by}
use howlinux.Diagnostics.{Diagnostic, has_errors}
use howlinux.Yaml.{
  undefined, null, scalar, sequence, mapping, Fields, Loaded, yaml_error, other_error, document,
}
use howlinux.Files.{Contents, cannot_open, bad_read, contents, FileSystem}
use howlinux.Knowledge.{KnowledgeEntry}
use howlinux.Knowledge.Reader.{
  warn, has_non_whitespace, is_portable_entry_id, validate_status, read_contents, find_field,
  metadata_description, content_description,
}
use howlinux.Knowledge.Metadata.{
  metadata_path, content_path, candidate_id, read_keys, EntryFields, read_fields,
}
use howlinux.Knowledge.Reported.{
  IsReported, nothing_added, one_warning, has_errors-append, append-IsReported,
  validate_status-IsReported, required_string-has_non_whitespace, read_keys-IsReported,
  read_fields-IsReported,
}
use howlinux.Knowledge.Entry.{
  Loading, behind, unknown_warnings, id_warnings, add_content, read_content, load_fields,
  load_mapping, load_parsed, load_text, load_files, load_entry,
}

-- The required fields and the content are not blank.
pub record IsComplete (entry : KnowledgeEntry) : Type 0 where
  pub id : has_non_whitespace entry.id ≡ true
  pub title : has_non_whitespace entry.title ≡ true
  pub type : has_non_whitespace entry.type ≡ true
  pub content : has_non_whitespace entry.content ≡ true

pub record IsOf (entry_directory category : Bytes) (entry : KnowledgeEntry) : Type 0 where
  pub complete : IsComplete entry
  pub source : entry.source_directory ≡ entry_directory
  pub category' : entry.category ≡ category

-- Only warnings are added; there is one, or there is a complete entry of this directory and category.
abbrev pub IsSound : Bytes → Bytes → Loading → Type 0
IsSound entry_directory category (added, none) = IsReported false added
IsSound entry_directory category (added, some entry) =
    (has_errors added ≡ false) × IsOf entry_directory category entry

-- The required fields that are read so far.
record HasFields (entry_directory category : Bytes) (entry : KnowledgeEntry) : Type 0 where
  id : has_non_whitespace entry.id ≡ true
  title : has_non_whitespace entry.title ≡ true
  type : has_non_whitespace entry.type ≡ true
  source : entry.source_directory ≡ entry_directory
  category' : entry.category ≡ category

all_warnings-IsReported : {xs : List Diagnostic} → has_errors xs ≡ false → IsReported true xs
all_warnings-IsReported h = record {
  all_warnings = h;
  has_reason = λ f. absurd (ground (arith, f));
}

module _ (entry_directory category : Bytes) where
  behind-IsSound :
      (before : List Diagnostic) (loading : Loading)
      → has_errors before ≡ false
      → IsSound entry_directory category loading
      → IsSound entry_directory category (behind before loading)
  behind-IsSound before (added, none) h r = append-IsReported (all_warnings-IsReported h) r
  behind-IsSound before (added, some entry) h (r, rest) =
      (has_errors-append before added ∙ ground (arith, h, r), rest)

  map-warn :
      (path entry_id : Bytes) (message : Bytes → Bytes) (xs : List Bytes)
      → has_errors (map (λ x. warn path entry_id (message x)) xs) ≡ false
  unfolding has_errors
  map-warn path entry_id message [] = refl
  map-warn path entry_id message (x ∷ xs) = map-warn path entry_id message xs

  id_warnings-all : (id : Bytes) → has_errors (id_warnings entry_directory id) ≡ false
  unfolding id_warnings has_errors
  id_warnings-all id = elim (Bool-cases (is_portable_entry_id id)) [
    | inl e ↦ elim (Bool-cases (beq id (candidate_id entry_directory))) [
      | inl f ↦ rw (e, f) refl
      | inr f ↦ rw (e, f) refl
    ]
    | inr e ↦ elim (Bool-cases (beq id (candidate_id entry_directory))) [
      | inl f ↦ rw (e, f) refl
      | inr f ↦ rw (e, f) refl
    ]
  ]

  add_content-IsSound :
      (entry : KnowledgeEntry) (content : Bytes)
      → HasFields entry_directory category entry
      → IsSound entry_directory category (add_content entry_directory entry (some content))
  unfolding add_content has_errors
  add_content-IsSound entry content h = elim (Bool-cases (has_non_whitespace content)) [
    | inl e ↦ rw e (
      refl,
      record {
        complete = record { id = h.id; title = h.title; type = h.type; content = e };
        source = h.source;
        category' = h.category';
      },
    )
    | inr e ↦ rw e (one_warning false)
  ]

  read_content-IsSound :
      (read : Contents) (entry : KnowledgeEntry)
      → HasFields entry_directory category entry
      → let (added, content) =
          read_contents read (content_path entry_directory) entry.id content_description in
        IsSound entry_directory category (behind added (add_content entry_directory entry content))
  unfolding read_contents add_content
  read_content-IsSound cannot_open entry h = one_warning false
  read_content-IsSound bad_read entry h = one_warning false
  read_content-IsSound (contents content) entry h =
      behind-IsSound [] (add_content entry_directory entry (some content))
        nothing_added.all_warnings (add_content-IsSound entry content h)

  read_fields-HasFields :
      (metadata : Fields)
      → let fields = read_fields entry_directory category metadata in
        fields.valid ≡ true → HasFields entry_directory category fields.entry
  unfolding read_fields
  read_fields-HasFields metadata h =
      let fields = read_fields entry_directory category metadata in
      let path = metadata_path entry_directory in
      let own = candidate_id entry_directory in
      let node = find_field metadata in
      let blank = λ (i name : Bytes). required_string-has_non_whitespace path i name (node name) in
      let (valid, rest) = &&-eq-true _ _ h in
      let (valid', rest') = &&-eq-true _ _ rest in
      let (valid'', _) = &&-eq-true _ _ rest' in
      record {
        id = blank own (codes "id") valid;
        title = blank fields.diagnostic_id (codes "title") valid';
        type = blank fields.diagnostic_id (codes "type") valid'';
        source = refl;
        category' = refl;
      }

  unknown_warnings-all :
      (id : Bytes) (unknown : List Bytes)
      → has_errors (unknown_warnings entry_directory id unknown) ≡ false
  unfolding unknown_warnings
  unknown_warnings-all id unknown =
      map-warn (metadata_path entry_directory) id
        (λ name. codes "unknown metadata field '" ++ (name ++ codes "' was ignored"))
        (sort_by blt unknown)

  load_fields-IsSound :
      (files : FileSystem) (unknown : List Bytes) (fields : EntryFields)
      → IsReported fields.valid fields.added
      → (fields.valid ≡ true → HasFields entry_directory category fields.entry)
      → IsSound entry_directory category (load_fields files entry_directory unknown fields)
  unfolding load_fields read_content
  load_fields-IsSound files unknown fields reported has_fields =
      let before = fields.added ++ unknown_warnings entry_directory fields.diagnostic_id unknown in
      let warned =
        has_errors-append fields.added
          (unknown_warnings entry_directory fields.diagnostic_id unknown)
        ∙ ground
            (arith, reported.all_warnings, unknown_warnings-all fields.diagnostic_id unknown) in
      elim (Bool-cases fields.valid) [
        | inl e ↦ rw e (
            behind-IsSound before _ warned (
              behind-IsSound (id_warnings entry_directory fields.entry.id)
                (read_content files entry_directory fields.entry) (id_warnings-all fields.entry.id)
                (read_content-IsSound (files.read (content_path entry_directory)) fields.entry
                  (has_fields e))))
        | inr e ↦ rw e (
            append-IsReported
              (append-IsReported (subst (λ v. IsReported v fields.added) e reported)
                (all_warnings-IsReported (unknown_warnings-all fields.diagnostic_id unknown)))
              nothing_added)
      ]

  load_mapping-IsSound :
      (files : FileSystem) (metadata : Fields)
      → IsSound entry_directory category (load_mapping files entry_directory category metadata)
  unfolding load_mapping
  load_mapping-IsSound files metadata =
      let keys = read_keys entry_directory metadata [] in
      let reported = read_keys-IsReported entry_directory metadata [] in
      elim (Bool-cases keys.valid) [
        | inl e ↦ rw e (
            behind-IsSound keys.added _ reported.all_warnings (
              load_fields-IsSound files keys.unknown (read_fields entry_directory category metadata)
                (read_fields-IsReported entry_directory category metadata)
                (read_fields-HasFields metadata)))
        | inr e ↦ rw e (subst (λ v. IsReported v keys.added) e reported)
      ]

  load_parsed-IsSound :
      (files : FileSystem) (loaded : Loaded)
      → IsSound entry_directory category (load_parsed files entry_directory category loaded)
  unfolding load_parsed
  load_parsed-IsSound files (yaml_error what) = one_warning false
  load_parsed-IsSound files (other_error what) = one_warning false
  load_parsed-IsSound files (document (mapping metadata)) = load_mapping-IsSound files metadata
  load_parsed-IsSound files (document undefined) = one_warning false
  load_parsed-IsSound files (document null) = one_warning false
  load_parsed-IsSound files (document (scalar value)) = one_warning false
  load_parsed-IsSound files (document (sequence nodes)) = one_warning false

  load_files-IsSound :
      (files : FileSystem) (read : Contents)
      → let (added, metadata_text) =
          read_contents read
            (metadata_path entry_directory)
            (candidate_id entry_directory)
            metadata_description in
        IsSound entry_directory category
          (behind added (load_text files entry_directory category metadata_text))
  unfolding read_contents load_text
  load_files-IsSound files cannot_open = one_warning false
  load_files-IsSound files bad_read = one_warning false
  load_files-IsSound files (contents text') = load_parsed-IsSound files (files.parse_yaml text')

  -- `loadEntry` adds only warnings. It returns an entry whose identifier, title, type and content are
  -- not blank and which has the directory and the category of the call, or nothing, with a warning.
  pub load_entry-IsSound :
      (files : FileSystem)
      → IsSound entry_directory category (load_entry files entry_directory category)
  unfolding load_entry load_files
  load_entry-IsSound files =
      let (metadata_added, metadata_valid) =
        validate_status (files.symlink_status (metadata_path entry_directory))
          (metadata_path entry_directory) (candidate_id entry_directory) metadata_description in
      let (content_added, content_valid) =
        validate_status (files.symlink_status (content_path entry_directory))
          (content_path entry_directory) (candidate_id entry_directory) content_description in
      let reported =
        append-IsReported
          (validate_status-IsReported (files.symlink_status (metadata_path entry_directory))
            (metadata_path entry_directory) (candidate_id entry_directory) metadata_description)
          (validate_status-IsReported (files.symlink_status (content_path entry_directory))
            (content_path entry_directory) (candidate_id entry_directory) content_description) in
      elim (Bool-cases (metadata_valid && content_valid)) [
        | inl e ↦ rw e (
            behind-IsSound (metadata_added ++ content_added) _ reported.all_warnings
              (load_files-IsSound files (files.read (metadata_path entry_directory))))
        | inr e ↦ rw e (
            append-IsReported
              (subst (λ v. IsReported v (metadata_added ++ content_added)) e reported)
              nothing_added)
      ]
