-- ===== src/Knowledge/Entry.antt =====
-- `KnowledgeBase::loadEntry` of src/knowledge.cpp: the diagnostics that it adds, and the entry.
use howlinux.Base.{
  ◌&&◌, List, [], ◌∷◌, ◌++◌, Option, none, some, map, if◌then◌else◌, Bytes, codes, beq, blt,
}
use howlinux.Base.Sort.{sort_by}
use howlinux.Diagnostics.{Diagnostic}
use howlinux.Yaml.{mapping, Fields, Loaded, yaml_error, other_error, document}
use howlinux.Files.{FileSystem}
use howlinux.Knowledge.{KnowledgeEntry}
use howlinux.Knowledge.Reader.{
  metadata_description, content_description, warn, has_non_whitespace, is_portable_entry_id,
  validate_status, read_contents,
}
use howlinux.Knowledge.Metadata.{
  metadata_path, content_path, candidate_id, read_keys, EntryFields, read_fields,
}

abbrev pub Loading : Type 0
Loading = List Diagnostic × Option KnowledgeEntry

-- Diagnostics that were added before.
abbrev pub behind : List Diagnostic → Loading → Loading
behind before (added, entry) = (before ++ added, entry)

-- The warnings on the fields that are not known, in their order.
unfoldable pub unknown_warnings : Bytes → Bytes → List Bytes → List Diagnostic
unknown_warnings entry_directory diagnostic_id unknown =
    map
      (λ name.
        warn (metadata_path entry_directory) diagnostic_id
          (codes "unknown metadata field '" ++ (name ++ codes "' was ignored")))
      (sort_by blt unknown)

-- The warnings on the identifier.
unfoldable pub id_warnings : Bytes → Bytes → List Diagnostic
unfolding is_portable_entry_id
id_warnings entry_directory id =
    (if is_portable_entry_id id
      then []
      else warn (metadata_path entry_directory) id
          (codes "id should use lowercase ASCII letters, digits and hyphens only")
        ∷ [])
    ++ (if beq id (candidate_id entry_directory)
        then []
        else warn (metadata_path entry_directory) id (
            codes "id does not match the entry directory name '"
            ++ (candidate_id entry_directory ++ codes "'"))
          ∷ [])

-- The content, where it could be read.
unfoldable pub add_content : Bytes → KnowledgeEntry → Option Bytes → Loading
add_content entry_directory entry none = ([], none)
add_content entry_directory entry (some content) =
    if has_non_whitespace content then ([], some (record entry { content = content })) else (
      warn (content_path entry_directory) entry.id (codes "content file must not be empty") ∷ [],
      none,
    )

unfoldable pub read_content : FileSystem → Bytes → KnowledgeEntry → Loading
unfolding read_contents add_content
read_content files entry_directory entry =
    let (added, content) =
      read_contents (files.read (content_path entry_directory)) (content_path entry_directory)
        entry.id content_description in
    behind added (add_content entry_directory entry content)

-- An entry whose fields are read.
unfoldable pub load_fields : FileSystem → Bytes → List Bytes → EntryFields → Loading
unfolding unknown_warnings id_warnings read_content
load_fields files entry_directory unknown fields =
    behind (fields.added ++ unknown_warnings entry_directory fields.diagnostic_id unknown) (
      if fields.valid
      then behind (id_warnings entry_directory fields.entry.id)
          (read_content files entry_directory fields.entry)
      else ([], none))

-- The mapping of the metadata.
unfoldable pub load_mapping : FileSystem → Bytes → Bytes → Fields → Loading
unfolding load_fields read_keys read_fields
load_mapping files entry_directory category metadata =
    let keys = read_keys entry_directory metadata [] in
    if keys.valid
    then behind keys.added (
        load_fields files entry_directory keys.unknown
          (read_fields entry_directory category metadata))
    else (keys.added, none)

abbrev metadata_warning : Bytes → Bytes → Loading
metadata_warning entry_directory message =
    (warn (metadata_path entry_directory) (candidate_id entry_directory) message ∷ [], none)

-- What `YAML::Load` makes of the text.
unfoldable pub load_parsed : FileSystem → Bytes → Bytes → Loaded → Loading
unfolding load_mapping
load_parsed files entry_directory category (yaml_error what) =
    metadata_warning entry_directory (codes "invalid YAML: " ++ what)
load_parsed files entry_directory category (other_error what) =
    metadata_warning entry_directory (codes "cannot parse metadata: " ++ what)
load_parsed files entry_directory category (document (mapping metadata)) =
    load_mapping files entry_directory category metadata
load_parsed files entry_directory category (document _) =
    metadata_warning entry_directory (codes "metadata root must be a mapping")

unfoldable pub load_text : FileSystem → Bytes → Bytes → Option Bytes → Loading
unfolding load_parsed
load_text files entry_directory category none = ([], none)
load_text files entry_directory category (some text') =
    load_parsed files entry_directory category (files.parse_yaml text')

-- An entry with both files.
unfoldable pub load_files : FileSystem → Bytes → Bytes → Loading
unfolding load_text
load_files files entry_directory category =
    let (added, metadata_text) =
      read_contents (files.read (metadata_path entry_directory)) (metadata_path entry_directory)
        (candidate_id entry_directory) metadata_description in
    behind added (load_text files entry_directory category metadata_text)

-- `loadEntry`
unfoldable pub load_entry : FileSystem → Bytes → Bytes → Loading
unfolding load_files validate_status
load_entry files entry_directory category =
    let (metadata_added, metadata_valid) =
      validate_status (files.symlink_status (metadata_path entry_directory))
        (metadata_path entry_directory) (candidate_id entry_directory) metadata_description in
    let (content_added, content_valid) =
      validate_status (files.symlink_status (content_path entry_directory))
        (content_path entry_directory) (candidate_id entry_directory) content_description in
    behind (metadata_added ++ content_added) (
      if metadata_valid && content_valid
      then load_files files entry_directory category
      else ([], none))
