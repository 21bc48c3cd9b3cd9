-- ===== src/Files.antt =====
-- What the program asks of the file system, as a record of the answers. A path is its text; its parts
-- are parted by `/`.
use howlinux.Base.{
  Bool, false, ◌||◌, List, [], ◌∷◌, ◌++◌, ◌≡◌, refl, if◌then◌else◌, ◌==◌, Bytes, codes, is_empty,
}
use howlinux.Yaml.{Answer, Loaded}

-- `std::filesystem::file_type`
pub data FileType : Type 0 where
  regular directory symlink other not_found none_type : FileType

-- `status` and `symlink_status` with a `std::error_code`: `no_such_file_or_directory` is apart.
pub data Status : Type 0 where
  has_type : FileType → Status
  missing : Bytes → Status
  status_error : Bytes → Status

-- A `directory_iterator`: it cannot be made, or it yields names, and it may end by an error.
pub data Listing : Type 0 where
  unreadable_directory : Bytes → Listing
  listed : List Bytes → Listing
  broken : List Bytes → Bytes → Listing

-- A file read to its end through `std::ifstream`.
pub data Contents : Type 0 where
  cannot_open bad_read : Contents
  contents : Bytes → Contents

pub record FileSystem : Type 0 where
  pub status : Bytes → Status
  pub symlink_status : Bytes → Status
  pub list_directory : Bytes → Listing
  pub read : Bytes → Contents
  pub exists : Bytes → Answer Bool
  pub weakly_canonical : Bytes → Answer Bytes
  pub lexically_normal : Bytes → Bytes
  pub lexically_relative : Bytes → Bytes → List Bytes
  pub parse_yaml : Bytes → Loaded

abbrev ends_with_slash : Bytes → Bool
ends_with_slash [] = false
ends_with_slash (c ∷ []) = c == b'/'
ends_with_slash (c ∷ d ∷ path) = ends_with_slash (d ∷ path)

abbrev pub is_absolute : Bytes → Bool
is_absolute [] = false
is_absolute (c ∷ path) = c == b'/'

-- `operator/` of two paths.
unfoldable pub join_path : Bytes → Bytes → Bytes
join_path left right =
    if is_absolute right
    then right
    else if is_empty left || ends_with_slash left
    then left ++ right
    else left ++ b'/' ∷ right

-- `filename`; the first argument is what was read since the last slash.
unfoldable pub filename_from : Bytes → Bytes → Bytes
filename_from name [] = name
filename_from name (c ∷ path) = filename_from (if c == b'/' then [] else name ++ c ∷ []) path

unfoldable pub filename : Bytes → Bytes
unfolding filename_from
filename path = filename_from [] path

-- `parent_path`: the text in front of the last slash, or the slash where it is the first byte. The
-- last argument is what is read; `seen` stands in front of it, and `parent` in front of the last slash.
unfoldable pub parent_from : Bytes → Bytes → Bytes → Bytes
parent_from parent seen [] = parent
parent_from parent seen (c ∷ path) =
    let here = if is_empty seen then b'/' ∷ [] else seen in
    parent_from (if c == b'/' then here else parent) (seen ++ c ∷ []) path

unfoldable pub parent_path : Bytes → Bytes
unfolding parent_from
parent_path path = parent_from [] [] path

examples :
    (join_path (codes "a/b") (codes "c") ≡ codes "a/b/c")
    × (join_path (codes "/") (codes "c") ≡ codes "/c")
    × (filename (codes "a/bc") ≡ codes "bc")
    × (parent_path (codes "/a/b/c.md") ≡ codes "/a/b")
    × (parent_path (codes "/c.md") ≡ codes "/")
    × (parent_path (codes "c.md") ≡ [])
unfolding join_path filename parent_path
examples = (refl, refl, refl, refl, refl, refl)
