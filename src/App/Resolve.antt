-- ===== src/App/Resolve.antt =====
-- `resolveKnowledgePath` and `printHelp` of src/cli.cpp.
use howlinux.Base.{
  Bool, true, false, List, [], ◌∷◌, Option, none, some, if◌then◌else◌, Bytes, codes,
}
use howlinux.Yaml.{Answer, answer, failed}
use howlinux.Files.{directory, Status, has_type, FileSystem, is_absolute, join_path, parent_path}
use howlinux.Cli.Options.{CliOptions}
use howlinux.Render.Write.{Writer, ◌<<◌, put}
use howlinux.Render.Human.{newline}

abbrev canonical_or : FileSystem → Bytes → Answer Bytes → Bytes
canonical_or files combined (answer canonical) = canonical
canonical_or files combined (failed message) = files.lexically_normal combined

abbrev pub absolute : Bytes → Bytes → Bytes
absolute value current_directory =
    if is_absolute value then value else join_path current_directory value

-- `normalizedAbsolute`
unfoldable pub normalized_absolute : FileSystem → Bytes → Bytes → Bytes
normalized_absolute files value current_directory =
    let combined = absolute value current_directory in
    canonical_or files combined (files.weakly_canonical combined)

-- `isDirectory`, by the status of the path.
unfoldable pub is_directory : Status → Bool
is_directory (has_type directory) = true
is_directory _ = false

-- The first of these that is a directory.
unfoldable pub first_directory : FileSystem → List Bytes → Option Bytes
unfolding is_directory
first_directory files [] = none
first_directory files (candidate ∷ candidates) =
    if is_directory (files.status candidate)
    then some candidate
    else first_directory files candidates

abbrev pub or_path : Option Bytes → Bytes → Bytes
or_path none path = path
or_path (some candidate) path = candidate

-- The places behind the option and the variable of the environment.
unfoldable pub default_path : FileSystem → Bytes → Bytes → Bytes → Bytes
unfolding normalized_absolute first_directory
default_path files data_directory executable_path current_directory =
    let executable = normalized_absolute files executable_path current_directory in
    let executable_directory = parent_path executable in
    let fallback = join_path current_directory (codes "knowledge") in
    normalized_absolute files
      (or_path
        (first_directory files (
          join_path executable_directory (codes "knowledge")
          ∷ join_path
              (join_path (join_path (parent_path executable_directory) data_directory)
                (codes "howlinux"))
              (codes "knowledge")
          ∷ fallback
          ∷ []))
        fallback)
      current_directory

-- The variable, where it is set and not empty.
unfoldable pub environment_path : FileSystem → Bytes → Option Bytes → Bytes → Bytes → Bytes
unfolding default_path
environment_path files data_directory none executable_path current_directory =
    default_path files data_directory executable_path current_directory
environment_path files data_directory (some []) executable_path current_directory =
    default_path files data_directory executable_path current_directory
environment_path files data_directory (some (c ∷ path)) executable_path current_directory =
    normalized_absolute files (c ∷ path) current_directory

-- `resolveKnowledgePath`; `variable` is the value of `HOWLINUX_KNOWLEDGE`.
unfoldable pub resolve_knowledge_path :
    FileSystem → Bytes → Option Bytes → CliOptions → Bytes → Bytes → Bytes
unfolding environment_path
resolve_knowledge_path files data_directory variable options executable_path current_directory =
    if options.knowledge_path_explicit
    then normalized_absolute files options.knowledge_path current_directory
    else environment_path files data_directory variable executable_path current_directory

-- `printHelp`
unfoldable pub print_help : Bytes → Writer
print_help version =
    put (codes "howlinux ")
    << put version
    << put (codes " - offline Linux knowledge search")
    << newline
    << newline
    << put (codes "Usage:")
    << newline
    << put (codes "  howlinux [options] <query...>")
    << newline
    << put (codes "  howlinux [options] search <query...>")
    << newline
    << put (codes "  howlinux [options] list")
    << newline
    << put (codes "  howlinux [options] show <entry-id>")
    << newline
    << put (codes "  howlinux [options] validate [path]")
    << newline
    << newline
    << put (codes "Options:")
    << newline
    << put (codes "  -h, --help              Show this help and exit")
    << newline
    << put (codes "  -V, --version           Show the version and exit")
    << newline
    << put (codes "      --knowledge <path>  Use this knowledge directory")
    << newline
    << put (codes "      --limit <n>         Return at most n results (1-100, default 5)")
    << newline
    << put (codes "      --explain           Show ranking components and match reasons")
    << newline
    << put (codes "      --json              Emit stable, ANSI-free JSON")
    << newline
    << put (codes "      --raw               Show original Markdown without rendering")
    << newline
    << put (codes "      --                  Treat all following arguments as query text")
    << newline
    << newline
    << put (codes "Examples:")
    << newline
    << put (codes "  howlinux rename folder")
    << newline
    << put (codes "  howlinux --explain 'what does chmod 755 mean'")
    << newline
    << put (codes "  howlinux --knowledge /srv/howlinux/knowledge validate")
    << newline
    << put (codes "  howlinux search -- --recursive")
    << newline
    << newline
    << put (codes "howlinux reads local YAML/Markdown only. It never executes shown commands")
    << newline
    << put (codes "and never uses a network or generative AI.")
    << newline
