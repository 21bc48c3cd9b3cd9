-- ===== src/Tests/Cli.antt =====
-- The theorems on src/cli.cpp at concrete command lines.
use howlinux.Base.{
  true, not, ◌&&◌, List, [], ◌∷◌, ◌++◌, ◌≡◌, refl, some, none, leb, if◌then◌else◌, Bytes, codes,
  all, is_empty,
}
use howlinux.Query.Chars.{is_ascii_digit}
use howlinux.Cli.Options.{default_options, maximum_limit}
use howlinux.Cli.Limit.{parse_limit, decimal, parse_limit-decimal}
use howlinux.Cli.Parse.{search_for, parse_command_line}
use howlinux.Cli.Parse.Scan.{ParseState, start, scan, finished}
use howlinux.Cli.Parse.Words.{parse-dashes}
use howlinux.Cli.Parse.Steps.{IsParsed}
use howlinux.Cli.Parse.Valid.{parse-IsParsed}

parse_limit-decimal_example : parse_limit (codes "0042") ≡ (
    if not (is_empty (codes "0042"))
      && all is_ascii_digit (codes "0042")
      && leb 1 (decimal 0 (codes "0042"))
      && leb (decimal 0 (codes "0042")) maximum_limit
    then some (decimal 0 (codes "0042"))
    else none)
parse_limit-decimal_example = parse_limit-decimal (codes "0042")

abbrev before : List Bytes
before = codes "--limit=7" ∷ codes "--json" ∷ []

abbrev behind_before : ParseState
behind_before = record start { options = record default_options { limit = 7; json = true } }

scan-before : scan before start ≡ finished behind_before
unfolding parse_command_line
scan-before = refl

parse-dashes_example :
    parse_command_line (before ++ codes "--" ∷ codes "--raw" ∷ codes "list" ∷ [])
    ≡ search_for behind_before.options (codes "--raw" ∷ codes "list" ∷ [])
parse-dashes_example =
    parse-dashes before (codes "--raw") (codes "list" ∷ []) behind_before scan-before refl refl refl

parse-IsParsed_example :
    IsParsed (parse_command_line (codes "--json" ∷ codes "--raw" ∷ codes "list" ∷ []))
parse-IsParsed_example = parse-IsParsed (codes "--json" ∷ codes "--raw" ∷ codes "list" ∷ [])
