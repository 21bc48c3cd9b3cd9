-- ===== src/Tests/App.antt =====
-- The theorems on src/app.cpp, at a root with one entry.
use howlinux.Base.{
  ◌≤◌, true, false, List, [], ◌∷◌, ◌≡◌, refl, arith, none, some, Bytes, codes, beq, blt,
}
use howlinux.Base.Sort.{sort_by}
use howlinux.Yaml.{answer, null, document}
use howlinux.Files.{join_path}
use howlinux.Concepts.Load.{ConceptFile}
use howlinux.Knowledge.Scan.{visit, visit_child}
use howlinux.Knowledge.Scan.Tree.{HasDepth, tree_size}
use howlinux.Cli.Parse.{parse_command_line}
use howlinux.App.Resolve.{resolve_knowledge_path}
use howlinux.App.{run_application}
use howlinux.App.Outcome.{Surroundings, Outcome, returned}
use howlinux.App.Ends.{root_of, run_application-returned}
use howlinux.App.Json.{reads_knowledge}
use howlinux.App.Json.Line.{run_application-is_json_line}
use howlinux.Render.Json.Grammar.{is_json_line}
use howlinux.Tests.Load.{files}
use howlinux.Tests.Search.{numbers, numbers-IsOrdered}
use howlinux.Tests.Render.{printing, printing-IsPrinting}

abbrev pub no_file : Bytes → ConceptFile
no_file path = record {
  path = path;
  exists = answer false;
  is_regular_file = answer false;
  loaded = document null;
}

abbrev surroundings : Surroundings
surroundings = record {
  files = files;
  variable = none;
  version = codes "1";
  data_directory = codes "share";
  no_color = none;
  term = some (codes "xterm");
  is_terminal = false;
  concept_file = no_file;
}

abbrev arguments : List Bytes
arguments = codes "--knowledge" ∷ codes "k" ∷ codes "--json" ∷ codes "list" ∷ []

root-HasDepth : HasDepth files 3 (root_of surroundings arguments (codes "/b") [])
unfolding visit beq resolve_knowledge_path parse_command_line join_path sort_by visit_child blt
root-HasDepth = ((tt, tt), tt)

root-size : tree_size files 3 (root_of surroundings arguments (codes "/b") []) ≤ 3
unfolding visit beq resolve_knowledge_path parse_command_line join_path sort_by visit_child blt
root-size = omega arith

run_application-returned_example :
    (outcome : Outcome) × (run_application numbers printing surroundings 3 arguments (codes "/b") []
      ≡ returned outcome)
    × (outcome.exit_code ≤ 3)
run_application-returned_example =
    run_application-returned numbers printing numbers-IsOrdered surroundings 3 3 arguments
      (codes "/b") [] root-HasDepth root-size

abbrev ran :
    (outcome : Outcome) × (run_application numbers printing surroundings 3 arguments (codes "/b") []
      ≡ returned outcome)
    × (outcome.exit_code ≤ 3)
ran =
    run_application-returned numbers printing numbers-IsOrdered surroundings 3 3 arguments
      (codes "/b") [] root-HasDepth root-size

accepted : (parse_command_line arguments).ok ≡ true
unfolding parse_command_line
accepted = refl

asks_json : (parse_command_line arguments).options.json ≡ true
unfolding parse_command_line
asks_json = refl

reads : reads_knowledge (parse_command_line arguments).options.command ≡ true
unfolding parse_command_line
reads = refl

run_application-is_json_line_example : is_json_line ran.0.output ≡ true
run_application-is_json_line_example =
    run_application-is_json_line numbers printing printing-IsPrinting surroundings 3 arguments
      (codes "/b") [] ran.0 accepted asks_json reads ran.1
