-- ===== src/Parser/Sound/Istanbul.antt =====
-- `parse_istanbul` keeps the builder valid.
use coverage_mcp.Prelude.{String, Option, none, some, List}
use coverage_mcp.Error.{fold_result, ◌>>=◌}
use coverage_mcp.Error.Ensures.{Ensures-err, Ensures-then}
use coverage_mcp.Json.{Value, Fields}
use coverage_mcp.Models.Builder.{new}
use coverage_mcp.Parser.Istanbul.{
  add_statement, add_istanbul_function, add_istanbul_branch, add_functions, add_istanbul_branches,
  add_istanbul_file,
}
use coverage_mcp.Error.Ensures.{Ensures, Ensures-ok, Ensures-fold, ensures_rules}
use coverage_mcp.Models.Paths.{FileSystem}
use coverage_mcp.Models.Builder.{CoverageBuilder}
use coverage_mcp.Models.Valid.{IsValid, new-IsValid}
use coverage_mcp.Parser.{Decoders}
use coverage_mcp.Parser.Sound.{add_counted-IsValid, add_branches-IsValid, add_function-IsValid}

module _ (dec : Decoders) (fs : FileSystem) where
  module _ (key file : String) (hits : Fields) where
    add_statement-Keeps :
        (b : CoverageBuilder) (entry : String × Value)
        → IsValid fs b
        → Ensures (IsValid fs) (add_statement dec fs key file hits b entry)
    unfolding add_statement
    add_statement-Keeps b (id, location) v = search (ensures_rules, add_counted-IsValid) depth 12

    add_istanbul_function-Keeps :
        (b : CoverageBuilder) (entry : String × Value)
        → IsValid fs b
        → Ensures (IsValid fs) (add_istanbul_function dec fs key file hits b entry)
    unfolding add_istanbul_function
    add_istanbul_function-Keeps b (id, function) v =
        search (ensures_rules, add_function-IsValid) depth 12

    add_istanbul_branch-Keeps :
        (b : CoverageBuilder) (entry : String × Value)
        → IsValid fs b
        → Ensures (IsValid fs) (add_istanbul_branch dec fs key file hits b entry)
    unfolding add_istanbul_branch
    add_istanbul_branch-Keeps b (id, branch) v =
        search (ensures_rules, add_branches-IsValid) depth 12

    statements-Keeps :
        (b : CoverageBuilder) (entries : List (String × Value))
        → IsValid fs b
        → Ensures (IsValid fs) (fold_result (add_statement dec fs key file hits) b entries)
    statements-Keeps b entries v = Ensures-fold _ b entries add_statement-Keeps v

    functions-Keeps :
        (b : CoverageBuilder) (entries : List (String × Value))
        → IsValid fs b
        → Ensures (IsValid fs) (fold_result (add_istanbul_function dec fs key file hits) b entries)
    functions-Keeps b entries v = Ensures-fold _ b entries add_istanbul_function-Keeps v

    branches-Keeps :
        (b : CoverageBuilder) (entries : List (String × Value))
        → IsValid fs b
        → Ensures (IsValid fs) (fold_result (add_istanbul_branch dec fs key file hits) b entries)
    branches-Keeps b entries v = Ensures-fold _ b entries add_istanbul_branch-Keeps v

  module _ (key file : String) where
    add_functions-Keeps :
        (b : CoverageBuilder) (table hits : Option Value)
        → IsValid fs b
        → Ensures (IsValid fs) (add_functions dec fs key file b table hits)
    unfolding add_functions
    add_functions-Keeps b none none v = Ensures-ok b v
    add_functions-Keeps b none (some hits) v = Ensures-err _
    add_functions-Keeps b (some table) none v = Ensures-err _
    add_functions-Keeps b (some table) (some hits) v =
        search (ensures_rules, functions-Keeps) depth 12

    add_istanbul_branches-Keeps :
        (b : CoverageBuilder) (table hits : Option Value)
        → IsValid fs b
        → Ensures (IsValid fs) (add_istanbul_branches dec fs key file b table hits)
    unfolding add_istanbul_branches
    add_istanbul_branches-Keeps b none none v = Ensures-ok b v
    add_istanbul_branches-Keeps b none (some hits) v = Ensures-err _
    add_istanbul_branches-Keeps b (some table) none v = Ensures-err _
    add_istanbul_branches-Keeps b (some table) (some hits) v =
        search (ensures_rules, branches-Keeps) depth 12

    -- the three maps of a file, one after the other
    maps-Keeps :
        (hits : Fields) (b : CoverageBuilder) (entries : List (String × Value))
        (function_map function_hits branch_map branch_hits : Option Value)
        → IsValid fs b
        → Ensures (IsValid fs) (
            fold_result (add_statement dec fs key file hits) b entries >>= λ statements.
            add_functions dec fs key file statements function_map function_hits >>= λ functions.
            add_istanbul_branches dec fs key file functions branch_map branch_hits)
    maps-Keeps hits b entries fm fh bm bh v =
        Ensures-then _ _ (statements-Keeps key file hits b entries v) λ s hs.
          Ensures-then _ _ (add_functions-Keeps s fm fh hs)
            λ f hf. add_istanbul_branches-Keeps f bm bh hf

  add_istanbul_file-Keeps :
      (b : CoverageBuilder) (entry : String × Value)
      → IsValid fs b
      → Ensures (IsValid fs) (add_istanbul_file dec fs b entry)
  unfolding add_istanbul_file
  add_istanbul_file-Keeps b (key, value) v = search (ensures_rules, maps-Keeps) depth 12

  pub istanbul_files-Keeps :
      (repo : Option String) (entries : List (String × Value))
      → Ensures (IsValid fs) (fold_result (add_istanbul_file dec fs) (new repo) entries)
  istanbul_files-Keeps repo entries =
      Ensures-fold _ _ entries add_istanbul_file-Keeps (new-IsValid fs repo)
