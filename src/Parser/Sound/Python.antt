-- ===== src/Parser/Sound/Python.antt =====
-- `parse_coveragepy_json` keeps the builder valid.
use coverage_mcp.Prelude.{◌+◌, String, Option, none, some, List, [], ◌∷◌}
use coverage_mcp.Prelude.Int.{ℤ, pos}
use coverage_mcp.BTree.{BTreeSet}
use coverage_mcp.Error.{fold_result}
use coverage_mcp.Json.{Value}
use coverage_mcp.Models.Builder.{new}
use coverage_mcp.Parser.{add_branches}
use coverage_mcp.Parser.CoveragePy.{
  Branches, add_covered_line, add_covered_lines, add_branch_lines, add_summary, add_python_file,
}
use coverage_mcp.Error.Ensures.{Ensures, Ensures-fold, ensures_rules}
use coverage_mcp.Models.Paths.{FileSystem}
use coverage_mcp.Models.Builder.{CoverageBuilder}
use coverage_mcp.Models.Valid.{IsValid, new-IsValid, add_file_metrics-IsValid}
use coverage_mcp.Parser.{Decoders}
use coverage_mcp.Parser.Sound.{add_counted-IsValid, add_branches-IsValid}

module _ (dec : Decoders) (fs : FileSystem) where
  add_covered_lines-IsValid :
      (b : CoverageBuilder) (file : String) (executed : BTreeSet ℤ) (rows : List ℤ)
      → IsValid fs b
      → IsValid fs (add_covered_lines dec fs b file executed rows)
  unfolding add_covered_lines add_covered_line
  add_covered_lines-IsValid b file executed [] v = v
  add_covered_lines-IsValid b file executed (line ∷ rest) v =
      add_covered_lines-IsValid (add_covered_line dec fs b file executed line) file executed rest
        (add_counted-IsValid fs b file line _ _ v)

  add_branch_lines-IsValid :
      (b : CoverageBuilder) (file : String) (branches : Branches)
      → IsValid fs b
      → IsValid fs (add_branch_lines dec fs b file branches)
  unfolding add_branch_lines
  add_branch_lines-IsValid b file [] v = v
  add_branch_lines-IsValid b file ((line, (missing, covered)) ∷ rest) v =
      add_branch_lines-IsValid (add_branches fs b file line (pos (missing + covered)) (pos covered))
        file rest (add_branches-IsValid fs b file line _ _ v)

  add_summary-IsValid :
      (b : CoverageBuilder) (file : String) (summary : Option Value)
      → IsValid fs b
      → IsValid fs (add_summary dec fs b file summary)
  unfolding add_summary
  add_summary-IsValid b file none v = v
  add_summary-IsValid b file (some summary) v = add_file_metrics-IsValid fs b file _ v

  add_python_file-Keeps :
      (b : CoverageBuilder) (entry : String × Value)
      → IsValid fs b
      → Ensures (IsValid fs) (add_python_file dec fs b entry)
  unfolding add_python_file
  add_python_file-Keeps b (file, value) v =
      search
        (ensures_rules, add_summary-IsValid, add_branch_lines-IsValid, add_covered_lines-IsValid)
        depth 16

  pub python_files-Keeps :
      (repo : Option String) (entries : List (String × Value))
      → Ensures (IsValid fs) (fold_result (add_python_file dec fs) (new repo) entries)
  python_files-Keeps repo entries =
      Ensures-fold _ _ entries add_python_file-Keeps (new-IsValid fs repo)
