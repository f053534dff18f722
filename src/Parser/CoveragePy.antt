-- ===== src/Parser/CoveragePy.antt =====
-- `parse_coveragepy_json` of src/parser.rs.
use coverage_mcp.Prelude.{
  ℕ, suc, ◌+◌, String, Bool, true, false, Option, none, some, List, [], ◌∷◌, get_elem?,
}
use coverage_mcp.Prelude.Int.{ℤ, pos}
use coverage_mcp.Order.{text_ord, int_ord}
use coverage_mcp.BTree
use coverage_mcp.BTree.{BTreeMap, BTreeSet, keys}
use coverage_mcp.Error.{AppResult, ok, ◌>>=◌, ok_or, fold_result}
use coverage_mcp.Json.{
  Value, Fields, null, obj, field, end, as_array, as_object, pairs, get_field, index,
}
use coverage_mcp.Models.{CoverageReport}
use coverage_mcp.Models.Paths.{FileSystem}
use coverage_mcp.Models.Builder.{CoverageBuilder, new, add_file_metrics}
use coverage_mcp.Models.Build.{build}
use coverage_mcp.Text.{concat}
use coverage_mcp.Parser.{Decoders, parse_error, json_value, add_counted, add_branches}
use coverage_mcp.Parser.Lcov.{one_if}
use coverage_mcp.Parser.Number.{value_i64}

-- `coverage_array`: the array under a key, if there is one
abbrev array_of : String → Option Value → AppResult (Option (List Value))
array_of key none = ok none
array_of key (some null) = ok none
array_of key (some value) =
    ok_or (as_array value)
      (parse_error (concat ("coverage.py " ∷ key ∷ " must be an array or null" ∷ [])))
    >>= λ values. ok (some values)

unfoldable pub coverage_array : Fields → String → AppResult (Option (List Value))
coverage_array object key = array_of key (get_field object key)

-- the branches of a line: those that were missed, and those that were taken
abbrev pub Branches : Type 0
Branches = BTreeMap ℤ (ℕ × ℕ)

abbrev count_branch : Bool → ℕ × ℕ → ℕ × ℕ
count_branch true (missing, covered) = (missing, suc covered)
count_branch false (missing, covered) = (suc missing, covered)

module _ (dec : Decoders) (fs : FileSystem) where
  -- `numeric_line_numbers`
  unfoldable pub numeric_line_numbers : List Value → AppResult (BTreeSet ℤ)
  numeric_line_numbers values =
      fold_result (λ numbers v. value_i64 dec v >>= λ line. ok (BTree.add numbers line)) [] values

  unfoldable pub numbers_of : Option (List Value) → AppResult (BTreeSet ℤ)
  numbers_of none = ok []
  numbers_of (some values) = numeric_line_numbers values

  unfoldable pub add_covered_line : CoverageBuilder → String → BTreeSet ℤ → ℤ → CoverageBuilder
  add_covered_line b file executed line =
      let covered = BTree.contains executed line in
      add_counted fs b file line (one_if covered) (some covered)

  unfoldable pub add_covered_lines :
      CoverageBuilder → String → BTreeSet ℤ → List ℤ → CoverageBuilder
  add_covered_lines b file executed [] = b
  add_covered_lines b file executed (line ∷ rest) =
      add_covered_lines (add_covered_line b file executed line) file executed rest

  -- one entry of `executed_branches` or `missing_branches`
  unfoldable pub add_branch_entry : String → Bool → Branches → Value → AppResult Branches
  add_branch_entry key covered branches value = do
    items ←
        ok_or (as_array value)
          (parse_error (concat ("coverage.py " ∷ key ∷ " entry must be an array" ∷ [])))
    first ←
        ok_or (get_elem? items 0)
          (parse_error (concat ("coverage.py " ∷ key ∷ " entry is missing a line number" ∷ [])))
    line ← value_i64 dec first
    ok (BTree.upsert branches line (count_branch covered) (count_branch covered (0, 0)))

  unfoldable pub add_branch_entries :
      String → Bool → Branches → Option (List Value) → AppResult Branches
  add_branch_entries key covered branches none = ok branches
  add_branch_entries key covered branches (some values) =
      fold_result (add_branch_entry key covered) branches values

  unfoldable pub add_branch_lines : CoverageBuilder → String → Branches → CoverageBuilder
  add_branch_lines b file [] = b
  add_branch_lines b file ((line, (missing, covered)) ∷ rest) =
      add_branch_lines (add_branches fs b file line (pos (missing + covered)) (pos covered)) file
        rest

  unfoldable pub add_summary : CoverageBuilder → String → Option Value → CoverageBuilder
  add_summary b file none = b
  add_summary b file (some summary) =
      add_file_metrics fs b file (field "coveragepy_summary" summary end)

  -- one entry of `files`
  unfoldable pub add_python_file : CoverageBuilder → String × Value → AppResult CoverageBuilder
  add_python_file b (file, value) = do
    payload ←
        ok_or (as_object value)
          (parse_error (concat ("coverage.py file entry must be an object: " ∷ file ∷ [])))
    executed_lines ← coverage_array payload "executed_lines"
    missing_lines ← coverage_array payload "missing_lines"
    executed ← numbers_of executed_lines
    missing ← numbers_of missing_lines
    executed_branches ← coverage_array payload "executed_branches"
    missing_branches ← coverage_array payload "missing_branches"
    taken ← add_branch_entries "executed_branches" true [] executed_branches
    branches ← add_branch_entries "missing_branches" false taken missing_branches
    ok (
        add_summary
          (add_branch_lines
            (add_covered_lines b file executed (keys (BTree.add_all executed (keys missing)))) file
            branches)
          file (get_field payload "summary"))

  unfoldable pub parse_coveragepy_json : String → List ℕ → Option String → AppResult CoverageReport
  parse_coveragepy_json path bytes repo = do
    document ← json_value dec bytes
    files ←
        ok_or (as_object (index document "files"))
          (parse_error "coverage.py JSON report must contain a 'files' object")
    b ← fold_result add_python_file (new repo) (pairs files)
    ok (
        build b "coveragepy" path
          ("coverage.py JSON reports line coverage as covered/missing, not execution counts." ∷ [])
          (obj (field "meta" (index document "meta") end)))
