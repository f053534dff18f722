-- ===== src/Parser/Lcov.antt =====
-- `parse_lcov` of src/parser.rs.
use coverage_mcp.Prelude.{
  ℕ, String, Bool, true, false, ltb, str_eq, Option, none, some, unwrap_or, List, [], ◌∷◌, ◌++◌,
  length, get_elem?, is_nil, if_let, if◌then◌else◌,
}
use coverage_mcp.Prelude.Int.{ℤ, pos, ltb_ℤ}
use coverage_mcp.Order.{text_ord}
use coverage_mcp.BTree
use coverage_mcp.BTree.{BTreeMap}
use coverage_mcp.Error.{AppResult, ok, ◌>>=◌, ◌>>◌, ok_or, reject_if, fold_result}
use coverage_mcp.Models.{CoverageReport}
use coverage_mcp.Models.Paths.{FileSystem}
use coverage_mcp.Models.Builder.{CoverageBuilder, new, add_test_name, add_test_observation}
use coverage_mcp.Models.Build.{build}
use coverage_mcp.Text.{is_empty, trim, strip_text, concat}
use coverage_mcp.Text.Split.{lines, split, split_once}
use coverage_mcp.Parser.{
  Decoders, parse_error, utf8_text, no_details, add_counted, add_branches, add_function,
}
use coverage_mcp.Parser.Number.{safe_i64}

-- What the loop of `parse_lcov` carries from line to line.
pub record LcovState : Type 0 where
  pub builder : CoverageBuilder
  pub current_test : Option String
  pub current_file : Option String
  pub function_lines : BTreeMap String ℤ

abbrev pub lcov_start : Option String → LcovState
lcov_start repo = record {
  builder = new repo;
  current_test = none;
  current_file = none;
  function_lines = [];
}

-- a part of a record, unless it is missing or empty
abbrev given : Option String → Option String
given none = none
given (some part) = if is_empty part then none else some part

abbrev pub one_if : Bool → ℤ
one_if true = pos 1
one_if false = pos 0

abbrev pub warn_if_empty : CoverageReport → CoverageReport
warn_if_empty report =
    if is_nil report.lines
    then record report {
      warnings = report.warnings ++ "LCOV report contained no DA/BRDA/FNDA records." ∷ [];
    }
    else report

module _ (dec : Decoders) (fs : FileSystem) where
  -- an observation of the current test, if there is one and it has hits
  unfoldable pub observe :
      CoverageBuilder → Option String → Bool → String → String → ℤ → String → CoverageBuilder
  observe b (some test) true kind file line key = add_test_observation fs b test kind file line key
  observe b _ _ kind file line key = b

  unfoldable pub lcov_test_name : LcovState → String → LcovState
  lcov_test_name s name =
      if is_empty name
      then record s { current_test = none }
      else record s { builder = add_test_name s.builder name; current_test = some name }

  unfoldable pub lcov_line : LcovState → String → String → AppResult LcovState
  lcov_line s file payload = do
    line_text ←
        ok_or (given (get_elem? (split b',' payload) 0))
          (parse_error "LCOV DA record is missing a line number")
    hits_text ←
        ok_or (given (get_elem? (split b',' payload) 1))
          (parse_error "LCOV DA record is missing hit data")
    line ← safe_i64 dec (some line_text)
    hits ← safe_i64 dec (some hits_text)
    ok (record s {
      builder =
          observe (add_counted fs s.builder file line hits none) s.current_test (ltb_ℤ (pos 0) hits)
            "line" file line "line";
    })

  unfoldable pub lcov_function : LcovState → String → AppResult LcovState
  lcov_function s payload = do
    (line_text, name) ← ok_or (split_once b',' payload) (parse_error "LCOV FN record is malformed")
    line ← safe_i64 dec (some line_text)
    ok (record s { function_lines = BTree.insert s.function_lines name line })

  unfoldable pub lcov_function_hits :
      LcovState → String → String → String → Option ℤ → AppResult LcovState
  lcov_function_hits s file hits_text name none = ok s
  lcov_function_hits s file hits_text name (some line) = do
    hits ← safe_i64 dec (some hits_text)
    ok (record s {
      builder =
          observe (add_function fs s.builder file line hits) s.current_test (ltb_ℤ (pos 0) hits)
            "function" file line name;
    })

  unfoldable pub lcov_function_data : LcovState → String → String → AppResult LcovState
  lcov_function_data s file payload = do
    (hits_text, name) ←
        ok_or (split_once b',' payload) (parse_error "LCOV FNDA record is malformed")
    lcov_function_hits s file hits_text name (BTree.get s.function_lines name)

  -- one if the branch was taken
  unfoldable pub branch_covered : String → AppResult ℤ
  branch_covered taken =
      if str_eq taken "-"
      then ok (pos 0)
      else safe_i64 dec (some taken) >>= λ hits. ok (one_if (ltb_ℤ (pos 0) hits))

  -- `add_lcov_branch`
  unfoldable pub add_lcov_branch : LcovState → String → List String → AppResult LcovState
  add_lcov_branch s file parts = do
    reject_if (ltb (length parts) 4) (parse_error "LCOV BRDA record is malformed")
    covered ← branch_covered (unwrap_or (get_elem? parts 3) "")
    line ← safe_i64 dec (get_elem? parts 0)
    ok (record s {
      builder =
          observe (add_branches fs s.builder file line (pos 1) covered) s.current_test
            (ltb_ℤ (pos 0) covered) "branch" file line
            (concat (
              "block="
              ∷ unwrap_or (get_elem? parts 1) ""
              ∷ ";branch="
              ∷ unwrap_or (get_elem? parts 2) ""
              ∷ []));
    })

  -- a record that belongs to a file
  unfoldable pub lcov_record : LcovState → String → String → AppResult LcovState
  lcov_record s file line =
      if_let (strip_text line "DA:") (λ payload. lcov_line s file payload)
        (if_let (strip_text line "FN:") (λ payload. lcov_function s payload)
          (if_let (strip_text line "FNDA:") (λ payload. lcov_function_data s file payload)
            (if_let (strip_text line "BRDA:")
              (λ payload. add_lcov_branch s file (split b',' payload)) (ok s))))

  -- a record behind `TN:` and `SF:`; outside a file it is passed over
  unfoldable pub lcov_other : LcovState → String → Option String → AppResult LcovState
  lcov_other s line none = ok s
  lcov_other s line (some file) = lcov_record s file line

  -- a line with the white space off
  unfoldable pub lcov_step : LcovState → String → AppResult LcovState
  lcov_step s line =
      if is_empty line
      then ok s
      else if_let (strip_text line "TN:") (λ name. ok (lcov_test_name s (trim name)))
          (if_let (strip_text line "SF:")
            (λ file. ok (record s { current_file = some file; function_lines = [] }))
            (if str_eq line "end_of_record"
              then ok (record s { current_test = none; current_file = none; function_lines = [] })
              else lcov_other s line s.current_file))

  unfoldable pub lcov_lines : LcovState → List String → AppResult LcovState
  lcov_lines s rows = fold_result (λ t raw. lcov_step t (trim raw)) s rows

  unfoldable pub parse_lcov : String → List ℕ → Option String → AppResult CoverageReport
  parse_lcov path bytes repo = do
    text ← utf8_text dec bytes
    s ← lcov_lines (lcov_start repo) (lines text)
    ok (warn_if_empty (build s.builder "lcov" path [] no_details))
