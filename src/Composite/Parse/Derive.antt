-- ===== src/Composite/Parse/Derive.antt =====
-- `derive_standard_regions` of src/composite.rs: the regions of a report that no artifact states.
use coverage_mcp.Prelude.{
  ℕ, String, Bool, true, false, Option, none, some, List, [], ◌∷◌, ◌++◌, map, filter, str_eq,
  get_elem?, if◌then◌else◌,
}
use coverage_mcp.Prelude.Int.{ℤ, pos, ltb_ℤ, ◌+i64◌}
use coverage_mcp.Error.{AppResult, ok, err, validation, ◌>>=◌, ◌>>◌, ok_or, reject_if, map_result}
use coverage_mcp.Json.{Value, Fields, bool, as_i64, as_array, as_object, get_field, pairs, lookup}
use coverage_mcp.Models.{LineCoverage}
use coverage_mcp.Models.Paths.{FileSystem, normalize_report_path}
use coverage_mcp.Text.{concat, show_ℤ}
use coverage_mcp.Parser.{Decoders}
use coverage_mcp.Parser.Lcov.{one_if}
use coverage_mcp.Parser.Select.{Files, parse_coverage_report}
use coverage_mcp.Composite.{CanonicalRegion}
use coverage_mcp.Composite.Parse.{
  artifact_value, array_at, required_object_string, positive_integer,
}

abbrev region_of : String → ℤ → ℤ → String → ℤ → Bool → CanonicalRegion
region_of path start end discriminator hits covered = record {
  path = path;
  logical_source_id = none;
  start_line = start;
  end_line = end;
  discriminator = discriminator;
  hits = hits;
  covered = covered;
  source_hash = none;
}

abbrev pub object_at : Option Value → Option Fields
object_at none = none
object_at (some value) = as_object value

abbrev pub count_of : Option Value → Option ℤ
count_of none = none
count_of (some value) = as_i64 value

-- all parts, in their order
abbrev pub flatten : List (List CanonicalRegion) → List CanonicalRegion
flatten [] = []
flatten (part ∷ parts) = part ++ flatten parts

abbrev number_at : Option Value → AppResult ℤ
number_at none = err (validation "canonical region number must be an integer")
number_at (some value) =
    ok_or (as_i64 value) (validation "canonical region number must be an integer")

unfoldable pub integer_array : Option Value → String → AppResult (List ℤ)
unfolding positive_integer map_result
integer_array value context =
    ok_or (array_at value) (validation (concat (context ∷ " must be an array" ∷ [])))
    >>= map_result (λ v. positive_integer (some v) context)

-- `location_line` of src/composite.rs
unfoldable pub position_line : Option Value → String → AppResult ℤ
unfolding positive_integer
position_line value context =
    ok_or (object_at value) (validation (concat (context ∷ " must be an object" ∷ [])))
    >>= λ object. positive_integer (get_field object "line") context

unfoldable pub python_region : String → Bool → ℤ → CanonicalRegion
unfolding concat show_ℤ
python_region path covered line =
    region_of path line line (concat ("python:line:" ∷ show_ℤ line ∷ [])) (one_if covered) covered

unfoldable pub line_region : String → LineCoverage → CanonicalRegion
unfolding concat show_ℤ
line_region format line =
    region_of line.file_path line.line_number line.line_number
      (concat (format ∷ ":line:" ∷ show_ℤ line.line_number ∷ [])) line.hits line.covered

module _ (dec : Decoders) (fs : FileSystem) (repo : Option String) where
  unfoldable pub python_file : String × Value → AppResult (List CanonicalRegion)
  unfolding integer_array python_region normalize_report_path
  python_file (file, value) = do
    payload ← ok_or (as_object value) (validation "coverage.py file payload must be an object")
    executed ← integer_array (get_field payload "executed_lines") "coverage.py executed_lines"
    missing ← integer_array (get_field payload "missing_lines") "coverage.py missing_lines"
    ok (
        map (python_region (normalize_report_path fs file repo) true) executed
        ++ map (python_region (normalize_report_path fs file repo) false) missing)

  unfoldable pub derive_coveragepy_regions : AppResult (List ℕ) → AppResult (List CanonicalRegion)
  unfolding python_file map_result
  derive_coveragepy_regions content = do
    value ← artifact_value dec content "invalid coverage.py JSON: "
    files ←
        ok_or (object_at (lookup value "files")) (validation "coverage.py JSON must contain files")
    parts ← map_result python_file (pairs files)
    ok (flatten parts)

  -- one statement of a file
  unfoldable pub statement_region : String → Fields → String × Value → AppResult CanonicalRegion
  unfolding position_line concat
  statement_region path counts (id, value) = do
    location ← ok_or (as_object value) (validation "Istanbul statement location must be an object")
    start ← position_line (get_field location "start") "Istanbul statement start"
    end ← position_line (get_field location "end") "Istanbul statement end"
    hits ←
        ok_or (count_of (get_field counts id))
          (validation (concat ("Istanbul statement count is missing: " ∷ id ∷ [])))
    reject_if (ltb_ℤ hits (pos 0)) (validation "Istanbul statement count must be non-negative")
    ok (
        region_of path start end (concat ("istanbul:statement:" ∷ id ∷ [])) hits
          (ltb_ℤ (pos 0) hits))

  unfoldable pub istanbul_file : String × Value → AppResult (List CanonicalRegion)
  unfolding statement_region map_result normalize_report_path
  istanbul_file (file, value) = do
    payload ← ok_or (as_object value) (validation "Istanbul file payload must be an object")
    statements ←
        ok_or (object_at (get_field payload "statementMap"))
          (validation "Istanbul file is missing statementMap")
    counts ←
        ok_or (object_at (get_field payload "s"))
          (validation "Istanbul file is missing statement counts")
    map_result (statement_region (normalize_report_path fs file repo) counts) (pairs statements)

  unfoldable pub derive_istanbul_regions : AppResult (List ℕ) → AppResult (List CanonicalRegion)
  unfolding istanbul_file map_result
  derive_istanbul_regions content = do
    value ← artifact_value dec content "invalid Istanbul JSON: "
    files ← ok_or (as_object value) (validation "Istanbul coverage must be an object keyed by file")
    parts ← map_result istanbul_file (pairs files)
    ok (flatten parts)

  -- A segment that begins a region with a count: the fourth and the fifth value are true.
  abbrev begins : List Value → Bool
  begins (_ ∷ _ ∷ _ ∷ bool true ∷ bool true ∷ _) = true
  begins _ = false

  abbrev segment_entries : List Value → List (List Value)
  segment_entries [] = []
  segment_entries (segment ∷ rest) =
      let more = segment_entries rest in
      elim (as_array segment) [
        | none ↦ more
        | some values ↦ if begins values then values ∷ more else more
      ]

  -- where a region ends: where the next begins, or one column on
  abbrev end_of : ℤ → ℤ → List (List Value) → AppResult (ℤ × ℤ)
  end_of line column [] = ok (line, column +i64 pos 1)
  end_of line column (next ∷ _) = do
    end_line ← number_at (get_elem? next 0)
    end_column ← number_at (get_elem? next 1)
    ok (end_line, end_column)

  unfoldable pub segment_regions : String → List (List Value) → AppResult (List CanonicalRegion)
  unfolding concat show_ℤ
  segment_regions path [] = ok []
  segment_regions path (values ∷ rest) = do
    line ← number_at (get_elem? values 0)
    column ← number_at (get_elem? values 1)
    hits ← number_at (get_elem? values 2)
    (end_line, end_column) ← end_of line column rest
    more ← segment_regions path rest
    ok (
        region_of path line end_line
          (concat (
            "llvm:"
            ∷ show_ℤ line
            ∷ ":"
            ∷ show_ℤ column
            ∷ ":"
            ∷ show_ℤ end_line
            ∷ ":"
            ∷ show_ℤ end_column
            ∷ []))
          hits (ltb_ℤ (pos 0) hits)
        ∷ more)

  unfoldable pub llvm_file : Value → AppResult (List CanonicalRegion)
  unfolding segment_regions required_object_string normalize_report_path
  llvm_file value = do
    object ← ok_or (as_object value) (validation "LLVM file must be an object")
    path ← required_object_string object "filename" "LLVM file"
    segments ←
        ok_or (array_at (get_field object "segments"))
          (validation "LLVM file must contain segments")
    segment_regions (normalize_report_path fs path repo) (segment_entries segments)

  unfoldable pub llvm_unit : Value → AppResult (List CanonicalRegion)
  unfolding llvm_file map_result
  llvm_unit value = do
    files ←
        ok_or (array_at (lookup value "files")) (validation "LLVM data entry must contain files")
    parts ← map_result llvm_file files
    ok (flatten parts)

  unfoldable pub derive_llvm_regions : AppResult (List ℕ) → AppResult (List CanonicalRegion)
  unfolding llvm_unit map_result
  derive_llvm_regions content = do
    value ← artifact_value dec content "invalid LLVM JSON: "
    units ← ok_or (array_at (lookup value "data")) (validation "LLVM JSON must contain data")
    parts ← map_result llvm_unit units
    ok (flatten parts)

  unfoldable pub derive_standard_regions :
      Files → String → String → AppResult (List CanonicalRegion)
  unfolding derive_coveragepy_regions derive_istanbul_regions derive_llvm_regions line_region
      parse_coverage_report
  derive_standard_regions files path format =
      if str_eq format "coveragepy"
      then derive_coveragepy_regions (files.content path)
      else if str_eq format "istanbul"
      then derive_istanbul_regions (files.content path)
      else if str_eq format "llvm"
      then derive_llvm_regions (files.content path)
      else parse_coverage_report dec fs files path format repo >>= λ report. ok (
          map (line_region format) (filter (λ (line : LineCoverage). line.count_line) report.lines))
