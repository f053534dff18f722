-- ===== src/Models.antt =====
-- models.rs: what a coverage report holds, and the sums over it. A count is an `i64`, and its sums
-- wrap around as in a release build.
pub mod Paths
pub mod Merge
pub mod Builder
pub mod Build
pub mod Valid
pub mod Trace
pub mod Reorder
pub mod Totals
use mathlib.Core.List.{foldl}
use coverage_mcp.Prelude.{ℕ, String, Bool, true, false, ◌||◌, List, map, if◌then◌else◌}
use coverage_mcp.Prelude.Int.{ℤ, pos, ◌+i64◌, max_ℤ}
use coverage_mcp.Json.{Value, Fields, obj, put_fields}

pub record LineCoverage : Type 0 where
  pub file_path : String
  pub line_number : ℤ
  pub hits : ℤ
  pub covered : Bool
  pub count_line : Bool
  pub total_branches : ℤ
  pub covered_branches : ℤ
  pub total_functions : ℤ
  pub covered_functions : ℤ
  pub details : Value

abbrev merge_details : Value → Value → Value
merge_details (obj current) (obj extra) = obj (put_fields current extra)
merge_details current _ = current

-- `LineCoverage::merge`
unfoldable pub merge : LineCoverage → LineCoverage → LineCoverage
unfolding ◌+i64◌
merge row other = record {
  file_path = row.file_path;
  line_number = row.line_number;
  hits = if other.count_line then max_ℤ row.hits other.hits else row.hits;
  covered = if other.count_line then row.covered || other.covered else row.covered;
  count_line = row.count_line || other.count_line;
  total_branches = row.total_branches +i64 other.total_branches;
  covered_branches = row.covered_branches +i64 other.covered_branches;
  total_functions = row.total_functions +i64 other.total_functions;
  covered_functions = row.covered_functions +i64 other.covered_functions;
  details = merge_details row.details other.details;
}

pub record FileCoverage : Type 0 where
  pub file_path : String
  pub total_lines : ℤ
  pub covered_lines : ℤ
  pub total_branches : ℤ
  pub covered_branches : ℤ
  pub total_functions : ℤ
  pub covered_functions : ℤ
  pub total_regions : ℤ
  pub covered_regions : ℤ
  pub raw_metrics : Value

pub record TestCoverageObservation : Type 0 where
  pub test_name : String
  pub kind : String
  pub file_path : String
  pub line_number : ℤ
  pub region_key : String

pub record CoverageReport : Type 0 where
  pub format : String
  pub report_path : String
  pub files : List FileCoverage
  pub lines : List LineCoverage
  pub test_names : List String
  pub test_coverage : List TestCoverageObservation
  pub warnings : List String
  pub metadata : Value

-- `Iterator::sum`
unfoldable pub sum_i64 : List ℤ → ℤ
unfolding ◌+i64◌
sum_i64 = foldl (λ acc x. acc +i64 x) (pos 0)

unfoldable pub total_lines : CoverageReport → ℤ
unfolding sum_i64
total_lines r = sum_i64 (map (λ (f : FileCoverage). f.total_lines) r.files)

unfoldable pub covered_lines : CoverageReport → ℤ
unfolding sum_i64
covered_lines r = sum_i64 (map (λ (f : FileCoverage). f.covered_lines) r.files)

unfoldable pub total_branches : CoverageReport → ℤ
unfolding sum_i64
total_branches r = sum_i64 (map (λ (f : FileCoverage). f.total_branches) r.files)

unfoldable pub covered_branches : CoverageReport → ℤ
unfolding sum_i64
covered_branches r = sum_i64 (map (λ (f : FileCoverage). f.covered_branches) r.files)

unfoldable pub total_functions : CoverageReport → ℤ
unfolding sum_i64
total_functions r = sum_i64 (map (λ (f : FileCoverage). f.total_functions) r.files)

unfoldable pub covered_functions : CoverageReport → ℤ
unfolding sum_i64
covered_functions r = sum_i64 (map (λ (f : FileCoverage). f.covered_functions) r.files)

unfoldable pub total_regions : CoverageReport → ℤ
unfolding sum_i64
total_regions r = sum_i64 (map (λ (f : FileCoverage). f.total_regions) r.files)

unfoldable pub covered_regions : CoverageReport → ℤ
unfolding sum_i64
covered_regions r = sum_i64 (map (λ (f : FileCoverage). f.covered_regions) r.files)
