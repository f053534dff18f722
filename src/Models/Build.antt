-- ===== src/Models/Build.antt =====
-- `CoverageBuilder::build` of models.rs.
use coverage_mcp.Prelude.{String, Bool, ◌&&◌, List, [], ◌∷◌, map, count, unwrap_or}
use coverage_mcp.Prelude.Int.{pos}
use coverage_mcp.Order.{text_ord}
use coverage_mcp.BTree
use coverage_mcp.BTree.{BTreeMap, BTreeSet, keys, values}
use coverage_mcp.BTree.Group.{group_by}
use coverage_mcp.Json.{Value, Fields, end, obj, drop_field}
use coverage_mcp.Models.{
  LineCoverage, FileCoverage, TestCoverageObservation, CoverageReport, sum_i64,
}
use coverage_mcp.Models.Builder.{CoverageBuilder, TestKey, metric_i64}

-- `by_file`: the rows of each path, in the order of the lines
unfoldable pub lines_by_file : List LineCoverage → BTreeMap String (List LineCoverage)
unfolding group_by
lines_by_file lines = group_by (λ (line : LineCoverage). line.file_path) [] lines

unfoldable drop_all : Fields → List String → Fields
drop_all fs [] = fs
drop_all fs (k ∷ ks) = drop_all (drop_field fs k) ks

abbrev pub is_counted : LineCoverage → Bool
is_counted line = line.count_line

abbrev pub is_covered : LineCoverage → Bool
is_covered line = line.count_line && line.covered

-- The totals of one file: a producer's own number where its metrics hold one, or else what the rows
-- add up to. What is left of the metrics is kept.
unfoldable file_coverage : String → List LineCoverage → Fields → FileCoverage
unfolding metric_i64 sum_i64 drop_all
file_coverage path rows metrics = record {
  file_path = path;
  total_lines = metric_i64 metrics "total_lines" (pos (count is_counted rows));
  covered_lines = metric_i64 metrics "covered_lines" (pos (count is_covered rows));
  total_branches =
      metric_i64 metrics "total_branches"
        (sum_i64 (map (λ (l : LineCoverage). l.total_branches) rows));
  covered_branches =
      metric_i64 metrics "covered_branches"
        (sum_i64 (map (λ (l : LineCoverage). l.covered_branches) rows));
  total_functions =
      metric_i64 metrics "total_functions"
        (sum_i64 (map (λ (l : LineCoverage). l.total_functions) rows));
  covered_functions =
      metric_i64 metrics "covered_functions"
        (sum_i64 (map (λ (l : LineCoverage). l.covered_functions) rows));
  total_regions = metric_i64 metrics "total_regions" (pos 0);
  covered_regions = metric_i64 metrics "covered_regions" (pos 0);
  raw_metrics = obj (
      drop_all metrics (
        "total_lines" ∷ "covered_lines" ∷ "total_branches" ∷ "covered_branches" ∷ "total_functions"
        ∷ "covered_functions" ∷ "total_regions" ∷ "covered_regions" ∷ []));
}

abbrev test_observation : TestKey → TestCoverageObservation
test_observation (name, (kind, (path, (line, key)))) = record {
  test_name = name;
  kind = kind;
  file_path = path;
  line_number = line;
  region_key = key;
}

-- `paths`: every file with a row or with metrics, in the order of their names.
unfoldable pub report_paths : CoverageBuilder → List String
unfolding lines_by_file BTree.add_all
report_paths b =
    keys (
      BTree.add_all (BTree.add_all [] (keys (lines_by_file (values b.lines))))
        (keys b.file_metrics))

unfoldable pub report_file : CoverageBuilder → String → FileCoverage
unfolding lines_by_file file_coverage BTree.get
report_file b path =
    file_coverage path (unwrap_or (BTree.get (lines_by_file (values b.lines)) path) [])
      (unwrap_or (BTree.get b.file_metrics path) end)

unfoldable pub build : CoverageBuilder → String → String → List String → Value → CoverageReport
unfolding report_paths report_file
build b format report_path warnings metadata = record {
  format = format;
  report_path = report_path;
  files = map (report_file b) (report_paths b);
  lines = values b.lines;
  test_names = keys b.test_names;
  test_coverage = map test_observation (keys b.test_coverage);
  warnings = warnings;
  metadata = metadata;
}
