-- ===== src/Models/Builder.antt =====
-- `CoverageBuilder` of models.rs.
use coverage_mcp.Prelude.{
  String, Bool, false, ◌||◌, Option, none, some, [], unwrap_or, if◌then◌else◌,
}
use coverage_mcp.Prelude.Int.{ℤ, pos, max_ℤ, ltb_ℤ, leb_ℤ}
use coverage_mcp.Order.{text_ord, int_ord, pair_ord}
use coverage_mcp.BTree
use coverage_mcp.BTree.{BTreeMap, BTreeSet, keys, values}
use coverage_mcp.Json.{Value, Fields, end, get_field, put_fields, as_i64}
use coverage_mcp.Models.{LineCoverage, merge}
use coverage_mcp.Text.{trim, is_empty}
use coverage_mcp.Models.Paths.{FileSystem, normalize_report_path}

-- test name, kind, path, line and region key, compared in this order
abbrev pub TestKey : Type 0
TestKey = String × (String × (String × (ℤ × String)))

pub record CoverageBuilder : Type 0 where
  pub repo_path : Option String
  pub lines : BTreeMap (String × ℤ) LineCoverage
  pub test_names : BTreeSet String
  pub test_coverage : BTreeSet TestKey
  pub file_metrics : BTreeMap String Fields
  pub normalized_paths : BTreeMap String String

abbrev pub new : Option String → CoverageBuilder
new repo_path = record {
  repo_path = repo_path;
  lines = [];
  test_names = [];
  test_coverage = [];
  file_metrics = [];
  normalized_paths = [];
}

-- `value.max(0)`
abbrev at_least_0 : ℤ → ℤ
at_least_0 z = max_ℤ z (pos 0)

-- The row that a record of a report gives, under its normalized path.
unfoldable pub row_of : String → ℤ → ℤ → Option Bool → Bool → ℤ → ℤ → ℤ → ℤ → Value → LineCoverage
row_of path line_number hits covered count_line total_branches covered_branches total_functions
      covered_functions details =
    let line_hits = if count_line then at_least_0 hits else pos 0 in
    record {
      file_path = path;
      line_number = line_number;
      hits = line_hits;
      covered = if count_line then unwrap_or covered (ltb_ℤ (pos 0) line_hits) else false;
      count_line = count_line;
      total_branches = at_least_0 total_branches;
      covered_branches = at_least_0 covered_branches;
      total_functions = at_least_0 total_functions;
      covered_functions = at_least_0 covered_functions;
      details = details;
    }

-- `get_mut` and `merge`, or `insert`.
unfoldable pub put_row : CoverageBuilder → LineCoverage → CoverageBuilder
unfolding BTree.upsert merge
put_row b row = record b {
  lines =
      BTree.upsert b.lines (row.file_path, row.line_number) (λ existing. merge existing row) row;
}

module _ (fs : FileSystem) where
  -- `normalized_paths.entry(file_path).or_insert_with(..)`: the name that is kept, or a new one.
  unfoldable pub normalized : CoverageBuilder → String → String
  unfolding BTree.get
  normalized b path = elim (BTree.get b.normalized_paths path) [
    | some name ↦ name
    | none ↦ normalize_report_path fs path b.repo_path
  ]

  unfoldable pub remember : CoverageBuilder → String → CoverageBuilder
  unfolding BTree.upsert
  remember b path = record b {
    normalized_paths =
        BTree.upsert b.normalized_paths path (λ name. name)
          (normalize_report_path fs path b.repo_path);
  }

  unfoldable pub add_line :
      CoverageBuilder
      → String
      → ℤ
      → ℤ
      → Option Bool
      → Bool
      → ℤ
      → ℤ
      → ℤ
      → ℤ
      → Value
      → CoverageBuilder
  unfolding normalized remember row_of put_row
  add_line b path line_number hits covered count_line total_branches covered_branches
        total_functions covered_functions details =
      if leb_ℤ line_number (pos 0)
      then b
      else put_row (remember b path) (
          row_of (normalized b path) line_number hits covered count_line total_branches
            covered_branches total_functions covered_functions details)

  unfoldable pub add_file_metrics : CoverageBuilder → String → Fields → CoverageBuilder
  unfolding normalized remember BTree.upsert
  add_file_metrics b path metrics =
      let b' = remember b path in
      record b' {
        file_metrics =
            BTree.upsert b'.file_metrics (normalized b path) (λ old. put_fields old metrics)
              (put_fields end metrics);
      }

-- `add_test_name` after its `trim`
unfoldable pub put_test_name : CoverageBuilder → String → CoverageBuilder
unfolding BTree.add
put_test_name b name =
    if is_empty name then b else record b { test_names = BTree.add b.test_names name }

unfoldable pub add_test_name : CoverageBuilder → String → CoverageBuilder
unfolding put_test_name trim
add_test_name b test_name = put_test_name b (trim test_name)

unfoldable pub add_test_observation :
    FileSystem → CoverageBuilder → String → String → String → ℤ → String → CoverageBuilder
unfolding add_test_name normalized remember BTree.add trim
add_test_observation fs b test_name kind path line_number region_key =
    let name = trim test_name in
    let kind' = trim kind in
    if is_empty name || is_empty kind' || leb_ℤ line_number (pos 0)
    then b
    else let b' = remember fs (add_test_name b name) path in
      record b' {
        test_coverage =
            BTree.add b'.test_coverage
              (name, (kind', (normalized fs b path, (line_number, region_key))));
      }

-- `metrics.remove(key)`, where it is an integer, or else the fallback; never negative.
unfoldable pub metric_i64 : Fields → String → ℤ → ℤ
metric_i64 metrics key fallback =
    at_least_0
      (unwrap_or (elim (get_field metrics key) [ none ↦ none | some v ↦ as_i64 v ]) fallback)
