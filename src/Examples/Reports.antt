-- ===== src/Examples/Reports.antt =====
-- The theorems about builders, observations, pages and groups.
use coverage_mcp.Prelude.{
  ℕ, ◌*◌, unwrap_or, arith, ◌≡◌, ◌≤◌, refl, Bool, true, false, none, some, [], ◌∷◌, length, count,
  inl,
}
use coverage_mcp.Prelude.Int.{ℤ, pos, ◌≤ℤ◌}
use coverage_mcp.Order.{text_ord, int_ord, pair_ord}
use coverage_mcp.BTree
use coverage_mcp.BTree.{values}
use coverage_mcp.Error.{ok}
use coverage_mcp.Json.{Value, Items, null, str, obj, end, field, arr, item, nil, int}
use coverage_mcp.Models.{CoverageReport, total_lines, covered_lines}
use coverage_mcp.Models.Builder.{CoverageBuilder, new}
use coverage_mcp.Models.Build.{build, is_counted, is_covered}
use coverage_mcp.Models.Valid.{IsValid, new-IsValid}
use coverage_mcp.Models.Trace.{LineRecord, line, test_name, calls, calls-IsValid, add_record}
use coverage_mcp.Models.Reorder.{SameLine, add_record_comm}
use coverage_mcp.Models.Totals.{build-totals}
use coverage_mcp.Query.{Observations}
use coverage_mcp.Query.Observe.{observations}
use coverage_mcp.Query.Observe.Keyed.{IsKeyed, observations-IsKeyed}
use coverage_mcp.Query.Groups.{Group, sorted_groups, show_groups, groups}
use coverage_mcp.Query.Find.Ranking.{IsRanked, groups-IsRanked}
use coverage_mcp.Query.Find.Groups.{total_count, total_count-groups}
use coverage_mcp.Query.Bounded.{Data, bounded}
use coverage_mcp.Query.Bounded.Fits.{IsPage, pop_from-IsPage}
use coverage_mcp.Query.Bounded.Loop.{Outcome, bounded-Outcome}
use coverage_mcp.Examples.{fs, row, file, report, demangle, ok_value, list_size}

abbrev record_at : ℤ → ℤ → Bool → LineRecord
record_at n hits counted = record {
  path = "src/a.rs";
  line_number = n;
  hits = hits;
  covered = none;
  count_line = counted;
  total_branches = pos 2;
  covered_branches = pos 1;
  total_functions = pos 0;
  covered_functions = pos 0;
  details = null;
}

calls-IsValid_example :
    IsValid fs (calls fs (new none) (line (record_at (pos 1) (pos 3) true) ∷ test_name "t" ∷ []))
calls-IsValid_example =
    calls-IsValid fs none (line (record_at (pos 1) (pos 3) true) ∷ test_name "t" ∷ [])

add_record_comm_example :
    SameLine
      (BTree.get
        (add_record fs
          (add_record fs (new none) (record_at (pos 1) (pos 3) true))
          (record_at (pos 1) (pos 0) false)).lines
        ("src/a.rs", pos 1))
      (BTree.get
        (add_record fs
          (add_record fs (new none) (record_at (pos 1) (pos 0) false))
          (record_at (pos 1) (pos 3) true)).lines
        ("src/a.rs", pos 1))
add_record_comm_example =
    add_record_comm fs (new none) (new-IsValid fs none) (record_at (pos 1) (pos 3) true)
      (record_at (pos 1) (pos 0) false) ("src/a.rs", pos 1)

abbrev built : CoverageBuilder
built = record (new none) {
  lines = (("src/a.rs", pos 1), row (pos 1) true) ∷ (("src/a.rs", pos 2), row (pos 2) false) ∷ [];
}

abbrev built_report : CoverageReport
built_report = build built "lcov" "report.lcov" [] null

build-totals_example :
    (total_lines built_report ≡ pos (count is_counted built_report.lines))
    × (covered_lines built_report ≡ pos (count is_covered built_report.lines))
    × (covered_lines built_report ≤ℤ total_lines built_report)
build-totals_example = build-totals built "lcov" "report.lcov" [] null refl (omega arith)

abbrev int_item : ℕ → Items → Items
int_item n rest = item (int (pos n)) rest

abbrev region_row : Value
region_row = arr (
    int_item 1 (
      int_item 1 (int_item 2 (int_item 2 (int_item 5 (int_item 0 (int_item 0 (int_item 0 nil))))))))

abbrev llvm_function : Value
llvm_function = obj (
    field "filenames" (arr (item (str "src/a.rs") nil))
      (field "name" (str "f") (field "regions" (arr (item region_row nil)) end)))

abbrev llvm_report : CoverageReport
llvm_report = record (report true false) {
  files =
      record (file (pos 1)) {
        raw_metrics = obj (field "llvm_functions" (arr (item llvm_function nil)) end);
      }
      ∷ [];
}

abbrev llvm_rows : Observations
llvm_rows = ok_value [] (observations fs "/repo" llvm_report)

llvm_rows_lem : observations fs "/repo" llvm_report ≡ ok llvm_rows
unfolding observations text_ord
llvm_rows_lem = refl

llvm_rows-length : length llvm_rows ≡ 3
unfolding observations text_ord
llvm_rows-length = refl

observations-IsKeyed_example : IsKeyed llvm_rows
observations-IsKeyed_example = observations-IsKeyed fs "/repo" llvm_report llvm_rows llvm_rows_lem

abbrev gap : Group
gap = record {
  path = "src/a.rs";
  function = none;
  count = 1;
  unmeasured_reason = none;
  locations = [];
  locations_omitted = 0;
}

abbrev two_gaps : Data
two_gaps = record {
  groups = some (gap ∷ gap ∷ []);
  gained = none;
  remaining = none;
  next_offset = none;
  group_count = some 2;
}

abbrev data_size : Data → ℕ
data_size payload = 9000 * length (unwrap_or payload.groups [])

two_gaps-IsPage : IsPage (gap ∷ gap ∷ []) 0 two_gaps
two_gaps-IsPage = record {
  items = gap ∷ gap ∷ [];
  rest = [];
  shown = refl;
  split = refl;
  counted = refl;
  next = refl;
  progress = inl refl;
}

bounded-Outcome_example :
    Outcome data_size (IsPage (gap ∷ gap ∷ []) 0) (bounded data_size list_size two_gaps)
bounded-Outcome_example =
    bounded-Outcome data_size list_size (IsPage (gap ∷ gap ∷ []) 0)
      (pop_from-IsPage (gap ∷ gap ∷ []) 0) two_gaps two_gaps-IsPage

three_groups : (groups demangle (values llvm_rows) 5 0).1 ≤ 5
unfolding observations text_ord groups pair_ord int_ord
three_groups = omega arith

total_count-groups_example :
    total_count (groups demangle (values llvm_rows) 5 0).0 ≡ length (values llvm_rows)
total_count-groups_example = total_count-groups demangle (values llvm_rows) 5 three_groups

groups-IsRanked_example : IsRanked (show_groups demangle (sorted_groups (values llvm_rows)))
groups-IsRanked_example = groups-IsRanked demangle (values llvm_rows)
