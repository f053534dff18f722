-- ===== src/Examples.antt =====
-- The theorems at concrete inputs.
mod Reports
mod Config
mod Lock
mod Pool
mod Parser
mod Load
mod Composite
mod Inventory
mod Artifacts
mod Find
mod Compare
use coverage_mcp.Prelude.{
  ℕ, suc, ◌*◌, unwrap_or, arith, String, ◌≡◌, ◌≤◌, refl, Bool, true, false, Option, none, some,
  List, [], ◌∷◌, str_eq, length, count, inl, if◌then◌else◌,
}
use coverage_mcp.Prelude.Int.{ℤ, pos, ◌≤ℤ◌}
use coverage_mcp.Order.{text_ord, int_ord, pair_ord}
use coverage_mcp.BTree
use coverage_mcp.BTree.{values}
use coverage_mcp.Error.{AppResult, ok, err}
use coverage_mcp.Json.{Value, Items, null, str, obj, end, field, arr, item, nil, int}
use coverage_mcp.Models.{LineCoverage, FileCoverage, CoverageReport, total_lines, covered_lines}
use coverage_mcp.Models.Paths.{FileSystem}
use coverage_mcp.Models.Builder.{CoverageBuilder, new}
use coverage_mcp.Models.Build.{build, is_counted, is_covered}
use coverage_mcp.Models.Valid.{IsValid, new-IsValid}
use coverage_mcp.Models.Trace.{LineRecord, line, test_name, calls, calls-IsValid, add_record}
use coverage_mcp.Models.Reorder.{SameLine, add_record_comm}
use coverage_mcp.Models.Totals.{build-totals}
use coverage_mcp.Query.{
  lines, Measurement, unverified, CompareRequest, FindRequest, counts, limited, regression,
  Observations, metric,
}
use coverage_mcp.Query.Observe.{measurement_observations, observations}
use coverage_mcp.Query.Observe.Keyed.{IsKeyed, observations-IsKeyed}
use coverage_mcp.Query.Groups.{Group, sorted_groups, show_groups, groups}
use coverage_mcp.Query.Find.{FindAnswer, missing_rows, find_answer}
use coverage_mcp.Query.Find.Ranking.{IsRanked, groups-IsRanked}
use coverage_mcp.Query.Find.Groups.{total_count, total_count-groups}
use coverage_mcp.Query.Bounded.{Data, bounded}
use coverage_mcp.Query.Bounded.Fits.{IsPage, pop_from-IsPage}
use coverage_mcp.Query.Bounded.Loop.{Outcome, bounded-Outcome}
use coverage_mcp.Query.Pages.{call_find}
use coverage_mcp.Query.Pages.Read.{missing_groups}
use coverage_mcp.Query.Pages.Whole.{Reads, read_pages-whole, IsFittingPage, call_find-IsFittingPage}
use coverage_mcp.Query.Compare.{CompareAnswer, Compared, compared, combined, compare_answer}
use coverage_mcp.Query.Compare.Call.{compare}
use coverage_mcp.Query.Compare.Verdict.{IsRegression, compare-IsRegression}
use coverage_mcp.Query.Compare.Itself.{IsUnchanged, compare-IsUnchanged}
use coverage_mcp.Query.Incremental.Combine.{Answer, Increment, compare_incremental}
use coverage_mcp.Query.Incremental.Accounting.{IsAccounted}
use coverage_mcp.Query.Incremental.Accounting.Answers.{compare_incremental-AccountsFor}

abbrev fs : FileSystem
fs = record { canonicalize = λ path. some path }

abbrev row : ℤ → Bool → LineCoverage
row n covered = record {
  file_path = "src/a.rs";
  line_number = n;
  hits = if covered then pos 1 else pos 0;
  covered = covered;
  count_line = true;
  total_branches = pos 0;
  covered_branches = pos 0;
  total_functions = pos 0;
  covered_functions = pos 0;
  details = null;
}

abbrev file : ℤ → FileCoverage
file covered = record {
  file_path = "src/a.rs";
  total_lines = pos 2;
  covered_lines = covered;
  total_branches = pos 0;
  covered_branches = pos 0;
  total_functions = pos 0;
  covered_functions = pos 0;
  total_regions = pos 0;
  covered_regions = pos 0;
  raw_metrics = null;
}

abbrev report : Bool → Bool → CoverageReport
report first second = record {
  format = "lcov";
  report_path = "report.lcov";
  files = file (pos 1) ∷ [];
  lines = row (pos 1) first ∷ row (pos 2) second ∷ [];
  test_names = [];
  test_coverage = [];
  warnings = [];
  metadata = null;
}

abbrev measurement : String → Bool → Bool → Measurement
measurement reference first second = record {
  reference = reference;
  report = report first second;
  context = null;
  source_state = unverified;
  native = none;
}

abbrev base : Measurement
base = measurement "base.lcov" true false

abbrev batch : Measurement
batch = measurement "batch.lcov" false true

abbrev load : Option String → Option String → AppResult Measurement
load (some reference) suite = if str_eq reference "base.lcov" then ok base else ok batch
load none suite = ok base

abbrev demangle : String → Option String
demangle symbol = none

abbrev compare_request : CompareRequest
compare_request = record {
  measurement = "batch.lcov";
  baseline = "base.lcov";
  query = none;
  metric = some "lines";
  scope = some "incremental";
  previous = [];
  limit = 5;
}

abbrev ok_value {ℓ} : {A : Type ℓ} → A → AppResult A → A
ok_value d (ok a) = a
ok_value d (err e) = d

abbrev list_size : List Group → ℕ
list_size groups = 6000 * length groups

abbrev no_answer : Answer
no_answer = record {
  status = limited;
  reason = "";
  measurement = counts base.report lines;
  baseline = counts base.report lines;
  incremental = none;
  gained = [];
  gained_group_count = 0;
  remaining = [];
  remaining_group_count = 0;
}

abbrev joined : Answer
joined =
    ok_value no_answer
      (compare_incremental fs load demangle "/repo" compare_request batch base lines)

joined_lem :
    compare_incremental fs load demangle "/repo" compare_request batch base lines ≡ ok joined
unfolding compare_incremental text_ord
joined_lem = refl

abbrev no_increment : Increment
no_increment = record {
  metric = lines;
  is_verified = false;
  baseline_scope = "";
  previous_batches = 0;
  accepted = record { covered = 0; total = 0; missing = 0 };
  batch_covered = 0;
  newly_covered = 0;
  already_covered = 0;
  combined = record { covered = 0; total = 0; missing = 0 };
  gain_percentage_points = record { numerator = 0; denominator = 1 };
  remaining_gap_reduction_percent = record { numerator = 0; denominator = 1 };
}

abbrev joined_numbers : Increment
joined_numbers = unwrap_or joined.incremental no_increment

joined_numbers_lem : joined.incremental ≡ some joined_numbers
unfolding compare_incremental text_ord
joined_numbers_lem = refl

compare_incremental-AccountsFor_example : IsAccounted (counts base.report lines) joined_numbers
compare_incremental-AccountsFor_example =
    compare_incremental-AccountsFor fs load demangle "/repo" compare_request batch base lines joined
      joined_lem joined_numbers joined_numbers_lem
