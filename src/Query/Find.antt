-- ===== src/Query/Find.antt =====
-- `find` of query.rs, with `measurement_observations` behind it: one page of the missing
-- observations. `load` reads a report, and `demangle` is the `rustc-demangle` crate.
pub mod Groups
pub mod Ranking
use Prim.Native.String.{◌++◌}
use coverage_mcp.Prelude.{
  ℕ, ◌+◌, ◌-◌, ◌^◌, min, String, Bool, true, false, not, ◌&&◌, Option, none, some, List, [], ◌∷◌,
  map, length, any, filter, take, ltb, unwrap_or, is_some_and, if◌then◌else◌,
}
use coverage_mcp.Prelude.Int.{pos, leb_ℤ, ltb_ℤ}
use coverage_mcp.BTree.{values}
use coverage_mcp.Error.{AppResult, ok, err, ◌>>=◌, ◌>>◌, reject_if}
use coverage_mcp.Json.{Value, index, as_str}
use coverage_mcp.Models.Paths.{FileSystem}
use coverage_mcp.Query.{
  FindRequest, Metric, same_metric, Observation, Observations, SourceState, unverified,
  matches_receipt, changed_or_missing, Measurement, matches, validate, metric, Counts, counts,
  invalid,
}
use coverage_mcp.Query.Observe.{measurement_observations}
use coverage_mcp.Query.Groups.{Group, groups, take_chars}

pub record Summary : Type 0 where
  pub reference : String
  pub format : String
  pub coverage : Counts
  pub source : SourceState
  pub recorded_revision : Value
  pub build_id : Value
  pub tests : String

unfoldable pub summary : Measurement → Metric → Summary
unfolding counts
summary measurement metric = record {
  reference = measurement.reference;
  format = measurement.report.format;
  coverage = counts measurement.report metric;
  source = measurement.source_state;
  recorded_revision = index measurement.context "recorded_revision";
  build_id = index measurement.context "build_id";
  tests = unwrap_or (as_str (index measurement.context "test_status")) "unknown";
}

pub data Detail : Type 0 where
  incomplete measured detail_unavailable : Detail

pub record FindAnswer : Type 0 where
  pub status : Detail
  pub measurement : Summary
  pub groups : List Group
  pub group_count : ℕ
  pub next_offset : Option ℕ
  pub warnings : List String
  pub warnings_omitted : ℕ
  pub next_action : String

-- `usize::saturating_add`
abbrev pub max_usize : ℕ
max_usize = 18446744073709551615

abbrev pub saturating_add : ℕ → ℕ → ℕ
saturating_add a b = if ltb max_usize (a + b) then max_usize else a + b

-- the rows that a question is about: of its metric, without a hit, where it looks
unfoldable pub missing_rows : FindRequest → Metric → Observations → List Observation
unfolding matches
missing_rows request metric rows =
    filter
      (λ (row : Observation).
        same_metric row.kind metric
        && leb_ℤ row.hits (pos 0)
        && matches row request.query request.line)
      (values rows)

abbrev is_available : Metric → Observations → Bool
is_available metric rows = any (λ (row : Observation). same_metric row.kind metric) (values rows)

abbrev next_action : SourceState → Bool → String
next_action changed_or_missing available =
    "Source differs from the measurement. Remeasure or inspect the recorded source before drawing conclusions."
next_action _ true =
    "Use rg and bounded file reads at these locations; test references are not coverage attribution."
next_action _ false =
    "This report lacks exact detail for the selected metric. Export detailed coverage or choose another metric."

-- the answer, once the rows are there
unfoldable pub find_answer :
    (String → Option String) → FindRequest → Measurement → Metric → Observations → FindAnswer
unfolding summary missing_rows groups take_chars
find_answer demangle request measurement metric rows =
    let available = is_available metric rows in
    let (items, total) =
      groups demangle (missing_rows request metric rows) request.limit request.offset in
    let next = saturating_add request.offset (length items) in
    record {
      status =
          if any (λ (row : Observation). ltb_ℤ row.hits (pos 0)) (values rows)
          then incomplete
          else if available
          then measured
          else detail_unavailable;
      measurement = summary measurement metric;
      groups = items;
      group_count = total;
      next_offset = if ltb next total then some next else none;
      warnings = map (take_chars 240) (take 3 measurement.report.warnings);
      warnings_omitted = length measurement.report.warnings - 3;
      next_action = next_action measurement.source_state available;
    }

module _ (fs : FileSystem) (load : Option String → Option String → AppResult Measurement)
    (demangle : String → Option String) (root : String) where
  unfoldable pub find : FindRequest → AppResult FindAnswer
  unfolding validate metric measurement_observations find_answer
  find request = do
    validate request.limit request.query
    reject_if (is_some_and request.line (λ line. ltb_ℤ line (pos 1)))
        (invalid "line must be positive")
    measurement ← load request.measurement request.suite
    selected ← metric request.metric measurement.report
    rows ← measurement_observations fs root measurement
    ok (find_answer demangle request measurement selected rows)
