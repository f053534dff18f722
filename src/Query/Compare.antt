-- ===== src/Query/Compare.antt =====
-- What `compare` (src/query.rs) makes of two measurements, observation by observation; `demangle` is
-- the `rustc-demangle` crate.
pub mod Call
pub mod Verdict
pub mod Itself
use coverage_mcp.Prelude.{
  ℕ, String, Bool, true, false, not, ◌&&◌, ◌||◌, Option, none, some, List, [], ◌∷◌, ◌++◌, length,
  any, all, filter, count, ltb, str_eq, ◌==◌, unwrap_or, is_some_and, is_none_or, if◌then◌else◌,
}
use coverage_mcp.Prelude.Int.{pos, leb_ℤ, ltb_ℤ, eqb_ℤ}
use coverage_mcp.Order.{text_ord}
use coverage_mcp.BTree
use coverage_mcp.BTree.{values}
use coverage_mcp.Error.{AppResult, ok, err, ◌>>=◌, ◌>>◌, reject_if}
use coverage_mcp.Json.{
  Value, Fields, index, get_field, as_str, as_object, is_text, is_string, value_eq,
}
use coverage_mcp.Models.{CoverageReport, FileCoverage}
use coverage_mcp.Models.Paths.{FileSystem}
use coverage_mcp.Query.{
  CompareRequest, Metric, same_metric, Observation, Observations, Measurement, Status, incomparable,
  tests_failed, limited, no_gain, improved, regression, key, matches, validate, metric, invalid,
}
use coverage_mcp.Query.Observe.{measurement_observations}
use coverage_mcp.Query.Groups.{Group, groups}
use coverage_mcp.Query.Find.{Summary, summary}
use coverage_mcp.Query.Incremental.{differ}
use coverage_mcp.Query.Incremental.Combine.{Answer, compare_incremental}

pub record Changes : Type 0 where
  pub newly_observed : ℕ
  pub not_observed : ℕ
  pub added : ℕ
  pub removed : ℕ
  pub regressed : Option ℕ

pub record CompareAnswer : Type 0 where
  pub status : Status
  pub measurement : Summary
  pub baseline : Summary
  pub is_full : Bool
  pub reason : String
  pub changes : Option Changes
  pub gained : List Group
  pub gained_group_count : ℕ
  pub remaining : List Group
  pub remaining_group_count : ℕ

pub data Compared : Type 0 where
  compared : CompareAnswer → Compared
  combined : Answer → Compared

-- every file has one and the same hash in both receipts
abbrev same_hashes : Fields → Fields → List FileCoverage → Bool
same_hashes current_hashes baseline_hashes files =
    all
      (λ (file : FileCoverage). is_some_and (get_field current_hashes file.file_path) (λ hash.
        is_string hash
        && is_some_and (get_field baseline_hashes file.file_path) (λ other. value_eq other hash)))
      files

unfoldable pub compatible_context : Measurement → Measurement → Bool
unfolding value_eq
compatible_context current baseline = elim (as_str (index current.context "build_id")) [
  | none ↦ false
  | some build ↦
      if not (is_text (index baseline.context "build_id") build)
      then false
      else elim (as_object (index current.context "source_hashes")) [
        | none ↦ false
        | some current_hashes ↦ elim (as_object (index baseline.context "source_hashes")) [
          | none ↦ false
          | some baseline_hashes ↦
              same_hashes current_hashes baseline_hashes
                (current.report.files ++ baseline.report.files)
        ]
      ]
]

-- `conflict` of `compare`
unfoldable has_conflict : Measurement → Measurement → Bool
unfolding value_eq
has_conflict current baseline =
    is_string (index current.context "build_id")
    && is_string (index baseline.context "build_id")
    && (not (value_eq (index current.context "build_id") (index baseline.context "build_id"))
        || any
            (λ (file : FileCoverage).
              differ (index (index current.context "source_hashes") file.file_path)
                (index (index baseline.context "source_hashes") file.file_path))
            (current.report.files ++ baseline.report.files))

-- `selected`, over the values of a map
unfoldable pub selected_rows : CompareRequest → Metric → Observations → List Observation
unfolding matches
selected_rows request metric rows =
    filter (λ (row : Observation). same_metric row.kind metric && matches row request.query none)
      (values rows)

unfoldable pub is_comparable :
    Measurement → Measurement → List Observation → List Observation → Bool
unfolding has_conflict
is_comparable current baseline current_rows baseline_rows =
    not (has_conflict current baseline)
    && str_eq current.report.format baseline.report.format
    && not (length current_rows == 0)
    && not (length baseline_rows == 0)
    && all (λ (row : Observation). leb_ℤ (pos 0) row.hits) (current_rows ++ baseline_rows)

-- hit now, and there without a hit before
abbrev is_gained : Observations → Observation → Bool
is_gained before row =
    ltb_ℤ (pos 0) row.hits
    && is_some_and (BTree.get before (key row)) (λ (base : Observation). eqb_ℤ base.hits (pos 0))

-- hit before, and now without a hit or not there
abbrev is_lost : Observations → Observation → Bool
is_lost after row =
    ltb_ℤ (pos 0) row.hits
    && is_none_or (BTree.get after (key row)) (λ (now : Observation). eqb_ℤ now.hits (pos 0))

abbrev is_absent : Observations → Observation → Bool
is_absent other row = not (BTree.contains_key other (key row))

unfoldable pub gained : Observations → List Observation → List Observation
unfolding BTree.get key
gained before rows = filter (is_gained before) rows

unfoldable pub lost : Observations → List Observation → List Observation
unfolding BTree.get key
lost after rows = filter (is_lost after) rows

unfoldable pub absent : Observations → List Observation → ℕ
unfolding BTree.contains_key key
absent other rows = count (is_absent other) rows

abbrev pub changes_of :
    Bool → (gained_rows lost_rows : List Observation) → (added removed : ℕ) → Changes
changes_of full gained_rows lost_rows added removed = record {
  newly_observed = length gained_rows;
  not_observed = length lost_rows;
  added = added;
  removed = removed;
  regressed = if full then some (length lost_rows) else none;
}

unfoldable pub status_of :
    Measurement → (comparable verified full : Bool) → (count_lost count_gained : ℕ) → Status
status_of current comparable verified full count_lost count_gained =
    if is_text (index current.context "test_status") "failed"
    then tests_failed
    else if not comparable
    then incomparable
    else if not verified
    then limited
    else if full && not (count_lost == 0)
    then regression
    else if count_gained == 0
    then no_gain
    else improved

unfoldable reason_of : (comparable verified full : Bool) → String
reason_of comparable verified full =
    if not comparable
    then "Reports have conflicting source/build identities, incompatible formats, missing metric detail, or unmeasured inventory entries. Remeasure compatible inputs."
    else if not verified
    then "Source/build identity is unverified; counts describe report-coordinate changes, not a verified coverage gain or regression."
    else if not full
    then "Selected-test absences are not regressions; full-suite regression status is unknown."
    else "Full measurements have matching source/build context."

unfoldable pub is_full_scope : String → Measurement → Measurement → Bool
unfolding compatible_context
is_full_scope scope current baseline =
    str_eq scope "full"
    && is_text (index current.context "scope") "full"
    && is_text (index baseline.context "scope") "full"
    && compatible_context current baseline

unfoldable pub compare_answer :
    (String → Option String)
    → CompareRequest
    → String
    → Metric
    → Measurement
    → Measurement
    → Observations
    → Observations
    → CompareAnswer
unfolding compatible_context is_full_scope selected_rows is_comparable gained lost absent groups
    status_of reason_of summary
compare_answer demangle request scope metric current baseline after before =
    let verified = compatible_context current baseline in
    let full = is_full_scope scope current baseline in
    let current_rows = selected_rows request metric after in
    let baseline_rows = selected_rows request metric before in
    let comparable = is_comparable current baseline current_rows baseline_rows in
    let gained_rows = gained before current_rows in
    let lost_rows = lost after baseline_rows in
    let (gained_groups, gained_count) = groups demangle gained_rows request.limit 0 in
    let (remaining, remaining_count) =
      groups demangle (filter (λ (row : Observation). eqb_ℤ row.hits (pos 0)) current_rows)
        request.limit 0 in
    record {
      status = status_of current comparable verified full (length lost_rows) (length gained_rows);
      measurement = summary current metric;
      baseline = summary baseline metric;
      is_full = full;
      reason = reason_of comparable verified full;
      changes =
          if comparable
          then some (
              changes_of full gained_rows lost_rows (absent before current_rows)
                (absent after baseline_rows))
          else none;
      gained = if comparable then gained_groups else [];
      gained_group_count = if comparable then gained_count else 0;
      remaining = remaining;
      remaining_group_count = remaining_count;
    }
