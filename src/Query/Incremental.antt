-- ===== src/Query/Incremental.antt =====
-- query_incremental.rs: the marginal coverage of test batches against the fixed inventory of a
-- baseline. `load` and `demangle` are parameters: how a report is read, and the `rustc-demangle`
-- crate.
pub mod Combine
pub mod Sums
pub mod Accounting
use Prim.Native.String.{◌++◌}
use coverage_mcp.Prelude.{
  ℕ, ◌-◌, ◌*◌, String, Bool, true, false, not, ◌&&◌, ◌||◌, Option, none, some, List, [], ◌∷◌,
  length, count, filter, any, all, str_eq, unwrap_or, is_some_and, is_some, ◌==◌, if◌then◌else◌,
}
use coverage_mcp.Prelude.Int.{ℤ, pos, max_ℤ, ltb_ℤ, leb_ℤ, eqb_ℤ}
use coverage_mcp.Order.{text_ord}
use coverage_mcp.BTree
use coverage_mcp.BTree.{BTreeMap, keys, values}
use coverage_mcp.Error.{AppResult, ok, err, ◌>>=◌}
use coverage_mcp.Json.{Value, index, as_str, is_string, is_text, value_eq}
use coverage_mcp.Models.{CoverageReport, FileCoverage}
use coverage_mcp.Models.Paths.{FileSystem}
use coverage_mcp.Text.{concat}
use coverage_mcp.Query.{
  Metric, same_metric, Arm, arm_word, Observation, Observations, Measurement, SourceState,
  unverified, matches_receipt, changed_or_missing, CompareRequest, Counts, counts, matches,
  show_span, Status, tests_failed, incomparable, limited, no_gain, improved,
}
use coverage_mcp.Query.Observe.{merge_hits, measurement_observations}
use coverage_mcp.Query.Groups.{Group, groups}

-- An observation's place in the inventory: function names are only labels here.
unfoldable pub inventory_key : Observation → String
unfolding concat show_span
inventory_key row =
    unwrap_or row.identity
      (concat (row.path ∷ ":" ∷ show_span row.span ∷ ":" ∷ arm_word row.arm ∷ []))

unfoldable pub collect : Metric → Observations → List Observation → Observations
unfolding inventory_key BTree.upsert
collect metric m [] = m
collect metric m (row ∷ rows) =
    collect metric
      (if same_metric row.kind metric
        then BTree.upsert m (inventory_key row) (λ existing. merge_hits existing row) row
        else m)
      rows

unfoldable pub inventory : FileSystem → Measurement → String → Metric → AppResult Observations
unfolding collect measurement_observations
inventory fs measurement root metric = do
  rows ← measurement_observations fs root measurement
  ok (collect metric [] (values rows))

abbrev pub is_hit : Observation → Bool
is_hit row = ltb_ℤ (pos 0) row.hits

pub record Totals : Type 0 where
  pub covered : ℕ
  pub total : ℕ
  pub missing : ℕ

unfoldable pub totals : Observations → Totals
totals rows = record {
  covered = count is_hit (values rows);
  total = length rows;
  missing = length rows - count is_hit (values rows);
}

-- The detail is there, all of it is measured, and it adds up to what the report says.
unfoldable pub detail_matches : Measurement → Observations → Metric → Bool
unfolding totals counts
detail_matches measurement rows metric =
    let observed = totals rows in
    let reported = counts measurement.report metric in
    not (length rows == 0)
    && all (λ (row : Observation). leb_ℤ (pos 0) row.hits) (values rows)
    && eqb_ℤ (pos observed.total) reported.total
    && eqb_ℤ (pos observed.covered) reported.covered

abbrev is_changed : SourceState → Bool
is_changed changed_or_missing = true
is_changed _ = false

abbrev is_matched : SourceState → Bool
is_matched matches_receipt = true
is_matched _ = false

-- both are texts, and they differ
abbrev pub differ : Value → Value → Bool
differ a b = is_string a && is_string b && not (value_eq a b)

unfoldable pub conflict : Measurement → Measurement → Bool
unfolding value_eq
conflict base batch =
    is_changed base.source_state
    || is_changed batch.source_state
    || differ (index base.context "build_id") (index batch.context "build_id")
    || any
        (λ (file : FileCoverage).
          differ (index (index base.context "source_hashes") file.file_path)
            (index (index batch.context "source_hashes") file.file_path))
        batch.report.files

unfoldable pub verified : Measurement → Measurement → Bool
unfolding value_eq
verified base batch =
    is_matched base.source_state
    && is_matched batch.source_state
    && value_eq (index base.context "build_id") (index batch.context "build_id")
    && is_text (index base.context "test_status") "passed"
    && is_text (index batch.context "test_status") "passed"

abbrev pub build_of : Measurement → Option String
build_of m = as_str (index m.context "build_id")

-- `known_build.zip(..).is_some_and(|(known, batch)| known != batch)`
abbrev other_build : Option String → Option String → Bool
other_build (some known) (some batch) = not (str_eq known batch)
other_build _ _ = false

-- Why a batch cannot be joined, or none.
unfoldable pub reject :
    Measurement
    → Measurement
    → Observations
    → Observations
    → Metric
    → Option String
    → Option (Status × String)
unfolding conflict detail_matches BTree.contains_key
reject baseline batch union rows metric known_build =
    if is_text (index batch.context "test_status") "failed"
    then some (tests_failed, "Batch tests failed; no combined coverage was calculated.")
    else if not (str_eq baseline.report.format batch.report.format)
        || conflict baseline batch
        || other_build known_build (build_of batch)
    then some (
      incomparable,
      "Source, build, or report format differs from the baseline. Rebuild a compatible baseline; no combined coverage was calculated.",
    )
    else if not (detail_matches batch rows metric)
    then some (
      incomparable,
      "Batch detail is incomplete or differs from its reported totals. Export exact coverage for the selected metric.",
    )
    else if any (λ key. not (BTree.contains_key union key)) (keys rows)
    then some (
      incomparable,
      "Batch includes observations outside the baseline inventory. Keep instrumentation and measured source fixed, or establish a new baseline.",
    )
    else none

-- `for (key, row) in rows { if row.hits > 0 { union.insert(key, row); } }`
unfoldable pub absorb : Observations → Observations → Observations
unfolding BTree.insert
absorb union [] = union
absorb union ((key, row) ∷ rows) =
    absorb (if is_hit row then BTree.insert union key row else union) rows
