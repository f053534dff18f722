-- ===== src/Query/Incremental/Combine.antt =====
-- `compare_incremental` and `combine` of query_incremental.rs: the earlier batches one by one, then
-- the current one. `load` reads a report, and `demangle` is the `rustc-demangle` crate.
use coverage_mcp.Prelude.{
  ℕ, ◌-◌, ◌*◌, String, Bool, true, not, ◌&&◌, Option, none, some, List, [], ◌∷◌, length, count,
  filter, unwrap_or, is_some, is_some_and, ◌==◌, if◌then◌else◌,
}
use coverage_mcp.Prelude.Int.{pos, eqb_ℤ}
use coverage_mcp.Order.{text_ord}
use coverage_mcp.BTree
use coverage_mcp.BTree.{BTreeMap, keys, values}
use coverage_mcp.Error.{AppResult, ok, ◌>>=◌}
use coverage_mcp.Json.{index, as_str, is_text}
use coverage_mcp.Models.Paths.{FileSystem}
use coverage_mcp.Text.{concat}
use coverage_mcp.Query.{
  Metric, Observation, Observations, Measurement, CompareRequest, Counts, counts, matches, Status,
  tests_failed, incomparable, limited, no_gain, improved,
}
use coverage_mcp.Query.Groups.{Group, groups}
use coverage_mcp.Query.Incremental.{
  inventory, is_hit, Totals, totals, detail_matches, verified, build_of, reject, absorb,
}

-- What stays between the batches.
pub record Progress : Type 0 where
  pub union : Observations
  pub known_build : Option String
  pub trusted : Bool

-- Go on with what has been joined, or stop with a status and its reason.
pub data Joined : Type 0 where
  go_on : Progress → Joined
  stop : Status → String → Joined

pub record Fraction : Type 0 where
  pub numerator : ℕ
  pub denominator : ℕ

-- The numbers of a combined answer. A percentage is kept as a fraction.
pub record Increment : Type 0 where
  pub metric : Metric
  pub is_verified : Bool
  pub baseline_scope : String
  pub previous_batches : ℕ
  pub accepted : Totals
  pub batch_covered : ℕ
  pub newly_covered : ℕ
  pub already_covered : ℕ
  pub combined : Totals
  pub gain_percentage_points : Fraction
  pub remaining_gap_reduction_percent : Fraction

pub record Answer : Type 0 where
  pub status : Status
  pub reason : String
  pub measurement : Counts
  pub baseline : Counts
  pub incremental : Option Increment
  pub gained : List Group
  pub gained_group_count : ℕ
  pub remaining : List Group
  pub remaining_group_count : ℕ

-- the union before a batch has an observation at this key, without a hit
abbrev pub is_uncovered_in : Observations → String → Bool
is_uncovered_in union key =
    is_some_and (BTree.get union key) (λ (row : Observation). eqb_ℤ row.hits (pos 0))

-- `gained`
unfoldable pub gained_rows : Observations → Observations → List Observation
unfolding BTree.get
gained_rows union [] = []
gained_rows union ((key, row) ∷ rows) =
    let rest = gained_rows union rows in
    if is_hit row && is_uncovered_in union key then row ∷ rest else rest

-- One batch: refused, or joined to the union.
unfoldable pub join_batch : Metric → Measurement → Progress → Measurement → Observations → Joined
unfolding reject absorb verified
join_batch metric baseline p batch rows =
    elim (reject baseline batch p.union rows metric p.known_build) [
      | some (status, reason) ↦ stop status reason
      | none ↦ go_on (record {
        union = absorb p.union rows;
        known_build = if is_some p.known_build then p.known_build else build_of batch;
        trusted = p.trusted && verified baseline batch;
      })
    ]

module _ (fs : FileSystem) (load : Option String → Option String → AppResult Measurement)
    (demangle : String → Option String) (root : String) where
  abbrev pub name_batch : String → Joined → Joined
  name_batch reference (go_on p) = go_on p
  name_batch reference (stop status reason) =
      stop status (concat ("Earlier batch " ∷ reference ∷ ": " ∷ reason ∷ []))

  unfoldable pub join_reference : Metric → Measurement → Progress → String → AppResult Joined
  unfolding inventory join_batch concat
  join_reference metric baseline p reference = do
    batch ← load (some reference) none
    rows ← inventory fs batch root metric
    ok (name_batch reference (join_batch metric baseline p batch rows))

  -- the loop over `request.previous`, with its early return
  unfoldable pub join_previous : Metric → Measurement → Progress → List String → AppResult Joined
  unfolding join_reference
  join_previous metric baseline p [] = ok (go_on p)
  join_previous metric baseline p (reference ∷ references) =
      join_reference metric baseline p reference >>= λ joined. elim joined [
        | stop status reason ↦ ok (stop status reason)
        | go_on p' ↦ join_previous metric baseline p' references
      ]

  abbrev pub stopped : Metric → Measurement → Measurement → Status → String → Answer
  stopped metric current baseline status reason = record {
    status = status;
    reason = reason;
    measurement = counts current.report metric;
    baseline = counts baseline.report metric;
    incremental = none;
    gained = [];
    gained_group_count = 0;
    remaining = [];
    remaining_group_count = 0;
  }

  -- `union`, before and after the current batch, and whether every batch is verified
  unfoldable pub increment :
      CompareRequest → Metric → Measurement → Progress → Observations → Bool → Increment
  unfolding totals gained_rows absorb
  increment request metric baseline p rows trusted =
      let accepted = totals p.union in
      let count_gained = length (gained_rows p.union rows) in
      let batch_covered = count is_hit (values rows) in
      let union = absorb p.union rows in
      record {
        metric = metric;
        is_verified = trusted;
        baseline_scope = unwrap_or (as_str (index baseline.context "scope")) "unknown";
        previous_batches = length request.previous;
        accepted = accepted;
        batch_covered = batch_covered;
        newly_covered = count_gained;
        already_covered = batch_covered - count_gained;
        combined = totals union;
        gain_percentage_points = record {
          numerator = 100 * count_gained;
          denominator = length union;
        };
        remaining_gap_reduction_percent =
            if accepted.missing == 0
            then record { numerator = 0; denominator = 1 }
            else record { numerator = 100 * count_gained; denominator = accepted.missing };
      }

  unfoldable pub finish :
      CompareRequest → Metric → Measurement → Measurement → Progress → Observations → Answer
  unfolding increment groups matches verified absorb gained_rows
  finish request metric current baseline p rows =
      let trusted = p.trusted && verified baseline current in
      let count_gained = length (gained_rows p.union rows) in
      let (gained_groups, gained_count) =
        groups demangle (filter (λ row. matches row request.query none) (gained_rows p.union rows))
          request.limit 0 in
      let (remaining, remaining_count) =
        groups demangle
          (filter (λ (row : Observation). eqb_ℤ row.hits (pos 0) && matches row request.query none)
            (values (absorb p.union rows)))
          request.limit 0 in
      record {
        status = if not trusted then limited else if count_gained == 0 then no_gain else improved;
        reason =
            if trusted
            then "Baseline and batches have matching source/build receipts and passing tests. Combined coverage is their union; the full suite was not rerun and regression status is unknown."
            else "Unverified incremental estimate: source/build identity or passing test evidence is missing. Combined counts are coordinate evidence only; full-suite regression status is unknown.";
        measurement = counts current.report metric;
        baseline = counts baseline.report metric;
        incremental = some (increment request metric baseline p rows trusted);
        gained = gained_groups;
        gained_group_count = gained_count;
        remaining = remaining;
        remaining_group_count = remaining_count;
      }

  -- the current batch, once the earlier ones are joined
  unfoldable pub join_current :
      CompareRequest → Metric → Measurement → Measurement → Joined → AppResult Answer
  unfolding inventory reject finish
  join_current request metric current baseline (stop status reason) =
      ok (stopped metric current baseline status reason)
  join_current request metric current baseline (go_on p) = do
    rows ← inventory fs current root metric
    elim (reject baseline current p.union rows metric p.known_build) [
      | some (status, reason) ↦ ok (stopped metric current baseline status reason)
      | none ↦ ok (finish request metric current baseline p rows)
    ]

  unfoldable pub combine :
      CompareRequest → Metric → Measurement → Measurement → Observations → AppResult Answer
  unfolding join_previous join_current
  combine request metric current baseline union = do
    joined ←
        join_previous metric baseline
          (record { union = union; known_build = build_of baseline; trusted = true })
          request.previous
    join_current request metric current baseline joined

  unfoldable pub compare_incremental :
      CompareRequest → Measurement → Measurement → Metric → AppResult Answer
  unfolding inventory detail_matches combine
  compare_incremental request current baseline metric = do
    union ← inventory fs baseline root metric
    if is_text (index baseline.context "test_status") "failed"
        then ok (
            stopped metric current baseline tests_failed
              "The baseline tests failed. Choose a passing baseline; no combined coverage was calculated.")
        else if not (detail_matches baseline union metric)
        then ok (
            stopped metric current baseline incomparable
              "Baseline detail is incomplete or differs from its reported totals. Export exact coverage for the selected metric before combining reports.")
        else combine request metric current baseline union
