-- ===== src/Query/Compare/Verdict.antt =====
-- When a comparison speaks of a regression.
use mathlib.Core.Path.{subst}
use coverage_mcp.Prelude.{
  ℕ, ◌≤◌, String, ◌≡◌, ◌∙◌, ap, refl, Bool, true, false, Option, none, some, length, arith,
  unwrap_or, str_eq, if◌then◌else◌,
}
use coverage_mcp.Error.{AppResult, ok}
use coverage_mcp.Error.Ensures.{Ensures, Ensures-ok, Ensures-bind, Ensures-if, Ensures-known}
use coverage_mcp.Json.{index, is_text}
use coverage_mcp.Query.{CompareRequest, Metric, Measurement, Observations, Status, regression}
use coverage_mcp.Models.Paths.{FileSystem}
use coverage_mcp.Query.Incremental.Combine.{Answer, compare_incremental}
use coverage_mcp.Query.Observe.{measurement_observations}
use coverage_mcp.Query.{validate, metric}
use coverage_mcp.Query.Compare.{
  combined, changes_of, is_comparable, selected_rows, gained, lost, absent, CompareAnswer, Changes,
  status_of, is_full_scope, compatible_context, compare_answer, Compared, compared,
}
use coverage_mcp.Query.Compare.Call.{compare, compare_rows, check_scope, compare_loaded}

status_of-regression :
    (current : Measurement) (comparable verified full : Bool) (count_lost count_gained : ℕ)
    → status_of current comparable verified full count_lost count_gained ≡ regression
    → (comparable ≡ true)
      × (verified ≡ true)
      × (full ≡ true)
      × (1 ≤ count_lost)
      × (is_text (index current.context "test_status") "failed" ≡ false)
unfolding status_of
status_of-regression current comparable verified full count_lost count_gained h = ground arith

abbrev status_in : Compared → Status
status_in (compared answer) = answer.status
status_in (combined answer) = answer.status

compared-status : (a b : CompareAnswer) → compared a ≡ compared b → a.status ≡ b.status
compared-status a b h = ap status_in h

module _ (fs : FileSystem) (load : Option String → Option String → AppResult Measurement)
    (demangle : String → Option String) (root : String) where
  -- What a regression rests on.
  pub record IsRegression (request : CompareRequest) (answer : CompareAnswer) : Type 0 where
    pub current : Measurement
    pub baseline : Measurement
    current_loaded : load (some request.measurement) none ≡ ok current
    baseline_loaded : load (some request.baseline) none ≡ ok baseline
    asked_full : str_eq (unwrap_or request.scope "selected_tests") "full" ≡ true
    current_full : is_text (index current.context "scope") "full" ≡ true
    baseline_full : is_text (index baseline.context "scope") "full" ≡ true
    one_build : compatible_context current baseline ≡ true
    not_failed : is_text (index current.context "test_status") "failed" ≡ false
    pub changes : Changes
    pub shown : answer.changes ≡ some changes
    pub counted : changes.regressed ≡ some changes.not_observed
    some_lost : 1 ≤ changes.not_observed

  full_scope :
      (scope : String) (current baseline : Measurement)
      → is_full_scope scope current baseline ≡ true
      → (str_eq scope "full" ≡ true)
        × (is_text (index current.context "scope") "full" ≡ true)
        × (is_text (index baseline.context "scope") "full" ≡ true)
        × (compatible_context current baseline ≡ true)
  unfolding is_full_scope
  full_scope scope current baseline h = ground arith

  abbrev Verdict : CompareRequest → Compared → Type 0
  Verdict request result =
      (answer : CompareAnswer)
      → result ≡ compared answer
      → answer.status ≡ regression
      → IsRegression request answer

  abbrev IfCompared : Type 0 → Compared → Type 0
  IfCompared T (compared answer) = T
  IfCompared T (combined answer) = Unit

  combined-Verdict :
      (request : CompareRequest) (joined : Answer) → Verdict request (combined joined)
  combined-Verdict request joined answer same h =
      subst (IfCompared (IsRegression request answer)) same tt

  compare_answer-IsRegression :
      (request : CompareRequest) (k : Metric) (current baseline : Measurement)
      (after before : Observations)
      → load (some request.measurement) none ≡ ok current
      → load (some request.baseline) none ≡ ok baseline
      → (compare_answer demangle request
          (unwrap_or request.scope "selected_tests")
          k
          current
          baseline
          after
          before).status
        ≡ regression
      → IsRegression request (
          compare_answer demangle request
            (unwrap_or request.scope "selected_tests")
            k
            current
            baseline
            after
            before)
  unfolding compare_answer
  compare_answer-IsRegression request k current baseline after before hc hb h =
      let (comparable, verified, full, some_lost, not_failed) =
        status_of-regression current
          (is_comparable current baseline (selected_rows request k after)
            (selected_rows request k before))
          (compatible_context current baseline)
          (is_full_scope (unwrap_or request.scope "selected_tests") current baseline)
          (length (lost after (selected_rows request k before)))
          (length (gained before (selected_rows request k after))) h in
      let (asked_full, current_full, baseline_full, one_build) =
        full_scope (unwrap_or request.scope "selected_tests") current baseline full in
      record {
        current = current;
        baseline = baseline;
        current_loaded = hc;
        baseline_loaded = hb;
        asked_full = asked_full;
        current_full = current_full;
        baseline_full = baseline_full;
        one_build = one_build;
        not_failed = not_failed;
        changes =
            changes_of (is_full_scope (unwrap_or request.scope "selected_tests") current baseline)
              (gained before (selected_rows request k after))
              (lost after (selected_rows request k before))
              (absent before (selected_rows request k after))
              (absent after (selected_rows request k before));
        shown = rw comparable refl;
        counted = rw full refl;
        some_lost = some_lost;
      }

  compare_rows-Verdict :
      (request : CompareRequest) (k : Metric) (current baseline : Measurement)
      → load (some request.measurement) none ≡ ok current
      → load (some request.baseline) none ≡ ok baseline
      → Ensures (Verdict request) (
          compare_rows fs load demangle root request
            (unwrap_or request.scope "selected_tests")
            k
            current
            baseline)
  unfolding compare_rows
  compare_rows-Verdict request k current baseline hc hb =
      Ensures-bind (measurement_observations fs root current) _ (λ after.
        Ensures-bind (measurement_observations fs root baseline) _
          (λ before. Ensures-ok _ (verdict after before)))
    where
      verdict :
          (after before : Observations)
          → Verdict request (
              compared (
                compare_answer demangle request
                  (unwrap_or request.scope "selected_tests")
                  k
                  current
                  baseline
                  after
                  before))
      verdict after before answer same h = subst (IsRegression request) (cc) (
          compare_answer-IsRegression request k current baseline after before hc hb
            (compared-status _ answer same ∙ h))

  compare_loaded-Verdict :
      (request : CompareRequest) (current baseline : Measurement)
      → load (some request.measurement) none ≡ ok current
      → load (some request.baseline) none ≡ ok baseline
      → Ensures (Verdict request) (
          compare_loaded fs load demangle root request
            (unwrap_or request.scope "selected_tests")
            current
            baseline)
  unfolding compare_loaded
  compare_loaded-Verdict request current baseline hc hb =
      Ensures-bind
        (metric request.metric (
          if str_eq (unwrap_or request.scope "selected_tests") "incremental"
          then baseline.report
          else current.report))
        _
        (λ k.
          Ensures-if (str_eq (unwrap_or request.scope "selected_tests") "incremental") _ _
            (Ensures-bind (compare_incremental fs load demangle root request current baseline k) _
              (λ joined. Ensures-ok _ (combined-Verdict request joined)))
            (compare_rows-Verdict request k current baseline hc hb))

  compare-Verdict :
      (request : CompareRequest) → Ensures (Verdict request) (compare fs load demangle root request)
  unfolding compare
  compare-Verdict request = Ensures-bind (validate request.limit request.query) _ (λ _.
      Ensures-bind (check_scope (unwrap_or request.scope "selected_tests") request.previous) _ (λ _.
        Ensures-known (load (some request.measurement) none) _ (λ current hc.
          Ensures-known (load (some request.baseline) none) _
            (λ baseline hb. compare_loaded-Verdict request current baseline hc hb))))

  -- A comparison that says regression was asked with full scope, both loaded measurements have
  -- full scope and compatible receipts, the current tests did not fail, and the changes it shows
  -- count at least one lost observation, as regressed.
  pub compare-IsRegression :
      (request : CompareRequest) (answer : CompareAnswer)
      → compare fs load demangle root request ≡ ok (compared answer)
      → answer.status ≡ regression
      → IsRegression request answer
  compare-IsRegression request answer h =
      (compare-Verdict request).at (compared answer) h answer refl
