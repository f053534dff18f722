-- ===== src/Query/Compare/Call.antt =====
-- The handler `compare` (src/query.rs) with its checks; `load` reads a report.
use coverage_mcp.Prelude.{
  String, Bool, not, ◌&&◌, ◌||◌, Option, none, some, List, length, ltb, str_eq, ◌==◌, unwrap_or,
  if◌then◌else◌,
}
use coverage_mcp.Order.{text_ord}
use coverage_mcp.Error.{AppResult, ok, ◌>>=◌, ◌>>◌, reject_if}
use coverage_mcp.Models.Paths.{FileSystem}
use coverage_mcp.Query.{CompareRequest, Metric, Measurement, validate, metric, invalid}
use coverage_mcp.Query.Observe.{measurement_observations}
use coverage_mcp.Query.Incremental.Combine.{compare_incremental}
use coverage_mcp.Query.Compare.{Compared, compared, combined, compare_answer}

abbrev is_scope : String → Bool
is_scope scope = str_eq scope "selected_tests" || str_eq scope "full" || str_eq scope "incremental"

unfoldable pub check_scope : String → List String → AppResult (Unit {0})
check_scope scope previous = do
  reject_if (not (is_scope scope)) (invalid "scope must be selected_tests, full, or incremental")
  reject_if
      (ltb 16 (length previous) || (not (str_eq scope "incremental") && not (length previous == 0)))
      (invalid "previous accepts up to 16 reports with incremental scope only")

module _ (fs : FileSystem) (load : Option String → Option String → AppResult Measurement)
    (demangle : String → Option String) (root : String) where
  -- scope "selected_tests" or "full"
  unfoldable pub compare_rows :
      CompareRequest → String → Metric → Measurement → Measurement → AppResult Compared
  unfolding measurement_observations compare_answer
  compare_rows request scope metric current baseline = do
    after ← measurement_observations fs root current
    before ← measurement_observations fs root baseline
    ok (compared (compare_answer demangle request scope metric current baseline after before))

  unfoldable pub compare_loaded :
      CompareRequest → String → Measurement → Measurement → AppResult Compared
  unfolding metric compare_rows compare_incremental
  compare_loaded request scope current baseline = do
    selected ←
        metric request.metric
          (if str_eq scope "incremental" then baseline.report else current.report)
    if str_eq scope "incremental"
        then compare_incremental fs load demangle root request current baseline selected
          >>= (λ answer. ok (combined answer))
        else compare_rows request scope selected current baseline

  unfoldable pub compare : CompareRequest → AppResult Compared
  unfolding validate check_scope compare_loaded
  compare request = do
    validate request.limit request.query
    check_scope (unwrap_or request.scope "selected_tests") request.previous
    current ← load (some request.measurement) none
    baseline ← load (some request.baseline) none
    compare_loaded request (unwrap_or request.scope "selected_tests") current baseline
