-- ===== src/Examples/Compare.antt =====
-- The theorems about compare, at a report that loses a line and at one compared with itself.
use coverage_mcp.Prelude.{
  String, ◌≡◌, refl, Bool, true, false, Option, none, some, [], str_eq, if◌then◌else◌,
}
use coverage_mcp.Order.{text_ord, int_ord, pair_ord}
use coverage_mcp.Error.{AppResult, ok, err}
use coverage_mcp.Json.{Value, str, obj, end, field}
use coverage_mcp.Query.{lines, Measurement, CompareRequest, regression}
use coverage_mcp.Query.Compare.{CompareAnswer, Compared, compared, combined, compare_answer}
use coverage_mcp.Query.Compare.Call.{compare}
use coverage_mcp.Query.Compare.Verdict.{IsRegression, compare-IsRegression}
use coverage_mcp.Query.Compare.Itself.{IsUnchanged, compare-IsUnchanged}
use coverage_mcp.Examples.{fs, base, load, demangle, measurement, compare_request}

abbrev receipt : Value
receipt = obj (
    field "build_id" (str "b1") (
      field "scope" (str "full") (
        field "source_hashes" (obj (field "src/a.rs" (str "h") end))
          (field "test_status" (str "passed") end))))

abbrev full_measurement : String → Bool → Bool → Measurement
full_measurement reference first second = record (measurement reference first second) {
  context = receipt;
}

abbrev full_load : Option String → Option String → AppResult Measurement
full_load (some reference) suite =
    if str_eq reference "base.lcov"
    then ok (full_measurement "base.lcov" true false)
    else ok (full_measurement "batch.lcov" false true)
full_load none suite = ok base

abbrev full_request : CompareRequest
full_request = record compare_request { scope = some "full" }

abbrev no_compare_answer : CompareAnswer
no_compare_answer = compare_answer demangle full_request "full" lines base base [] []

abbrev compared_value : AppResult Compared → CompareAnswer
compared_value (ok (compared answer)) = answer
compared_value (ok (combined answer)) = no_compare_answer
compared_value (err e) = no_compare_answer

abbrev lost_answer : CompareAnswer
lost_answer = compared_value (compare fs full_load demangle "/repo" full_request)

lost_answer_lem : compare fs full_load demangle "/repo" full_request ≡ ok (compared lost_answer)
unfolding compare text_ord
lost_answer_lem = refl

lost_answer_status : lost_answer.status ≡ regression
unfolding compare text_ord
lost_answer_status = refl

compare-IsRegression_example : IsRegression fs full_load demangle "/repo" full_request lost_answer
compare-IsRegression_example =
    compare-IsRegression fs full_load demangle "/repo" full_request lost_answer lost_answer_lem
      lost_answer_status

abbrev self_request : CompareRequest
self_request = record compare_request { measurement = "base.lcov"; scope = none }

abbrev self_answer : CompareAnswer
self_answer = compared_value (compare fs load demangle "/repo" self_request)

self_answer_lem : compare fs load demangle "/repo" self_request ≡ ok (compared self_answer)
unfolding compare text_ord
self_answer_lem = refl

compare-IsUnchanged_example : IsUnchanged self_answer
compare-IsUnchanged_example =
    compare-IsUnchanged fs load demangle "/repo" self_request base self_answer refl refl refl
      self_answer_lem
