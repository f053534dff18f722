-- ===== src/Examples/Find.antt =====
-- The theorems about find and its pages, at the answer about one report.
use coverage_mcp.Prelude.{ℕ, suc, ◌*◌, arith, ◌≡◌, refl, none, some, [], length}
use coverage_mcp.Order.{text_ord, int_ord, pair_ord}
use coverage_mcp.Error.{ok}
use coverage_mcp.Query.{lines, FindRequest, Observations, metric}
use coverage_mcp.Query.Observe.{measurement_observations}
use coverage_mcp.Query.Groups.{sorted_groups, show_groups}
use coverage_mcp.Query.Find.{FindAnswer, missing_rows, find_answer}
use coverage_mcp.Query.Pages.{call_find}
use coverage_mcp.Query.Pages.Read.{missing_groups}
use coverage_mcp.Query.Pages.Whole.{Reads, read_pages-whole, IsFittingPage, call_find-IsFittingPage}
use coverage_mcp.Examples.{list_size, fs, base, load, demangle, ok_value}

abbrev find_request : FindRequest
find_request = record {
  measurement = some "base.lcov";
  suite = none;
  query = none;
  line = none;
  metric = some "lines";
  limit = 1;
  offset = 0;
}

abbrev base_rows : Observations
base_rows = ok_value [] (measurement_observations fs "/repo" base)

base_metric : metric (some "lines") base.report ≡ ok lines
unfolding metric
base_metric = refl

base_rows_lem : measurement_observations fs "/repo" base ≡ ok base_rows
unfolding measurement_observations text_ord
base_rows_lem = refl

one_group : length (missing_groups demangle find_request lines base_rows) ≡ 1
unfolding measurement_observations text_ord missing_rows sorted_groups show_groups
one_group = refl

abbrev answer_size : FindAnswer → ℕ
answer_size answer = 6000 * length answer.groups

read_pages-whole_example :
    Reads fs load demangle "/repo" answer_size list_size
      (missing_groups demangle find_request lines base_rows)
      find_request
      (suc (length (missing_groups demangle find_request lines base_rows)))
      0
read_pages-whole_example =
    read_pages-whole fs load demangle "/repo" answer_size list_size find_request base lines
      base_rows refl base_metric base_rows_lem (omega (arith, one_group))

abbrev no_find_answer : FindAnswer
no_find_answer = find_answer demangle find_request base lines []

abbrev base_answer : FindAnswer
base_answer =
    ok_value no_find_answer (call_find fs load demangle "/repo" answer_size list_size find_request)

base_answer_lem :
    call_find fs load demangle "/repo" answer_size list_size find_request ≡ ok base_answer
unfolding call_find text_ord
base_answer_lem = refl

call_find-IsFittingPage_example :
    IsFittingPage fs load demangle "/repo" answer_size list_size
      (missing_groups demangle find_request lines base_rows)
      0
      base_answer
call_find-IsFittingPage_example =
    call_find-IsFittingPage fs load demangle "/repo" answer_size list_size find_request base lines
      base_rows base_answer refl base_metric base_rows_lem (omega (arith, one_group))
      base_answer_lem
