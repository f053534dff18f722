-- ===== src/Query/Load/Composite.antt =====
-- `decode_composite` of query.rs: a stored composite snapshot as a measurement.
use coverage_mcp.Prelude.{
  String, Bool, true, false, not, ◌||◌, none, some, List, [], ◌∷◌, map, str_eq, unwrap_or,
  is_some_and, if◌then◌else◌,
}
use coverage_mcp.Prelude.Int.{ℤ, negsuc, pos, ◌+i64◌, ltb_ℤ, eqb_ℤ}
use coverage_mcp.Order.{text_ord}
use coverage_mcp.BTree
use coverage_mcp.BTree.{BTreeMap, values}
use coverage_mcp.Error.{AppResult, ok, ◌>>=◌, ◌>>◌, reject_if, ok_or, fold_result}
use coverage_mcp.Json.{
  Value, str, obj, Fields, end, field, index, get_field, put_field, as_str, as_i64, as_array,
  value_eq,
}
use coverage_mcp.Models.{CoverageReport, FileCoverage, total_regions, covered_regions}
use coverage_mcp.Text.{concat}
use coverage_mcp.Query.{Observation, Observations, regions, no_arm, Measurement, invalid}
use coverage_mcp.Query.Observe.{insert}
use coverage_mcp.Query.Load.{Disk, source_state}

-- what the loop over the rows fills
pub record Decoded : Type 0 where
  pub native : Observations
  pub files : BTreeMap String FileCoverage
  pub hashes : Fields

abbrev pub hits_of : String → ℤ
hits_of state =
    if str_eq state "covered" then pos 1 else if str_eq state "uncovered" then pos 0 else negsuc 0

abbrev region_observation : String → ℤ → ℤ → String → String → Observation
region_observation path start last state region_key = record {
  path = path;
  symbol = "";
  span = (start, (pos 0, (last, pos 0)));
  kind = regions;
  arm = no_arm;
  hits = hits_of state;
  identity = some region_key;
  cause = if ltb_ℤ (hits_of state) (pos 0) then some state else none;
}

abbrev pub empty_file : String → FileCoverage
empty_file path = record {
  file_path = path;
  total_lines = pos 0;
  covered_lines = pos 0;
  total_branches = pos 0;
  covered_branches = pos 0;
  total_functions = pos 0;
  covered_functions = pos 0;
  total_regions = pos 0;
  covered_regions = pos 0;
  raw_metrics = obj end;
}

-- `i64::from(bool)`
abbrev pub from_bool : Bool → ℤ
from_bool true = pos 1
from_bool false = pos 0

unfoldable pub count_region : ℤ → FileCoverage → FileCoverage
unfolding ◌+i64◌
count_region hits file = record file {
  total_regions = file.total_regions +i64 pos 1;
  covered_regions = file.covered_regions +i64 from_bool (ltb_ℤ (pos 0) hits);
}

-- another hash is known for the path already
abbrev pub other_hash : Fields → String → Value → Bool
other_hash hashes path hash =
    is_some_and (get_field hashes path) (λ known. not (value_eq known hash))

unfoldable pub decode_row : Decoded → Value → AppResult Decoded
unfolding insert BTree.upsert count_region value_eq
decode_row d row = do
  path ← ok_or (as_str (index row "path")) (invalid "composite region path unavailable")
  start ← ok_or (as_i64 (index row "start_line")) (invalid "composite region start unavailable")
  last ← ok_or (as_i64 (index row "end_line")) (invalid "composite region end unavailable")
  region_key ←
      ok_or (as_str (index row "region_key")) (invalid "composite region identity unavailable")
  reject_if (other_hash d.hashes path (index row "source_hash"))
      (invalid "composite has conflicting source hashes for one path")
  ok (
      let state = unwrap_or (as_str (index row "state")) "unmeasured" in
      record {
        native = insert d.native (region_observation path start last state region_key);
        files =
            BTree.upsert d.files path (count_region (hits_of state))
              (count_region (hits_of state) (empty_file path));
        hashes = put_field d.hashes path (index row "source_hash");
      })

unfoldable pub decode_rows : List Value → AppResult Decoded
unfolding decode_row fold_result
decode_rows rows = fold_result decode_row (record { native = []; files = []; hashes = end }) rows

unfoldable pub decoded_report : (Value → String) → String → Value → Decoded → CoverageReport
decoded_report value_text reference snapshot d = record {
  format = "composite";
  report_path = reference;
  files = values d.files;
  lines = [];
  test_names = [];
  test_coverage = [];
  warnings = map value_text (unwrap_or (as_array (index snapshot "reasons")) []);
  metadata = obj end;
}

abbrev pub recorded : Value → String → ℤ
recorded snapshot name = unwrap_or (as_i64 (index snapshot name)) (negsuc 0)

unfoldable pub decoded_context : (Value → String) → Value → Decoded → Value
unfolding concat
decoded_context value_text snapshot d = obj (
    field "build_id"
      (str (
        concat (
          value_text (index snapshot "mapping_version")
          ∷ ":"
          ∷ value_text (index snapshot "inventory_hash")
          ∷ [])))
      (field "source_hashes" (obj d.hashes) end))

unfoldable pub decode_composite :
    Disk → String → String → Value → List Value → AppResult Measurement
unfolding decode_rows decoded_report decoded_context total_regions covered_regions source_state
decode_composite disk root reference snapshot rows = do
  d ← decode_rows rows
  reject_if
      (not (
          eqb_ℤ (total_regions (decoded_report disk.value_text reference snapshot d))
            (recorded snapshot "total_regions"))
        || not (
            eqb_ℤ (covered_regions (decoded_report disk.value_text reference snapshot d))
              (recorded snapshot "covered_regions")))
      (invalid "composite inventory does not match its recorded totals")
  state ←
      source_state disk root (decoded_report disk.value_text reference snapshot d)
        (decoded_context disk.value_text snapshot d)
  ok (record {
    reference = reference;
    report = decoded_report disk.value_text reference snapshot d;
    context = decoded_context disk.value_text snapshot d;
    source_state = state;
    native = some d.native;
  })
