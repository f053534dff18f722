-- ===== src/Parser/Llvm.antt =====
-- `parse_llvm` of src/parser.rs.
pub mod Functions
pub use Functions.{Records, array_or, object_or, text_or, function_records}
use coverage_mcp.Prelude.{
  ℕ, ◌+◌, String, ◌||◌, Option, none, some, is_some, List, [], ◌∷◌, ◌++◌, length, take, ltb,
  if◌then◌else◌,
}
use coverage_mcp.Prelude.Int.{ℤ, pos, ltb_ℤ}
use coverage_mcp.Order.{text_ord}
use coverage_mcp.BTree
use coverage_mcp.BTree.{BTreeMap}
use coverage_mcp.Error.{AppResult, ok, err, ◌>>=◌, ◌>>◌, ok_or, reject_if, fold_result}
use coverage_mcp.Json.{
  Value, Fields, obj, int, field, end, array, as_array, as_object, as_str, as_bool, get_field,
  put_field, lookup,
}
use coverage_mcp.Models.{CoverageReport}
use coverage_mcp.Models.Paths.{FileSystem}
use coverage_mcp.Models.Builder.{CoverageBuilder, new, add_file_metrics}
use coverage_mcp.Models.Build.{build}
use coverage_mcp.Text.{is_empty, concat, show_ℤ}
use coverage_mcp.Parser.{Decoders, parse_error, json_value, no_details, add_counted, add_branches}
use coverage_mcp.Parser.Number.{value_i64}

-- the first of two keys that is there
abbrev either_field : Fields → String → String → Option Value
either_field object first second = elim (get_field object first) [
  | some value ↦ some value
  | none ↦ get_field object second
]

abbrev object_of : Option Value → Option Fields
object_of none = none
object_of (some value) = as_object value

-- `metrics.insert(..)` where the value is there
abbrev put_if : Fields → String → Option (List Value) → Fields
put_if metrics key none = metrics
put_if metrics key (some values) = put_field metrics key (array values)

-- What the loop over the branches of a file has: the builder, and the branches as they are kept.
pub record BranchRows : Type 0 where
  pub builder : CoverageBuilder
  pub normalized : List Value

abbrev normalized_branch : ℕ → ℤ → ℤ → ℤ → Value
normalized_branch index line true_count false_count = obj (
    field "false_hits" (int false_count) (
      field "index" (int (pos index))
        (field "line" (int line) (field "true_hits" (int true_count) end))))

module _ (dec : Decoders) (fs : FileSystem) where
  -- a segment with at least four values; one without a count is passed over
  unfoldable pub segment_values : CoverageBuilder → String → List Value → AppResult CoverageBuilder
  segment_values b file (line_value ∷ column ∷ count ∷ flag ∷ _) = do
    line ← value_i64 dec line_value
    hits ← value_i64 dec count
    has_count ← ok_or (as_bool flag) (parse_error "LLVM segment count flag must be a boolean")
    ok (if has_count then add_counted fs b file line hits (some (ltb_ℤ (pos 0) hits)) else b)
  segment_values b file _ =
      err (parse_error "LLVM segment must contain line, column, count, and flag")

  unfoldable pub add_segment : String → CoverageBuilder → Value → AppResult CoverageBuilder
  add_segment file b segment =
      ok_or (as_array segment) (parse_error "LLVM segment must be an array")
      >>= segment_values b file

  unfoldable pub add_segments : String → CoverageBuilder → Option Value → AppResult CoverageBuilder
  add_segments file b none = ok b
  add_segments file b (some value) =
      ok_or (as_array value) (parse_error "LLVM segments must be an array")
      >>= fold_result (add_segment file) b

  unfoldable pub positive_line : Value → AppResult ℤ
  positive_line value = do
    line ← value_i64 dec value
    reject_if (ltb_ℤ line (pos 1))
        (parse_error (concat ("LLVM branch line must be positive: " ∷ show_ℤ line ∷ [])))
    ok line

  -- a branch as an array of at least six values
  unfoldable pub branch_array : List Value → AppResult (ℤ × (ℤ × ℤ))
  branch_array (line_value ∷ _ ∷ _ ∷ _ ∷ on_true ∷ on_false ∷ _) = do
    line ← positive_line line_value
    true_count ← value_i64 dec on_true
    false_count ← value_i64 dec on_false
    ok (line, (true_count, false_count))
  branch_array _ = err (parse_error "LLVM branch array must contain at least six values")

  unfoldable pub branch_object : Fields → AppResult (ℤ × (ℤ × ℤ))
  branch_object object = do
    line_value ←
        ok_or (either_field object "line" "line_start")
          (parse_error "LLVM branch object is missing line")
    line ← positive_line line_value
    on_true ←
        ok_or (either_field object "true_count" "trueCount")
          (parse_error "LLVM branch object is missing true count")
    true_count ← value_i64 dec on_true
    on_false ←
        ok_or (either_field object "false_count" "falseCount")
          (parse_error "LLVM branch object is missing false count")
    false_count ← value_i64 dec on_false
    ok (line, (true_count, false_count))

  -- `llvm_branch_counts`
  unfoldable pub llvm_branch_counts : Value → AppResult (ℤ × (ℤ × ℤ))
  llvm_branch_counts value = elim (as_array value) [
    | some values ↦ branch_array values
    | none ↦ elim (as_object value) [
      | some object ↦ branch_object object
      | none ↦ err (parse_error "LLVM branch entry must be an array or object")
    ]
  ]

  unfoldable pub add_llvm_branch : String → BranchRows → Value → AppResult BranchRows
  add_llvm_branch file r branch = do
    (line, (true_count, false_count)) ← llvm_branch_counts branch
    ok (record {
      builder = add_branches fs r.builder file line (pos 2) (
          pos (
            (if ltb_ℤ (pos 0) true_count then 1 else 0)
            + (if ltb_ℤ (pos 0) false_count then 1 else 0)));
      normalized =
          r.normalized ++ normalized_branch (length r.normalized) line true_count false_count ∷ [];
    })

  -- the builder, and the kept branches where the file has branches
  unfoldable pub add_llvm_branches :
      String → CoverageBuilder → Option Value → AppResult (CoverageBuilder × Option (List Value))
  add_llvm_branches file b none = ok (b, none)
  add_llvm_branches file b (some value) = do
    branches ← ok_or (as_array value) (parse_error "LLVM branches must be an array")
    r ← fold_result (add_llvm_branch file) (record { builder = b; normalized = [] }) branches
    ok (r.builder, some r.normalized)

  unfoldable pub put_number : Fields → String → Option Value → AppResult Fields
  put_number metrics key none = ok metrics
  put_number metrics key (some value) =
      value_i64 dec value >>= λ n. ok (put_field metrics key (int n))

  -- the counts of one kind of a summary, where they are an object
  unfoldable pub put_counts : String → Fields → Option Fields → AppResult Fields
  put_counts name metrics none = ok metrics
  put_counts name metrics (some payload) = do
    totals ← put_number metrics (concat ("total_" ∷ name ∷ [])) (get_field payload "count")
    put_number totals (concat ("covered_" ∷ name ∷ [])) (get_field payload "covered")

  unfoldable pub summary_counts : Fields → Fields → String → AppResult Fields
  summary_counts summary metrics name = put_counts name metrics (object_of (get_field summary name))

  unfoldable pub llvm_summary_metrics : Fields → AppResult Fields
  llvm_summary_metrics summary = do
    metrics ←
        fold_result (summary_counts summary) end
          ("lines" ∷ "branches" ∷ "functions" ∷ "regions" ∷ [])
    ok (put_field metrics "llvm_summary" (obj summary))

  -- the metrics of a file, if it has a summary, functions or branches
  unfoldable pub file_metrics :
      Option Value → Option (List Value) → Option (List Value) → AppResult (Option Fields)
  file_metrics (some value) functions branches = do
    summary ← object_or value "LLVM summary must be an object"
    metrics ← llvm_summary_metrics summary
    ok (some (put_if (put_if metrics "llvm_functions" functions) "llvm_branches" branches))
  file_metrics none functions branches = ok (
      if is_some functions || is_some branches
      then some (put_if (put_if end "llvm_functions" functions) "llvm_branches" branches)
      else none)

  unfoldable pub put_metrics : CoverageBuilder → String → Option Fields → CoverageBuilder
  put_metrics b file none = b
  put_metrics b file (some metrics) = add_file_metrics fs b file metrics

  -- an entry of `files` whose name is known
  unfoldable pub add_payload :
      Records → CoverageBuilder → Fields → String → AppResult CoverageBuilder
  add_payload records b payload file = do
    segments ← add_segments file b (get_field payload "segments")
    (branches, normalized) ← add_llvm_branches file segments (get_field payload "branches")
    metrics ← file_metrics (get_field payload "summary") (BTree.get records file) normalized
    ok (put_metrics branches file metrics)

  unfoldable pub add_llvm_file : Records → CoverageBuilder → Value → AppResult CoverageBuilder
  add_llvm_file records b value = do
    payload ← object_or value "LLVM file entry must be an object"
    file ← text_or (get_field payload "filename") "LLVM file entry is missing filename"
    add_payload records b payload file

  unfoldable pub add_unit : CoverageBuilder → Value → AppResult CoverageBuilder
  add_unit b value = do
    unit ← object_or value "LLVM data entry must be an object"
    records ← function_records dec (get_field unit "functions")
    files ← array_or (get_field unit "files") "LLVM data entry must contain a files array"
    fold_result (add_llvm_file records) b files

  unfoldable pub parse_llvm : String → List ℕ → Option String → AppResult CoverageReport
  parse_llvm path bytes repo = do
    document ← json_value dec bytes
    units ← array_or (lookup document "data") "LLVM JSON must contain a data array"
    b ← fold_result add_unit (new repo) units
    ok (
        build b "llvm" path
          ("LLVM JSON segments are normalized to segment start lines; aggregate region coverage is preserved from summaries."
            ∷ [])
          no_details)
