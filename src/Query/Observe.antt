-- ===== src/Query/Observe.antt =====
-- `observations` of query.rs: what a report's LLVM functions and its counted lines observe.
pub mod Keyed
use coverage_mcp.Prelude.{
  ℕ, String, Bool, true, false, not, ◌||◌, Option, none, some, List, [], ◌∷◌, get_elem?, str_eq,
  if◌then◌else◌,
}
use coverage_mcp.Prelude.Int.{ℤ, pos, pos_part, max_ℤ, leb_ℤ, ltb_ℤ, eqb_ℤ}
use coverage_mcp.Order.{Ord, text_ord}
use coverage_mcp.BTree
use coverage_mcp.Error.{AppResult, ok, err, ◌>>=◌, ◌>>◌, reject_if, ok_or, fold_result}
use coverage_mcp.Json.{Value, as_array, as_str, as_i64, index}
use coverage_mcp.Models.{CoverageReport, FileCoverage, LineCoverage}
use coverage_mcp.Models.Paths.{FileSystem, normalize_report_path}
use coverage_mcp.Query.{
  Metric, regions, branches, lines, Arm, no_arm, true_arm, false_arm, Span, Observation,
  Observations, Measurement, key, invalid,
}

-- `number`: a stored coordinate or count, which is never negative.
unfoldable pub number : List Value → ℕ → AppResult ℤ
number values i = elim (get_elem? values i) [
  | none ↦ err (invalid "invalid stored LLVM region coordinate or count")
  | some v ↦ elim (as_i64 v) [
    | none ↦ err (invalid "invalid stored LLVM region coordinate or count")
    | some z ↦
        if leb_ℤ (pos 0) z
        then ok z
        else err (invalid "invalid stored LLVM region coordinate or count")
  ]
]

-- the later of two observations of one key gives only its hits
abbrev pub merge_hits : Observation → Observation → Observation
merge_hits previous o = record previous { hits = max_ℤ previous.hits o.hits }

unfoldable pub insert : Observations → Observation → Observations
unfolding key BTree.upsert
insert m o = BTree.upsert m (key o) (λ previous. merge_hits previous o) o

abbrev is_branches : Metric → Bool
is_branches branches = true
is_branches _ = false

abbrev pub arms : Metric → List (ℕ × Arm)
arms branches = (4, true_arm) ∷ (5, false_arm) ∷ []
arms _ = (4, no_arm) ∷ []

-- where in a record its file, its kind and its field stand
abbrev file_column : Metric → ℕ
file_column branches = 6
file_column _ = 5

abbrev field_of : Metric → String
field_of regions = "regions"
field_of branches = "branches"
field_of lines = "lines"

-- `(span[2], span[3]) < (span[0], span[1])`
abbrev ends_before_start : Span → Bool
ends_before_start (a, (b, (c, d))) = ltb_ℤ c a || (if eqb_ℤ c a then ltb_ℤ d b else false)

abbrev pub arm_observation : String → String → Metric → Span → Arm → ℤ → Observation
arm_observation path symbol kind span arm hits = record {
  path = path;
  symbol = symbol;
  span = span;
  kind = kind;
  arm = arm;
  hits = hits;
  identity = none;
  cause = none;
}

unfoldable pub observe_arms :
    String → String → Metric → Span → List Value → Observations → AppResult Observations
unfolding number insert fold_result
observe_arms path symbol kind span values m =
    fold_result
      (λ result arm. do
        hits ← number values arm.0
        ok (insert result (arm_observation path symbol kind span arm.1 hits)))
      m (arms kind)

-- LLVM expansion, skipped and gap records are not code regions.
unfoldable is_code : Metric → List Value → AppResult Bool
unfolding number
is_code branches values = ok true
is_code kind values = do flag ← number values 7; ok (eqb_ℤ flag (pos 0))

unfoldable pub observe_span :
    String → String → Metric → List Value → Observations → AppResult Observations
unfolding number observe_arms
observe_span path symbol kind values m = do
  a ← number values 0
  b ← number values 1
  c ← number values 2
  d ← number values 3
  reject_if (eqb_ℤ a (pos 0) || ends_before_start (a, (b, (c, d))))
      (invalid "invalid LLVM source span")
  observe_arms path symbol kind (a, (b, (c, d))) values m

-- the observation of a counted line
abbrev pub line_observation : LineCoverage → Observation
line_observation line = record {
  path = line.file_path;
  symbol = "";
  span = (line.line_number, (pos 0, (line.line_number, pos 0)));
  kind = lines;
  arm = no_arm;
  hits = if line.covered then pos 1 else pos 0;
  identity = none;
  cause = none;
}

unfoldable pub observe_lines : Observations → List LineCoverage → Observations
unfolding insert
observe_lines m [] = m
observe_lines m (line ∷ rest) =
    observe_lines (if line.count_line then insert m (line_observation line) else m) rest

module _ (fs : FileSystem) (root : String) where
  unfoldable pub observe_row :
      String → String → List Value → Metric → Observations → Value → AppResult Observations
  unfolding number is_code observe_span normalize_report_path
  observe_row path symbol names kind m row = do
    values ← ok_or (as_array row) (invalid "invalid LLVM region")
    file_index ← number values (file_column kind)
    name ←
        ok_or (elim (get_elem? names (pos_part file_index)) [ none ↦ none | some v ↦ as_str v ])
          (invalid "LLVM region references an unknown file")
    if not (str_eq (normalize_report_path fs name (some root)) path) then ok m else do
      code ← is_code kind values
      if code then observe_span path symbol kind values m else ok m

  -- a function without rows of a kind is passed over
  abbrev pub observe_rows :
      String
      → String
      → List Value
      → Observations
      → Metric
      → Option (List Value)
      → AppResult Observations
  observe_rows path symbol names m kind none = ok m
  observe_rows path symbol names m kind (some rows) =
      fold_result (observe_row path symbol names kind) m rows

  unfoldable pub observe_function : String → Observations → Value → AppResult Observations
  unfolding observe_row fold_result
  observe_function path m function = do
    symbol ← ok_or (as_str (index function "name")) (invalid "LLVM function name unavailable")
    names ← ok_or (as_array (index function "filenames")) (invalid "LLVM filenames unavailable")
    fold_result
        (λ result kind.
          observe_rows path symbol names result kind (as_array (index function (field_of kind))))
        m (regions ∷ branches ∷ [])

  abbrev pub observe_functions :
      String → Observations → Option (List Value) → AppResult Observations
  observe_functions path m none = ok m
  observe_functions path m (some functions) = fold_result (observe_function path) m functions

  unfoldable pub observe_file : Observations → FileCoverage → AppResult Observations
  unfolding observe_function fold_result
  observe_file m file =
      observe_functions file.file_path m (as_array (index file.raw_metrics "llvm_functions"))

  unfoldable pub observations : CoverageReport → AppResult Observations
  unfolding observe_file observe_lines fold_result
  observations report = do
    m ← fold_result observe_file [] report.files
    ok (observe_lines m report.lines)

  unfoldable pub measurement_observations : Measurement → AppResult Observations
  unfolding observations
  measurement_observations measurement = elim measurement.native [
    | some native ↦ ok native
    | none ↦ observations measurement.report
  ]
