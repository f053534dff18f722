-- ===== src/Query/Load.antt =====
-- `report_path`, `source_state`, `load`, `load_composite` and `decode_composite` of query.rs. The
-- disk, the store, the report parser and the texts of JSON values are parameters.
pub mod Composite
pub mod Select
pub mod Verified
pub mod Tally
pub mod Accepted
pub mod Receipt
use Prim.Native.String.{◌++◌, len}
use coverage_mcp.Prelude.{
  is_nil, ℕ, ◌*◌, String, Bool, true, false, not, ◌&&◌, ◌||◌, Option, none, some, List, [], ◌∷◌,
  length, map, ltb, leb, str_eq, unwrap_or, is_some, is_some_and, is_none_or, if◌then◌else◌,
}
use coverage_mcp.Prelude.Int.{ℤ, negsuc, pos, ◌+i64◌, ltb_ℤ, eqb_ℤ}
use coverage_mcp.Order.{text_ord}
use coverage_mcp.BTree
use coverage_mcp.BTree.{BTreeMap, BTreeSet, values}
use coverage_mcp.Error.{
  AppError, io, not_found, AppResult, ok, err, ◌>>=◌, ◌>>◌, reject_if, ok_or, fold_result,
}
use coverage_mcp.Json.{
  Value, null, str, obj, Fields, end, field, index, lookup, get_field, put_field, as_str, as_i64,
  as_array, as_object, is_text, is_object, value_eq,
}
use coverage_mcp.Models.{CoverageReport, FileCoverage, total_regions, covered_regions}
use coverage_mcp.Models.Paths.{FileSystem, is_absolute, strip_prefix}
use coverage_mcp.Text.{concat, contains, is_empty, trim, show_ℕ}
use coverage_mcp.Query.{
  Observation, Observations, regions, no_arm, Measurement, SourceState, unverified, matches_receipt,
  changed_or_missing, invalid,
}
use coverage_mcp.Query.Observe.{insert}

-- What the program asks of the disk and of the crates that read from it. Bytes are a text.
pub record Disk : Type 0 where
  pub paths : FileSystem
  pub is_file : String → Bool
  pub read : String → AppResult String
  pub read_report_bytes : String → AppResult String
  -- the size of a file, or none where there is no such file
  pub file_size : String → AppResult (Option ℕ)
  pub digest : String → String
  pub from_slice : String → AppResult Value
  pub parse_coverage_bytes : String → String → AppResult CoverageReport
  pub is_uuid : String → Bool
  pub has_extension : String → Bool
  -- `Value::to_string`
  pub value_text : Value → String

-- What it asks of the store.
pub record Store : Type 0 where
  pub list_snapshots : String → Option String → ℕ → AppResult (List Value)
  pub measurement_report : String → AppResult (Value × CoverageReport)
  pub composite_snapshot : String → AppResult Value
  pub composite_regions_all : String → AppResult (List Value)

-- `Path::join`
abbrev pub join_path : String → String → String
join_path root path = if is_absolute path then path else root ++ ("/" ++ path)

abbrev resolve : FileSystem → String → AppResult String
resolve fs path = ok_or (fs.canonicalize path) (io "cannot canonicalize")

unfoldable pub report_path : FileSystem → String → String → AppResult String
unfolding strip_prefix
report_path fs root path = do
  real_root ← resolve fs root
  real_path ← resolve fs (join_path real_root path)
  if is_some (strip_prefix real_path real_root)
      then ok real_path
      else err (invalid "measurement must be inside the selected repository")

-- One file against the receipt: its state, or none where the search goes on.
abbrev pub expected_hash : Fields → FileCoverage → Option String
expected_hash hashes file = elim (get_field hashes file.file_path) [
  | none ↦ none
  | some v ↦ as_str v
]

-- a path that does not resolve counts as missing
abbrev pub check_at : Disk → String → AppResult String → AppResult Bool
check_at disk expected (err e) = ok false
check_at disk expected (ok path) =
    disk.read path >>= λ bytes. ok (str_eq (disk.digest bytes) expected)

unfoldable pub check_file : Disk → String → FileCoverage → String → AppResult Bool
unfolding report_path
check_file disk root file expected =
    check_at disk expected (report_path disk.paths root file.file_path)

-- the loop of `source_state`, with its early returns
unfoldable pub check_files :
    Disk → String → Fields → SourceState → List FileCoverage → AppResult SourceState
unfolding check_file
check_files disk root hashes state [] = ok state
check_files disk root hashes state (file ∷ files) = elim (expected_hash hashes file) [
  | none ↦ check_files disk root hashes unverified files
  | some expected ↦ check_file disk root file expected >>= λ same. elim same [
    | true ↦ check_files disk root hashes state files
    | false ↦ ok changed_or_missing
  ]
]

unfoldable pub source_state : Disk → String → CoverageReport → Value → AppResult SourceState
unfolding check_files
source_state disk root report receipt = elim (as_object (index receipt "source_hashes")) [
  | none ↦ ok unverified
  | some hashes ↦
      if is_nil report.files
      then ok unverified
      else check_files disk root hashes matches_receipt report.files
]
