-- ===== src/Query/Load/Select.antt =====
-- `load` and `load_composite` of query.rs: the choice of a measurement, and its receipt.
use Prim.Native.String.{◌++◌, len}
use coverage_mcp.Prelude.{
  ◌*◌, String, Bool, true, false, not, ◌&&◌, ◌||◌, Option, none, some, List, [], ◌∷◌, length, ltb,
  leb, is_some, is_some_and, is_none_or, if◌then◌else◌,
}
use coverage_mcp.Order.{text_ord}
use coverage_mcp.BTree
use coverage_mcp.BTree.{BTreeSet}
use coverage_mcp.Error.{AppError, not_found, AppResult, ok, err, ◌>>=◌, ◌>>◌, reject_if, ok_or}
use coverage_mcp.Json.{Value, null, obj, end, field, index, lookup, as_str, is_text, is_object}
use coverage_mcp.Models.{CoverageReport}
use coverage_mcp.Text.{concat, contains, is_empty, trim, show_ℕ}
use coverage_mcp.Query.{Measurement, unverified, invalid}
use coverage_mcp.Query.Load.{Disk, Store, join_path, report_path, source_state}
use coverage_mcp.Query.Load.Composite.{decode_composite}

-- `filter_map(|row| row["suite"].as_str()).collect()`
unfoldable suites : BTreeSet String → List Value → BTreeSet String
unfolding BTree.insert
suites found [] = found
suites found (row ∷ rows) = elim (as_str (index row "suite")) [
  | none ↦ suites found rows
  | some suite ↦ suites (BTree.insert found suite tt) rows
]

abbrev first_id : List Value → Option String
first_id [] = none
first_id (row ∷ rows) = as_str (index row "id")

-- The latest measurement, where its suite is clear.
unfoldable latest : Store → String → Option String → AppResult String
unfolding suites show_ℕ concat
latest store root suite = do
  snapshots ← store.list_snapshots root suite 5001
  reject_if (not (is_some suite) && leb 5001 (length snapshots))
      (invalid "large history requires an explicit suite or measurement")
  reject_if (ltb 1 (length (suites [] snapshots))) (
      invalid (
        concat (
          "latest measurement is ambiguous; provide measurement or suite ("
          ∷ show_ℕ (length (suites [] snapshots))
          ∷ " suites)"
          ∷ [])))
  ok_or (first_id snapshots) (not_found "no measurement; pass a coverage report path")

unfoldable pub select : Option Store → String → Option String → Option String → AppResult String
unfolding trim latest
select store root (some reference) suite =
    if not (is_empty (trim reference)) && leb (len reference) 4096
    then ok reference
    else err (invalid "measurement must contain 1–4096 bytes")
select store root none suite = do
  saved ←
      ok_or store
        (invalid "saved measurements require the server; use a report path for a standalone query")
  latest saved root suite

-- A reference that is no file and looks like an identifier.
abbrev pub is_saved : Disk → String → String → Bool
is_saved disk root selected =
    not (disk.is_file (join_path root selected))
    && (disk.is_uuid selected || (not (contains selected "/") && not (disk.has_extension selected)))

abbrev pub one_of : List String → Value → Bool
one_of [] v = false
one_of (word ∷ words) v = is_text v word || one_of words v

abbrev pub bad_build : Value → Bool
bad_build v = is_none_or (as_str v) (λ s. is_empty s || ltb 256 (len s))

unfoldable pub check_receipt : String → Value → AppResult (Unit {0})
check_receipt report_hash receipt = do
  reject_if (not (is_text (index receipt "report_sha256") report_hash))
      (invalid "measurement context does not match report content")
  reject_if
      (not (is_object (index receipt "source_hashes")) || bad_build (index receipt "build_id"))
      (invalid "measurement context requires source_hashes and build_id")
  reject_if
      (is_some_and (lookup receipt "test_status")
          (λ v. not (one_of ("passed" ∷ "failed" ∷ "unknown" ∷ []) v))
        || is_some_and (lookup receipt "scope")
            (λ v. not (one_of ("full" ∷ "selected_tests" ∷ []) v)))
      (invalid "context test_status or scope is invalid")

-- The receipt beside a report, or null where there is none.
unfoldable pub read_receipt : Disk → String → String → String → AppResult Value
unfolding report_path check_receipt
read_receipt disk root path report_hash = do
  size ← disk.file_size (path ++ ".context.json")
  elim size [
    | none ↦ ok null
    | some bytes ↦ do
      reject_if (ltb (1024 * 1024) bytes) (invalid "measurement context exceeds 1 MiB")
      receipt_path ← report_path disk.paths root (path ++ ".context.json")
      text ← disk.read receipt_path
      receipt ← disk.from_slice text
      check_receipt report_hash receipt
      ok receipt
  ]

unfoldable pub load_file : Disk → String → String → AppResult Measurement
unfolding report_path read_receipt source_state
load_file disk root selected = do
  path ← report_path disk.paths root selected
  bytes ← disk.read_report_bytes path
  report ← disk.parse_coverage_bytes path bytes
  receipt ← read_receipt disk root path (disk.digest bytes)
  state ← source_state disk root report receipt
  ok (record {
    reference = selected;
    report = report;
    context = receipt;
    source_state = state;
    native = none;
  })

unfoldable pub load_composite : Disk → Store → String → String → String → AppResult Measurement
unfolding decode_composite
load_composite disk store root repo_key reference = do
  snapshot ← store.composite_snapshot reference
  reject_if (not (is_text (index snapshot "repo_key") repo_key))
      (invalid "measurement belongs to another repository")
  rows ← store.composite_regions_all reference
  decode_composite disk root reference snapshot rows

abbrev pub is_not_found : AppError → Bool
is_not_found (not_found _) = true
is_not_found _ = false

-- the measurement of a stored snapshot
unfoldable pub saved_measurement :
    String → String → Option String → Value × CoverageReport → AppResult Measurement
saved_measurement repo_key selected suite (snapshot, report) = do
  reject_if (not (is_text (index snapshot "repo_key") repo_key))
      (invalid "measurement belongs to another repository")
  reject_if (is_some_and suite (λ s. not (is_text (index snapshot "suite") s)))
      (invalid "suite does not match measurement")
  ok (record {
    reference = selected;
    report = report;
    context = obj (
        field "recorded_revision" (index snapshot "commit_sha")
          (field "suite" (index snapshot "suite") end));
    source_state = unverified;
    native = none;
  })

-- an ordinary snapshot, or else a composite one
abbrev pub saved_or_composite :
    Disk
    → Store
    → String
    → String
    → String
    → Option String
    → AppResult (Value × CoverageReport)
    → AppResult Measurement
saved_or_composite disk store root repo_key selected suite (err e) =
    if is_not_found e then load_composite disk store root repo_key selected else err e
saved_or_composite disk store root repo_key selected suite (ok saved) =
    saved_measurement repo_key selected suite saved

unfoldable pub load_saved :
    Disk → Store → String → String → String → Option String → AppResult Measurement
unfolding load_composite saved_measurement
load_saved disk store root repo_key selected suite =
    saved_or_composite disk store root repo_key selected suite (store.measurement_report selected)

unfoldable pub load :
    Disk → Option Store → String → String → Option String → Option String → AppResult Measurement
unfolding select load_saved load_file contains
load disk store root repo_key reference suite = do
  selected ← select store root reference suite
  if not (is_saved disk root selected) then load_file disk root selected else do
    saved ←
        ok_or store (
          invalid "saved measurements require the server; use a report path for a standalone query")
    load_saved disk saved root repo_key selected suite
