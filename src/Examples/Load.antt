-- ===== src/Examples/Load.antt =====
-- The theorems about loading, at a report with a receipt and at a composite snapshot.
use coverage_mcp.Prelude.{
  ℕ, String, ◌≡◌, ◌↔◌, refl, true, false, none, some, List, [], ◌∷◌, length, count, arith,
}
use coverage_mcp.Prelude.Int.{pos}
use coverage_mcp.Order.{text_ord}
use coverage_mcp.Error.{ok}
use coverage_mcp.Json.{Value, str, int, obj, field, end}
use coverage_mcp.Query.{Measurement, matches_receipt}
use coverage_mcp.Query.Load.{Disk}
use coverage_mcp.Query.Load.Composite.{decode_composite, recorded}
use coverage_mcp.Query.Load.Select.{load, load_file}
use coverage_mcp.Query.Load.Verified.{IsVerified, load-IsVerified}
use coverage_mcp.Query.Load.Tally.Totals.{is_covered_row, decode_composite-totals}
use coverage_mcp.Query.Load.Receipt.{IsLoaded, load_file-IsLoaded}
use coverage_mcp.Examples.{fs, report, base, ok_value}

abbrev file_receipt : Value
file_receipt = obj (
    field "build_id" (str "b1") (
      field "report_sha256" (str "bytes")
        (field "source_hashes" (obj (field "src/a.rs" (str "source") end)) end)))

abbrev disk : Disk
disk = record {
  paths = fs;
  is_file = λ path. true;
  read = λ path. ok "source";
  read_report_bytes = λ path. ok "bytes";
  file_size = λ path. ok (some 10);
  digest = λ bytes. bytes;
  from_slice = λ text. ok file_receipt;
  parse_coverage_bytes = λ path bytes. ok (report true false);
  is_uuid = λ text. false;
  has_extension = λ text. true;
  value_text = λ value. "v";
}

abbrev loaded : Measurement
loaded = ok_value base (load disk none "/repo" "key" (some "report.lcov") none)

loaded_lem : load disk none "/repo" "key" (some "report.lcov") none ≡ ok loaded
unfolding load
loaded_lem = refl

loaded_state : loaded.source_state ≡ matches_receipt
unfolding load
loaded_state = refl

load-IsVerified_example : IsVerified disk "/repo" loaded.report loaded.context
load-IsVerified_example =
    load-IsVerified disk none "/repo" "key" (some "report.lcov") none loaded loaded_lem loaded_state

abbrev loaded_file : Measurement
loaded_file = ok_value base (load_file disk "/repo" "report.lcov")

loaded_file_lem : load_file disk "/repo" "report.lcov" ≡ ok loaded_file
unfolding load_file
loaded_file_lem = refl

load_file-IsLoaded_example :
    (load_file disk "/repo" "report.lcov" ≡ ok loaded_file)
    ↔ IsLoaded disk "/repo" "report.lcov" loaded_file
load_file-IsLoaded_example = load_file-IsLoaded disk "/repo" "report.lcov" loaded_file

loaded_file-IsLoaded : IsLoaded disk "/repo" "report.lcov" loaded_file
loaded_file-IsLoaded = (load_file-IsLoaded disk "/repo" "report.lcov" loaded_file).0 loaded_file_lem

abbrev region : ℕ → String → String → Value
region line state region_key = obj (
    field "end_line" (int (pos line)) (
      field "path" (str "src/a.rs") (
        field "region_key" (str region_key) (
          field "source_hash" (str "source")
            (field "start_line" (int (pos line)) (field "state" (str state) end))))))

abbrev region_rows : List Value
region_rows = region 1 "covered" "r1" ∷ region 2 "unmeasured" "r2" ∷ []

abbrev snapshot : Value
snapshot = obj (field "covered_regions" (int (pos 1)) (field "total_regions" (int (pos 2)) end))

abbrev decoded : Measurement
decoded = ok_value base (decode_composite disk "/repo" "c1" snapshot region_rows)

decoded_lem : decode_composite disk "/repo" "c1" snapshot region_rows ≡ ok decoded
unfolding decode_composite text_ord
decoded_lem = refl

decode_composite-totals_example :
    (recorded snapshot "total_regions" ≡ pos (length region_rows))
    × (recorded snapshot "covered_regions" ≡ pos (count is_covered_row region_rows))
decode_composite-totals_example =
    decode_composite-totals disk "/repo" "c1" snapshot region_rows decoded (omega arith) decoded_lem
