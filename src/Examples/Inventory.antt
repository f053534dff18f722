-- ===== src/Examples/Inventory.antt =====
-- The theorems about parsing composite artifacts, at an inventory of one source with two regions
-- and at a report of coverage.py.
use coverage_mcp.Prelude.{
  ℕ, zero, suc, ◌-◌, ◌<◌, String, ◌≡◌, refl, true, false, none, some, List, [], ◌∷◌, All, length,
  ltb, arith,
}
use coverage_mcp.Prelude.Int.{pos}
use coverage_mcp.Order.{text_ord, int_ord, pair_ord}
use coverage_mcp.BTree
use coverage_mcp.Error.{AppResult, ok}
use coverage_mcp.Json.{Value, null, str, int, arr, nil, item, obj, field, end}
use coverage_mcp.Text.{concat, show_ℤ, any_char}
use coverage_mcp.Parser.{Decoders, decoded, finite}
use coverage_mcp.Parser.Select.{Files}
use coverage_mcp.Composite.{Inventory, CanonicalRegion, region_key}
use coverage_mcp.Composite.Assemble.{assemble}
use coverage_mcp.Composite.Denominator.{assemble-total_regions}
use coverage_mcp.Composite.Hash.{hex_encode, source_hash, source_hash-validate_sha256}
use coverage_mcp.Composite.Parse.{validate_sha256}
use coverage_mcp.Composite.Parse.Derive.{derive_standard_regions}
use coverage_mcp.Composite.Parse.Evidence.{IsEvidence, derive_standard_regions-IsEvidence}
use coverage_mcp.Composite.Parse.Inventory.{parse_inventory}
use coverage_mcp.Composite.Parse.Valid.{IsInventory, parse_inventory-IsInventory}
use coverage_mcp.Examples.{fs}

abbrev region_value : ℕ → Value
region_value line = obj (
    field "discriminator" (str "d")
      (field "end_line" (int (pos line)) (field "start_line" (int (pos line)) end)))

abbrev one_item : String → Value
one_item text = arr (item (str text) nil)

abbrev hash : String
hash = "0123456789ABCDEF0123456789abcdef0123456789abcdef0123456789abcdef"

abbrev entry_value : Value
entry_value = obj (
    field "expected_formats" (one_item "LLVM-JSON") (
      field "language" (str "Rust") (
        field "logical_source_id" (str "core") (
          field "package" (str "core") (
            field "path" (str "src/a.rs") (
              field "regions" (arr (item (region_value 1) (item (region_value 2) nil))) (
                field "role" (str "production")
                  (field "source_hash" (str hash) (field "variants" (one_item "cpu") end)))))))))

abbrev inventory_value : Value
inventory_value = obj (
    field "entries" (arr (item entry_value nil)) (
      field "mapping_version" (str "coverage-mcp-regions-v1") (
        field "schema" (str "coverage-mcp-inventory-v1") (field "source_revision" (str "r1") end))))

abbrev pub reading : Value → Decoders
reading value = record {
  f64_of_text = λ text. decoded (finite (pos 0) 0);
  text_of_f64 = λ number. "1";
  json_of_f64 = λ number. null;
  from_utf8 = λ bytes. decoded "";
  from_utf8_lossy = λ bytes. "";
  from_slice = λ bytes. decoded value;
  xml_events = λ bytes. [];
}

abbrev inventory : Inventory
inventory = record {
  schema = "coverage-mcp-inventory-v1";
  mapping_version = "coverage-mcp-regions-v1";
  source_revision = "r1";
  entries =
      record {
        logical_source_id = "core";
        path = "src/a.rs";
        package_name = "core";
        component_id = "core";
        language = "rust";
        role = "production";
        source_hash = "0123456789abcdef0123456789abcdef0123456789abcdef0123456789abcdef";
        variants = "cpu" ∷ [];
        expected_formats = "llvm" ∷ [];
        regions =
            record { start_line = pos 1; end_line = pos 1; discriminator = "d" }
            ∷ record { start_line = pos 2; end_line = pos 2; discriminator = "d" }
            ∷ [];
      }
      ∷ [];
}

inventory_lem : parse_inventory (reading inventory_value) (ok []) ≡ ok inventory
unfolding parse_inventory BTree.contains BTree.add pair_ord int_ord
inventory_lem = refl

parse_inventory-IsInventory_example : IsInventory inventory
parse_inventory-IsInventory_example =
    parse_inventory-IsInventory (reading inventory_value) (ok []) inventory inventory_lem

abbrev no_hash : String → AppResult String
no_hash path = ok ""

assemble-total_regions_example :
    (assemble fs no_hash "/repo" inventory [] (some "r1") false).total_regions ≡ 2
assemble-total_regions_example =
    assemble-total_regions (reading inventory_value) (ok []) inventory fs no_hash "/repo" []
      (some "r1") false inventory_lem (unfold any_char in (refl, tt))

-- Two regions of two sources whose ids and discriminators have colons share a key.
shared_key : region_key "a" (pos 1) (pos 2) "3:4:x" ≡ region_key "a:1:2" (pos 3) (pos 4) "x"
unfolding region_key
shared_key = refl

-- 32 bytes that stand for a digest
abbrev repeated : ℕ → List ℕ
repeated zero = []
repeated (suc n) = 171 ∷ repeated n

abbrev digest : List ℕ → List ℕ
digest bytes = repeated 32

digest-sized : (bytes : List ℕ) → (length (digest bytes) ≡ 32) × All (λ b. b < 256) (digest bytes)
digest-sized bytes = (refl, small 32)
  where
    small : (n : ℕ) → All (λ b. b < 256) (repeated n)
    small zero = tt
    small (suc n) = (omega arith, small n)

abbrev hashed : String
hashed = hex_encode (repeated 32)

source_hash-validate_sha256_example : validate_sha256 hashed "inventory entry core" ≡ ok tt
source_hash-validate_sha256_example =
    source_hash-validate_sha256 digest (ok (1 ∷ [])) hashed "inventory entry core" digest-sized
      (unfold source_hash in refl)

abbrev python_value : Value
python_value = obj (
    field "files"
      (obj (
        field "a.py"
          (obj (
            field "executed_lines" (arr (item (int (pos 3)) nil))
              (field "missing_lines" (arr (item (int (pos 4)) nil)) end)))
          end))
      end)

abbrev pub files : Files
files = record { exists = λ path. true; size = λ path. ok 10; content = λ path. ok [] }

abbrev python_row : ℕ → CanonicalRegion
python_row line = record {
  path = "a.py";
  logical_source_id = none;
  start_line = pos line;
  end_line = pos line;
  discriminator = concat ("python:line:" ∷ show_ℤ (pos line) ∷ []);
  hits = pos (4 - line);
  covered = ltb line 4;
  source_hash = none;
}

derived_lem :
    derive_standard_regions (reading python_value) fs none files "cov.json" "coveragepy"
    ≡ ok (python_row 3 ∷ python_row 4 ∷ [])
unfolding derive_standard_regions concat show_ℤ
derived_lem = refl

derive_standard_regions-IsEvidence_example : All IsEvidence (python_row 3 ∷ python_row 4 ∷ [])
derive_standard_regions-IsEvidence_example =
    derive_standard_regions-IsEvidence (reading python_value) fs none files "cov.json" "coveragepy"
      (python_row 3 ∷ python_row 4 ∷ []) refl derived_lem
