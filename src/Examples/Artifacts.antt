-- ===== src/Examples/Artifacts.antt =====
-- Tests of a descriptor, a region artifact and a report of LLVM.
use coverage_mcp.Prelude.{ℕ, String, ◌≡◌, refl, Bool, true, false, none, some, [], ◌∷◌}
use coverage_mcp.Prelude.Int.{pos, ◌+i64◌}
use coverage_mcp.Order.{text_ord, int_ord, pair_ord}
use coverage_mcp.BTree
use coverage_mcp.Error.{ok}
use coverage_mcp.Json.{Value, bool, str, int, arr, nil, item, obj, field, end}
use coverage_mcp.Text.{concat, show_ℤ}
use coverage_mcp.Composite.{CanonicalRegion}
use coverage_mcp.Composite.Parse.Artifact.{parse_region_artifact}
use coverage_mcp.Composite.Parse.{composite_descriptor}
use coverage_mcp.Composite.Parse.Derive.{derive_standard_regions}
use coverage_mcp.Examples.{fs}
use coverage_mcp.Examples.Inventory.{reading, files}

-- A descriptor without a role or a format is one of coverage, in the format `auto`.
descriptor_test :
    composite_descriptor (
      obj (
        field "composite"
          (obj (
            field "component_id" (str " rust ") (
              field "inventory_artifact" (str "inventory.json") (
                field "language" (str "rust") (
                  field "logical_source_aliases"
                    (arr (
                      item
                        (obj (
                          field "logical_source_id"
                            (str "core")
                            (field "path" (str "src/a.rs") end)))
                        nil))
                    (field "package_variant" (str "cpu") end))))))
          end))
    ≡ ok (
        some (record {
          component_id = "rust";
          package_variant = "cpu";
          language = "rust";
          format = "auto";
          inventory_artifact = "inventory.json";
          role = "coverage";
          logical_source_aliases = record { path = "src/a.rs"; logical_source_id = "core" } ∷ [];
          toolchain_versions = obj end;
        }))
unfolding composite_descriptor BTree.contains
descriptor_test = refl

abbrev regions_value : Value
regions_value = obj (
    field "mapping_version" (str "coverage-mcp-regions-v1") (
      field "regions"
        (arr (
          item
            (obj (
              field "discriminator" (str "d") (
                field "end_line" (int (pos 2)) (
                  field "hits" (int (pos 3)) (
                    field "path" (str "src/a.rs")
                      (field "source_hash" (str "AB") (field "start_line" (int (pos 1)) end)))))))
            nil))
        (field "schema" (str "coverage-mcp-regions-v1") (field "source_revision" (str "r1") end))))

artifact_test :
    parse_region_artifact (reading regions_value) (ok [])
    ≡ ok (
        record {
          path = "src/a.rs";
          logical_source_id = none;
          start_line = pos 1;
          end_line = pos 2;
          discriminator = "d";
          hits = pos 3;
          covered = true;
          source_hash = some "ab";
        }
        ∷ [])
unfolding parse_region_artifact
artifact_test = refl

abbrev segment : ℕ → ℕ → ℕ → Bool → Value
segment line column hits entry = arr (
    item (int (pos line))
      (item (int (pos column)) (item (int (pos hits)) (item (bool true) (item (bool entry) nil)))))

abbrev llvm_row : ℕ → ℕ → String → ℕ → Bool → CanonicalRegion
llvm_row first last discriminator hits covered = record {
  path = "a.rs";
  logical_source_id = none;
  start_line = pos first;
  end_line = pos last;
  discriminator = discriminator;
  hits = pos hits;
  covered = covered;
  source_hash = none;
}

-- A region of LLVM ends where the next entry begins; the last one is one column wide.
llvm_test :
    derive_standard_regions
      (reading (
        obj (
          field "data"
            (arr (
              item
                (obj (
                  field "files"
                    (arr (
                      item
                        (obj (
                          field "filename" (str "a.rs") (
                            field "segments"
                              (arr (
                                item
                                  (segment 1 5 2 true)
                                  (item (segment 2 1 0 false) (item (segment 4 2 0 true) nil))))
                              end)))
                        nil))
                    end))
                nil))
            end)))
      fs
      none
      files
      "llvm.json"
      "llvm"
    ≡ ok (llvm_row 1 4 "llvm:1:5:4:2" 2 true ∷ llvm_row 4 4 "llvm:4:2:4:3" 0 false ∷ [])
unfolding derive_standard_regions concat show_ℤ ◌+i64◌
llvm_test = refl
