-- ===== src/Examples/Composite.antt =====
-- The theorems about composite snapshots, at one source with two regions and full evidence.
use coverage_mcp.Prelude.{ℕ, String, ◌≡◌, ◌≤◌, refl, true, false, none, some, [], ◌∷◌, count, All}
use coverage_mcp.Prelude.Int.{pos}
use coverage_mcp.Order.{text_ord, pair_ord}
use coverage_mcp.Error.{AppResult, ok}
use coverage_mcp.Json.{null}
use coverage_mcp.Composite.{
  Inventory, InventoryEntry, InventoryRegion, CanonicalRegion, CompositeComponentInput,
}
use coverage_mcp.Composite.Assemble.{assemble, expected_of, gathered, inspected, production_of}
use coverage_mcp.Composite.Complete.{is_covered_entry}
use coverage_mcp.Composite.Complete.Snapshot.{IsComplete, assemble-counts, assemble-IsComplete}
use coverage_mcp.Composite.Faultless.{IsInOrder, assemble-IsInOrder}
use coverage_mcp.Examples.{fs}

abbrev inventory_region : ℕ → InventoryRegion
inventory_region line = record { start_line = pos line; end_line = pos line; discriminator = "d" }

abbrev entry : InventoryEntry
entry = record {
  logical_source_id = "core";
  path = "src/a.rs";
  package_name = "core";
  component_id = "rust";
  language = "rust";
  role = "production";
  source_hash = "h";
  variants = "cpu" ∷ [];
  expected_formats = "llvm" ∷ [];
  regions = inventory_region 1 ∷ inventory_region 2 ∷ [];
}

abbrev inventory : Inventory
inventory = record {
  schema = "coverage-mcp-inventory-v1";
  mapping_version = "coverage-mcp-regions-v1";
  source_revision = "r1";
  entries = entry ∷ [];
}

abbrev seen_region : ℕ → CanonicalRegion
seen_region line = record {
  path = "src/a.rs";
  logical_source_id = some "core";
  start_line = pos line;
  end_line = pos line;
  discriminator = "d";
  hits = pos 2;
  covered = true;
  source_hash = none;
}

abbrev input : CompositeComponentInput
input = record {
  descriptor = record {
    component_id = "rust";
    package_variant = "cpu";
    language = "rust";
    format = "llvm";
    inventory_artifact = "inventory.json";
    role = "coverage";
    logical_source_aliases = [];
    toolchain_versions = null;
  };
  artifact_path = "llvm.json";
  artifact_hash = none;
  snapshot_id = none;
  source_revision = none;
  artifact_status = "ingested";
  reused_from_snapshot_id = none;
  regions = seen_region 1 ∷ seen_region 2 ∷ [];
}

abbrev source_hash : String → AppResult String
source_hash path = ok "h"

all_covered :
    (assemble fs source_hash "/repo" inventory (input ∷ []) (some "r1") false).is_complete ≡ true
unfolding assemble text_ord pair_ord
all_covered = refl

assemble-counts_example :
    ((assemble fs source_hash "/repo" inventory (input ∷ []) (some "r1") false).covered_regions
      ≡ count
          (is_covered_entry false
            (gathered fs source_hash "/repo" inventory (input ∷ []) (some "r1") false)
            (inspected fs source_hash "/repo" inventory
              (input ∷ [])
              (some "r1")
              false).source_mismatch_sources)
          (expected_of fs source_hash "/repo" inventory (input ∷ []) (some "r1") false))
    × ((assemble fs source_hash "/repo" inventory (input ∷ []) (some "r1") false).covered_regions
        ≤ (assemble fs source_hash "/repo" inventory (input ∷ []) (some "r1") false).total_regions)
assemble-counts_example =
    assemble-counts fs source_hash "/repo" inventory (input ∷ []) (some "r1") false

assemble-IsComplete_example :
    IsComplete fs source_hash "/repo" inventory
      (input ∷ [])
      (some "r1")
      false
      (assemble fs source_hash "/repo" inventory (input ∷ []) (some "r1") false)
assemble-IsComplete_example =
    assemble-IsComplete fs source_hash "/repo" inventory (input ∷ []) (some "r1") false all_covered

assemble-IsInOrder_example :
    All
      (IsInOrder source_hash
        (input ∷ [])
        (gathered fs source_hash "/repo" inventory (input ∷ []) (some "r1") false).descriptors)
      (production_of inventory)
assemble-IsInOrder_example =
    assemble-IsInOrder fs source_hash "/repo" inventory (input ∷ []) (some "r1") false all_covered
