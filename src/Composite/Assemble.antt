-- ===== src/Composite/Assemble.antt =====
-- The result of `assemble` (src/composite.rs): the three loops, the reasons and the status.
-- `source_hash` is the hash of a source of the repository, an I/O error where it cannot be read.
use coverage_mcp.Prelude.{
  is_nil, ℕ, ◌-◌, String, Bool, not, ◌&&◌, Option, List, [], filter, length, ltb, str_eq, ◌==◌,
  is_some_and, if◌then◌else◌,
}
use coverage_mcp.Order.{text_ord, pair_ord}
use coverage_mcp.BTree
use coverage_mcp.BTree.{BTreeMap, BTreeSet, keys}
use coverage_mcp.Error.{AppResult}
use coverage_mcp.Json.{Fields, end}
use coverage_mcp.Models.Paths.{FileSystem}
use coverage_mcp.Composite.{
  Inventory, InventoryEntry, CompositeComponentInput, ExpectedRegion, expected_regions,
  expect_entries,
}
use coverage_mcp.Composite.Gather.{Evidence, Gathered}
use coverage_mcp.Composite.Gather.Loop.{gather_inputs}
use coverage_mcp.Composite.Inspect.{Inspected, inspect_entries}
use coverage_mcp.Composite.Regions.{RegionRow, Rows, add_rows}
use coverage_mcp.Composite.Summary.{ComponentSummary, component_summaries}

pub record CompositeBuild : Type 0 where
  pub is_complete : Bool
  pub covered_regions : ℕ
  pub total_regions : ℕ
  pub components : List ComponentSummary
  pub reasons : List String
  pub remediation : BTreeMap String ℕ
  pub component_evidence : List Evidence
  pub regions : List RegionRow
  pub production_entries : ℕ
  pub catalogue_entries : ℕ
  pub artifact_hashes : Fields
  pub toolchain_versions : Fields

abbrev pub production_of : Inventory → List InventoryEntry
production_of inventory =
    filter (λ (entry : InventoryEntry). str_eq entry.role "production") inventory.entries

abbrev reason_when : Bool → String → BTreeSet String → BTreeSet String
reason_when test reason reasons = if test then BTree.insert reasons reason tt else reasons

unfoldable first_reasons : Inventory → Option String → Bool → BTreeSet String
unfolding BTree.insert
first_reasons inventory checkout_revision checkout_dirty =
    reason_when checkout_dirty
      "checkout is dirty; production composite evidence requires a clean revision"
      (reason_when
        (not
          (is_some_and checkout_revision (λ revision. str_eq inventory.source_revision revision)))
        "inventory source revision does not match the checkout"
        (reason_when (is_nil (production_of inventory)) "inventory contains no production entries"
          []))

abbrev gathered_nothing : BTreeSet String → Gathered
gathered_nothing reasons = record {
  reasons = reasons;
  observed = [];
  descriptor_statuses = [];
  source_mismatch_keys = [];
  descriptors = [];
  component_evidence = [];
  artifact_hashes = end;
  toolchain_versions = end;
}

module _ (fs : FileSystem) (source_hash : String → AppResult String) (root : String)
    (inventory : Inventory) (inputs : List CompositeComponentInput)
    (checkout_revision : Option String) (checkout_dirty : Bool) where
  abbrev pub expected_of : BTreeMap String ExpectedRegion
  expected_of = expected_regions (production_of inventory)

  unfoldable pub gathered : Gathered
  unfolding gather_inputs first_reasons expect_entries
  gathered =
      gather_inputs fs root expected_of inventory inputs
        (gathered_nothing (first_reasons inventory checkout_revision checkout_dirty))

  unfoldable pub inspected : Inspected
  unfolding inspect_entries gathered
  inspected =
      inspect_entries source_hash inputs gathered.descriptors (production_of inventory)
        (record { reasons = gathered.reasons; source_mismatch_sources = [] })

  unfoldable pub rows : Rows
  unfolding add_rows gathered inspected
  rows =
      add_rows checkout_dirty gathered inspected.source_mismatch_sources expected_of
        (record { covered_keys = []; region_rows = []; remediation_counts = [] })

  unfoldable pub assemble : CompositeBuild
  unfolding rows gathered inspected component_summaries expect_entries
  assemble = record {
    is_complete =
        is_nil inspected.reasons
        && ltb 0 (length expected_of)
        && length rows.covered_keys == length expected_of;
    covered_regions = length rows.covered_keys;
    total_regions = length expected_of;
    components = component_summaries expected_of rows.covered_keys inspected.reasons;
    reasons = keys inspected.reasons;
    remediation = rows.remediation_counts;
    component_evidence = gathered.component_evidence;
    regions = rows.region_rows;
    production_entries = length (production_of inventory);
    catalogue_entries = length inventory.entries - length (production_of inventory);
    artifact_hashes = gathered.artifact_hashes;
    toolchain_versions = gathered.toolchain_versions;
  }
