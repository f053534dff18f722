-- ===== src/Composite.antt =====
-- composite.rs: the data of a composite snapshot, and the regions that an inventory expects.
pub mod Gather
pub mod Parse
pub mod Keys
pub mod Hash
pub mod Denominator
pub mod Inspect
pub mod Regions
pub mod Summary
pub mod Assemble
pub mod Complete
pub mod Faultless
use coverage_mcp.Prelude.{
  ℕ, String, Bool, true, false, ◌||◌, Option, none, some, List, [], ◌∷◌, str_eq, if◌then◌else◌,
}
use coverage_mcp.Prelude.Int.{ℤ}
use coverage_mcp.Order.{text_ord}
use coverage_mcp.BTree
use coverage_mcp.BTree.{BTreeMap}
use coverage_mcp.Json.{Value}
use coverage_mcp.Text.{concat, show_ℤ, trim, to_lowercase}

pub record LogicalSourceAlias : Type 0 where
  pub path : String
  pub logical_source_id : String

pub record CompositeArtifactDescriptor : Type 0 where
  pub component_id : String
  pub package_variant : String
  pub language : String
  pub format : String
  pub inventory_artifact : String
  pub role : String
  pub logical_source_aliases : List LogicalSourceAlias
  pub toolchain_versions : Value

pub record InventoryRegion : Type 0 where
  pub start_line : ℤ
  pub end_line : ℤ
  pub discriminator : String

pub record InventoryEntry : Type 0 where
  pub logical_source_id : String
  pub path : String
  pub package_name : String
  pub component_id : String
  pub language : String
  pub role : String
  pub source_hash : String
  pub variants : List String
  pub expected_formats : List String
  pub regions : List InventoryRegion

pub record Inventory : Type 0 where
  pub schema : String
  pub mapping_version : String
  pub source_revision : String
  pub entries : List InventoryEntry

pub record CanonicalRegion : Type 0 where
  pub path : String
  pub logical_source_id : Option String
  pub start_line : ℤ
  pub end_line : ℤ
  pub discriminator : String
  pub hits : ℤ
  pub covered : Bool
  pub source_hash : Option String

pub record CompositeComponentInput : Type 0 where
  pub descriptor : CompositeArtifactDescriptor
  pub artifact_path : String
  pub artifact_hash : Option String
  pub snapshot_id : Option String
  pub source_revision : Option String
  pub artifact_status : String
  pub reused_from_snapshot_id : Option String
  pub regions : List CanonicalRegion

pub record ExpectedRegion : Type 0 where
  pub logical_source_id : String
  pub path : String
  pub component_id : String
  pub language : String
  pub package_name : String
  pub source_hash : String
  pub variants : List String
  pub expected_formats : List String
  pub region : InventoryRegion

-- The states of a region, words of the response.
pub data State : Type 0 where
  source_mismatch missing_artifact stale_evidence unmeasured covered uncovered : State

unfoldable pub normalize_composite_format : String → String
unfolding trim to_lowercase
normalize_composite_format value =
    let text = to_lowercase (trim value) in
    if str_eq text "coverage.py" || str_eq text "coveragepy" || str_eq text "python"
    then "coveragepy"
    else if str_eq text "istanbul" || str_eq text "javascript" || str_eq text "js"
    then "istanbul"
    else if str_eq text "llvm" || str_eq text "llvm-json"
    then "llvm"
    else text

unfoldable pub region_key : String → ℤ → ℤ → String → String
unfolding concat show_ℤ
region_key logical_source_id start_line end_line discriminator =
    concat (
      logical_source_id
      ∷ ":"
      ∷ show_ℤ start_line
      ∷ ":"
      ∷ show_ℤ end_line
      ∷ ":"
      ∷ discriminator
      ∷ [])

-- A source without variants has the default one.
abbrev pub variants_of : InventoryEntry → List String
variants_of entry = elim entry.variants [ [] ↦ "default" ∷ [] | variant ∷ more ↦ variant ∷ more ]

abbrev pub expected_region : InventoryEntry → InventoryRegion → ExpectedRegion
expected_region entry region = record {
  logical_source_id = entry.logical_source_id;
  path = entry.path;
  component_id = entry.component_id;
  language = entry.language;
  package_name = entry.package_name;
  source_hash = entry.source_hash;
  variants = variants_of entry;
  expected_formats = entry.expected_formats;
  region = region;
}

unfoldable pub expect_entry :
    BTreeMap String ExpectedRegion
    → InventoryEntry
    → List InventoryRegion
    → BTreeMap String ExpectedRegion
unfolding BTree.insert region_key
expect_entry expected entry [] = expected
expect_entry expected entry (region ∷ more) =
    expect_entry
      (BTree.insert expected
        (region_key entry.logical_source_id region.start_line region.end_line region.discriminator)
        (expected_region entry region))
      entry more

unfoldable pub expect_entries :
    BTreeMap String ExpectedRegion → List InventoryEntry → BTreeMap String ExpectedRegion
unfolding expect_entry
expect_entries expected [] = expected
expect_entries expected (entry ∷ entries) =
    expect_entries (expect_entry expected entry entry.regions) entries

-- `expected_regions`
abbrev pub expected_regions : List InventoryEntry → BTreeMap String ExpectedRegion
expected_regions entries = expect_entries [] entries
