-- ===== src/Composite/Gather.antt =====
-- What `assemble` (src/composite.rs) gathers from the declared evidence, and what it notes of one
-- component before its regions.
pub mod Loop
use coverage_mcp.Prelude.{
  is_nil, ℕ, ◌+◌, String, Bool, false, not, ◌&&◌, ◌||◌, Option, none, some, List, [], ◌∷◌, ◌++◌,
  any, filter, str_eq, is_some_and, if◌then◌else◌,
}
use coverage_mcp.Prelude.Int.{ℤ, pos, max_ℤ}
use coverage_mcp.Order.{text_ord, pair_ord}
use coverage_mcp.BTree
use coverage_mcp.BTree.{BTreeMap, BTreeSet, values}
use coverage_mcp.Json.{Value, null, str, obj, Fields, put_field}
use coverage_mcp.Models.Paths.{FileSystem, normalize_report_path}
use coverage_mcp.Text.{concat}
use coverage_mcp.Composite.{
  LogicalSourceAlias, CompositeArtifactDescriptor, Inventory, CanonicalRegion,
  CompositeComponentInput, ExpectedRegion, normalize_composite_format, region_key,
}

-- component and variant
abbrev pub DescriptorKey : Type 0
DescriptorKey = String × String

pub record Evidence : Type 0 where
  pub component_id : String
  pub package_variant : String
  pub language : String
  pub is_measured : Bool
  pub reused_from_snapshot_id : Option String
  pub format : String
  pub artifact_path : String
  pub artifact_hash : Option String
  pub snapshot_id : Option String
  pub observed_regions : ℕ
  pub toolchain_versions : Value

pub record Gathered : Type 0 where
  pub reasons : BTreeSet String
  pub observed : BTreeMap DescriptorKey (BTreeMap String (Bool × ℤ))
  pub descriptor_statuses : BTreeMap DescriptorKey String
  pub source_mismatch_keys : BTreeSet (DescriptorKey × String)
  pub descriptors : BTreeSet DescriptorKey
  pub component_evidence : List Evidence
  pub artifact_hashes : Fields
  pub toolchain_versions : Fields

unfoldable pub give_reason : String → Gathered → Gathered
unfolding BTree.insert
give_reason reason g = record g { reasons = BTree.insert g.reasons reason tt }

unfoldable give_reason_if : Bool → String → Gathered → Gathered
unfolding give_reason
give_reason_if test reason g = if test then give_reason reason g else g

unfoldable set_status : DescriptorKey → String → Gathered → Gathered
unfolding BTree.insert
set_status key status g = record g {
  descriptor_statuses = BTree.insert g.descriptor_statuses key status;
}

abbrev pub descriptor_key : CompositeArtifactDescriptor → DescriptorKey
descriptor_key descriptor = (descriptor.component_id, descriptor.package_variant)

unfoldable pub shown_key : CompositeArtifactDescriptor → String
unfolding concat
shown_key descriptor = concat (descriptor.component_id ∷ ":" ∷ descriptor.package_variant ∷ [])

-- the status, and whether the evidence is of another revision or declared twice
unfoldable pub note_status : Inventory → CompositeComponentInput → Gathered → Gathered
unfolding set_status give_reason BTree.insert shown_key concat BTree.contains_key
note_status inventory input g =
    let key = descriptor_key input.descriptor in
    let g1 = set_status key input.artifact_status g in
    let g2 =
      if is_some_and input.source_revision
        (λ revision. not (str_eq revision inventory.source_revision))
      then give_reason
          (concat (
            shown_key input.descriptor
            ∷ " evidence source revision does not match the inventory"
            ∷ []))
          (set_status key "stale_evidence" g1)
      else g1 in
    let g3 =
      if BTree.contains_key g2.descriptors key
      then give_reason
          (concat ("duplicate evidence descriptor for " ∷ shown_key input.descriptor ∷ [])) g2
      else g2 in
    record g3 { descriptors = BTree.insert g3.descriptors key tt }

abbrev hash_value : Option String → Value
hash_value none = null
hash_value (some hash) = str hash

abbrev put_versions : Fields → String → Value → Fields
put_versions fields name (obj versions) = put_field fields name (obj versions)
put_versions fields name _ = fields

unfoldable pub note_provenance : CompositeComponentInput → Gathered → Gathered
unfolding give_reason_if shown_key concat
note_provenance input g =
    give_reason_if (not (str_eq input.artifact_status "ingested"))
      (concat (shown_key input.descriptor ∷ " evidence is " ∷ input.artifact_status ∷ []))
      (record g {
        artifact_hashes =
            put_field g.artifact_hashes (shown_key input.descriptor)
              (hash_value input.artifact_hash);
        toolchain_versions =
            put_versions g.toolchain_versions (shown_key input.descriptor)
              input.descriptor.toolchain_versions;
      })

-- the expected regions of a component's variant
abbrev expected_for :
    BTreeMap String ExpectedRegion → CompositeArtifactDescriptor → List ExpectedRegion
expected_for expected descriptor =
    filter
      (λ (entry : ExpectedRegion).
        str_eq entry.component_id descriptor.component_id
        && any (λ variant. str_eq variant descriptor.package_variant) entry.variants)
      (values expected)

unfoldable pub format_allowed : BTreeMap String ExpectedRegion → CompositeArtifactDescriptor → Bool
unfolding normalize_composite_format
format_allowed expected descriptor =
    any
      (λ (entry : ExpectedRegion).
        any (λ format. str_eq (normalize_composite_format format) descriptor.format)
          entry.expected_formats)
      (expected_for expected descriptor)

unfoldable pub note_format :
    BTreeMap String ExpectedRegion → CompositeComponentInput → Gathered → Gathered
unfolding give_reason_if give_reason set_status format_allowed shown_key concat
note_format expected input g =
    let g1 =
      give_reason_if (is_nil (expected_for expected input.descriptor))
        (concat (
          "evidence "
          ∷ shown_key input.descriptor
          ∷ " is not owned by the production inventory"
          ∷ []))
        g in
    if format_allowed expected input.descriptor
    then g1
    else give_reason
        (concat (
          "no declared evidence uses expected format "
          ∷ input.descriptor.format
          ∷ " for "
          ∷ shown_key input.descriptor
          ∷ []))
        (set_status (descriptor_key input.descriptor) "format_mismatch" g1)
