-- ===== src/Composite/Inspect.antt =====
-- The loop of `assemble` over the production entries: languages, variants, source hashes, formats.
use coverage_mcp.Prelude.{String, Bool, not, ◌&&◌, ◌||◌, List, [], ◌∷◌, any, str_eq, if◌then◌else◌}
use coverage_mcp.Order.{text_ord, pair_ord}
use coverage_mcp.BTree
use coverage_mcp.BTree.{BTreeMap, BTreeSet, keys}
use coverage_mcp.Error.{AppResult, ok, err}
use coverage_mcp.Text.{concat}
use coverage_mcp.Composite.{
  InventoryEntry, CompositeComponentInput, variants_of, normalize_composite_format,
}
use coverage_mcp.Composite.Gather.{DescriptorKey}

-- reasons, and the sources whose content is another than the inventory's
pub record Inspected : Type 0 where
  pub reasons : BTreeSet String
  pub source_mismatch_sources : BTreeSet String

unfoldable pub reason_if : Bool → String → Inspected → Inspected
unfolding BTree.insert
reason_if test reason i =
    if test then record i { reasons = BTree.insert i.reasons reason tt } else i

abbrev pub is_supported : String → Bool
is_supported language =
    str_eq language "rust"
    || str_eq language "wgsl"
    || str_eq language "wasm"
    || str_eq language "python"
    || str_eq language "javascript"
    || str_eq language "js"

unfoldable pub inspect_variants :
    BTreeSet DescriptorKey → InventoryEntry → List String → Inspected → Inspected
unfolding reason_if concat BTree.contains_key
inspect_variants descriptors entry [] i = i
inspect_variants descriptors entry (variant ∷ variants) i =
    inspect_variants descriptors entry variants (
      reason_if (not (BTree.contains_key descriptors (entry.component_id, variant)))
        (concat
          ("missing required package/backend variant " ∷ entry.component_id ∷ ":" ∷ variant ∷ []))
        i)

abbrev pub mismatch : InventoryEntry → String → Inspected → Inspected
mismatch entry reason i = record i {
  reasons = BTree.insert i.reasons reason tt;
  source_mismatch_sources = BTree.insert i.source_mismatch_sources entry.logical_source_id tt;
}

unfoldable pub inspect_source : InventoryEntry → AppResult String → Inspected → Inspected
unfolding BTree.insert concat
inspect_source entry (ok actual) i =
    if str_eq actual entry.source_hash
    then i
    else mismatch entry (concat ("source hash mismatch for " ∷ entry.logical_source_id ∷ [])) i
inspect_source entry (err e) i =
    mismatch entry (concat ("inventory source is missing: " ∷ entry.path ∷ [])) i

-- some evidence of the component has the format
abbrev has_format : List CompositeComponentInput → InventoryEntry → String → Bool
has_format inputs entry format =
    any
      (λ (input : CompositeComponentInput).
        str_eq input.descriptor.role "coverage"
        && str_eq input.descriptor.component_id entry.component_id
        && str_eq input.descriptor.language entry.language
        && str_eq input.descriptor.format format)
      inputs

unfoldable pub inspect_formats :
    List CompositeComponentInput
    → BTreeSet DescriptorKey
    → InventoryEntry
    → List String
    → Inspected
    → Inspected
unfolding reason_if concat normalize_composite_format
inspect_formats inputs descriptors entry [] i = i
inspect_formats inputs descriptors entry (format ∷ formats) i =
    let expected = normalize_composite_format format in
    inspect_formats inputs descriptors entry formats (
      reason_if
        (not (has_format inputs entry expected)
          && any (λ (key : DescriptorKey). str_eq key.0 entry.component_id) (keys descriptors))
        (concat (
          "no declared evidence uses expected format " ∷ expected ∷ " for "
          ∷ entry.logical_source_id ∷ []))
        i)

module _ (source_hash : String → AppResult String) (inputs : List CompositeComponentInput)
    (descriptors : BTreeSet DescriptorKey) where
  unfoldable pub inspect_entry : InventoryEntry → Inspected → Inspected
  unfolding inspect_variants inspect_source inspect_formats reason_if concat
  inspect_entry entry i =
      let i1 =
        reason_if (not (is_supported entry.language))
          (concat (
            "unsupported production language for " ∷ entry.logical_source_id ∷ ": " ∷ entry.language
            ∷ []))
          i in
      let i2 = inspect_variants descriptors entry (variants_of entry) i1 in
      inspect_formats inputs descriptors entry entry.expected_formats
        (inspect_source entry (source_hash entry.path) i2)

  unfoldable pub inspect_entries : List InventoryEntry → Inspected → Inspected
  unfolding inspect_entry
  inspect_entries [] i = i
  inspect_entries (entry ∷ entries) i = inspect_entries entries (inspect_entry entry i)
