-- ===== src/Composite/Gather/Loop.antt =====
-- The loop of `assemble` over the declared evidence (src/composite.rs): what each component has observed.
use coverage_mcp.Prelude.{
  ℕ, ◌+◌, String, Bool, false, not, ◌||◌, Option, none, some, List, [], ◌∷◌, ◌++◌, str_eq,
  is_some_and, if◌then◌else◌,
}
use coverage_mcp.Prelude.Int.{ℤ, pos, max_ℤ}
use coverage_mcp.Order.{text_ord, pair_ord}
use coverage_mcp.BTree
use coverage_mcp.BTree.{BTreeMap, BTreeSet, values}
use coverage_mcp.Models.Paths.{FileSystem, normalize_report_path}
use coverage_mcp.Text.{concat}
use coverage_mcp.Composite.{
  LogicalSourceAlias, CompositeArtifactDescriptor, Inventory, CanonicalRegion,
  CompositeComponentInput, ExpectedRegion, region_key,
}
use coverage_mcp.Composite.Gather.{
  Evidence, Gathered, give_reason, descriptor_key, shown_key, note_status, note_provenance,
  format_allowed, note_format,
}

module _ (fs : FileSystem) (root : String) where
  unfoldable aliases_of : BTreeMap String String → List LogicalSourceAlias → BTreeMap String String
  unfolding BTree.insert normalize_report_path
  aliases_of m [] = m
  aliases_of m (alias ∷ aliases) =
      aliases_of
        (BTree.insert m (normalize_report_path fs alias.path (some root)) alias.logical_source_id)
        aliases

  -- the source that a region names, or the one that an alias gives its path
  unfoldable source_of : BTreeMap String String → CanonicalRegion → Option String
  unfolding BTree.get normalize_report_path
  source_of aliases region = elim region.logical_source_id [
    | some source ↦ some source
    | none ↦ BTree.get aliases (normalize_report_path fs region.path (some root))
  ]

-- `entry.0 |= region.covered; entry.1 = entry.1.max(region.hits)`
abbrev add_hit : CanonicalRegion → Bool × ℤ → Bool × ℤ
add_hit region (was_covered, hits) = (was_covered || region.covered, max_ℤ hits region.hits)

abbrev or_default {ℓ κ} : {K : Type ℓ} {V : Type κ} → Option (BTreeMap K V) → BTreeMap K V
or_default none = []
or_default (some m) = m

unfoldable observe_region :
    CompositeArtifactDescriptor → String → CanonicalRegion → Gathered → Gathered
unfolding BTree.insert BTree.upsert BTree.get
observe_region descriptor key region g =
    let seen = or_default (BTree.get g.observed (descriptor_key descriptor)) in
    record g {
      observed =
          BTree.insert g.observed (descriptor_key descriptor)
            (BTree.upsert seen key (add_hit region) (add_hit region (false, pos 0)));
    }

-- the hash of the evidence is another than the inventory's
abbrev other_source : CanonicalRegion → ExpectedRegion → Bool
other_source region entry =
    is_some_and region.source_hash (λ hash. not (str_eq hash entry.source_hash))

-- One region of the evidence; the count says whether it was observed.
unfoldable gather_region :
    BTreeMap String ExpectedRegion
    → CompositeArtifactDescriptor
    → Option String
    → CanonicalRegion
    → Gathered × ℕ
    → Gathered × ℕ
unfolding give_reason observe_region BTree.insert BTree.get region_key shown_key concat
gather_region expected descriptor none region (g, n) = (
  give_reason
      (concat
        (shown_key descriptor ∷ " contains a region without an explicit logical-source alias" ∷ []))
      g,
  n,
)
gather_region expected descriptor (some source) region (g, n) =
    let key = region_key source region.start_line region.end_line region.discriminator in
    elim (BTree.get expected key) [
      | none ↦ (give_reason (concat ("evidence contains unowned region " ∷ key ∷ [])) g, n)
      | some entry ↦
          if other_source region entry
          then (
            record (give_reason (concat ("source hash mismatch for " ∷ source ∷ [])) g) {
              source_mismatch_keys =
                  BTree.insert g.source_mismatch_keys (descriptor_key descriptor, key) tt;
            },
            n,
          )
          else (observe_region descriptor key region g, n + 1)
    ]

module _ (fs : FileSystem) (root : String) (expected : BTreeMap String ExpectedRegion) where
  unfoldable gather_regions :
      CompositeArtifactDescriptor
      → BTreeMap String String
      → List CanonicalRegion
      → Gathered × ℕ
      → Gathered × ℕ
  unfolding gather_region source_of
  gather_regions descriptor aliases [] state = state
  gather_regions descriptor aliases (region ∷ regions) state =
      gather_regions descriptor aliases regions
        (gather_region expected descriptor (source_of fs root aliases region) region state)

  abbrev evidence_of : CompositeComponentInput → ℕ → Evidence
  evidence_of input observed = record {
    component_id = input.descriptor.component_id;
    package_variant = input.descriptor.package_variant;
    language = input.descriptor.language;
    is_measured = str_eq input.artifact_status "ingested";
    reused_from_snapshot_id = input.reused_from_snapshot_id;
    format = input.descriptor.format;
    artifact_path = input.artifact_path;
    artifact_hash = input.artifact_hash;
    snapshot_id = input.snapshot_id;
    observed_regions = observed;
    toolchain_versions = input.descriptor.toolchain_versions;
  }

  -- regions of a format that is not allowed are passed over
  unfoldable gather_input : Inventory → CompositeComponentInput → Gathered → Gathered
  unfolding note_status note_provenance note_format gather_regions aliases_of format_allowed
  gather_input inventory input g =
      let g1 = note_format expected input (note_provenance input (note_status inventory input g)) in
      let regions = if format_allowed expected input.descriptor then input.regions else [] in
      let (g2, observed) =
        gather_regions input.descriptor
          (aliases_of fs root [] input.descriptor.logical_source_aliases) regions (g1, 0) in
      record g2 { component_evidence = g2.component_evidence ++ evidence_of input observed ∷ [] }

  unfoldable pub gather_inputs : Inventory → List CompositeComponentInput → Gathered → Gathered
  unfolding gather_input
  gather_inputs inventory [] g = g
  gather_inputs inventory (input ∷ inputs) g =
      gather_inputs inventory inputs
        (if str_eq input.descriptor.role "coverage" then gather_input inventory input g else g)
