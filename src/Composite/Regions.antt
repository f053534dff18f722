-- ===== src/Composite/Regions.antt =====
-- The loop of `assemble` over the expected regions (src/composite.rs): the state of each region by its
-- variants.
use coverage_mcp.Prelude.{
  ℕ, ◌+◌, String, Bool, true, false, not, ◌&&◌, ◌||◌, Option, none, some, List, [], ◌∷◌, ◌++◌, any,
  map, str_eq, is_some_and, if◌then◌else◌,
}
use coverage_mcp.Prelude.Int.{ℤ, pos}
use coverage_mcp.Order.{text_ord, pair_ord}
use coverage_mcp.BTree
use coverage_mcp.BTree.{BTreeMap, BTreeSet, keys}
use coverage_mcp.Composite.{
  ExpectedRegion, State, source_mismatch, missing_artifact, stale_evidence, unmeasured, covered,
  uncovered,
}
use coverage_mcp.Composite.Gather.{Gathered}

pub record VariantState : Type 0 where
  pub package_variant : String
  pub state : State
  pub hits : ℤ

pub record RegionRow : Type 0 where
  pub region_key : String
  pub entry : ExpectedRegion
  pub state : State
  pub variants : List VariantState
  pub remediation_bucket : String

-- `remediation_for_state`
abbrev remediation_for_state : State → String
remediation_for_state uncovered = "test_gap"
remediation_for_state unmeasured = "instrumentation_gap"
remediation_for_state missing_artifact = "generated_variant_gap"
remediation_for_state stale_evidence = "instrumentation_gap"
remediation_for_state source_mismatch = "source_mismatch"
remediation_for_state covered = "none"

-- what a descriptor's status and its observation make of a region
abbrev pub measured_state : Option String → Option (Bool × ℤ) → State × ℤ
measured_state none seen = (missing_artifact, pos 0)
measured_state (some status) seen =
    if str_eq status "missing"
    then (missing_artifact, pos 0)
    else if str_eq status "skipped_stale"
    then (stale_evidence, pos 0)
    else if not (str_eq status "ingested")
    then (unmeasured, pos 0)
    else elim seen [
      | none ↦ (unmeasured, pos 0)
      | some (was_covered, hits) ↦ (if was_covered then covered else uncovered, hits)
    ]

-- The observation of a region by one variant.
unfoldable pub seen_by : Gathered → ExpectedRegion → String → String → Option (Bool × ℤ)
unfolding BTree.get
seen_by g entry key variant = elim (BTree.get g.observed (entry.component_id, variant)) [
  | none ↦ none
  | some regions ↦ BTree.get regions key
]

unfoldable pub has_source_mismatch :
    Gathered → BTreeSet String → ExpectedRegion → String → String → Bool
unfolding BTree.contains_key
has_source_mismatch g sources entry key variant =
    BTree.contains_key sources entry.logical_source_id
    || BTree.contains_key g.source_mismatch_keys ((entry.component_id, variant), key)

unfoldable pub status_of_variant : Gathered → ExpectedRegion → String → Option String
unfolding BTree.get
status_of_variant g entry variant = BTree.get g.descriptor_statuses (entry.component_id, variant)

unfoldable pub variant_state :
    Bool → Gathered → BTreeSet String → ExpectedRegion → String → String → VariantState
unfolding seen_by has_source_mismatch status_of_variant
variant_state checkout_dirty g sources entry key variant =
    let status = status_of_variant g entry variant in
    let result =
      if has_source_mismatch g sources entry key variant
      then (source_mismatch, pos 0)
      else if checkout_dirty && is_some_and status (λ s. str_eq s "ingested")
      then (stale_evidence, pos 0)
      else measured_state status (seen_by g entry key variant) in
    record { package_variant = variant; state = result.0; hits = result.1 }

abbrev pub same_state : State → State → Bool
same_state source_mismatch source_mismatch = true
same_state missing_artifact missing_artifact = true
same_state stale_evidence stale_evidence = true
same_state unmeasured unmeasured = true
same_state covered covered = true
same_state uncovered uncovered = true
same_state _ _ = false

abbrev pub has_state : State → List VariantState → Bool
has_state state variants = any (λ (v : VariantState). same_state v.state state) variants

-- the first of the states, in the order of their weight
abbrev first_state : List State → List VariantState → State
first_state [] variants = unmeasured
first_state (state ∷ states) variants =
    if has_state state variants then state else first_state states variants

abbrev state_order : List State
state_order =
    source_mismatch ∷ missing_artifact ∷ stale_evidence ∷ unmeasured ∷ covered ∷ uncovered ∷ []

pub record Rows : Type 0 where
  pub covered_keys : BTreeSet String
  pub region_rows : List RegionRow
  pub remediation_counts : BTreeMap String ℕ

unfoldable count_remediation : BTreeMap String ℕ → List VariantState → BTreeMap String ℕ
unfolding BTree.upsert
count_remediation counts [] = counts
count_remediation counts (v ∷ vs) =
    count_remediation (BTree.upsert counts (remediation_for_state v.state) (λ n. n + 1) 1) vs

module _ (checkout_dirty : Bool) (g : Gathered) (sources : BTreeSet String) where
  abbrev variant_states : String → ExpectedRegion → List VariantState
  variant_states key entry = map (variant_state checkout_dirty g sources entry key) entry.variants

  -- some variant covers the region
  abbrev pub is_covered_region : String → ExpectedRegion → Bool
  is_covered_region key entry = has_state covered (variant_states key entry)

  abbrev pub region_row : String → ExpectedRegion → RegionRow
  region_row key entry =
      let variants = variant_states key entry in
      let state = first_state state_order variants in
      record {
        region_key = key;
        entry = entry;
        state = state;
        variants = variants;
        remediation_bucket = remediation_for_state state;
      }

  unfoldable pub add_row : String → ExpectedRegion → Rows → Rows
  unfolding variant_state count_remediation BTree.insert
  add_row key entry r = record {
    covered_keys =
        if is_covered_region key entry then BTree.insert r.covered_keys key tt else r.covered_keys;
    region_rows = r.region_rows ++ region_row key entry ∷ [];
    remediation_counts = count_remediation r.remediation_counts (variant_states key entry);
  }

  unfoldable pub add_rows : BTreeMap String ExpectedRegion → Rows → Rows
  unfolding add_row
  add_rows [] r = r
  add_rows ((key, entry) ∷ expected) r = add_rows expected (add_row key entry r)
