-- ===== src/Composite/Complete/Snapshot.antt =====
-- What a complete snapshot promises of every expected region.
use coverage_mcp.Prelude.{
  ℕ, ◌≤◌, String, ◌≡◌, ◌∙◌, sym, refl, Bool, true, ◌&&◌, Option, List, [], ◌∷◌, arith, All, any,
  count, length, map, ltb, str_eq, ◌==◌, eq_iff, Bool-cases, inl, inr, count-le-length,
}
use coverage_mcp.Order.{text_ord}
use coverage_mcp.BTree.{BTreeMap, BTreeSet, keys}
use coverage_mcp.Error.{AppResult}
use coverage_mcp.Models.Paths.{FileSystem}
use coverage_mcp.Composite.{Inventory, CompositeComponentInput, ExpectedRegion, covered}
use coverage_mcp.Composite.Gather.{Gathered}
use coverage_mcp.Prelude.{is_nil}
use coverage_mcp.Composite.Regions.{
  seen_by, has_source_mismatch, status_of_variant, variant_state, has_state, same_state,
  is_covered_region,
}
use coverage_mcp.Composite.Assemble.{
  CompositeBuild, production_of, expected_of, gathered, inspected, rows, assemble,
}
use coverage_mcp.Composite.Complete.{
  expect_entries-IsSorted, is_covered_entry, length-add_rows, IsCovered, IsBeyond-nil,
  chosen-covered,
}

str_eq_self : (s : String) → str_eq s s ≡ true
str_eq_self s = (eq_iff s s).1 refl

complete_parts :
    (reasons : BTreeSet String) (n total : ℕ)
    → (is_nil reasons && ltb 0 total && n == total) ≡ true
    → (keys reasons ≡ []) × (1 ≤ total) × (n ≡ total)
complete_parts [] n total h = (refl, ground arith, ground arith)
complete_parts (r ∷ reasons) n total h = ground arith

module _ (checkout_dirty : Bool) (g : Gathered) (sources : BTreeSet String) (key : String)
    (entry : ExpectedRegion) where
  variant-IsCovered :
      (all_variants : List String) (variant : String)
      → any (λ v. str_eq v variant) entry.variants ≡ true
      → same_state (variant_state checkout_dirty g sources entry key variant).state covered ≡ true
      → IsCovered checkout_dirty g sources key entry
  unfolding variant_state
  variant-IsCovered all_variants variant among h =
      let (same_source, clean, (status, has_status, ingested), (hits, seen)) =
        chosen-covered (has_source_mismatch g sources entry key variant) checkout_dirty
          (status_of_variant g entry variant) (seen_by g entry key variant) h in
      record {
        variant = variant;
        status = status;
        hits = hits;
        of_entry = among;
        same_source = same_source;
        has_status = has_status;
        ingested = ingested;
        clean = clean;
        seen = seen;
      }

  some_variant :
      (variants : List String)
      → ((variant : String)
          → any (λ v. str_eq v variant) variants ≡ true
          → any (λ v. str_eq v variant) entry.variants ≡ true)
      → has_state covered (map (variant_state checkout_dirty g sources entry key) variants) ≡ true
      → IsCovered checkout_dirty g sources key entry
  some_variant [] sub h = ground arith
  some_variant (variant ∷ variants) sub h =
      elim (Bool-cases
        (same_state (variant_state checkout_dirty g sources entry key variant).state covered)) [
          | inl hit ↦
              variant-IsCovered variants variant (sub variant (rw (str_eq_self variant) refl)) hit
          | inr miss ↦
              some_variant variants (λ v among. sub v (ground arith)) (ground (arith, miss))
        ]

  is_covered_region-IsCovered :
      is_covered_region checkout_dirty g sources key entry ≡ true
      → IsCovered checkout_dirty g sources key entry
  is_covered_region-IsCovered h = some_variant entry.variants (λ v among. among) h

All-count :
    (p : String × ExpectedRegion → Bool) (m : BTreeMap String ExpectedRegion)
    → count p m ≡ length m
    → All (λ e. p e ≡ true) m
All-count p [] h = tt
All-count p (e ∷ m) h =
    (ground (arith, h, count-le-length p m), All-count p m (ground (arith, h, count-le-length p m)))

All-IsCovered :
    (checkout_dirty : Bool) (g : Gathered) (sources : BTreeSet String)
    (m : BTreeMap String ExpectedRegion)
    → All (λ e. is_covered_entry checkout_dirty g sources e ≡ true) m
    → All (λ e. IsCovered checkout_dirty g sources e.0 e.1) m
All-IsCovered checkout_dirty g sources [] h = tt
All-IsCovered checkout_dirty g sources ((key, entry) ∷ m) h = (
  is_covered_region-IsCovered checkout_dirty g sources key entry h.0,
  All-IsCovered checkout_dirty g sources m h.1,
)

module _ (fs : FileSystem) (source_hash : String → AppResult String) (root : String)
    (inventory : Inventory) (inputs : List CompositeComponentInput)
    (checkout_revision : Option String) (checkout_dirty : Bool) where
  abbrev evidence : Gathered
  evidence = gathered fs source_hash root inventory inputs checkout_revision checkout_dirty

  abbrev sources_of : BTreeSet String
  sources_of =
      (inspected fs source_hash root inventory inputs checkout_revision
        checkout_dirty).source_mismatch_sources

  abbrev expected_here : BTreeMap String ExpectedRegion
  expected_here = expected_of fs source_hash root inventory inputs checkout_revision checkout_dirty

  -- What a complete snapshot promises.
  pub record IsComplete (built : CompositeBuild) : Type 0 where
    no_reasons : built.reasons ≡ []
    not_empty : 1 ≤ built.total_regions
    pub full : built.covered_regions ≡ built.total_regions
    every_region :
        All
          (λ (e : String × ExpectedRegion). IsCovered checkout_dirty evidence sources_of e.0 e.1)
          expected_here

  covered_count :
      length
        (rows fs source_hash root inventory inputs checkout_revision checkout_dirty).covered_keys
      ≡ count (is_covered_entry checkout_dirty evidence sources_of) expected_here
  unfolding rows
  covered_count = omega (
    arith,
    length-add_rows checkout_dirty evidence sources_of expected_here
        (record { covered_keys = []; region_rows = []; remediation_counts = [] })
        (expect_entries-IsSorted [] (production_of inventory) tt) (IsBeyond-nil expected_here),
  )

  -- The covered regions of a composite snapshot are counted once each: their number is that of the
  -- expected regions that some variant covers, and it is at most the number of all regions.
  pub assemble-counts :
      ((assemble fs source_hash root inventory inputs checkout_revision
          checkout_dirty).covered_regions
        ≡ count (is_covered_entry checkout_dirty evidence sources_of) expected_here)
      × ((assemble fs source_hash root inventory inputs checkout_revision
            checkout_dirty).covered_regions
          ≤ (assemble fs source_hash root inventory inputs checkout_revision
              checkout_dirty).total_regions)
  unfolding assemble
  assemble-counts = (
    covered_count,
    omega (
      arith,
      covered_count,
      count-le-length (is_covered_entry checkout_dirty evidence sources_of) expected_here,
    ),
  )

  -- A composite snapshot that is complete has no reasons and at least one region, counts every
  -- region as covered, and every expected region has a variant of its entry whose evidence is
  -- ingested and has hit it, without a recorded mismatch of the source, from a clean checkout.
  pub assemble-IsComplete :
      (assemble fs source_hash root inventory inputs checkout_revision checkout_dirty).is_complete
        ≡ true
      → IsComplete (assemble fs source_hash root inventory inputs checkout_revision checkout_dirty)
  unfolding assemble
  assemble-IsComplete h =
      let (nothing, some_region, full) =
        complete_parts
          (inspected fs source_hash root inventory inputs checkout_revision checkout_dirty).reasons
          (length
            (rows fs source_hash root inventory inputs checkout_revision
              checkout_dirty).covered_keys)
          (length expected_here) h in
      record {
        no_reasons = nothing;
        not_empty = some_region;
        full = full;
        every_region = All-IsCovered checkout_dirty evidence sources_of expected_here (
            All-count (is_covered_entry checkout_dirty evidence sources_of) expected_here
              (sym covered_count ∙ full));
      }
