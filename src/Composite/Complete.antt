-- ===== src/Composite/Complete.antt =====
-- When a composite snapshot is complete, and what a covered region rests on.
pub mod Snapshot
use coverage_mcp.Prelude.{
  ℕ, suc, ◌+◌, ◌≤◌, String, ◌≡◌, ◌∙◌, sym, refl, Bool, true, false, ◌&&◌, Option, none, some, List,
  [], ◌∷◌, arith, All, any, count, length, map, ltb, str_eq, ◌==◌, eq_iff, is_some_and, Bool-cases,
  inl, inr, count-le-length, if◌then◌else◌,
}
use coverage_mcp.Prelude.Int.{ℤ, pos}
use coverage_mcp.Order.{text_ord}
use coverage_mcp.BTree
use coverage_mcp.BTree.{BTreeMap, BTreeSet, keys}
use coverage_mcp.BTree.Laws.{Above, IsSorted, insert-IsSorted}
use coverage_mcp.BTree.Keys.{Below, Below-insert}
use coverage_mcp.Error.{AppResult}
use coverage_mcp.Models.Paths.{FileSystem}
use coverage_mcp.Composite.{
  Inventory, InventoryEntry, InventoryRegion, CompositeComponentInput, ExpectedRegion, State,
  source_mismatch, stale_evidence, covered, region_key, expected_region, expect_entry,
  expect_entries,
}
use coverage_mcp.Composite.Gather.{Gathered}
use coverage_mcp.Prelude.{is_nil}
use coverage_mcp.Composite.Regions.{
  Rows, measured_state, seen_by, has_source_mismatch, status_of_variant, variant_state, has_state,
  same_state, is_covered_region, add_row, add_rows,
}
use coverage_mcp.Composite.Assemble.{
  CompositeBuild, production_of, expected_of, gathered, inspected, rows, assemble,
}

-- The expected regions stand in key order.
expect_entry-IsSorted :
    (m : BTreeMap String ExpectedRegion) (entry : InventoryEntry) (regions : List InventoryRegion)
    → IsSorted m
    → IsSorted (expect_entry m entry regions)
unfolding expect_entry
expect_entry-IsSorted m entry [] s = s
expect_entry-IsSorted m entry (region ∷ regions) s =
    expect_entry-IsSorted
      (BTree.insert m
        (region_key entry.logical_source_id region.start_line region.end_line region.discriminator)
        (expected_region entry region))
      entry regions
      (insert-IsSorted m
        (region_key entry.logical_source_id region.start_line region.end_line region.discriminator)
        (expected_region entry region) s)

expect_entries-IsSorted :
    (m : BTreeMap String ExpectedRegion) (entries : List InventoryEntry)
    → IsSorted m
    → IsSorted (expect_entries m entries)
unfolding expect_entries
expect_entries-IsSorted m [] s = s
expect_entries-IsSorted m (entry ∷ entries) s =
    expect_entries-IsSorted (expect_entry m entry entry.regions) entries
      (expect_entry-IsSorted m entry entry.regions s)

-- A key beyond all others makes a set longer by one.
length-insert_last :
    (q : String) (s : BTreeSet String) → Below q s → length (BTree.insert s q tt) ≡ suc (length s)
unfolding BTree.insert BTree.upsert
length-insert_last q [] b = refl
length-insert_last q ((k, w) ∷ s) b =
    ground (arith, length-insert_last q s b.1, text_ord.cmp_flip q k)

abbrev IsBeyond : BTreeSet String → BTreeMap String ExpectedRegion → Type 0
IsBeyond s m = All (λ (e : String × ExpectedRegion). Below e.0 s) m

IsBeyond-insert :
    (q : String) (s : BTreeSet String) (m : BTreeMap String ExpectedRegion)
    → Above q m
    → IsBeyond s m
    → IsBeyond (BTree.insert s q tt) m
IsBeyond-insert q s [] a b = tt
IsBeyond-insert q s ((k, e) ∷ m) a b = (Below-insert k q s a.0 b.0, IsBeyond-insert q s m a.1 b.1)

module _ (checkout_dirty : Bool) (g : Gathered) (sources : BTreeSet String) where
  abbrev pub is_covered_entry : String × ExpectedRegion → Bool
  is_covered_entry e = is_covered_region checkout_dirty g sources e.0 e.1

  add_row-IsBeyond :
      (key : String) (entry : ExpectedRegion) (r : Rows) (m : BTreeMap String ExpectedRegion)
      → Above key m
      → IsBeyond r.covered_keys m
      → IsBeyond (add_row checkout_dirty g sources key entry r).covered_keys m
  unfolding add_row
  add_row-IsBeyond key entry r m a b =
      elim (Bool-cases (is_covered_region checkout_dirty g sources key entry)) [
        | inl hit ↦ rw (hit, add_row) (IsBeyond-insert key r.covered_keys m a b)
        | inr miss ↦ rw (miss, add_row) b
      ]

  length-add_row :
      (key : String) (entry : ExpectedRegion) (r : Rows)
      → Below key r.covered_keys
      → length (add_row checkout_dirty g sources key entry r).covered_keys
        ≡ length r.covered_keys
          + (if is_covered_region checkout_dirty g sources key entry then 1 else 0)
  unfolding add_row
  length-add_row key entry r b =
      elim (Bool-cases (is_covered_region checkout_dirty g sources key entry)) [
        | inl hit ↦ rw (hit, add_row) (omega (arith, length-insert_last key r.covered_keys b))
        | inr miss ↦ rw (miss, add_row) (omega arith)
      ]

  -- Each covered region is counted once.
  length-add_rows :
      (expected : BTreeMap String ExpectedRegion) (r : Rows)
      → IsSorted expected
      → IsBeyond r.covered_keys expected
      → length (add_rows checkout_dirty g sources expected r).covered_keys
        ≡ length r.covered_keys + count is_covered_entry expected
  unfolding add_rows
  length-add_rows [] r s b = omega arith
  length-add_rows ((key, entry) ∷ expected) r s b = omega (
    arith,
    length-add_row key entry r b.0,
    length-add_rows expected (add_row checkout_dirty g sources key entry r) s.1
        (add_row-IsBeyond key entry r expected s.0 b.1),
  )

  -- What a covered region rests on: a variant with ingested evidence that hit it, of the inventory's source.
  pub record IsCovered (key : String) (entry : ExpectedRegion) : Type 0 where
    pub variant : String
    pub status : String
    pub hits : ℤ
    pub of_entry : any (λ v. str_eq v variant) entry.variants ≡ true
    pub same_source : has_source_mismatch g sources entry key variant ≡ false
    pub has_status : status_of_variant g entry variant ≡ some status
    pub ingested : str_eq status "ingested" ≡ true
    pub clean : checkout_dirty ≡ false
    pub seen : seen_by g entry key variant ≡ some (true, hits)

IsBeyond-nil : (m : BTreeMap String ExpectedRegion) → IsBeyond [] m
IsBeyond-nil [] = tt
IsBeyond-nil ((k, e) ∷ m) = (tt, IsBeyond-nil m)

abbrev chosen : Bool → Bool → Option String → Option (Bool × ℤ) → State
chosen mismatch dirty status seen =
    (if mismatch
      then (source_mismatch, pos 0)
      else if dirty && is_some_and status (λ s. str_eq s "ingested")
      then (stale_evidence, pos 0)
      else measured_state status seen).0

chosen-covered :
    (mismatch dirty : Bool) (status : Option String) (seen : Option (Bool × ℤ))
    → same_state (chosen mismatch dirty status seen) covered ≡ true
    → (mismatch ≡ false)
      × (dirty ≡ false)
      × ((s : String) × (status ≡ some s) × (str_eq s "ingested" ≡ true))
      × ((h : ℤ) × (seen ≡ some (true, h)))
chosen-covered mismatch dirty none seen h = ground arith
chosen-covered mismatch dirty (some s) none h = ground arith
chosen-covered mismatch dirty (some s) (some (false, n)) h = ground arith
chosen-covered mismatch dirty (some s) (some (true, n)) h =
    (ground arith, ground arith, (s, refl, ground arith), (n, refl))
