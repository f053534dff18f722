-- ===== src/Composite/Denominator.antt =====
-- `expected_regions` of src/composite.rs: how many regions a snapshot expects.
use coverage_mcp.Prelude.{
  ℕ, ◌+◌, String, ◌≡◌, ◌≢◌, refl, sym, ap, ◌∙◌, Bool, false, none, List, [], ◌∷◌, ◌++◌, All,
  All-append, All-filter, IsDistinct, IsDistinct-map-filter, length, length-append, map, arith,
  str_eq, Option,
}
use coverage_mcp.Order.{text_ord}
use coverage_mcp.BTree
use coverage_mcp.BTree.{BTreeMap}
use coverage_mcp.BTree.Fresh.{
  HasDistinctKeys, HasDistinctKeys-append, insert_all, insert_all-append, length-insert_all,
}
use coverage_mcp.Error.{AppResult, ok}
use coverage_mcp.Models.Paths.{FileSystem}
use coverage_mcp.Parser.{Decoders}
use coverage_mcp.Composite.{
  InventoryRegion, InventoryEntry, Inventory, ExpectedRegion, CompositeComponentInput, region_key,
  expected_region, expect_entry, expect_entries, expected_regions,
}
use coverage_mcp.Composite.Assemble.{assemble, production_of}
use coverage_mcp.Composite.Keys.{has_colon, region_key-same, region_key-id}
use coverage_mcp.Composite.Parse.Inventory.{triple, id_of, parse_inventory}
use coverage_mcp.Composite.Parse.Valid.{IsRegion, IsEntry, IsInventory, parse_inventory-IsInventory}

-- the number of regions of all entries
abbrev pub region_count : List InventoryEntry → ℕ
region_count [] = 0
region_count (entry ∷ entries) = length entry.regions + region_count entries

abbrev key_of : InventoryEntry → InventoryRegion → String
key_of entry r = region_key entry.logical_source_id r.start_line r.end_line r.discriminator

abbrev Pair : Type 0
Pair = String × ExpectedRegion

abbrev entry_pairs : InventoryEntry → List InventoryRegion → List Pair
entry_pairs entry [] = []
entry_pairs entry (r ∷ rs) = (key_of entry r, expected_region entry r) ∷ entry_pairs entry rs

abbrev all_pairs : List InventoryEntry → List Pair
all_pairs [] = []
all_pairs (entry ∷ entries) = entry_pairs entry entry.regions ++ all_pairs entries

expect_entry-insert_all :
    (m : BTreeMap String ExpectedRegion) (entry : InventoryEntry) (rs : List InventoryRegion)
    → expect_entry m entry rs ≡ insert_all m (entry_pairs entry rs)
unfolding expect_entry insert_all
expect_entry-insert_all m entry [] = refl
expect_entry-insert_all m entry (r ∷ rs) =
    expect_entry-insert_all (BTree.insert m (key_of entry r) (expected_region entry r)) entry rs

expect_entries-insert_all :
    (m : BTreeMap String ExpectedRegion) (entries : List InventoryEntry)
    → expect_entries m entries ≡ insert_all m (all_pairs entries)
unfolding expect_entries
expect_entries-insert_all m [] = unfold insert_all in refl
expect_entries-insert_all m (entry ∷ entries) =
    expect_entries-insert_all (expect_entry m entry entry.regions) entries
    ∙ ap (λ n. insert_all n (all_pairs entries)) (expect_entry-insert_all m entry entry.regions)
    ∙ sym (insert_all-append m (entry_pairs entry entry.regions) (all_pairs entries))

length-entry_pairs :
    (entry : InventoryEntry) (rs : List InventoryRegion) → length (entry_pairs entry rs) ≡ length rs
length-entry_pairs entry [] = refl
length-entry_pairs entry (r ∷ rs) = omega (arith, length-entry_pairs entry rs)

length-all_pairs :
    (entries : List InventoryEntry) → length (all_pairs entries) ≡ region_count entries
length-all_pairs [] = refl
length-all_pairs (entry ∷ entries) = omega (
  arith,
  length-append (entry_pairs entry entry.regions) (all_pairs entries),
  length-entry_pairs entry entry.regions,
  length-all_pairs entries,
)

-- Within one entry, regions with other lines or another discriminator have other keys.
other_regions :
    (entry : InventoryEntry) (r : InventoryRegion) (rs : List InventoryRegion)
    → IsRegion r
    → All IsRegion rs
    → All (λ t. t ≢ triple r) (map triple rs)
    → All (λ (q : Pair). q.0 ≢ key_of entry r) (entry_pairs entry rs)
other_regions entry r [] v vs d = tt
other_regions entry r (s ∷ rs) v vs d = (apart, other_regions entry r rs v vs.1 d.1)
  where
    apart : key_of entry s ≢ key_of entry r
    apart e =
        let same =
          region_key-same entry.logical_source_id s.start_line s.end_line r.start_line r.end_line
            s.discriminator r.discriminator vs.0.positive
            (ground (arith, vs.0.positive, vs.0.forward)) v.positive
            (ground (arith, v.positive, v.forward)) e in
        d.0 (cc)

entry_pairs-HasDistinctKeys :
    (entry : InventoryEntry) (rs : List InventoryRegion)
    → All IsRegion rs
    → IsDistinct (map triple rs)
    → HasDistinctKeys (entry_pairs entry rs)
entry_pairs-HasDistinctKeys entry [] vs d = tt
entry_pairs-HasDistinctKeys entry (r ∷ rs) vs d =
    (other_regions entry r rs vs.0 vs.1 d.0, entry_pairs-HasDistinctKeys entry rs vs.1 d.1)

abbrev pub HasPlainId : InventoryEntry → Type 0
HasPlainId entry = has_colon entry.logical_source_id ≡ false

-- Another entry shares no key with a region of this one.
apart_from_entry :
    (entry other : InventoryEntry) (r : InventoryRegion) (rs : List InventoryRegion)
    → HasPlainId entry
    → HasPlainId other
    → id_of other ≢ id_of entry
    → All (λ (q : Pair). q.0 ≢ key_of entry r) (entry_pairs other rs)
apart_from_entry entry other r [] h k d = tt
apart_from_entry entry other r (s ∷ rs) h k d =
    (λ e. d (region_key-id _ _ _ _ _ _ _ _ k h e), apart_from_entry entry other r rs h k d)

apart_from_all :
    (entry : InventoryEntry) (r : InventoryRegion) (others : List InventoryEntry)
    → HasPlainId entry
    → All HasPlainId others
    → All (λ id. id ≢ id_of entry) (map id_of others)
    → All (λ (q : Pair). q.0 ≢ key_of entry r) (all_pairs others)
apart_from_all entry r [] h ks d = tt
apart_from_all entry r (other ∷ others) h ks d =
    All-append (λ (q : Pair). q.0 ≢ key_of entry r) (entry_pairs other other.regions)
      (all_pairs others) (apart_from_entry entry other r other.regions h ks.0 d.0)
      (apart_from_all entry r others h ks.1 d.1)

every_region_apart :
    (entry : InventoryEntry) (rs : List InventoryRegion) (others : List InventoryEntry)
    → HasPlainId entry
    → All HasPlainId others
    → All (λ id. id ≢ id_of entry) (map id_of others)
    → All (λ (p : Pair). All (λ (q : Pair). q.0 ≢ p.0) (all_pairs others)) (entry_pairs entry rs)
every_region_apart entry [] others h ks d = tt
every_region_apart entry (r ∷ rs) others h ks d =
    (apart_from_all entry r others h ks d, every_region_apart entry rs others h ks d)

all_pairs-HasDistinctKeys :
    (entries : List InventoryEntry)
    → All IsEntry entries
    → IsDistinct (map id_of entries)
    → All HasPlainId entries
    → HasDistinctKeys (all_pairs entries)
all_pairs-HasDistinctKeys [] vs d ks = tt
all_pairs-HasDistinctKeys (entry ∷ entries) vs d ks =
    HasDistinctKeys-append (entry_pairs entry entry.regions) (all_pairs entries)
      (entry_pairs-HasDistinctKeys entry entry.regions vs.0.regions vs.0.distinct)
      (all_pairs-HasDistinctKeys entries vs.1 d.1 ks.1)
      (every_region_apart entry entry.regions entries ks.0 ks.1 d.0)

none_there : (ps : List Pair) → All (λ p. BTree.get {V = ExpectedRegion} [] p.0 ≡ none) ps
unfolding BTree.get
none_there [] = tt
none_there (p ∷ ps) = (refl, none_there ps)

pub expected_regions-length :
    (inventory : Inventory)
    → IsInventory inventory
    → All HasPlainId (production_of inventory)
    → length (expected_regions (production_of inventory)) ≡ region_count (production_of inventory)
expected_regions-length inventory valid plain =
    let kept = λ (entry : InventoryEntry). str_eq entry.role "production" in
    let entries = production_of inventory in
    let distinct =
      all_pairs-HasDistinctKeys entries (All-filter IsEntry kept inventory.entries valid.entries)
        (IsDistinct-map-filter id_of kept inventory.entries valid.ids) plain in
    omega (
      arith,
      ap length (expect_entries-insert_all [] entries),
      length-insert_all [] (all_pairs entries) tt distinct (none_there (all_pairs entries)),
      length-all_pairs entries,
    )

-- For an inventory that was parsed and whose sources of production have ids without a colon: a
-- snapshot expects as many regions as these sources list, so no region of one hides that of
-- another.
pub assemble-total_regions :
    (dec : Decoders) (content : AppResult (List ℕ)) (inventory : Inventory) (fs : FileSystem)
    (source_hash : String → AppResult String) (root : String)
    (inputs : List CompositeComponentInput) (checkout_revision : Option String)
    (checkout_dirty : Bool)
    → parse_inventory dec content ≡ ok inventory
    → All HasPlainId (production_of inventory)
    → (assemble fs source_hash root inventory inputs checkout_revision checkout_dirty).total_regions
      ≡ region_count (production_of inventory)
unfolding assemble
assemble-total_regions dec content inventory fs source_hash root inputs checkout_revision
      checkout_dirty parsed plain =
    expected_regions-length inventory (parse_inventory-IsInventory dec content inventory parsed)
      plain
