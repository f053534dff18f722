-- ===== src/Composite/Faultless.antt =====
-- A snapshot without reasons: what the inspection of the production entries has found in order.
use mathlib.Core.Path.{subst}
use coverage_mcp.Text.{concat}
use coverage_mcp.Prelude.{
  not-false, sym, String, ◌≡◌, refl, Bool, true, false, Option, List, [], ◌∷◌, arith, All, str_eq,
  Bool-cases, inl, inr,
}
use coverage_mcp.Order.{text_ord, pair_ord}
use coverage_mcp.BTree
use coverage_mcp.BTree.{BTreeSet, keys}
use coverage_mcp.Error.{AppResult, ok, err}
use coverage_mcp.Models.Paths.{FileSystem}
use coverage_mcp.Composite.{Inventory, InventoryEntry, CompositeComponentInput, variants_of}
use coverage_mcp.Composite.Gather.{DescriptorKey}
use coverage_mcp.Composite.Inspect.{
  Inspected, reason_if, is_supported, inspect_variants, inspect_source, inspect_formats,
  inspect_entry, inspect_entries,
}
use coverage_mcp.Prelude.{is_nil}
use coverage_mcp.Composite.Assemble.{production_of, gathered, inspected, assemble}

abbrev IsClear : Inspected → Type 0
IsClear i = is_nil i.reasons ≡ true

insert-not_nil : (s : BTreeSet String) (reason : String) → is_nil (BTree.insert s reason tt) ≡ false
unfolding BTree.insert BTree.upsert
insert-not_nil [] reason = refl
insert-not_nil ((k, w) ∷ s) reason = ground arith

abbrev OrElse : Type 0 → Bool → Type 0
OrElse T true = Unit
OrElse T false = T

contradiction : {T : Type 0} (b : Bool) → b ≡ true → b ≡ false → T
contradiction {T} true yes_it_is no_it_is = subst (OrElse T) no_it_is tt
contradiction {T} false yes_it_is no_it_is = subst (OrElse T) (sym yes_it_is) tt

-- No reason now: none was given, and none was there before.
reason_if-IsClear :
    (test : Bool) (reason : String) (i : Inspected)
    → IsClear (reason_if test reason i)
    → (test ≡ false) × IsClear i
unfolding reason_if
reason_if-IsClear true reason i h = ground (arith, insert-not_nil i.reasons reason, h)
reason_if-IsClear false reason i h = (refl, h)

inspect_variants-IsClear :
    (descriptors : BTreeSet DescriptorKey) (entry : InventoryEntry) (variants : List String)
    (i : Inspected)
    → IsClear (inspect_variants descriptors entry variants i)
    → All (λ variant. BTree.contains_key descriptors (entry.component_id, variant) ≡ true) variants
      × IsClear i
unfolding inspect_variants
inspect_variants-IsClear descriptors entry [] i h = (tt, h)
inspect_variants-IsClear descriptors entry (variant ∷ variants) i h =
    let (all_others, clear) = inspect_variants-IsClear descriptors entry variants _ h in
    let (declared, before) = reason_if-IsClear _ _ i clear in
    ((not-false _ declared, all_others), before)

-- The source is readable and has the inventory's hash.
abbrev IsSource : InventoryEntry → AppResult String → Type 0
IsSource entry r = (actual : String) × (r ≡ ok actual) × (str_eq actual entry.source_hash ≡ true)

inspect_source-IsClear :
    (entry : InventoryEntry) (r : AppResult String) (i : Inspected)
    → IsClear (inspect_source entry r i)
    → IsSource entry r × IsClear i
unfolding inspect_source
inspect_source-IsClear entry (err e) i h = contradiction _ h (insert-not_nil i.reasons _)
inspect_source-IsClear entry (ok actual) i h = elim (Bool-cases (str_eq actual entry.source_hash)) [
  | inl same ↦ ((actual, refl, same), ground (arith, same, h))
  | inr other ↦
      contradiction
        (is_nil (
          BTree.insert i.reasons
            (concat ("source hash mismatch for " ∷ entry.logical_source_id ∷ [])) tt))
        (ground (arith, other, h)) (insert-not_nil i.reasons _)
]

inspect_formats-IsClear :
    (inputs : List CompositeComponentInput) (descriptors : BTreeSet DescriptorKey)
    (entry : InventoryEntry) (formats : List String) (i : Inspected)
    → IsClear (inspect_formats inputs descriptors entry formats i)
    → IsClear i
unfolding inspect_formats
inspect_formats-IsClear inputs descriptors entry [] i h = h
inspect_formats-IsClear inputs descriptors entry (format ∷ formats) i h =
    (reason_if-IsClear _ _ i (inspect_formats-IsClear inputs descriptors entry formats _ h)).1

module _ (source_hash : String → AppResult String) (inputs : List CompositeComponentInput)
    (descriptors : BTreeSet DescriptorKey) where
  -- A production entry with nothing to remedy.
  pub record IsInOrder (entry : InventoryEntry) : Type 0 where
    pub supported : is_supported entry.language ≡ true
    pub declared :
        All
          (λ variant. BTree.contains_key descriptors (entry.component_id, variant) ≡ true)
          (variants_of entry)
    pub source : IsSource entry (source_hash entry.path)

  inspect_entry-IsClear :
      (entry : InventoryEntry) (i : Inspected)
      → IsClear (inspect_entry source_hash inputs descriptors entry i)
      → IsInOrder entry × IsClear i
  unfolding inspect_entry
  inspect_entry-IsClear entry i h =
      let (source, before_source) =
        inspect_source-IsClear entry (source_hash entry.path) _
          (inspect_formats-IsClear inputs descriptors entry entry.expected_formats _ h) in
      let (declared, before_variants) =
        inspect_variants-IsClear descriptors entry (variants_of entry) _ before_source in
      let (supported, before) = reason_if-IsClear _ _ i before_variants in
      (record { supported = not-false _ supported; declared = declared; source = source }, before)

  inspect_entries-IsClear :
      (entries : List InventoryEntry) (i : Inspected)
      → IsClear (inspect_entries source_hash inputs descriptors entries i)
      → All IsInOrder entries × IsClear i
  unfolding inspect_entries
  inspect_entries-IsClear [] i h = (tt, h)
  inspect_entries-IsClear (entry ∷ entries) i h =
      let (others, clear) =
        inspect_entries-IsClear entries (inspect_entry source_hash inputs descriptors entry i) h in
      let (first, before) = inspect_entry-IsClear entry i clear in ((first, others), before)

module _ (fs : FileSystem) (source_hash : String → AppResult String) (root : String)
    (inventory : Inventory) (inputs : List CompositeComponentInput)
    (checkout_revision : Option String) (checkout_dirty : Bool) where
  -- If a composite snapshot is complete, every production entry of the inventory has a supported
  -- language, declared evidence for each of its variants, and a readable source with the hash that
  -- the inventory names.
  pub assemble-IsInOrder :
      (assemble fs source_hash root inventory inputs checkout_revision checkout_dirty).is_complete
        ≡ true
      → All
          (IsInOrder source_hash inputs
            (gathered fs source_hash root inventory inputs checkout_revision
              checkout_dirty).descriptors)
          (production_of inventory)
  unfolding assemble
  assemble-IsInOrder h = (clear_entries (ground (arith, h))).0
    where
      clear_entries :
          IsClear (inspected fs source_hash root inventory inputs checkout_revision checkout_dirty)
          → All
              (IsInOrder source_hash inputs
                (gathered fs source_hash root inventory inputs checkout_revision
                  checkout_dirty).descriptors)
              (production_of inventory)
            × IsClear (record {
              reasons =
                  (gathered fs source_hash root inventory inputs checkout_revision
                    checkout_dirty).reasons;
              source_mismatch_sources = [];
            })
      clear_entries c =
          unfold inspected in
          inspect_entries-IsClear source_hash inputs _ (production_of inventory) _ c
