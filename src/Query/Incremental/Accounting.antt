-- ===== src/Query/Incremental/Accounting.antt =====
-- The accounts of a combined answer: the inventory of the baseline stays the denominator through all
-- batches, and the covered rows add up.
pub mod Answers
use coverage_mcp.Prelude.{
  ℕ, ◌+◌, ◌-◌, ◌≤◌, String, ◌≡◌, ◌∙◌, sym, refl, ap, Bool, true, false, not, ◌&&◌, Option, none,
  some, List, [], ◌∷◌, arith, All, length, count, all, inl, inr, Bool-cases, Option-cases,
  if◌then◌else◌,
}
use coverage_mcp.Prelude.Int.{eqb-eq, ℤ, pos, ◌≤ℤ◌, leb_ℤ, eqb_ℤ}
use coverage_mcp.Order.{text_ord}
use coverage_mcp.BTree
use coverage_mcp.BTree.{values}
use coverage_mcp.BTree.Laws.{IsSorted, upsert-IsSorted}
use coverage_mcp.Error.{AppResult, ok, err, ◌>>=◌}
use coverage_mcp.Error.Ensures.{Ensures, Ensures-ok, Ensures-if, Ensures-bind, Ensures-then}
use coverage_mcp.Json.{index, is_text}
use coverage_mcp.Models.Paths.{FileSystem}
use coverage_mcp.Query.{
  Metric, same_metric, Observation, Observations, Measurement, CompareRequest, Counts, counts,
  Status,
}
use coverage_mcp.Query.Observe.{merge_hits, measurement_observations}
use coverage_mcp.Query.Incremental.{
  inventory_key, collect, inventory, is_hit, Totals, totals, detail_matches, reject, absorb,
  build_of,
}
use coverage_mcp.Query.Incremental.Combine.{
  Progress, Joined, go_on, stop, Increment, Answer, gained_rows, is_uncovered_in, join_batch,
  name_batch, join_reference, join_previous, stopped, increment, finish, join_current, combine,
  compare_incremental,
}
use coverage_mcp.Query.Incremental.Sums.{
  IsMeasured, IsInventory, IsWithin, absorb-IsInventory, length-absorb, hits-absorb,
}

collect-IsSorted :
    (metric : Metric) (m : Observations) (rows : List Observation)
    → IsSorted m
    → IsSorted (collect metric m rows)
unfolding collect
collect-IsSorted metric m [] s = s
collect-IsSorted metric m (row ∷ rows) s = elim (Bool-cases (same_metric row.kind metric)) [
  | inl same ↦ rw same (
      collect-IsSorted metric
        (BTree.upsert m (inventory_key row) (λ existing. merge_hits existing row) row) rows
        (upsert-IsSorted m (inventory_key row) (λ existing. merge_hits existing row) row s))
  | inr other ↦ rw other (collect-IsSorted metric m rows s)
]

pub inventory-IsSorted :
    (fs : FileSystem) (m : Measurement) (root : String) (metric : Metric)
    → Ensures IsSorted (inventory fs m root metric)
unfolding inventory
inventory-IsSorted fs m root metric =
    Ensures-bind (measurement_observations fs root m) _
      (λ rows. Ensures-ok _ (collect-IsSorted metric [] (values rows) tt))

All-IsMeasured :
    (m : Observations)
    → all (λ (row : Observation). leb_ℤ (pos 0) row.hits) (values m) ≡ true
    → All IsMeasured m
All-IsMeasured [] h = tt
All-IsMeasured ((k, r) ∷ m) h = (ground arith, All-IsMeasured m (ground arith))

both : (a b : Bool) → (a && b) ≡ true → (a ≡ true) × (b ≡ true)
both a b h = ground arith

-- What the test of a measurement's detail gives.
pub detail_matches_lem :
    (m : Measurement) (rows : Observations) (metric : Metric)
    → detail_matches m rows metric ≡ true
    → All IsMeasured rows
      × ((counts m.report metric).total ≡ pos (length rows))
      × ((counts m.report metric).covered ≡ pos (count is_hit (values rows)))
unfolding detail_matches totals
detail_matches_lem m rows metric h =
    let (h1, same_covered) = both _ _ h in
    let (h2, same_total) = both _ _ h1 in
    let (nonempty, all_measured) = both _ _ h2 in
    (All-IsMeasured rows all_measured, eqb-eq _ _ same_total, eqb-eq _ _ same_covered)

-- A batch that is not refused has full detail, and all its rows are in the inventory.
pub reject-none :
    (baseline batch : Measurement) (union rows : Observations) (metric : Metric)
    (known : Option String)
    → reject baseline batch union rows metric known ≡ none
    → IsWithin rows union × (detail_matches batch rows metric ≡ true)
unfolding reject
reject-none baseline batch union rows metric known h = ground arith

gained_le_hits :
    (union rows : Observations) → length (gained_rows union rows) ≤ count is_hit (values rows)
unfolding gained_rows
gained_le_hits union [] = ground arith
gained_le_hits union ((k, r) ∷ rows) = ground (arith, gained_le_hits union rows)

hits_le_length : (m : Observations) → count is_hit (values m) ≤ length m
hits_le_length [] = ground arith
hits_le_length ((k, r) ∷ m) = ground (arith, hits_le_length m)

-- Between two batches: an inventory of `n` rows, at least `c` of them covered.
record IsProgress (n c : ℕ) (p : Progress) : Type 0 where
  inventory : IsInventory p.union
  same_total : length p.union ≡ n
  no_loss : c ≤ count is_hit (values p.union)

-- What a joined batch leaves, where it is not refused.
abbrev KeepsProgress : ℕ → ℕ → Joined → Type 0
KeepsProgress n c (go_on p) = IsProgress n c p
KeepsProgress n c (stop status reason) = Unit

-- The accounts of the numbers in an answer, for a baseline that reports `reported`.
pub record IsAccounted (reported : Counts) (inc : Increment) : Type 0 where
  pub from_baseline : reported.total ≡ pos inc.accepted.total
  pub fixed_total : inc.combined.total ≡ inc.accepted.total
  pub no_loss : reported.covered ≤ℤ pos inc.accepted.covered
  pub adds_up : inc.combined.covered ≡ inc.accepted.covered + inc.newly_covered
  pub splits : inc.newly_covered + inc.already_covered ≡ inc.batch_covered
  pub bounded : inc.combined.covered + inc.combined.missing ≡ inc.combined.total

absorb-IsProgress :
    (n c : ℕ) (p : Progress) (rows : Observations) (known : Option String) (trusted : Bool)
    → IsProgress n c p
    → IsSorted rows
    → IsWithin rows p.union
    → IsProgress n c
        (record { union = absorb p.union rows; known_build = known; trusted = trusted })
absorb-IsProgress n c p rows known trusted v s w = record {
  inventory = absorb-IsInventory p.union rows v.inventory;
  same_total = length-absorb p.union rows v.inventory s w ∙ v.same_total;
  no_loss = omega (arith, hits-absorb p.union rows v.inventory s w, v.no_loss);
}

join_batch-KeepsProgress :
    (n c : ℕ) (metric : Metric) (baseline : Measurement) (p : Progress) (batch : Measurement)
    (rows : Observations)
    → IsProgress n c p
    → IsSorted rows
    → KeepsProgress n c (join_batch metric baseline p batch rows)
unfolding join_batch
join_batch-KeepsProgress n c metric baseline p batch rows v s =
    elim (Option-cases (reject baseline batch p.union rows metric p.known_build)) [
      | inl joined ↦
          rw (joined, join_batch)
            (absorb-IsProgress n c p rows _ _ v s
              (reject-none baseline batch p.union rows metric p.known_build joined).0)
      | inr (why, refused) ↦ rw (refused, join_batch) tt
    ]

module _ (fs : FileSystem) (load : Option String → Option String → AppResult Measurement)
    (demangle : String → Option String) (root : String) where
  name_batch-KeepsProgress :
      (n c : ℕ) (reference : String) (joined : Joined)
      → KeepsProgress n c joined
      → KeepsProgress n c (name_batch fs load demangle root reference joined)
  name_batch-KeepsProgress n c reference (go_on p) v = v
  name_batch-KeepsProgress n c reference (stop status reason) v = tt

  join_reference-KeepsProgress :
      (n c : ℕ) (metric : Metric) (baseline : Measurement) (p : Progress) (reference : String)
      → IsProgress n c p
      → Ensures
          (KeepsProgress n c)
          (join_reference fs load demangle root metric baseline p reference)
  unfolding join_reference
  join_reference-KeepsProgress n c metric baseline p reference v =
      Ensures-bind (load (some reference) none) _ (λ batch.
        Ensures-then (inventory fs batch root metric) _ (inventory-IsSorted fs batch root metric)
          (λ rows s. Ensures-ok _ (
            name_batch-KeepsProgress n c reference _
              (join_batch-KeepsProgress n c metric baseline p batch rows v s))))

  go_ahead :
      (n c : ℕ) (metric : Metric) (baseline : Measurement) (references : List String)
      → ((p : Progress)
          → IsProgress n c p
          → Ensures
              (KeepsProgress n c)
              (join_previous fs load demangle root metric baseline p references))
      → (joined : Joined) → KeepsProgress n c joined
      → Ensures (KeepsProgress n c) (elim joined [
        | stop status reason ↦ ok (stop status reason)
        | go_on p' ↦ join_previous fs load demangle root metric baseline p' references
      ])
  go_ahead n c metric baseline references rest (stop status reason) k = Ensures-ok _ tt
  go_ahead n c metric baseline references rest (go_on p) k = rest p k

  join_previous-KeepsProgress :
      (n c : ℕ) (metric : Metric) (baseline : Measurement) (references : List String) (p : Progress)
      → IsProgress n c p
      → Ensures
          (KeepsProgress n c)
          (join_previous fs load demangle root metric baseline p references)
  unfolding join_previous
  join_previous-KeepsProgress n c metric baseline [] p v = Ensures-ok _ v
  join_previous-KeepsProgress n c metric baseline (reference ∷ references) p v =
      Ensures-then (join_reference fs load demangle root metric baseline p reference) _
        (join_reference-KeepsProgress n c metric baseline p reference v)
        (go_ahead n c metric baseline references
          (λ p' v'. join_previous-KeepsProgress n c metric baseline references p' v'))
