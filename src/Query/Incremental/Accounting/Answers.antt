-- ===== src/Query/Incremental/Accounting/Answers.antt =====
-- What an incremental comparison answers: its numbers, or a reason and none.
use mathlib.Core.Path.{subst}
use coverage_mcp.Prelude.{
  ℕ, String, ◌≡◌, ◌∙◌, sym, refl, ap, Bool, true, not, ◌&&◌, Option, none, some, arith, length,
  count, inl, inr, Option-cases,
}
use coverage_mcp.Prelude.Int.{pos}
use coverage_mcp.Order.{text_ord}
use coverage_mcp.BTree.{values}
use coverage_mcp.BTree.Laws.{IsSorted}
use coverage_mcp.Error.{AppResult, ok}
use coverage_mcp.Error.Ensures.{Ensures, Ensures-ok, Ensures-if, Ensures-guard, Ensures-then}
use coverage_mcp.Models.Paths.{FileSystem}
use coverage_mcp.Query.{Metric, Observations, Measurement, CompareRequest, Counts, counts}
use coverage_mcp.Query.Incremental.{
  inventory, is_hit, totals, detail_matches, verified, reject, absorb,
}
use coverage_mcp.Query.Incremental.Combine.{
  Progress, Joined, go_on, stop, Increment, Answer, increment, finish, join_current, combine,
  compare_incremental,
}
use coverage_mcp.Query.Incremental.Sums.{IsWithin, length-absorb, hits-absorb}
use coverage_mcp.Query.Incremental.Accounting.{
  IsAccounted, IsProgress, KeepsProgress, inventory-IsSorted, detail_matches_lem, reject-none,
  gained_le_hits, hits_le_length, join_previous-KeepsProgress,
}

-- The numbers of an answer, where it has any.
abbrev AccountsFor : Counts → Answer → Type 0
AccountsFor reported answer =
    (inc : Increment) → answer.incremental ≡ some inc → IsAccounted reported inc

no_accounts :
    (reported : Counts) (answer : Answer)
    → answer.incremental ≡ none
    → Ensures (AccountsFor reported) (ok answer)
no_accounts reported answer e = Ensures-ok answer (λ inc h. cc)

accounts_of_some :
    (reported : Counts) (inc : Increment)
    → IsAccounted reported inc
    → (inc' : Increment) → some inc ≡ some inc'
    → IsAccounted reported inc'
accounts_of_some reported inc a inc' h = subst (IsAccounted reported) (cc) a

module _ (fs : FileSystem) (load : Option String → Option String → AppResult Measurement)
    (demangle : String → Option String) (root : String) where
  increment-IsAccounted :
      (reported : Counts) (request : CompareRequest) (metric : Metric) (baseline : Measurement)
      (n c : ℕ) (p : Progress) (rows : Observations) (trusted : Bool)
      → reported.total ≡ pos n
      → reported.covered ≡ pos c
      → IsProgress n c p
      → IsSorted rows
      → IsWithin rows p.union
      → IsAccounted reported
          (increment fs load demangle root request metric baseline p rows trusted)
  unfolding increment totals
  increment-IsAccounted reported request metric baseline n c p rows trusted same_n same_c v s w =
      record {
        from_baseline = same_n ∙ sym (ap pos v.same_total);
        fixed_total = length-absorb p.union rows v.inventory s w;
        no_loss = ground (arith, same_c, v.no_loss);
        adds_up = hits-absorb p.union rows v.inventory s w;
        splits = omega (arith, gained_le_hits p.union rows);
        bounded = omega (arith, hits_le_length (absorb p.union rows));
      }

  -- The answer for a progress of `n` rows, at least `c` of them covered.
  finish-AccountsFor :
      (reported : Counts) (request : CompareRequest) (metric : Metric)
      (current baseline : Measurement) (n c : ℕ) (p : Progress) (rows : Observations)
      → reported.total ≡ pos n
      → reported.covered ≡ pos c
      → IsProgress n c p
      → IsSorted rows
      → IsWithin rows p.union
      → AccountsFor reported (finish fs load demangle root request metric current baseline p rows)
  unfolding finish
  finish-AccountsFor reported request metric current baseline n c p rows same_n same_c v s w inc h =
      accounts_of_some reported _
        (increment-IsAccounted reported request metric baseline n c p rows
          (p.trusted && verified baseline current) same_n same_c v s w)
        inc h

  join_current-AccountsFor :
      (reported : Counts) (request : CompareRequest) (metric : Metric)
      (current baseline : Measurement) (n c : ℕ) (joined : Joined)
      → reported.total ≡ pos n
      → reported.covered ≡ pos c
      → KeepsProgress n c joined
      → Ensures
          (AccountsFor reported)
          (join_current fs load demangle root request metric current baseline joined)
  unfolding join_current
  join_current-AccountsFor reported request metric current baseline n c (stop status reason) same_n
        same_c k =
      no_accounts _ _ refl
  join_current-AccountsFor reported request metric current baseline n c (go_on p) same_n same_c k =
      Ensures-then (inventory fs current root metric) _ (inventory-IsSorted fs current root metric)
        (λ rows s. elim (Option-cases (reject baseline current p.union rows metric p.known_build)) [
          | inl joined ↦ rw joined (
              Ensures-ok _ (
                finish-AccountsFor reported request metric current baseline n c p rows same_n same_c
                  k s (reject-none baseline current p.union rows metric p.known_build joined).0))
          | inr (why, refused) ↦ rw refused (no_accounts _ _ refl)
        ])

  combine-AccountsFor :
      (request : CompareRequest) (metric : Metric) (current baseline : Measurement)
      (union : Observations)
      → detail_matches baseline union metric ≡ true
      → IsSorted union
      → Ensures
          (AccountsFor (counts baseline.report metric))
          (combine fs load demangle root request metric current baseline union)
  unfolding combine
  combine-AccountsFor request metric current baseline union detail s =
      let (measured, same_n, same_c) = detail_matches_lem baseline union metric detail in
      Ensures-then _ _
        (join_previous-KeepsProgress fs load demangle root (length union)
          (count is_hit (values union)) metric baseline request.previous _
          (record {
            inventory = record { sorted = s; measured = measured };
            same_total = refl;
            no_loss = omega arith;
          }))
        (λ joined k.
          join_current-AccountsFor (counts baseline.report metric) request metric current baseline _
            _ joined same_n same_c k)

module _ (fs : FileSystem) (load : Option String → Option String → AppResult Measurement)
    (demangle : String → Option String) (root : String) where
  compare-accounts :
      (request : CompareRequest) (current baseline : Measurement) (metric : Metric)
      → Ensures
          (AccountsFor (counts baseline.report metric))
          (compare_incremental fs load demangle root request current baseline metric)
  unfolding compare_incremental
  compare-accounts request current baseline metric =
      Ensures-then (inventory fs baseline root metric) _
        (inventory-IsSorted fs baseline root metric)
        (λ union s. Ensures-if _ _ _ (no_accounts _ _ refl) (
          Ensures-guard (not (detail_matches baseline union metric)) _ _ (λ _. no_accounts _ _ refl)
            (λ full.
              combine-AccountsFor fs load demangle root request metric current baseline union
                (ground (arith, full)) s)))

  -- Whenever an incremental comparison gives numbers: the total of the accepted coverage is the
  -- total that the baseline reports, joining batches never changes that total, the accepted
  -- coverage has at least the covered rows that the baseline reports, the combined covered rows
  -- are the accepted and the newly covered ones, the batch's covered rows are the newly and the
  -- already covered ones, and covered and missing rows add up to the total.
  pub compare_incremental-AccountsFor :
      (request : CompareRequest) (current baseline : Measurement) (metric : Metric)
      (answer : Answer)
      → compare_incremental fs load demangle root request current baseline metric ≡ ok answer
      → AccountsFor (counts baseline.report metric) answer
  compare_incremental-AccountsFor request current baseline metric answer h =
      (compare-accounts request current baseline metric).at answer h
