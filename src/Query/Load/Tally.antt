-- ===== src/Query/Load/Tally.antt =====
-- The totals of a decoded composite snapshot are the numbers of its rows.
pub mod Totals
use mathlib.Core.Path.{subst}
use mathlib.Core.List.{foldl}
use coverage_mcp.Prelude.{
  ℕ, suc, ◌+◌, ◌≤◌, ◌<◌, ◌^◌, String, ◌≡◌, ◌∙◌, refl, ap, sym, Bool, true, false, not, ◌||◌, Option,
  none, some, List, [], ◌∷◌, arith, All, map, length, count, count-le-length, unwrap_or,
  if◌then◌else◌,
}
use coverage_mcp.Prelude.Int.{pos-+i64, ℤ, pos, pos_part, ◌+i64◌, ◌+ℤ◌, ltb_ℤ, eqb_ℤ, wrap_of_InI64}
use coverage_mcp.Order.{Ord, text_ord}
use coverage_mcp.BTree
use coverage_mcp.BTree.{BTreeMap, values}
use coverage_mcp.BTree.Laws.{IsSorted, upsert-IsSorted, All-upsert, get-All}
use coverage_mcp.BTree.Count.{weigh, weigh-upsert, weight_of, updated}
use coverage_mcp.Error.{ok, reject_if, ok_or, fold_result}
use coverage_mcp.Error.Ensures.{Ensures, Ensures-ok, Ensures-bind, Ensures-then, Ensures-reject_if}
use coverage_mcp.Json.{Value, index, as_str, as_i64, end}
use coverage_mcp.Query.{invalid}
use coverage_mcp.Models.{FileCoverage, sum_i64, total_regions, covered_regions}
use coverage_mcp.Query.{Measurement}
use coverage_mcp.Query.Load.{Disk, source_state}
use coverage_mcp.Query.Load.Composite.{
  Decoded, other_hash, hits_of, empty_file, from_bool, count_region, decode_row, decode_rows,
  decoded_report, decoded_context, recorded, decode_composite,
}

-- An update is the insertion of the value that it computes.
upsert-constant {ℓ κ} :
    {K : Type ℓ} {V : Type κ} ⦃o : Ord K⦄ (m : BTreeMap K V) (q : K) (f : V → V) (v : V)
    → BTree.upsert m q f v ≡ BTree.upsert m q (λ _. updated (BTree.get m q) f v) v
unfolding BTree.upsert BTree.get
upsert-constant [] q f v = refl
upsert-constant ⦃o⦄ ((k, w) ∷ m) q f v = ground (arith, upsert-constant m q f v)

abbrev tw : FileCoverage → ℕ
tw f = pos_part f.total_regions

abbrev cw : FileCoverage → ℕ
cw f = pos_part f.covered_regions

-- Counts that are not negative, up to a bound.
abbrev IsUpTo : ℕ → FileCoverage → Type 0
IsUpTo n f =
    (f.total_regions ≡ pos (tw f)) × (tw f ≤ n) × (f.covered_regions ≡ pos (cw f)) × (cw f ≤ n)

abbrev is_covered_hit : ℤ → Bool
is_covered_hit hits = ltb_ℤ (pos 0) hits

abbrev one_if : Bool → ℕ
one_if b = if b then 1 else 0

from_bool-pos : (b : Bool) → from_bool b ≡ pos (one_if b)
from_bool-pos true = refl
from_bool-pos false = refl

one_if-bound : (b : Bool) → one_if b ≤ 1
one_if-bound true = omega arith
one_if-bound false = omega arith

count_region-totals :
    (n : ℕ) (hits : ℤ) (f : FileCoverage)
    → IsUpTo n f
    → suc n < 2 ^ 63
    → ((count_region hits f).total_regions ≡ pos (tw f + 1))
      × ((count_region hits f).covered_regions ≡ pos (cw f + one_if (is_covered_hit hits)))
unfolding count_region
count_region-totals n hits f (ht, bt, hc, bc) small = (
  rw ht (pos-+i64 (tw f) 1 (omega (arith, bt, small))),
  rw (hc, from_bool-pos (is_covered_hit hits))
      (pos-+i64 (cw f) (one_if (is_covered_hit hits))
        (omega (arith, bc, small, one_if-bound (is_covered_hit hits)))),
)

count_region-IsUpTo :
    (n : ℕ) (hits : ℤ) (f : FileCoverage)
    → IsUpTo n f
    → suc n < 2 ^ 63
    → IsUpTo (suc n) (count_region hits f)
count_region-IsUpTo n hits f v small =
    let (et, ec) = count_region-totals n hits f v small in
    (
      et ∙ ap pos (sym (ap pos_part et)),
      omega (arith, ap pos_part et, v),
      ec ∙ ap pos (sym (ap pos_part ec)),
      omega (arith, ap pos_part ec, v, one_if-bound (is_covered_hit hits)),
    )

IsUpTo-zero : (n : ℕ) (path : String) → IsUpTo n (empty_file path)
IsUpTo-zero n path = (refl, omega arith, refl, omega arith)

-- The files count `n` rows, `c` of them covered.
record IsTally (files : BTreeMap String FileCoverage) (n c : ℕ) : Type 0 where
  sorted : IsSorted files
  entries : All (λ e. IsUpTo n e.1) files
  totals : weigh tw files ≡ n
  covered : weigh cw files ≡ c

IsUpTo-suc : (n : ℕ) (f : FileCoverage) → IsUpTo n f → IsUpTo (suc n) f
IsUpTo-suc n f (ht, bt, hc, bc) = (ht, omega (arith, bt), hc, omega (arith, bc))

All-IsUpTo-suc :
    (n : ℕ) (files : BTreeMap String FileCoverage)
    → All (λ e. IsUpTo n e.1) files
    → All (λ e. IsUpTo (suc n) e.1) files
All-IsUpTo-suc n [] h = tt
All-IsUpTo-suc n ((k, f) ∷ files) h = (IsUpTo-suc n f h.0, All-IsUpTo-suc n files h.1)

module _ (files : BTreeMap String FileCoverage) (n c : ℕ) (v : IsTally files n c)
    (small : suc n < 2 ^ 63) (path : String) (hits : ℤ) where
  abbrev new_file : Option FileCoverage → FileCoverage
  new_file old = updated old (count_region hits) (count_region hits (empty_file path))

  new_file-totals :
      (old : Option FileCoverage)
      → BTree.get files path ≡ old
      → IsUpTo (suc n) (new_file old)
        × (tw (new_file old) ≡ weight_of tw old + 1)
        × (cw (new_file old) ≡ weight_of cw old + one_if (is_covered_hit hits))
  new_file-totals none e =
      let empty = IsUpTo-zero n path in
      let (et, ec) = count_region-totals n hits (empty_file path) empty small in
      (count_region-IsUpTo n hits (empty_file path) empty small, ap pos_part et, ap pos_part ec)
  new_file-totals (some old) e =
      let up = get-All (λ e. IsUpTo n e.1) files path v.entries e in
      let (et, ec) = count_region-totals n hits old up small in
      (count_region-IsUpTo n hits old up small, ap pos_part et, ap pos_part ec)

  upserted-IsTally :
      IsTally
        (BTree.upsert files path (count_region hits) (count_region hits (empty_file path)))
        (suc n)
        (c + one_if (is_covered_hit hits))
  upserted-IsTally =
      let (up, et, ec) = new_file-totals (BTree.get files path) refl in
      record {
        sorted =
            upsert-IsSorted files path (count_region hits) (count_region hits (empty_file path))
              v.sorted;
        entries =
            rw
              (upsert-constant files path (count_region hits) (count_region hits (empty_file path)))
              (All-upsert (λ e. IsUpTo (suc n) e.1) files path
                (λ _. new_file (BTree.get files path)) (count_region hits (empty_file path))
                (count_region-IsUpTo n hits (empty_file path) (IsUpTo-zero n path) small)
                (λ w h. up) (All-IsUpTo-suc n files v.entries));
        totals = omega (
          arith,
          et,
          v.totals,
          weigh-upsert tw files path (count_region hits) (count_region hits (empty_file path))
              v.sorted,
        );
        covered = omega (
          arith,
          ec,
          v.covered,
          weigh-upsert cw files path (count_region hits) (count_region hits (empty_file path))
              v.sorted,
        );
      }
