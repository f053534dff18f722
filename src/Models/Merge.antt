-- ===== src/Models/Merge.antt =====
-- Merging the rows of one line: the order and the grouping of the records do not matter to what is
-- counted.
use coverage_mcp.Prelude.{◌≡◌, refl, false, arith}
use coverage_mcp.Prelude.Int.{ℤ, pos, ◌≤ℤ◌, ◌+i64◌, +i64_comm, +i64_assoc}
use coverage_mcp.Models.{LineCoverage, merge}

-- What `add_line` makes of a record: hits are never negative, and a line that is not counted has
-- neither hits nor a covered mark.
pub record IsRow (r : LineCoverage) : Type 0 where
  pub nonneg : pos 0 ≤ℤ r.hits
  pub no_hits : r.count_line ≡ false → r.hits ≡ pos 0
  pub no_mark : r.count_line ≡ false → r.covered ≡ false

-- The two rows count the same; their details may differ.
pub record SameCounts (a b : LineCoverage) : Type 0 where
  pub hits : a.hits ≡ b.hits
  pub covered : a.covered ≡ b.covered
  pub count_line : a.count_line ≡ b.count_line
  pub total_branches : a.total_branches ≡ b.total_branches
  pub covered_branches : a.covered_branches ≡ b.covered_branches
  pub total_functions : a.total_functions ≡ b.total_functions
  pub covered_functions : a.covered_functions ≡ b.covered_functions

pub merge-IsRow : (a b : LineCoverage) → IsRow a → IsRow b → IsRow (merge a b)
unfolding merge
merge-IsRow a b ha hb = record {
  nonneg = ground (arith, ha.nonneg, hb.nonneg);
  no_hits = λ e. ground (arith, ha.no_hits, hb.no_hits);
  no_mark = λ e. ground (arith, ha.no_mark, hb.no_mark);
}

module _ (a b : LineCoverage) (ha : IsRow a) (hb : IsRow b) where
  pub merge_comm : SameCounts (merge a b) (merge b a)
  unfolding merge
  merge_comm = record {
    hits = ground (arith, ha.nonneg, hb.nonneg, ha.no_hits, hb.no_hits);
    covered = ground (arith, ha.no_mark, hb.no_mark);
    count_line = ground arith;
    total_branches = +i64_comm a.total_branches b.total_branches;
    covered_branches = +i64_comm a.covered_branches b.covered_branches;
    total_functions = +i64_comm a.total_functions b.total_functions;
    covered_functions = +i64_comm a.covered_functions b.covered_functions;
  }

module _ (a b c : LineCoverage) (ha : IsRow a) (hb : IsRow b) (hc : IsRow c) where
  merge_assoc : SameCounts (merge (merge a b) c) (merge a (merge b c))
  unfolding merge
  merge_assoc = record {
    hits = ground (arith, ha.nonneg, hb.nonneg, hb.no_hits);
    covered = ground (arith, hb.no_mark);
    count_line = ground arith;
    total_branches = +i64_assoc a.total_branches b.total_branches c.total_branches;
    covered_branches = +i64_assoc a.covered_branches b.covered_branches c.covered_branches;
    total_functions = +i64_assoc a.total_functions b.total_functions c.total_functions;
    covered_functions = +i64_assoc a.covered_functions b.covered_functions c.covered_functions;
  }

+i64_right_comm : (a b c : ℤ) → (a +i64 b) +i64 c ≡ (a +i64 c) +i64 b
+i64_right_comm a b c = cc (+i64_assoc a b c, +i64_assoc a c b, +i64_comm b c)

module _ (a b c : LineCoverage) (ha : IsRow a) (hb : IsRow b) (hc : IsRow c) where
  -- Two records that are merged into a row may come in either order.
  pub merge_right_comm : SameCounts (merge (merge a b) c) (merge (merge a c) b)
  unfolding merge
  merge_right_comm = record {
    hits = ground (arith, ha.nonneg, hb.nonneg, hc.nonneg);
    covered = ground arith;
    count_line = ground arith;
    total_branches = +i64_right_comm a.total_branches b.total_branches c.total_branches;
    covered_branches = +i64_right_comm a.covered_branches b.covered_branches c.covered_branches;
    total_functions = +i64_right_comm a.total_functions b.total_functions c.total_functions;
    covered_functions = +i64_right_comm a.covered_functions b.covered_functions c.covered_functions;
  }

pub SameCounts-refl : (a : LineCoverage) → SameCounts a a
SameCounts-refl a = record {
  hits = refl;
  covered = refl;
  count_line = refl;
  total_branches = refl;
  covered_branches = refl;
  total_functions = refl;
  covered_functions = refl;
}
