-- ===== src/Models/Reorder.antt =====
-- Two records of a report may come in either order: every line counts the same.
use coverage_mcp.Prelude.{
  String, ◌≡◌, refl, Bool, true, false, Option, none, some, arith, Bool-cases, inl, inr,
}
use coverage_mcp.Prelude.Int.{ℤ, pos, leb_ℤ}
use coverage_mcp.Order.{text_ord, int_ord, pair_ord}
use coverage_mcp.BTree
use coverage_mcp.BTree.{BTreeMap}
use coverage_mcp.BTree.Laws.{get-All}
use coverage_mcp.BTree.Commute.{Related, Related-refl, joined, join, join_comm}
use coverage_mcp.Models.{LineCoverage, merge}
use coverage_mcp.Models.Paths.{FileSystem, normalize_report_path}
use coverage_mcp.Models.Merge.{IsRow, SameCounts, SameCounts-refl, merge_comm, merge_right_comm}
use coverage_mcp.Models.Builder.{CoverageBuilder, row_of, put_row, remember, add_line}
use coverage_mcp.Models.Valid.{IsEntry, IsValid, normalized_lem}
use coverage_mcp.Models.Trace.{LineRecord, line, add_record, call-IsValid}

-- The lookups of one line in two builders find nothing, or rows that count the same.
abbrev pub SameLine : Option LineCoverage → Option LineCoverage → Type 0
SameLine = Related SameCounts

merge_both :
    (o : Option LineCoverage) (r s : LineCoverage)
    → ((old : LineCoverage) → o ≡ some old → IsRow old)
    → IsRow r
    → IsRow s
    → SameCounts
        (joined merge (some (joined merge o r)) s)
        (joined merge (some (joined merge o s)) r)
merge_both none r s old hr hs = merge_comm r s hr hs
merge_both (some a) r s old hr hs = merge_right_comm a r s (old a refl) hr hs

abbrev pub key_of : LineCoverage → String × ℤ
key_of r = (r.file_path, r.line_number)

module _ (fs : FileSystem) where
  -- the row of a record in a builder whose cache is right
  abbrev pub row_for : Option String → LineRecord → LineCoverage
  row_for repo x =
      row_of (normalize_report_path fs x.path repo) x.line_number x.hits x.covered x.count_line
        x.total_branches x.covered_branches x.total_functions x.covered_functions x.details

  abbrev pub is_ignored : LineRecord → Bool
  is_ignored x = leb_ℤ x.line_number (pos 0)

  row_for-IsRow : (repo : Option String) (x : LineRecord) → IsRow (row_for repo x)
  unfolding row_of
  row_for-IsRow repo x = record {
    nonneg = ground arith;
    no_hits = λ e. ground arith;
    no_mark = λ e. ground arith;
  }

  lines-ignored :
      (b : CoverageBuilder) (x : LineRecord) → is_ignored x ≡ true → add_record fs b x ≡ b
  unfolding add_line
  lines-ignored b x h = rw h

  pub lines-kept :
      (b : CoverageBuilder) (x : LineRecord)
      → IsValid fs b
      → is_ignored x ≡ false
      → (add_record fs b x).lines
        ≡ join merge b.lines (key_of (row_for b.repo_path x)) (row_for b.repo_path x)
  unfolding add_line put_row remember
  lines-kept b x v h = rw (h, normalized_lem fs b x.path v)

  pub repo-add_record :
      (b : CoverageBuilder) (x : LineRecord) → (add_record fs b x).repo_path ≡ b.repo_path
  unfolding add_line put_row remember
  repo-add_record b x = ground arith

  abbrev after : CoverageBuilder → LineRecord → CoverageBuilder
  after b x = add_record fs b x

  module _ (b : CoverageBuilder) (v : IsValid fs b) where
    lines_twice :
        (x y : LineRecord)
        → is_ignored x ≡ false
        → is_ignored y ≡ false
        → (after (after b x) y).lines
          ≡ join merge
              (join merge b.lines (key_of (row_for b.repo_path x)) (row_for b.repo_path x))
              (key_of (row_for b.repo_path y))
              (row_for b.repo_path y)
    lines_twice x y hx hy = rw (
      lines-kept (after b x) y (call-IsValid fs b (line x) v) hy,
      repo-add_record b x,
      lines-kept b x v hx,
    )

    -- On a valid builder, two records that are added in either order leave every line with the
    -- same hits, marks and numbers of branches and functions.
    pub add_record_comm :
        (x y : LineRecord) (p : String × ℤ)
        → SameLine
            (BTree.get (after (after b x) y).lines p)
            (BTree.get (after (after b y) x).lines p)
    add_record_comm x y p = elim (Bool-cases (is_ignored x)) [
      | inl no_x ↦
          rw (lines-ignored b x no_x, lines-ignored (after b y) x no_x)
            (Related-refl SameCounts SameCounts-refl _)
      | inr has_x ↦ elim (Bool-cases (is_ignored y)) [
        | inl no_y ↦
            rw (lines-ignored b y no_y, lines-ignored (after b x) y no_y)
              (Related-refl SameCounts SameCounts-refl _)
        | inr has_y ↦
            rw (lines_twice x y has_x has_y, lines_twice y x has_y has_x)
              (join_comm merge b.lines v.sorted SameCounts SameCounts-refl (key_of rx) (key_of ry) p
                rx ry
                (merge_both (BTree.get b.lines (key_of rx)) rx ry
                  (λ old e. (get-All IsEntry b.lines (key_of rx) v.entries e).row)
                  (row_for-IsRow b.repo_path x) (row_for-IsRow b.repo_path y)))
      ]
    ]
      where
        rx : LineCoverage
        rx = row_for b.repo_path x

        ry : LineCoverage
        ry = row_for b.repo_path y
