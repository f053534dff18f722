-- ===== src/Models/Totals.antt =====
-- What the totals of a built report are, where no producer has put its own numbers.
use coverage_mcp.Prelude.{
  ℕ, ◌+◌, ◌≤◌, ◌<◌, ◌^◌, String, ◌≡◌, refl, ap, ◌∙◌, Bool, Option, some, List, [], ◌∷◌, arith, map,
  count, length, unwrap_or, count-le-length,
}
use mathlib.Core.Path.{ap₂}
use mathlib.Core.List.{foldl}
use coverage_mcp.Prelude.Int.{pos-+i64, ℤ, pos, ◌+i64◌, ◌≤ℤ◌}
use coverage_mcp.Order.{text_ord}
use coverage_mcp.BTree
use coverage_mcp.BTree.{BTreeMap, keys, values}
use coverage_mcp.BTree.Laws.{IsSorted}
use coverage_mcp.BTree.Count.{weigh}
use coverage_mcp.BTree.Keys.{map-get-keys, keys-add_all-keys}
use coverage_mcp.BTree.Group.{group_by-IsSorted, weigh-group_by}
use coverage_mcp.Json.{Value}
use coverage_mcp.Models.{
  LineCoverage, FileCoverage, CoverageReport, sum_i64, total_lines, covered_lines,
}
use coverage_mcp.Models.Builder.{CoverageBuilder}
use coverage_mcp.Models.Build.{
  lines_by_file, report_paths, report_file, build, is_counted, is_covered,
}

abbrev file_of : LineCoverage → String
file_of line = line.file_path

lines_by_file-IsSorted : (ls : List LineCoverage) → IsSorted (lines_by_file ls)
unfolding lines_by_file
lines_by_file-IsSorted ls = group_by-IsSorted file_of [] ls tt

module _ (p : LineCoverage → Bool) where
  abbrev count_of : Option (List LineCoverage) → ℤ
  count_of o = pos (count p (unwrap_or o []))

  foldl-counts :
      (m : BTreeMap String (List LineCoverage)) (acc : ℕ)
      → acc + weigh (count p) m < 2 ^ 63
      → foldl (λ a x. a +i64 x) (pos acc) (map (λ rows. count_of (some rows)) (values m))
        ≡ pos (acc + weigh (count p) m)
  unfolding weigh
  foldl-counts [] acc h = ap pos (omega arith)
  foldl-counts ((k, rows) ∷ m) acc h =
      ap (λ start. foldl (λ a x. a +i64 x) start (map (λ r. count_of (some r)) (values m)))
        (pos-+i64 acc (count p rows) (omega arith))
      ∙ (foldl-counts m (acc + count p rows) (omega arith) ∙ ap pos (omega arith))

  -- The sum over the files of a report is the number of its rows.
  sum-counts :
      (lines : List LineCoverage)
      → length lines < 2 ^ 63
      → sum_i64 (
          map
            (λ path. count_of (BTree.get (lines_by_file lines) path))
            (keys (lines_by_file lines)))
        ≡ pos (count p lines)
  unfolding sum_i64 weigh
  sum-counts lines h =
      rw (map-get-keys count_of (lines_by_file lines) (lines_by_file-IsSorted lines)) (
        foldl-counts (lines_by_file lines) 0 (omega (arith, all_rows, count-le-length p lines))
        ∙ ap pos (omega (arith, all_rows)))
    where
      all_rows : weigh (count p) (lines_by_file lines) ≡ 0 + count p lines
      all_rows = unfold lines_by_file weigh in weigh-group_by file_of p [] lines tt

map_both {ℓ κ μ} :
    {A : Type ℓ} {B : Type κ} {C : Type μ} (f : B → C) (g : A → B) (h : A → C)
    → ((a : A) → f (g a) ≡ h a)
    → (xs : List A) → map f (map g xs) ≡ map h xs
map_both f g h e [] = refl
map_both f g h e (x ∷ xs) = ap₂ ◌∷◌ (e x) (map_both f g h e xs)

module _ (b : CoverageBuilder) (plain : b.file_metrics ≡ []) where
  report_paths-plain : report_paths b ≡ keys (lines_by_file (values b.lines))
  unfolding report_paths
  report_paths-plain = rw plain (
      unfold BTree.add_all in
      keys-add_all-keys (lines_by_file (values b.lines)) (lines_by_file-IsSorted (values b.lines)))

  total_lines-plain :
      (path : String)
      → (report_file b path).total_lines
        ≡ count_of is_counted (BTree.get (lines_by_file (values b.lines)) path)
  unfolding report_file
  total_lines-plain path = rw plain (ground arith)

  covered_lines-plain :
      (path : String)
      → (report_file b path).covered_lines
        ≡ count_of is_covered (BTree.get (lines_by_file (values b.lines)) path)
  unfolding report_file
  covered_lines-plain path = rw plain (ground arith)

  module _ (format path : String) (warnings : List String) (metadata : Value) where
    abbrev report : CoverageReport
    report = build b format path warnings metadata

    total_lines_plain :
        length (values b.lines) < 2 ^ 63
        → total_lines report ≡ pos (count is_counted (values b.lines))
    unfolding total_lines build
    total_lines_plain few =
        ap (λ ps. sum_i64 (map (λ (f : FileCoverage). f.total_lines) (map (report_file b) ps)))
          report_paths-plain
        ∙ (ap sum_i64 (
              map_both (λ (f : FileCoverage). f.total_lines) (report_file b)
                (λ p. count_of is_counted (BTree.get (lines_by_file (values b.lines)) p))
                total_lines-plain (keys (lines_by_file (values b.lines))))
            ∙ sum-counts is_counted (values b.lines) few)

    covered_lines_plain :
        length (values b.lines) < 2 ^ 63
        → covered_lines report ≡ pos (count is_covered (values b.lines))
    unfolding covered_lines build
    covered_lines_plain few =
        ap (λ ps. sum_i64 (map (λ (f : FileCoverage). f.covered_lines) (map (report_file b) ps)))
          report_paths-plain
        ∙ (ap sum_i64 (
              map_both (λ (f : FileCoverage). f.covered_lines) (report_file b)
                (λ p. count_of is_covered (BTree.get (lines_by_file (values b.lines)) p))
                covered_lines-plain (keys (lines_by_file (values b.lines))))
            ∙ sum-counts is_covered (values b.lines) few)

    lines-build : report.lines ≡ values b.lines
    unfolding build
    lines-build = refl

-- A row counts as covered only where it is counted.
covered-le-counted : (ls : List LineCoverage) → count is_covered ls ≤ count is_counted ls
covered-le-counted [] = omega arith
covered-le-counted (l ∷ ls) = ground (arith, covered-le-counted ls)

-- If no producer's metrics are given and there are fewer than 2^63 rows, the line totals of the
-- report are exactly the numbers of its counted and of its covered rows, and no more lines are
-- covered than there are.
pub build-totals :
    (b : CoverageBuilder) (format path : String) (warnings : List String) (metadata : Value)
    → b.file_metrics ≡ []
    → length (values b.lines) < 2 ^ 63
    → let report = build b format path warnings metadata in
      (total_lines report ≡ pos (count is_counted report.lines))
      × (covered_lines report ≡ pos (count is_covered report.lines))
      × (covered_lines report ≤ℤ total_lines report)
build-totals b format path warnings metadata plain few =
    rw
      (
        total_lines_plain b plain format path warnings metadata few,
        covered_lines_plain b plain format path warnings metadata few,
        lines-build b plain format path warnings metadata,
      )
      (refl, refl, ground (arith, covered-le-counted (values b.lines)))
