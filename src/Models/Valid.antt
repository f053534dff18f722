-- ===== src/Models/Valid.antt =====
-- The invariant of `CoverageBuilder`, kept by every operation, and what it gives of a report.
use coverage_mcp.Prelude.{
  String, ◌≡◌, refl, Bool, false, Option, arith, All, ◌||◌, Option-cases, Bool-cases, inl, inr,
}
use coverage_mcp.Prelude.Int.{ℤ, pos, ◌<ℤ◌, leb_ℤ}
use coverage_mcp.Order.{text_ord, int_ord, pair_ord}
use coverage_mcp.BTree
use coverage_mcp.BTree.{BTreeMap, values}
use coverage_mcp.BTree.Laws.{IsSorted, upsert-IsSorted, All-upsert, get-All}
use coverage_mcp.Json.{Value, Fields}
use coverage_mcp.Text.{trim, is_empty}
use coverage_mcp.Models.{LineCoverage, merge}
use coverage_mcp.Models.Paths.{FileSystem, normalize_report_path}
use coverage_mcp.Models.Merge.{IsRow, merge-IsRow}
use coverage_mcp.Models.Builder.{
  CoverageBuilder, new, row_of, put_row, normalized, remember, add_line, add_file_metrics,
  add_test_name, put_test_name, add_test_observation,
}

-- A row stands under its own path and line, its line is positive, and its numbers are coherent.
pub record IsEntry (e : (String × ℤ) × LineCoverage) : Type 0 where
  pub at_path : e.1.file_path ≡ e.0.0
  pub at_line : e.1.line_number ≡ e.0.1
  pub positive : pos 0 <ℤ e.0.1
  pub row : IsRow e.1

module _ (fs : FileSystem) where
  pub record IsValid (b : CoverageBuilder) : Type 0 where
    pub sorted : IsSorted b.lines
    pub entries : All IsEntry b.lines
    -- a remembered name is the one that would be computed again
    pub names :
        All
          (λ (e : String × String). e.1 ≡ normalize_report_path fs e.0 b.repo_path)
          b.normalized_paths

  pub new-IsValid : (repo : Option String) → IsValid (new repo)
  new-IsValid repo = record { sorted = tt; entries = tt; names = tt }

  -- The cache of names never changes what a path is called.
  pub normalized_lem :
      (b : CoverageBuilder) (path : String)
      → IsValid b
      → normalized fs b path ≡ normalize_report_path fs path b.repo_path
  unfolding normalized
  normalized_lem b path v = elim (Option-cases (BTree.get b.normalized_paths path)) [
    | inl new_name ↦ rw (new_name, normalized)
    | inr (name, kept) ↦ rw (kept, normalized) (get-All IsName b.normalized_paths path v.names kept)
  ]
    where
      IsName : String × String → Type 0
      IsName e = e.1 ≡ normalize_report_path fs e.0 b.repo_path

  row_of-IsEntry :
      (path : String) (line hits : ℤ) (covered : Option Bool) (counted : Bool) (tb cb tf cf : ℤ)
      (details : Value)
      → leb_ℤ line (pos 0) ≡ false
      → IsEntry ((path, line), row_of path line hits covered counted tb cb tf cf details)
  unfolding row_of
  row_of-IsEntry path line hits covered counted tb cb tf cf details h = record {
    at_path = refl;
    at_line = refl;
    positive = ground arith;
    row = record {
      nonneg = ground arith;
      no_hits = λ e. ground arith;
      no_mark = λ e. ground arith;
    };
  }

  merge-IsEntry :
      (k : String × ℤ) (old row : LineCoverage)
      → IsEntry (k, row)
      → IsEntry (k, old)
      → IsEntry (k, merge old row)
  merge-IsEntry k old row hr ho = record {
    at_path = unfold merge in ho.at_path;
    at_line = unfold merge in ho.at_line;
    positive = ho.positive;
    row = merge-IsRow old row ho.row hr.row;
  }

  remember-IsValid :
      (b : CoverageBuilder) (path : String) → IsValid b → IsValid (remember fs b path)
  unfolding remember
  remember-IsValid b path v = record {
    sorted = v.sorted;
    entries = v.entries;
    names =
        All-upsert (λ (e : String × String). e.1 ≡ normalize_report_path fs e.0 b.repo_path)
          b.normalized_paths path (λ n. n) _ refl (λ w h. h) v.names;
  }

  put_row-IsValid :
      (b : CoverageBuilder) (row : LineCoverage)
      → IsEntry ((row.file_path, row.line_number), row)
      → IsValid b
      → IsValid (put_row b row)
  unfolding put_row
  put_row-IsValid b row h v =
      let k : String × ℤ = (row.file_path, row.line_number) in
      record {
        sorted = upsert-IsSorted b.lines k (λ old. merge old row) row v.sorted;
        entries =
            All-upsert IsEntry b.lines k (λ old. merge old row) row h
              (λ old. merge-IsEntry k old row h) v.entries;
        names = v.names;
      }

  pub add_line-IsValid :
      (b : CoverageBuilder) (path : String) (line hits : ℤ) (covered : Option Bool) (counted : Bool)
      (tb cb tf cf : ℤ) (details : Value)
      → IsValid b
      → IsValid (add_line fs b path line hits covered counted tb cb tf cf details)
  unfolding add_line
  add_line-IsValid b path line hits covered counted tb cb tf cf details v =
      elim (Bool-cases (leb_ℤ line (pos 0))) [
        | inl ignored ↦ rw ignored v
        | inr kept ↦ rw kept (
            put_row-IsValid (remember fs b path)
              (row_of (normalized fs b path) line hits covered counted tb cb tf cf details)
              (row_of-IsEntry (normalized fs b path) line hits covered counted tb cb tf cf details
                kept)
              (remember-IsValid b path v))
      ]

  pub add_file_metrics-IsValid :
      (b : CoverageBuilder) (path : String) (metrics : Fields)
      → IsValid b
      → IsValid (add_file_metrics fs b path metrics)
  unfolding add_file_metrics
  add_file_metrics-IsValid b path metrics v =
      let r = remember-IsValid b path v in
      record { sorted = r.sorted; entries = r.entries; names = r.names }

  pub add_test_name-IsValid :
      (b : CoverageBuilder) (name : String) → IsValid b → IsValid (add_test_name b name)
  unfolding add_test_name
  add_test_name-IsValid b name v = elim (Bool-cases (is_empty (trim name))) [
    | inl blank ↦ rw (blank, put_test_name) v
    | inr named ↦
        rw (named, put_test_name)
          (record { sorted = v.sorted; entries = v.entries; names = v.names })
  ]

  pub add_test_observation-IsValid :
      (b : CoverageBuilder) (name kind path : String) (line : ℤ) (key : String)
      → IsValid b
      → IsValid (add_test_observation fs b name kind path line key)
  unfolding add_test_observation
  add_test_observation-IsValid b name kind path line key v =
      elim (Bool-cases (is_empty (trim name) || is_empty (trim kind) || leb_ℤ line (pos 0))) [
        | inl ignored ↦ rw ignored v
        | inr kept ↦ rw kept (record { sorted = r.sorted; entries = r.entries; names = r.names })
      ]
    where
      r : IsValid (remember fs (add_test_name b (trim name)) path)
      r =
          remember-IsValid (add_test_name b (trim name)) path
            (add_test_name-IsValid b (trim name) v)
