-- ===== src/Query/Load/Tally/Totals.antt =====
-- The totals that a decoded snapshot records are the numbers of its rows.
use mathlib.Core.Path.{subst}
use mathlib.Core.List.{foldl}
use coverage_mcp.Prelude.{
  ℕ, suc, ◌+◌, ◌<◌, ◌^◌, String, ◌≡◌, ◌∙◌, refl, ap, Bool, false, not, ◌||◌, List, [], ◌∷◌, arith,
  All, map, length, count, count-le-length, unwrap_or,
}
use coverage_mcp.Prelude.Int.{eqb-eq, pos-+i64, ℤ, pos, ◌+i64◌, eqb_ℤ}
use coverage_mcp.Order.{text_ord}
use coverage_mcp.BTree.{BTreeMap, values}
use coverage_mcp.BTree.Count.{weigh}
use coverage_mcp.Error.{ok, reject_if, ok_or, fold_result}
use coverage_mcp.Error.Ensures.{Ensures, Ensures-ok, Ensures-bind, Ensures-then, Ensures-reject_if}
use coverage_mcp.Json.{Value, index, as_str, as_i64, end}
use coverage_mcp.Query.{invalid}
use coverage_mcp.Models.{FileCoverage, sum_i64, total_regions, covered_regions}
use coverage_mcp.Query.{Measurement}
use coverage_mcp.Query.Load.{Disk, source_state}
use coverage_mcp.Query.Load.Composite.{
  Decoded, other_hash, hits_of, decode_row, decode_rows, decoded_report, decoded_context, recorded,
  decode_composite,
}
use coverage_mcp.Query.Load.Tally.{
  tw, cw, IsUpTo, is_covered_hit, one_if, IsTally, upserted-IsTally,
}

abbrev pub is_covered_row : Value → Bool
is_covered_row row = is_covered_hit (hits_of (unwrap_or (as_str (index row "state")) "unmeasured"))

decode_row-IsTally :
    (d : Decoded) (row : Value) (n c : ℕ)
    → IsTally d.files n c
    → suc n < 2 ^ 63
    → Ensures (λ d'. IsTally d'.files (suc n) (c + one_if (is_covered_row row))) (decode_row d row)
unfolding decode_row
decode_row-IsTally d row n c v small =
    Ensures-bind (ok_or (as_str (index row "path")) (invalid "composite region path unavailable")) _
      (λ path.
        Ensures-bind
          (ok_or (as_i64 (index row "start_line")) (invalid "composite region start unavailable")) _
          (λ start.
            Ensures-bind
              (ok_or (as_i64 (index row "end_line")) (invalid "composite region end unavailable")) _
              (λ last.
                Ensures-bind
                  (ok_or (as_str (index row "region_key"))
                    (invalid "composite region identity unavailable"))
                  _
                  (λ region_key.
                    Ensures-bind
                      (reject_if (other_hash d.hashes path (index row "source_hash"))
                        (invalid "composite has conflicting source hashes for one path"))
                      _
                      (λ _. Ensures-ok _ (
                        upserted-IsTally d.files n c v small path
                          (hits_of (unwrap_or (as_str (index row "state")) "unmeasured"))))))))

retally :
    (files : BTreeMap String FileCoverage) (n n' c c' : ℕ)
    → n ≡ n'
    → c ≡ c'
    → IsTally files n c
    → IsTally files n' c'
retally files n n' c c' en ec v =
    subst (λ k. IsTally files k c') en (subst (λ k. IsTally files n k) ec v)

decode_all-IsTally :
    (rows : List Value) (d : Decoded) (n c : ℕ)
    → IsTally d.files n c
    → n + length rows < 2 ^ 63
    → Ensures
        (λ d'. IsTally d'.files (n + length rows) (c + count is_covered_row rows))
        (fold_result decode_row d rows)
unfolding fold_result
decode_all-IsTally [] d n c v small =
    Ensures-ok d (retally d.files n (n + 0) c (c + 0) (omega arith) (omega arith) v)
decode_all-IsTally (row ∷ rows) d n c v small =
    Ensures-then (decode_row d row) _ (decode_row-IsTally d row n c v (omega (arith, small)))
      (λ d' v'. record {
        at = λ last h. retally last.files _ _ _ _ (omega arith) (omega arith) (
            (decode_all-IsTally rows d' (suc n) (c + one_if (is_covered_row row)) v'
                (omega (arith, small))).at
              last h);
      })

sum-weigh :
    (field : FileCoverage → ℤ) (w : FileCoverage → ℕ) (m : BTreeMap String FileCoverage) (acc : ℕ)
    → All (λ e. field e.1 ≡ pos (w e.1)) m
    → acc + weigh w m < 2 ^ 63
    → foldl (λ a x. a +i64 x) (pos acc) (map field (values m)) ≡ pos (acc + weigh w m)
unfolding weigh
sum-weigh field w [] acc h small = ap pos (omega arith)
sum-weigh field w ((k, f) ∷ m) acc h small =
    ap (λ start. foldl (λ a x. a +i64 x) start (map field (values m)))
      (ap (λ x. pos acc +i64 x) h.0 ∙ pos-+i64 acc (w f) (omega (arith, small)))
    ∙ (sum-weigh field w m (acc + w f) h.1 (omega (arith, small)) ∙ ap pos (omega arith))

All-totals :
    (n : ℕ) (m : BTreeMap String FileCoverage)
    → All (λ e. IsUpTo n e.1) m
    → All (λ e. e.1.total_regions ≡ pos (tw e.1)) m
All-totals n [] h = tt
All-totals n ((k, f) ∷ m) h = (h.0.0, All-totals n m h.1)

All-covered :
    (n : ℕ) (m : BTreeMap String FileCoverage)
    → All (λ e. IsUpTo n e.1) m
    → All (λ e. e.1.covered_regions ≡ pos (cw e.1)) m
All-covered n [] h = tt
All-covered n ((k, f) ∷ m) (v, h) = let (ht, bt, hc, bc) = v in (hc, All-covered n m h)

module _ (value_text : Value → String) (reference : String) (snapshot : Value) (d : Decoded)
    (n c : ℕ) (v : IsTally d.files n c) where
  total_regions-tally :
      n < 2 ^ 63 → total_regions (decoded_report value_text reference snapshot d) ≡ pos n
  unfolding total_regions sum_i64 decoded_report
  total_regions-tally small =
      sum-weigh (λ f. f.total_regions) tw d.files 0 (All-totals n d.files v.entries)
        (omega (arith, small, v.totals))
      ∙ ap pos (omega (arith, v.totals))

  covered_regions-tally :
      c < 2 ^ 63 → covered_regions (decoded_report value_text reference snapshot d) ≡ pos c
  unfolding covered_regions sum_i64 decoded_report
  covered_regions-tally small =
      sum-weigh (λ f. f.covered_regions) cw d.files 0 (All-covered n d.files v.entries)
        (omega (arith, small, v.covered))
      ∙ ap pos (omega (arith, v.covered))

module _ (disk : Disk) (root : String) where
  abbrev HasTotals : Value → List Value → Type 0
  HasTotals snapshot rows =
      (recorded snapshot "total_regions" ≡ pos (length rows))
      × (recorded snapshot "covered_regions" ≡ pos (count is_covered_row rows))

  passed-HasTotals :
      (reference : String) (snapshot : Value) (rows : List Value) (d : Decoded)
      → IsTally d.files (length rows) (count is_covered_row rows)
      → length rows < 2 ^ 63
      → (not (
            eqb_ℤ
              (total_regions (decoded_report disk.value_text reference snapshot d))
              (recorded snapshot "total_regions"))
          || not (
              eqb_ℤ
                (covered_regions (decoded_report disk.value_text reference snapshot d))
                (recorded snapshot "covered_regions")))
        ≡ false
      → HasTotals snapshot rows
  passed-HasTotals reference snapshot rows d v small passed = (
    eqb-eq (total_regions (decoded_report disk.value_text reference snapshot d))
          (recorded snapshot "total_regions") (ground (arith, passed))
        ∙ total_regions-tally disk.value_text reference snapshot d _ _ v small,
    eqb-eq (covered_regions (decoded_report disk.value_text reference snapshot d))
          (recorded snapshot "covered_regions") (ground (arith, passed))
        ∙ covered_regions-tally disk.value_text reference snapshot d _ _ v
            (omega (arith, small, count-le-length is_covered_row rows)),
  )

  decode_rows-IsTally :
      (rows : List Value)
      → length rows < 2 ^ 63
      → Ensures (λ d. IsTally d.files (length rows) (count is_covered_row rows)) (decode_rows rows)
  unfolding decode_rows weigh
  decode_rows-IsTally rows small = record {
    at = λ d h. retally d.files _ _ _ _ (omega arith) (omega arith) (
        (decode_all-IsTally rows (record { native = []; files = []; hashes = end }) 0 0
            (record { sorted = tt; entries = tt; totals = refl; covered = refl })
            (omega (arith, small))).at
          d h);
  }

  decode_composite-HasTotals :
      (reference : String) (snapshot : Value) (rows : List Value)
      → length rows < 2 ^ 63
      → Ensures (λ _. HasTotals snapshot rows) (decode_composite disk root reference snapshot rows)
  unfolding decode_composite
  decode_composite-HasTotals reference snapshot rows small =
      Ensures-then (decode_rows rows) _ (decode_rows-IsTally rows small) (λ d v.
        Ensures-then _ _
          (Ensures-reject_if _ (invalid "composite inventory does not match its recorded totals"))
          (λ _ passed.
            Ensures-bind
              (source_state disk root (decoded_report disk.value_text reference snapshot d)
                (decoded_context disk.value_text snapshot d))
              _
              (λ state. Ensures-ok _ (passed-HasTotals reference snapshot rows d v small passed))))

  -- If a stored composite snapshot with fewer than 2^63 rows is decoded, its recorded numbers of
  -- regions and of covered regions are the number of its rows and of its covered rows.
  pub decode_composite-totals :
      (reference : String) (snapshot : Value) (rows : List Value) (m : Measurement)
      → length rows < 2 ^ 63
      → decode_composite disk root reference snapshot rows ≡ ok m
      → (recorded snapshot "total_regions" ≡ pos (length rows))
        × (recorded snapshot "covered_regions" ≡ pos (count is_covered_row rows))
  decode_composite-totals reference snapshot rows m small h =
      (decode_composite-HasTotals reference snapshot rows small).at m h
