-- ===== src/Query/Observe/Keyed.antt =====
-- The map of observations: each under its own key, in key order, with hits that are not negative.
use coverage_mcp.Prelude.{
  ℕ, String, ◌≡◌, refl, Option, none, some, List, [], ◌∷◌, arith, All, Bool-cases, inl, inr,
}
use coverage_mcp.Prelude.Int.{pos, ◌≤ℤ◌}
use coverage_mcp.Order.{text_ord}
use coverage_mcp.BTree.Laws.{IsSorted, upsert-IsSorted, All-upsert}
use coverage_mcp.Error.{ok, fold_result}
use coverage_mcp.Error.Ensures.{Ensures, Ensures-ok, Ensures-then, Ensures-fold, ensures_rules}
use coverage_mcp.Json.{Value, as_array, index}
use coverage_mcp.Models.{CoverageReport, FileCoverage, LineCoverage}
use coverage_mcp.Models.Paths.{FileSystem}
use coverage_mcp.Query.{Metric, Span, Observation, Observations, key}
use coverage_mcp.Query.Observe.{
  number, merge_hits, insert, arms, arm_observation, observe_rows, observe_functions, observe_arms,
  observe_span, observe_row, observe_function, observe_file, line_observation, observe_lines,
  observations,
}

pub record IsEntry (e : String × Observation) : Type 0 where
  pub at_key : key e.1 ≡ e.0
  pub measured : pos 0 ≤ℤ e.1.hits

pub record IsKeyed (m : Observations) : Type 0 where
  pub sorted : IsSorted m
  pub entries : All IsEntry m

IsKeyed-nil : IsKeyed []
IsKeyed-nil = record { sorted = tt; entries = tt }

key-merge_hits : (p o : Observation) → key (merge_hits p o) ≡ key p
unfolding key
key-merge_hits p o = refl

insert-IsKeyed :
    (m : Observations) (o : Observation) → pos 0 ≤ℤ o.hits → IsKeyed m → IsKeyed (insert m o)
unfolding insert
insert-IsKeyed m o h v = record {
  sorted = upsert-IsSorted m (key o) (λ p. merge_hits p o) o v.sorted;
  entries =
      All-upsert IsEntry m (key o) (λ p. merge_hits p o) o (record { at_key = refl; measured = h })
        (λ p e. record {
          at_key = rw (key-merge_hits p o) e.at_key;
          measured = ground (arith, h, e.measured);
        })
        v.entries;
}

number_nonneg : (values : List Value) (i : ℕ) → Ensures (λ z. pos 0 ≤ℤ z) (number values i)
unfolding number
number_nonneg values i = record { at = λ z h. ground arith }

observe_arms-IsKeyed :
    (path symbol : String) (kind : Metric) (span : Span) (values : List Value) (m : Observations)
    → IsKeyed m
    → Ensures IsKeyed (observe_arms path symbol kind span values m)
unfolding observe_arms
observe_arms-IsKeyed path symbol kind span values m v =
    Ensures-fold _ m (arms kind)
      (λ s arm p. Ensures-then (number values arm.0) _ (number_nonneg values arm.0) (λ z h.
        Ensures-ok _ (insert-IsKeyed s (arm_observation path symbol kind span arm.1 z) h p)))
      v

observe_span-IsKeyed :
    (path symbol : String) (kind : Metric) (values : List Value) (m : Observations)
    → IsKeyed m
    → Ensures IsKeyed (observe_span path symbol kind values m)
unfolding observe_span
observe_span-IsKeyed path symbol kind values m v =
    search (ensures_rules, observe_arms-IsKeyed) depth 12

module _ (fs : FileSystem) (root : String) where
  observe_row-IsKeyed :
      (path symbol : String) (names : List Value) (kind : Metric) (m : Observations) (row : Value)
      → IsKeyed m
      → Ensures IsKeyed (observe_row fs root path symbol names kind m row)
  unfolding observe_row
  observe_row-IsKeyed path symbol names kind m row v =
      search (ensures_rules, observe_span-IsKeyed) depth 12

  observe_rows-IsKeyed :
      (path symbol : String) (names : List Value) (m : Observations) (kind : Metric)
      (rows : Option (List Value))
      → IsKeyed m
      → Ensures IsKeyed (observe_rows fs root path symbol names m kind rows)
  observe_rows-IsKeyed path symbol names m kind none v = Ensures-ok m v
  observe_rows-IsKeyed path symbol names m kind (some rows) v =
      Ensures-fold _ m rows (λ s row p. observe_row-IsKeyed path symbol names kind s row p) v

  observe_function-IsKeyed :
      (path : String) (m : Observations) (function : Value)
      → IsKeyed m
      → Ensures IsKeyed (observe_function fs root path m function)
  unfolding observe_function
  observe_function-IsKeyed path m function v =
      search (ensures_rules, Ensures-fold, observe_rows-IsKeyed) depth 12

  observe_functions-IsKeyed :
      (path : String) (m : Observations) (functions : Option (List Value))
      → IsKeyed m
      → Ensures IsKeyed (observe_functions fs root path m functions)
  observe_functions-IsKeyed path m none v = Ensures-ok m v
  observe_functions-IsKeyed path m (some functions) v =
      Ensures-fold _ m functions (λ s function p. observe_function-IsKeyed path s function p) v

  observe_file-IsKeyed :
      (m : Observations) (file : FileCoverage)
      → IsKeyed m
      → Ensures IsKeyed (observe_file fs root m file)
  unfolding observe_file
  observe_file-IsKeyed m file v =
      observe_functions-IsKeyed file.file_path m
        (as_array (index file.raw_metrics "llvm_functions")) v

observe_lines-IsKeyed :
    (m : Observations) (rows : List LineCoverage) → IsKeyed m → IsKeyed (observe_lines m rows)
unfolding observe_lines
observe_lines-IsKeyed m [] v = v
observe_lines-IsKeyed m (line ∷ rest) v = elim (Bool-cases line.count_line) [
  | inl counted ↦ rw counted (
      observe_lines-IsKeyed (insert m (line_observation line)) rest
        (insert-IsKeyed m (line_observation line) (ground arith) v))
  | inr other ↦ rw other (observe_lines-IsKeyed m rest v)
]

module _ (fs : FileSystem) (root : String) where
  -- The observations that a report gives stand in key order, each under its own key, and none has
  -- negative hits.
  pub observations-IsKeyed :
      (report : CoverageReport) (m : Observations) → observations fs root report ≡ ok m → IsKeyed m
  observations-IsKeyed report m h = keyed.at m h
    where
      keyed : Ensures IsKeyed (observations fs root report)
      keyed =
          unfold observations in
          Ensures-then (fold_result (observe_file fs root) [] report.files) _
            (Ensures-fold (observe_file fs root) [] report.files
              (λ s file p. observe_file-IsKeyed fs root s file p) IsKeyed-nil)
            (λ s p.
              Ensures-ok (observe_lines s report.lines) (observe_lines-IsKeyed s report.lines p))
