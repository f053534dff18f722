-- ===== src/BTree/Group.antt =====
-- `for row in rows { grouped.entry(key(row)).or_default().push(row) }`
use coverage_mcp.Prelude.{
  ◌+◌, ◌≡◌, refl, Bool, Option, none, some, List, [], ◌∷◌, ◌++◌, arith, count, if◌then◌else◌, All,
  All-append,
}
use coverage_mcp.Order.{Ord}
use coverage_mcp.BTree.{BTreeMap, get, upsert}
use coverage_mcp.BTree.Laws.{IsSorted, upsert-IsSorted, All-upsert}
use coverage_mcp.BTree.Count.{weigh, weigh-upsert, weight_of, updated}

module _ {ℓ} {A : Type ℓ} where
  abbrev push : A → List A → List A
  push row rows = rows ++ row ∷ []

  count-append : (p : A → Bool) (xs ys : List A) → count p (xs ++ ys) ≡ count p xs + count p ys
  count-append p [] ys = omega arith
  count-append p (x ∷ xs) ys = omega (arith, count-append p xs ys)

  count-updated :
      (p : A → Bool) (row : A) (o : Option (List A))
      → count p (updated o (push row) (row ∷ [])) ≡ weight_of (count p) o + (if p row then 1 else 0)
  count-updated p row none = omega arith
  count-updated p row (some rows) = omega (arith, count-append p rows (row ∷ []))

module _ {ℓ κ} {K : Type ℓ} {A : Type κ} ⦃o : Ord K⦄ (key : A → K) where
  unfoldable pub group_by : BTreeMap K (List A) → List A → BTreeMap K (List A)
  unfolding upsert
  group_by m [] = m
  group_by m (row ∷ rows) = group_by (upsert m (key row) (push row) (row ∷ [])) rows

  pub group_by-IsSorted :
      (m : BTreeMap K (List A)) (rows : List A) → IsSorted m → IsSorted (group_by m rows)
  unfolding group_by
  group_by-IsSorted m [] s = s
  group_by-IsSorted m (row ∷ rows) s =
      group_by-IsSorted (upsert m (key row) (push row) (row ∷ [])) rows
        (upsert-IsSorted m (key row) (push row) (row ∷ []) s)

  -- Grouping loses no row and doubles none.
  pub weigh-group_by :
      (p : A → Bool) (m : BTreeMap K (List A)) (rows : List A)
      → IsSorted m
      → weigh (count p) (group_by m rows) ≡ weigh (count p) m + count p rows
  unfolding group_by
  weigh-group_by p m [] s = omega arith
  weigh-group_by p m (row ∷ rows) s = omega (
    arith,
    weigh-group_by p (upsert m (key row) (push row) (row ∷ [])) rows
        (upsert-IsSorted m (key row) (push row) (row ∷ []) s),
    weigh-upsert (count p) m (key row) (push row) (row ∷ []) s,
    count-updated p row (get m (key row)),
  )

  -- What a new group has, and keeps when a row is pushed, every group has.
  pub group_by-All {μ} :
      (P : K × List A → Type μ) (m : BTreeMap K (List A)) (rows : List A)
      → ((row : A) → P (key row, row ∷ []))
      → ((row : A) (old : List A) → P (key row, old) → P (key row, push row old))
      → All P m
      → All P (group_by m rows)
  unfolding group_by
  group_by-All P m [] start more h = h
  group_by-All P m (row ∷ rows) start more h =
      group_by-All P (upsert m (key row) (push row) (row ∷ [])) rows start more
        (All-upsert P m (key row) (push row) (row ∷ []) (start row) (more row) h)

  -- The rows of a group are those with its key.
  abbrev HasKey : K × List A → Type ℓ
  HasKey e = All (λ row. key row ≡ e.0) e.1

  group_by-HasKey : (rows : List A) → All HasKey (group_by [] rows)
  group_by-HasKey rows =
      group_by-All HasKey [] rows (λ row. (refl, tt))
        (λ row old h. All-append (λ r. key r ≡ key row) old (row ∷ []) h (refl, tt)) tt
