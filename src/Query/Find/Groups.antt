-- ===== src/Query/Find/Groups.antt =====
-- The groups of a page: none is empty, none is lost, and their counts add up to the rows.
use coverage_mcp.Prelude.{
  ℕ, zero, suc, ◌+◌, ◌≤◌, String, ◌≡◌, ◌∙◌, refl, ap, Bool, true, Option, some, List, [], ◌∷◌, ◌++◌,
  map, arith, All, length, count, take, Option-cases, inl, inr, length-append,
}
use coverage_mcp.Order.{text_ord, int_ord, option_ord, pair_ord}
use coverage_mcp.BTree.{BTreeMap, values}
use coverage_mcp.BTree.Group.{group_by, group_by-All, weigh-group_by}
use coverage_mcp.BTree.Count.{weigh}
use coverage_mcp.Sort.{sort_by, length-sort_by, count-sort_by, weight, weight-sort_by, All-sort_by}
use coverage_mcp.Query.{Observation}
use coverage_mcp.Query.Groups.{
  GroupKey, group_key, compare_rows, compare_groups, sorted_groups, Group, show_group, show_groups,
  groups,
}

abbrev pub IsNonempty : List Observation → Type 0
IsNonempty rows = 1 ≤ length rows

-- the sum of the counts that groups show
abbrev pub total_count : List Group → ℕ
total_count [] = 0
total_count (g ∷ gs) = g.count + total_count gs

show_nonempty :
    (demangle : String → Option String) (rows : List Observation)
    → IsNonempty rows
    → (g : Group) × (show_group demangle rows ≡ some g) × (g.count ≡ length rows)
unfolding show_group
show_nonempty demangle [] h = ground arith
show_nonempty demangle (row ∷ rows) h = (_, refl, refl)

pub show_sorted :
    (demangle : String → Option String) (rows : List Observation)
    → IsNonempty rows
    → (g : Group) × (show_group demangle (sort_by compare_rows rows) ≡ some g)
      × (g.count ≡ length rows)
show_sorted demangle rows h =
    let (g, shown, counted) =
      show_nonempty demangle (sort_by compare_rows rows)
        (rw (length-sort_by compare_rows rows) h) in
    (g, shown, counted ∙ length-sort_by compare_rows rows)

pub length-show_groups :
    (demangle : String → Option String) (gs : List (List Observation))
    → All IsNonempty gs
    → length (show_groups demangle gs) ≡ length gs
unfolding show_groups
length-show_groups demangle [] h = refl
length-show_groups demangle (rows ∷ more) h =
    let (g, shown, counted) = show_sorted demangle rows h.0 in
    rw (shown, show_groups, length) (omega (arith, length-show_groups demangle more h.1))

total_count-show_groups :
    (demangle : String → Option String) (gs : List (List Observation))
    → All IsNonempty gs
    → total_count (show_groups demangle gs) ≡ weight (λ rows. length rows) gs
unfolding show_groups
total_count-show_groups demangle [] h = refl
total_count-show_groups demangle (rows ∷ more) h =
    let (g, shown, counted) = show_sorted demangle rows h.0 in
    rw (shown, show_groups, total_count)
      (omega (arith, counted, total_count-show_groups demangle more h.1))

pub show_groups-append :
    (demangle : String → Option String) (gs hs : List (List Observation))
    → show_groups demangle (gs ++ hs) ≡ show_groups demangle gs ++ show_groups demangle hs
unfolding show_groups
show_groups-append demangle [] hs = refl
show_groups-append demangle (rows ∷ more) hs =
    elim (Option-cases (show_group demangle (sort_by compare_rows rows))) [
      | inl dropped ↦ rw (dropped, show_groups) (show_groups-append demangle more hs)
      | inr (g, shown) ↦
          rw (shown, show_groups) (ap (λ gs'. g ∷ gs') (show_groups-append demangle more hs))
    ]

-- Every group has a row.
All-values {ℓ κ μ} :
    {K : Type ℓ} {V : Type κ} (P : V → Type μ) (m : BTreeMap K V)
    → All (λ e. P e.1) m
    → All P (values m)
All-values P [] h = tt
All-values P ((k, v) ∷ m) h = (h.0, All-values P m h.1)

All-sorted_rows :
    (gs : List (List Observation))
    → All IsNonempty gs
    → All IsNonempty (map (sort_by compare_rows) gs)
All-sorted_rows [] h = tt
All-sorted_rows (rows ∷ more) h =
    (rw (length-sort_by compare_rows rows) h.0, All-sorted_rows more h.1)

grouped-IsNonempty :
    (rows : List Observation) → All (λ e. IsNonempty e.1) (group_by group_key [] rows)
grouped-IsNonempty rows =
    group_by-All group_key (λ e. IsNonempty e.1) [] rows (λ row. omega arith)
      (λ row old h. omega (arith, length-append old (row ∷ []), h)) tt

pub sorted_groups-IsNonempty : (rows : List Observation) → All IsNonempty (sorted_groups rows)
unfolding sorted_groups
sorted_groups-IsNonempty rows = All-sort_by compare_groups IsNonempty _ (
    All-sorted_rows _
      (All-values IsNonempty (group_by group_key [] rows) (grouped-IsNonempty rows)))

weight-sorted_rows :
    (p : Observation → Bool) (gs : List (List Observation))
    → weight (count p) (map (sort_by compare_rows) gs) ≡ weight (count p) gs
weight-sorted_rows p [] = refl
weight-sorted_rows p (rows ∷ more) =
    omega (arith, count-sort_by compare_rows p rows, weight-sorted_rows p more)

weight-values :
    (g : List Observation → ℕ) (m : BTreeMap GroupKey (List Observation))
    → weight g (values m) ≡ weigh g m
unfolding weigh
weight-values g [] = refl
weight-values g ((k, v) ∷ m) = omega (arith, weight-values g m)

-- Grouping keeps every row as often as it is there.
weight-sorted_groups :
    (p : Observation → Bool) (rows : List Observation)
    → weight (count p) (sorted_groups rows) ≡ count p rows
unfolding sorted_groups weigh
weight-sorted_groups p rows = omega (
  arith,
  weight-sort_by compare_groups (count p)
      (map (sort_by compare_rows) (values (group_by group_key [] rows))),
  weight-sorted_rows p (values (group_by group_key [] rows)),
  weight-values (count p) (group_by group_key [] rows),
  weigh-group_by group_key p [] rows tt,
)

count-all : (rows : List Observation) → count (λ _. true) rows ≡ length rows
count-all [] = refl
count-all (row ∷ rows) = omega (arith, count-all rows)

weight-all :
    (gs : List (List Observation)) → weight (λ rows. length rows) gs ≡ weight (count (λ _. true)) gs
weight-all [] = refl
weight-all (rows ∷ gs) = omega (arith, count-all rows, weight-all gs)

take_all {ℓ} : {A : Type ℓ} (n : ℕ) (xs : List A) → length xs ≤ n → take n xs ≡ xs
take_all zero [] h = refl
take_all zero (x ∷ xs) h = ground arith
take_all (suc n) [] h = refl
take_all (suc n) (x ∷ xs) h = ap (λ ys. x ∷ ys) (take_all n xs (omega (arith, h)))

-- If all groups of some rows fit on one page, the counts that the groups show add up to the number
-- of rows.
pub total_count-groups :
    (demangle : String → Option String) (rows : List Observation) (limit : ℕ)
    → (groups demangle rows limit 0).1 ≤ limit
    → total_count (groups demangle rows limit 0).0 ≡ length rows
unfolding groups
total_count-groups demangle rows limit long =
    ap (λ gs. total_count (show_groups demangle gs)) (take_all limit (sorted_groups rows) long)
    ∙ omega (
      arith,
      total_count-show_groups demangle (sorted_groups rows) (sorted_groups-IsNonempty rows),
      weight-all (sorted_groups rows),
      weight-sorted_groups (λ _. true) rows,
      count-all rows,
    )
