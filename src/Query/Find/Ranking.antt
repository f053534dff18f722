-- ===== src/Query/Find/Ranking.antt =====
-- The order of the groups: the largest first.
use Prim.Native.Nat.Ordering.{gt}
use Prim.Native.Nat.{Ordering}
use Prim.Native.String.{compare as compare_text}
use mathlib.Core.Path.{subst}
use coverage_mcp.Query.Find.Groups.{IsNonempty, show_sorted, sorted_groups-IsNonempty}
use coverage_mcp.Prelude.{
  Option, ℕ, ◌≤◌, String, ◌≡◌, ◌≢◌, refl, List, [], ◌∷◌, arith, All, length, map,
}
use coverage_mcp.Order.{flip, nat_ord, text_ord, int_ord, option_ord, pair_ord, then_cmp}
use coverage_mcp.BTree.{values}
use coverage_mcp.BTree.Group.{group_by}
use coverage_mcp.Sort.{sort_by, IsOrdered, sort_by-IsOrdered}
use coverage_mcp.Query.{Span, Observation}
use coverage_mcp.Query.Groups.{
  group_key, compare_rows, compare_span, compare_first, compare_groups, sorted_groups, Group,
  show_groups,
}

then_cmp-flip :
    (a a' b b' : Ordering) → a ≡ flip a' → b ≡ flip b' → then_cmp a b ≡ flip (then_cmp a' b')
then_cmp-flip a a' b b' ha hb = ground (arith, ha, hb)

compare_span-flip : (a b : Span) → compare_span a b ≡ flip (compare_span b a)
unfolding compare_span int_ord
compare_span-flip (a, (b, (c, d))) (a', (b', (c', d'))) =
    then_cmp-flip _ _ _ _ (int_ord.cmp_flip a a') (
      then_cmp-flip _ _ _ _ (int_ord.cmp_flip b b')
        (then_cmp-flip _ _ _ _ (int_ord.cmp_flip c c') (int_ord.cmp_flip d d')))

compare_first-flip : (xs ys : List Observation) → compare_first xs ys ≡ flip (compare_first ys xs)
unfolding text_ord
compare_first-flip [] [] = refl
compare_first-flip [] (y ∷ ys) = refl
compare_first-flip (x ∷ xs) [] = refl
compare_first-flip (x ∷ xs) (y ∷ ys) =
    then_cmp-flip (compare_text x.path y.path) (compare_text y.path x.path) _ _
      (text_ord.cmp_flip x.path y.path)
      (then_cmp-flip _ _ (compare_text x.symbol y.symbol) (compare_text y.symbol x.symbol)
        (compare_span-flip x.span y.span) (text_ord.cmp_flip x.symbol y.symbol))

compare_groups-flip :
    (xs ys : List Observation) → compare_groups xs ys ≡ flip (compare_groups ys xs)
unfolding compare_groups nat_ord
compare_groups-flip xs ys =
    then_cmp-flip _ _ _ _ (nat_ord.cmp_flip (length ys) (length xs)) (compare_first-flip xs ys)

-- No group is larger than the one before it.
abbrev IsDescending : List (List Observation) → Type 0
IsDescending [] = Unit
IsDescending (xs ∷ []) = Unit
IsDescending (xs ∷ ys ∷ more) = (length ys ≤ length xs) × IsDescending (ys ∷ more)

compare_groups-le : (xs ys : List Observation) → compare_groups xs ys ≢ gt → length ys ≤ length xs
unfolding compare_groups
compare_groups-le xs ys h = ground (arith, h)

ordered-IsDescending :
    (gs : List (List Observation)) → IsOrdered compare_groups gs → IsDescending gs
ordered-IsDescending [] h = tt
ordered-IsDescending (xs ∷ []) h = tt
ordered-IsDescending (xs ∷ ys ∷ more) h =
    (compare_groups-le xs ys h.0, ordered-IsDescending (ys ∷ more) h.1)

sorted_groups-IsDescending : (rows : List Observation) → IsDescending (sorted_groups rows)
unfolding sorted_groups
sorted_groups-IsDescending rows = ordered-IsDescending _ (
    sort_by-IsOrdered compare_groups (λ xs ys h. ground (arith, h, compare_groups-flip xs ys))
      (map (sort_by compare_rows) (values (group_by group_key [] rows))))

-- The same of the groups that are shown, by their counts.
abbrev pub IsRanked : List Group → Type 0
IsRanked [] = Unit
IsRanked (g ∷ []) = Unit
IsRanked (g ∷ h ∷ more) = (h.count ≤ g.count) × IsRanked (h ∷ more)

abbrev IsBelow : ℕ → List (List Observation) → Type 0
IsBelow n [] = Unit
IsBelow n (rows ∷ more) = length rows ≤ n

head-IsBelow :
    (rows : List Observation) (gs : List (List Observation))
    → IsDescending (rows ∷ gs)
    → IsBelow (length rows) gs
head-IsBelow rows [] d = tt
head-IsBelow rows (ys ∷ gs) d = d.0

tail-IsDescending :
    (rows : List Observation) (gs : List (List Observation))
    → IsDescending (rows ∷ gs)
    → IsDescending gs
tail-IsDescending rows [] d = tt
tail-IsDescending rows (ys ∷ gs) d = d.1

pair-IsRanked :
    (g h : Group) (more gs : List Group)
    → gs ≡ h ∷ more
    → h.count ≤ g.count
    → IsRanked gs
    → IsRanked (g ∷ gs)
pair-IsRanked g h more gs e le ranked = rw e (le, subst IsRanked e ranked)

-- A group in front of the rest of a ranking.
lead-IsRanked :
    (g : Group) (n : ℕ) (demangle : String → Option String) (gs : List (List Observation))
    → g.count ≡ n
    → All IsNonempty gs
    → IsBelow n gs
    → IsRanked (show_groups demangle gs)
    → IsRanked (g ∷ show_groups demangle gs)
unfolding show_groups
lead-IsRanked g n demangle [] e full below ranked = tt
lead-IsRanked g n demangle (rows ∷ gs) e full below ranked =
    let (h, shown, counted) = show_sorted demangle rows full.0 in
    pair-IsRanked g h (show_groups demangle gs) _ (rw (shown, show_groups) refl)
      (omega (arith, e, counted, below)) ranked

show_groups-IsRanked :
    (demangle : String → Option String) (gs : List (List Observation))
    → All IsNonempty gs
    → IsDescending gs
    → IsRanked (show_groups demangle gs)
unfolding show_groups
show_groups-IsRanked demangle [] full d = tt
show_groups-IsRanked demangle (rows ∷ gs) full d =
    let (g, shown, counted) = show_sorted demangle rows full.0 in
    rw (shown, show_groups)
      (lead-IsRanked g (length rows) demangle gs counted full.1 (head-IsBelow rows gs d)
        (show_groups-IsRanked demangle gs full.1 (tail-IsDescending rows gs d)))

-- The groups of all rows are shown with the largest first: no group counts more rows than the one
-- before it.
pub groups-IsRanked :
    (demangle : String → Option String) (rows : List Observation)
    → IsRanked (show_groups demangle (sorted_groups rows))
groups-IsRanked demangle rows =
    show_groups-IsRanked demangle (sorted_groups rows) (sorted_groups-IsNonempty rows)
      (sorted_groups-IsDescending rows)
