-- ===== src/Composite/Parse/Distinct.antt =====
-- Keys among which `first_duplicate` finds none twice.
use coverage_mcp.Prelude.{
  ◌≡◌, ◌≢◌, ap, ◌∙◌, false, Bool-cases, inl, inr, none, List, [], ◌∷◌, All, IsDistinct, arith,
}
use coverage_mcp.Order.{Ord}
use coverage_mcp.BTree
use coverage_mcp.BTree.{BTreeSet}
use coverage_mcp.BTree.Laws.{IsSorted, get-insert, insert-IsSorted}
use coverage_mcp.Composite.Parse.{first_duplicate}

module _ {ℓ} {K : Type ℓ} ⦃o : Ord K⦄ where
  contains-add :
      (s : BTreeSet K) (k j : K)
      → IsSorted s
      → BTree.contains (BTree.add s k) j ≡ false
      → (j ≢ k) × (BTree.contains s j ≡ false)
  unfolding BTree.contains BTree.contains_key BTree.add
  contains-add s k j sorted h =
      let read = get-insert s k j tt sorted in
      (λ e. ground (arith, h, read, ap (λ x. o.cmp x k) e ∙ o.cmp_self k), ground (arith, h, read))

  All-add :
      (s : BTreeSet K) (k : K) (ks : List K)
      → IsSorted s
      → All (λ j. BTree.contains (BTree.add s k) j ≡ false) ks
      → All (λ j. BTree.contains s j ≡ false) ks × All (λ j. j ≢ k) ks
  All-add s k [] sorted a = (tt, tt)
  All-add s k (j ∷ ks) sorted a =
      let here = contains-add s k j sorted a.0 in
      let rest = All-add s k ks sorted a.1 in ((here.1, rest.0), (here.0, rest.1))

  add-IsSorted : (s : BTreeSet K) (k : K) → IsSorted s → IsSorted (BTree.add s k)
  unfolding BTree.add
  add-IsSorted s k sorted = insert-IsSorted s k tt sorted

  not_seen :
      (seen : BTreeSet K) (ks : List K)
      → IsSorted seen
      → first_duplicate seen ks ≡ none
      → All (λ k. BTree.contains seen k ≡ false) ks × IsDistinct ks
  unfolding first_duplicate
  not_seen seen [] s h = (tt, tt)
  not_seen seen (k ∷ ks) s h = elim (Bool-cases (BTree.contains seen k)) [
    | inl there ↦ cc
    | inr fresh ↦
        let later = not_seen (BTree.add seen k) ks (add-IsSorted seen k s) (rw fresh at h) in
        let rest = All-add seen k ks s later.0 in ((fresh, rest.0), (rest.1, later.1))
  ]

  pub first_duplicate-IsDistinct : (ks : List K) → first_duplicate [] ks ≡ none → IsDistinct ks
  first_duplicate-IsDistinct ks h = (not_seen [] ks tt h).1
