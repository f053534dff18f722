-- ===== src/BTree/Count.antt =====
-- Sums over the values of a map, before and after an update.
use coverage_mcp.Prelude.{
  ℕ, ◌+◌, ◌≡◌, refl, Bool, Option, none, some, [], ◌∷◌, arith, length, count, if◌then◌else◌,
}
use coverage_mcp.Order.{Ord}
use coverage_mcp.BTree.{BTreeMap, values, get, upsert}
use coverage_mcp.BTree.Laws.{IsSorted, get-Above, Above-trans}

module _ {ℓ κ} {K : Type ℓ} {V : Type κ} where
  -- The sum of a weight over the values.
  unfoldable pub weigh : (V → ℕ) → BTreeMap K V → ℕ
  weigh g [] = 0
  weigh g ((k, v) ∷ m) = g v + weigh g m

  pub count-values :
      (p : V → Bool) (m : BTreeMap K V) → count p (values m) ≡ weigh (λ v. if p v then 1 else 0) m
  unfolding weigh
  count-values p [] = refl
  count-values p ((k, v) ∷ m) = omega (arith, count-values p m)

  pub length-values : (m : BTreeMap K V) → length m ≡ weigh (λ _. 1) m
  unfolding weigh
  length-values [] = refl
  length-values ((k, v) ∷ m) = omega (arith, length-values m)

abbrev pub weight_of {ℓ} : {V : Type ℓ} → (V → ℕ) → Option V → ℕ
weight_of g none = 0
weight_of g (some v) = g v

abbrev pub updated {ℓ} : {V : Type ℓ} → Option V → (V → V) → V → V
updated none f v = v
updated (some w) f v = f w

module _ {ℓ κ} {K : Type ℓ} {V : Type κ} ⦃o : Ord K⦄ where
  -- An update exchanges the weight of the old value at its key for that of the new one.
  pub weigh-upsert :
      (g : V → ℕ) (m : BTreeMap K V) (q : K) (f : V → V) (v : V)
      → IsSorted m
      → weigh g (upsert m q f v) + weight_of g (get m q) ≡ weigh g m + g (updated (get m q) f v)
  unfolding weigh upsert get
  weigh-upsert g [] q f v s = omega arith
  weigh-upsert g ((k, w) ∷ m) q f v s =
      ground (arith, weigh-upsert g m q f v s.1, get-Above q m, Above-trans q k m)
