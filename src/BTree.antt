-- ===== src/BTree.antt =====
-- The standard library's `BTreeMap` and `BTreeSet`, as the list of their entries in key order.
pub mod Laws
pub mod Count
pub mod Commute
pub mod Keys
pub mod Group
pub mod Fresh
use Prim.Native.Nat.{Ordering}
use Prim.Native.Nat.Ordering.{lt, eq, gt}
use coverage_mcp.Prelude.{Bool, Option, none, some, List, [], ◌∷◌, is_some, map}
use coverage_mcp.Order.{Ord}

abbrev pub BTreeMap {ℓ κ} : Type ℓ → Type κ → Type (ℓ ⊔ κ)
BTreeMap K V = List (K × V)

module _ {ℓ κ} {K : Type ℓ} {V : Type κ} where
  abbrev pub keys : BTreeMap K V → List K
  keys [] = []
  keys ((k, v) ∷ m) = k ∷ keys m

  abbrev pub values : BTreeMap K V → List V
  values [] = []
  values ((k, v) ∷ m) = v ∷ values m

module _ {ℓ κ} {K : Type ℓ} {V : Type κ} ⦃o : Ord K⦄ where
  unfoldable pub get : BTreeMap K V → K → Option V
  get [] q = none
  get ((k, v) ∷ m) q = elim (o.cmp q k) [ eq ↦ some v | _ ↦ get m q ]

  unfoldable pub contains_key : BTreeMap K V → K → Bool
  unfolding get
  contains_key m q = is_some (get m q)

  -- `entry(q).and_modify(f).or_insert(v)`
  unfoldable pub upsert : BTreeMap K V → K → (V → V) → V → BTreeMap K V
  upsert [] q f v = (q, v) ∷ []
  upsert ((k, w) ∷ m) q f v = elim (o.cmp q k) [
    | lt ↦ (q, v) ∷ (k, w) ∷ m
    | eq ↦ (k, f w) ∷ m
    | gt ↦ (k, w) ∷ upsert m q f v
  ]

  unfoldable pub insert : BTreeMap K V → K → V → BTreeMap K V
  unfolding upsert
  insert m q v = upsert m q (λ _. v) v

-- A `BTreeSet` is a map to the unit.
abbrev pub BTreeSet {ℓ} : Type ℓ → Type ℓ
BTreeSet K = BTreeMap K (Unit {0})

module _ {ℓ} {K : Type ℓ} ⦃o : Ord K⦄ where
  unfoldable pub contains : BTreeSet K → K → Bool
  unfolding contains_key
  contains s q = contains_key s q

  unfoldable pub add : BTreeSet K → K → BTreeSet K
  unfolding insert
  add s q = insert s q tt

  -- `extend`
  unfoldable pub add_all : BTreeSet K → List K → BTreeSet K
  unfolding add
  add_all s [] = s
  add_all s (q ∷ qs) = add_all (add s q) qs
