-- ===== src/BTree/Keys.antt =====
-- The keys of a map: collecting them in a set, and reading every entry back through its key.
use Prim.Native.Nat.Ordering.{lt}
use coverage_mcp.Prelude.{◌≡◌, refl, sym, ap, ◌∙◌, Option, some, List, [], ◌∷◌, ◌++◌, arith, map}
use mathlib.Core.Path.{ap₂}
use mathlib.Core.List.{append_assoc, append-nil}
use coverage_mcp.Order.{Ord}
use coverage_mcp.BTree.{BTreeMap, BTreeSet, keys, values, get, upsert, insert, add_all}
use coverage_mcp.BTree.Laws.{Above, IsSorted}

module _ {ℓ} {K : Type ℓ} ⦃o : Ord K⦄ where
  abbrev AllAbove : K → List K → Type 0
  AllAbove q [] = Unit
  AllAbove q (k ∷ ks) = (o.cmp q k ≡ lt) × AllAbove q ks

  abbrev IsSortedList : List K → Type 0
  IsSortedList [] = Unit
  IsSortedList (k ∷ ks) = AllAbove k ks × IsSortedList ks

module _ {ℓ κ} {K : Type ℓ} {V : Type κ} ⦃o : Ord K⦄ where
  -- Every key of the map comes before `q`.
  abbrev pub Below : K → BTreeMap K V → Type 0
  Below q [] = Unit
  Below q ((k, v) ∷ m) = (o.cmp k q ≡ lt) × Below q m

  Above-keys : (q : K) (m : BTreeMap K V) → Above q m → AllAbove q (keys m)
  Above-keys q [] a = tt
  Above-keys q ((k, v) ∷ m) a = (a.0, Above-keys q m a.1)

  -- A key beyond all others goes to the end.
  keys-insert_last :
      (q : K) (v : V) (m : BTreeMap K V) → Below q m → keys (insert m q v) ≡ keys m ++ q ∷ []
  unfolding insert upsert
  keys-insert_last q v [] b = refl
  keys-insert_last q v ((k, w) ∷ m) b = ground (arith, keys-insert_last q v m b.1, o.cmp_flip q k)

  -- Looking up every key gives every value.
  map-get-skip {μ} :
      {B : Type μ} (f : Option V → B) (k : K) (v : V) (m : BTreeMap K V) (ks : List K)
      → AllAbove k ks
      → map (λ q. f (get ((k, v) ∷ m) q)) ks ≡ map (λ q. f (get m q)) ks
  unfolding get
  map-get-skip f k v m [] a = refl
  map-get-skip f k v m (q ∷ ks) a =
      ap₂ ◌∷◌ (ap f (ground (arith, o.cmp_flip q k))) (map-get-skip f k v m ks a.1)

  pub map-get-keys {μ} :
      {B : Type μ} (f : Option V → B) (m : BTreeMap K V)
      → IsSorted m
      → map (λ q. f (get m q)) (keys m) ≡ map (λ v. f (some v)) (values m)
  map-get-keys f [] s = refl
  map-get-keys f ((k, v) ∷ m) s =
      ap₂ ◌∷◌ (ap f at_head)
        (map-get-skip f k v m (keys m) (Above-keys k m s.0) ∙ map-get-keys f m s.1)
    where
      at_head : get ((k, v) ∷ m) k ≡ some v
      at_head = unfold get in ground (arith, o.cmp_self k)

  IsSortedList-keys : (m : BTreeMap K V) → IsSorted m → IsSortedList (keys m)
  IsSortedList-keys [] s = tt
  IsSortedList-keys ((k, v) ∷ m) s = (Above-keys k m s.0, IsSortedList-keys m s.1)

module _ {ℓ} {K : Type ℓ} ⦃o : Ord K⦄ where
  abbrev AllBelow : BTreeSet K → List K → Type 0
  AllBelow s [] = Unit
  AllBelow s (q ∷ qs) = Below q s × AllBelow s qs

  pub Below-insert :
      (p q : K) (s : BTreeSet K) → o.cmp q p ≡ lt → Below p s → Below p (insert s q tt)
  unfolding insert upsert
  Below-insert p q [] h b = (h, tt)
  Below-insert p q ((k, w) ∷ s) h b = ground (arith, Below-insert p q s h b.1)

  AllBelow-insert :
      (q : K) (s : BTreeSet K) (qs : List K)
      → AllAbove q qs
      → AllBelow s qs
      → AllBelow (insert s q tt) qs
  AllBelow-insert q s [] a b = tt
  AllBelow-insert q s (p ∷ ps) a b = (Below-insert p q s a.0 b.0, AllBelow-insert q s ps a.1 b.1)

  keys-add_all :
      (s : BTreeSet K) (qs : List K)
      → IsSortedList qs
      → AllBelow s qs
      → keys (add_all s qs) ≡ keys s ++ qs
  unfolding add_all
  keys-add_all s [] a b = sym (append-nil (keys s))
  keys-add_all s (q ∷ qs) a b =
      keys-add_all (insert s q tt) qs a.1 (AllBelow-insert q s qs a.0 b.1)
      ∙ (ap (λ ks. ks ++ qs) (keys-insert_last q tt s b.0) ∙ append_assoc (keys s) (q ∷ []) qs)

  AllBelow-nil : (qs : List K) → AllBelow [] qs
  AllBelow-nil [] = tt
  AllBelow-nil (q ∷ qs) = (tt, AllBelow-nil qs)

-- Collecting the keys of a map in a set gives the same keys in the same order.
pub keys-add_all-keys {ℓ κ} :
    {K : Type ℓ} {V : Type κ} ⦃o : Ord K⦄ (m : BTreeMap K V)
    → IsSorted m
    → keys (add_all [] (keys m)) ≡ keys m
keys-add_all-keys m s = keys-add_all [] (keys m) (IsSortedList-keys m s) (AllBelow-nil (keys m))
