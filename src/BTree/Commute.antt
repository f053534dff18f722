-- ===== src/BTree/Commute.antt =====
-- Two updates `entry(k).and_modify(..).or_insert(..)` in either order.
use Prim.Native.Nat.Ordering.{eq}
use mathlib.Core.Path.{subst}
use coverage_mcp.Prelude.{◌≡◌, ◌≢◌, sym, Option, none, some, arith, inl, inr}
use coverage_mcp.Order.{Ord}
use coverage_mcp.BTree.{BTreeMap, get, upsert}
use coverage_mcp.BTree.Laws.{IsSorted, get-upsert, upsert-IsSorted, Ordering-cases}

-- both lookups find nothing, or values that are related
abbrev pub Related {ℓ} : {V : Type ℓ} → (V → V → Type 0) → Option V → Option V → Type 0
Related R none none = Unit
Related R (some a) (some b) = R a b
Related R _ _ = ⊥

pub Related-refl {ℓ} :
    {V : Type ℓ} (R : V → V → Type 0) → ((a : V) → R a a) → (x : Option V) → Related R x x
Related-refl R r none = tt
Related-refl R r (some a) = r a

-- the value that is there, joined with `v`
abbrev pub joined {ℓ} : {V : Type ℓ} → (V → V → V) → Option V → V → V
joined f none v = v
joined f (some old) v = f old v

module _ {ℓ κ} {K : Type ℓ} {V : Type κ} ⦃o : Ord K⦄ (f : V → V → V) where
  abbrev pub join : BTreeMap K V → K → V → BTreeMap K V
  join m k v = upsert m k (λ old. f old v) v

  join-IsSorted : (m : BTreeMap K V) (k : K) (v : V) → IsSorted m → IsSorted (join m k v)
  join-IsSorted m k v s = upsert-IsSorted m k (λ old. f old v) v s

  pub get-join :
      (m : BTreeMap K V) (k p : K) (v : V)
      → IsSorted m
      → get (join m k v) p ≡ elim (o.cmp p k) [ eq ↦ some (joined f (get m k) v) | _ ↦ get m p ]
  get-join m k p v s = rw (get-upsert m k p (λ old. f old v) v s) (ground arith)

  module _ (m : BTreeMap K V) (sorted : IsSorted m) where
    join_ne_comm :
        (k j p : K) (v w : V)
        → o.cmp j k ≢ eq
        → get (join (join m k v) j w) p ≡ get (join (join m j w) k v) p
    join_ne_comm k j p v w ne = ground (
      arith,
      get-join (join m k v) j p w (join-IsSorted m k v sorted),
      get-join (join m j w) k p v (join-IsSorted m j w sorted),
      get-join m k p v sorted,
      get-join m j p w sorted,
      get-join m k j v sorted,
      get-join m j k w sorted,
      o.eq_of_cmp p j,
      o.eq_of_cmp p k,
      o.cmp_flip j k,
    )

    get-join_twice :
        (k p : K) (v w : V)
        → get (join (join m k v) k w) p
          ≡ elim (o.cmp p k) [ eq ↦ some (joined f (some (joined f (get m k) v)) w) | _ ↦ get m p ]
    get-join_twice k p v w = ground (
      arith,
      get-join (join m k v) k p w (join-IsSorted m k v sorted),
      get-join m k p v sorted,
      get-join m k k v sorted,
      o.cmp_self k,
    )

    module _ (R : V → V → Type 0) (R-refl : (a : V) → R a a) where
      Related-of_eq : {x y : Option V} → x ≡ y → Related R x y
      Related-of_eq {x} e = subst (λ z. Related R x z) e (Related-refl R R-refl x)

      -- Two updates may change places, if two joins into one value may.
      pub join_comm :
          (k j p : K) (v w : V)
          → R (joined f (some (joined f (get m k) v)) w) (joined f (some (joined f (get m k) w)) v)
          → Related R (get (join (join m k v) j w) p) (get (join (join m j w) k v) p)
      join_comm k j p v w same = elim (Ordering-cases (o.cmp j k)) [
        | inl before ↦ Related-of_eq (join_ne_comm k j p v w (ground arith))
        | inr (inr after) ↦ Related-of_eq (join_ne_comm k j p v w (ground arith))
        | inr (inl here) ↦
            subst (λ i. Related R (get (join (join m k v) i w) p) (get (join (join m i w) k v) p))
              (sym (o.eq_of_cmp j k here)) at_key
      ]
        where
          at_key : Related R (get (join (join m k v) k w) p) (get (join (join m k w) k v) p)
          at_key = elim (Ordering-cases (o.cmp p k)) [
            | inl before ↦
                rw (get-join_twice k p v w, get-join_twice k p w v, before)
                  (Related-refl R R-refl (get m p))
            | inr (inr after) ↦
                rw (get-join_twice k p v w, get-join_twice k p w v, after)
                  (Related-refl R R-refl (get m p))
            | inr (inl here) ↦ rw (get-join_twice k p v w, get-join_twice k p w v, here) same
          ]
