-- ===== src/BTree/Laws.antt =====
-- Key order, and how a lookup reads an update.
use Prim.Native.Nat.{Ordering}
use Prim.Native.Nat.Ordering.{lt, eq, gt}
use coverage_mcp.Prelude.{◌≡◌, refl, none, some, [], ◌∷◌, arith, All, ◌⊎◌, inl, inr, sym}
use mathlib.Core.Path.{subst}
use coverage_mcp.Order.{Ord}
use coverage_mcp.BTree.{BTreeMap, get, upsert, insert}

pub Ordering-cases : (c : Ordering) → (c ≡ lt) ⊎ ((c ≡ eq) ⊎ (c ≡ gt))
Ordering-cases lt = inl refl
Ordering-cases eq = inr (inl refl)
Ordering-cases gt = inr (inr refl)

module _ {ℓ κ} {K : Type ℓ} {V : Type κ} ⦃o : Ord K⦄ where
  -- Every key of the map comes after `q`.
  abbrev pub Above : K → BTreeMap K V → Type 0
  Above q [] = Unit
  Above q ((k, v) ∷ m) = (o.cmp q k ≡ lt) × Above q m

  abbrev pub IsSorted : BTreeMap K V → Type 0
  IsSorted [] = Unit
  IsSorted ((k, v) ∷ m) = Above k m × IsSorted m

  pub Above-trans : (p q : K) (m : BTreeMap K V) → o.cmp p q ≡ lt → Above q m → Above p m
  Above-trans p q [] h a = tt
  Above-trans p q ((k, v) ∷ m) h a = (o.cmp_trans p q k h a.0, Above-trans p q m h a.1)

  pub get-Above : (q : K) (m : BTreeMap K V) → Above q m → get m q ≡ none
  unfolding get
  get-Above q [] a = refl
  get-Above q ((k, v) ∷ m) a = ground (arith, get-Above q m a.1)

  Above-upsert :
      (p q : K) (f : V → V) (v : V) (m : BTreeMap K V)
      → o.cmp p q ≡ lt
      → Above p m
      → Above p (upsert m q f v)
  unfolding upsert
  Above-upsert p q f v [] h a = (h, tt)
  Above-upsert p q f v ((k, w) ∷ m) h a = ground (arith, Above-upsert p q f v m h a.1)

  pub upsert-IsSorted :
      (m : BTreeMap K V) (q : K) (f : V → V) (v : V) → IsSorted m → IsSorted (upsert m q f v)
  unfolding upsert
  upsert-IsSorted [] q f v s = (tt, tt)
  upsert-IsSorted ((k, w) ∷ m) q f v s = ground (
    arith,
    upsert-IsSorted m q f v s.1,
    Above-upsert k q f v m,
    Above-trans q k m,
    o.cmp_flip q k,
  )

  -- A lookup after an update: the new value at its key, the old map at every other key.
  pub get-upsert :
      (m : BTreeMap K V) (q p : K) (f : V → V) (v : V)
      → IsSorted m
      → get (upsert m q f v) p
        ≡ elim (o.cmp p q) [ eq ↦ some (elim (get m q) [ none ↦ v | some w ↦ f w ]) | _ ↦ get m p ]
  unfolding get upsert
  get-upsert [] q p f v s = ground arith
  get-upsert ((k, w) ∷ m) q p f v s = ground (
    arith,
    get-upsert m q p f v s.1,
    get-Above q m,
    Above-trans q k m,
    o.cmp_flip q k,
    o.cmp_flip p k,
    o.cmp_flip p q,
    o.eq_of_cmp q k,
    o.eq_of_cmp p q,
    o.eq_of_cmp p k,
    o.cmp_self k,
  )

  pub insert-IsSorted : (m : BTreeMap K V) (q : K) (v : V) → IsSorted m → IsSorted (insert m q v)
  unfolding insert
  insert-IsSorted m q v s = upsert-IsSorted m q (λ _. v) v s

  pub get-insert :
      (m : BTreeMap K V) (q p : K) (v : V)
      → IsSorted m
      → get (insert m q v) p ≡ elim (o.cmp p q) [ eq ↦ some v | _ ↦ get m p ]
  unfolding insert
  get-insert m q p v s = rw (get-upsert m q p (λ _. v) v s) (ground arith)

  -- What holds of every entry, and of an update's new one, holds of every entry after it.
  pub All-upsert {μ} :
      (P : K × V → Type μ) (m : BTreeMap K V) (q : K) (f : V → V) (v : V)
      → P (q, v)
      → ((w : V) → P (q, w) → P (q, f w))
      → All P m
      → All P (upsert m q f v)
  unfolding upsert
  All-upsert P [] q f v new old a = (new, tt)
  All-upsert P ((k, w) ∷ m) q f v new old a =
      ground (arith, at_key, All-upsert P m q f v new old a.1)
    where
      at_key : o.cmp q k ≡ eq → P (k, f w)
      at_key h =
          let e = o.eq_of_cmp q k h in
          subst (λ j. P (j, f w)) e (old w (subst (λ j. P (j, w)) (sym e) a.0))

  -- What every entry satisfies, a lookup's result satisfies.
  pub get-All {μ} :
      (P : K × V → Type μ) (m : BTreeMap K V) (q : K) {v : V}
      → All P m
      → get m q ≡ some v
      → P (q, v)
  unfolding get
  get-All P [] q a h = ground arith
  get-All P ((k, w) ∷ m) q {v} a h = elim (Ordering-cases (o.cmp q k)) [
    | inl before ↦ get-All P m q a.1 (ground arith)
    | inr (inl here) ↦ subst (λ (e : K × V). P e) (cc (o.eq_of_cmp q k here, found here)) a.0
    | inr (inr after) ↦ get-All P m q a.1 (ground arith)
  ]
    where
      found : o.cmp q k ≡ eq → w ≡ v
      found e = ground arith
