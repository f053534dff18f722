-- ===== src/Pool/Tracker/Slots.antt =====
-- The slots of threads by their ids, and the map of the handles they registered.
use mathlib.Core.Path.{subst}
use coverage_mcp.Prelude.{
  ℕ, zero, suc, ◌<◌, ◌==◌, ◌≡◌, refl, Bool, true, false, ◌&&◌, some, List, [], ◌∷◌, All, any,
  get_elem?, get_elem?-All, arith, ◌∙◌, Bool-cases, inl, inr,
}
use coverage_mcp.Order.{nat_ord}
use coverage_mcp.BTree
use coverage_mcp.BTree.{BTreeMap}
use coverage_mcp.BTree.Laws.{IsSorted, Above, get-insert}
use coverage_mcp.Pool.Tracker.{remove, Slot, without, set_registered}

module _ {H : Type 0} where
  abbrev IsFresh : ℕ → List (Slot H) → Type 0
  IsFresh id = All (λ (x : Slot H). (x.id == id) ≡ false)

  abbrev pub IsDistinct : List (Slot H) → Type 0
  IsDistinct [] = Unit
  IsDistinct (x ∷ xs) = IsFresh x.id xs × IsDistinct xs

  abbrev pub IsBelow : ℕ → List (Slot H) → Type 0
  IsBelow n = All (λ (x : Slot H). x.id < n)

  -- a registered slot has its handle in the map
  abbrev pub IsKnown : BTreeMap ℕ H → Slot H → Type 0
  IsKnown m x = x.registered ≡ true → BTree.get m x.id ≡ some x.interrupt

  abbrev pub is_live : ℕ → List (Slot H) → Bool
  is_live id = any (λ (x : Slot H). x.registered && x.id == id)

  -- Slots with the id of this one have its handle.
  abbrev pub IsTheOnly : Slot H → List (Slot H) → Type 0
  IsTheOnly slot = All (λ (x : Slot H). (x.id == slot.id) ≡ true → x.interrupt ≡ slot.interrupt)

  pub IsBelow-IsFresh : (n : ℕ) (xs : List (Slot H)) → IsBelow n xs → IsFresh n xs
  IsBelow-IsFresh n [] b = tt
  IsBelow-IsFresh n (x ∷ xs) b = (ground (arith, b.0), IsBelow-IsFresh n xs b.1)

  pub IsBelow-suc : (n : ℕ) (xs : List (Slot H)) → IsBelow n xs → IsBelow (suc n) xs
  IsBelow-suc n [] b = tt
  IsBelow-suc n (x ∷ xs) b = (omega (arith, b.0), IsBelow-suc n xs b.1)

  pub All-without {κ} :
      (P : Slot H → Type κ) (id : ℕ) (xs : List (Slot H)) → All P xs → All P (without id xs)
  All-without P id [] a = tt
  All-without P id (x ∷ xs) a = ground (arith, All-without P id xs a.1, a.0)

  pub without-IsDistinct :
      (id : ℕ) (xs : List (Slot H)) → IsDistinct xs → IsDistinct (without id xs)
  without-IsDistinct id [] d = tt
  without-IsDistinct id (x ∷ xs) d = ground (
    arith,
    without-IsDistinct id xs d.1,
    All-without (λ (y : Slot H). (y.id == x.id) ≡ false) id xs d.0,
  )

  -- What holds of a slot, registered or not, holds after one is registered.
  pub All-set_registered {κ} :
      (P : Slot H → Type κ) (id : ℕ) (xs : List (Slot H))
      → ((x : Slot H) → P x → (x.id == id) ≡ true → P (record x { registered = true }))
      → All P xs
      → All P (set_registered id xs)
  All-set_registered P id [] keep a = tt
  All-set_registered P id (x ∷ xs) keep a =
      (ground (arith, keep x a.0), All-set_registered P id xs keep a.1)

  pub set_registered-IsDistinct :
      (id : ℕ) (xs : List (Slot H)) → IsDistinct xs → IsDistinct (set_registered id xs)
  set_registered-IsDistinct id [] d = tt
  set_registered-IsDistinct id (x ∷ xs) d =
      let same =
        All-set_registered (λ (y : Slot H). (y.id == x.id) ≡ false) id xs (λ y p e. p) d.0 in
      elim (Bool-cases (x.id == id)) [
        | inl one ↦ rw one (same, set_registered-IsDistinct id xs d.1)
        | inr other ↦ rw other (same, set_registered-IsDistinct id xs d.1)
      ]

  IsFresh-IsTheOnly : (x : Slot H) (xs : List (Slot H)) → IsFresh x.id xs → IsTheOnly x xs
  IsFresh-IsTheOnly x [] f = tt
  IsFresh-IsTheOnly x (y ∷ ys) f = (λ e. cc, IsFresh-IsTheOnly x ys f.1)

  pub IsDistinct-IsTheOnly :
      (xs : List (Slot H)) (i : ℕ) (slot : Slot H)
      → IsDistinct xs
      → get_elem? xs i ≡ some slot
      → IsTheOnly slot xs
  IsDistinct-IsTheOnly [] i slot d h = tt
  IsDistinct-IsTheOnly (x ∷ xs) zero slot d h =
      let same : x ≡ slot = cc in
      subst (λ s. IsTheOnly s (x ∷ xs)) same (λ e. refl, IsFresh-IsTheOnly x xs d.0)
  IsDistinct-IsTheOnly (x ∷ xs) (suc i) slot d h =
      let fresh = get_elem?-All (λ (y : Slot H). (y.id == x.id) ≡ false) xs i slot d.0 h in
      (λ e. ground (arith, e, fresh), IsDistinct-IsTheOnly xs i slot d.1 h)

  pub get-remove :
      (m : BTreeMap ℕ H) (id q : ℕ) → (q == id) ≡ false → BTree.get (remove m id) q ≡ BTree.get m q
  unfolding BTree.get nat_ord
  get-remove [] id q e = refl
  get-remove ((k, h) ∷ m) id q e = ground (arith, get-remove m id q e)

  remove-Above : (p id : ℕ) (m : BTreeMap ℕ H) → Above p m → Above p (remove m id)
  remove-Above p id [] a = tt
  remove-Above p id ((k, h) ∷ m) a = ground (arith, remove-Above p id m a.1, a.0)

  pub remove-IsSorted : (id : ℕ) (m : BTreeMap ℕ H) → IsSorted m → IsSorted (remove m id)
  remove-IsSorted id [] s = tt
  remove-IsSorted id ((k, h) ∷ m) s =
      ground (arith, remove-IsSorted id m s.1, remove-Above k id m s.0)

  -- Registering the one slot of an id makes it known, and keeps what is known.
  pub set_registered-IsKnown :
      (m : BTreeMap ℕ H) (slot : Slot H) (xs : List (Slot H))
      → IsSorted m
      → IsTheOnly slot xs
      → All (IsKnown m) xs
      → All (IsKnown (BTree.insert m slot.id slot.interrupt)) (set_registered slot.id xs)
  unfolding nat_ord
  set_registered-IsKnown m slot [] s only a = tt
  set_registered-IsKnown m slot (x ∷ xs) s only a =
      let read = get-insert m slot.id x.id slot.interrupt s in
      let others = set_registered-IsKnown m slot xs s only.1 a.1 in
      elim (Bool-cases (x.id == slot.id)) [
        | inl one ↦ rw one ((λ r. ground (arith, one, read, only.0 one)), others)
        | inr other ↦ rw other ((λ r. ground (arith, other, read, a.0 r)), others)
      ]

  pub remove-IsKnown :
      (m : BTreeMap ℕ H) (id : ℕ) (xs : List (Slot H))
      → All (IsKnown m) xs
      → All (IsKnown (remove m id)) (without id xs)
  remove-IsKnown m id [] a = tt
  remove-IsKnown m id (x ∷ xs) a =
      let others = remove-IsKnown m id xs a.1 in
      elim (Bool-cases (x.id == id)) [
        | inl one ↦ rw one others
        | inr other ↦ rw other ((λ r. get-remove m id x.id other ∙ a.0 r), others)
      ]

  pub is_live-set_registered :
      (k id : ℕ) (xs : List (Slot H))
      → is_live k xs ≡ true
      → is_live k (set_registered id xs) ≡ true
  is_live-set_registered k id [] l = l
  is_live-set_registered k id (x ∷ xs) l = elim (Bool-cases (x.id == id)) [
    | inl one ↦ rw one (ground (arith, l, is_live-set_registered k id xs))
    | inr other ↦ rw other (ground (arith, l, is_live-set_registered k id xs))
  ]

  pub is_live-registered :
      (xs : List (Slot H)) (i : ℕ) (slot : Slot H)
      → get_elem? xs i ≡ some slot
      → is_live slot.id (set_registered slot.id xs) ≡ true
  is_live-registered [] i slot h = cc
  is_live-registered (x ∷ xs) zero slot h =
      let same : x ≡ slot = cc in
      subst (λ (s : Slot H). is_live s.id (set_registered s.id (x ∷ xs)) ≡ true) same
        (let self : (x.id == x.id) ≡ true = ground arith in rw self (ground (arith, self)))
  is_live-registered (x ∷ xs) (suc i) slot h = elim (Bool-cases (x.id == slot.id)) [
    | inl one ↦ rw one (ground (arith, is_live-registered xs i slot h))
    | inr other ↦ rw other (ground (arith, is_live-registered xs i slot h))
  ]

  pub is_live-without :
      (k id : ℕ) (xs : List (Slot H))
      → (k == id) ≡ false
      → is_live k xs ≡ true
      → is_live k (without id xs) ≡ true
  is_live-without k id [] e l = l
  is_live-without k id (x ∷ xs) e l = ground (arith, is_live-without k id xs e)

  pub remove-All {κ} :
      (P : ℕ × H → Type κ) (Q : ℕ × H → Type κ) (id : ℕ) (m : BTreeMap ℕ H)
      → ((k : ℕ) (h : H) → (k == id) ≡ false → P (k, h) → Q (k, h))
      → All P m
      → All Q (remove m id)
  remove-All P Q id [] f a = tt
  remove-All P Q id ((k, h) ∷ m) f a = elim (Bool-cases (k == id)) [
    | inl one ↦ rw one (remove-All P Q id m f a.1)
    | inr other ↦ rw other (f k h other a.0, remove-All P Q id m f a.1)
  ]
