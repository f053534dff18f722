-- ===== src/Sort.antt =====
-- `sort_by` of the standard library: a stable sort, here by insertion.
use Prim.Native.Nat.{Ordering}
use Prim.Native.Nat.Ordering.{gt}
use coverage_mcp.Prelude.{
  ℕ, ◌+◌, ◌≡◌, ◌≢◌, refl, Bool, List, [], ◌∷◌, arith, count, length, All, if◌then◌else◌,
}

module _ {ℓ} {A : Type ℓ} (cmp : A → A → Ordering) where
  -- in front of the first element that does not come before it
  unfoldable pub place : A → List A → List A
  place x [] = x ∷ []
  place x (y ∷ ys) = elim (cmp x y) [ gt ↦ y ∷ place x ys | _ ↦ x ∷ y ∷ ys ]

  unfoldable pub sort_by : List A → List A
  unfolding place
  sort_by [] = []
  sort_by (x ∷ xs) = place x (sort_by xs)

  count-place :
      (p : A → Bool) (x : A) (ys : List A)
      → count p (place x ys) ≡ (if p x then 1 else 0) + count p ys
  unfolding place
  count-place p x [] = refl
  count-place p x (y ∷ ys) = ground (arith, count-place p x ys)

  -- Sorting keeps every element as often as it is there.
  pub count-sort_by : (p : A → Bool) (xs : List A) → count p (sort_by xs) ≡ count p xs
  unfolding sort_by
  count-sort_by p [] = refl
  count-sort_by p (x ∷ xs) = omega (arith, count-place p x (sort_by xs), count-sort_by p xs)

  length-place : (x : A) (ys : List A) → length (place x ys) ≡ 1 + length ys
  unfolding place
  length-place x [] = refl
  length-place x (y ∷ ys) = ground (arith, length-place x ys)

  pub length-sort_by : (xs : List A) → length (sort_by xs) ≡ length xs
  unfolding sort_by
  length-sort_by [] = refl
  length-sort_by (x ∷ xs) = omega (arith, length-place x (sort_by xs), length-sort_by xs)

  -- No element comes after its successor.
  abbrev pub IsOrdered : List A → Type 0
  IsOrdered [] = Unit
  IsOrdered (x ∷ []) = Unit
  IsOrdered (x ∷ y ∷ ys) = (cmp x y ≢ gt) × IsOrdered (y ∷ ys)

  module _ (total : (x y : A) → cmp x y ≡ gt → cmp y x ≢ gt) where
    place-IsOrdered : (x : A) (ys : List A) → IsOrdered ys → IsOrdered (place x ys)
    unfolding place
    place-IsOrdered x [] h = tt
    place-IsOrdered x (y ∷ []) h = ground (arith, total x y)
    place-IsOrdered x (y ∷ z ∷ ys) h =
        ground (arith, total x y, total x z, place-IsOrdered x (z ∷ ys) h.1)

    pub sort_by-IsOrdered : (xs : List A) → IsOrdered (sort_by xs)
    unfolding sort_by
    sort_by-IsOrdered [] = tt
    sort_by-IsOrdered (x ∷ xs) = place-IsOrdered x (sort_by xs) (sort_by-IsOrdered xs)

module _ {ℓ} {A : Type ℓ} where
  -- The sum of a weight over a list.
  abbrev pub weight : (A → ℕ) → List A → ℕ
  weight g [] = 0
  weight g (x ∷ xs) = g x + weight g xs

module _ {ℓ} {A : Type ℓ} (cmp : A → A → Ordering) where
  weight-place : (g : A → ℕ) (x : A) (ys : List A) → weight g (place cmp x ys) ≡ g x + weight g ys
  unfolding place
  weight-place g x [] = refl
  weight-place g x (y ∷ ys) = ground (arith, weight-place g x ys)

  pub weight-sort_by : (g : A → ℕ) (xs : List A) → weight g (sort_by cmp xs) ≡ weight g xs
  unfolding sort_by
  weight-sort_by g [] = refl
  weight-sort_by g (x ∷ xs) = omega (arith, weight-place g x (sort_by cmp xs), weight-sort_by g xs)

  All-place {κ} : (P : A → Type κ) (x : A) (ys : List A) → P x → All P ys → All P (place cmp x ys)
  unfolding place
  All-place P x [] p h = (p, tt)
  All-place P x (y ∷ ys) p h = ground (arith, All-place P x ys p h.1)

  pub All-sort_by {κ} : (P : A → Type κ) (xs : List A) → All P xs → All P (sort_by cmp xs)
  unfolding sort_by
  All-sort_by P [] h = tt
  All-sort_by P (x ∷ xs) h = All-place P x (sort_by cmp xs) h.0 (All-sort_by P xs h.1)
