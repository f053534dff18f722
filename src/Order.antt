-- ===== src/Order.antt =====
-- The bound `K: Ord` of the standard library's `BTreeMap` and `BTreeSet`, with the laws that the
-- trait asks of `cmp`, and its instances for the keys that the program uses.
mod Text
use Prim.Native.Nat.{compare, Ordering}
use Prim.Native.Nat.Ordering.{lt, eq, gt}
use Prim.Native.String.{compare as compare_text}
pub use Text.{flip}
use Text.{text_flip, text_trans, text_self, text_eq}
use coverage_mcp.Prelude.{ℕ, ◌+◌, String, ◌≡◌, refl, Bool, true, false, Option, none, some, arith}
use coverage_mcp.Prelude.Int.{ℤ, pos_part, neg_part, eq_of_parts}

pub record IsLawful {ℓ} {K : Type ℓ} (cmp : K → K → Ordering) : Type ℓ where
  pub cmp_self : (a : K) → cmp a a ≡ eq
  pub eq_of_cmp : (a b : K) → cmp a b ≡ eq → a ≡ b
  pub cmp_flip : (a b : K) → cmp a b ≡ flip (cmp b a)
  pub cmp_trans : (k l m : K) → cmp k l ≡ lt → cmp l m ≡ lt → cmp k m ≡ lt

-- A type with an order; every instance below is one.
pub record Ord {ℓ} (Key : Type ℓ) : Type ℓ where
  pub cmp : Key → Key → Ordering
  pub lawful : IsLawful cmp
  pub open lawful use *

-- `Ordering::then`, for the derived order of a tuple.
abbrev pub then_cmp : Ordering → Ordering → Ordering
then_cmp eq second = second
then_cmp lt _ = lt
then_cmp gt _ = gt

pub compare-IsLawful : IsLawful compare
compare-IsLawful = ground arith

instance unfoldable pub nat_ord : Ord ℕ
nat_ord = record { cmp = compare; lawful = compare-IsLawful }

pub text-IsLawful : IsLawful compare_text
text-IsLawful = record {
  cmp_self = text_self;
  eq_of_cmp = text_eq;
  cmp_flip = text_flip;
  cmp_trans = text_trans;
}

instance unfoldable pub text_ord : Ord String
text_ord = record { cmp = compare_text; lawful = text-IsLawful }

abbrev pub compare_ℤ : ℤ → ℤ → Ordering
compare_ℤ a b = compare (pos_part a + neg_part b) (pos_part b + neg_part a)

pub int-IsLawful : IsLawful compare_ℤ
int-IsLawful = record {
  cmp_self = λ a. ground arith;
  eq_of_cmp = λ a b. ground (arith, eq_of_parts a b);
  cmp_flip = λ a b. ground arith;
  cmp_trans = λ a b c. ground arith;
}

instance unfoldable pub int_ord : Ord ℤ
int_ord = record { cmp = compare_ℤ; lawful = int-IsLawful }

-- `None` comes before `Some`.
module _ {ℓ} {A : Type ℓ} ⦃o : Ord A⦄ where
  abbrev compare_option : Option A → Option A → Ordering
  compare_option none none = eq
  compare_option none (some b) = lt
  compare_option (some a) none = gt
  compare_option (some a) (some b) = o.cmp a b

  pub option-IsLawful : IsLawful compare_option
  option-IsLawful = record {
    cmp_self = option_self;
    eq_of_cmp = option_eq;
    cmp_flip = option_flip;
    cmp_trans = option_trans;
  }
    where
      option_self : (a : Option A) → compare_option a a ≡ eq
      option_self none = refl
      option_self (some a) = o.cmp_self a

      option_eq : (a b : Option A) → compare_option a b ≡ eq → a ≡ b
      option_eq none none h = refl
      option_eq none (some b) h = ground arith
      option_eq (some a) none h = ground arith
      option_eq (some a) (some b) h = cc (o.eq_of_cmp a b h)

      option_flip : (a b : Option A) → compare_option a b ≡ flip (compare_option b a)
      option_flip none none = refl
      option_flip none (some b) = refl
      option_flip (some a) none = refl
      option_flip (some a) (some b) = o.cmp_flip a b

      option_trans :
          (a b c : Option A)
          → compare_option a b ≡ lt
          → compare_option b c ≡ lt
          → compare_option a c ≡ lt
      option_trans none b (some c) h k = refl
      option_trans none none none h k = h
      option_trans none (some b) none h k = ground arith
      option_trans (some a) none c h k = ground arith
      option_trans (some a) (some b) none h k = ground arith
      option_trans (some a) (some b) (some c) h k = o.cmp_trans a b c h k

  instance unfoldable pub option_ord : Ord (Option A)
  option_ord = record { cmp = compare_option; lawful = option-IsLawful }

-- Tuples compare lexicographically; a longer tuple is a nest of pairs.
module _ {ℓ κ} {A : Type ℓ} {B : Type κ} ⦃a : Ord A⦄ ⦃b : Ord B⦄ where
  abbrev compare_pair : A × B → A × B → Ordering
  compare_pair x y = then_cmp (a.cmp x.0 y.0) (b.cmp x.1 y.1)

  pub pair-IsLawful : IsLawful {K = A × B} compare_pair
  pair-IsLawful = record {
    cmp_self = λ x. ground (arith, a.cmp_self x.0, b.cmp_self x.1);
    eq_of_cmp = λ x y. ground (arith, a.eq_of_cmp x.0 y.0, b.eq_of_cmp x.1 y.1);
    cmp_flip = λ x y. ground (arith, a.cmp_flip x.0 y.0, b.cmp_flip x.1 y.1);
    cmp_trans = λ x y z. ground (
      arith,
      a.eq_of_cmp x.0 y.0,
      a.eq_of_cmp y.0 z.0,
      a.cmp_trans x.0 y.0 z.0,
      b.cmp_trans x.1 y.1 z.1,
    );
  }

  instance unfoldable pub pair_ord : Ord (A × B)
  pair_ord = record { cmp = compare_pair; lawful = pair-IsLawful }

-- `==` of a type with an order.
abbrev pub same {ℓ} : {K : Type ℓ} ⦃o : Ord K⦄ → K → K → Bool
same ⦃o⦄ a b = elim (o.cmp a b) [ eq ↦ true | _ ↦ false ]
