-- ===== src/Error/Ensures.antt =====
-- What a fallible step gives when it succeeds: one rule for each way to build a step.
use coverage_mcp.Prelude.{
  ◌≡◌, refl, Bool, true, false, Option, none, some, List, [], ◌∷◌, All, if_let, if◌then◌else◌,
}
use mathlib.Core.Path.{subst}
use coverage_mcp.Error.{
  AppError, AppResult, ok, err, reject_if, ok_or, ◌>>=◌, ◌>>◌, fold_result, fold_result_keep,
  map_result,
}

-- Whatever `r` returns satisfies `P`.
pub record Ensures {ℓ κ} {A : Type ℓ} (P : A → Type κ) (r : AppResult A) : Type (ℓ ⊔ κ) where
  pub at : (a : A) → r ≡ ok a → P a

module _ {ℓ κ} {A : Type ℓ} {P : A → Type κ} where
  pub Ensures-ok : (a : A) → P a → Ensures P (ok a)
  Ensures-ok a p = record { at = λ b e. subst P (cc) p }

  pub Ensures-err : (e : AppError) → Ensures P (err e)
  Ensures-err e = record { at = λ b h. cc }

  pub Ensures-if :
      (b : Bool) (r s : AppResult A) → Ensures P r → Ensures P s → Ensures P (if b then r else s)
  Ensures-if true r s hr hs = hr
  Ensures-if false r s hr hs = hs

  -- each branch may use the test
  pub Ensures-guard :
      (b : Bool) (r s : AppResult A)
      → (b ≡ true → Ensures P r)
      → (b ≡ false → Ensures P s)
      → Ensures P (if b then r else s)
  Ensures-guard true r s hr hs = hr refl
  Ensures-guard false r s hr hs = hs refl

  pub Ensures-bind {μ} :
      {B : Type μ} (r : AppResult B) (f : B → AppResult A)
      → ((b : B) → Ensures P (f b))
      → Ensures P (r >>= f)
  Ensures-bind (ok b) f hf = hf b
  Ensures-bind (err e) f hf = Ensures-err e

  -- the rest may use what the first step ensures
  pub Ensures-then {μ ν} :
      {B : Type μ} {Q : B → Type ν} (r : AppResult B) (f : B → AppResult A)
      → Ensures Q r
      → ((b : B) → Q b → Ensures P (f b))
      → Ensures P (r >>= f)
  Ensures-then (ok b) f hr hf = hf b (hr.at b refl)
  Ensures-then (err e) f hr hf = Ensures-err e

  -- the rest may use what the first step returned
  pub Ensures-known {μ} :
      {B : Type μ} (r : AppResult B) (f : B → AppResult A)
      → ((b : B) → r ≡ ok b → Ensures P (f b))
      → Ensures P (r >>= f)
  Ensures-known (ok b) f hf = hf b refl
  Ensures-known (err e) f hf = Ensures-err e

  -- the result of the first step is known
  pub Ensures-exact {μ} :
      {B : Type μ} (r : AppResult B) (b : B) (f : B → AppResult A)
      → r ≡ ok b
      → Ensures P (f b)
      → Ensures P (r >>= f)
  Ensures-exact r b f e h = rw e h

  -- past a test that would refuse
  pub Ensures-check :
      (b : Bool) (e : AppError) (r : AppResult A)
      → (b ≡ false → Ensures P r)
      → Ensures P (reject_if b e >> r)
  Ensures-check true e r h = Ensures-err e
  Ensures-check false e r h = h refl

  -- a branch on whether there is a value
  pub Ensures-if_let {μ} :
      {B : Type μ} (o : Option B) (f : B → AppResult A) (r : AppResult A)
      → ((b : B) → Ensures P (f b))
      → Ensures P r
      → Ensures P (if_let o f r)
  Ensures-if_let none f r hf hr = hr
  Ensures-if_let (some b) f r hf hr = hf b

  pub Ensures-ok_or :
      (o : Option A) (e : AppError) → ((a : A) → o ≡ some a → P a) → Ensures P (ok_or o e)
  Ensures-ok_or none e known = Ensures-err e
  Ensures-ok_or (some a) e known = Ensures-ok a (known a refl)

  pub Ensures-fold {μ} :
      {B : Type μ} (f : A → B → AppResult A) (a : A) (xs : List B)
      → ((s : A) (x : B) → P s → Ensures P (f s x))
      → P a
      → Ensures P (fold_result f a xs)
  Ensures-fold f a xs keep p = record {
    at = λ b e. fold_result_keep P f (λ s s' x ps h. (keep s x ps).at s' h) a b xs p e;
  }

-- What `f` ensures of each element holds of all results.
pub Ensures-map {ℓ κ μ} :
    {A : Type ℓ} {B : Type κ} (P : B → Type μ) (f : A → AppResult B) (xs : List A)
    → ((x : A) → Ensures P (f x))
    → Ensures (All P) (map_result f xs)
unfolding map_result
Ensures-map P f [] keep = Ensures-ok [] tt
Ensures-map P f (x ∷ xs) keep = Ensures-then (f x) _ (keep x) λ y p.
    Ensures-then (map_result f xs) _ (Ensures-map P f xs keep) λ ys ps. Ensures-ok (y ∷ ys) (p, ps)

-- What is not refused has passed the test.
pub Ensures-reject_if : (b : Bool) (e : AppError) → Ensures (λ _. b ≡ false) (reject_if b e)
Ensures-reject_if true e = Ensures-err e
Ensures-reject_if false e = Ensures-ok tt refl

pub ruleset ensures_rules = (Ensures-ok, Ensures-err, Ensures-if, Ensures-bind, Ensures-if_let)
