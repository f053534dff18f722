-- ===== src/Error.antt =====
-- error.rs: the application error, and the results that carry it. An error of another crate is kept
-- as the text that it prints.
pub mod Ensures
pub mod Message
use mathlib.Core.Path.{subst}
use coverage_mcp.Prelude.{
  ℕ, String, ◌≡◌, refl, ◌⊎◌, inl, inr, Bool, true, false, Option, none, some, List, [], ◌∷◌,
}

pub data AppError : Type 0 where
  storage pool io json xml http_body : String → AppError
  validation not_found runtime : String → AppError
  busy : String → String → AppError
  timeout : String → ℕ → AppError

-- The HTTP status of the REST error contract.
unfoldable status_code : AppError → ℕ
status_code (not_found _) = 404
status_code (validation _) = 400
status_code (busy _ _) = 503
status_code (timeout _ _) = 504
status_code _ = 500

pub data AppResult {ℓ} (A : Type ℓ) : Type ℓ where
  ok : A → AppResult A
  err : AppError → AppResult A

infixl 5 ◌>>=◌ ◌>>◌
abbrev pub ◌>>=◌ {ℓ κ} : {A : Type ℓ} {B : Type κ} → AppResult A → (A → AppResult B) → AppResult B
ok a >>= f = f a
err e >>= f = err e

abbrev pub ◌>>◌ {ℓ} : {B : Type ℓ} → AppResult (Unit {0}) → AppResult B → AppResult B
m >> k = m >>= λ _. k

-- `if condition { return Err(error); }`
abbrev pub reject_if : Bool → AppError → AppResult (Unit {0})
reject_if true e = err e
reject_if false e = ok tt

-- `Option::ok_or_else`
abbrev pub ok_or {ℓ} : {A : Type ℓ} → Option A → AppError → AppResult A
ok_or none e = err e
ok_or (some a) e = ok a

-- The parts of a successful bind.
pub >>=-eq-ok {ℓ κ} :
    {A : Type ℓ} {B : Type κ} (step : AppResult A) (rest : A → AppResult B) {out : B}
    → (step >>= rest) ≡ ok out
    → (value : A) × (step ≡ ok value) × (rest value ≡ ok out)
>>=-eq-ok (err e) rest h = cc
>>=-eq-ok (ok value) rest h = (value, refl, h)

-- To split on what a step returned, and keep the equation.
pub AppResult-cases {ℓ} :
    {A : Type ℓ} (r : AppResult A) → ((a : A) × (r ≡ ok a)) ⊎ ((e : AppError) × (r ≡ err e))
AppResult-cases (ok a) = inl (a, refl)
AppResult-cases (err e) = inr (e, refl)

-- A `for` loop whose body may return early with an error.
unfoldable pub fold_result {ℓ κ} :
    {S : Type ℓ} {A : Type κ} → (S → A → AppResult S) → S → List A → AppResult S
fold_result f s [] = ok s
fold_result f s (x ∷ xs) = f s x >>= λ s'. fold_result f s' xs

-- What the body keeps when it succeeds, the loop keeps when it succeeds.
pub fold_result_keep {ℓ κ μ} :
    {S : Type ℓ} {A : Type κ} (P : S → Type μ) (f : S → A → AppResult S)
    → ((s s' : S) (x : A) → P s → f s x ≡ ok s' → P s')
    → (s s' : S) (xs : List A) → P s
    → fold_result f s xs ≡ ok s'
    → P s'
unfolding fold_result
fold_result_keep P f keep s s' [] p h = subst P (cc) p
fold_result_keep P f keep s s' (x ∷ xs) p h =
    let (t, e, rest) = >>=-eq-ok (f s x) (λ u. fold_result f u xs) h in
    fold_result_keep P f keep t s' xs (keep s t x p e) rest

-- `iter().map(f).collect::<AppResult<Vec<_>>>()`
unfoldable pub map_result {ℓ κ} :
    {A : Type ℓ} {B : Type κ} → (A → AppResult B) → List A → AppResult (List B)
map_result f [] = ok []
map_result f (x ∷ xs) = f x >>= λ y. map_result f xs >>= λ ys. ok (y ∷ ys)
