-- ===== src/Pool.antt =====
-- src/pool.rs: opening the pool and leasing a connection, the watchdog of a database operation
-- (Pool.Watchdog) and the operations that are active (Pool.Tracker). The pool itself is the library
-- r2d2, whose calls are parameters.
pub mod Watchdog
pub mod Tracker
use coverage_mcp.Prelude.{ℕ, ◌%◌, ◌^◌, ◌⊎◌, inl, inr, String, Bool, true, [], ◌∷◌}
use coverage_mcp.Error.{AppError, AppResult, ok, err, storage, pool, busy, ◌>>=◌}
use coverage_mcp.Text.{concat}

-- the result of a call of another crate, its error turned into the program's
abbrev converted {ℓ} : {A : Type ℓ} → (String → AppError) → A ⊎ String → AppResult A
converted from (inl a) = ok a
converted from (inr error) = err (from error)

module _ {ℓ κ} {Manager : Type ℓ} {DbPool : Type κ} where
  -- `file` opens DuckDB; `build` takes the size, whether connections are tested, and the manager
  unfoldable open_pool :
      (String → Manager ⊎ String)
      → (ℕ → Bool → Manager → DbPool ⊎ String)
      → String
      → ℕ
      → AppResult DbPool
  open_pool file build path max_size = converted storage (file path) >>= λ manager.
      converted pool (build (max_size % 2 ^ 32) true manager)

-- `get_timeout` is given with the pool and the wait.
unfoldable checkout {ℓ} :
    {DbConnection : Type ℓ} → DbConnection ⊎ String → String → AppResult DbConnection
checkout leased resource =
    converted
      (λ error.
        busy (concat ("DuckDB connection for " ∷ resource ∷ []))
          (concat (" (pool checkout failed: " ∷ error ∷ ")" ∷ [])))
      leased
