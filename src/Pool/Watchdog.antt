-- ===== src/Pool/Watchdog.antt =====
-- `run_with_timeout` of src/pool.rs: the thread that runs an operation, and the thread that interrupts
-- it after its deadline. A thread's part under the lock of `done` is one step. No thread panics.
pub mod Once
pub mod Ends
use coverage_mcp.Prelude.{
  ℕ, zero, suc, ◌≡◌, String, Bool, true, false, not, ◌&&◌, Option, none, some, List, [], ◌∷◌,
  if◌then◌else◌,
}
use coverage_mcp.Error.{AppError, AppResult, ok, err, runtime, timeout}
use coverage_mcp.Text.{concat}

-- How far the thread of the operation is: its function runs, has returned, `done` is set, or the
-- watchdog is joined; with the result of the function, and in the end that of the operation.
pub data Caller {ℓ} (A : Type ℓ) : Type ℓ where
  running : Caller A
  returned : AppResult A → Caller A
  marked : AppResult A → Caller A
  joined : AppResult A → AppResult A → Caller A

pub data Watchdog : Type 0 where
  watching : Watchdog
  ended : Watchdog

-- what the two threads share, and how often the connection was interrupted
pub record Run {ℓ} (A : Type ℓ) : Type ℓ where
  pub caller : Caller A
  pub watchdog : Watchdog
  pub complete : Bool
  pub timed_out : Bool
  pub interrupts : ℕ

-- `timeout_error`
abbrev pub timeout_error : String → ℕ → AppError
timeout_error operation ms = timeout operation ms

-- `timeout_error_if_set(..).map_or(result, Err)`
abbrev pub settled {ℓ} : {A : Type ℓ} → String → ℕ → Bool → AppResult A → AppResult A
settled operation ms true result = err (timeout_error operation ms)
settled operation ms false result = result

-- `watchdog_spawn_error`
abbrev watchdog_spawn_error : String → AppError
watchdog_spawn_error e = runtime (concat ("could not start DuckDB watchdog: " ∷ e ∷ []))

abbrev pub begun {ℓ} : {A : Type ℓ} → Run A
begun = record {
  caller = running;
  watchdog = watching;
  complete = false;
  timed_out = false;
  interrupts = zero;
}

-- The operation begins unless its watchdog cannot be started.
abbrev pub spawn {ℓ} : {A : Type ℓ} → Option String → AppResult (Run A)
spawn none = ok begun
spawn (some e) = err (watchdog_spawn_error e)

module _ {ℓ} {A : Type ℓ} where
  -- the watchdog interrupts the operation and ends
  abbrev interrupt : Run A → Run A
  interrupt r = record r { watchdog = ended; timed_out = true; interrupts = suc r.interrupts }

  -- What the watchdog does from when it has the lock up to when it waits or returns. `expired` is
  -- whether its wait timed out, `late` whether the deadline has passed.
  unfoldable pub turn_of : Bool → Bool → Bool → Run A → Run A
  turn_of expired late complete r =
      if expired && not complete
      then interrupt r
      else if complete
      then record r { watchdog = ended }
      else if late
      then interrupt r
      else r

  unfoldable pub turn : Bool → Bool → Run A → Run A
  unfolding turn_of
  turn expired late r = turn_of expired late r.complete r

  -- `mark_complete`
  unfoldable pub mark_complete : AppResult A → Run A → Run A
  mark_complete result r = record r { caller = marked result; complete = true }

  -- `join`, and the result
  unfoldable pub join : String → ℕ → AppResult A → Run A → Run A
  join operation ms result r = record r {
    caller = joined result (settled operation ms r.timed_out result);
  }

-- One step of one of the two threads. The function may return any result at any time, also after an
-- interrupt; the clock is free.
pub data Step {ℓ} {A : Type ℓ} (operation : String) (ms : ℕ) : Run A → Run A → Type ℓ where
  return :
      {r : Run A} (result : AppResult A)
      → r.caller ≡ running
      → Step operation ms r (record r { caller = returned result })
  mark :
      {r : Run A} (result : AppResult A)
      → r.caller ≡ returned result
      → Step operation ms r (mark_complete result r)
  watch :
      {r : Run A} (expired late : Bool)
      → r.watchdog ≡ watching
      → Step operation ms r (turn expired late r)
  finish :
      {r : Run A} (result : AppResult A)
      → r.caller ≡ marked result
      → r.watchdog ≡ ended
      → Step operation ms r (join operation ms result r)

pub data Steps {ℓ} {A : Type ℓ} (operation : String) (ms : ℕ) : Run A → Run A → Type ℓ where
  here : {r : Run A} → Steps operation ms r r
  then_step :
      {r s t : Run A} → Steps operation ms r s → Step operation ms s t → Steps operation ms r t
