-- ===== src/Pool/Watchdog/Ends.antt =====
-- How an operation of src/pool.rs ends once it is complete.
use mathlib.Core.Path.{subst}
use coverage_mcp.Prelude.{
  ℕ, suc, ◌+◌, ◌≤◌, ◌≡◌, refl, sym, ap, ◌⊎◌, inl, inr, arith, String, Bool, true, false, none,
}
use coverage_mcp.Error.{AppResult, ok}
use coverage_mcp.Pool.Watchdog.{
  Caller, running, returned, marked, joined, Watchdog, watching, ended, Run, settled, spawn, turn,
  turn_of, mark_complete, join, Step, return, mark, watch, finish, Steps, here, then_step,
}
use coverage_mcp.Pool.Watchdog.Once.{IsMarked, Steps-IsSound, spawn-IsSound}

-- How many steps the two threads took.
abbrev pub step_count {ℓ} :
    {A : Type ℓ} {operation : String} {ms : ℕ} {r s : Run A} → Steps operation ms r s → ℕ
step_count here = 0
step_count (then_step before step) = suc (step_count before)

-- The steps that a complete operation has left: the last turn of its watchdog, and the join.
abbrev left_of {ℓ} : {A : Type ℓ} → Caller A → Watchdog → ℕ
left_of (joined _ _) w = 0
left_of _ watching = 2
left_of _ ended = 1

module _ {ℓ} {A : Type ℓ} (operation : String) (ms : ℕ) (result : AppResult A) where
  -- The operation is complete, and joined once its watchdog has ended.
  data IsEnding : Run A → Type ℓ where
    waits : {r : Run A} → r.caller ≡ marked result → r.complete ≡ true → IsEnding r
    over :
        {r : Run A}
        → r.caller ≡ joined result (settled operation ms r.timed_out result)
        → r.watchdog ≡ ended
        → IsEnding r

  -- whatever the clock says
  turn-complete :
      (expired late : Bool) (r : Run A)
      → r.complete ≡ true
      → turn expired late r ≡ record r { watchdog = ended }
  unfolding turn turn_of
  turn-complete true late r done = rw done refl
  turn-complete false late r done = rw done refl

  -- A step goes on towards the end.
  Nearer : Run A → Run A → Type ℓ
  Nearer r s = IsEnding s × (suc (left_of s.caller s.watchdog) ≡ left_of r.caller r.watchdog)

  Step-Nearer : (r s : Run A) → Step operation ms r s → IsEnding r → Nearer r s
  unfolding Nearer mark_complete join
  Step-Nearer r _ (return back at_start) (waits c d) = absurd (cc)
  Step-Nearer r _ (return back at_start) (over c e) = absurd (cc)
  Step-Nearer r _ (mark back at_return) (waits c d) = absurd (cc)
  Step-Nearer r _ (mark back at_return) (over c e) = absurd (cc)
  Step-Nearer r _ (watch expired late w) (waits c d) =
      subst (Nearer r) (sym (turn-complete expired late r d)) (waits c d, rw (c, w) refl)
  Step-Nearer r _ (watch expired late w) (over c e) = absurd (cc)
  Step-Nearer r _ (finish back at_mark e) (waits c d) =
      let same : back ≡ result = cc in
      (over (ap (λ x. joined x (settled operation ms r.timed_out x)) same) e, rw (c, e) refl)
  Step-Nearer r _ (finish back at_mark e) (over c f) = absurd (cc)

  Steps-Nearer :
      (s t : Run A) (steps : Steps operation ms s t)
      → IsEnding s
      → IsEnding t × (step_count steps + left_of t.caller t.watchdog ≡ left_of s.caller s.watchdog)
  unfolding Nearer
  Steps-Nearer s _ here h = (h, omega arith)
  Steps-Nearer s t (then_step {s = m} before step) h =
      let (there, sum) = Steps-Nearer s m before h in
      let (nearer, one) = Step-Nearer m t step there in (nearer, omega (arith, sum, one))

  -- An operation that is not joined has a next step.
  next_step :
      (t : Run A) (w : Watchdog)
      → t.watchdog ≡ w
      → IsEnding t
      → (t.caller ≡ joined result (settled operation ms t.timed_out result))
        ⊎ ((u : Run A) × Step operation ms t u)
  next_step t w e (over c f) = inl c
  next_step t watching e (waits c d) = inr (_, watch false false e)
  next_step t ended e (waits c d) = inr (_, finish result c e)

  left_of-le : (c : Caller A) (w : Watchdog) → left_of c w ≤ 2
  left_of-le (joined _ _) w = omega arith
  left_of-le running watching = omega arith
  left_of-le running ended = omega arith
  left_of-le (returned _) watching = omega arith
  left_of-le (returned _) ended = omega arith
  left_of-le (marked _) watching = omega arith
  left_of-le (marked _) ended = omega arith

  -- For an operation whose watchdog started, from any state that the two threads reach in which
  -- the operation is marked complete: however they go on, and whatever the watchdog's clock says
  -- in its turns, they take at most two more steps, and wherever they are then, either the
  -- operation is joined, with the timeout error if the watchdog struck and else with the result of
  -- its function, or a thread can take another step.
  pub Steps-joined :
      (r s t : Run A)
      → spawn none ≡ ok r
      → Steps operation ms r s
      → s.caller ≡ marked result
      → (steps : Steps operation ms s t)
      → (step_count steps ≤ 2)
        × ((t.caller ≡ joined result (settled operation ms t.timed_out result))
            ⊎ ((u : Run A) × Step operation ms t u))
  Steps-joined r s t started before done steps =
      let sound = Steps-IsSound operation ms r s before (spawn-IsSound operation ms r started) in
      let complete = subst (λ c. IsMarked c s.complete) done sound.marks in
      let (ending, sum) = Steps-Nearer s t steps (waits done complete) in
      (omega (arith, sum, left_of-le s.caller s.watchdog), next_step t t.watchdog refl ending)
