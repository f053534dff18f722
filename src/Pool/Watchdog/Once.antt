-- ===== src/Pool/Watchdog/Once.antt =====
-- How often the watchdog of src/pool.rs interrupts an operation, before and after it is complete.
use mathlib.Core.Path.{subst}
use coverage_mcp.Prelude.{
  ℕ, suc, ◌≡◌, refl, ◌∙◌, ap, ◌⊎◌, inl, inr, String, Bool, true, false, none,
}
use coverage_mcp.Error.{AppResult, ok, err}
use coverage_mcp.Pool.Watchdog.{
  Caller, running, returned, marked, joined, Watchdog, watching, ended, Run, timeout_error, settled,
  begun, spawn, turn, turn_of, mark_complete, join, Step, return, mark, watch, finish, Steps, here,
  then_step,
}

-- `done` is set when the caller has marked it.
abbrev pub IsMarked {ℓ} : {A : Type ℓ} → Caller A → Bool → Type 0
IsMarked running complete = complete ≡ false
IsMarked (returned _) complete = complete ≡ false
IsMarked (marked _) complete = complete ≡ true
IsMarked (joined _ _) complete = complete ≡ true

-- The watchdog has ended after one interrupt, or for a complete operation.
abbrev IsGuarded : Watchdog → Bool → Bool → ℕ → Type 0
IsGuarded watching timed_out complete n = (timed_out ≡ false) × (n ≡ 0)
IsGuarded ended true complete n = n ≡ 1
IsGuarded ended false complete n = (n ≡ 0) × (complete ≡ true)

IsGuarded-complete : (w : Watchdog) (t c : Bool) (n : ℕ) → IsGuarded w t c n → IsGuarded w t true n
IsGuarded-complete watching t c n g = g
IsGuarded-complete ended true c n g = g
IsGuarded-complete ended false c n g = (g.0, refl)

left_guard : (t c : Bool) (n : ℕ) → c ≡ true → IsGuarded watching t c n → IsGuarded ended t c n
left_guard false c n done g = (g.1, done)
left_guard true c n done g = cc

-- What a turn of the watchdog comes to.
data Turned {ℓ} {A : Type ℓ} (r : Run A) : Run A → Type ℓ where
  struck :
      r.complete ≡ false
      → Turned r (record r { watchdog = ended; timed_out = true; interrupts = suc r.interrupts })
  left : r.complete ≡ true → Turned r (record r { watchdog = ended })
  waits : Turned r r

turn_of-Turned {ℓ} :
    {A : Type ℓ} (expired late complete : Bool) (r : Run A)
    → r.complete ≡ complete
    → Turned r (turn_of expired late complete r)
unfolding turn_of
turn_of-Turned true late false r e = struck e
turn_of-Turned true late true r e = left e
turn_of-Turned false late true r e = left e
turn_of-Turned false true false r e = struck e
turn_of-Turned false false false r e = waits

-- the result of a joined operation, and that its watchdog has ended
abbrev IsSettled {ℓ} : {A : Type ℓ} → String → ℕ → Caller A → Watchdog → Bool → Type ℓ
IsSettled operation ms (joined result out) w timed_out =
    (w ≡ ended) × (out ≡ settled operation ms timed_out result)
IsSettled operation ms _ w timed_out = Unit

pub record IsSound {ℓ} {A : Type ℓ} (operation : String) (ms : ℕ) (r : Run A) : Type ℓ where
  pub marks : IsMarked r.caller r.complete
  pub guards : IsGuarded r.watchdog r.timed_out r.complete r.interrupts
  pub settles : IsSettled operation ms r.caller r.watchdog r.timed_out

module _ {ℓ} {A : Type ℓ} (operation : String) (ms : ℕ) where
  -- A joined operation has no watchdog that could take a turn.
  IsSettled-watching :
      (c : Caller A) (w : Watchdog) (t u : Bool)
      → w ≡ watching
      → IsSettled operation ms c w t
      → IsSettled operation ms c ended u
  IsSettled-watching running w t u e s = tt
  IsSettled-watching (returned _) w t u e s = tt
  IsSettled-watching (marked _) w t u e s = tt
  IsSettled-watching (joined _ _) w t u e s = cc

  turn-IsSound :
      (r s : Run A)
      → r.watchdog ≡ watching
      → Turned r s
      → IsSound operation ms r
      → IsSound operation ms s
  turn-IsSound r _ w (struck open_still) h = record {
    marks = h.marks;
    guards = ap suc (subst (λ v. IsGuarded v r.timed_out r.complete r.interrupts) w h.guards).1;
    settles = IsSettled-watching r.caller r.watchdog r.timed_out true w h.settles;
  }
  turn-IsSound r _ w (left done) h = record {
    marks = h.marks;
    guards =
        left_guard r.timed_out r.complete r.interrupts done
          (subst (λ v. IsGuarded v r.timed_out r.complete r.interrupts) w h.guards);
    settles = IsSettled-watching r.caller r.watchdog r.timed_out r.timed_out w h.settles;
  }
  turn-IsSound r _ w waits h = h

  Step-IsSound :
      (r s : Run A) → Step operation ms r s → IsSound operation ms r → IsSound operation ms s
  unfolding mark_complete join turn
  Step-IsSound r _ (return result at_start) h = record {
    marks = subst (λ c. IsMarked c r.complete) at_start h.marks;
    guards = h.guards;
    settles = tt;
  }
  Step-IsSound r _ (mark result back) h = record {
    marks = refl;
    guards = IsGuarded-complete r.watchdog r.timed_out r.complete r.interrupts h.guards;
    settles = tt;
  }
  Step-IsSound r _ (watch expired late w) h =
      turn-IsSound r _ w (turn_of-Turned expired late r.complete r refl) h
  Step-IsSound r _ (finish result done over) h = record {
    marks = subst (λ c. IsMarked c r.complete) done h.marks;
    guards = h.guards;
    settles = (over, refl);
  }

  pub Steps-IsSound :
      (r s : Run A) → Steps operation ms r s → IsSound operation ms r → IsSound operation ms s
  Steps-IsSound r _ here h = h
  Steps-IsSound r _ (then_step {s} {t} before st) h =
      Step-IsSound s t st (Steps-IsSound r s before h)

  pub spawn-IsSound : (r : Run A) → spawn none ≡ ok r → IsSound operation ms r
  spawn-IsSound r e =
      let started : begun ≡ r = cc in
      subst (IsSound operation ms) started
        (record { marks = refl; guards = (refl, refl); settles = tt })

  settled_cases :
      (w : Watchdog) (t c : Bool) (n : ℕ) (result out : AppResult A)
      → IsGuarded w t c n
      → w ≡ ended
      → out ≡ settled operation ms t result
      → ((n ≡ 1) × (out ≡ err (timeout_error operation ms))) ⊎ ((n ≡ 0) × (out ≡ result))
  settled_cases watching t c n result out g e o = cc
  settled_cases ended true c n result out g e o = inl (g, o)
  settled_cases ended false c n result out g e o = inr (g.0, o)

  -- For an operation whose watchdog started, after any interleaving of the two threads and with
  -- any clock: when the watchdog is joined, either the operation was interrupted once and its
  -- result is the timeout error, or it was never interrupted and its result is that of its
  -- function.
  pub Steps-once :
      (r s : Run A) (result out : AppResult A)
      → spawn none ≡ ok r
      → Steps operation ms r s
      → s.caller ≡ joined result out
      → ((s.interrupts ≡ 1) × (out ≡ err (timeout_error operation ms)))
        ⊎ ((s.interrupts ≡ 0) × (out ≡ result))
  Steps-once r s result out started steps end =
      let h = Steps-IsSound r s steps (spawn-IsSound r started) in
      let over = subst (λ c. IsSettled operation ms c s.watchdog s.timed_out) end h.settles in
      settled_cases s.watchdog s.timed_out s.complete s.interrupts result out h.guards over.0 over.1

  Turned-complete :
      (r s : Run A)
      → Turned r s
      → r.complete ≡ true
      → (s.interrupts ≡ r.interrupts) × (s.complete ≡ true)
  Turned-complete r _ (struck open_still) done = cc
  Turned-complete r _ (left e) done = (refl, done)
  Turned-complete r _ waits done = (refl, done)

  Step-complete :
      (r s : Run A)
      → Step operation ms r s
      → r.complete ≡ true
      → (s.interrupts ≡ r.interrupts) × (s.complete ≡ true)
  unfolding mark_complete join turn
  Step-complete r _ (return result e) done = (refl, done)
  Step-complete r _ (mark result e) done = (refl, refl)
  Step-complete r _ (watch expired late w) done =
      Turned-complete r _ (turn_of-Turned expired late r.complete r refl) done
  Step-complete r _ (finish result e w) done = (refl, done)

  -- Once an operation is complete, no further steps of the two threads interrupt its connection,
  -- and it stays complete.
  pub Steps-complete :
      (r s : Run A)
      → r.complete ≡ true
      → Steps operation ms r s
      → (s.interrupts ≡ r.interrupts) × (s.complete ≡ true)
  Steps-complete r _ done here = (refl, done)
  Steps-complete r _ done (then_step {s} {t} before st) =
      let h = Steps-complete r s done before in let k = Step-complete s t st h.1 in (k.0 ∙ h.0, k.1)
