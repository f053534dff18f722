-- ===== src/Examples/Pool.antt =====
-- The theorems about the pool: an operation that is interrupted, one that waits for its watchdog, and
-- an operation between its registration and its end.
use coverage_mcp.Prelude.{ℕ, ◌≡◌, refl, String, true, false, some, [], ◌∷◌, ◌⊎◌, ◌≤◌, arith}
use coverage_mcp.BTree
use coverage_mcp.Error.{AppResult, ok, err}
use coverage_mcp.Pool.Watchdog.{
  Run, returned, marked, joined, timeout_error, settled, begun, turn, turn_of, mark_complete, join,
  return, mark, watch, finish, Step, Steps, here, then_step,
}
use coverage_mcp.Pool.Watchdog.Once.{Steps-once, Steps-complete}
use coverage_mcp.Pool.Watchdog.Ends.{step_count, Steps-joined}
use coverage_mcp.Pool.Tracker.{System, Slot, fetched, registered_slot, dropped, wait_for_idle}
use coverage_mcp.Pool.Tracker.Idle.{Reach, start, fetch, enter, leave, IsTracked, Reach-IsTracked}
use coverage_mcp.Pool.Tracker.Wait.{SomeIdle, seen, wait_for_idle-SomeIdle}

-- The deadline passes, the function returns, and the operation is complete.
abbrev struck : Run ℕ
struck = turn false true begun

abbrev back : Run ℕ
back = record struck { caller = returned (ok 7) }

abbrev over : Run ℕ
over = join "query" 30000 (ok 7) (mark_complete (ok 7) back)

abbrev the_out : AppResult ℕ
the_out = err (timeout_error "query" 30000)

to_back : Steps "query" 30000 begun back
unfolding turn turn_of
to_back = then_step (then_step here (watch false true refl)) (return (ok 7) refl)

to_over : Steps "query" 30000 (mark_complete (ok 7) back) over
unfolding turn turn_of mark_complete
to_over = then_step here (finish (ok 7) refl refl)

to_end : Steps "query" 30000 begun over
unfolding turn turn_of mark_complete
to_end = then_step (then_step to_back (mark (ok 7) refl)) (finish (ok 7) refl refl)

over_lem : over.caller ≡ joined (ok 7) (err (timeout_error "query" 30000))
unfolding join mark_complete turn turn_of
over_lem = refl

Steps-once_example :
    ((over.interrupts ≡ 1) × (the_out ≡ err (timeout_error "query" 30000)))
    ⊎ ((over.interrupts ≡ 0) × (the_out ≡ ok 7))
Steps-once_example = Steps-once "query" 30000 begun over (ok 7) the_out refl to_end over_lem

marked_lem : (mark_complete (ok 7) back).complete ≡ true
unfolding mark_complete
marked_lem = refl

Steps-complete_example :
    (over.interrupts ≡ (mark_complete (ok 7) back).interrupts) × (over.complete ≡ true)
Steps-complete_example =
    Steps-complete "query" 30000 (mark_complete (ok 7) back) over marked_lem to_over

-- The function returns in time; its watchdog is notified and takes a last turn.
abbrev in_time : Run ℕ
in_time = mark_complete (ok 7) (record begun { caller = returned (ok 7) })

to_in_time : Steps "query" 30000 begun in_time
to_in_time = then_step (then_step here (return (ok 7) refl)) (mark (ok 7) refl)

in_time_marked : in_time.caller ≡ marked (ok 7)
unfolding mark_complete
in_time_marked = refl

abbrev notified : Run ℕ
notified = turn false false in_time

to_notified : Steps "query" 30000 in_time notified
unfolding mark_complete
to_notified = then_step here (watch false false refl)

Steps-joined_example :
    (step_count to_notified ≤ 2)
    × ((notified.caller ≡ joined (ok 7) (settled "query" 30000 notified.timed_out (ok 7)))
        ⊎ ((u : Run ℕ) × Step "query" 30000 notified u))
Steps-joined_example =
    Steps-joined "query" 30000 (ok 7) begun in_time notified refl to_in_time in_time_marked
      to_notified

abbrev first_slot : Slot String
first_slot = record { id = 0; interrupt = "handle"; registered = false }

abbrev entered : System String
entered = registered_slot first_slot (
    fetched "handle"
      (record { tracker = record { next_id = 0; active = []; poisoned = false }; slots = [] }))

entered-Reach : Reach entered
unfolding fetched
entered-Reach = enter 0 first_slot refl refl (fetch "handle" (omega arith) start)

Reach-IsTracked_example : IsTracked entered
Reach-IsTracked_example = Reach-IsTracked entered entered-Reach

left-Reach : Reach (dropped 0 entered)
unfolding registered_slot fetched
left-Reach = leave 0 (record first_slot { registered = true }) refl refl entered-Reach

waited : wait_for_idle entered.tracker (seen ((dropped 0 entered, false) ∷ [])) ≡ some true
unfolding wait_for_idle registered_slot fetched BTree.insert dropped
waited = refl

wait_for_idle-SomeIdle_example : SomeIdle ((entered, false) ∷ (dropped 0 entered, false) ∷ [])
wait_for_idle-SomeIdle_example =
    wait_for_idle-SomeIdle entered ((dropped 0 entered, false) ∷ []) entered-Reach (left-Reach, tt)
      waited
