-- ===== src/Pool/Tracker.antt =====
-- `QueryTracker` of src/pool.rs: the operations that are active, by their ids. A thread's part under
-- the lock of `active` is one step, and so is the atomic addition to `next_id`.
pub mod Slots
pub mod Idle
pub mod Wait
use coverage_mcp.Prelude.{
  ℕ, ◌+◌, ◌%◌, ◌^◌, ◌==◌, ◌≡◌, Bool, true, false, not, Option, none, some, List, [], ◌∷◌, is_nil,
  filter, if◌then◌else◌,
}
use coverage_mcp.Order.{nat_ord}
use coverage_mcp.BTree
use coverage_mcp.BTree.{BTreeMap, values}
use coverage_mcp.Error.{AppError, AppResult, ok, err, runtime}

-- `H` is the handle that interrupts a connection.
pub record QueryTracker (H : Type 0) : Type 0 where
  pub next_id : ℕ
  pub active : BTreeMap ℕ H
  pub poisoned : Bool

abbrev poisoned_error : AppError
poisoned_error = runtime "DuckDB query tracker lock poisoned"

module _ {H : Type 0} where
  -- `HashMap::remove`
  abbrev pub remove : BTreeMap ℕ H → ℕ → BTreeMap ℕ H
  remove [] id = []
  remove ((k, h) ∷ m) id = let rest = remove m id in if k == id then rest else (k, h) ∷ rest

  -- the two steps of `begin`
  unfoldable pub fetch_id : QueryTracker H → ℕ × QueryTracker H
  fetch_id t = (t.next_id, record t { next_id = (t.next_id + 1) % 2 ^ 64 })

  unfoldable pub register : ℕ → H → QueryTracker H → AppResult ℕ × QueryTracker H
  register id interrupt t =
      if t.poisoned
      then (err poisoned_error, t)
      else (ok id, record t { active = BTree.insert t.active id interrupt })

  unfoldable pub begin : H → QueryTracker H → AppResult ℕ × QueryTracker H
  unfolding fetch_id register
  begin interrupt t = register (fetch_id t).0 interrupt (fetch_id t).1

  -- the handles that are interrupted; a `HashMap` gives them in any order
  unfoldable pub interrupt_all : QueryTracker H → List H
  interrupt_all t = if t.poisoned then [] else values t.active

  -- `finish`, which a guard calls when it is dropped
  unfoldable pub finish : ℕ → QueryTracker H → QueryTracker H
  finish id t = if t.poisoned then t else record t { active = remove t.active id }

  -- What `wait_for_idle` finds each time it has the lock again, and whether its time is over. None is
  -- for a thread that still waits.
  unfoldable pub wait_loop : QueryTracker H → List (QueryTracker H × Bool) → Option Bool
  wait_loop t [] = if is_nil t.active then some true else none
  wait_loop t ((next, over) ∷ rest) =
      let again = wait_loop next rest in
      if is_nil t.active
      then some true
      else if next.poisoned
      then some false
      else if over
      then some false
      else again

  unfoldable pub wait_for_idle : QueryTracker H → List (QueryTracker H × Bool) → Option Bool
  unfolding wait_loop
  wait_for_idle t rest = if t.poisoned then some false else wait_loop t rest

-- An operation between its id and its end, and whether `begin` has registered it.
pub record Slot (H : Type 0) : Type 0 where
  pub id : ℕ
  pub interrupt : H
  pub registered : Bool

pub record System (H : Type 0) : Type 0 where
  pub tracker : QueryTracker H
  pub slots : List (Slot H)

module _ {H : Type 0} where
  abbrev pub without : ℕ → List (Slot H) → List (Slot H)
  without id [] = []
  without id (slot ∷ rest) =
      let others = without id rest in if slot.id == id then others else slot ∷ others

  abbrev pub set_registered : ℕ → List (Slot H) → List (Slot H)
  set_registered id [] = []
  set_registered id (slot ∷ rest) =
      let others = set_registered id rest in
      (if slot.id == id then record slot { registered = true } else slot) ∷ others

  -- A thread has its id.
  unfoldable pub fetched : H → System H → System H
  unfolding fetch_id
  fetched interrupt s = record {
    tracker = (fetch_id s.tracker).1;
    slots =
        record { id = (fetch_id s.tracker).0; interrupt = interrupt; registered = false } ∷ s.slots;
  }

  abbrev after_register : ℕ → List (Slot H) → AppResult ℕ × QueryTracker H → System H
  after_register id slots (ok _, t) = record { tracker = t; slots = set_registered id slots }
  after_register id slots (err _, t) = record { tracker = t; slots = without id slots }

  -- A thread registers, or `begin` fails.
  unfoldable pub registered_slot : Slot H → System H → System H
  unfolding register
  registered_slot slot s =
      after_register slot.id s.slots (register slot.id slot.interrupt s.tracker)

  -- A guard is dropped.
  unfoldable pub dropped : ℕ → System H → System H
  unfolding finish
  dropped id s = record { tracker = finish id s.tracker; slots = without id s.slots }
