-- ===== src/Pool/Tracker/Wait.antt =====
-- `wait_for_idle` of src/pool.rs: when it says that no operation is active, none was.
use coverage_mcp.Prelude.{
  ℕ, ◌≡◌, refl, Bool, true, false, inl, inr, Option, none, some, List, [], ◌∷◌, All, is_nil, ◌⊎◌,
  arith, if◌then◌else◌,
}
use coverage_mcp.Order.{nat_ord}
use coverage_mcp.BTree
use coverage_mcp.BTree.{BTreeMap}
use coverage_mcp.Pool.Tracker.{QueryTracker, Slot, System, wait_loop, wait_for_idle}
use coverage_mcp.Pool.Tracker.Slots.{IsKnown}
use coverage_mcp.Pool.Tracker.Idle.{Reach, Reach-IsTracked}

last_look : (nil : Bool) → (if nil then some true else none) ≡ some true → nil ≡ true
last_look true h = refl
last_look false h = cc

one_look :
    (nil poisoned over : Bool) (again : Option Bool)
    → (if nil
        then some true
        else if poisoned
        then some false
        else if over
        then some false
        else again)
      ≡ some true
    → (nil ≡ true) ⊎ (again ≡ some true)
one_look true poisoned over again h = inl refl
one_look false true over again h = cc
one_look false false true again h = cc
one_look false false false again h = inr h

not_poisoned :
    (poisoned : Bool) (found : Option Bool)
    → (if poisoned then some false else found) ≡ some true
    → found ≡ some true
not_poisoned true found h = cc
not_poisoned false found h = h

module _ {H : Type 0} where
  -- No operation is registered in this state.
  abbrev pub IsIdle : System H → Type 0
  IsIdle s = All (λ (x : Slot H). x.registered ≡ false) s.slots

  -- One of the states is idle.
  abbrev pub SomeIdle : List (System H × Bool) → Type 0
  SomeIdle [] = ⊥
  SomeIdle ((s, _) ∷ rest) = IsIdle s ⊎ SomeIdle rest

  abbrev pub seen : List (System H × Bool) → List (QueryTracker H × Bool)
  seen [] = []
  seen ((s, over) ∷ rest) = (s.tracker, over) ∷ seen rest

  none_registered :
      (m : BTreeMap ℕ H) (xs : List (Slot H))
      → is_nil m ≡ true
      → All (IsKnown m) xs
      → All (λ (x : Slot H). x.registered ≡ false) xs
  unfolding BTree.get
  none_registered m [] e a = tt
  none_registered [] (x ∷ xs) e a = (ground (arith, a.0), none_registered [] xs e a.1)
  none_registered (y ∷ m) (x ∷ xs) e a = cc

  wait_loop-IsIdle :
      (s : System H) (rest : List (System H × Bool))
      → Reach s
      → All (λ (e : System H × Bool). Reach e.0) rest
      → wait_loop s.tracker (seen rest) ≡ some true
      → IsIdle s ⊎ SomeIdle rest
  unfolding wait_loop
  wait_loop-IsIdle s [] r rs h =
      let nil = last_look (is_nil s.tracker.active) h in
      inl (none_registered s.tracker.active s.slots nil (Reach-IsTracked s r).known)
  wait_loop-IsIdle s ((next, over) ∷ rest) r rs h =
      elim (one_look (is_nil s.tracker.active) next.tracker.poisoned over _ h) [
        | inl nil ↦ inl (none_registered s.tracker.active s.slots nil (Reach-IsTracked s r).known)
        | inr again ↦ inr (wait_loop-IsIdle next rest rs.0 rs.1 again)
      ]

  -- If each state that wait_for_idle looks at is one that such threads reach, and it returns true,
  -- then in one of these states no operation was registered.
  pub wait_for_idle-SomeIdle :
      (s : System H) (rest : List (System H × Bool))
      → Reach s
      → All (λ (e : System H × Bool). Reach e.0) rest
      → wait_for_idle s.tracker (seen rest) ≡ some true
      → SomeIdle ((s, false) ∷ rest)
  unfolding wait_for_idle
  wait_for_idle-SomeIdle s rest r rs h =
      wait_loop-IsIdle s rest r rs (not_poisoned s.tracker.poisoned _ h)
