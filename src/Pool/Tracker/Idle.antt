-- ===== src/Pool/Tracker/Idle.antt =====
-- The tracker of src/pool.rs knows the active operations, whatever the order of the threads' steps.
use coverage_mcp.Prelude.{
  ℕ, suc, ◌+◌, ◌%◌, ◌^◌, ◌<◌, ◌≡◌, refl, true, false, Bool-cases, inl, inr, sym, some, [], ◌∷◌, All,
  get_elem?, arith,
}
use mathlib.Core.Path.{subst}
use coverage_mcp.Order.{nat_ord}
use coverage_mcp.BTree
use coverage_mcp.BTree.{BTreeMap}
use coverage_mcp.BTree.Laws.{IsSorted, insert-IsSorted, All-upsert}
use coverage_mcp.Pool.Tracker.{
  remove, fetch_id, register, finish, Slot, System, without, set_registered, fetched,
  registered_slot, dropped,
}
use coverage_mcp.Pool.Tracker.Slots.{
  IsDistinct, IsBelow, IsKnown, is_live, IsBelow-IsFresh, IsBelow-suc, All-without,
  All-set_registered, without-IsDistinct, set_registered-IsDistinct, IsDistinct-IsTheOnly,
  remove-IsSorted, set_registered-IsKnown, remove-IsKnown, is_live-set_registered,
  is_live-registered, is_live-without, remove-All,
}

-- The states after steps of threads, fewer than 2^64 of which fetch an id. A thread that panics with
-- the lock poisons it.
pub data Reach {H : Type 0} : System H → Type 0 where
  start :
      Reach (record { tracker = record { next_id = 0; active = []; poisoned = false }; slots = [] })
  fetch :
      {s : System H} (interrupt : H)
      → s.tracker.next_id + 1 < 2 ^ 64
      → Reach s
      → Reach (fetched interrupt s)
  enter :
      {s : System H} (i : ℕ) (slot : Slot H)
      → get_elem? s.slots i ≡ some slot
      → slot.registered ≡ false
      → Reach s
      → Reach (registered_slot slot s)
  leave :
      {s : System H} (i : ℕ) (slot : Slot H)
      → get_elem? s.slots i ≡ some slot
      → slot.registered ≡ true
      → Reach s
      → Reach (dropped slot.id s)
  poison :
      {s : System H} → Reach s → Reach (record s { tracker = record s.tracker { poisoned = true } })

-- Ids are the threads' own; a registered operation is among the active ones with its handle; and, as
-- long as no thread has panicked, each active one is registered.
pub record IsTracked {H : Type 0} (s : System H) : Type 0 where
  pub distinct : IsDistinct s.slots
  pub below : IsBelow s.tracker.next_id s.slots
  pub sorted : IsSorted s.tracker.active
  pub known : All (IsKnown s.tracker.active) s.slots
  pub live :
      s.tracker.poisoned ≡ false → All (λ (e : ℕ × H). is_live e.0 s.slots ≡ true) s.tracker.active

wrapped : (n : ℕ) → n + 1 < 2 ^ 64 → suc n ≡ (n + 1) % 2 ^ 64
wrapped n few = omega arith

module _ {H : Type 0} where
  All-keep :
      (P Q : ℕ × H → Type 0) (m : BTreeMap ℕ H) → ((e : ℕ × H) → P e → Q e) → All P m → All Q m
  All-keep P Q [] f a = tt
  All-keep P Q (e ∷ m) f a = (f e a.0, All-keep P Q m f a.1)

  fetched-IsTracked :
      (s : System H) (interrupt : H)
      → s.tracker.next_id + 1 < 2 ^ 64
      → IsTracked s
      → IsTracked (fetched interrupt s)
  unfolding fetched fetch_id
  fetched-IsTracked s interrupt few t = record {
    distinct = (IsBelow-IsFresh s.tracker.next_id s.slots t.below, t.distinct);
    below =
        subst (λ n. (s.tracker.next_id < n) × IsBelow n s.slots) (wrapped s.tracker.next_id few)
          (omega arith, IsBelow-suc s.tracker.next_id s.slots t.below);
    sorted = t.sorted;
    known = (λ r. cc, t.known);
    live = t.live;
  }

  registered-IsTracked :
      (s : System H) (i : ℕ) (slot : Slot H)
      → get_elem? s.slots i ≡ some slot
      → s.tracker.poisoned ≡ false
      → IsTracked s
      → IsTracked (record {
        tracker = record s.tracker {
          active = BTree.insert s.tracker.active slot.id slot.interrupt;
        };
        slots = set_registered slot.id s.slots;
      })
  unfolding BTree.insert
  registered-IsTracked s i slot at_i sane t = record {
    distinct = set_registered-IsDistinct slot.id s.slots t.distinct;
    below =
        All-set_registered (λ (x : Slot H). x.id < s.tracker.next_id) slot.id s.slots (λ x p e. p)
          t.below;
    sorted = insert-IsSorted s.tracker.active slot.id slot.interrupt t.sorted;
    known =
        set_registered-IsKnown s.tracker.active slot s.slots t.sorted
          (IsDistinct-IsTheOnly s.slots i slot t.distinct at_i) t.known;
    live = λ still.
        All-upsert (λ (e : ℕ × H). is_live e.0 (set_registered slot.id s.slots) ≡ true)
          s.tracker.active slot.id (λ _. slot.interrupt) slot.interrupt
          (is_live-registered s.slots i slot at_i) (λ w p. p)
          (All-keep (λ (e : ℕ × H). is_live e.0 s.slots ≡ true) _ s.tracker.active
            (λ e l. is_live-set_registered e.0 slot.id s.slots l) (t.live still));
  }

  refused-IsTracked :
      (s : System H) (id : ℕ)
      → s.tracker.poisoned ≡ true
      → IsTracked s
      → IsTracked (record s { slots = without id s.slots })
  refused-IsTracked s id sick t = record {
    distinct = without-IsDistinct id s.slots t.distinct;
    below = All-without (λ (x : Slot H). x.id < s.tracker.next_id) id s.slots t.below;
    sorted = t.sorted;
    known = All-without (IsKnown s.tracker.active) id s.slots t.known;
    live = λ sane. cc;
  }

  finished-IsTracked :
      (s : System H) (id : ℕ)
      → IsTracked s
      → IsTracked (record {
        tracker = record s.tracker { active = remove s.tracker.active id };
        slots = without id s.slots;
      })
  finished-IsTracked s id t = record {
    distinct = without-IsDistinct id s.slots t.distinct;
    below = All-without (λ (x : Slot H). x.id < s.tracker.next_id) id s.slots t.below;
    sorted = remove-IsSorted id s.tracker.active t.sorted;
    known = remove-IsKnown s.tracker.active id s.slots t.known;
    live = λ sane.
        remove-All (λ (e : ℕ × H). is_live e.0 s.slots ≡ true) _ id s.tracker.active
          (λ k h other l. is_live-without k id s.slots other l) (t.live sane);
  }

  -- the state after a registration, by whether the lock is poisoned
  registered_slot-poisoned :
      (s : System H) (slot : Slot H)
      → s.tracker.poisoned ≡ true
      → registered_slot slot s ≡ record s { slots = without slot.id s.slots }
  unfolding registered_slot register
  registered_slot-poisoned s slot sick = rw sick refl

  registered_slot-sane :
      (s : System H) (slot : Slot H)
      → s.tracker.poisoned ≡ false
      → registered_slot slot s ≡ record {
        tracker = record s.tracker {
          active = BTree.insert s.tracker.active slot.id slot.interrupt;
        };
        slots = set_registered slot.id s.slots;
      }
  unfolding registered_slot register
  registered_slot-sane s slot sane = rw sane refl

  registered_slot-IsTracked :
      (s : System H) (i : ℕ) (slot : Slot H)
      → get_elem? s.slots i ≡ some slot
      → IsTracked s
      → IsTracked (registered_slot slot s)
  registered_slot-IsTracked s i slot at_i t = elim (Bool-cases s.tracker.poisoned) [
    | inl sick ↦
        subst IsTracked (sym (registered_slot-poisoned s slot sick))
          (refused-IsTracked s slot.id sick t)
    | inr sane ↦
        subst IsTracked (sym (registered_slot-sane s slot sane))
          (registered-IsTracked s i slot at_i sane t)
  ]

  dropped-poisoned :
      (s : System H) (id : ℕ)
      → s.tracker.poisoned ≡ true
      → dropped id s ≡ record s { slots = without id s.slots }
  unfolding dropped finish
  dropped-poisoned s id sick = rw sick refl

  dropped-sane :
      (s : System H) (id : ℕ)
      → s.tracker.poisoned ≡ false
      → dropped id s ≡ record {
        tracker = record s.tracker { active = remove s.tracker.active id };
        slots = without id s.slots;
      }
  unfolding dropped finish
  dropped-sane s id sane = rw sane refl

  dropped-IsTracked : (s : System H) (id : ℕ) → IsTracked s → IsTracked (dropped id s)
  dropped-IsTracked s id t = elim (Bool-cases s.tracker.poisoned) [
    | inl sick ↦ subst IsTracked (sym (dropped-poisoned s id sick)) (refused-IsTracked s id sick t)
    | inr sane ↦ subst IsTracked (sym (dropped-sane s id sane)) (finished-IsTracked s id t)
  ]

  -- After any interleaving of the steps of threads that begin and end operations, fewer than 2^64
  -- of them, and that may poison the lock: ids are the threads' own and below the next one; the
  -- active ids are in order; each registered operation is active under its id with its own handle;
  -- and, as long as the lock is not poisoned, each active id is that of a registered operation.
  pub Reach-IsTracked : (s : System H) → Reach s → IsTracked s
  Reach-IsTracked _ start = record {
    distinct = tt;
    below = tt;
    sorted = tt;
    known = tt;
    live = λ sane. tt;
  }
  Reach-IsTracked _ (fetch {s} interrupt few r) =
      fetched-IsTracked s interrupt few (Reach-IsTracked s r)
  Reach-IsTracked _ (enter {s} i slot at_i before r) =
      registered_slot-IsTracked s i slot at_i (Reach-IsTracked s r)
  Reach-IsTracked _ (leave {s} i slot at_i after r) =
      dropped-IsTracked s slot.id (Reach-IsTracked s r)
  Reach-IsTracked _ (poison {s} r) =
      let t = Reach-IsTracked s r in
      record {
        distinct = t.distinct;
        below = t.below;
        sorted = t.sorted;
        known = t.known;
        live = λ sane. cc;
      }
