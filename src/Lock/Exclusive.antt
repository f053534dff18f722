-- ===== src/Lock/Exclusive.antt =====
-- Processes that take and drop leases of src/lock.rs over the same files.
use mathlib.Core.Path.{subst}
use coverage_mcp.Prelude.{
  ℕ, suc, ◌≡◌, ap₂, ◌∙◌, String, Option, some, List, [], ◌∷◌, All, get_elem?, get_elem?-All,
  Bool-cases, inl, inr, if◌then◌else◌, ◌==◌, true, arith,
}
use Prim.Native.Nat.Ordering.{eq}
use coverage_mcp.Order.{text_ord}
use coverage_mcp.BTree.Laws.{IsSorted, get-insert, insert-IsSorted}
use coverage_mcp.Error.{AppResult, ok, err}
use coverage_mcp.Lock.{Process, Identity}
use coverage_mcp.Lock.Outcome.{
  Outcome, unchanged, kept, taken, acquire-Outcome, is_refused, Outcome-refused,
}
use coverage_mcp.Lock.Lease.{Files, LockFile, Faults, FileLease, file_at, put, acquire, release}

-- The files, the leases that live, and the number that the next open file gets.
pub record System : Type 0 where
  pub files : Files
  pub live : List FileLease
  pub next : ℕ

abbrev pub without : ℕ → List FileLease → List FileLease
without handle [] = []
without handle (lease ∷ rest) =
    let others = without handle rest in if lease.handle == handle then others else lease ∷ others

abbrev pub with_lease : AppResult FileLease → List FileLease → List FileLease
with_lease (ok lease) live = lease ∷ live
with_lease (err e) live = live

abbrev after_acquire : System → AppResult FileLease × Files → System
after_acquire s (result, files) = record {
  files = files;
  live = with_lease result s.live;
  next = suc s.next;
}

-- Some process calls `acquire`, with whatever calls of the system that fail.
unfoldable pub try_acquire : System → Faults → Process → String → String → Option Identity → System
try_acquire s faults process path resource identity =
    after_acquire s (acquire faults process s.files path resource identity s.next)

-- A live lease is dropped.
unfoldable pub drop_lease : System → FileLease → System
drop_lease s lease = record s { files = release s.files lease; live = without lease.handle s.live }

pub data Reach : System → Type 0 where
  start : (files : Files) → IsSorted files → Reach (record { files = files; live = []; next = 0 })
  take :
      {s : System} (faults : Faults) (process : Process) (path resource : String)
      (identity : Option Identity)
      → Reach s
      → Reach (try_acquire s faults process path resource identity)
  give :
      {s : System} (i : ℕ) (lease : FileLease)
      → get_elem? s.live i ≡ some lease
      → Reach s
      → Reach (drop_lease s lease)

-- The lock of the lease's file is held by the lease.
abbrev Holds : Files → FileLease → Type 0
Holds files lease = (file_at files lease.path).holder ≡ some lease.handle

pub record IsHeld (s : System) : Type 0 where
  pub sorted : IsSorted s.files
  pub held : All (Holds s.files) s.live

file_at-put :
    (files : Files) (path other : String) (file : LockFile)
    → IsSorted files
    → (file_at (put files path file) other).holder
      ≡ elim (text_ord.cmp other path) [ eq ↦ file.holder | _ ↦ (file_at files other).holder ]
unfolding file_at
file_at-put files path other file s = ground (arith, get-insert files path other file s)

Holds-put :
    (files : Files) (path : String) (file : LockFile) (lease : FileLease)
    → IsSorted files
    → (lease.path ≡ path → Holds files lease → file.holder ≡ some lease.handle)
    → Holds files lease
    → Holds (put files path file) lease
Holds-put files path file lease s keeps h =
    file_at-put files path lease.path file s ∙ ground (arith, text_ord.eq_of_cmp lease.path path)

-- A lock that passes to no other lease stays with each live one.
All-Holds-put :
    (files : Files) (path : String) (file : LockFile) (leases : List FileLease)
    → IsSorted files
    → ((handle : ℕ) → (file_at files path).holder ≡ some handle → file.holder ≡ some handle)
    → All (Holds files) leases
    → All (Holds (put files path file)) leases
All-Holds-put files path file [] s keeps h = tt
All-Holds-put files path file (lease ∷ leases) s keeps h = (
  Holds-put files path file lease s
      (λ here holds.
        keeps lease.handle (subst (λ p. (file_at files p).holder ≡ some lease.handle) here holds))
      h.0,
  All-Holds-put files path file leases s keeps h.1,
)

put-IsSorted :
    (files : Files) (path : String) (file : LockFile)
    → IsSorted files
    → IsSorted (put files path file)
put-IsSorted files path file s = insert-IsSorted files path file s

after_acquire-IsHeld :
    (s : System) (path : String) (result : AppResult FileLease × Files)
    → Outcome s.files path s.next result
    → IsHeld s
    → IsHeld (after_acquire s result)
after_acquire-IsHeld s path _ (unchanged e) h = record { sorted = h.sorted; held = h.held }
after_acquire-IsHeld s path _ (kept e file same) h = record {
  sorted = put-IsSorted s.files path file h.sorted;
  held = All-Holds-put s.files path file s.live h.sorted (λ handle holds. same ∙ holds) h.held;
}
after_acquire-IsHeld s path _ (taken file mine free) h = record {
  sorted = put-IsSorted s.files path file h.sorted;
  held = (
    file_at-put s.files path path file h.sorted ∙ rw (text_ord.cmp_self path) mine,
    All-Holds-put s.files path file s.live h.sorted (λ handle holds. cc) h.held,
  );
}

-- Two holders of one file have one handle.
handle_unique :
    (files : Files) (one two : FileLease)
    → Holds files one
    → Holds files two
    → one.path ≡ two.path
    → one.handle ≡ two.handle
handle_unique files one two h k e =
    let both = subst (λ p. (file_at files p).holder ≡ some one.handle) e h in cc

-- Dropping a lease frees its file; what else is live holds another file.
drop_lease-held :
    (s : System) (gone : FileLease) (leases : List FileLease)
    → IsSorted s.files
    → Holds s.files gone
    → All (Holds s.files) leases
    → All (Holds (release s.files gone)) (without gone.handle leases)
unfolding release
drop_lease-held s gone [] sorted mine h = tt
drop_lease-held s gone (lease ∷ leases) sorted mine h =
    elim (Bool-cases (lease.handle == gone.handle)) [
      | inl same ↦ rw same (drop_lease-held s gone leases sorted mine h.1)
      | inr other ↦ rw other (
        Holds-put s.files gone.path _ lease sorted
            (λ here holds. ground (arith, other, handle_unique s.files lease gone holds mine here))
            h.0,
        drop_lease-held s gone leases sorted mine h.1,
      )
    ]

drop_lease-IsHeld :
    (s : System) (i : ℕ) (gone : FileLease)
    → get_elem? s.live i ≡ some gone
    → IsHeld s
    → IsHeld (drop_lease s gone)
unfolding drop_lease
drop_lease-IsHeld s i gone here h = record {
  sorted = unfold release in put-IsSorted s.files gone.path _ h.sorted;
  held =
      drop_lease-held s gone s.live h.sorted
        (get_elem?-All (Holds s.files) s.live i gone h.held here) h.held;
}

Reach-IsHeld : (s : System) → Reach s → IsHeld s
unfolding try_acquire
Reach-IsHeld _ (start files sorted) = record { sorted = sorted; held = tt }
Reach-IsHeld _ (take {s} faults process path resource identity r) =
    after_acquire-IsHeld s path _
      (acquire-Outcome faults process s.files path resource identity s.next) (Reach-IsHeld s r)
Reach-IsHeld _ (give {s} i lease here r) = drop_lease-IsHeld s i lease here (Reach-IsHeld s r)

same_holder :
    (files : Files) (one two : FileLease)
    → Holds files one
    → Holds files two
    → one.path ≡ two.path
    → one ≡ two
same_holder files one two h k e = ap₂ lease_of (handle_unique files one two h k e) e
  where
    lease_of : ℕ → String → FileLease
    lease_of handle path = record { handle = handle; path = path }

-- After any sequence of attempts to acquire leases, with any calls of the system failing, and of
-- drops, on files that nobody held at the start or that others hold: two live leases of one path
-- are the same lease.
pub Reach-IsExclusive :
    {s : System} (i j : ℕ) (one two : FileLease)
    → Reach s
    → get_elem? s.live i ≡ some one
    → get_elem? s.live j ≡ some two
    → one.path ≡ two.path
    → one ≡ two
Reach-IsExclusive {s} i j one two r at_i at_j same =
    let h = Reach-IsHeld s r in
    same_holder s.files one two (get_elem?-All (Holds s.files) s.live i one h.held at_i)
      (get_elem?-All (Holds s.files) s.live j two h.held at_j) same

-- After any sequence of attempts and drops: while a lease lives, another acquire of its path, with
-- any calls of the system failing, returns an error.
pub Reach-refused :
    {s : System} (i : ℕ) (lease : FileLease) (faults : Faults) (process : Process)
    (resource : String) (identity : Option Identity) (handle : ℕ)
    → Reach s
    → get_elem? s.live i ≡ some lease
    → is_refused (acquire faults process s.files lease.path resource identity handle).0 ≡ true
Reach-refused {s} i lease faults process resource identity handle r at_i =
    let h = Reach-IsHeld s r in
    Outcome-refused s.files lease.path handle lease.handle _
      (acquire-Outcome faults process s.files lease.path resource identity handle)
      (get_elem?-All (Holds s.files) s.live i lease h.held at_i)
