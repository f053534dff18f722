-- ===== src/Lock/Outcome.antt =====
-- What `acquire` of src/lock.rs comes to, for every failure of a call of the system.
use coverage_mcp.Prelude.{ℕ, ◌≡◌, refl, sym, String, Option, none, some, Bool, true, false}
use coverage_mcp.Error.{AppError, AppResult, ok, err}
use coverage_mcp.Lock.{Process, Identity}
use coverage_mcp.Lock.Lease.{
  Files, LockFile, Faults, FileLease, file_at, put, acquire, lock_file, finish_acquire,
  open_and_lock,
}

-- What `acquire` comes to: an error that leaves every holder, or a lease of a file nobody held.
pub data Outcome (files : Files) (path : String) (handle : ℕ)
    : AppResult FileLease × Files → Type 0 where
  unchanged : (e : AppError) → Outcome files path handle (err e, files)
  kept :
      (e : AppError) (file : LockFile)
      → file.holder ≡ (file_at files path).holder
      → Outcome files path handle (err e, put files path file)
  taken :
      (file : LockFile)
      → file.holder ≡ some handle
      → (file_at files path).holder ≡ none
      → Outcome files path handle
          (ok (record { handle = handle; path = path }), put files path file)

finish_acquire-Outcome :
    (files : Files) (path : String) (handle : ℕ) (written : String × Option String)
    → (file_at files path).holder ≡ none
    → Outcome files path handle (finish_acquire files path handle written)
unfolding finish_acquire
finish_acquire-Outcome files path handle (content, none) free = taken _ refl free
finish_acquire-Outcome files path handle (content, some e) free = kept _ _ (sym free)

lock_file-Outcome :
    (faults : Faults) (process : Process) (files : Files) (path resource : String)
    (identity : Option Identity) (handle : ℕ) (fault : Option String) (holder : Option ℕ)
    → (file_at files path).holder ≡ holder
    → Outcome files path handle (
        lock_file faults process files path resource identity handle
          (file_at files path)
          fault
          holder)
unfolding lock_file
lock_file-Outcome faults process files path resource identity handle (some e) holder h =
    kept _ _ refl
lock_file-Outcome faults process files path resource identity handle none (some other) h =
    kept _ _ refl
lock_file-Outcome faults process files path resource identity handle none none h =
    finish_acquire-Outcome files path handle _ h

open_and_lock-Outcome :
    (faults : Faults) (process : Process) (files : Files) (path resource : String)
    (identity : Option Identity) (handle : ℕ) (made opened restricted : Option String)
    → Outcome files path handle
        (open_and_lock faults process files path resource identity handle made opened restricted)
unfolding open_and_lock
open_and_lock-Outcome faults process files path resource identity handle (some e) o r = unchanged _
open_and_lock-Outcome faults process files path resource identity handle none (some e) r =
    unchanged _
open_and_lock-Outcome faults process files path resource identity handle none none (some e) =
    kept _ _ refl
open_and_lock-Outcome faults process files path resource identity handle none none none =
    lock_file-Outcome faults process files path resource identity handle _ _ refl

pub acquire-Outcome :
    (faults : Faults) (process : Process) (files : Files) (path resource : String)
    (identity : Option Identity) (handle : ℕ)
    → Outcome files path handle (acquire faults process files path resource identity handle)
unfolding acquire
acquire-Outcome faults process files path resource identity handle =
    open_and_lock-Outcome faults process files path resource identity handle _ _ _

-- Whether a result is an error.
abbrev pub is_refused : AppResult FileLease → Bool
is_refused (ok _) = false
is_refused (err _) = true

pub Outcome-refused :
    (files : Files) (path : String) (handle holder : ℕ) (result : AppResult FileLease × Files)
    → Outcome files path handle result
    → (file_at files path).holder ≡ some holder
    → is_refused result.0 ≡ true
Outcome-refused files path handle holder _ (unchanged e) h = refl
Outcome-refused files path handle holder _ (kept e file same) h = refl
Outcome-refused files path handle holder _ (taken file mine free) h = cc
