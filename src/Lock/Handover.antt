-- ===== src/Lock/Handover.antt =====
-- A daemon that takes its lease, and another process that asks who holds it.
use coverage_mcp.Prelude.{ℕ, ◌≡◌, refl, String, false, Option, none, some, ap, ◌∙◌}
use coverage_mcp.Order.{text_ord}
use coverage_mcp.BTree.Laws.{IsSorted, get-insert}
use coverage_mcp.Error.{AppResult, ok, ◌>>=◌}
use coverage_mcp.Lock.{DaemonLeaseOwner, Process, Identity, metadata_text, parse_daemon_owner}
use coverage_mcp.Lock.Owner.{
  IsNamed, has_broken_identity, owner_of, parse_daemon_owner-metadata_text,
}
use coverage_mcp.Lock.Lease.{
  Files, LockFile, Faults, FileLease, file_at, put, acquire, open_and_lock, lock_file,
  finish_acquire, write_metadata, owner_of_file, owner_of_opened, held_daemon_owner,
}

-- No call of the system fails.
abbrev pub no_faults : Faults
no_faults = record {
  create_dir = none;
  open_file = none;
  restrict = none;
  lock = none;
  set_length = none;
  seek = none;
  write = none;
  sync = none;
  read = none;
  unlock = none;
}

abbrev taken_file : Process → String → Option Identity → ℕ → LockFile
taken_file process resource identity handle = record {
  content = metadata_text process resource identity;
  holder = some handle;
}

abbrev lease_of : ℕ → String → FileLease
lease_of handle path = record { handle = handle; path = path }

acquire-free :
    (process : Process) (files : Files) (path resource : String) (identity : Option Identity)
    (handle : ℕ)
    → (file_at files path).holder ≡ none
    → acquire no_faults process files path resource identity handle
      ≡ (ok (lease_of handle path), put files path (taken_file process resource identity handle))
unfolding acquire open_and_lock lock_file finish_acquire write_metadata
acquire-free process files path resource identity handle free = rw free refl

held_daemon_owner-put :
    (files : Files) (path : String) (process : Process) (resource : String)
    (identity : Option Identity) (handle : ℕ)
    → IsSorted files
    → held_daemon_owner no_faults
        (put files path (taken_file process resource identity handle))
        path
      ≡ (parse_daemon_owner (metadata_text process resource identity) >>= λ owner. ok (some owner))
unfolding held_daemon_owner owner_of_opened owner_of_file
held_daemon_owner-put files path process resource identity handle sorted =
    rw (get-insert files path path (taken_file process resource identity handle) sorted)
      (rw (text_ord.cmp_self path) refl)

-- Where no call of the system fails and nobody holds the file: for a process whose id is positive
-- and below 2^32, with a resource and an executable that are not empty and have one line each, not
-- unknown, and an instance id and token, if any, of one line each, acquire gives a lease of the
-- path, and held_daemon_owner then gives the process, the resource, the executable, the instance
-- id and the token of that lease.
pub held_daemon_owner-acquire :
    (process : Process) (files : Files) (path resource : String) (identity : Option Identity)
    (handle : ℕ)
    → IsSorted files
    → (file_at files path).holder ≡ none
    → IsNamed process resource
    → has_broken_identity identity ≡ false
    → ((acquire no_faults process files path resource identity handle).0
        ≡ ok (record { handle = handle; path = path }))
      × (held_daemon_owner no_faults
            (acquire no_faults process files path resource identity handle).1
            path
          ≡ ok (some (owner_of process resource identity)))
held_daemon_owner-acquire process files path resource identity handle sorted free valid h =
    rw (acquire-free process files path resource identity handle free) (
      refl,
      held_daemon_owner-put files path process resource identity handle sorted
          ∙ ap (λ (o : AppResult DaemonLeaseOwner). o >>= λ owner. ok (some owner))
              (parse_daemon_owner-metadata_text process resource identity valid h),
    )
