-- ===== src/Lock/Lease.antt =====
-- Leases of src/lock.rs over the files of the system, with an advisory lock on each file that one
-- open file at most can hold. `Faults` says which calls of the system fail.
use coverage_mcp.Prelude.{ℕ, String, Option, none, some, is_some, unwrap_or, if◌then◌else◌}
use coverage_mcp.Order.{text_ord}
use coverage_mcp.BTree
use coverage_mcp.BTree.{BTreeMap}
use coverage_mcp.Error.{AppResult, ok, err, io, busy, ◌>>=◌}
use coverage_mcp.Lock.{
  DaemonLeaseOwner, Process, Identity, metadata_text, read_metadata, parse_daemon_owner,
}

-- A file: its text, and the handle that holds its lock.
pub record LockFile : Type 0 where
  pub content : String
  pub holder : Option ℕ

abbrev pub Files : Type 0
Files = BTreeMap String LockFile

-- The calls that fail, with the text of the error. `lock` is a failure other
-- than a lock that is held; a failed `write` has written a part of the text.
pub record Faults : Type 0 where
  pub create_dir : Option String
  pub open_file : Option String
  pub restrict : Option String
  pub lock : Option String
  pub set_length : Option String
  pub seek : Option String
  pub write : Option (String × String)
  pub sync : Option String
  pub read : Option String
  pub unlock : Option String

-- An open file that holds the lock of its path.
pub record FileLease : Type 0 where
  pub handle : ℕ
  pub path : String

abbrev pub empty_file : LockFile
empty_file = record { content = ""; holder = none }

-- the file at a path; `create(true)` makes it where there is none
unfoldable pub file_at : Files → String → LockFile
file_at files path = unwrap_or (BTree.get files path) empty_file

abbrev pub put : Files → String → LockFile → Files
put files path file = BTree.insert files path file

-- What `write_metadata` leaves in the file, and whether it fails.
unfoldable pub write_metadata : Faults → String → String → String × Option String
write_metadata faults old text = elim faults.set_length [
  | some e ↦ (old, some e)
  | none ↦ elim faults.seek [
    | some e ↦ ("", some e)
    | none ↦ elim faults.write [ some (e, part) ↦ (part, some e) | none ↦ (text, faults.sync) ]
  ]
]

-- what was read of a file, or none for an error
abbrev read_text : Faults → LockFile → Option String
read_text faults file =
    if is_some faults.seek then none else if is_some faults.read then none else some file.content

-- With the lock taken: the metadata is written; a failure closes the file, which frees the lock.
unfoldable pub finish_acquire :
    Files → String → ℕ → String × Option String → AppResult FileLease × Files
finish_acquire files path handle (content, none) = (
  ok (record { handle = handle; path = path }),
  put files path (record { content = content; holder = some handle }),
)
finish_acquire files path handle (content, some e) =
    (err (io e), put files path (record { content = content; holder = none }))

-- `try_lock` on an open file
unfoldable pub lock_file :
    Faults
    → Process
    → Files
    → String
    → String
    → Option Identity
    → ℕ
    → LockFile
    → Option String
    → Option ℕ
    → AppResult FileLease × Files
lock_file faults process files path resource identity handle file (some e) held =
    (err (io e), put files path file)
lock_file faults process files path resource identity handle file none (some other) =
    (err (busy resource (read_metadata (read_text faults file))), put files path file)
lock_file faults process files path resource identity handle file none none =
    finish_acquire files path handle
      (write_metadata faults file.content (metadata_text process resource identity))

-- `acquire_with_metadata_using`, given what the folder's, the open call and the permissions gave
unfoldable pub open_and_lock :
    Faults
    → Process
    → Files
    → String
    → String
    → Option Identity
    → ℕ
    → Option String
    → Option String
    → Option String
    → AppResult FileLease × Files
unfolding file_at
open_and_lock faults process files path resource identity handle (some e) opened restricted =
    (err (io e), files)
open_and_lock faults process files path resource identity handle none (some e) restricted =
    (err (io e), files)
open_and_lock faults process files path resource identity handle none none (some e) =
    (err (io e), put files path (file_at files path))
open_and_lock faults process files path resource identity handle none none none =
    lock_file faults process files path resource identity handle (file_at files path) faults.lock
      (file_at files path).holder

-- `acquire_with_metadata_using`
unfoldable pub acquire :
    Faults → Process → Files → String → String → Option Identity → ℕ → AppResult FileLease × Files
unfolding open_and_lock
acquire faults process files path resource identity handle =
    open_and_lock faults process files path resource identity handle faults.create_dir
      faults.open_file faults.restrict

-- `drop` of a lease unlocks its file.
unfoldable pub release : Files → FileLease → Files
release files lease = put files lease.path (record (file_at files lease.path) { holder = none })

-- `try_lock` of `held_daemon_owner_with` on an open file
unfoldable pub owner_of_file :
    Faults → LockFile → Option String → Option ℕ → AppResult (Option DaemonLeaseOwner)
owner_of_file faults file (some e) held = err (io e)
owner_of_file faults file none none = elim faults.unlock [ some e ↦ err (io e) | none ↦ ok none ]
owner_of_file faults file none (some _) = elim faults.seek [
  | some e ↦ err (io e)
  | none ↦ elim faults.read [
    | some e ↦ err (io e)
    | none ↦ parse_daemon_owner file.content >>= λ owner. ok (some owner)
  ]
]

-- The file as `open` gives it: another error than a missing file, or a missing file, or the file.
unfoldable pub owner_of_opened :
    Faults → Option String → Option LockFile → AppResult (Option DaemonLeaseOwner)
unfolding owner_of_file
owner_of_opened faults (some e) found = err (io e)
owner_of_opened faults none none = ok none
owner_of_opened faults none (some file) = owner_of_file faults file faults.lock file.holder

-- `held_daemon_owner`
unfoldable pub held_daemon_owner : Faults → Files → String → AppResult (Option DaemonLeaseOwner)
unfolding owner_of_opened
held_daemon_owner faults files path = owner_of_opened faults faults.open_file (BTree.get files path)
