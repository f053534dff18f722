-- ===== src/Lock.antt =====
-- src/lock.rs: a file lease of a process, what it writes about its owner, and what others read of it.
pub mod Lease
pub mod Owner
pub mod Outcome
pub mod Exclusive
pub mod Handover
use coverage_mcp.Prelude.{
  ℕ, ◌^◌, ◌-◌, ◌==◌, String, Bool, true, false, not, ◌&&◌, ◌||◌, str_eq, Option, none, some, List,
  [], ◌∷◌, filter, unwrap_or, if◌then◌else◌,
}
use coverage_mcp.Error.{AppError, AppResult, ok, err, runtime, ◌>>=◌, ◌>>◌, ok_or, reject_if}
use coverage_mcp.FilePath.{join, parent}
use coverage_mcp.Text.{is_empty, trim, strip_text, starts_with, concat, show_ℕ}
use coverage_mcp.Text.Number.{parse_unsigned}
use coverage_mcp.Text.Split.{lines}

pub record DaemonLeaseOwner : Type 0 where
  pub pid : ℕ
  pub resource : String
  pub executable : String
  pub instance_id : Option String
  pub handoff_token : Option String

-- The process that takes a lease; `none` where the path of its executable is not known.
pub record Process : Type 0 where
  pub id : ℕ
  pub current_exe : Option String

-- the instance id and the handoff token of a daemon
abbrev pub Identity : Type 0
Identity = String × String

abbrev pub executable_path : Option String → String
executable_path path = unwrap_or path "unknown"

abbrev identity_lines : Option Identity → List String
identity_lines none = []
identity_lines (some (instance, token)) =
    "instance_id=" ∷ instance ∷ "\nhandoff_token=" ∷ token ∷ "\n" ∷ []

abbrev onto : List String → List String → List String
onto [] more = more
onto (s ∷ ss) more = s ∷ onto ss more

-- the text that `write_metadata` writes
unfoldable pub metadata_text : Process → String → Option Identity → String
unfolding concat
metadata_text process resource identity = concat (
    onto
      ("pid="
        ∷ show_ℕ process.id
        ∷ "\nresource="
        ∷ resource
        ∷ "\nexecutable="
        ∷ executable_path process.current_exe
        ∷ "\n"
        ∷ [])
      (identity_lines identity))

-- `join("\n")`
unfoldable pub join_lines : List String → String
join_lines [] = ""
join_lines (line ∷ []) = line
join_lines (line ∷ next ∷ rest) = concat (line ∷ "\n" ∷ join_lines (next ∷ rest) ∷ [])

-- the text about a holder for a message: its lines, without the token
unfoldable pub shown_metadata : String → String
unfolding lines trim join_lines
shown_metadata metadata =
    trim (join_lines (filter (λ line. not (starts_with line "handoff_token=")) (lines metadata)))

-- `read_metadata`, of what was read, or none for an error
unfoldable pub read_metadata : Option String → String
unfolding shown_metadata trim concat
read_metadata none = " (owner metadata unavailable)"
read_metadata (some metadata) =
    if is_empty (trim metadata)
    then " (owner metadata unavailable)"
    else concat (" (" ∷ shown_metadata metadata ∷ ")" ∷ [])

-- the rest of the first line that begins with the prefix
unfoldable pub find_line : String → List String → Option String
unfolding strip_text
find_line prefix [] = none
find_line prefix (line ∷ rest) = elim (strip_text line prefix) [
  | some value ↦ some value
  | none ↦ find_line prefix rest
]

abbrev missing : String → AppError
missing what = runtime (concat ("daemon lease metadata is missing " ∷ what ∷ []))

abbrev invalid_pid : AppError
invalid_pid = runtime "daemon lease metadata has an invalid pid"

-- a value that is there and not empty
abbrev known : Option String → Option String
known none = none
known (some value) = if is_empty value then none else some value

-- a path of an executable that is there, not empty and not `unknown`
abbrev known_executable : Option String → Option String
known_executable none = none
known_executable (some path) = if is_empty path || str_eq path "unknown" then none else some path

-- `parse_daemon_owner`, of the lines of the text
unfoldable pub owner_of_lines : List String → AppResult DaemonLeaseOwner
unfolding find_line parse_unsigned concat
owner_of_lines rows = do
  pid_text ← ok_or (find_line "pid=" rows) (missing "pid")
  pid ← ok_or (parse_unsigned (2 ^ 32 - 1) pid_text) invalid_pid
  reject_if (pid == 0) invalid_pid
  executable ←
      ok_or (known_executable (find_line "executable=" rows)) (missing "executable identity")
  resource ← ok_or (known (find_line "resource=" rows)) (missing "resource identity")
  ok (record {
    pid = pid;
    resource = resource;
    executable = executable;
    instance_id = find_line "instance_id=" rows;
    handoff_token = find_line "handoff_token=" rows;
  })

unfoldable pub parse_daemon_owner : String → AppResult DaemonLeaseOwner
unfolding lines owner_of_lines
parse_daemon_owner metadata = owner_of_lines (lines metadata)

-- `daemon_lock_path`
unfoldable pub daemon_lock_path : String → String
unfolding parent
daemon_lock_path common_db_path = join (unwrap_or (parent common_db_path) ".") "daemon.lock"

-- `database_lock_path`
unfoldable pub database_lock_path : String → String
unfolding concat
database_lock_path db_path = concat (db_path ∷ ".lock" ∷ [])
