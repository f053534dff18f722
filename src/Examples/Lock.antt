-- ===== src/Examples/Lock.antt =====
-- The theorems about leases: a daemon that takes one, and a second process that is refused.
use coverage_mcp.Prelude.{◌≡◌, refl, Option, none, some, [], true, arith, get_elem?}
use coverage_mcp.Order.{text_ord}
use coverage_mcp.BTree
use coverage_mcp.Error.{ok}
use coverage_mcp.Text.Split.{has_break}
use coverage_mcp.Lock.{Process, Identity, metadata_text, read_metadata, parse_daemon_owner}
use coverage_mcp.Lock.Owner.{
  IsNamed, owner_of, parse_daemon_owner-metadata_text, read_metadata-token,
}
use coverage_mcp.Lock.Lease.{
  FileLease, file_at, acquire, lock_file, finish_acquire, write_metadata, held_daemon_owner,
}
use coverage_mcp.Lock.Exclusive.{
  System, Reach, start, take, try_acquire, Reach-IsExclusive, Reach-refused,
}
use coverage_mcp.Lock.Outcome.{is_refused}
use coverage_mcp.Lock.Handover.{no_faults, held_daemon_owner-acquire}

abbrev process : Process
process = record { id = 4711; current_exe = some "/usr/bin/coverage-mcp" }

abbrev identity : Option Identity
identity = some ("i-1", "secret")

process-IsNamed : IsNamed process "daemon on port 7000"
unfolding has_break
process-IsNamed = record {
  one_line = refl;
  named = refl;
  path_line = refl;
  path_known = refl;
  positive = refl;
  small = omega arith;
}

parse_daemon_owner-metadata_text_example :
    parse_daemon_owner (metadata_text process "daemon on port 7000" identity)
    ≡ ok (owner_of process "daemon on port 7000" identity)
parse_daemon_owner-metadata_text_example =
    parse_daemon_owner-metadata_text process "daemon on port 7000" identity process-IsNamed
      (unfold has_break in refl)

read_metadata-token_example :
    read_metadata (some (metadata_text process "daemon on port 7000" (some ("i-1", "secret"))))
    ≡ read_metadata (some (metadata_text process "daemon on port 7000" (some ("i-1", "guess"))))
read_metadata-token_example =
    read_metadata-token process "daemon on port 7000" "i-1" "secret" "guess" process-IsNamed
      (unfold has_break in refl) (unfold has_break in refl)

held_daemon_owner-acquire_example :
    ((acquire no_faults process [] "/run/daemon.lock" "daemon on port 7000" identity 0).0
      ≡ ok (record { handle = 0; path = "/run/daemon.lock" }))
    × (held_daemon_owner no_faults
          (acquire no_faults process [] "/run/daemon.lock" "daemon on port 7000" identity 0).1
          "/run/daemon.lock"
        ≡ ok (some (owner_of process "daemon on port 7000" identity)))
unfolding BTree.get
held_daemon_owner-acquire_example =
    held_daemon_owner-acquire process [] "/run/daemon.lock" "daemon on port 7000" identity 0 tt
      (unfold file_at in refl) process-IsNamed (unfold has_break in refl)

abbrev taken : System
taken =
    try_acquire (record { files = []; live = []; next = 0 }) no_faults process "/run/daemon.lock"
      "daemon" identity

abbrev lease : FileLease
lease = record { handle = 0; path = "/run/daemon.lock" }

taken-Reach : Reach taken
taken-Reach = take no_faults process "/run/daemon.lock" "daemon" identity (start [] tt)

taken_lem : get_elem? taken.live 0 ≡ some lease
unfolding try_acquire acquire lock_file BTree.get finish_acquire write_metadata
taken_lem = refl

Reach-IsExclusive_example : lease ≡ lease
Reach-IsExclusive_example = Reach-IsExclusive 0 0 lease lease taken-Reach taken_lem taken_lem refl

Reach-refused_example :
    is_refused (acquire no_faults process taken.files "/run/daemon.lock" "daemon" none 1).0 ≡ true
Reach-refused_example =
    Reach-refused 0 lease no_faults process "daemon" none 1 taken-Reach taken_lem
