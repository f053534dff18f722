-- ===== src/Lock/Owner.antt =====
-- What a process reads of the holder of a lease is what the holder wrote, without its token.
use coverage_mcp.Prelude.{
  ◌^◌, ◌-◌, ◌≤◌, ◌==◌, ◌≡◌, refl, String, Bool, false, ◌||◌, Option, none, some, List, [], ◌∷◌,
  str_eq, arith, ap, ◌∙◌,
}
use coverage_mcp.Error.{ok}
use coverage_mcp.Text.{
  is_empty, append, concat, show_ℕ, strip_text, starts_with, trim, is_whitespace, is_empty-trim,
}
use coverage_mcp.Text.Number.{parse_unsigned-show, has_break-show}
use coverage_mcp.Text.Split.{lines, has_break, lines-append}
use coverage_mcp.Lock.{
  DaemonLeaseOwner, Process, Identity, executable_path, metadata_text, read_metadata,
  shown_metadata, find_line, owner_of_lines, parse_daemon_owner,
}

-- What the values of a lease's metadata are taken to be: one line each, none of them empty.
pub record IsNamed (process : Process) (resource : String) : Type 0 where
  pub one_line : has_break resource ≡ false
  pub named : is_empty resource ≡ false
  pub path_line : has_break (executable_path process.current_exe) ≡ false
  pub path_known :
      is_empty (executable_path process.current_exe)
        || str_eq (executable_path process.current_exe) "unknown"
      ≡ false
  pub positive : process.id == 0 ≡ false
  pub small : process.id ≤ 2 ^ 32 - 1

-- The instance id and the token, if any, have one line each.
abbrev pub has_broken_identity : Option Identity → Bool
has_broken_identity none = false
has_broken_identity (some (instance, token)) = has_break instance || has_break token

abbrev instance_of : Option Identity → Option String
instance_of none = none
instance_of (some (instance, _)) = some instance

abbrev token_of : Option Identity → Option String
token_of none = none
token_of (some (_, token)) = some token

-- the owner that a lease of the process describes
abbrev pub owner_of : Process → String → Option Identity → DaemonLeaseOwner
owner_of process resource identity = record {
  pid = process.id;
  resource = resource;
  executable = executable_path process.current_exe;
  instance_id = instance_of identity;
  handoff_token = token_of identity;
}

abbrev rows_of : Option Identity → List String
rows_of none = []
rows_of (some (instance, token)) =
    append "instance_id=" instance ∷ append "handoff_token=" token ∷ []

or_left : (a b : Bool) → a || b ≡ false → a ≡ false
or_left a b h = ground arith

or_right : (a b : Bool) → a || b ≡ false → b ≡ false
or_right a b h = ground arith

-- Each value of the metadata is the rest of a line.
lines-metadata_text :
    (process : Process) (resource : String) (identity : Option Identity)
    → IsNamed process resource
    → has_broken_identity identity ≡ false
    → lines (metadata_text process resource identity)
      ≡ append "pid=" (show_ℕ process.id)
        ∷ append "resource=" resource
        ∷ append "executable=" (executable_path process.current_exe)
        ∷ rows_of identity
unfolding metadata_text concat lines
lines-metadata_text process resource none valid h =
    rw (lines-append (show_ℕ process.id) _ (has_break-show process.id)) (
      rw (lines-append resource _ valid.one_line)
        (rw (lines-append (executable_path process.current_exe) _ valid.path_line) refl))
lines-metadata_text process resource (some (instance, token)) valid h =
    rw (lines-append (show_ℕ process.id) _ (has_break-show process.id)) (
      rw (lines-append resource _ valid.one_line) (
        rw (lines-append (executable_path process.current_exe) _ valid.path_line) (
          rw (lines-append instance _ (or_left (has_break instance) (has_break token) h))
            (rw (lines-append token _ (or_right (has_break instance) (has_break token) h)) refl))))

owner_of_lines-rows :
    (process : Process) (resource : String) (identity : Option Identity)
    → IsNamed process resource
    → owner_of_lines (
        append "pid=" (show_ℕ process.id)
        ∷ append "resource=" resource
        ∷ append "executable=" (executable_path process.current_exe)
        ∷ rows_of identity)
      ≡ ok (owner_of process resource identity)
unfolding owner_of_lines find_line strip_text
owner_of_lines-rows process resource none valid =
    rw (parse_unsigned-show (2 ^ 32 - 1) process.id valid.small)
      (rw valid.positive (rw valid.path_known (rw valid.named refl)))
owner_of_lines-rows process resource (some (instance, token)) valid =
    rw (parse_unsigned-show (2 ^ 32 - 1) process.id valid.small)
      (rw valid.positive (rw valid.path_known (rw valid.named refl)))

-- The metadata that a lease writes is read back as its owner: for a process whose id is positive
-- and below 2^32, with a resource and an executable that are not empty and have one line each, not
-- unknown, and an instance id and token, if any, of one line each.
pub parse_daemon_owner-metadata_text :
    (process : Process) (resource : String) (identity : Option Identity)
    → IsNamed process resource
    → has_broken_identity identity ≡ false
    → parse_daemon_owner (metadata_text process resource identity)
      ≡ ok (owner_of process resource identity)
unfolding parse_daemon_owner
parse_daemon_owner-metadata_text process resource identity valid h =
    ap owner_of_lines (lines-metadata_text process resource identity valid h)
    ∙ owner_of_lines-rows process resource identity valid

-- The lines without the token's are those of every other token's metadata.
shown_metadata-token :
    (process : Process) (resource instance token other : String)
    → IsNamed process resource
    → has_broken_identity (some (instance, token)) ≡ false
    → has_broken_identity (some (instance, other)) ≡ false
    → shown_metadata (metadata_text process resource (some (instance, token)))
      ≡ shown_metadata (metadata_text process resource (some (instance, other)))
unfolding shown_metadata starts_with strip_text
shown_metadata-token process resource instance token other valid h k =
    rw (lines-metadata_text process resource (some (instance, token)) valid h)
      (rw (lines-metadata_text process resource (some (instance, other)) valid k) refl)

is_empty-metadata_text :
    (process : Process) (resource : String) (identity : Option Identity)
    → is_empty (trim (metadata_text process resource identity)) ≡ false
unfolding metadata_text concat
is_empty-metadata_text process resource none = is_empty-trim "p" _ (unfold is_whitespace in refl)
is_empty-metadata_text process resource (some (instance, token)) =
    is_empty-trim "p" _ (unfold is_whitespace in refl)

-- What a refused process is told about the holder does not depend on the holder's token: two
-- metadata texts that differ in the token alone, each with values of one line as above, give the
-- same message.
pub read_metadata-token :
    (process : Process) (resource instance token other : String)
    → IsNamed process resource
    → has_broken_identity (some (instance, token)) ≡ false
    → has_broken_identity (some (instance, other)) ≡ false
    → read_metadata (some (metadata_text process resource (some (instance, token))))
      ≡ read_metadata (some (metadata_text process resource (some (instance, other))))
unfolding read_metadata
read_metadata-token process resource instance token other valid h k =
    rw (is_empty-metadata_text process resource (some (instance, token))) (
      rw (is_empty-metadata_text process resource (some (instance, other))) (
        ap (λ shown. concat (" (" ∷ shown ∷ ")" ∷ []))
          (shown_metadata-token process resource instance token other valid h k)))
