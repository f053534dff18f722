-- ===== src/Query/Pages.antt =====
-- The pages of an answer: what `find` returns, cut to size by `bounded`, and a client that goes on at
-- `next_offset` until there is none.
pub mod Read
pub mod Whole
use coverage_mcp.Prelude.{String, ℕ, zero, suc, Option, none, some, List, [], ◌∷◌, ◌++◌}
use coverage_mcp.Error.{AppResult, ok, err, ◌>>=◌}
use coverage_mcp.Models.Paths.{FileSystem}
use coverage_mcp.Query.{FindRequest, Measurement}
use coverage_mcp.Query.Groups.{Group}
use coverage_mcp.Query.Find.{FindAnswer, find}
use coverage_mcp.Query.Bounded.{bounded_answer}

module _ (fs : FileSystem) (load : Option String → Option String → AppResult Measurement)
    (demangle : String → Option String) (root : String) (answer_size : FindAnswer → ℕ)
    (list_size : List Group → ℕ) where
  -- `call` for "coverage_gaps"
  unfoldable pub call_find : FindRequest → AppResult FindAnswer
  unfolding find bounded_answer
  call_find request = find fs load demangle root request >>= bounded_answer answer_size list_size

  -- The client: the groups of all pages from the request's offset on; none is no fuel left.
  unfoldable pub read_pages : ℕ → FindRequest → Option (AppResult (List Group))
  unfolding call_find
  read_pages zero request = none
  read_pages (suc n) request = elim (call_find request) [
    | err e ↦ some (err e)
    | ok answer ↦ elim answer.next_offset [
      | none ↦ some (ok answer.groups)
      | some offset ↦ elim (read_pages n (record request { offset = offset })) [
        | none ↦ none
        | some rest ↦ some (rest >>= λ groups. ok (answer.groups ++ groups))
      ]
    ]
  ]
