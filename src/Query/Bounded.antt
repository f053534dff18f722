-- ===== src/Query/Bounded.antt =====
-- `bounded` of query.rs: groups are dropped from the end of the largest list until the response
-- fits in 12 KiB. `size` is the length of the envelope's text and `list_size` that of one list's,
-- both as `serde_json` writes them.
pub mod Fits
pub mod Loop
use coverage_mcp.Prelude.{
  ℕ, zero, suc, ◌+◌, ◌-◌, String, Bool, true, false, Option, none, some, List, [], ◌∷◌, length, ltb,
  unwrap_or, if◌then◌else◌,
}
use coverage_mcp.Error.{AppError, runtime, AppResult, ok, err, ◌>>=◌}
use coverage_mcp.Query.{FindRequest, invalid}
use coverage_mcp.Query.Find.{FindAnswer}
use coverage_mcp.Query.Groups.{Group}

-- the fields of `envelope["data"]` that `bounded` reads and writes
pub record Data : Type 0 where
  pub groups : Option (List Group)
  pub gained : Option (List Group)
  pub remaining : Option (List Group)
  pub next_offset : Option ℕ
  pub group_count : Option ℕ

pub data Key : Type 0 where
  groups_key gained_key remaining_key : Key

abbrev pub list_of : Data → Key → Option (List Group)
list_of payload groups_key = payload.groups
list_of payload gained_key = payload.gained
list_of payload remaining_key = payload.remaining

-- `Vec::pop`, the list that is left
abbrev pub pop {ℓ} : {A : Type ℓ} → List A → List A
pop [] = []
pop (x ∷ []) = []
pop (x ∷ y ∷ xs) = x ∷ pop (y ∷ xs)

abbrev pub max_response : ℕ
max_response = 12288

-- `max_by_key` keeps the later of two equal ones
abbrev pub later : Option (Key × ℕ) → Option (Key × ℕ) → Option (Key × ℕ)
later none b = b
later a none = a
later (some a) (some b) = some (if ltb b.1 a.1 then a else b)

abbrev pub metadata_error : AppError
metadata_error =
    invalid "measurement metadata exceeds the 12 KiB response limit; use shorter report paths"

abbrev pub group_error : AppError
group_error =
    invalid "a single coverage group exceeds the response limit; inspect the original artifact"

abbrev pub pop_groups : Data → List Group → AppResult Data
pop_groups payload [] = err group_error
pop_groups payload groups = ok (record payload {
  groups = some groups;
  next_offset = some (unwrap_or payload.next_offset (unwrap_or payload.group_count 0) - 1);
})

-- the last group of the chosen list goes
abbrev pub pop_from : Data → Option (Key × ℕ) → AppResult Data
pop_from payload none = err metadata_error
pop_from payload (some (groups_key, _)) = pop_groups payload (pop (unwrap_or payload.groups []))
pop_from payload (some (gained_key, _)) =
    ok (record payload { gained = some (pop (unwrap_or payload.gained [])) })
pop_from payload (some (remaining_key, _)) =
    ok (record payload { remaining = some (pop (unwrap_or payload.remaining [])) })

module _ (size : Data → ℕ) (list_size : List Group → ℕ) where
  abbrev pub candidate : Key → Option (List Group) → Option (Key × ℕ)
  candidate key (some (g ∷ gs)) = some (key, list_size (g ∷ gs))
  candidate key _ = none

  unfoldable pub largest : Data → Option (Key × ℕ)
  largest payload =
      later (later (candidate groups_key payload.groups) (candidate gained_key payload.gained))
        (candidate remaining_key payload.remaining)

  -- the body of the loop
  unfoldable pub shrink : Data → AppResult Data
  unfolding largest
  shrink payload = pop_from payload (largest payload)

  -- the loop, with fuel; none is no fuel left
  unfoldable pub shrink_all : ℕ → Data → Option (AppResult Data)
  unfolding shrink
  shrink_all zero payload = none
  shrink_all (suc n) payload = elim (ltb max_response (size payload)) [
    | false ↦ some (ok payload)
    | true ↦ elim (shrink payload) [ err e ↦ some (err e) | ok payload' ↦ shrink_all n payload' ]
  ]

  -- each turn drops one group
  abbrev pub group_total : Data → ℕ
  group_total payload =
      length (unwrap_or payload.groups [])
      + length (unwrap_or payload.gained [])
      + length (unwrap_or payload.remaining [])

  unfoldable pub bounded : Data → AppResult Data
  unfolding shrink_all
  bounded payload =
      unwrap_or (shrink_all (suc (group_total payload)) payload) (err (runtime "no fuel"))

abbrev pub find_data : FindAnswer → Data
find_data answer = record {
  groups = some answer.groups;
  gained = none;
  remaining = none;
  next_offset = answer.next_offset;
  group_count = some answer.group_count;
}

abbrev pub with_data : FindAnswer → Data → FindAnswer
with_data answer payload = record answer {
  groups = unwrap_or payload.groups [];
  next_offset = payload.next_offset;
}

-- The answer of `call` to a question for gaps.
unfoldable pub bounded_answer :
    (FindAnswer → ℕ) → (List Group → ℕ) → FindAnswer → AppResult FindAnswer
unfolding bounded
bounded_answer answer_size list_size answer = do
  payload' ←
      bounded (λ payload. answer_size (with_data answer payload)) list_size (find_data answer)
  ok (with_data answer payload')
