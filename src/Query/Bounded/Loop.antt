-- ===== src/Query/Bounded/Loop.antt =====
-- `bounded` ends: with a response that fits and is a page still, or with one of its two errors.
use coverage_mcp.Prelude.{
  ℕ, zero, suc, ◌≤◌, ◌<◌, ◌≡◌, ◌⊎◌, refl, true, Option, none, some, List, [], ◌∷◌, arith, ltb,
  Bool-cases, inl, inr,
}
use coverage_mcp.Error.{AppError, AppResult, ok, err}
use coverage_mcp.Error.Ensures.{Ensures}
use coverage_mcp.Query.Groups.{Group}
use coverage_mcp.Query.Bounded.{
  Data, Key, groups_key, gained_key, remaining_key, pop_groups, pop_from, largest, shrink,
  shrink_all, max_response, group_total, bounded, metadata_error, group_error,
}
use coverage_mcp.Query.Bounded.Fits.{IsChoice, largest-IsChoice, pop_from-IsStep}

abbrev IsRefused : AppError → Type 0
IsRefused e = (e ≡ metadata_error) ⊎ (e ≡ group_error)

pop_groups-err :
    (payload : Data) (items : List Group) (e : AppError)
    → pop_groups payload items ≡ err e
    → IsRefused e
pop_groups-err payload [] e h = inr (cc)
pop_groups-err payload (g ∷ gs) e h = cc

pop_from-err :
    (payload : Data) (choice : Option (Key × ℕ)) (e : AppError)
    → pop_from payload choice ≡ err e
    → IsRefused e
pop_from-err payload none e h = inl (cc)
pop_from-err payload (some (groups_key, n)) e h = pop_groups-err payload _ e h
pop_from-err payload (some (gained_key, n)) e h = cc
pop_from-err payload (some (remaining_key, n)) e h = cc

-- How the loop may end: `P` is what it keeps.
abbrev pub Outcome : (size : Data → ℕ) → (Data → Type 0) → AppResult Data → Type 0
Outcome size P (ok payload) = (size payload ≤ max_response) × P payload
Outcome size P (err e) = IsRefused e

module _ (size : Data → ℕ) (list_size : List Group → ℕ) (P : Data → Type 0)
    (keep : (payload : Data) (choice : Option (Key × ℕ))
      → IsChoice payload choice
      → P payload
      → Ensures P (pop_from payload choice)) where
  -- With more fuel than groups the loop ends.
  abbrev Ends : ℕ → Data → Type 0
  Ends n payload =
      (r : AppResult Data) × (shrink_all size list_size n payload ≡ some r) × Outcome size P r

  turn :
      (n : ℕ) (payload : Data) (r : AppResult Data)
      → ltb max_response (size payload) ≡ true
      → shrink size list_size payload ≡ r
      → ((next : Data) → r ≡ ok next → Ends n next)
      → Ends (suc n) payload
  unfolding shrink_all shrink
  turn n payload (err e) big shrunk rest = (
    err e,
    rw (big, shrunk, shrink_all) refl,
    pop_from-err payload (largest size list_size payload) e shrunk,
  )
  turn n payload (ok next) big shrunk rest =
      let (r, ends, good) = rest next refl in (r, rw (big, shrunk, shrink_all) ends, good)

  shrink_all-Ends :
      (n : ℕ) (payload : Data) → group_total size list_size payload < n → P payload → Ends n payload
  unfolding shrink_all shrink
  shrink_all-Ends zero payload h p = ground arith
  shrink_all-Ends (suc n) payload h p = elim (Bool-cases (ltb max_response (size payload))) [
    | inl big ↦ turn n payload _ big refl (λ next shrunk.
        shrink_all-Ends n next
          (omega (
            arith,
            h,
            (pop_from-IsStep size list_size payload (largest size list_size payload)
                  (largest-IsChoice size list_size payload)).at
                next shrunk,
          ))
          ((keep payload (largest size list_size payload) (largest-IsChoice size list_size payload)
              p).at
            next shrunk))
    | inr fits ↦ (ok payload, rw (fits, shrink_all) refl, (ground (arith, fits), p))
  ]

  -- For a property that each turn of the loop keeps: cutting a response to size ends, with a
  -- response of at most 12288 that still has the property, or with one of the two errors for a
  -- response that cannot be cut to size.
  pub bounded-Outcome :
      (payload : Data) → P payload → Outcome size P (bounded size list_size payload)
  unfolding bounded
  bounded-Outcome payload p =
      let (r, ends, good) =
        shrink_all-Ends (suc (group_total size list_size payload)) payload (omega arith) p in
      rw (ends, bounded) good
