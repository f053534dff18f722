-- ===== src/Query/Pages/Read.antt =====
-- Reading page after page shows every group once, in order, and ends.
use coverage_mcp.Prelude.{
  ℕ, zero, suc, ◌+◌, ◌-◌, ◌≤◌, String, ◌≡◌, refl, ap, sym, ◌∙◌, Option, none, some, List, [], ◌∷◌,
  ◌++◌, arith, length, ltb, Bool-cases, inl, inr, take, drop, All, length-take, length-drop,
  if◌then◌else◌, leb, leb→le,
}
use coverage_mcp.Query.{FindRequest, Measurement, Metric, Observation, Observations, metric}
use coverage_mcp.Query.Groups.{Group, show_groups, sorted_groups, groups}
use coverage_mcp.Query.Find.{find_answer, missing_rows, max_usize, saturating_add}
use coverage_mcp.Query.Find.Groups.{
  IsNonempty, sorted_groups-IsNonempty, show_sorted, length-show_groups, show_groups-append,
}
use coverage_mcp.Query.Bounded.{find_data}
use coverage_mcp.Query.Bounded.Fits.{IsPage, next_of}

take-drop {ℓ} : {A : Type ℓ} (n : ℕ) (xs : List A) → take n xs ++ drop n xs ≡ xs
take-drop zero xs = refl
take-drop (suc n) [] = refl
take-drop (suc n) (x ∷ xs) = ap (λ ys. x ∷ ys) (take-drop n xs)

All-drop {ℓ κ} : {A : Type ℓ} (P : A → Type κ) (n : ℕ) (xs : List A) → All P xs → All P (drop n xs)
All-drop P zero xs h = h
All-drop P (suc n) [] h = tt
All-drop P (suc n) (x ∷ xs) h = All-drop P n xs h.1

All-take {ℓ κ} : {A : Type ℓ} (P : A → Type κ) (n : ℕ) (xs : List A) → All P xs → All P (take n xs)
All-take P zero xs h = tt
All-take P (suc n) [] h = tt
All-take P (suc n) (x ∷ xs) h = (h.0, All-take P n xs h.1)

-- Every list of rows shows one group.
drop-show_groups :
    (demangle : String → Option String) (n : ℕ) (gs : List (List Observation))
    → All IsNonempty gs
    → drop n (show_groups demangle gs) ≡ show_groups demangle (drop n gs)
unfolding show_groups
drop-show_groups demangle zero gs h = refl
drop-show_groups demangle (suc n) [] h = refl
drop-show_groups demangle (suc n) (rows ∷ gs) h =
    let (g, shown, counted) = show_sorted demangle rows h.0 in
    rw (shown, show_groups) (drop-show_groups demangle n gs h.1)

next_of_lem :
    (rest : List Group) (a b total : ℕ)
    → length rest ≡ total - (a + b)
    → total ≤ max_usize
    → (if ltb (saturating_add a b) total then some (saturating_add a b) else none)
      ≡ next_of (a + b) rest
next_of_lem [] a b total h small = ground arith
next_of_lem (g ∷ gs) a b total h small = ground arith

-- The groups that answer a question, all of them.
abbrev pub missing_groups :
    (String → Option String) → FindRequest → Metric → Observations → List Group
missing_groups demangle request metric rows =
    show_groups demangle (sorted_groups (missing_rows request metric rows))

pub find_answer-IsPage :
    (demangle : String → Option String) (request : FindRequest) (m : Measurement) (k : Metric)
    (rows : Observations)
    → 1 ≤ request.limit
    → length (missing_groups demangle request k rows) ≤ max_usize
    → IsPage
        (missing_groups demangle request k rows)
        request.offset
        (find_data (find_answer demangle request m k rows))
unfolding find_answer groups
find_answer-IsPage demangle request m k rows some_limit small =
    let gs = sorted_groups (missing_rows request k rows) in
    let full = sorted_groups-IsNonempty (missing_rows request k rows) in
    let after = drop request.offset gs in
    let full_after = All-drop IsNonempty request.offset gs full in
    let count_shown =
      length-show_groups demangle (take request.limit after)
        (All-take IsNonempty request.limit after full_after) in
    let count_rest =
      length-show_groups demangle (drop request.limit after)
        (All-drop IsNonempty request.limit after full_after) in
    let count_all = length-show_groups demangle gs full in
    record {
      items = show_groups demangle (take request.limit after);
      rest = show_groups demangle (drop request.limit after);
      shown = refl;
      split =
          drop-show_groups demangle request.offset gs full
          ∙ (ap (show_groups demangle) (sym (take-drop request.limit after))
              ∙ show_groups-append demangle (take request.limit after) (drop request.limit after));
      counted = ap some (sym count_all);
      next =
          next_of_lem _ request.offset _ (length gs)
            (omega (
              arith,
              count_shown,
              count_rest,
              count_all,
              length-take request.limit after,
              length-drop request.limit after,
              length-drop request.offset gs,
            ))
            (omega (arith, count_all, small));
      progress = elim (Bool-cases (leb (length after) request.limit)) [
        | inl last ↦
            inl (omega (arith, count_rest, length-drop request.limit after, leb→le _ _ last))
        | inr more ↦ inr (ground (arith, count_shown, length-take request.limit after, more))
      ];
    }
