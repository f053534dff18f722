-- ===== src/Query/Pages/Whole.antt =====
-- Reading page after page: each page fits, and together they show every group once, in order.
use mathlib.Core.List.{append-nil}
use coverage_mcp.Prelude.{
  ℕ, zero, suc, ◌+◌, ◌-◌, ◌≤◌, ◌<◌, String, ◌≡◌, refl, ap, sym, ◌∙◌, Option, some, List, [], ◌∷◌,
  ◌++◌, arith, length, unwrap_or, drop, length-drop, length-append,
}
use coverage_mcp.Error.{AppResult, ok, err, ◌>>=◌}
use coverage_mcp.Error.Ensures.{
  Ensures, Ensures-ok, Ensures-err, Ensures-bind, Ensures-then, Ensures-exact,
}
use coverage_mcp.Models.Paths.{FileSystem}
use coverage_mcp.Query.{FindRequest, Measurement, Metric, Observations, validate, metric}
use coverage_mcp.Query.Observe.{measurement_observations}
use coverage_mcp.Query.Groups.{Group}
use coverage_mcp.Query.Find.{FindAnswer, find, missing_rows, max_usize}
use coverage_mcp.Query.Bounded.{Data, bounded, find_data, with_data, bounded_answer, max_response}
use coverage_mcp.Query.Bounded.Fits.{IsPage, pop_from-IsPage}
use coverage_mcp.Query.Bounded.Loop.{Outcome, bounded-Outcome}
use coverage_mcp.Query.Pages.{call_find, read_pages}
use coverage_mcp.Query.Pages.Read.{missing_groups, find_answer-IsPage}

validate-limit :
    (limit : ℕ) (query : Option String) → Ensures (λ _. 1 ≤ limit) (validate limit query)
unfolding validate
validate-limit limit query = record { at = λ _ h. ground arith }

zero_plus : (b : ℕ) → 0 + b ≡ b
zero_plus b = omega arith

suc_plus : (a b : ℕ) → suc a + b ≡ suc (a + b)
suc_plus a b = omega arith

drop-nil {ℓ} : {A : Type ℓ} (n : ℕ) → drop {A = A} n [] ≡ []
drop-nil zero = refl
drop-nil (suc n) = refl

drop-plus {ℓ} : {A : Type ℓ} (a b : ℕ) (xs : List A) → drop (a + b) xs ≡ drop b (drop a xs)
drop-plus zero b xs = rw (zero_plus b) refl
drop-plus (suc a) b [] = drop-nil _ ∙ sym (drop-nil b)
drop-plus (suc a) b (x ∷ xs) = rw (suc_plus a b) (drop-plus a b xs)

drop-append {ℓ} : {A : Type ℓ} (xs ys : List A) → drop (length xs) (xs ++ ys) ≡ ys
drop-append [] ys = refl
drop-append (x ∷ xs) ys = drop-append xs ys

module _ (fs : FileSystem) (load : Option String → Option String → AppResult Measurement)
    (demangle : String → Option String) (root : String) (answer_size : FindAnswer → ℕ)
    (list_size : List Group → ℕ) where
  -- A page of `all_groups` from `offset` on, which fits in a response.
  abbrev pub IsFittingPage : List Group → ℕ → FindAnswer → Type 0
  IsFittingPage all_groups offset answer =
      IsPage all_groups offset (find_data answer) × (answer_size answer ≤ max_response)

  find-IsPage :
      (request : FindRequest) (m : Measurement) (k : Metric) (rows : Observations)
      → load request.measurement request.suite ≡ ok m
      → metric request.metric m.report ≡ ok k
      → measurement_observations fs root m ≡ ok rows
      → length (missing_groups demangle request k rows) ≤ max_usize
      → Ensures
          (λ answer.
            IsPage (missing_groups demangle request k rows) request.offset (find_data answer))
          (find fs load demangle root request)
  unfolding find
  find-IsPage request m k rows hl hm ho small =
      Ensures-then (validate request.limit request.query) _
        (validate-limit request.limit request.query)
        (λ _ some_limit. Ensures-bind _ _ (λ _. Ensures-exact _ m _ hl (
          Ensures-exact _ k _ hm (
            Ensures-exact _ rows _ ho
              (Ensures-ok _ (find_answer-IsPage demangle request m k rows some_limit small))))))

  bounded_answer-IsFittingPage :
      (all_groups : List Group) (offset : ℕ) (answer : FindAnswer)
      → IsPage all_groups offset (find_data answer)
      → Ensures (IsFittingPage all_groups offset) (bounded_answer answer_size list_size answer)
  unfolding bounded_answer
  bounded_answer-IsFittingPage all_groups offset answer v =
      page
        (bounded (λ payload. answer_size (with_data answer payload)) list_size (find_data answer))
        (bounded-Outcome (λ payload. answer_size (with_data answer payload)) list_size
          (IsPage all_groups offset) (pop_from-IsPage all_groups offset) (find_data answer) v)
    where
      page :
          (r : AppResult Data)
          → Outcome (λ payload. answer_size (with_data answer payload)) (IsPage all_groups offset) r
          → Ensures
              (IsFittingPage all_groups offset)
              (r >>= λ payload. ok (with_data answer payload))
      page (err e) out = Ensures-err e
      page (ok payload) (fits, w) = Ensures-ok _ (
        record {
          items = w.items;
          rest = w.rest;
          shown = ap (λ gs. some (unwrap_or gs [])) w.shown;
          split = w.split;
          counted = v.counted;
          next = w.next;
          progress = w.progress;
        },
        fits,
      )

  -- What a call gives at the places of one list of groups.
  abbrev GivesPages : List Group → FindRequest → Type 0
  GivesPages all_groups request =
      (offset : ℕ)
      → Ensures (IsFittingPage all_groups offset) (
          call_find fs load demangle root answer_size list_size
            (record request { offset = offset }))

  -- Reading from `offset` on ends, and gives the groups from there on.
  abbrev pub Reads : List Group → FindRequest → ℕ → ℕ → Type 0
  Reads all_groups request n offset =
      (r : AppResult (List Group)) × (read_pages fs load demangle root answer_size list_size n
          (record request { offset = offset })
        ≡ some r)
      × Ensures (λ gs. gs ≡ drop offset all_groups) r

  -- The groups that an answer shows are the items of its page.
  groups_of_page :
      (all_groups : List Group) (offset : ℕ) (answer : FindAnswer)
      (v : IsPage all_groups offset (find_data answer))
      → answer.groups ≡ v.items
  groups_of_page all_groups offset answer v = cc

  page_then_rest :
      (all_groups : List Group) (offset : ℕ) (answer : FindAnswer)
      (v : IsPage all_groups offset (find_data answer))
      → answer.groups ++ v.rest ≡ drop offset all_groups
  page_then_rest all_groups offset answer v =
      ap (λ gs. gs ++ v.rest) (groups_of_page all_groups offset answer v) ∙ sym v.split

  -- The place after a page is where its rest starts.
  drop-place :
      (all_groups : List Group) (offset : ℕ) (answer : FindAnswer)
      (v : IsPage all_groups offset (find_data answer))
      → drop (offset + length v.items) all_groups ≡ v.rest
  drop-place all_groups offset answer v =
      drop-plus offset (length v.items) all_groups
      ∙ (ap (drop (length v.items)) v.split ∙ drop-append v.items v.rest)

  length-rest :
      (all_groups : List Group) (offset : ℕ) (answer : FindAnswer)
      (v : IsPage all_groups offset (find_data answer))
      → length all_groups - offset ≡ length v.items + length v.rest
  length-rest all_groups offset answer v = omega (
    arith,
    length-drop offset all_groups,
    ap (λ gs. length gs) v.split,
    length-append v.items v.rest,
  )

  read_page :
      (all_groups : List Group) (request : FindRequest) (n offset : ℕ) (answer : FindAnswer)
      → call_find fs load demangle root answer_size list_size (record request { offset = offset })
        ≡ ok answer
      → (v : IsPage all_groups offset (find_data answer))
      → ((place : ℕ)
          → offset < place
          → place < length all_groups
          → Reads all_groups request n place)
      → (rest : List Group) → v.rest ≡ rest
      → Reads all_groups request (suc n) offset
  unfolding read_pages
  read_page all_groups request n offset answer called v later [] e = (
    ok answer.groups,
    rw (called, v.next, e, read_pages) refl,
    Ensures-ok answer.groups (
        sym (append-nil answer.groups)
        ∙ (ap (λ gs. answer.groups ++ gs) (sym e) ∙ page_then_rest all_groups offset answer v)),
  )
  read_page all_groups request n offset answer called v later (g ∷ gs) e =
      let long = ap (λ gs. length gs) e in
      let (r, ends, good) =
        later (offset + length v.items) (ground (arith, long, v.progress))
          (ground (arith, long, v.progress, length-rest all_groups offset answer v)) in
      (
        r >>= (λ groups. ok (answer.groups ++ groups)),
        rw (called, v.next, e, ends, read_pages) refl,
        Ensures-then r _ good (λ groups same. Ensures-ok _ (
            ap (λ gs. answer.groups ++ gs) (same ∙ drop-place all_groups offset answer v)
            ∙ page_then_rest all_groups offset answer v)),
      )

  go_on_reading :
      (all_groups : List Group) (request : FindRequest) (n offset : ℕ) (r : AppResult FindAnswer)
      → call_find fs load demangle root answer_size list_size (record request { offset = offset })
        ≡ r
      → Ensures (IsFittingPage all_groups offset) r
      → ((place : ℕ)
          → offset < place
          → place < length all_groups
          → Reads all_groups request n place)
      → Reads all_groups request (suc n) offset
  unfolding read_pages
  go_on_reading all_groups request n offset (err e) called page later =
      (err e, rw (called, read_pages) refl, Ensures-err e)
  go_on_reading all_groups request n offset (ok answer) called page later =
      let v = (page.at answer refl).0 in
      read_page all_groups request n offset answer called v later v.rest refl

  read_pages-Reads :
      (all_groups : List Group) (request : FindRequest)
      → GivesPages all_groups request
      → (n offset : ℕ) → length all_groups - offset < n
      → Reads all_groups request n offset
  read_pages-Reads all_groups request pages zero offset h = ground arith
  read_pages-Reads all_groups request pages (suc n) offset h =
      go_on_reading all_groups request n offset _ refl (pages offset) (λ place more in_range.
        read_pages-Reads all_groups request pages n place (omega (arith, h, more, in_range)))

  call_find-GivesPages :
      (request : FindRequest) (m : Measurement) (k : Metric) (rows : Observations)
      → load request.measurement request.suite ≡ ok m
      → metric request.metric m.report ≡ ok k
      → measurement_observations fs root m ≡ ok rows
      → length (missing_groups demangle request k rows) ≤ max_usize
      → GivesPages (missing_groups demangle request k rows) request
  unfolding call_find missing_rows
  call_find-GivesPages request m k rows hl hm ho small offset =
      Ensures-then (find fs load demangle root (record request { offset = offset })) _
        (find-IsPage (record request { offset = offset }) m k rows hl hm ho small)
        (λ answer v.
          bounded_answer-IsFittingPage (missing_groups demangle request k rows) offset answer v)

  -- For a request whose report loads, whose metric is known and whose observations are readable,
  -- with at most 2^64 - 1 groups: an answer for gaps is a page of all groups of missing rows from
  -- the request's offset on, its size is at most 12288, its group count is the number of all
  -- groups, its next_offset is none at the end and otherwise the place right after the page, and a
  -- page is empty only at the end.
  pub call_find-IsFittingPage :
      (request : FindRequest) (m : Measurement) (k : Metric) (rows : Observations)
      (answer : FindAnswer)
      → load request.measurement request.suite ≡ ok m
      → metric request.metric m.report ≡ ok k
      → measurement_observations fs root m ≡ ok rows
      → length (missing_groups demangle request k rows) ≤ max_usize
      → call_find fs load demangle root answer_size list_size request ≡ ok answer
      → IsFittingPage (missing_groups demangle request k rows) request.offset answer
  call_find-IsFittingPage request m k rows answer hl hm ho small h =
      (call_find-GivesPages request m k rows hl hm ho small request.offset).at answer h

  -- For a request whose report loads, whose metric is known and whose observations are readable,
  -- with at most 2^64 - 1 groups: starting at offset 0 and going on at next_offset until there is
  -- none ends with as many calls as there are groups and one more, and unless a call returns an
  -- error it gives every group of missing rows once, in their order, also where responses are cut
  -- to size.
  pub read_pages-whole :
      (request : FindRequest) (m : Measurement) (k : Metric) (rows : Observations)
      → load request.measurement request.suite ≡ ok m
      → metric request.metric m.report ≡ ok k
      → measurement_observations fs root m ≡ ok rows
      → length (missing_groups demangle request k rows) ≤ max_usize
      → Reads
          (missing_groups demangle request k rows)
          request
          (suc (length (missing_groups demangle request k rows)))
          0
  read_pages-whole request m k rows hl hm ho small =
      read_pages-Reads _ request (call_find-GivesPages request m k rows hl hm ho small) _ 0
        (omega arith)
