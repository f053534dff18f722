-- ===== src/Query/Compare/Itself.antt =====
-- A report compared with itself: nothing is gained, lost, added or removed.
use coverage_mcp.Prelude.{
  ℕ, zero, suc, String, ◌≡◌, ◌∙◌, ◌≢◌, ap, ap₂, sym, refl, Bool, true, false, Option, none, some,
  List, [], ◌∷◌, length, arith, unwrap_or, str_eq, if◌then◌else◌, All, All-filter,
}
use coverage_mcp.Order.{Ord, text_ord}
use coverage_mcp.BTree
use coverage_mcp.BTree.{BTreeMap, values}
use coverage_mcp.BTree.Laws.{Above, IsSorted}
use coverage_mcp.Error.{AppResult, ok}
use coverage_mcp.Error.Ensures.{
  Ensures, Ensures-ok, Ensures-bind, Ensures-if, Ensures-known, Ensures-exact,
}
use coverage_mcp.Models.Paths.{FileSystem}
use coverage_mcp.Query.{validate, metric}
use coverage_mcp.Query.Observe.{measurement_observations}
use coverage_mcp.Query.Observe.Keyed.{observations-IsKeyed}
use coverage_mcp.Query.Groups.{groups}
use coverage_mcp.Query.Incremental.Combine.{compare_incremental}
use coverage_mcp.Query.{
  CompareRequest, Metric, Measurement, Observation, Observations, regression, improved, key,
}
use coverage_mcp.Query.Observe.Keyed.{IsEntry, IsKeyed}
use coverage_mcp.Query.Compare.{
  gained, lost, absent, selected_rows, Changes, CompareAnswer, Compared, compared, combined,
  changes_of, status_of, is_comparable, compatible_context, is_full_scope, compare_answer,
}
use coverage_mcp.Query.Compare.Call.{compare_rows, compare_loaded, check_scope, compare}

-- Every entry is found at its key.
module _ {ℓ κ} {K : Type ℓ} {V : Type κ} ⦃o : Ord K⦄ where
  abbrev IsFoundIn : BTreeMap K V → K × V → Type κ
  IsFoundIn m e = BTree.get m e.0 ≡ some e.1

  found-skip :
      (k : K) (v : V) (m rest : BTreeMap K V)
      → Above k rest
      → All (IsFoundIn m) rest
      → All (IsFoundIn ((k, v) ∷ m)) rest
  unfolding BTree.get
  found-skip k v m [] a h = tt
  found-skip k v m ((q, w) ∷ rest) a h =
      (ground (arith, o.cmp_flip k q, h.0), found-skip k v m rest a.1 h.1)

  get-entries : (m : BTreeMap K V) → IsSorted m → All (IsFoundIn m) m
  unfolding BTree.get
  get-entries [] s = tt
  get-entries ((k, v) ∷ m) s =
      (ground (arith, o.cmp_self k), found-skip k v m m s.0 (get-entries m s.1))

abbrev IsOwn : Observations → Observation → Type 0
IsOwn m row = BTree.get m (key row) ≡ some row

values-IsOwn :
    (m rest : Observations)
    → All IsEntry rest
    → All (IsFoundIn m) rest
    → All (IsOwn m) (values rest)
values-IsOwn m [] e f = tt
values-IsOwn m ((k, row) ∷ rest) e f =
    (ap (BTree.get m) e.0.at_key ∙ f.0, values-IsOwn m rest e.1 f.1)

selected_rows-IsOwn :
    (request : CompareRequest) (k : Metric) (m : Observations)
    → IsKeyed m
    → All (IsOwn m) (selected_rows request k m)
unfolding selected_rows
selected_rows-IsOwn request k m v =
    All-filter (IsOwn m) _ (values m) (values-IsOwn m m v.entries (get-entries m v.sorted))

gained-own : (m : Observations) (rows : List Observation) → All (IsOwn m) rows → gained m rows ≡ []
unfolding gained
gained-own m [] h = refl
gained-own m (row ∷ rows) h = ground (arith, gained-own m rows h.1, h.0)

lost-own : (m : Observations) (rows : List Observation) → All (IsOwn m) rows → lost m rows ≡ []
unfolding lost
lost-own m [] h = refl
lost-own m (row ∷ rows) h = ground (arith, lost-own m rows h.1, h.0)

absent-own : (m : Observations) (rows : List Observation) → All (IsOwn m) rows → absent m rows ≡ 0
unfolding absent BTree.contains_key
absent-own m [] h = refl
absent-own m (row ∷ rows) h = ground (arith, absent-own m rows h.1, h.0)

-- A comparison that reports no change, and no gain or regression.
pub record IsUnchanged (answer : CompareAnswer) : Type 0 where
  pub none_new : (c : Changes) → answer.changes ≡ some c → c.newly_observed ≡ 0
  pub none_lost : (c : Changes) → answer.changes ≡ some c → c.not_observed ≡ 0
  pub none_added : (c : Changes) → answer.changes ≡ some c → c.added ≡ 0
  pub none_removed : (c : Changes) → answer.changes ≡ some c → c.removed ≡ 0
  pub no_groups : answer.gained ≡ []
  pub no_improvement : answer.status ≢ improved
  pub no_regression : answer.status ≢ regression

no_gained_groups :
    (demangle : String → Option String) (limit : ℕ) → (groups demangle [] limit 0).0 ≡ []
unfolding groups
no_gained_groups demangle zero = refl
no_gained_groups demangle (suc limit) = refl

status_of-unchanged :
    (current : Measurement) (comparable verified full : Bool)
    → (status_of current comparable verified full 0 0 ≢ improved)
      × (status_of current comparable verified full 0 0 ≢ regression)
unfolding status_of
status_of-unchanged current comparable verified full = (λ h. ground arith, λ h. ground arith)

shown_changes :
    (comparable : Bool) (full : Bool) (g l : List Observation) (a r : ℕ) (c : Changes)
    → (if comparable then some (changes_of full g l a r) else none) ≡ some c
    → c ≡ changes_of full g l a r
shown_changes true full g l a r c h = cc
shown_changes false full g l a r c h = cc

if_nil {ℓ} : {A : Type ℓ} (b : Bool) (xs : List A) → xs ≡ [] → (if b then xs else []) ≡ []
if_nil true xs h = h
if_nil false xs h = refl

compare_answer-IsUnchanged :
    (demangle : String → Option String) (request : CompareRequest) (scope : String) (k : Metric)
    (m : Measurement) (rows : Observations)
    → IsKeyed rows
    → IsUnchanged (compare_answer demangle request scope k m m rows rows)
unfolding compare_answer
compare_answer-IsUnchanged demangle request scope k m rows v =
    let own = selected_rows-IsOwn request k rows v in
    let selected = selected_rows request k rows in
    let g0 = gained-own rows selected own in
    let l0 = lost-own rows selected own in
    let a0 = absent-own rows selected own in
    let is_ok = is_comparable m m selected selected in
    let is_same = compatible_context m m in
    let full = is_full_scope scope m m in
    let same_status =
      ap₂ (λ l g. status_of m is_ok is_same full (length l) (length g)) (sym l0) (sym g0) in
    let shown =
      shown_changes is_ok full (gained rows selected) (lost rows selected) (absent rows selected)
        (absent rows selected) in
    record {
      none_new = λ c h. ap (λ c. c.newly_observed) (shown c h) ∙ ap (λ g. length g) g0;
      none_lost = λ c h. ap (λ c. c.not_observed) (shown c h) ∙ ap (λ l. length l) l0;
      none_added = λ c h. ap (λ c. c.added) (shown c h) ∙ a0;
      none_removed = λ c h. ap (λ c. c.removed) (shown c h) ∙ a0;
      no_groups = if_nil is_ok (groups demangle (gained rows selected) request.limit 0).0 (
          ap (λ g. (groups demangle g request.limit 0).0) g0
          ∙ no_gained_groups demangle request.limit);
      no_improvement = λ h. (status_of-unchanged m is_ok is_same full).0 (same_status ∙ h);
      no_regression = λ h. (status_of-unchanged m is_ok is_same full).1 (same_status ∙ h);
    }

module _ (fs : FileSystem) (load : Option String → Option String → AppResult Measurement)
    (demangle : String → Option String) (root : String) where
  abbrev IsUnchangedResult : Compared → Type 0
  IsUnchangedResult (compared answer) = IsUnchanged answer
  IsUnchangedResult (combined answer) = Unit

  measurement_observations-IsKeyed :
      (m : Measurement) → m.native ≡ none → Ensures IsKeyed (measurement_observations fs root m)
  unfolding measurement_observations
  measurement_observations-IsKeyed m ordinary =
      rw ordinary (record { at = λ rows h. observations-IsKeyed fs root m.report rows h })

  compare_rows-IsUnchanged :
      (request : CompareRequest) (scope : String) (k : Metric) (m : Measurement)
      → m.native ≡ none
      → Ensures IsUnchangedResult (compare_rows fs load demangle root request scope k m m)
  unfolding compare_rows
  compare_rows-IsUnchanged request scope k m ordinary =
      Ensures-known (measurement_observations fs root m) _ (λ rows h.
        Ensures-exact (measurement_observations fs root m) rows _ h (
          Ensures-ok _ (
            compare_answer-IsUnchanged demangle request scope k m rows
              ((measurement_observations-IsKeyed m ordinary).at rows h))))

  compare_loaded-IsUnchanged :
      (request : CompareRequest) (scope : String) (m : Measurement)
      → m.native ≡ none
      → Ensures IsUnchangedResult (compare_loaded fs load demangle root request scope m m)
  unfolding compare_loaded
  compare_loaded-IsUnchanged request scope m ordinary =
      Ensures-bind
        (metric request.metric (if str_eq scope "incremental" then m.report else m.report)) _
        (λ k.
          Ensures-if (str_eq scope "incremental") _ _
            (Ensures-bind (compare_incremental fs load demangle root request m m k) _
              (λ joined. Ensures-ok _ tt))
            (compare_rows-IsUnchanged request scope k m ordinary))

  compare-Ensures :
      (request : CompareRequest) (m : Measurement)
      → load (some request.measurement) none ≡ ok m
      → load (some request.baseline) none ≡ ok m
      → m.native ≡ none
      → Ensures IsUnchangedResult (compare fs load demangle root request)
  unfolding compare
  compare-Ensures request m hc hb ordinary =
      Ensures-bind (validate request.limit request.query) _ (λ _.
        Ensures-bind (check_scope (unwrap_or request.scope "selected_tests") request.previous) _
          (λ _. Ensures-exact (load (some request.measurement) none) m _ hc (
            Ensures-exact (load (some request.baseline) none) m _ hb (
              compare_loaded-IsUnchanged request (unwrap_or request.scope "selected_tests") m
                ordinary))))

  -- If both references of a comparison load the same ordinary report, the comparison shows no
  -- newly observed, lost, added or removed observation and no gained group, and it says neither
  -- improved nor regression.
  pub compare-IsUnchanged :
      (request : CompareRequest) (m : Measurement) (answer : CompareAnswer)
      → load (some request.measurement) none ≡ ok m
      → load (some request.baseline) none ≡ ok m
      → m.native ≡ none
      → compare fs load demangle root request ≡ ok (compared answer)
      → IsUnchanged answer
  compare-IsUnchanged request m answer hc hb ordinary h =
      (compare-Ensures request m hc hb ordinary).at (compared answer) h
