-- ===== src/Query/Groups.antt =====
-- `group_rows` of query.rs: observations by function, or by line where no function is known.
-- `demangle` is the `rustc-demangle` crate: the readable form of a mangled name, or none.
use Prim.Native.Nat.{Ordering, compare as compare_ℕ}
use Prim.Native.Nat.Ordering.{eq}
use Prim.Native.String.{compare as compare_text}
use coverage_mcp.Prelude.{
  ℕ, zero, suc, ◌-◌, String, Option, none, some, List, [], ◌∷◌, map, length, take, drop, ltb,
  unwrap_or, if◌then◌else◌,
}
use coverage_mcp.Prelude.Int.{ℤ, pos}
use coverage_mcp.Order.{text_ord, int_ord, option_ord, pair_ord, compare_ℤ, then_cmp}
use coverage_mcp.BTree.{values}
use coverage_mcp.BTree.Group.{group_by}
use coverage_mcp.Sort.{sort_by}
use coverage_mcp.Text.{is_empty, char_count, concat}
use coverage_mcp.Query.{Arm, no_arm, arm_word, Span, Observation}

-- path, function, the line where there is no function, and what makes a region unmeasured
abbrev pub GroupKey : Type 0
GroupKey = String × (String × (ℤ × Option String))

unfoldable pub group_key : Observation → GroupKey
group_key row =
    (row.path, (row.symbol, (if is_empty row.symbol then row.span.0 else pos 0, row.cause)))

unfoldable pub compare_span : Span → Span → Ordering
compare_span (a, (b, (c, d))) (a', (b', (c', d'))) =
    then_cmp (compare_ℤ a a')
      (then_cmp (compare_ℤ b b') (then_cmp (compare_ℤ c c') (compare_ℤ d d')))

-- by span, then by arm
unfoldable pub compare_rows : Observation → Observation → Ordering
unfolding compare_span
compare_rows a b =
    then_cmp (compare_span a.span b.span) (compare_text (arm_word a.arm) (arm_word b.arm))

-- A group is never empty, so the other cases do not arise; the source would panic there.
abbrev pub compare_first : List Observation → List Observation → Ordering
compare_first (a ∷ _) (b ∷ _) =
    then_cmp (compare_text a.path b.path)
      (then_cmp (compare_span a.span b.span) (compare_text a.symbol b.symbol))
compare_first _ _ = eq

-- the largest group first, then by the place of the first row
unfoldable pub compare_groups : List Observation → List Observation → Ordering
unfolding compare_span
compare_groups a b = then_cmp (compare_ℕ (length b) (length a)) (compare_first a b)

unfoldable pub sorted_groups : List Observation → List (List Observation)
unfolding group_by sort_by group_key compare_rows compare_groups
sorted_groups rows =
    sort_by compare_groups (map (sort_by compare_rows) (values (group_by group_key [] rows)))

pub record Location : Type 0 where
  pub span : Span
  pub arm : Option Arm

pub record Group : Type 0 where
  pub path : String
  pub function : Option String
  pub count : ℕ
  pub unmeasured_reason : Option String
  pub locations : List Location
  pub locations_omitted : ℕ

-- `chars().count()` and `chars().take(n)`
unfoldable pub take_chars : ℕ → String → String
take_chars zero s = String.[]
take_chars (suc n) String.[] = String.[]
take_chars (suc n) (String.◌∷◌ c s) = String.◌∷◌ c (take_chars n s)

abbrev some_arm : Arm → Option Arm
some_arm no_arm = none
some_arm a = some a

abbrev location : Observation → Location
location row = record { span = row.span; arm = some_arm row.arm }

unfoldable shown_symbol : (String → Option String) → String → String
unfolding char_count take_chars concat
shown_symbol demangle raw =
    let symbol = unwrap_or (demangle raw) raw in
    if ltb 160 (char_count symbol) then concat (take_chars 159 symbol ∷ "…" ∷ []) else symbol

-- the rows stand in the order of span and arm already; they are sorted once more
unfoldable pub show_group : (String → Option String) → List Observation → Option Group
unfolding shown_symbol
show_group demangle [] = none
show_group demangle (first ∷ rest) =
    let symbol = shown_symbol demangle first.symbol in
    some (record {
      path = first.path;
      function = if is_empty symbol then none else some symbol;
      count = length (first ∷ rest);
      unmeasured_reason = first.cause;
      locations = map location (take 3 (first ∷ rest));
      locations_omitted = length (first ∷ rest) - 3;
    })

unfoldable pub show_groups : (String → Option String) → List (List Observation) → List Group
unfolding show_group sort_by compare_rows
show_groups demangle [] = []
show_groups demangle (rows ∷ more) = elim (show_group demangle (sort_by compare_rows rows)) [
  | none ↦ show_groups demangle more
  | some g ↦ g ∷ show_groups demangle more
]

-- The groups of one page, and how many there are in all.
unfoldable pub groups : (String → Option String) → List Observation → ℕ → ℕ → List Group × ℕ
unfolding sorted_groups show_groups
groups demangle rows limit offset =
    let all_groups = sorted_groups rows in
    (show_groups demangle (take limit (drop offset all_groups)), length all_groups)
