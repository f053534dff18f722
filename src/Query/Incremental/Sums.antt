-- ===== src/Query/Incremental/Sums.antt =====
-- Joining a batch to the union: the denominator stays, and each gained row counts once.
use coverage_mcp.Prelude.{
  ℕ, ◌+◌, String, ◌≡◌, ◌∙◌, refl, ap, Bool, true, false, not, Option, none, some, List, [], ◌∷◌,
  arith, All, length, count, any, is_some, inl, inr, Bool-cases, if◌then◌else◌,
}
use coverage_mcp.Prelude.Int.{pos, ◌≤ℤ◌}
use coverage_mcp.Order.{text_ord}
use coverage_mcp.BTree
use coverage_mcp.BTree.{keys, values}
use coverage_mcp.BTree.Laws.{Above, IsSorted, insert-IsSorted, get-insert, get-All, All-upsert}
use coverage_mcp.BTree.Count.{weigh-upsert, count-values, length-values, weight_of}
use coverage_mcp.Query.{Observation, Observations}
use coverage_mcp.Query.Incremental.{is_hit, absorb}
use coverage_mcp.Query.Incremental.Combine.{is_uncovered_in, gained_rows}

-- An observation whose hits are known.
abbrev pub IsMeasured : String × Observation → Type 0
IsMeasured e = pos 0 ≤ℤ e.1.hits

-- In key order, with all hits known.
pub record IsInventory (m : Observations) : Type 0 where
  pub sorted : IsSorted m
  pub measured : All IsMeasured m

abbrev pub IsWithin : Observations → Observations → Type 0
IsWithin rows union = any (λ key. not (BTree.contains_key union key)) (keys rows) ≡ false

abbrev hit_weight : Observation → ℕ
hit_weight row = if is_hit row then 1 else 0

abbrev one : Observation → ℕ
one row = 1

insert-IsInventory :
    (union : Observations) (key : String) (row : Observation)
    → is_hit row ≡ true
    → IsInventory union
    → IsInventory (BTree.insert union key row)
insert-IsInventory union key row h v = record {
  sorted = insert-IsSorted union key row v.sorted;
  measured =
      unfold BTree.insert in
      All-upsert IsMeasured union key (λ _. row) row (ground arith) (λ w m. ground arith)
        v.measured;
}

-- A key that comes later does not see the insertion.
gained-insert :
    (union rows : Observations) (key : String) (row : Observation)
    → IsSorted union
    → Above key rows
    → gained_rows (BTree.insert union key row) rows ≡ gained_rows union rows
unfolding gained_rows
gained-insert union [] key row s a = refl
gained-insert union ((k, r) ∷ rows) key row s a = ground (
  arith,
  gained-insert union rows key row s a.1,
  get-insert union key k row s,
  text_ord.cmp_flip k key,
)

IsWithin-insert :
    (union rows : Observations) (key : String) (row : Observation)
    → IsSorted union
    → Above key rows
    → IsWithin rows union
    → IsWithin rows (BTree.insert union key row)
unfolding BTree.contains_key
IsWithin-insert union [] key row s a w = refl
IsWithin-insert union ((k, r) ∷ rows) key row s a w = ground (
  arith,
  IsWithin-insert union rows key row s a.1,
  get-insert union key k row s,
  text_ord.cmp_flip k key,
)

is_some_inv :
    (o : Option Observation) → not (is_some o) ≡ false → (old : Observation) × (o ≡ some old)
is_some_inv none h = ground arith
is_some_inv (some old) h = (old, refl)

known-key :
    (union : Observations) (k : String)
    → not (BTree.contains_key union k) ≡ false
    → (old : Observation) × (BTree.get union k ≡ some old)
unfolding BTree.contains_key
known-key union k h = is_some_inv (BTree.get union k) h

-- The first key is in the union, and so are the others.
found-within :
    (union rows : Observations) (k : String) (r : Observation)
    → IsWithin ((k, r) ∷ rows) union
    → (old : Observation) × (BTree.get union k ≡ some old)
found-within union rows k r w = known-key union k (ground arith)

tail-IsWithin :
    (union rows : Observations) (k : String) (r : Observation)
    → IsWithin ((k, r) ∷ rows) union
    → IsWithin rows union
tail-IsWithin union rows k r w = ground arith

pub absorb-IsInventory :
    (union rows : Observations) → IsInventory union → IsInventory (absorb union rows)
unfolding absorb
absorb-IsInventory union [] v = v
absorb-IsInventory union ((k, r) ∷ rows) v = elim (Bool-cases (is_hit r)) [
  | inl hit ↦
      rw hit (absorb-IsInventory (BTree.insert union k r) rows (insert-IsInventory union k r hit v))
  | inr miss ↦ rw miss (absorb-IsInventory union rows v)
]

-- One row that is hit: the number of entries stays, and the number of hits grows by one exactly
-- if the old entry had none.
module _ (union : Observations) (k : String) (r old : Observation) (v : IsInventory union)
    (found : BTree.get union k ≡ some old) where
  length-insert_found : length (BTree.insert union k r) ≡ length union
  unfolding BTree.insert
  length-insert_found = omega (
    arith,
    weigh-upsert one union k (λ _. r) r v.sorted,
    length-values union,
    length-values (BTree.upsert union k (λ _. r) r),
    ap (weight_of one) found,
  )

  hits-insert_found :
      is_hit r ≡ true
      → count is_hit (values (BTree.insert union k r))
        ≡ count is_hit (values union) + (if is_uncovered_in union k then 1 else 0)
  unfolding BTree.insert
  hits-insert_found hit = ground (
    arith,
    weigh-upsert hit_weight union k (λ _. r) r v.sorted,
    count-values is_hit union,
    count-values is_hit (BTree.upsert union k (λ _. r) r),
    found,
    hit,
    get-All IsMeasured union k v.measured found,
  )

-- Joining a batch keeps the denominator.
pub length-absorb :
    (union rows : Observations)
    → IsInventory union
    → IsSorted rows
    → IsWithin rows union
    → length (absorb union rows) ≡ length union
unfolding absorb
length-absorb union [] v s w = refl
length-absorb union ((k, r) ∷ rows) v s w = elim (Bool-cases (is_hit r)) [
  | inl hit ↦
      let (old, found) = found-within union rows k r w in
      rw hit (
        length-absorb (BTree.insert union k r) rows (insert-IsInventory union k r hit v) s.1
          (IsWithin-insert union rows k r v.sorted s.0 (tail-IsWithin union rows k r w))
        ∙ length-insert_found union k r old v found)
  | inr miss ↦ rw miss (length-absorb union rows v s.1 (tail-IsWithin union rows k r w))
]

hits-step :
    (a b c : ℕ) (u : Bool) (r : Observation) (rest gained : List Observation)
    → a ≡ b + length rest
    → rest ≡ gained
    → b ≡ c + (if u then 1 else 0)
    → a ≡ c + length (if u then r ∷ gained else gained)
hits-step a b c u r rest gained p q e = ground (arith, ap length q)

-- Joining a batch adds one hit for each gained row.
pub hits-absorb :
    (union rows : Observations)
    → IsInventory union
    → IsSorted rows
    → IsWithin rows union
    → count is_hit (values (absorb union rows))
      ≡ count is_hit (values union) + length (gained_rows union rows)
unfolding absorb gained_rows
hits-absorb union [] v s w = omega arith
hits-absorb union ((k, r) ∷ rows) v s w = elim (Bool-cases (is_hit r)) [
  | inl hit ↦
      let (old, found) = found-within union rows k r w in
      rw hit (
        hits-step _ _ _ (is_uncovered_in union k) r _ _
          (hits-absorb (BTree.insert union k r) rows (insert-IsInventory union k r hit v) s.1
            (IsWithin-insert union rows k r v.sorted s.0 (tail-IsWithin union rows k r w)))
          (gained-insert union rows k r v.sorted s.0) (hits-insert_found union k r old v found hit))
  | inr miss ↦ rw miss (hits-absorb union rows v s.1 (tail-IsWithin union rows k r w))
]
