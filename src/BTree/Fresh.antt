-- ===== src/BTree/Fresh.antt =====
-- Inserting entries one after the other, and how many there are if no key comes twice.
use coverage_mcp.Prelude.{
  suc, ◌+◌, ◌≡◌, ◌≢◌, refl, none, List, [], ◌∷◌, ◌++◌, All, All-append, length, arith,
}
use coverage_mcp.Order.{Ord}
use coverage_mcp.BTree.{BTreeMap, get, insert, upsert}
use coverage_mcp.BTree.Laws.{IsSorted, get-insert, insert-IsSorted}
use coverage_mcp.BTree.Count.{weigh-upsert, length-values}

module _ {ℓ κ} {K : Type ℓ} {V : Type κ} where
  -- No key comes twice.
  abbrev pub HasDistinctKeys : List (K × V) → Type (ℓ ⊔ κ)
  HasDistinctKeys [] = Unit
  HasDistinctKeys (p ∷ ps) = All (λ q. q.0 ≢ p.0) ps × HasDistinctKeys ps

  pub HasDistinctKeys-append :
      (ps qs : List (K × V))
      → HasDistinctKeys ps
      → HasDistinctKeys qs
      → All (λ p. All (λ q. q.0 ≢ p.0) qs) ps
      → HasDistinctKeys (ps ++ qs)
  HasDistinctKeys-append [] qs d e apart = e
  HasDistinctKeys-append (p ∷ ps) qs d e apart =
      (All-append (λ q. q.0 ≢ p.0) ps qs d.0 apart.0, HasDistinctKeys-append ps qs d.1 e apart.1)

module _ {ℓ κ} {K : Type ℓ} {V : Type κ} ⦃o : Ord K⦄ where
  unfoldable pub insert_all : BTreeMap K V → List (K × V) → BTreeMap K V
  unfolding insert
  insert_all m [] = m
  insert_all m ((k, v) ∷ ps) = insert_all (insert m k v) ps

  pub insert_all-append :
      (m : BTreeMap K V) (ps qs : List (K × V))
      → insert_all m (ps ++ qs) ≡ insert_all (insert_all m ps) qs
  unfolding insert_all
  insert_all-append m [] qs = refl
  insert_all-append m ((k, v) ∷ ps) qs = insert_all-append (insert m k v) ps qs

  length-insert :
      (m : BTreeMap K V) (k : K) (v : V)
      → IsSorted m
      → get m k ≡ none
      → length (insert m k v) ≡ suc (length m)
  unfolding insert
  length-insert m k v s absent =
      let all = weigh-upsert (λ _. 1) m k (λ _. v) v s in
      omega (arith, rw absent at all, length-values m, length-values (upsert m k (λ _. v) v))

  All-insert :
      (m : BTreeMap K V) (k : K) (v : V) (ps : List (K × V))
      → IsSorted m
      → All (λ p. get m p.0 ≡ none) ps
      → All (λ p. p.0 ≢ k) ps
      → All (λ p. get (insert m k v) p.0 ≡ none) ps
  All-insert m k v [] s a d = tt
  All-insert m k v ((j, w) ∷ ps) s a d = (still, All-insert m k v ps s a.1 d.1)
    where
      still : get (insert m k v) j ≡ none
      still = ground (arith, get-insert m k j v s, a.0, d.0, o.eq_of_cmp j k)

  -- Entries with keys that are new, and no key twice, all count.
  pub length-insert_all :
      (m : BTreeMap K V) (ps : List (K × V))
      → IsSorted m
      → HasDistinctKeys ps
      → All (λ p. get m p.0 ≡ none) ps
      → length (insert_all m ps) ≡ length m + length ps
  unfolding insert_all
  length-insert_all m [] s d a = omega arith
  length-insert_all m ((k, v) ∷ ps) s d a =
      let rest =
        length-insert_all (insert m k v) ps (insert-IsSorted m k v s) d.1
          (All-insert m k v ps s a.1 d.0) in
      omega (arith, rest, length-insert m k v s a.0)
