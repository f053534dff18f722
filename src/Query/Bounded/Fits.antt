-- ===== src/Query/Bounded/Fits.antt =====
-- `bounded` stops, and what it returns fits and is a page like the one it was given.
use coverage_mcp.Prelude.{
  ℕ, suc, ◌+◌, ◌≤◌, ◌≡◌, ◌⊎◌, ◌∙◌, sym, refl, ap, length-append, length-drop, Option, none, some,
  List, [], ◌∷◌, ◌++◌, arith, length, ltb, unwrap_or, Bool-cases, inl, inr, drop,
}
use coverage_mcp.Error.Ensures.{Ensures, Ensures-ok, Ensures-err}
use coverage_mcp.Query.Groups.{Group}
use coverage_mcp.Query.Bounded.{
  Data, list_of, pop_from, Key, groups_key, gained_key, remaining_key, pop, pop_groups, later,
  candidate, largest, group_total, metadata_error, group_error,
}

length-pop : (g : Group) (gs : List Group) → suc (length (pop (g ∷ gs))) ≡ length (g ∷ gs)
length-pop g [] = refl
length-pop g (h ∷ gs) = omega (arith, length-pop h gs)

abbrev list_length : Option (List Group) → ℕ
list_length gs = length (unwrap_or gs [])

-- A chosen list has a group.
abbrev pub IsChoice : Data → Option (Key × ℕ) → Type 0
IsChoice payload none = Unit
IsChoice payload (some (key, n)) = 1 ≤ list_length (list_of payload key)

later-IsChoice :
    (payload : Data) (a b : Option (Key × ℕ))
    → IsChoice payload a
    → IsChoice payload b
    → IsChoice payload (later a b)
later-IsChoice payload none b ha hb = hb
later-IsChoice payload (some a) none ha hb = ha
later-IsChoice payload (some a) (some b) ha hb = elim (Bool-cases (ltb b.1 a.1)) [
  | inl l ↦ rw l ha
  | inr g ↦ rw g hb
]

length-pop_option :
    (gs : Option (List Group))
    → 1 ≤ list_length gs
    → suc (length (pop (unwrap_or gs []))) ≡ list_length gs
length-pop_option none h = ground arith
length-pop_option (some []) h = ground arith
length-pop_option (some (g ∷ gs)) h = length-pop g gs

module _ (size : Data → ℕ) (list_size : List Group → ℕ) where
  candidate-IsChoice :
      (payload : Data) (key : Key) (gs : Option (List Group))
      → list_of payload key ≡ gs
      → IsChoice payload (candidate size list_size key gs)
  candidate-IsChoice payload key none e = tt
  candidate-IsChoice payload key (some []) e = tt
  candidate-IsChoice payload key (some (g ∷ gs)) e = rw e (omega arith)

  pub largest-IsChoice : (payload : Data) → IsChoice payload (largest size list_size payload)
  unfolding largest
  largest-IsChoice payload =
      later-IsChoice payload _ _
        (later-IsChoice payload _ _ (candidate-IsChoice payload groups_key payload.groups refl)
          (candidate-IsChoice payload gained_key payload.gained refl))
        (candidate-IsChoice payload remaining_key payload.remaining refl)

-- A turn drops one group.
module _ (size : Data → ℕ) (list_size : List Group → ℕ) where
  abbrev IsStep : Data → Data → Type 0
  IsStep payload next = suc (group_total size list_size next) ≡ group_total size list_size payload

  pop_groups-IsStep :
      (payload : Data) (items : List Group)
      → suc (length items) ≡ list_length payload.groups
      → Ensures (IsStep payload) (pop_groups payload items)
  pop_groups-IsStep payload [] e = Ensures-err group_error
  pop_groups-IsStep payload (g ∷ gs) e = Ensures-ok _ (omega (arith, e))

  pub pop_from-IsStep :
      (payload : Data) (choice : Option (Key × ℕ))
      → IsChoice payload choice
      → Ensures (IsStep payload) (pop_from payload choice)
  pop_from-IsStep payload none c = Ensures-err metadata_error
  pop_from-IsStep payload (some (groups_key, n)) c =
      pop_groups-IsStep payload _ (length-pop_option payload.groups c)
  pop_from-IsStep payload (some (gained_key, n)) c =
      Ensures-ok _ (omega (arith, length-pop_option payload.gained c))
  pop_from-IsStep payload (some (remaining_key, n)) c =
      Ensures-ok _ (omega (arith, length-pop_option payload.remaining c))

-- What comes after a page of groups: none at the end, or the place to go on at.
abbrev pub next_of : ℕ → List Group → Option ℕ
next_of n [] = none
next_of n (g ∷ gs) = some n

-- The data is a page of `all_groups` that starts at `offset`.
pub record IsPage (all_groups : List Group) (offset : ℕ) (payload : Data) : Type 0 where
  pub items : List Group
  pub rest : List Group
  pub shown : payload.groups ≡ some items
  pub split : drop offset all_groups ≡ items ++ rest
  pub counted : payload.group_count ≡ some (length all_groups)
  pub next : payload.next_offset ≡ next_of (offset + length items) rest
  pub progress : (length rest ≡ 0) ⊎ (1 ≤ length items)

pop-append :
    (g : Group) (gs rest : List Group)
    → (last : Group) × ((g ∷ gs) ++ rest ≡ pop (g ∷ gs) ++ last ∷ rest)
pop-append g [] rest = (g, refl)
pop-append g (h ∷ gs) rest = let (last, e) = pop-append h gs rest in (last, ap (λ xs. g ∷ xs) e)

pop_split :
    (items rest : List Group)
    → 1 ≤ length items
    → (last : Group) × (items ++ rest ≡ pop items ++ last ∷ rest)
      × (suc (length (pop items)) ≡ length items)
pop_split [] rest h = ground arith
pop_split (g ∷ gs) rest h = let (last, e) = pop-append g gs rest in (last, e, length-pop g gs)

place_after :
    (o c : Option ℕ) (offset n total : ℕ) (rest : List Group)
    → o ≡ next_of (offset + n) rest
    → c ≡ some total
    → total ≡ offset + n + length rest
    → unwrap_or o (unwrap_or c 0) ≡ offset + n
place_after o c offset n total [] ho hc h = rw (ho, hc) (omega arith)
place_after o c offset n total (g ∷ gs) ho hc h = rw ho refl

module _ (all_groups : List Group) (offset : ℕ) where
  -- `next_offset`, or the count where there is none, is the place after the page.
  next_place :
      (payload : Data) (v : IsPage all_groups offset payload)
      → 1 ≤ length v.items
      → unwrap_or payload.next_offset (unwrap_or payload.group_count 0) ≡ offset + length v.items
  next_place payload v h =
      place_after _ _ offset (length v.items) (length all_groups) v.rest v.next v.counted (
        omega (
          arith,
          ap (λ gs. length gs) v.split,
          length-drop offset all_groups,
          length-append v.items v.rest,
        ))

  pop_groups-IsPage :
      (payload : Data) (v : IsPage all_groups offset payload) (popped : List Group)
      → 1 ≤ length v.items
      → pop v.items ≡ popped
      → Ensures (IsPage all_groups offset) (pop_groups payload popped)
  pop_groups-IsPage payload v [] h e = Ensures-err group_error
  pop_groups-IsPage payload v (g ∷ gs) h e =
      let (last, appended, shorter) = pop_split v.items v.rest h in
      Ensures-ok _ (record {
        items = g ∷ gs;
        rest = last ∷ v.rest;
        shown = refl;
        split = v.split ∙ (appended ∙ ap (λ popped. popped ++ last ∷ v.rest) e);
        counted = v.counted;
        next =
            ap some
              (omega (arith, next_place payload v h, shorter, ap (λ popped. length popped) e));
        progress = inr (omega arith);
      })

  pub pop_from-IsPage :
      (payload : Data) (choice : Option (Key × ℕ))
      → IsChoice payload choice
      → IsPage all_groups offset payload
      → Ensures (IsPage all_groups offset) (pop_from payload choice)
  pop_from-IsPage payload none c v = Ensures-err metadata_error
  pop_from-IsPage payload (some (groups_key, n)) c v =
      pop_groups-IsPage payload v _ (omega (arith, c, ap list_length v.shown))
        (ap (λ gs. pop (unwrap_or gs [])) (sym v.shown))
  pop_from-IsPage payload (some (gained_key, n)) c v = Ensures-ok _ (record {
    items = v.items;
    rest = v.rest;
    shown = v.shown;
    split = v.split;
    counted = v.counted;
    next = v.next;
    progress = v.progress;
  })
  pop_from-IsPage payload (some (remaining_key, n)) c v = Ensures-ok _ (record {
    items = v.items;
    rest = v.rest;
    shown = v.shown;
    split = v.split;
    counted = v.counted;
    next = v.next;
    progress = v.progress;
  })
