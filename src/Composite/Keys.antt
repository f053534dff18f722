-- ===== src/Composite/Keys.antt =====
-- `region_key` of src/composite.rs: when two regions have one key.
use Prim.Native.Char.{code}
use coverage_mcp.Prelude.{
  String, ◌≡◌, refl, sym, ap, ◌∙◌, Bool, false, Option, some, ◌==◌, arith, [], ◌∷◌,
}
use coverage_mcp.Prelude.Int.{ℤ, pos, negsuc, ◌≤ℤ◌}
use coverage_mcp.Text.{append, any_char, concat, show_ℤ}
use coverage_mcp.Text.Split.{split_once, split_once-append}
use coverage_mcp.Text.Number.{any_char-show, code-digit, show-same}
use coverage_mcp.Composite.{region_key}

abbrev pub has_colon : String → Bool
has_colon = any_char (λ c. code c == b':')

-- A text in front of a colon is known from the whole, if it has none itself.
cut :
    (a b x y : String)
    → has_colon a ≡ false
    → has_colon b ≡ false
    → append a (append ":" x) ≡ append b (append ":" y)
    → (a ≡ b) × (x ≡ y)
cut a b x y h k e =
    let first = split_once-append b':' a ":" x h refl in
    let second = split_once-append b':' b ":" y k refl in
    let same : ◌≡◌ {A = Option (String × String)} (some (a, x)) (some (b, y)) =
      sym first ∙ ap (split_once b':') e ∙ second in
    (cc, cc)

append-same : (a x y : String) → append a x ≡ append a y → x ≡ y
append-same String.[] x y h = h
append-same (String.◌∷◌ c a) x y h = append-same a x y (cc)

-- A positive line is shown without a colon.
plain_line : (i : ℤ) → pos 1 ≤ℤ i → has_colon (show_ℤ i) ≡ false
unfolding show_ℤ
plain_line (pos n) h = any_char-show _ (λ k l. ground (arith, code-digit k l)) n
plain_line (negsuc n) h = absurd (ground (arith, h))

show_ℤ-same : (i j : ℤ) → pos 1 ≤ℤ i → pos 1 ≤ℤ j → show_ℤ i ≡ show_ℤ j → i ≡ j
unfolding show_ℤ
show_ℤ-same (pos n) (pos m) h k e = ap pos (show-same n m e)
show_ℤ-same (pos n) (negsuc m) h k e = absurd (ground (arith, k))
show_ℤ-same (negsuc n) j h k e = absurd (ground (arith, h))

append-empty : (s : String) → append s "" ≡ s
append-empty String.[] = refl
append-empty (String.◌∷◌ c s) = ap (String.◌∷◌ c) (append-empty s)

-- What a key has behind the id
abbrev behind_id : ℤ → ℤ → String → String
behind_id first last name = concat (show_ℤ first ∷ ":" ∷ show_ℤ last ∷ ":" ∷ name ∷ [])

behind_id-same :
    (i j k l : ℤ) (s t : String)
    → pos 1 ≤ℤ i
    → pos 1 ≤ℤ j
    → pos 1 ≤ℤ k
    → pos 1 ≤ℤ l
    → behind_id i j s ≡ behind_id k l t
    → (i ≡ k) × ((j ≡ l) × (s ≡ t))
unfolding concat
behind_id-same i j k l s t hi hj hk hl e =
    let first = cut (show_ℤ i) (show_ℤ k) _ _ (plain_line i hi) (plain_line k hk) e in
    let last = cut (show_ℤ j) (show_ℤ l) _ _ (plain_line j hj) (plain_line l hl) first.1 in
    (
      show_ℤ-same i k hi hk first.0,
      (show_ℤ-same j l hj hl last.0, sym (append-empty s) ∙ last.1 ∙ append-empty t),
    )

region_key-append :
    (id : String) (i j : ℤ) (s : String)
    → region_key id i j s ≡ append id (append ":" (behind_id i j s))
unfolding region_key concat
region_key-append id i j s = refl

-- Two regions of one source with one key, on positive lines, are one.
pub region_key-same :
    (id : String) (i j k l : ℤ) (s t : String)
    → pos 1 ≤ℤ i
    → pos 1 ≤ℤ j
    → pos 1 ≤ℤ k
    → pos 1 ≤ℤ l
    → region_key id i j s ≡ region_key id k l t
    → (i ≡ k) × ((j ≡ l) × (s ≡ t))
region_key-same id i j k l s t hi hj hk hl e =
    let whole : append id (append ":" (behind_id i j s))
        ≡ append id (append ":" (behind_id k l t)) =
      sym (region_key-append id i j s) ∙ e ∙ region_key-append id k l t in
    behind_id-same i j k l s t hi hj hk hl (append-same ":" _ _ (append-same id _ _ whole))

-- Sources whose ids have no colon share no key.
pub region_key-id :
    (a b : String) (i j k l : ℤ) (s t : String)
    → has_colon a ≡ false
    → has_colon b ≡ false
    → region_key a i j s ≡ region_key b k l t
    → a ≡ b
region_key-id a b i j k l s t h g e =
    (cut a b _ _ h g (sym (region_key-append a i j s) ∙ e ∙ region_key-append b k l t)).0
