-- ===== src/Text/Number.antt =====
-- The integers that `str::parse` reads, and that it reads back what `format!` shows.
use Prim.Native.Char.{Char, code}
use coverage_mcp.Prelude.{
  ℕ, Bool, ==_iff, all_below-at, zero, suc, ◌+◌, ◌-◌, ◌*◌, ◌/◌, ◌%◌, ◌<◌, ◌≤◌, ◌≡◌, refl, ap, ◌∙◌,
  String, ◌&&◌, Option, none, some, ltb, leb, ◌==◌, if◌then◌else◌, arith, Bool-cases, inl, inr,
  false,
}
use coverage_mcp.Text.{is_empty, digit, show_digits, show_ℕ, any_char}
use coverage_mcp.Text.Split.{has_break}

-- The value of decimal digits behind those that gave `n`.
unfoldable parse_digits : ℕ → String → Option ℕ
parse_digits n String.[] = some n
parse_digits n (String.◌∷◌ c s) =
    let rest = parse_digits (n * 10 + (code c - 48)) s in
    if leb 48 (code c) && leb (code c) 57 then rest else none

abbrev at_most : ℕ → Option ℕ → Option ℕ
at_most limit none = none
at_most limit (some n) = if leb n limit then some n else none

-- `parse::<u16>` and its like: a sign `+` is allowed, a number above the limit is an error.
unfoldable pub parse_unsigned : ℕ → String → Option ℕ
unfolding parse_digits
parse_unsigned limit String.[] = none
parse_unsigned limit (String.◌∷◌ c String.[]) =
    at_most limit (if code c == b'+' then none else parse_digits 0 (String.◌∷◌ c String.[]))
parse_unsigned limit (String.◌∷◌ c (String.◌∷◌ d s)) = at_most limit (
    if code c == b'+'
    then parse_digits 0 (String.◌∷◌ d s)
    else parse_digits 0 (String.◌∷◌ c (String.◌∷◌ d s)))

at_most-le : (limit : ℕ) (o : Option ℕ) (n : ℕ) → at_most limit o ≡ some n → n ≤ limit
at_most-le limit none n h = cc
at_most-le limit (some m) n h = ground arith

-- A number that is read is within the limit of its type.
pub parse_unsigned-le :
    (limit : ℕ) (s : String) (n : ℕ) → parse_unsigned limit s ≡ some n → n ≤ limit
unfolding parse_unsigned
parse_unsigned-le limit String.[] n h = cc
parse_unsigned-le limit (String.◌∷◌ c String.[]) n h = at_most-le limit _ n h
parse_unsigned-le limit (String.◌∷◌ c (String.◌∷◌ d s)) n h = at_most-le limit _ n h

pub code-digit : (k : ℕ) → k < 10 → code (digit k) ≡ 48 + k
code-digit k h =
    (==_iff (code (digit k)) (48 + k)).0 (all_below-at 10 (λ j. code (digit j) == 48 + j) k refl h)

digits_value : (n k c : ℕ) → c ≡ 48 + k → n * 10 + (c - 48) ≡ n * 10 + k
digits_value n k c h = omega arith

parse_digits-digit :
    (n k : ℕ) (s : String)
    → k < 10
    → parse_digits n (String.◌∷◌ (digit k) s) ≡ parse_digits (n * 10 + k) s
unfolding parse_digits
parse_digits-digit n k s h = ground (
  arith,
  code-digit k h,
  ap (λ (m : ℕ). parse_digits m s) (digits_value n k (code (digit k)) (code-digit k h)),
)

parse_digits-show_digits :
    (fuel n : ℕ) (rest : String)
    → n < fuel
    → parse_digits 0 (show_digits fuel n rest) ≡ parse_digits n rest
unfolding show_digits
parse_digits-show_digits zero n rest h = absurd (omega arith)
parse_digits-show_digits (suc fuel) n rest h = elim (Bool-cases (ltb n 10)) [
  | inl last ↦ rw last (parse_digits-digit 0 (n % 10) rest (omega arith) ∙ ground (arith, last))
  | inr more ↦ rw more (
      parse_digits-show_digits fuel (n / 10) (String.◌∷◌ (digit (n % 10)) rest) (ground arith)
      ∙ parse_digits-digit (n / 10) (n % 10) rest (omega arith)
      ∙ ap (λ (m : ℕ). parse_digits m rest) (omega arith))
]

is_empty-show_digits :
    (fuel n : ℕ) (rest : String)
    → is_empty rest && fuel == 0 ≡ false
    → is_empty (show_digits fuel n rest) ≡ false
unfolding show_digits
is_empty-show_digits zero n rest h = ground arith
is_empty-show_digits (suc fuel) n rest h = elim (Bool-cases (ltb n 10)) [
  | inl last ↦ rw last refl
  | inr more ↦ rw more (is_empty-show_digits fuel (n / 10) (String.◌∷◌ (digit (n % 10)) rest) refl)
]

-- Digits begin with no sign.
parse_unsigned-digits :
    (limit n : ℕ) (s : String)
    → is_empty s ≡ false
    → parse_digits 0 s ≡ some n
    → parse_unsigned limit s ≡ at_most limit (some n)
unfolding parse_unsigned
parse_unsigned-digits limit n String.[] e h = cc
parse_unsigned-digits limit n (String.◌∷◌ c String.[]) e h = ground arith
parse_unsigned-digits limit n (String.◌∷◌ c (String.◌∷◌ d s)) e h = ground arith

-- A number within the limit is read back from what it is shown as.
pub parse_unsigned-show : (limit n : ℕ) → n ≤ limit → parse_unsigned limit (show_ℕ n) ≡ some n
unfolding show_ℕ
parse_unsigned-show limit n h =
    parse_unsigned-digits limit n (show_digits (n + 1) n "")
      (is_empty-show_digits (n + 1) n "" (ground arith))
      (parse_digits-show_digits (n + 1) n "" (omega arith) ∙ unfold parse_digits in refl)
    ∙ ground arith

module _ (p : Char → Bool) (plain : (k : ℕ) → k < 10 → p (digit k) ≡ false) where
  any_char-show_digits :
      (fuel n : ℕ) (rest : String)
      → any_char p rest ≡ false
      → any_char p (show_digits fuel n rest) ≡ false
  unfolding show_digits any_char
  any_char-show_digits zero n rest h = h
  any_char-show_digits (suc fuel) n rest h =
      ground
        (arith, shown, any_char-show_digits fuel (n / 10) (String.◌∷◌ (digit (n % 10)) rest) shown)
    where
      shown : any_char p (String.◌∷◌ (digit (n % 10)) rest) ≡ false
      shown = ground (arith, plain (n % 10) (omega arith), h)

  -- A number is shown with digits only.
  pub any_char-show : (n : ℕ) → any_char p (show_ℕ n) ≡ false
  unfolding show_ℕ
  any_char-show n = any_char-show_digits (n + 1) n "" (unfold any_char in refl)

-- A number is shown on one line.
pub has_break-show : (n : ℕ) → has_break (show_ℕ n) ≡ false
unfolding has_break
has_break-show = any_char-show _ λ k h. ground (arith, code-digit k h)

-- Two numbers that are shown alike are one.
pub show-same : (n m : ℕ) → show_ℕ n ≡ show_ℕ m → n ≡ m
show-same n m h =
    let first = parse_unsigned-show (n + m) n (omega arith) in
    let second = parse_unsigned-show (n + m) m (omega arith) in cc (first, second, h)
