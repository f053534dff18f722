-- ===== src/Parser/Number/Exact.antt =====
-- A number that is accepted is exactly the one in the report, and an `i64`.
use coverage_mcp.Prelude.{
  ℕ, suc, ◌+◌, ◌*◌, ◌/◌, ◌%◌, ◌^◌, ◌<◌, ◌≡◌, ◌↔◌, refl, ap, String, some, arith, true, ◌==◌, ==_iff,
}
use native.Mathlib.Nat.{
  div-add-mod', zero-div, div-lt_iff_lt-mul, div-le_of_le-mul, one-le-pow, mul-mod_left,
  mul-div_cancel, mul-lt-mul_of_pos_right, mul-le-mul_right,
}
use coverage_mcp.Prelude.Int.{ℤ, pos, negsuc, pos_part, neg_part, InI64, ◌-ℤ◌}
use coverage_mcp.Error.{ok}
use coverage_mcp.Error.Ensures.{Ensures, Ensures-ok, Ensures-err, Ensures-guard, Ensures-then}
use coverage_mcp.Parser.{Double, nan, infinite, finite, Decoded, decoded, failed, Decoders}
use coverage_mcp.Parser.Number.{
  in_i64_range, is_whole, truncated, numeric_i64, finite_value, parse_f64, safe_i64,
}

-- z = m / p
abbrev pub IsQuotient : ℤ → ℕ → ℤ → Type 0
IsQuotient m p z = pos_part m + neg_part z * p ≡ neg_part m + pos_part z * p

-- the value of a double is this integer
abbrev pub Equals : Double → ℤ → Type 0
Equals (finite m k) z = IsQuotient m (2 ^ k) z
Equals nan z = ⊥
Equals infinite z = ⊥

-- of a dividend with no remainder
quotient-times : (n p : ℕ) → (n % p == 0) ≡ true → n / p * p ≡ n
quotient-times n p h = omega (arith, div-add-mod' n p, (==_iff (n % p) 0).0 h)

truncated-IsQuotient : (m : ℤ) (p : ℕ) → is_whole m p ≡ true → IsQuotient m p (truncated m p)
unfolding ◌-ℤ◌
truncated-IsQuotient (pos n) p w = rw zero-div (ground (arith, quotient-times n p w))
truncated-IsQuotient (negsuc n) p w = rw zero-div (ground (arith, quotient-times (suc n) p w))

truncated-InI64 : (m : ℤ) (p : ℕ) → 0 < p → in_i64_range m p ≡ true → InI64 (truncated m p)
unfolding ◌-ℤ◌
truncated-InI64 (pos n) p h r =
    rw zero-div (ground (arith, (div-lt_iff_lt-mul {x = n} {y = 2 ^ 63} h).1))
truncated-InI64 (negsuc n) p h r =
    rw zero-div (ground (arith, div-le_of_le-mul p {m = suc n} {n = 2 ^ 63}))

numeric_i64-Equals :
    (dec : Decoders) (value : Double)
    → Ensures (λ z. Equals value z × InI64 z) (numeric_i64 dec value)
unfolding numeric_i64
numeric_i64-Equals dec nan = Ensures-err _
numeric_i64-Equals dec infinite = Ensures-err _
numeric_i64-Equals dec (finite m k) =
    Ensures-guard (in_i64_range m (2 ^ k)) _ _
      (λ r.
        Ensures-guard (is_whole m (2 ^ k)) _ _
          (λ w. Ensures-ok _ (
            truncated-IsQuotient m (2 ^ k) w,
            truncated-InI64 m (2 ^ k) (one-le-pow k 2 (omega arith)) r,
          ))
          (λ _. Ensures-err _))
      (λ _. Ensures-err _)

-- The converse: a quotient that is an `i64` is accepted, and is what the truncation gives.
module _ (p : ℕ) (positive : 0 < p) where
  not-IsQuotient_neg : (n a : ℕ) → IsQuotient (pos n) p (negsuc a) → ⊥
  not-IsQuotient_neg n a q = grind arith

  not-IsQuotient_pos : (n a : ℕ) → IsQuotient (negsuc n) p (pos a) → ⊥
  not-IsQuotient_pos n a q = grind arith

  product : (n a : ℕ) → IsQuotient (pos n) p (pos a) → n ≡ a * p
  product n a q = grind arith

  product_neg : (n a : ℕ) → IsQuotient (negsuc n) p (negsuc a) → suc n ≡ suc a * p
  product_neg n a q = grind arith

  range-IsQuotient : (m z : ℤ) → IsQuotient m p z → InI64 z → in_i64_range m p ≡ true
  range-IsQuotient (pos n) (pos a) q i =
      ground (arith, product n a q, mul-lt-mul_of_pos_right i.0 positive)
  range-IsQuotient (pos n) (negsuc a) q i = absurd (not-IsQuotient_neg n a q)
  range-IsQuotient (negsuc n) (pos a) q i = absurd (not-IsQuotient_pos n a q)
  range-IsQuotient (negsuc n) (negsuc a) q i =
      ground (arith, product_neg n a q, mul-le-mul_right p i.1)

  whole-IsQuotient : (m z : ℤ) → IsQuotient m p z → is_whole m p ≡ true
  whole-IsQuotient (pos n) (pos a) q = (==_iff (n % p) 0).1 (rw (product n a q) (mul-mod_left a p))
  whole-IsQuotient (pos n) (negsuc a) q = absurd (not-IsQuotient_neg n a q)
  whole-IsQuotient (negsuc n) (pos a) q = absurd (not-IsQuotient_pos n a q)
  whole-IsQuotient (negsuc n) (negsuc a) q =
      (==_iff (suc n % p) 0).1 (rw (product_neg n a q) (mul-mod_left (suc a) p))

  truncated_of-IsQuotient : (m z : ℤ) → IsQuotient m p z → truncated m p ≡ z
  unfolding ◌-ℤ◌
  truncated_of-IsQuotient (pos n) (pos a) q =
      rw (zero-div, product n a q, mul-div_cancel a positive) (ground arith)
  truncated_of-IsQuotient (pos n) (negsuc a) q = absurd (not-IsQuotient_neg n a q)
  truncated_of-IsQuotient (negsuc n) (pos a) q = absurd (not-IsQuotient_pos n a q)
  truncated_of-IsQuotient (negsuc n) (negsuc a) q =
      rw (zero-div, product_neg n a q, mul-div_cancel (suc a) positive) (ground arith)

numeric_i64-accepts :
    (dec : Decoders) (value : Double) (z : ℤ)
    → Equals value z
    → InI64 z
    → numeric_i64 dec value ≡ ok z
unfolding numeric_i64
numeric_i64-accepts dec nan z q i = absurd q
numeric_i64-accepts dec infinite z q i = absurd q
numeric_i64-accepts dec (finite m k) z q i =
    rw
      (
        range-IsQuotient (2 ^ k) (one-le-pow k 2 (omega arith)) m z q i,
        whole-IsQuotient (2 ^ k) (one-le-pow k 2 (omega arith)) m z q,
      )
      (ap ok (truncated_of-IsQuotient (2 ^ k) (one-le-pow k 2 (omega arith)) m z q))

-- what the text of a number is, once it is read
abbrev pub Reads : Decoders → String → ℤ → Type 0
Reads dec text z =
    (value : Double) × (dec.f64_of_text text ≡ decoded value) × Equals value z × InI64 z

finite_value-decoded :
    (dec : Decoders) (text : String) (d : Decoded Double)
    → Ensures (λ value. d ≡ decoded value) (finite_value dec text d)
unfolding finite_value
finite_value-decoded dec text (decoded (finite m k)) = Ensures-ok _ refl
finite_value-decoded dec text (decoded nan) = Ensures-err _
finite_value-decoded dec text (decoded infinite) = Ensures-err _
finite_value-decoded dec text (failed _) = Ensures-err _

pub safe_i64-Reads :
    (dec : Decoders) (text : String) → Ensures (Reads dec text) (safe_i64 dec (some text))
unfolding safe_i64 parse_f64
safe_i64-Reads dec text =
    Ensures-then _ _ (finite_value-decoded dec text (dec.f64_of_text text)) λ value read. record {
      at = λ z accepted.
          let (q, i) = (numeric_i64-Equals dec value).at z accepted in (value, read, q, i);
    }

Equals-finite :
    (dec : Decoders) (text : String) (value : Double) (z : ℤ)
    → Equals value z
    → finite_value dec text (decoded value) ≡ ok value
unfolding finite_value
Equals-finite dec text (finite m k) z q = refl
Equals-finite dec text nan z q = absurd q
Equals-finite dec text infinite z q = absurd q

safe_i64-accepts :
    (dec : Decoders) (text : String) (value : Double) (z : ℤ)
    → dec.f64_of_text text ≡ decoded value
    → Equals value z
    → InI64 z
    → safe_i64 dec (some text) ≡ ok z
unfolding safe_i64 parse_f64
safe_i64-accepts dec text value z read q i =
    rw (read, Equals-finite dec text value z q) (numeric_i64-accepts dec value z q i)

-- A text is accepted as a number exactly if it decodes to a finite double whose value is that
-- integer and the integer is an i64.
pub safe_i64-exact :
    (dec : Decoders) (text : String) (z : ℤ) → (safe_i64 dec (some text) ≡ ok z) ↔ Reads dec text z
safe_i64-exact dec text z =
    (λ h. (safe_i64-Reads dec text).at z h, λ r. safe_i64-accepts dec text r.0 z r.1 r.2 r.3)
