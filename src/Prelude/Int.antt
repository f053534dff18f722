-- ===== src/Prelude/Int.antt =====
-- Signed integers over the native numbers, and the wrap-around of `i64`.
use Prim.Native.Nat.{ℕ, suc, ◌+◌, ◌-◌, ◌%◌, ◌^◌, ◌≤◌, ◌<◌}
use mathlib.Core.Path.{◌≡◌, ap, sym, ◌∙◌}
use mathlib.Core.Bool.{Bool, true}
use native.Mathlib.Omega.{arith}
use coverage_mcp.Prelude.Tests.{ltb, leb, ◌==◌, if◌then◌else◌}

-- `negsuc n` is -(n + 1).
pub data ℤ : Type 0 where
  pos : ℕ → ℤ
  negsuc : ℕ → ℤ

abbrev pub pos_part : ℤ → ℕ
pos_part (pos n) = n
pos_part (negsuc n) = 0

abbrev pub neg_part : ℤ → ℕ
neg_part (pos n) = 0
neg_part (negsuc n) = suc n

-- a - b, as an integer.
abbrev sub_ℕ : ℕ → ℕ → ℤ
sub_ℕ a b = if leb b a then pos (a - b) else negsuc (b - a - 1)

infixl 65 ◌+ℤ◌ ◌-ℤ◌
infix 50 ◌≤ℤ◌ ◌<ℤ◌
unfoldable pub ◌+ℤ◌ : ℤ → ℤ → ℤ
a +ℤ b = sub_ℕ (pos_part a + pos_part b) (neg_part a + neg_part b)

unfoldable pub ◌-ℤ◌ : ℤ → ℤ → ℤ
a -ℤ b = sub_ℕ (pos_part a + neg_part b) (neg_part a + pos_part b)

abbrev pub ◌≤ℤ◌ : ℤ → ℤ → Type 0
a ≤ℤ b = pos_part a + neg_part b ≤ pos_part b + neg_part a

abbrev pub ◌<ℤ◌ : ℤ → ℤ → Type 0
a <ℤ b = pos_part a + neg_part b < pos_part b + neg_part a

abbrev pub ltb_ℤ : ℤ → ℤ → Bool
ltb_ℤ a b = ltb (pos_part a + neg_part b) (pos_part b + neg_part a)

abbrev pub leb_ℤ : ℤ → ℤ → Bool
leb_ℤ a b = leb (pos_part a + neg_part b) (pos_part b + neg_part a)

abbrev pub eqb_ℤ : ℤ → ℤ → Bool
eqb_ℤ a b = pos_part a + neg_part b == pos_part b + neg_part a

-- `i64::max`
abbrev pub max_ℤ : ℤ → ℤ → ℤ
max_ℤ a b = if leb_ℤ a b then b else a

pub +ℤ_parts :
    (a b : ℤ)
    → pos_part (a +ℤ b) + neg_part a + neg_part b ≡ neg_part (a +ℤ b) + pos_part a + pos_part b
unfolding ◌+ℤ◌
+ℤ_parts a b = ground arith

pub -ℤ_parts :
    (a b : ℤ)
    → pos_part (a -ℤ b) + neg_part a + pos_part b ≡ neg_part (a -ℤ b) + pos_part a + neg_part b
unfolding ◌-ℤ◌
-ℤ_parts a b = ground arith

pub eq_of_parts : (a b : ℤ) → pos_part a + neg_part b ≡ pos_part b + neg_part a → a ≡ b
eq_of_parts a b h = ground arith

pub ruleset int_laws = (arith, +ℤ_parts, -ℤ_parts, eq_of_parts)

+ℤ_comm : (a b : ℤ) → a +ℤ b ≡ b +ℤ a
+ℤ_comm a b = omega int_laws

abbrev i64_mod : ℕ
i64_mod = 2 ^ 64

-- The bit pattern of an integer: its residue modulo 2^64.
abbrev bits : ℤ → ℕ
bits (pos n) = n % 2 ^ 64
bits (negsuc n) = 2 ^ 64 - 1 - n % 2 ^ 64

-- The two's complement reading of a bit pattern.
abbrev signed : ℕ → ℤ
signed r = if ltb r (2 ^ 63) then pos r else negsuc (2 ^ 64 - 1 - r)

-- `i64` arithmetic of a release build, which wraps around.
unfoldable pub wrap : ℤ → ℤ
wrap a = signed (bits a)

infixl 65 ◌+i64◌ ◌-i64◌
unfoldable pub ◌+i64◌ : ℤ → ℤ → ℤ
unfolding wrap ◌+ℤ◌
a +i64 b = wrap (a +ℤ b)

unfoldable pub ◌-i64◌ : ℤ → ℤ → ℤ
unfolding wrap ◌-ℤ◌
a -i64 b = wrap (a -ℤ b)

-- The values of `i64`.
abbrev pub InI64 : ℤ → Type 0
InI64 a = (pos_part a < 2 ^ 63) × (neg_part a ≤ 2 ^ 63)

pub wrap_of_InI64 : (a : ℤ) → InI64 a → wrap a ≡ a
unfolding wrap
wrap_of_InI64 a h = ground arith

wrap-InI64 : (a : ℤ) → InI64 (wrap a)
unfolding wrap
wrap-InI64 a = ground arith

pub +i64_comm : (a b : ℤ) → a +i64 b ≡ b +i64 a
unfolding ◌+i64◌
+i64_comm a b = ground (arith, +ℤ_comm a b)

bits-lt : (a : ℤ) → bits a < 2 ^ 64
bits-lt (pos n) = omega arith
bits-lt (negsuc n) = omega arith

bits-add : (a b : ℤ) → bits (a +ℤ b) ≡ (bits a + bits b) % 2 ^ 64
unfolding ◌+ℤ◌
bits-add (pos m) (pos n) = ground arith
bits-add (pos m) (negsuc n) = ground arith
bits-add (negsuc m) (pos n) = ground arith
bits-add (negsuc m) (negsuc n) = ground arith

bits-signed : (r : ℕ) → r < 2 ^ 64 → bits (signed r) ≡ r
bits-signed r h = ground arith

bits-wrap : (a : ℤ) → bits (wrap a) ≡ bits a
unfolding wrap
bits-wrap a = bits-signed (bits a) (bits-lt a)

+i64-eq-signed : (a b : ℤ) → a +i64 b ≡ signed ((bits a + bits b) % 2 ^ 64)
unfolding ◌+i64◌
+i64-eq-signed a b = ap signed (bits-add a b)

bits-add_i64 : (a b : ℤ) → bits (a +i64 b) ≡ (bits a + bits b) % 2 ^ 64
bits-add_i64 a b = rw (+i64-eq-signed a b) (bits-signed ((bits a + bits b) % 2 ^ 64) (omega arith))

pub +i64_assoc : (a b c : ℤ) → (a +i64 b) +i64 c ≡ a +i64 (b +i64 c)
+i64_assoc a b c =
    +i64-eq-signed (a +i64 b) c ∙ (ap signed same_bits ∙ sym (+i64-eq-signed a (b +i64 c)))
  where
    same_bits : (bits (a +i64 b) + bits c) % 2 ^ 64 ≡ (bits a + bits (b +i64 c)) % 2 ^ 64
    same_bits = omega (arith, bits-add_i64 a b, bits-add_i64 b c)

-- A sum that stays in range does not wrap around.
pub pos-+i64 : (a b : ℕ) → a + b < 2 ^ 63 → pos a +i64 pos b ≡ pos (a + b)
unfolding ◌+i64◌
pos-+i64 a b h =
    wrap_of_InI64 (pos a +ℤ pos b) (unfold ◌+ℤ◌ in ground arith) ∙ (unfold ◌+ℤ◌ in ground arith)

pub eqb-eq : (a b : ℤ) → eqb_ℤ a b ≡ true → b ≡ a
eqb-eq a b h = ground arith
