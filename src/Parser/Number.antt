-- ===== src/Parser/Number.antt =====
-- The numbers of a report in src/parser.rs: `value_i64`, `safe_i64`, `parse_f64`, `numeric_i64`.
pub mod Exact
use Prim.Native.String.{◌++◌}
use coverage_mcp.Prelude.{
  ℕ, suc, ◌*◌, ◌/◌, ◌%◌, ◌^◌, String, Bool, ◌&&◌, Option, none, some, ltb, leb, ◌==◌, if◌then◌else◌,
}
use coverage_mcp.Prelude.Int.{ℤ, pos, negsuc, pos_part, neg_part, ◌-ℤ◌}
use coverage_mcp.Error.{AppResult, ok, err, ◌>>=◌, ok_or}
use coverage_mcp.Json.{Value, null, bool, int, float, str, arr, obj}
use coverage_mcp.Parser.{
  Double, nan, infinite, finite, Decoded, decoded, failed, Decoders, parse_error,
}

-- (-2^63 .. 2^63).contains(m / p)
abbrev pub in_i64_range : ℤ → ℕ → Bool
in_i64_range m p = leb (neg_part m) (2 ^ 63 * p) && ltb (pos_part m) (2 ^ 63 * p)

-- the number of units of `m`, without its sign
abbrev pub magnitude : ℤ → ℕ
magnitude (pos n) = n
magnitude (negsuc n) = suc n

-- `(m / p).fract() == 0.0`
abbrev pub is_whole : ℤ → ℕ → Bool
is_whole m p = magnitude m % p == 0

-- `(m / p) as i64`
abbrev pub truncated : ℤ → ℕ → ℤ
truncated m p = pos (pos_part m / p) -ℤ pos (neg_part m / p)

module _ (dec : Decoders) where
  abbrev out_of_range : Double → AppResult ℤ
  out_of_range value =
      err
        (parse_error ("coverage number is outside the supported range: " ++ dec.text_of_f64 value))

  unfoldable pub numeric_i64 : Double → AppResult ℤ
  unfolding ◌-ℤ◌
  numeric_i64 (finite m k) =
      if in_i64_range m (2 ^ k)
      then if is_whole m (2 ^ k)
        then ok (truncated m (2 ^ k))
        else err
            (parse_error ("coverage number is not an integer: " ++ dec.text_of_f64 (finite m k)))
      else out_of_range (finite m k)
  numeric_i64 nan = out_of_range nan
  numeric_i64 infinite = out_of_range infinite

  -- what was read, if it is a finite number
  unfoldable pub finite_value : String → Decoded Double → AppResult Double
  finite_value text (decoded (finite m k)) = ok (finite m k)
  finite_value text (decoded value) =
      err (parse_error ("coverage number must be finite: " ++ dec.text_of_f64 value))
  finite_value text (failed _) = err (parse_error ("invalid coverage number: " ++ text))

  unfoldable pub parse_f64 : String → AppResult Double
  unfolding finite_value
  parse_f64 text = finite_value text (dec.f64_of_text text)

  unfoldable pub value_i64 : Value → AppResult ℤ
  unfolding numeric_i64 parse_f64
  value_i64 null = err (parse_error "coverage number must not be null")
  value_i64 (int z) = ok z
  value_i64 (float text) = elim (dec.f64_of_text text) [
    | decoded value ↦ numeric_i64 value
    | failed _ ↦ err (parse_error "coverage number is not an integer")
  ]
  value_i64 (str text) = parse_f64 text >>= numeric_i64
  value_i64 (bool _) = err (parse_error "coverage number must be numeric")
  value_i64 (arr _) = err (parse_error "coverage number must be numeric")
  value_i64 (obj _) = err (parse_error "coverage number must be numeric")

  unfoldable pub safe_i64 : Option String → AppResult ℤ
  unfolding numeric_i64 parse_f64
  safe_i64 value = do
    text ← ok_or value (parse_error "coverage number is missing")
    number ← parse_f64 text
    numeric_i64 number
