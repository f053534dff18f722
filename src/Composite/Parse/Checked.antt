-- ===== src/Composite/Parse/Checked.antt =====
-- What the checks that the parsers of src/composite.rs share let pass.
use mathlib.Core.Path.{subst}
use coverage_mcp.Prelude.{
  ◌≡◌, inl, inr, true, false, not, ◌||◌, Bool-cases, String, Option, none, some, any, str_eq, ◌==◌,
  arith,
}
use coverage_mcp.Prelude.Int.{pos, ◌≤ℤ◌, ltb_ℤ}
use coverage_mcp.Order.{text_ord, int_ord, pair_ord}
use coverage_mcp.Error.{ok_or}
use coverage_mcp.Error.Ensures.{
  Ensures, Ensures-ok, Ensures-ok_or, Ensures-bind, Ensures-check, Ensures-reject_if,
}
use coverage_mcp.Json.{Value, Fields, as_str, get_field}
use coverage_mcp.Models.Paths.{is_absolute}
use coverage_mcp.Text.{is_empty, char_count, trim}
use coverage_mcp.Text.Split.{split}
use coverage_mcp.Composite.Parse.{
  trimmed, nonblank, integer_of, required_object_string, positive_integer, validate_inventory_path,
  validate_sha256, all_hexdigits,
}

-- The path stays inside the repository.
abbrev pub IsRelative : String → Type 0
IsRelative path =
    (is_absolute path ≡ false) × (any (λ part. str_eq part "..") (split b'/' path) ≡ false)

-- 64 hexadecimal digits
abbrev pub IsHash : String → Type 0
IsHash text = (char_count text ≡ 64) × (all_hexdigits text ≡ true)

nonblank-named :
    (o : Option String) (text : String) → nonblank o ≡ some text → is_empty text ≡ false
nonblank-named none text h = cc
nonblank-named (some s) text h = elim (Bool-cases (is_empty (trim s))) [
  | inl blank ↦ let refused = rw blank at h in cc
  | inr filled ↦
      let found = rw filled at h in
      let same : trim s ≡ text = cc in subst (λ t. is_empty t ≡ false) same filled
]

trimmed-named : (v : Option Value) (text : String) → trimmed v ≡ some text → is_empty text ≡ false
unfolding trimmed
trimmed-named none text h = cc
trimmed-named (some v) text h = nonblank-named (as_str v) text h

pub required_object_string-filled :
    (object : Fields) (key context : String)
    → Ensures (λ text. is_empty text ≡ false) (required_object_string object key context)
unfolding required_object_string
required_object_string-filled object key context =
    Ensures-ok_or (trimmed (get_field object key)) _ (trimmed-named (get_field object key))

pub positive_integer-positive :
    (v : Option Value) (context : String) → Ensures (λ z. pos 1 ≤ℤ z) (positive_integer v context)
unfolding positive_integer
positive_integer-positive v context =
    Ensures-bind (ok_or (integer_of v) _) _
      λ z. Ensures-check (ltb_ℤ z (pos 1)) _ _ λ h. Ensures-ok z (ground (arith, h))

pub validate_inventory_path-IsRelative :
    (path : String) → Ensures (λ _. IsRelative path) (validate_inventory_path path)
unfolding validate_inventory_path
validate_inventory_path-IsRelative path = record {
  at = λ u h.
      let passed =
        (Ensures-reject_if (is_absolute path || any (λ part. str_eq part "..") (split b'/' path))
            _).at
          u h in
      (ground (arith, passed), ground (arith, passed));
}

pub validate_sha256-IsHash :
    (text context : String) → Ensures (λ _. IsHash text) (validate_sha256 text context)
unfolding validate_sha256
validate_sha256-IsHash text context = record {
  at = λ u h.
      let passed =
        (Ensures-reject_if (not (char_count text == 64) || not (all_hexdigits text)) _).at u h in
      (ground (arith, passed), ground (arith, passed));
}
