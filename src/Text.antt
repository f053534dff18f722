-- ===== src/Text.antt =====
-- The methods of `str` that the program calls. White space is Unicode's; lower case is ASCII's, so
-- a text with other capital letters is outside this model.
pub mod Split
pub mod Number
use Prim.Native.Char.{Char, code}
use Prim.Native.String.{◌++◌}
use coverage_mcp.Prelude.{
  ℕ, zero, suc, ◌+◌, ◌/◌, ◌%◌, ◌≡◌, refl, is_some, String, Bool, true, false, ◌&&◌, ◌||◌, Option,
  none, some, ◌==◌, ltb, leb, if◌then◌else◌, List, [], ◌∷◌,
}
use coverage_mcp.Prelude.Int.{ℤ, pos, negsuc}

-- `char::is_whitespace`
unfoldable pub is_whitespace : Char → Bool
is_whitespace c =
    let n = code c in
    (leb 9 n && leb n 13)
    || n == 32
    || n == 133
    || n == 160
    || n == 5760
    || (leb 8192 n && leb n 8202)
    || n == 8232
    || n == 8233
    || n == 8239
    || n == 8287
    || n == 12288

abbrev pub is_empty : String → Bool
is_empty String.[] = true
is_empty (String.◌∷◌ _ _) = false

unfoldable pub trim_start : String → String
unfolding is_whitespace
trim_start String.[] = String.[]
trim_start (String.◌∷◌ c s) =
    let rest = trim_start s in if is_whitespace c then rest else String.◌∷◌ c s

abbrev keep_unless_blank : Char → String → String
keep_unless_blank c String.[] = if is_whitespace c then String.[] else String.◌∷◌ c String.[]
keep_unless_blank c (String.◌∷◌ d s) = String.◌∷◌ c (String.◌∷◌ d s)

unfoldable trim_end : String → String
unfolding is_whitespace
trim_end String.[] = String.[]
trim_end (String.◌∷◌ c s) = keep_unless_blank c (trim_end s)

unfoldable pub trim : String → String
unfolding trim_start trim_end
trim s = trim_end (trim_start s)

is_empty-keep_unless_blank :
    (c : Char) (s : String) → is_whitespace c ≡ false → is_empty (keep_unless_blank c s) ≡ false
is_empty-keep_unless_blank c String.[] h = rw h refl
is_empty-keep_unless_blank c (String.◌∷◌ d s) h = refl

-- A text that begins with a character other than white space is not blank.
pub is_empty-trim :
    (c : Char) (s : String) → is_whitespace c ≡ false → is_empty (trim (String.◌∷◌ c s)) ≡ false
unfolding trim trim_start trim_end
is_empty-trim c s h = rw h (is_empty-keep_unless_blank c (trim_end s) h)

-- a text in front of another, character by character
abbrev pub append : String → String → String
append String.[] more = more
append (String.◌∷◌ c s) more = String.◌∷◌ c (append s more)

-- whether a character passes the test
unfoldable pub any_char : (Char → Bool) → String → Bool
any_char p String.[] = false
any_char p (String.◌∷◌ c s) = p c || any_char p s

-- `chars().count()`
unfoldable pub char_count : String → ℕ
char_count String.[] = 0
char_count (String.◌∷◌ c s) = suc (char_count s)

-- `str::strip_prefix`
unfoldable pub strip_text : String → String → Option String
strip_text s String.[] = some s
strip_text String.[] (String.◌∷◌ c p) = none
strip_text (String.◌∷◌ d s) (String.◌∷◌ c p) =
    let rest = strip_text s p in if code d == code c then rest else none

-- `str::starts_with`
unfoldable pub starts_with : String → String → Bool
unfolding strip_text
starts_with s p = is_some (strip_text s p)

-- `str::contains`
unfoldable pub contains : String → String → Bool
unfolding starts_with
contains String.[] p = starts_with String.[] p
contains (String.◌∷◌ c s) p = starts_with (String.◌∷◌ c s) p || contains s p

-- the character that stands in the second text where `c` stands in the first
unfoldable translate : String → String → Char → Char
translate (String.◌∷◌ a from) (String.◌∷◌ b to) c =
    let rest = translate from to c in if code a == code c then b else rest
translate _ _ c = c

-- `to_lowercase` and `to_ascii_lowercase`
unfoldable pub to_lowercase : String → String
unfolding translate
to_lowercase String.[] = String.[]
to_lowercase (String.◌∷◌ c s) =
    String.◌∷◌ (translate "ABCDEFGHIJKLMNOPQRSTUVWXYZ" "abcdefghijklmnopqrstuvwxyz" c)
      (to_lowercase s)

abbrev pub char_at : String → ℕ → Char
char_at String.[] i = "?"
char_at (String.◌∷◌ c s) zero = c
char_at (String.◌∷◌ c s) (suc i) = char_at s i

abbrev pub digit : ℕ → Char
digit = char_at "0123456789"

-- `format!("{n}")` of an unsigned number: the digits of `n` in front of `rest`. The fuel `n + 1`
-- exceeds the number of digits.
unfoldable pub show_digits : ℕ → ℕ → String → String
show_digits zero n rest = rest
show_digits (suc fuel) n rest =
    let shown = String.◌∷◌ (digit (n % 10)) rest in
    let more = show_digits fuel (n / 10) shown in if ltb n 10 then shown else more

unfoldable pub show_ℕ : ℕ → String
unfolding show_digits
show_ℕ n = show_digits (n + 1) n ""

-- `format!("{n}")` of an `i64`
unfoldable pub show_ℤ : ℤ → String
unfolding show_ℕ
show_ℤ (pos n) = show_ℕ n
show_ℤ (negsuc n) = "-" ++ show_ℕ (n + 1)

show_ℤ_test : (show_ℤ (negsuc 119) ++ show_ℤ (pos 0)) ≡ "-1200"
unfolding show_ℤ
show_ℤ_test = refl

trim_test : to_lowercase (trim " \t Coverage.PY\n") ≡ "coverage.py"
unfolding trim to_lowercase
trim_test = refl

-- the pieces of a `format!` in a row
unfoldable pub concat : List String → String
concat [] = ""
concat (s ∷ ss) = append s (concat ss)
