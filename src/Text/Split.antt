-- ===== src/Text/Split.antt =====
-- The methods of `str` that cut a text: `split_once`, `rsplit_once`, `split`, `split_whitespace`,
-- `lines`, `trim_matches`.
use Prim.Native.Char.{Char, code}
use coverage_mcp.Prelude.{
  ℕ, ◌≡◌, refl, String, Bool, true, false, not, ◌&&◌, ◌||◌, Option, ap, arith, none, some, ◌==◌,
  if◌then◌else◌, List, [], ◌∷◌, filter,
}
use coverage_mcp.Text.{is_whitespace, is_empty, append, any_char}

-- a character in front of the first part
abbrev onto_first : Char → Option (String × String) → Option (String × String)
onto_first c none = none
onto_first c (some (a, b)) = some (String.◌∷◌ c a, b)

unfoldable pub split_once : ℕ → String → Option (String × String)
split_once sep String.[] = none
split_once sep (String.◌∷◌ c s) =
    let rest = onto_first c (split_once sep s) in if code c == sep then some ("", s) else rest

-- the last separator: one of the rest, or else this character
abbrev last_cut : ℕ → Char → String → Option (String × String) → Option (String × String)
last_cut sep c s (some (a, b)) = some (String.◌∷◌ c a, b)
last_cut sep c s none = if code c == sep then some ("", s) else none

unfoldable pub rsplit_once : ℕ → String → Option (String × String)
rsplit_once sep String.[] = none
rsplit_once sep (String.◌∷◌ c s) = last_cut sep c s (rsplit_once sep s)

abbrev pub onto_head : Char → List String → List String
onto_head c [] = String.◌∷◌ c "" ∷ []
onto_head c (s ∷ ss) = String.◌∷◌ c s ∷ ss

unfoldable pub split_by : (Char → Bool) → String → List String
split_by sep String.[] = "" ∷ []
split_by sep (String.◌∷◌ c s) =
    let rest = split_by sep s in if sep c then "" ∷ rest else onto_head c rest

unfoldable pub split : ℕ → String → List String
unfolding split_by
split sep = split_by (λ c. code c == sep)

unfoldable pub split_whitespace : String → List String
unfolding split_by is_whitespace
split_whitespace s = filter (λ part. not (is_empty part)) (split_by is_whitespace s)

abbrev starts_newline : String → Bool
starts_newline String.[] = false
starts_newline (String.◌∷◌ c _) = code c == b'\n'

-- A line ends with a line feed, or with a carriage return and a line feed, or with the text.
unfoldable pub lines : String → List String
lines String.[] = []
lines (String.◌∷◌ c s) =
    let rest = lines s in
    if code c == b'\n'
    then "" ∷ rest
    else if code c == 13 && starts_newline s
    then rest
    else onto_head c rest

-- Whether a text has a line feed or a carriage return.
unfoldable pub has_break : String → Bool
unfolding any_char
has_break = any_char (λ c. code c == b'\n' || code c == 13)

has_break-head :
    (c : Char) (s : String)
    → has_break (String.◌∷◌ c s) ≡ false
    → (code c == b'\n' ≡ false) × ((code c == 13 ≡ false) × (has_break s ≡ false))
unfolding has_break any_char
has_break-head c s h = ground arith

-- A text with no break in front of a line feed is a line.
pub lines-append :
    (s rest : String)
    → has_break s ≡ false
    → lines (append s (String.◌∷◌ "\n" rest)) ≡ s ∷ lines rest
unfolding lines
lines-append String.[] rest h = refl
lines-append (String.◌∷◌ c s) rest h =
    let plain = has_break-head c s h in
    rw plain.0 (rw plain.1.0 (ap (onto_head c) (lines-append s rest plain.1.1)))

-- Before a text with no separator comes nothing: it is the part before the first one.
pub split_once-append :
    (sep : ℕ) (s : String) (c : Char) (rest : String)
    → any_char (λ d. code d == sep) s ≡ false
    → code c == sep ≡ true
    → split_once sep (append s (String.◌∷◌ c rest)) ≡ some (s, rest)
unfolding split_once any_char
split_once-append sep String.[] c rest h k = rw k refl
split_once-append sep (String.◌∷◌ d s) c rest h k =
    let later = split_once-append sep s c rest (ground (arith, h)) k in
    let here : code d == sep ≡ false = ground (arith, h) in rw here (ap (onto_first d) later)

unfoldable pub trim_start_matches : (Char → Bool) → String → String
trim_start_matches p String.[] = String.[]
trim_start_matches p (String.◌∷◌ c s) =
    let rest = trim_start_matches p s in if p c then rest else String.◌∷◌ c s

abbrev keep_unless : (Char → Bool) → Char → String → String
keep_unless p c String.[] = if p c then String.[] else String.◌∷◌ c String.[]
keep_unless p c (String.◌∷◌ d s) = String.◌∷◌ c (String.◌∷◌ d s)

unfoldable pub trim_end_matches : (Char → Bool) → String → String
trim_end_matches p String.[] = String.[]
trim_end_matches p (String.◌∷◌ c s) = keep_unless p c (trim_end_matches p s)

unfoldable pub trim_matches : (Char → Bool) → String → String
unfolding trim_start_matches trim_end_matches
trim_matches p s = trim_end_matches p (trim_start_matches p s)

lines_test : lines "TN:\r\nSF:a\n\nend\r" ≡ "TN:" ∷ "SF:a" ∷ "" ∷ "end\r" ∷ []
unfolding lines
lines_test = refl

split_test : split_whitespace " a.go:1.2,3.4  1 0" ≡ "a.go:1.2,3.4" ∷ "1" ∷ "0" ∷ []
unfolding split_whitespace
split_test = refl

rsplit_once_test : rsplit_once b':' "c:/a.go:7" ≡ some ("c:/a.go", "7")
unfolding rsplit_once
rsplit_once_test = refl
