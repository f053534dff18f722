-- ===== src/Parser/Select/Formats.antt =====
-- The formats that `parse_coverage_bytes` of src/parser.rs chooses, by name or by detection, and their parsers.
use coverage_mcp.Prelude.{
  ℕ, ◌≡◌, refl, sym, ◌⊎◌, inl, inr, String, Bool, true, false, ◌&&◌, ◌||◌, not, str_eq, Option,
  none, some, List, [], ◌∷◌, arith, Bool-cases, eq_iff, if◌then◌else◌,
}
use mathlib.Core.Path.{subst}
use coverage_mcp.Error.{AppError, AppResult, ok, err}
use coverage_mcp.Error.Ensures.{Ensures, Ensures-ok, Ensures-err, ensures_rules}
use coverage_mcp.Json.{Fields}
use coverage_mcp.Text.{trim, to_lowercase}
use coverage_mcp.Models.{CoverageReport}
use coverage_mcp.Models.Paths.{FileSystem}
use coverage_mcp.Parser.{Decoders}
use coverage_mcp.Parser.Lcov.{parse_lcov}
use coverage_mcp.Parser.CoveragePy.{parse_coveragepy_json}
use coverage_mcp.Parser.Cobertura.{parse_cobertura}
use coverage_mcp.Parser.Jacoco.{parse_jacoco}
use coverage_mcp.Parser.Istanbul.{parse_istanbul}
use coverage_mcp.Parser.Go.{parse_go}
use coverage_mcp.Parser.Llvm.{parse_llvm}
use coverage_mcp.Parser.Select.{
  is_one_of, unaliased, checked_format, normalize_format, json_format, xml_format, detect,
  detect_format, choose_format, parse_selected,
}

-- the names of the formats
abbrev parsed_formats : List String
parsed_formats = "lcov" ∷ "coveragepy" ∷ "cobertura" ∷ "jacoco" ∷ "istanbul" ∷ "go" ∷ "llvm" ∷ []

abbrev IsNamed : String → Type 0
IsNamed name = is_one_of name parsed_formats ≡ true

-- the test of `checked_format` for a name that is none of the aliases
plain_test :
    (auto lcov py cobertura jacoco istanbul go llvm : Bool)
    → (auto
          || (lcov
              || (false
                  || (py
                      || (cobertura
                          || (jacoco
                              || (istanbul
                                  || (false
                                      || (go
                                          || (false
                                              || (false || (llvm || (false || false)))))))))))))
        && not auto
      ≡ true
    → lcov || (py || (cobertura || (jacoco || (istanbul || (go || (llvm || false)))))) ≡ true
plain_test auto true py cobertura jacoco istanbul go llvm h = refl
plain_test auto false true cobertura jacoco istanbul go llvm h = refl
plain_test auto false false true jacoco istanbul go llvm h = refl
plain_test auto false false false true istanbul go llvm h = refl
plain_test auto false false false false true go llvm h = refl
plain_test auto false false false false false true llvm h = refl
plain_test auto false false false false false false true h = refl
plain_test true false false false false false false false h = h
plain_test false false false false false false false false h = h

or-false : (a b : Bool) → a || b ≡ false → (a ≡ false) × (b ≡ false)
or-false true b h = absurd (cc)
or-false false b h = (refl, h)

if_ok :
    (test : Bool) (x s : String) (e : AppError)
    → (if test then ok x else err e) ≡ ok s
    → (test ≡ true) × (x ≡ s)
if_ok true x s e h = (refl, cc)
if_ok false x s e h = absurd (cc)

-- a name that is none of the aliases
plain-IsNamed :
    (format x : String)
    → is_one_of x ("coverage.py" ∷ "coverage-json" ∷ "coveragepy-json" ∷ []) ≡ false
    → str_eq x "nyc" ≡ false
    → is_one_of x ("go-cover" ∷ "go-coverprofile" ∷ "coverprofile" ∷ []) ≡ false
    → str_eq x "llvm-json" ≡ false
    → Ensures IsNamed (checked_format format x)
plain-IsNamed format x py nyc go llvm = record {
  at = λ s h.
      let (test, same) = if_ok _ x s _ h in
      let no_py = or-false (str_eq x "coverage.py") _ py in
      let no_go = or-false (str_eq x "go-cover") _ go in
      subst IsNamed same (
        plain_test (str_eq x "auto") (str_eq x "lcov") (str_eq x "coveragepy")
          (str_eq x "cobertura") (str_eq x "jacoco") (str_eq x "istanbul") (str_eq x "go")
          (str_eq x "llvm")
          (rw (no_py.0, nyc, no_go.0, (or-false (str_eq x "go-coverprofile") _ no_go.1).0, llvm) at
            test));
}

checked_format-IsNamed : (format x : String) → Ensures IsNamed (checked_format format (unaliased x))
checked_format-IsNamed format x =
    elim (Bool-cases (is_one_of x ("coverage.py" ∷ "coverage-json" ∷ "coveragepy-json" ∷ []))) [
      | inl py ↦ rw py (Ensures-ok _ refl)
      | inr not_py ↦ rw not_py (elim (Bool-cases (str_eq x "nyc")) [
        | inl nyc ↦ rw nyc (Ensures-ok _ refl)
        | inr not_nyc ↦
            rw not_nyc
              (elim (Bool-cases
                (is_one_of x ("go-cover" ∷ "go-coverprofile" ∷ "coverprofile" ∷ []))) [
                  | inl go ↦ rw go (Ensures-ok _ refl)
                  | inr not_go ↦ rw not_go (elim (Bool-cases (str_eq x "llvm-json")) [
                    | inl llvm ↦ rw llvm (Ensures-ok _ refl)
                    | inr not_llvm ↦
                        rw not_llvm (plain-IsNamed format x not_py not_nyc not_go not_llvm)
                  ])
                ])
      ])
    ]

-- one of the names
OneOf : String → List String → Type 0
OneOf s [] = ⊥
OneOf s (name ∷ names) = (s ≡ name) ⊎ OneOf s names

one_of : (s : String) (names : List String) → is_one_of s names ≡ true → OneOf s names
unfolding OneOf
one_of s [] h = cc
one_of s (name ∷ names) h = elim (Bool-cases (str_eq s name)) [
  | inl same ↦ inl ((eq_iff s name).0 same)
  | inr other ↦ inr (one_of s names (ground (arith, h, other)))
]

Canonical : String → Type 0
Canonical s = normalize_format s ≡ ok s

Canonical-of_parsed : (s : String) → OneOf s parsed_formats → Canonical s
unfolding OneOf Canonical normalize_format trim to_lowercase
Canonical-of_parsed s (inl e) = subst Canonical (sym e) refl
Canonical-of_parsed s (inr (inl e)) = subst Canonical (sym e) refl
Canonical-of_parsed s (inr (inr (inl e))) = subst Canonical (sym e) refl
Canonical-of_parsed s (inr (inr (inr (inl e)))) = subst Canonical (sym e) refl
Canonical-of_parsed s (inr (inr (inr (inr (inl e))))) = subst Canonical (sym e) refl
Canonical-of_parsed s (inr (inr (inr (inr (inr (inl e)))))) = subst Canonical (sym e) refl
Canonical-of_parsed s (inr (inr (inr (inr (inr (inr (inl e))))))) = subst Canonical (sym e) refl
Canonical-of_parsed s (inr (inr (inr (inr (inr (inr (inr e))))))) = absurd e

-- What is chosen: by detection for the format `auto`, and by the name otherwise.
module _ (dec : Decoders) (path : String) (bytes : List ℕ) where
  json_format-IsNamed : (object : Option Fields) → Ensures IsNamed (json_format path object)
  unfolding json_format
  json_format-IsNamed none = Ensures-err _
  json_format-IsNamed (some object) = search (ensures_rules) depth 12

  xml_format-IsNamed : Ensures IsNamed (xml_format dec path bytes)
  unfolding xml_format
  xml_format-IsNamed = search (ensures_rules) depth 12

  detect-IsNamed : (dotted head : String) → Ensures IsNamed (detect dec path bytes dotted head)
  unfolding detect
  detect-IsNamed dotted head =
      search (ensures_rules, json_format-IsNamed, xml_format-IsNamed) depth 12

  choose_format-IsNamed : (format : String) → Ensures IsNamed (choose_format dec path bytes format)
  unfolding choose_format detect_format normalize_format
  choose_format-IsNamed format =
      search (ensures_rules, detect-IsNamed, checked_format-IsNamed) depth 12

-- a parser, given the path, the bytes and the repository
abbrev pub Reader : Type 0
Reader = String → List ℕ → Option String → AppResult CoverageReport

module _ (dec : Decoders) (fs : FileSystem) where
  abbrev pub parsers : List (String × Reader)
  parsers =
      ("lcov", parse_lcov dec fs)
      ∷ ("coveragepy", parse_coveragepy_json dec fs)
      ∷ ("cobertura", parse_cobertura dec fs)
      ∷ ("jacoco", parse_jacoco dec fs)
      ∷ ("istanbul", parse_istanbul dec fs)
      ∷ ("go", parse_go dec fs)
      ∷ ("llvm", parse_llvm dec fs)
      ∷ []

  -- what `parse_selected` does for a name
  abbrev pub Runs : String → Reader → Type 0
  Runs s reader =
      (path : String) (bytes : List ℕ) (repo : Option String)
      → parse_selected dec fs s path bytes repo ≡ reader path bytes repo

  -- The name is one of the list, and `parse_selected` runs the parser beside it.
  abbrev pub IsParsedBy : String → List (String × Reader) → Type 0
  IsParsedBy s [] = ⊥
  IsParsedBy s ((name, reader) ∷ rest) = ((s ≡ name) × Runs s reader) ⊎ IsParsedBy s rest

  selected : (s name : String) (reader : Reader) → s ≡ name → Runs name reader → Runs s reader
  selected s name reader e runs = subst (λ t. Runs t reader) (sym e) runs

  IsParsedBy-of_named : (s : String) → OneOf s parsed_formats → IsParsedBy s parsers
  unfolding OneOf parse_selected
  IsParsedBy-of_named s (inl e) = inl (e, selected s _ _ e λ path bytes repo. refl)
  IsParsedBy-of_named s (inr (inl e)) = inr (inl (e, selected s _ _ e λ path bytes repo. refl))
  IsParsedBy-of_named s (inr (inr (inl e))) =
      inr (inr (inl (e, selected s _ _ e λ path bytes repo. refl)))
  IsParsedBy-of_named s (inr (inr (inr (inl e)))) =
      inr (inr (inr (inl (e, selected s _ _ e λ path bytes repo. refl))))
  IsParsedBy-of_named s (inr (inr (inr (inr (inl e))))) =
      inr (inr (inr (inr (inl (e, selected s _ _ e λ path bytes repo. refl)))))
  IsParsedBy-of_named s (inr (inr (inr (inr (inr (inl e)))))) =
      inr (inr (inr (inr (inr (inl (e, selected s _ _ e λ path bytes repo. refl))))))
  IsParsedBy-of_named s (inr (inr (inr (inr (inr (inr (inl e))))))) =
      inr (inr (inr (inr (inr (inr (inl (e, selected s _ _ e λ path bytes repo. refl)))))))
  IsParsedBy-of_named s (inr (inr (inr (inr (inr (inr (inr e))))))) = absurd e

  -- Whatever format is chosen, by name, by an alias or by detection, is one of the seven names for
  -- which parse_selected, given any path, bytes and repository, runs the parser of that format,
  -- and is its own canonical name.
  pub choose_format-canonical :
      (path : String) (bytes : List ℕ) (format s : String)
      → choose_format dec path bytes format ≡ ok s
      → IsParsedBy s parsers × (normalize_format s ≡ ok s)
  choose_format-canonical path bytes format s chosen =
      let named =
        one_of s parsed_formats ((choose_format-IsNamed dec path bytes format).at s chosen) in
      (IsParsedBy-of_named s named, unfold Canonical in Canonical-of_parsed s named)
