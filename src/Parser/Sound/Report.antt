-- ===== src/Parser/Sound/Report.antt =====
-- What `parse_coverage_bytes` of src/parser.rs returns, whatever the format.
use coverage_mcp.Prelude.{
  ℕ, String, ◌≡◌, refl, Option, List, All, is_nil, not, Bool-cases, inl, inr,
}
use coverage_mcp.Prelude.Int.{ℤ}
use coverage_mcp.Order.{text_ord, int_ord, pair_ord}
use coverage_mcp.BTree.{BTreeMap, values}
use coverage_mcp.BTree.Laws.{IsSorted}
use coverage_mcp.Error.{ok, ok_or}
use coverage_mcp.Error.Ensures.{
  Ensures, Ensures-ok, Ensures-bind, Ensures-then, Ensures-check, ensures_rules,
}
use coverage_mcp.Json.{Value, as_object, pairs, index, lookup}
use coverage_mcp.Text.Split.{lines}
use coverage_mcp.Parser.Xml.{parse_xml}
use coverage_mcp.Models.{LineCoverage, CoverageReport}
use coverage_mcp.Models.Paths.{FileSystem}
use coverage_mcp.Models.Builder.{CoverageBuilder}
use coverage_mcp.Models.Build.{build}
use coverage_mcp.Models.Valid.{IsEntry, IsValid}
use coverage_mcp.Parser.{Decoders, parse_error, utf8_text, json_value}
use coverage_mcp.Parser.Cobertura.{parse_cobertura}
use coverage_mcp.Parser.CoveragePy.{parse_coveragepy_json}
use coverage_mcp.Parser.Go.{is_mode, parse_go}
use coverage_mcp.Parser.Istanbul.{looks_like_istanbul, parse_istanbul}
use coverage_mcp.Parser.Jacoco.{parse_jacoco}
use coverage_mcp.Parser.Lcov.{warn_if_empty, parse_lcov}
use coverage_mcp.Parser.Llvm.{array_or, parse_llvm}
use coverage_mcp.Parser.Select.{parse_selected, parse_coverage_bytes}
use coverage_mcp.Parser.Sound.Go.{go_lines-Keeps}
use coverage_mcp.Parser.Sound.Istanbul.{istanbul_files-Keeps}
use coverage_mcp.Parser.Sound.Lcov.{lcov_lines-Keeps}
use coverage_mcp.Parser.Sound.Llvm.{units-Keeps}
use coverage_mcp.Parser.Sound.Python.{python_files-Keeps}
use coverage_mcp.Parser.Sound.Xml.{classes-Keeps, packages-Keeps}

-- The lines stand in the order of path and line number, one for each, and each is an entry: under
-- its own path, on a positive line, with numbers that fit together.
pub record IsParsed (report : CoverageReport) : Type 0 where
  pub rows : BTreeMap (String × ℤ) LineCoverage
  pub same : report.lines ≡ values rows
  pub sorted : IsSorted rows
  pub entries : All IsEntry rows

module _ (dec : Decoders) (fs : FileSystem) (path : String) (bytes : List ℕ)
    (repo : Option String) where
  build-IsParsed :
      (b : CoverageBuilder) (format : String) (warnings : List String) (metadata : Value)
      → IsValid fs b
      → IsParsed (build b format path warnings metadata)
  unfolding build
  build-IsParsed b format warnings metadata v = record {
    rows = b.lines;
    same = refl;
    sorted = v.sorted;
    entries = v.entries;
  }

  warn_if_empty-IsParsed : (r : CoverageReport) → IsParsed r → IsParsed (warn_if_empty r)
  warn_if_empty-IsParsed r p = elim (Bool-cases (is_nil r.lines)) [
    | inl none_there ↦
        rw none_there
          (record { rows = p.rows; same = p.same; sorted = p.sorted; entries = p.entries })
    | inr some_there ↦ rw some_there p
  ]

  parse_lcov-IsParsed : Ensures IsParsed (parse_lcov dec fs path bytes repo)
  unfolding parse_lcov
  parse_lcov-IsParsed = Ensures-bind (utf8_text dec bytes) _ λ text.
      Ensures-then _ _ (lcov_lines-Keeps dec fs repo _)
        λ s v. Ensures-ok _ (warn_if_empty-IsParsed _ (build-IsParsed s.builder _ _ _ v))

  parse_go-IsParsed : Ensures IsParsed (parse_go dec fs path bytes repo)
  unfolding parse_go
  parse_go-IsParsed = Ensures-bind (utf8_text dec bytes) _ λ text.
      Ensures-check (not (is_mode dec fs (lines text))) _ _ λ _.
        Ensures-then _ _ (go_lines-Keeps dec fs repo _)
          λ b v. Ensures-ok _ (build-IsParsed b _ _ _ v)

  parse_coveragepy_json-IsParsed : Ensures IsParsed (parse_coveragepy_json dec fs path bytes repo)
  unfolding parse_coveragepy_json
  parse_coveragepy_json-IsParsed = Ensures-bind (json_value dec bytes) _ λ document.
      Ensures-bind
        (ok_or (as_object (index document "files"))
          (parse_error "coverage.py JSON report must contain a 'files' object"))
        _
        λ files.
          Ensures-then _ _ (python_files-Keeps dec fs repo (pairs files))
            λ b v. Ensures-ok _ (build-IsParsed b _ _ _ v)

  parse_cobertura-IsParsed : Ensures IsParsed (parse_cobertura dec fs path bytes repo)
  unfolding parse_cobertura
  parse_cobertura-IsParsed = Ensures-bind (parse_xml dec path bytes) _ λ root.
      Ensures-then _ _ (classes-Keeps dec fs repo _) λ b v. Ensures-ok _ (build-IsParsed b _ _ _ v)

  parse_jacoco-IsParsed : Ensures IsParsed (parse_jacoco dec fs path bytes repo)
  unfolding parse_jacoco
  parse_jacoco-IsParsed = Ensures-bind (parse_xml dec path bytes) _ λ root.
      Ensures-then _ _ (packages-Keeps dec fs repo _) λ b v. Ensures-ok _ (build-IsParsed b _ _ _ v)

  parse_istanbul-IsParsed : Ensures IsParsed (parse_istanbul dec fs path bytes repo)
  unfolding parse_istanbul
  parse_istanbul-IsParsed = Ensures-bind (json_value dec bytes) _ λ document.
      Ensures-bind (ok_or (as_object document) (parse_error "Istanbul JSON must be an object")) _
        λ object. Ensures-check (not (looks_like_istanbul object)) _ _ λ _.
          Ensures-then _ _ (istanbul_files-Keeps dec fs repo (pairs object))
            λ b v. Ensures-ok _ (build-IsParsed b _ _ _ v)

  parse_llvm-IsParsed : Ensures IsParsed (parse_llvm dec fs path bytes repo)
  unfolding parse_llvm
  parse_llvm-IsParsed = Ensures-bind (json_value dec bytes) _ λ document.
      Ensures-bind (array_or (lookup document "data") "LLVM JSON must contain a data array") _
        λ units.
          Ensures-then _ _ (units-Keeps dec fs repo units)
            λ b v. Ensures-ok _ (build-IsParsed b _ _ _ v)

  parse_selected-IsParsed :
      (selected : String) → Ensures IsParsed (parse_selected dec fs selected path bytes repo)
  unfolding parse_selected
  parse_selected-IsParsed selected =
      search
        (
          ensures_rules, parse_lcov-IsParsed, parse_coveragepy_json-IsParsed,
          parse_cobertura-IsParsed, parse_jacoco-IsParsed, parse_istanbul-IsParsed,
          parse_go-IsParsed, parse_llvm-IsParsed,
        )
        depth 12

  parse_coverage_bytes-Ensures :
      (format : String) → Ensures IsParsed (parse_coverage_bytes dec fs path bytes format repo)
  unfolding parse_coverage_bytes
  parse_coverage_bytes-Ensures format = search (ensures_rules, parse_selected-IsParsed) depth 12

  -- Whatever the bytes, the format and what the decoders make of them: if a report is parsed, its
  -- lines stand in the order of path and line number, one for each; each stands on a positive line
  -- with hits that are not negative, and a line that is not counted has no hits and no covered
  -- mark.
  pub parse_coverage_bytes-IsParsed :
      (format : String) (report : CoverageReport)
      → parse_coverage_bytes dec fs path bytes format repo ≡ ok report
      → IsParsed report
  parse_coverage_bytes-IsParsed format report parsed =
      (parse_coverage_bytes-Ensures format).at report parsed
