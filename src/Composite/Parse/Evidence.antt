-- ===== src/Composite/Parse/Evidence.antt =====
-- What the regions are that `derive_standard_regions` of src/composite.rs derives.
use coverage_mcp.Prelude.{
  ℕ, String, ◌≡◌, sym, Bool, true, false, Option, some, List, [], ◌∷◌, All, All-append, All-filter,
  map, filter, str_eq, not, ltb, arith,
}
use mathlib.Core.Path.{subst}
use coverage_mcp.Prelude.Int.{ℤ, pos, ◌≤ℤ◌, ltb_ℤ}
use coverage_mcp.BTree.{BTreeMap, values}
use coverage_mcp.Error.{AppResult, ok, validation, ok_or, ◌>>=◌}
use coverage_mcp.Error.Ensures.{
  Ensures, Ensures-ok, Ensures-bind, Ensures-then, Ensures-check, Ensures-map, Ensures-if,
}
use coverage_mcp.Json.{Value, Fields, as_object, get_field, pairs, lookup}
use coverage_mcp.Models.{LineCoverage}
use coverage_mcp.Models.Paths.{FileSystem, normalize_report_path}
use coverage_mcp.Models.Valid.{IsEntry}
use coverage_mcp.Parser.{Decoders}
use coverage_mcp.Parser.Lcov.{one_if}
use coverage_mcp.Parser.Select.{
  Files, max_coverage_report_bytes, parse_coverage_report, read_report_bytes,
}
use coverage_mcp.Parser.Sound.Report.{IsParsed, parse_coverage_bytes-IsParsed}
use coverage_mcp.Composite.{CanonicalRegion}
use coverage_mcp.Composite.Parse.{artifact_value, array_at}
use coverage_mcp.Composite.Parse.Derive.{
  object_at, count_of, flatten, integer_array, position_line, python_region, line_region,
  python_file, derive_coveragepy_regions, statement_region, istanbul_file, derive_istanbul_regions,
  derive_standard_regions,
}
use coverage_mcp.Composite.Parse.Checked.{positive_integer-positive}

pub record IsEvidence (r : CanonicalRegion) : Type 0 where
  pub first : pos 1 ≤ℤ r.start_line
  pub last : pos 1 ≤ℤ r.end_line
  pub counted : pos 0 ≤ℤ r.hits

abbrev DerivesEvidence : AppResult (List CanonicalRegion) → Type 0
DerivesEvidence = Ensures (All IsEvidence)

flatten-All :
    (parts : List (List CanonicalRegion))
    → All (All IsEvidence) parts
    → All IsEvidence (flatten parts)
flatten-All [] h = tt
flatten-All (part ∷ parts) h =
    All-append IsEvidence part (flatten parts) h.0 (flatten-All parts h.1)

integer_array-All :
    (v : Option Value) (context : String)
    → Ensures (All (λ z. pos 1 ≤ℤ z)) (integer_array v context)
unfolding integer_array
integer_array-All v context =
    Ensures-bind (ok_or (array_at v) _) _
      λ values. Ensures-map _ _ values λ w. positive_integer-positive (some w) context

position_line-positive :
    (v : Option Value) (context : String) → Ensures (λ z. pos 1 ≤ℤ z) (position_line v context)
unfolding position_line
position_line-positive v context =
    Ensures-bind (ok_or (object_at v) _) _
      λ object. positive_integer-positive (get_field object "line") context

python_regions-All :
    (path : String) (covered : Bool) (lines : List ℤ)
    → All (λ z. pos 1 ≤ℤ z) lines
    → All IsEvidence (map (python_region path covered) lines)
unfolding python_region
python_regions-All path covered [] h = tt
python_regions-All path covered (line ∷ lines) h = (
  record { first = h.0; last = h.0; counted = one covered },
  python_regions-All path covered lines h.1,
)
  where
    one : (b : Bool) → pos 0 ≤ℤ one_if b
    one true = ground arith
    one false = ground arith

abbrev IsMeasured : LineCoverage → Type 0
IsMeasured line = (pos 1 ≤ℤ line.line_number) × (pos 0 ≤ℤ line.hits)

values-IsMeasured :
    (rows : BTreeMap (String × ℤ) LineCoverage) → All IsEntry rows → All IsMeasured (values rows)
values-IsMeasured [] h = tt
values-IsMeasured ((k, line) ∷ rows) h = ((positive, h.0.row.nonneg), values-IsMeasured rows h.1)
  where
    positive : pos 1 ≤ℤ line.line_number
    positive = subst (λ z. pos 1 ≤ℤ z) (sym h.0.at_line) (ground (arith, h.0.positive))

line_regions-All :
    (format : String) (lines : List LineCoverage)
    → All IsMeasured lines
    → All IsEvidence (map (line_region format) lines)
unfolding line_region
line_regions-All format [] h = tt
line_regions-All format (line ∷ lines) h =
    (record { first = h.0.0; last = h.0.0; counted = h.0.1 }, line_regions-All format lines h.1)

module _ (dec : Decoders) (fs : FileSystem) (repo : Option String) where
  python_file-DerivesEvidence :
      (entry : String × Value) → DerivesEvidence (python_file dec fs repo entry)
  unfolding python_file
  python_file-DerivesEvidence (file, value) = Ensures-bind (ok_or (as_object value) _) _ λ payload.
      Ensures-then _ _
        (integer_array-All (get_field payload "executed_lines") "coverage.py executed_lines")
        λ executed h.
          Ensures-then _ _
            (integer_array-All (get_field payload "missing_lines") "coverage.py missing_lines")
            λ missing k. Ensures-ok _ (
              All-append IsEvidence _ _
                (python_regions-All (normalize_report_path fs file repo) true executed h)
                (python_regions-All (normalize_report_path fs file repo) false missing k))

  derive_coveragepy_regions-DerivesEvidence :
      (content : AppResult (List ℕ))
      → DerivesEvidence (derive_coveragepy_regions dec fs repo content)
  unfolding derive_coveragepy_regions
  derive_coveragepy_regions-DerivesEvidence content =
      Ensures-bind (artifact_value dec content "invalid coverage.py JSON: ") _ λ value.
        Ensures-bind
          (ok_or (object_at (lookup value "files"))
            (validation "coverage.py JSON must contain files"))
          _
          λ files.
            Ensures-then _ _
              (Ensures-map (All IsEvidence) (python_file dec fs repo) (pairs files)
                python_file-DerivesEvidence)
              λ parts h. Ensures-ok _ (flatten-All parts h)

  statement_region-IsEvidence :
      (path : String) (counts : Fields) (entry : String × Value)
      → Ensures IsEvidence (statement_region dec fs repo path counts entry)
  unfolding statement_region
  statement_region-IsEvidence path counts (id, value) =
      Ensures-bind (ok_or (as_object value) _) _ λ location.
        Ensures-then _ _
          (position_line-positive (get_field location "start") "Istanbul statement start")
          λ start p.
            Ensures-then _ _
              (position_line-positive (get_field location "end") "Istanbul statement end")
              λ end q. Ensures-bind (ok_or (count_of (get_field counts id)) _) _ λ hits.
                Ensures-check (ltb_ℤ hits (pos 0)) _ _
                  λ h. Ensures-ok _ (record { first = p; last = q; counted = ground (arith, h) })

  istanbul_file-DerivesEvidence :
      (entry : String × Value) → DerivesEvidence (istanbul_file dec fs repo entry)
  unfolding istanbul_file
  istanbul_file-DerivesEvidence (file, value) =
      Ensures-bind (ok_or (as_object value) _) _ λ payload.
        Ensures-bind (ok_or (object_at (get_field payload "statementMap")) _) _ λ statements.
          Ensures-bind (ok_or (object_at (get_field payload "s")) _) _ λ counts.
            Ensures-map IsEvidence _ (pairs statements)
              (statement_region-IsEvidence (normalize_report_path fs file repo) counts)

  derive_istanbul_regions-DerivesEvidence :
      (content : AppResult (List ℕ)) → DerivesEvidence (derive_istanbul_regions dec fs repo content)
  unfolding derive_istanbul_regions
  derive_istanbul_regions-DerivesEvidence content =
      Ensures-bind (artifact_value dec content "invalid Istanbul JSON: ") _ λ value.
        Ensures-bind
          (ok_or (as_object value) (validation "Istanbul coverage must be an object keyed by file"))
          _
          λ files.
            Ensures-then _ _
              (Ensures-map (All IsEvidence) (istanbul_file dec fs repo) (pairs files)
                istanbul_file-DerivesEvidence)
              λ parts h. Ensures-ok _ (flatten-All parts h)

  parse_coverage_report-IsParsed :
      (files : Files) (path format : String)
      → Ensures IsParsed (parse_coverage_report dec fs files path format repo)
  unfolding parse_coverage_report
  parse_coverage_report-IsParsed files path format =
      Ensures-check (not (files.exists path)) _ _ λ _. Ensures-bind (files.size path) _ λ size.
        Ensures-check (ltb max_coverage_report_bytes size) _ _ λ _.
          Ensures-bind (read_report_bytes dec fs files path) _
            λ bytes. record { at = parse_coverage_bytes-IsParsed dec fs path bytes repo format }

  standard_lines :
      (files : Files) (path format : String)
      → DerivesEvidence (
          parse_coverage_report dec fs files path format repo >>= λ report. ok (
            map
              (line_region format)
              (filter (λ (line : LineCoverage). line.count_line) report.lines)))
  standard_lines files path format =
      Ensures-then _ _ (parse_coverage_report-IsParsed files path format) λ report p. Ensures-ok _ (
        line_regions-All format _ (
          All-filter IsMeasured _ report.lines
            (subst (All IsMeasured) (sym p.same) (values-IsMeasured p.rows p.entries))))

  -- For every format but llvm, every report and everything that the decoders make of it: each
  -- region that is derived begins and ends on a positive line and has hits that are not negative.
  pub derive_standard_regions-IsEvidence :
      (files : Files) (path format : String) (regions : List CanonicalRegion)
      → str_eq format "llvm" ≡ false
      → derive_standard_regions dec fs repo files path format ≡ ok regions
      → All IsEvidence regions
  unfolding derive_standard_regions
  derive_standard_regions-IsEvidence files path format regions other derived =
      derivation.at regions derived
    where
      derivation : DerivesEvidence (derive_standard_regions dec fs repo files path format)
      derivation = rw other (
          Ensures-if (str_eq format "coveragepy") _ _
            (derive_coveragepy_regions-DerivesEvidence (files.content path))
            (Ensures-if (str_eq format "istanbul") _ _
              (derive_istanbul_regions-DerivesEvidence (files.content path))
              (standard_lines files path format)))
