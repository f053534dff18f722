-- ===== src/Parser/Cobertura.antt =====
-- `parse_cobertura` of src/parser.rs.
use Prim.Native.Char.{Char, code}
use coverage_mcp.Prelude.{
  ℕ, String, Bool, true, false, not, ◌||◌, ◌==◌, str_eq, Option, none, some, is_some, List, [], ◌∷◌,
  if◌then◌else◌,
}
use coverage_mcp.Prelude.Int.{ℤ, pos}
use coverage_mcp.Order.{text_ord}
use coverage_mcp.BTree
use coverage_mcp.BTree.{BTreeMap}
use coverage_mcp.Error.{AppResult, ok, err, ◌>>=◌, ok_or, fold_result}
use coverage_mcp.Json.{Fields, end, put_field}
use coverage_mcp.Models.{CoverageReport}
use coverage_mcp.Models.Paths.{FileSystem}
use coverage_mcp.Models.Builder.{CoverageBuilder, new, add_line, add_file_metrics}
use coverage_mcp.Models.Build.{build}
use coverage_mcp.Text.{is_empty, trim, to_lowercase, concat}
use coverage_mcp.Text.Split.{split_once, trim_matches}
use coverage_mcp.Parser.{Decoders, parse_error, no_details}
use coverage_mcp.Parser.Number.{safe_i64, parse_f64}
use coverage_mcp.Parser.Xml.{XmlNode, attrs, parse_xml, find_nodes, descendants}

-- an attribute of a tag
unfoldable pub attribute : XmlNode → String → Option String
attribute n key = BTree.get (attrs n) key

-- `filter(|value| !value.trim().is_empty())`
unfoldable pub unless_blank : Option String → Option String
unless_blank none = none
unless_blank (some value) = if is_empty (trim value) then none else some value

abbrev or_else : Option String → Option String → Option String
or_else (some value) other = some value
or_else none other = other

abbrev is_parenthesis : Char → Bool
is_parenthesis c = code c == b'(' || code c == b')'

-- `50% (1/2)` without what stands around its parentheses, and without these
unfoldable pub inner_condition : String → String
inner_condition value =
    trim_matches is_parenthesis (trim_matches (λ c. not (is_parenthesis c)) value)

module _ (dec : Decoders) (fs : FileSystem) where
  -- both numbers, or an error
  unfoldable pub explicit_counts : Option String → Option String → AppResult (ℤ × ℤ)
  explicit_counts (some total) (some covered) = do
    t ← safe_i64 dec (some total)
    c ← safe_i64 dec (some covered)
    ok (t, c)
  explicit_counts _ _ =
      err (parse_error "Cobertura branch counts must include both total and covered values")

  unfoldable pub condition_counts : Option String → AppResult (ℤ × ℤ)
  condition_counts none = ok (pos 0, pos 0)
  condition_counts (some value) = elim (split_once b'/' (inner_condition value)) [
    | none ↦ err (
        parse_error
          (concat ("invalid Cobertura condition-coverage value: " ∷ inner_condition value ∷ [])))
    | some (covered, total) ↦
        safe_i64 dec (some total) >>= λ t. safe_i64 dec (some covered) >>= λ c. ok (t, c)
  ]

  abbrev is_true : Option String → Bool
  is_true none = false
  is_true (some value) = str_eq (to_lowercase value) "true"

  -- `cobertura_branch_counts`: the total and the covered branches
  unfoldable pub cobertura_branch_counts : XmlNode → AppResult (ℤ × ℤ)
  cobertura_branch_counts n =
      if not (is_true (attribute n "branch"))
      then ok (pos 0, pos 0)
      else if is_some (attribute n "branches-valid") || is_some (attribute n "branches-covered")
      then explicit_counts (attribute n "branches-valid") (attribute n "branches-covered")
      else condition_counts (attribute n "condition-coverage")

  unfoldable pub add_cobertura_line : String → CoverageBuilder → XmlNode → AppResult CoverageBuilder
  add_cobertura_line file b n = do
    line ← safe_i64 dec (attribute n "number")
    hits ← safe_i64 dec (attribute n "hits")
    (total, covered) ← cobertura_branch_counts n
    ok (add_line fs b file line hits none true total covered (pos 0) (pos 0) no_details)

  unfoldable pub add_rate : Fields → String → Option String → AppResult Fields
  add_rate metrics key none = ok metrics
  add_rate metrics key (some value) =
      parse_f64 dec value >>= λ rate. ok (put_field metrics key (dec.json_of_f64 rate))

  -- the lines and the rates of a class whose file is known
  unfoldable pub add_class_file : CoverageBuilder → XmlNode → String → AppResult CoverageBuilder
  add_class_file b n file = do
    with_lines ← fold_result (add_cobertura_line file) b (descendants n "line")
    line_rate ← add_rate end "line_rate" (attribute n "line-rate")
    rates ← add_rate line_rate "branch_rate" (attribute n "branch-rate")
    ok (add_file_metrics fs with_lines file rates)

  unfoldable pub add_class : CoverageBuilder → XmlNode → AppResult CoverageBuilder
  add_class b n =
      ok_or (unless_blank (or_else (attribute n "filename") (attribute n "name")))
        (parse_error "Cobertura class is missing a filename")
      >>= add_class_file b n

  unfoldable pub parse_cobertura : String → List ℕ → Option String → AppResult CoverageReport
  parse_cobertura path bytes repo = do
    root ← parse_xml dec path bytes
    b ← fold_result add_class (new repo) (find_nodes root "class")
    ok (build b "cobertura" path [] no_details)
