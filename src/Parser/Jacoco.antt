-- ===== src/Parser/Jacoco.antt =====
-- `parse_jacoco` of src/parser.rs.
use Prim.Native.Char.{code}
use coverage_mcp.Prelude.{
  true, ℕ, String, ◌==◌, Option, some, List, [], ◌∷◌, unwrap_or, if◌then◌else◌,
}
use coverage_mcp.Prelude.Int.{pos, ltb_ℤ, ◌+i64◌}
use coverage_mcp.Error.{AppResult, ok, ◌>>=◌, ok_or, fold_result}
use coverage_mcp.Json.{obj, field, end, int}
use coverage_mcp.Models.{CoverageReport}
use coverage_mcp.Models.Paths.{FileSystem}
use coverage_mcp.Models.Builder.{CoverageBuilder, new, add_line}
use coverage_mcp.Models.Build.{build}
use coverage_mcp.Text.{is_empty, concat}
use coverage_mcp.Text.Split.{trim_matches}
use coverage_mcp.Parser.{Decoders, parse_error, no_details}
use coverage_mcp.Parser.Cobertura.{attribute, unless_blank}
use coverage_mcp.Parser.Number.{safe_i64}
use coverage_mcp.Parser.Xml.{XmlNode, parse_xml, find_nodes, descendants}

-- the name of a package without the slashes around it
unfoldable pub package_prefix : XmlNode → String
package_prefix folder = trim_matches (λ c. code c == b'/') (unwrap_or (attribute folder "name") "")

abbrev pub source_path : String → String → String
source_path prefix name = if is_empty prefix then name else concat (prefix ∷ "/" ∷ name ∷ [])

module _ (dec : Decoders) (fs : FileSystem) where
  unfoldable pub add_jacoco_line : String → CoverageBuilder → XmlNode → AppResult CoverageBuilder
  add_jacoco_line file b n = do
    missed ← safe_i64 dec (attribute n "mi")
    covered ← safe_i64 dec (attribute n "ci")
    missed_branches ← safe_i64 dec (attribute n "mb")
    covered_branches ← safe_i64 dec (attribute n "cb")
    line ← safe_i64 dec (attribute n "nr")
    ok (
        add_line fs b file line covered (some (ltb_ℤ (pos 0) covered)) true
          (missed_branches +i64 covered_branches) covered_branches (pos 0) (pos 0)
          (obj (field "missed_instructions" (int missed) end)))

  unfoldable pub add_sourcefile : String → CoverageBuilder → XmlNode → AppResult CoverageBuilder
  add_sourcefile prefix b source = do
    name ←
        ok_or (unless_blank (attribute source "name"))
          (parse_error "JaCoCo sourcefile is missing a name")
    fold_result (add_jacoco_line (source_path prefix name)) b (descendants source "line")

  unfoldable pub add_package : CoverageBuilder → XmlNode → AppResult CoverageBuilder
  add_package b folder =
      fold_result (add_sourcefile (package_prefix folder)) b (descendants folder "sourcefile")

  unfoldable pub parse_jacoco : String → List ℕ → Option String → AppResult CoverageReport
  parse_jacoco path bytes repo = do
    root ← parse_xml dec path bytes
    b ← fold_result add_package (new repo) (find_nodes root "package")
    ok (build b "jacoco" path [] no_details)
