-- ===== src/Parser/Select.antt =====
-- The choice of a parser in src/parser.rs: `normalize_format`, `detect_format`, `parse_selected`,
-- `parse_coverage_bytes` and `parse_coverage_report`.
pub mod Formats
use coverage_mcp.Prelude.{
  ℕ, ◌+◌, ◌*◌, String, Bool, true, false, not, ◌&&◌, ◌||◌, str_eq, ltb, Option, none, some, is_some,
  unwrap_or, List, [], ◌∷◌, any, length, take, is_nil, if◌then◌else◌,
}
use coverage_mcp.Error.{AppResult, ok, err, ◌>>=◌, ◌>>◌, reject_if}
use coverage_mcp.FilePath.{extension}
use coverage_mcp.Json.{Value, Fields, as_object, pairs, get_field, lookup}
use coverage_mcp.Models.{CoverageReport}
use coverage_mcp.Models.Paths.{FileSystem}
use coverage_mcp.Text.{trim, trim_start, starts_with, contains, to_lowercase, concat, show_ℕ}
use coverage_mcp.Parser.{Decoders, parse_error, json_value}
use coverage_mcp.Parser.Lcov.{parse_lcov}
use coverage_mcp.Parser.CoveragePy.{parse_coveragepy_json}
use coverage_mcp.Parser.Cobertura.{parse_cobertura}
use coverage_mcp.Parser.Jacoco.{parse_jacoco}
use coverage_mcp.Parser.Istanbul.{parse_istanbul, looks_like_istanbul}
use coverage_mcp.Parser.Go.{parse_go}
use coverage_mcp.Parser.Llvm.{parse_llvm}
use coverage_mcp.Parser.Xml.{name_of, parse_xml, find_nodes}

abbrev pub supported_formats : List String
supported_formats =
    "auto" ∷ "lcov" ∷ "coverage.py" ∷ "coveragepy" ∷ "cobertura" ∷ "jacoco" ∷ "istanbul" ∷ "nyc"
    ∷ "go" ∷ "go-cover" ∷ "go-coverprofile" ∷ "llvm" ∷ "llvm-json" ∷ []

abbrev pub max_coverage_report_bytes : ℕ
max_coverage_report_bytes = 64 * 1024 * 1024

abbrev pub is_one_of : String → List String → Bool
is_one_of text = any (str_eq text)

-- The file system: whether a path is there, the size of a file, and its bytes.
pub record Files : Type 0 where
  pub exists : String → Bool
  pub size : String → AppResult ℕ
  pub content : String → AppResult (List ℕ)

-- the name that stands for an alias
abbrev pub unaliased : String → String
unaliased name =
    if is_one_of name ("coverage.py" ∷ "coverage-json" ∷ "coveragepy-json" ∷ [])
    then "coveragepy"
    else if str_eq name "nyc"
    then "istanbul"
    else if is_one_of name ("go-cover" ∷ "go-coverprofile" ∷ "coverprofile" ∷ [])
    then "go"
    else if str_eq name "llvm-json"
    then "llvm"
    else name

abbrev pub checked_format : String → String → AppResult String
checked_format format name =
    if is_one_of name supported_formats && not (str_eq name "auto")
    then ok name
    else err (parse_error (concat ("unsupported coverage format: " ∷ format ∷ [])))

unfoldable pub normalize_format : String → AppResult String
normalize_format format = checked_format format (unaliased (to_lowercase (trim format)))

abbrev pub undetected : String → String → AppResult String
undetected kind path =
    err (parse_error (concat ("could not detect " ∷ kind ∷ "coverage format for " ∷ path ∷ [])))

abbrev has_executed_lines : Option Value → Bool
has_executed_lines none = false
has_executed_lines (some files) = elim (as_object files) [
  | none ↦ false
  | some entries ↦
      any (λ (e : String × Value). is_some (lookup e.1 "executed_lines")) (pairs entries)
]

unfoldable pub json_format : String → Option Fields → AppResult String
json_format path none = undetected "JSON " path
json_format path (some object) =
    if is_some (get_field object "data")
    then ok "llvm"
    else if has_executed_lines (get_field object "files")
    then ok "coveragepy"
    else if looks_like_istanbul object
    then ok "istanbul"
    else undetected "JSON " path

module _ (dec : Decoders) where
  unfoldable pub xml_format : String → List ℕ → AppResult String
  xml_format path bytes = do
    root ← parse_xml dec path bytes
    if str_eq (name_of root) "coverage"
        then ok "cobertura"
        else if str_eq (name_of root) "report"
            && (not (is_nil (find_nodes root "sourcefile"))
                || not (is_nil (find_nodes root "counter")))
        then ok "jacoco"
        else undetected "XML " path

  -- by the extension and the first 4096 bytes, `head`
  unfoldable pub detect : String → List ℕ → String → String → AppResult String
  detect path bytes dotted head =
      if str_eq dotted "lcov"
        || str_eq dotted "info"
        || starts_with (trim_start head) "TN:"
        || contains head "\nSF:"
      then ok "lcov"
      else if starts_with (trim_start head) "mode:"
      then ok "go"
      else if str_eq dotted "xml" || starts_with (trim_start head) "<"
      then xml_format path bytes
      else if str_eq dotted "json" || starts_with (trim_start head) "{"
      then (json_value dec bytes >>= λ document. json_format path (as_object document))
      else undetected "" path

  unfoldable pub detect_format : String → List ℕ → AppResult String
  detect_format path bytes =
      detect path bytes (to_lowercase (unwrap_or (extension path) ""))
        (dec.from_utf8_lossy (take 4096 bytes))

  -- the parser's name that `parse_coverage_bytes` selects
  unfoldable pub choose_format : String → List ℕ → String → AppResult String
  choose_format path bytes format =
      if str_eq (to_lowercase (trim format)) "auto"
      then detect_format path bytes
      else normalize_format format

  module _ (fs : FileSystem) where
    unfoldable pub parse_selected :
        String → String → List ℕ → Option String → AppResult CoverageReport
    parse_selected selected path bytes repo =
        if str_eq selected "lcov"
        then parse_lcov dec fs path bytes repo
        else if str_eq selected "coveragepy"
        then parse_coveragepy_json dec fs path bytes repo
        else if str_eq selected "cobertura"
        then parse_cobertura dec fs path bytes repo
        else if str_eq selected "jacoco"
        then parse_jacoco dec fs path bytes repo
        else if str_eq selected "istanbul"
        then parse_istanbul dec fs path bytes repo
        else if str_eq selected "go"
        then parse_go dec fs path bytes repo
        else if str_eq selected "llvm"
        then parse_llvm dec fs path bytes repo
        else err (parse_error (concat ("unsupported coverage format: " ∷ selected ∷ [])))

    unfoldable pub parse_coverage_bytes :
        String → List ℕ → String → Option String → AppResult CoverageReport
    parse_coverage_bytes path bytes format repo = do
      reject_if (ltb max_coverage_report_bytes (length bytes))
          (parse_error "coverage report exceeds the 64 MiB limit")
      selected ← choose_format path bytes format
      parse_selected selected path bytes repo

    unfoldable pub read_report_bytes : Files → String → AppResult (List ℕ)
    read_report_bytes files path = do
      content ← files.content path
      let bytes = take (max_coverage_report_bytes + 1) content
      reject_if (ltb max_coverage_report_bytes (length bytes))
          (parse_error "coverage report exceeds the 64 MiB limit")
      ok bytes

    unfoldable pub parse_coverage_report :
        Files → String → String → Option String → AppResult CoverageReport
    parse_coverage_report files path format repo = do
      reject_if (not (files.exists path))
          (parse_error (concat ("coverage report does not exist: " ∷ path ∷ [])))
      size ← files.size path
      reject_if (ltb max_coverage_report_bytes size) (
          parse_error (
            concat (
              "coverage report exceeds the "
              ∷ show_ℕ max_coverage_report_bytes
              ∷ " byte limit"
              ∷ [])))
      bytes ← read_report_bytes files path
      parse_coverage_bytes path bytes format repo
