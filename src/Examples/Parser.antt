-- ===== src/Examples/Parser.antt =====
-- The theorems about parsers, at a Go profile and at a small XML document.
use coverage_mcp.Prelude.{
  ℕ, ◌≡◌, ◌↔◌, refl, Option, none, some, [], ◌∷◌, ◌++◌, str_eq, if◌then◌else◌,
}
use coverage_mcp.Prelude.Int.{pos}
use coverage_mcp.BTree
use coverage_mcp.Order.{text_ord, int_ord, pair_ord}
use coverage_mcp.Error.{AppResult, ok, err, fold_result}
use coverage_mcp.Json.{null}
use coverage_mcp.Models.{CoverageReport}
use coverage_mcp.Models.Paths.{normalize_report_path}
use coverage_mcp.Models.Builder.{new}
use coverage_mcp.Models.Valid.{new-IsValid}
use coverage_mcp.Models.Build.{build}
use coverage_mcp.FilePath.{extension}
use coverage_mcp.Text.{trim, to_lowercase, starts_with, contains}
use coverage_mcp.Text.Split.{lines, split_once, rsplit_once, split_whitespace}
use coverage_mcp.Text.Number.{parse_unsigned}
use coverage_mcp.Parser.{
  Decoders, Double, finite, no_details, Decoded, decoded, failed, other, attr,
}
use coverage_mcp.Parser.Number.{safe_i64}
use coverage_mcp.Parser.Number.Exact.{Reads, safe_i64-exact}
use coverage_mcp.Parser.Xml.{
  XmlNode, node, no_nodes, child, name_of, find_nodes, descendants, parse_xml,
}
use coverage_mcp.Parser.Xml.Search.{find_nodes-descendants}
use coverage_mcp.Parser.Xml.Tree.{
  Element, closed, element, nothing, text_then, element_then, events, tree, parse_xml-tree,
}
use coverage_mcp.Parser.Go.{
  Block, go_fields, add_block, go_block, go_position_line, line_count, go_line, parse_go,
}
use coverage_mcp.Parser.Go.Range.{block_row, also}
use coverage_mcp.Parser.Go.Accepted.{IsBlock, in_block, go_fields-lines}
use coverage_mcp.Parser.Select.{
  detect_format, detect, parse_selected, choose_format, parse_coverage_bytes, normalize_format,
}
use coverage_mcp.Parser.Select.Formats.{IsParsedBy, parsers, choose_format-canonical}
use coverage_mcp.Parser.Sound.Report.{IsParsed, parse_coverage_bytes-IsParsed}
use coverage_mcp.Examples.{fs}

abbrev number_of : Option ℕ → Decoded Double
number_of none = failed "invalid float literal"
number_of (some n) = decoded (finite (pos n) 0)

abbrev document : Element
document = element "report" [] (
    text_then (
      element_then (closed "class" (attr "name" (decoded "A") ∷ []))
        (element_then (element "class" [] (element_then (closed "line" []) nothing)) nothing)))

abbrev dec : Decoders
dec = record {
  f64_of_text = λ text. number_of (parse_unsigned 1000000 text);
  text_of_f64 = λ value. "1";
  json_of_f64 = λ value. null;
  from_utf8 = λ bytes. decoded "mode: set\nsrc/a.go:3.5,5.2 1 7\n";
  from_utf8_lossy = λ bytes. "mode: set";
  from_slice = λ bytes. failed "expected value";
  xml_events = λ bytes. other ∷ events document [];
}

-- a report that a parser gave, or else the empty one
abbrev report_or : AppResult CoverageReport → CoverageReport
report_or (ok report) = report
report_or (err e) = build (new none) "go" "" [] no_details

abbrev parsed_report : CoverageReport
parsed_report = report_or (parse_coverage_bytes dec fs "cover.out" [] "auto" none)

parsed_lem : parse_coverage_bytes dec fs "cover.out" [] "auto" none ≡ ok parsed_report
unfolding parse_coverage_bytes choose_format to_lowercase trim detect_format detect extension
    starts_with contains parse_selected parse_go lines fold_result go_line go_fields
    split_whitespace go_block split_once rsplit_once go_position_line safe_i64 parse_unsigned
    line_count
parsed_lem = refl

parse_coverage_bytes-IsParsed_example : IsParsed parsed_report
parse_coverage_bytes-IsParsed_example =
    parse_coverage_bytes-IsParsed dec fs "cover.out" [] none "auto" parsed_report parsed_lem

safe_i64-exact_example : (safe_i64 dec (some "12") ≡ ok (pos 12)) ↔ Reads dec "12" (pos 12)
safe_i64-exact_example = safe_i64-exact dec "12" (pos 12)

read_document : XmlNode
read_document = node "report" [] (
    child (node "class" [] no_nodes)
      (child (node "class" [] (child (node "line" [] no_nodes) no_nodes)) no_nodes))

find_nodes-descendants_example :
    find_nodes read_document "class"
    ≡ (if str_eq (name_of read_document) "class" then read_document ∷ [] else [])
      ++ descendants read_document "class"
find_nodes-descendants_example = find_nodes-descendants read_document "class"

parse_xml-tree_example : parse_xml dec "report.xml" [] ≡ tree document
parse_xml-tree_example = parse_xml-tree dec "report.xml" [] document 1 0 refl

abbrev block : Block
block = record { file = "src/a.go"; first = pos 3; last = pos 5; hits = pos 7 }

block_lem : go_fields dec fs "src/a.go:3.5,5.2 1 7" ("src/a.go:3.5,5.2" ∷ "1" ∷ "7" ∷ []) ≡ ok block
unfolding go_fields go_block rsplit_once split_once go_position_line safe_i64 parse_unsigned
    line_count
block_lem = refl

go_fields-lines_example :
    IsBlock block
    × (BTree.get (add_block dec fs (new none) block).lines ("src/a.go", pos 4) ≡ (
        if in_block (normalize_report_path fs "src/a.go" none) block ("src/a.go", pos 4)
        then also fs
            (BTree.get (new none).lines ("src/a.go", pos 4))
            (block_row (normalize_report_path fs "src/a.go" none) (pos 4) (pos 7))
        else BTree.get (new none).lines ("src/a.go", pos 4)))
go_fields-lines_example =
    go_fields-lines dec fs (new none) "src/a.go:3.5,5.2 1 7" ("src/a.go:3.5,5.2" ∷ "1" ∷ "7" ∷ [])
      block ("src/a.go", pos 4) (new-IsValid fs none) block_lem

chosen_lem : choose_format dec "cover.out" [] "Go-Cover" ≡ ok "go"
unfolding choose_format to_lowercase trim normalize_format
chosen_lem = refl

choose_format-canonical_example :
    IsParsedBy dec fs "go" (parsers dec fs) × (normalize_format "go" ≡ ok "go")
choose_format-canonical_example =
    choose_format-canonical dec fs "cover.out" [] "Go-Cover" "go" chosen_lem
