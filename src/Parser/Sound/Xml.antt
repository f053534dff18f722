-- ===== src/Parser/Sound/Xml.antt =====
-- `parse_cobertura` and `parse_jacoco` keep the builder valid.
use coverage_mcp.Prelude.{String, Option, List}
use coverage_mcp.Error.{fold_result}
use coverage_mcp.Error.Ensures.{Ensures-then}
use coverage_mcp.Models.Builder.{new}
use coverage_mcp.Parser.Cobertura.{add_cobertura_line, add_class_file, add_class}
use coverage_mcp.Parser.Jacoco.{add_jacoco_line, add_sourcefile, add_package}
use coverage_mcp.Parser.Xml.{XmlNode, descendants}
use coverage_mcp.Error.Ensures.{Ensures, Ensures-fold, ensures_rules}
use coverage_mcp.Models.Paths.{FileSystem}
use coverage_mcp.Models.Builder.{CoverageBuilder}
use coverage_mcp.Models.Valid.{IsValid, new-IsValid, add_line-IsValid, add_file_metrics-IsValid}
use coverage_mcp.Parser.{Decoders}

module _ (dec : Decoders) (fs : FileSystem) where
  add_cobertura_line-Keeps :
      (file : String) (b : CoverageBuilder) (n : XmlNode)
      → IsValid fs b
      → Ensures (IsValid fs) (add_cobertura_line dec fs file b n)
  unfolding add_cobertura_line
  add_cobertura_line-Keeps file b n v = search (ensures_rules, add_line-IsValid) depth 12

  cobertura_lines-Keeps :
      (file : String) (b : CoverageBuilder) (ns : List XmlNode)
      → IsValid fs b
      → Ensures (IsValid fs) (fold_result (add_cobertura_line dec fs file) b ns)
  cobertura_lines-Keeps file b ns v = Ensures-fold _ b ns (add_cobertura_line-Keeps file) v

  add_class_file-Keeps :
      (b : CoverageBuilder) (n : XmlNode) (file : String)
      → IsValid fs b
      → Ensures (IsValid fs) (add_class_file dec fs b n file)
  unfolding add_class_file
  add_class_file-Keeps b n file v =
      Ensures-then _ _ (cobertura_lines-Keeps file b (descendants n "line") v)
        λ b' v'. search (ensures_rules, add_file_metrics-IsValid) depth 12

  add_class-Keeps :
      (b : CoverageBuilder) (n : XmlNode)
      → IsValid fs b
      → Ensures (IsValid fs) (add_class dec fs b n)
  unfolding add_class
  add_class-Keeps b n v = search (ensures_rules, add_class_file-Keeps) depth 12

  pub classes-Keeps :
      (repo : Option String) (ns : List XmlNode)
      → Ensures (IsValid fs) (fold_result (add_class dec fs) (new repo) ns)
  classes-Keeps repo ns = Ensures-fold _ _ ns add_class-Keeps (new-IsValid fs repo)

  add_jacoco_line-Keeps :
      (file : String) (b : CoverageBuilder) (n : XmlNode)
      → IsValid fs b
      → Ensures (IsValid fs) (add_jacoco_line dec fs file b n)
  unfolding add_jacoco_line
  add_jacoco_line-Keeps file b n v = search (ensures_rules, add_line-IsValid) depth 12

  jacoco_lines-Keeps :
      (file : String) (b : CoverageBuilder) (ns : List XmlNode)
      → IsValid fs b
      → Ensures (IsValid fs) (fold_result (add_jacoco_line dec fs file) b ns)
  jacoco_lines-Keeps file b ns v = Ensures-fold _ b ns (add_jacoco_line-Keeps file) v

  add_sourcefile-Keeps :
      (prefix : String) (b : CoverageBuilder) (n : XmlNode)
      → IsValid fs b
      → Ensures (IsValid fs) (add_sourcefile dec fs prefix b n)
  unfolding add_sourcefile
  add_sourcefile-Keeps prefix b n v = search (ensures_rules, jacoco_lines-Keeps) depth 12

  add_package-Keeps :
      (b : CoverageBuilder) (n : XmlNode)
      → IsValid fs b
      → Ensures (IsValid fs) (add_package dec fs b n)
  unfolding add_package
  add_package-Keeps b n v = Ensures-fold _ b _ (add_sourcefile-Keeps _) v

  pub packages-Keeps :
      (repo : Option String) (ns : List XmlNode)
      → Ensures (IsValid fs) (fold_result (add_package dec fs) (new repo) ns)
  packages-Keeps repo ns = Ensures-fold _ _ ns add_package-Keeps (new-IsValid fs repo)
