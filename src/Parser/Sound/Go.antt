-- ===== src/Parser/Sound/Go.antt =====
-- `parse_go` keeps the builder valid.
use coverage_mcp.Prelude.{ℕ, zero, suc, String, Option, some, List}
use coverage_mcp.Prelude.Int.{ℤ, pos, ltb_ℤ, ◌+i64◌}
use coverage_mcp.Error.{fold_result}
use coverage_mcp.Models.Builder.{new}
use coverage_mcp.Parser.{add_counted}
use coverage_mcp.Parser.Go.{Block, add_range, add_block, go_line}
use coverage_mcp.Error.Ensures.{Ensures, Ensures-fold, ensures_rules}
use coverage_mcp.Models.Paths.{FileSystem}
use coverage_mcp.Models.Builder.{CoverageBuilder}
use coverage_mcp.Models.Valid.{IsValid, new-IsValid}
use coverage_mcp.Parser.{Decoders}
use coverage_mcp.Parser.Sound.{add_counted-IsValid}

module _ (dec : Decoders) (fs : FileSystem) where
  add_range-IsValid :
      (b : CoverageBuilder) (file : String) (line : ℤ) (left : ℕ) (hits : ℤ)
      → IsValid fs b
      → IsValid fs (add_range dec fs b file line left hits)
  unfolding add_range
  add_range-IsValid b file line zero hits v = v
  add_range-IsValid b file line (suc left) hits v =
      add_range-IsValid (add_counted fs b file line hits (some (ltb_ℤ (pos 0) hits))) file
        (line +i64 pos 1) left hits (add_counted-IsValid fs b file line hits _ v)

  add_block-IsValid :
      (b : CoverageBuilder) (block : Block) → IsValid fs b → IsValid fs (add_block dec fs b block)
  unfolding add_block
  add_block-IsValid b block v = add_range-IsValid b block.file block.first _ block.hits v

  go_line-Keeps :
      (b : CoverageBuilder) (raw : String)
      → IsValid fs b
      → Ensures (IsValid fs) (go_line dec fs b raw)
  unfolding go_line
  go_line-Keeps b raw v = search (ensures_rules, add_block-IsValid) depth 12

  pub go_lines-Keeps :
      (repo : Option String) (rows : List String)
      → Ensures (IsValid fs) (fold_result (go_line dec fs) (new repo) rows)
  go_lines-Keeps repo rows = Ensures-fold _ _ rows go_line-Keeps (new-IsValid fs repo)
