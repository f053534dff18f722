-- ===== src/Parser/Sound.antt =====
-- What every parser of src/parser.rs adds to a valid builder leaves it valid.
pub mod Lcov
pub mod Python
pub mod Xml
pub mod Istanbul
pub mod Go
pub mod Llvm
pub mod Report
use coverage_mcp.Prelude.{String, Bool, true, false, Option, none, some}
use coverage_mcp.Prelude.Int.{ℤ}
use coverage_mcp.Models.Paths.{FileSystem}
use coverage_mcp.Models.Builder.{CoverageBuilder}
use coverage_mcp.Models.Valid.{
  IsValid, add_line-IsValid, add_file_metrics-IsValid, add_test_observation-IsValid,
}
use coverage_mcp.Parser.{add_counted, add_branches, add_function}
use coverage_mcp.Parser.Lcov.{observe}

module _ (fs : FileSystem) where
  pub add_counted-IsValid :
      (b : CoverageBuilder) (file : String) (line hits : ℤ) (covered : Option Bool)
      → IsValid fs b
      → IsValid fs (add_counted fs b file line hits covered)
  unfolding add_counted
  add_counted-IsValid b file line hits covered v =
      add_line-IsValid fs b file line hits covered true _ _ _ _ _ v

  pub add_branches-IsValid :
      (b : CoverageBuilder) (file : String) (line total covered : ℤ)
      → IsValid fs b
      → IsValid fs (add_branches fs b file line total covered)
  unfolding add_branches
  add_branches-IsValid b file line total covered v =
      add_line-IsValid fs b file line _ _ false total covered _ _ _ v

  pub add_function-IsValid :
      (b : CoverageBuilder) (file : String) (line hits : ℤ)
      → IsValid fs b
      → IsValid fs (add_function fs b file line hits)
  unfolding add_function
  add_function-IsValid b file line hits v = add_line-IsValid fs b file line _ _ false _ _ _ _ _ v
