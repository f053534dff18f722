-- ===== src/Parser/Sound/Lcov.antt =====
-- `parse_lcov` keeps the builder valid.
use coverage_mcp.Prelude.{String, Bool, true, false, Option, none, some, List, Bool-cases, inl, inr}
use coverage_mcp.Prelude.Int.{ℤ}
use coverage_mcp.Error.Ensures.{Ensures, Ensures-ok, Ensures-fold, ensures_rules}
use coverage_mcp.Models.Paths.{FileSystem}
use coverage_mcp.Models.Builder.{CoverageBuilder}
use coverage_mcp.Models.Valid.{
  IsValid, new-IsValid, add_test_name-IsValid, add_test_observation-IsValid,
}
use coverage_mcp.Text.{is_empty, trim}
use coverage_mcp.Parser.{Decoders}
use coverage_mcp.Parser.Lcov.{
  LcovState, lcov_start, observe, lcov_test_name, lcov_line, lcov_function, lcov_function_hits,
  lcov_function_data, add_lcov_branch, lcov_record, lcov_other, lcov_step, lcov_lines,
}
use coverage_mcp.Parser.Sound.{add_counted-IsValid, add_branches-IsValid, add_function-IsValid}

module _ (dec : Decoders) (fs : FileSystem) where
  abbrev Keeps : LcovState → Type 0
  Keeps s = IsValid fs s.builder

  observe-IsValid :
      (b : CoverageBuilder) (test : Option String) (hit : Bool) (kind file : String) (line : ℤ)
      (key : String)
      → IsValid fs b
      → IsValid fs (observe dec fs b test hit kind file line key)
  unfolding observe
  observe-IsValid b (some test) true kind file line key v =
      add_test_observation-IsValid fs b test kind file line key v
  observe-IsValid b (some test) false kind file line key v = v
  observe-IsValid b none hit kind file line key v = v

  lcov_line-Keeps :
      (s : LcovState) (file payload : String)
      → Keeps s
      → Ensures Keeps (lcov_line dec fs s file payload)
  unfolding lcov_line
  lcov_line-Keeps s file payload v =
      search (ensures_rules, observe-IsValid, add_counted-IsValid) depth 12

  lcov_function-Keeps :
      (s : LcovState) (payload : String) → Keeps s → Ensures Keeps (lcov_function dec fs s payload)
  unfolding lcov_function
  lcov_function-Keeps s payload v = search ensures_rules depth 12

  lcov_function_hits-Keeps :
      (s : LcovState) (file hits name : String) (line : Option ℤ)
      → Keeps s
      → Ensures Keeps (lcov_function_hits dec fs s file hits name line)
  unfolding lcov_function_hits
  lcov_function_hits-Keeps s file hits name none v = Ensures-ok s v
  lcov_function_hits-Keeps s file hits name (some line) v =
      search (ensures_rules, observe-IsValid, add_function-IsValid) depth 12

  lcov_function_data-Keeps :
      (s : LcovState) (file payload : String)
      → Keeps s
      → Ensures Keeps (lcov_function_data dec fs s file payload)
  unfolding lcov_function_data
  lcov_function_data-Keeps s file payload v =
      search (ensures_rules, lcov_function_hits-Keeps) depth 12

  add_lcov_branch-Keeps :
      (s : LcovState) (file : String) (parts : List String)
      → Keeps s
      → Ensures Keeps (add_lcov_branch dec fs s file parts)
  unfolding add_lcov_branch
  add_lcov_branch-Keeps s file parts v =
      search (ensures_rules, observe-IsValid, add_branches-IsValid) depth 12

  lcov_record-Keeps :
      (s : LcovState) (file line : String)
      → Keeps s
      → Ensures Keeps (lcov_record dec fs s file line)
  unfolding lcov_record
  lcov_record-Keeps s file line v =
      search
        (
          ensures_rules, lcov_line-Keeps, lcov_function-Keeps, lcov_function_data-Keeps,
          add_lcov_branch-Keeps,
        )
        depth 12

  lcov_test_name-Keeps :
      (s : LcovState) (name : String) → Keeps s → Keeps (lcov_test_name dec fs s name)
  unfolding lcov_test_name
  lcov_test_name-Keeps s name v = elim (Bool-cases (is_empty name)) [
    | inl blank ↦ rw blank v
    | inr named ↦ rw named (add_test_name-IsValid fs s.builder name v)
  ]

  lcov_other-Keeps :
      (s : LcovState) (line : String) (file : Option String)
      → Keeps s
      → Ensures Keeps (lcov_other dec fs s line file)
  unfolding lcov_other
  lcov_other-Keeps s line none v = Ensures-ok s v
  lcov_other-Keeps s line (some file) v = lcov_record-Keeps s file line v

  lcov_step-Keeps :
      (s : LcovState) (line : String) → Keeps s → Ensures Keeps (lcov_step dec fs s line)
  unfolding lcov_step
  lcov_step-Keeps s line v = search (ensures_rules, lcov_test_name-Keeps, lcov_other-Keeps) depth 12

  pub lcov_lines-Keeps :
      (repo : Option String) (rows : List String)
      → Ensures (λ s. IsValid fs s.builder) (lcov_lines dec fs (lcov_start repo) rows)
  unfolding lcov_lines
  lcov_lines-Keeps repo rows =
      Ensures-fold _ _ rows (λ s raw v. lcov_step-Keeps s (trim raw) v) (new-IsValid fs repo)
