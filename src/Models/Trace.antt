-- ===== src/Models/Trace.antt =====
-- Sequences of builder calls, as a parser makes them.
use coverage_mcp.Prelude.{String, Bool, Option, List, [], ◌∷◌}
use coverage_mcp.Prelude.Int.{ℤ}
use coverage_mcp.Json.{Value, Fields}
use coverage_mcp.Models.Paths.{FileSystem}
use coverage_mcp.Models.Builder.{
  CoverageBuilder, new, add_line, add_file_metrics, add_test_name, add_test_observation,
}
use coverage_mcp.Models.Valid.{
  IsValid, new-IsValid, add_line-IsValid, add_file_metrics-IsValid, add_test_name-IsValid,
  add_test_observation-IsValid,
}

-- the arguments of `add_line`
pub record LineRecord : Type 0 where
  pub path : String
  pub line_number : ℤ
  pub hits : ℤ
  pub covered : Option Bool
  pub count_line : Bool
  pub total_branches : ℤ
  pub covered_branches : ℤ
  pub total_functions : ℤ
  pub covered_functions : ℤ
  pub details : Value

abbrev pub add_record : FileSystem → CoverageBuilder → LineRecord → CoverageBuilder
add_record fs b r =
    add_line fs b r.path r.line_number r.hits r.covered r.count_line r.total_branches
      r.covered_branches r.total_functions r.covered_functions r.details

pub data Call : Type 0 where
  line : LineRecord → Call
  metrics : String → Fields → Call
  test_name : String → Call
  test : String → String → String → ℤ → String → Call

module _ (fs : FileSystem) where
  abbrev pub call : CoverageBuilder → Call → CoverageBuilder
  call b (line r) = add_record fs b r
  call b (metrics path fields) = add_file_metrics fs b path fields
  call b (test_name name) = add_test_name b name
  call b (test name kind path n key) = add_test_observation fs b name kind path n key

  abbrev pub calls : CoverageBuilder → List Call → CoverageBuilder
  calls b [] = b
  calls b (c ∷ cs) = calls (call b c) cs

  pub call-IsValid : (b : CoverageBuilder) (c : Call) → IsValid fs b → IsValid fs (call b c)
  call-IsValid b (line r) v =
      add_line-IsValid fs b r.path r.line_number r.hits r.covered r.count_line r.total_branches
        r.covered_branches r.total_functions r.covered_functions r.details v
  call-IsValid b (metrics path fields) v = add_file_metrics-IsValid fs b path fields v
  call-IsValid b (test_name name) v = add_test_name-IsValid fs b name v
  call-IsValid b (test name kind path n key) v =
      add_test_observation-IsValid fs b name kind path n key v

  calls_keep : (b : CoverageBuilder) (cs : List Call) → IsValid fs b → IsValid fs (calls b cs)
  calls_keep b [] v = v
  calls_keep b (c ∷ cs) v = calls_keep (call b c) cs (call-IsValid b c v)

  -- After any calls on a new builder the rows are in the order of path and line, one for each;
  -- each stands under its own path and a positive line; its hits are not negative; a line that is
  -- not counted has no hits and no covered mark; and each remembered name is the normalized one.
  pub calls-IsValid : (repo : Option String) (cs : List Call) → IsValid fs (calls (new repo) cs)
  calls-IsValid repo cs = calls_keep (new repo) cs (new-IsValid fs repo)
