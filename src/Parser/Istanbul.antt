-- ===== src/Parser/Istanbul.antt =====
-- `parse_istanbul` of src/parser.rs.
use coverage_mcp.Prelude.{
  ℕ, String, Bool, not, ◌&&◌, Option, none, some, is_some, List, [], ◌∷◌, any, length,
  if◌then◌else◌,
}
use coverage_mcp.Prelude.Int.{ℤ, pos, ltb_ℤ, ◌+i64◌}
use coverage_mcp.Error.{AppResult, ok, err, ◌>>=◌, ◌>>◌, ok_or, reject_if, fold_result}
use coverage_mcp.Json.{Value, Fields, as_array, as_object, as_str, pairs, get_field, lookup}
use coverage_mcp.Models.{CoverageReport}
use coverage_mcp.Models.Paths.{FileSystem}
use coverage_mcp.Models.Builder.{CoverageBuilder, new}
use coverage_mcp.Models.Build.{build}
use coverage_mcp.Text.{concat, show_ℤ}
use coverage_mcp.Parser.{
  Decoders, parse_error, json_value, no_details, add_counted, add_branches, add_function,
}
use coverage_mcp.Parser.Number.{value_i64}

-- an error about one file, or about one entry of it
abbrev about : String → String → String
about message key = concat (message ∷ key ∷ [])

abbrev about_entry : String → String → String → String
about_entry message key id = concat (message ∷ key ∷ ":" ∷ id ∷ [])

unfoldable pub looks_like_istanbul : Fields → Bool
looks_like_istanbul object =
    any
      (λ (entry : String × Value).
        is_some (lookup entry.1 "statementMap") && is_some (lookup entry.1 "s"))
      (pairs object)

abbrev object_or : Option Value → String → AppResult Fields
object_or none message = err (parse_error message)
object_or (some value) message = ok_or (as_object value) (parse_error message)

abbrev or_value : Option Value → Value → Value
or_value none value = value
or_value (some location) value = location

-- the value of `start.line`, or of `line` where there is no `start`
abbrev line_of : Option Value → Option Value → AppResult Value
line_of (some start) _ =
    ok_or (lookup start "line") (parse_error "Istanbul location is missing start.line")
line_of none line = ok_or line (parse_error "Istanbul location is missing line")

module _ (dec : Decoders) (fs : FileSystem) where
  unfoldable pub location_line : Value → AppResult ℤ
  location_line location = do
    object ← ok_or (as_object location) (parse_error "Istanbul location must be an object")
    value ← line_of (get_field object "start") (get_field object "line")
    line ← value_i64 dec value
    reject_if (ltb_ℤ line (pos 1))
        (parse_error (about "Istanbul line must be positive: " (show_ℤ line)))
    ok line

  -- the number that an entry has among the hits
  unfoldable pub hits_of : Fields → String → String → AppResult ℤ
  hits_of hits id message = ok_or (get_field hits id) (parse_error message) >>= value_i64 dec

  unfoldable pub add_statement :
      String → String → Fields → CoverageBuilder → String × Value → AppResult CoverageBuilder
  add_statement key file hits b (id, location) = do
    line ← location_line location
    count ← hits_of hits id (about_entry "Istanbul statement is missing hit data: " key id)
    ok (add_counted fs b file line count none)

  unfoldable pub add_istanbul_function :
      String → String → Fields → CoverageBuilder → String × Value → AppResult CoverageBuilder
  add_istanbul_function key file hits b (id, function) = do
    line ←
        location_line
          (or_value (lookup function "loc") (or_value (lookup function "decl") function))
    count ← hits_of hits id (about_entry "Istanbul function is missing hit data: " key id)
    ok (add_function fs b file line count)

  -- how many of the counts are positive
  unfoldable pub count_taken : ℤ → List Value → AppResult ℤ
  count_taken covered [] = ok covered
  count_taken covered (value ∷ rest) = value_i64 dec value >>= λ hits.
      count_taken (if ltb_ℤ (pos 0) hits then covered +i64 pos 1 else covered) rest

  unfoldable pub add_istanbul_branch :
      String → String → Fields → CoverageBuilder → String × Value → AppResult CoverageBuilder
  add_istanbul_branch key file hits b (id, branch) = do
    line ← location_line (or_value (lookup branch "loc") branch)
    value ←
        ok_or (get_field hits id)
          (parse_error (about_entry "Istanbul branch is missing hit data: " key id))
    counts ←
        ok_or (as_array value)
          (parse_error (about_entry "Istanbul branch hit data must be an array: " key id))
    covered ← count_taken (pos 0) counts
    ok (add_branches fs b file line (pos (length counts)) covered)

  unfoldable pub add_functions :
      String → String → CoverageBuilder → Option Value → Option Value → AppResult CoverageBuilder
  add_functions key file b none none = ok b
  add_functions key file b (some table) (some hits) = do
    function_map ← object_or (some table) (about "Istanbul fnMap must be an object: " key)
    function_hits ← object_or (some hits) (about "Istanbul function hits must be an object: " key)
    fold_result (add_istanbul_function key file function_hits) b (pairs function_map)
  add_functions key file b _ _ =
      err (parse_error (about "Istanbul fnMap and function hits must be provided together: " key))

  unfoldable pub add_istanbul_branches :
      String → String → CoverageBuilder → Option Value → Option Value → AppResult CoverageBuilder
  add_istanbul_branches key file b none none = ok b
  add_istanbul_branches key file b (some table) (some hits) = do
    branch_map ← object_or (some table) (about "Istanbul branchMap must be an object: " key)
    branch_hits ← object_or (some hits) (about "Istanbul branch hits must be an object: " key)
    fold_result (add_istanbul_branch key file branch_hits) b (pairs branch_map)
  add_istanbul_branches key file b _ _ =
      err (parse_error (about "Istanbul branchMap and branch hits must be provided together: " key))

  -- the path that an entry names, or its key
  unfoldable pub entry_path : String → Option Value → AppResult String
  entry_path key none = ok key
  entry_path key (some value) =
      ok_or (as_str value) (parse_error (about "Istanbul path must be a string: " key))

  unfoldable pub add_istanbul_file : CoverageBuilder → String × Value → AppResult CoverageBuilder
  add_istanbul_file b (key, value) = do
    payload ← object_or (some value) (about "Istanbul file entry must be an object: " key)
    statement_map ←
        ok_or (elim (get_field payload "statementMap") [ none ↦ none | some v ↦ as_object v ])
          (parse_error (about "Istanbul entry is missing statementMap: " key))
    statement_hits ←
        ok_or (elim (get_field payload "s") [ none ↦ none | some v ↦ as_object v ])
          (parse_error (about "Istanbul entry is missing statement hits: " key))
    file ← entry_path key (get_field payload "path")
    statements ← fold_result (add_statement key file statement_hits) b (pairs statement_map)
    functions ←
        add_functions key file statements (get_field payload "fnMap") (get_field payload "f")
    add_istanbul_branches key file functions (get_field payload "branchMap") (get_field payload "b")

  unfoldable pub parse_istanbul : String → List ℕ → Option String → AppResult CoverageReport
  parse_istanbul path bytes repo = do
    document ← json_value dec bytes
    object ← ok_or (as_object document) (parse_error "Istanbul JSON must be an object")
    reject_if (not (looks_like_istanbul object)) (
        parse_error "Istanbul JSON must contain coverage objects with statementMap/s/f/branchMap/b")
    b ← fold_result add_istanbul_file (new repo) (pairs object)
    ok (
        build b "istanbul" path
          ("Istanbul statement coverage is normalized to the starting line of each statement." ∷ [])
          no_details)
