-- ===== src/Parser/Llvm/Functions.antt =====
-- The functions of `parse_llvm` of src/parser.rs: their validation, and the record of each file.
use coverage_mcp.Prelude.{
  String, Option, none, some, List, [], ◌∷◌, ◌++◌, length, take, ltb, if◌then◌else◌,
}
use coverage_mcp.Order.{text_ord}
use coverage_mcp.BTree
use coverage_mcp.BTree.{BTreeMap}
use coverage_mcp.Error.{AppResult, ok, err, ◌>>=◌, ◌>>◌, ok_or, reject_if, fold_result}
use coverage_mcp.Json.{Value, Fields, as_array, as_object, as_str, get_field}
use coverage_mcp.Text.{is_empty, concat}
use coverage_mcp.Parser.{Decoders, parse_error}
use coverage_mcp.Parser.Number.{value_i64}

abbrev pub array_or : Option Value → String → AppResult (List Value)
array_or none message = err (parse_error message)
array_or (some value) message = ok_or (as_array value) (parse_error message)

abbrev pub object_or : Value → String → AppResult Fields
object_or value message = ok_or (as_object value) (parse_error message)

-- a text that is there and not empty
abbrev pub text_or : Option Value → String → AppResult String
text_or none message = err (parse_error message)
text_or (some value) message = elim (as_str value) [
  | none ↦ err (parse_error message)
  | some text ↦ if is_empty text then err (parse_error message) else ok text
]

-- the functions of each file
abbrev pub Records : Type 0
Records = BTreeMap String (List Value)

module _ (dec : Decoders) where
  unfoldable pub all_numbers : List Value → AppResult (Unit {0})
  all_numbers [] = ok tt
  all_numbers (value ∷ rest) = value_i64 dec value >>= λ _. all_numbers rest

  unfoldable pub validate_llvm_function_region : String → Value → AppResult (Unit {0})
  validate_llvm_function_region kind value = do
    values ←
        ok_or (as_array value)
          (parse_error (concat ("LLVM function " ∷ kind ∷ " must be an array" ∷ [])))
    reject_if (ltb (length values) 8) (
        parse_error (
          concat ("LLVM function " ∷ kind ∷ " must contain source range and coverage fields" ∷ [])))
    all_numbers (take 8 values)

  unfoldable pub validate_regions : String → List Value → AppResult (Unit {0})
  validate_regions kind [] = ok tt
  validate_regions kind (value ∷ rest) =
      validate_llvm_function_region kind value >> validate_regions kind rest

  -- the function under the name of each of its files
  unfoldable pub record_function : Value → Records → Value → AppResult Records
  record_function function records filename = do
    name ← text_or (some filename) "LLVM function filename must be a non-empty string"
    ok (BTree.upsert records name (λ known. known ++ function ∷ []) (function ∷ []))

  unfoldable pub validate_branches : Option Value → AppResult (Unit {0})
  validate_branches none = ok tt
  validate_branches (some value) =
      ok_or (as_array value) (parse_error "LLVM function branches must be an array")
      >>= validate_regions "branch"

  unfoldable pub add_llvm_function : Records → Value → AppResult Records
  add_llvm_function records function = do
    object ← object_or function "LLVM function entry must be an object"
    _ ← text_or (get_field object "name") "LLVM function entry is missing name"
    count ← ok_or (get_field object "count") (parse_error "LLVM function entry is missing count")
    _ ← value_i64 dec count
    filenames ← array_or (get_field object "filenames") "LLVM function entry must contain filenames"
    regions ← array_or (get_field object "regions") "LLVM function entry must contain regions"
    validate_regions "region" regions
    validate_branches (get_field object "branches")
    fold_result (record_function function) records filenames

  unfoldable pub function_records : Option Value → AppResult Records
  function_records none = ok []
  function_records (some value) =
      ok_or (as_array value) (parse_error "LLVM functions must be an array")
      >>= fold_result add_llvm_function []
