-- ===== src/Composite/Parse.antt =====
-- src/composite.rs: the descriptor of an artifact, and what the parsers of artifacts share. Reading a
-- file and decoding its JSON are parameters.
pub mod Inventory
pub mod Artifact
pub mod Derive
pub mod Distinct
pub mod Checked
pub mod Valid
pub mod Evidence
use Prim.Native.Char.{Char, code}
use coverage_mcp.Prelude.{
  ℕ, suc, String, Bool, true, false, not, ◌&&◌, ◌||◌, Option, none, some, List, [], ◌∷◌, ◌==◌, leb,
  ltb, str_eq, any, is_nil, unwrap_or, length, if◌then◌else◌,
}
use coverage_mcp.Prelude.Int.{ℤ, pos, ltb_ℤ}
use coverage_mcp.Order.{Ord, text_ord, pair_ord}
use coverage_mcp.BTree
use coverage_mcp.BTree.{BTreeSet}
use coverage_mcp.Error.{AppResult, ok, err, validation, ◌>>=◌, ◌>>◌, ok_or, reject_if, map_result}
use coverage_mcp.Json.{
  Value, Fields, obj, end, as_str, as_i64, as_array, as_object, is_object, get_field, lookup,
}
use coverage_mcp.Models.Paths.{is_absolute}
use coverage_mcp.Text.{is_empty, char_count, trim, concat}
use coverage_mcp.Text.Split.{split}
use coverage_mcp.Parser.{Decoders, decoded, failed}
use coverage_mcp.Composite.{
  LogicalSourceAlias, CompositeArtifactDescriptor, normalize_composite_format,
}

abbrev pub regions_schema : String
regions_schema = "coverage-mcp-regions-v1"

abbrev pub inventory_schema : String
inventory_schema = "coverage-mcp-inventory-v1"

abbrev pub mapping_version : String
mapping_version = "coverage-mcp-regions-v1"

abbrev pub inventory_format : String
inventory_format = "coverage-mcp-inventory-v1"

abbrev pub refuse {ℓ} : {A : Type ℓ} → List String → AppResult A
refuse message = err (validation (concat message))

-- the value that an artifact holds, from its bytes or the error of reading them
abbrev pub artifact_value : Decoders → AppResult (List ℕ) → String → AppResult Value
artifact_value dec content message = content >>= λ bytes. elim (dec.from_slice bytes) [
  | decoded value ↦ ok value
  | failed e ↦ refuse (message ∷ e ∷ [])
]

abbrev pub nonblank : Option String → Option String
nonblank none = none
nonblank (some text) = if is_empty (trim text) then none else some (trim text)

-- a text without the white space around it, unless nothing else is there
unfoldable pub trimmed : Option Value → Option String
unfolding trim
trimmed none = none
trimmed (some value) = nonblank (as_str value)

unfoldable pub required_object_string : Fields → String → String → AppResult String
unfolding trimmed
required_object_string object key context =
    ok_or (trimmed (get_field object key))
      (validation (concat (context ∷ "." ∷ key ∷ " must be a non-blank string" ∷ [])))

-- the array that is there
abbrev pub array_at : Option Value → Option (List Value)
array_at none = none
array_at (some value) = as_array value

abbrev values_of : Option Value → String → AppResult (List Value)
values_of none context = ok []
values_of (some value) context =
    ok_or (as_array value) (validation (concat (context ∷ " must be an array" ∷ [])))

-- `string_array`
unfoldable pub string_array : Option Value → String → AppResult (List String)
unfolding trimmed map_result
string_array value context =
    values_of value context
    >>= map_result (λ v.
      ok_or (trimmed (some v)) (validation (concat (context ∷ " must contain strings" ∷ []))))

abbrev pub integer_of : Option Value → Option ℤ
integer_of none = none
integer_of (some value) = as_i64 value

unfoldable pub positive_integer : Option Value → String → AppResult ℤ
positive_integer value context = do
  number ←
      ok_or (integer_of value) (validation (concat (context ∷ " must be a positive integer" ∷ [])))
  reject_if (ltb_ℤ number (pos 1))
      (validation (concat (context ∷ " must be a positive integer" ∷ [])))
  ok number

unfoldable pub positive_or_zero : Value → String → AppResult ℤ
positive_or_zero value context = do
  number ← ok_or (as_i64 value) (validation (concat (context ∷ " must be an integer" ∷ [])))
  reject_if (ltb_ℤ number (pos 0)) (validation (concat (context ∷ " must be non-negative" ∷ [])))
  ok number

-- `Path::components` has a parent folder, or the path is absolute
unfoldable pub validate_inventory_path : String → AppResult (Unit {0})
unfolding split
validate_inventory_path path =
    reject_if (is_absolute path || any (λ part. str_eq part "..") (split b'/' path))
      (validation "inventory entry path must be repository-relative")

abbrev pub is_hexdigit : Char → Bool
is_hexdigit c =
    let n = code c in (leb 48 n && leb n 57) || ((leb 65 n && leb n 70) || (leb 97 n && leb n 102))

abbrev pub all_hexdigits : String → Bool
all_hexdigits String.[] = true
all_hexdigits (String.◌∷◌ c s) = is_hexdigit c && all_hexdigits s

-- Its `len` is the number of characters where all are hexadecimal digits.
unfoldable pub validate_sha256 : String → String → AppResult (Unit {0})
unfolding char_count
validate_sha256 value context =
    reject_if (not (char_count value == 64) || not (all_hexdigits value)) (
      validation (concat (context ∷ ".source_hash must be a 64-character SHA-256 hex string" ∷ [])))

-- The first key that a set already has, of the keys that a loop inserts one by one.
unfoldable pub first_duplicate {ℓ} : {K : Type ℓ} ⦃o : Ord K⦄ → BTreeSet K → List K → Option K
first_duplicate seen [] = none
first_duplicate seen (k ∷ ks) =
    let rest = first_duplicate (BTree.add seen k) ks in
    if BTree.contains seen k then some k else rest

-- one entry of `parse_aliases`, behind the others
abbrev alias_of : Value → AppResult LogicalSourceAlias
alias_of value = do
  object ←
      ok_or (as_object value)
        (validation "composite.logical_source_aliases entries must be objects")
  path ← required_object_string object "path" "logical source alias"
  id ← required_object_string object "logical_source_id" "logical source alias"
  ok (record { path = path; logical_source_id = id })

unfoldable pub add_aliases :
    BTreeSet (String × String) → List Value → AppResult (List LogicalSourceAlias)
unfolding required_object_string
add_aliases seen [] = ok []
add_aliases seen (value ∷ rest) = do
  alias ← alias_of value
  reject_if (BTree.contains seen (alias.path, alias.logical_source_id))
      (validation "composite.logical_source_aliases must not contain duplicates")
  more ← add_aliases (BTree.add seen (alias.path, alias.logical_source_id)) rest
  ok (alias ∷ more)

unfoldable pub parse_aliases : Option Value → AppResult (List LogicalSourceAlias)
unfolding add_aliases
parse_aliases none = ok []
parse_aliases (some value) =
    ok_or (as_array value) (
      validation
        "composite.logical_source_aliases must be an array of {path,logical_source_id} objects")
    >>= add_aliases []

abbrev text_of : Option Value → Option String
text_of none = none
text_of (some value) = as_str value

abbrev or_value : Option Value → Option Value → Option Value
or_value (some value) other = some value
or_value none other = other

abbrev required : Fields → String → AppResult String
required object name =
    ok_or (trimmed (get_field object name)) (
      validation
        (concat ("composite." ∷ name ∷ " is required and must be a non-blank string" ∷ [])))

-- the descriptor that the metadata of an artifact hold
unfoldable pub descriptor_of : Fields → AppResult CompositeArtifactDescriptor
unfolding parse_aliases trimmed normalize_composite_format
descriptor_of object = do
  let role = trim (unwrap_or (text_of (get_field object "role")) "coverage")
  reject_if (not (str_eq role "coverage" || str_eq role "inventory"))
      (validation "composite.role must be coverage or inventory")
  aliases ← parse_aliases (get_field object "logical_source_aliases")
  reject_if (str_eq role "coverage" && is_nil aliases)
      (validation "composite.logical_source_aliases is required for coverage artifacts")
  let toolchains = unwrap_or (get_field object "toolchain_versions") (obj end)
  reject_if (not (is_object toolchains))
      (validation "composite.toolchain_versions must be an object")
  component ← required object "component_id"
  variant ← required object "package_variant"
  language ← required object "language"
  let format =
      unwrap_or
        (trimmed (or_value (get_field object "format") (get_field object "coverage_format")))
        (if str_eq role "inventory" then inventory_format else "auto")
  inventory ← required object "inventory_artifact"
  ok (record {
    component_id = component;
    package_variant = variant;
    language = language;
    format = normalize_composite_format format;
    inventory_artifact = inventory;
    role = role;
    logical_source_aliases = aliases;
    toolchain_versions = toolchains;
  })

unfoldable pub composite_descriptor : Value → AppResult (Option CompositeArtifactDescriptor)
unfolding descriptor_of
composite_descriptor spec = elim (lookup spec "composite") [
  | none ↦ ok none
  | some raw ↦
      ok_or (as_object raw) (validation "artifact composite metadata must be an object")
      >>= λ object. descriptor_of object >>= λ descriptor. ok (some descriptor)
]
