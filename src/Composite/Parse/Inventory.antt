-- ===== src/Composite/Parse/Inventory.antt =====
-- `parse_inventory` of src/composite.rs.
use coverage_mcp.Prelude.{
  ℕ, String, not, ◌&&◌, ◌||◌, Option, none, some, List, [], ◌∷◌, map, str_eq, is_nil, is_some,
  unwrap_or, if◌then◌else◌,
}
use coverage_mcp.Prelude.Int.{ℤ, ltb_ℤ}
use coverage_mcp.Order.{text_ord, int_ord, pair_ord}
use coverage_mcp.Sort.{sort_by}
use coverage_mcp.Error.{AppResult, ok, err, validation, ◌>>=◌, ◌>>◌, ok_or, reject_if, map_result}
use coverage_mcp.Json.{Value, Fields, as_array, as_object, get_field}
use coverage_mcp.Text.{concat, to_lowercase}
use coverage_mcp.Parser.{Decoders}
use coverage_mcp.Composite.{InventoryRegion, InventoryEntry, Inventory, normalize_composite_format}
use coverage_mcp.Composite.Parse.{
  inventory_schema, mapping_version, artifact_value, array_at, trimmed, required_object_string,
  string_array, positive_integer, validate_inventory_path, validate_sha256, first_duplicate,
}

unfoldable pub parse_inventory_region : Value → AppResult InventoryRegion
unfolding positive_integer required_object_string
parse_inventory_region value = do
  object ← ok_or (as_object value) (validation "inventory regions must be objects")
  start ← positive_integer (get_field object "start_line") "inventory region start_line"
  end ← positive_integer (get_field object "end_line") "inventory region end_line"
  reject_if (ltb_ℤ end start) (validation "inventory region end_line must be >= start_line")
  discriminator ← required_object_string object "discriminator" "inventory region"
  ok (record { start_line = start; end_line = end; discriminator = discriminator })

-- `Vec::dedup`
unfoldable pub dedup : List String → List String
dedup [] = []
dedup (s ∷ []) = s ∷ []
dedup (s ∷ t ∷ rest) = let more = dedup (t ∷ rest) in if str_eq s t then more else s ∷ more

-- the formats under their stable names, sorted, each once
unfoldable pub expected_formats_of : List String → List String
unfolding dedup sort_by normalize_composite_format
expected_formats_of formats = dedup (sort_by text_ord.cmp (map normalize_composite_format formats))

-- `start_line`, `end_line` and `discriminator`
abbrev pub triple : InventoryRegion → ℤ × (ℤ × String)
triple region = (region.start_line, (region.end_line, region.discriminator))

abbrev about : String → String → List String
about id message = "inventory entry " ∷ id ∷ message ∷ []

abbrev pub or_array : Option Value → Option Value → Option (List Value)
or_array (some value) other = as_array value
or_array none none = none
or_array none (some value) = as_array value

unfoldable pub parse_regions : Fields → String → AppResult (List InventoryRegion)
unfolding parse_inventory_region map_result first_duplicate
parse_regions object id = do
  values ←
      ok_or (or_array (get_field object "regions") (get_field object "expected_regions"))
        (validation (concat (about id " must contain regions")))
  regions ← map_result parse_inventory_region values
  reject_if (is_some (first_duplicate [] (map triple regions)))
      (validation (concat (about id " regions must not contain duplicates")))
  ok regions

-- what an entry of production must have
unfoldable pub check_production :
    String → String → List InventoryRegion → List String → List String → AppResult (Unit {0})
check_production id role regions variants formats = do
  reject_if (str_eq role "production" && is_nil regions)
      (validation (concat ("production " ∷ about id " must contain regions")))
  reject_if (is_nil variants && str_eq role "production")
      (validation (concat ("production " ∷ about id " must declare variants")))
  reject_if (is_nil formats && str_eq role "production")
      (validation (concat ("production " ∷ about id " must declare expected_formats")))

unfoldable pub parse_inventory_entry : Value → AppResult InventoryEntry
unfolding required_object_string validate_inventory_path trimmed validate_sha256 string_array
    first_duplicate expected_formats_of parse_regions check_production to_lowercase
parse_inventory_entry value = do
  object ← ok_or (as_object value) (validation "composite inventory entries must be objects")
  id ← required_object_string object "logical_source_id" "inventory entry"
  path ← required_object_string object "path" "inventory entry"
  validate_inventory_path path
  package_name ← required_object_string object "package" "inventory entry"
  let component = unwrap_or (trimmed (get_field object "component_id")) package_name
  language ← required_object_string object "language" "inventory entry"
  role ← required_object_string object "role" "inventory entry"
  reject_if (not (str_eq role "production" || str_eq role "catalogue"))
      (validation (concat (about id " role must be production or catalogue")))
  hash ← required_object_string object "source_hash" "inventory entry"
  validate_sha256 (to_lowercase hash) (concat (about id ""))
  variants ← string_array (get_field object "variants") "inventory entry variants"
  formats ← string_array (get_field object "expected_formats") "inventory entry expected_formats"
  reject_if (is_some (first_duplicate [] variants))
      (validation (concat (about id " variants must not contain duplicates")))
  regions ← parse_regions object id
  check_production id role regions variants (expected_formats_of formats)
  ok (record {
    logical_source_id = id;
    path = path;
    package_name = package_name;
    component_id = component;
    language = to_lowercase language;
    role = role;
    source_hash = to_lowercase hash;
    variants = variants;
    expected_formats = expected_formats_of formats;
    regions = regions;
  })

abbrev pub id_of : InventoryEntry → String
id_of entry = entry.logical_source_id

-- the error for an id that two entries have
abbrev pub check_ids : Option String → AppResult (Unit {0})
check_ids none = ok tt
check_ids (some id) =
    err (validation (concat ("composite inventory logical_source_id is duplicated: " ∷ id ∷ [])))

unfoldable pub parse_inventory : Decoders → AppResult (List ℕ) → AppResult Inventory
unfolding required_object_string parse_inventory_entry map_result first_duplicate
parse_inventory dec content = do
  value ← artifact_value dec content "invalid composite inventory JSON: "
  object ← ok_or (as_object value) (validation "composite inventory must be a JSON object")
  schema ← required_object_string object "schema" "composite inventory"
  reject_if (not (str_eq schema inventory_schema))
      (validation (concat ("unsupported composite inventory schema: " ∷ schema ∷ [])))
  mapping ← required_object_string object "mapping_version" "composite inventory"
  reject_if (not (str_eq mapping mapping_version))
      (validation (concat ("unsupported composite mapping version: " ∷ mapping ∷ [])))
  revision ← required_object_string object "source_revision" "composite inventory"
  values ←
      ok_or (array_at (get_field object "entries"))
        (validation "composite inventory.entries must be an array")
  entries ← map_result parse_inventory_entry values
  reject_if (is_nil entries) (validation "composite inventory.entries must not be empty")
  check_ids (first_duplicate [] (map id_of entries))
  ok (record {
    schema = schema;
    mapping_version = mapping;
    source_revision = revision;
    entries = entries;
  })
