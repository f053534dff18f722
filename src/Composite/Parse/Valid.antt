-- ===== src/Composite/Parse/Valid.antt =====
-- What an inventory that `parse_inventory` of src/composite.rs accepts is.
use coverage_mcp.Prelude.{
  ℕ, ◌≡◌, refl, ◌⊎◌, inl, inr, false, not, ◌&&◌, ◌||◌, Bool-cases, String, Option, none, some, List,
  [], All, IsDistinct, map, is_nil, is_some, not-false, str_eq, eq_iff, arith,
}
use coverage_mcp.Prelude.Int.{pos, ◌≤ℤ◌, ltb_ℤ}
use coverage_mcp.Order.{text_ord, int_ord, pair_ord}
use coverage_mcp.Error.{AppResult, ok, ok_or, map_result}
use coverage_mcp.Error.Ensures.{
  Ensures, Ensures-ok, Ensures-err, Ensures-bind, Ensures-then, Ensures-check, Ensures-map,
  Ensures-reject_if,
}
use coverage_mcp.Json.{Value, Fields, as_object, get_field}
use coverage_mcp.Text.{is_empty, to_lowercase}
use coverage_mcp.Parser.{Decoders}
use coverage_mcp.Composite.{InventoryRegion, InventoryEntry, Inventory}
use coverage_mcp.Composite.Parse.{
  inventory_schema, mapping_version, array_at, artifact_value, string_array, required_object_string,
  first_duplicate,
}
use coverage_mcp.Composite.Parse.Checked.{
  IsRelative, IsHash, required_object_string-filled, positive_integer-positive,
  validate_inventory_path-IsRelative, validate_sha256-IsHash,
}
use coverage_mcp.Composite.Parse.Distinct.{first_duplicate-IsDistinct}
use coverage_mcp.Composite.Parse.Inventory.{
  parse_inventory_region, or_array, expected_formats_of, triple, parse_regions, check_production,
  parse_inventory_entry, id_of, check_ids, parse_inventory,
}

pub record IsRegion (r : InventoryRegion) : Type 0 where
  pub positive : pos 1 ≤ℤ r.start_line
  pub forward : r.start_line ≤ℤ r.end_line
  pub named : is_empty r.discriminator ≡ false

pub record IsEntry (e : InventoryEntry) : Type 0 where
  pub named : is_empty e.logical_source_id ≡ false
  pub inside : IsRelative e.path
  pub hashed : IsHash e.source_hash
  pub role : (e.role ≡ "production") ⊎ (e.role ≡ "catalogue")
  pub variants : IsDistinct e.variants
  pub regions : All IsRegion e.regions
  pub distinct : IsDistinct (map triple e.regions)
  pub produced :
      e.role ≡ "production"
      → (is_nil e.regions ≡ false)
        × ((is_nil e.variants ≡ false) × (is_nil e.expected_formats ≡ false))

pub record IsInventory (i : Inventory) : Type 0 where
  pub schema : i.schema ≡ inventory_schema
  pub mapping : i.mapping_version ≡ mapping_version
  pub filled : is_nil i.entries ≡ false
  pub entries : All IsEntry i.entries
  pub ids : IsDistinct (map id_of i.entries)

parse_inventory_region-IsRegion : (v : Value) → Ensures IsRegion (parse_inventory_region v)
unfolding parse_inventory_region
parse_inventory_region-IsRegion v = Ensures-bind (ok_or (as_object v) _) _ λ object.
    Ensures-then _ _
      (positive_integer-positive (get_field object "start_line") "inventory region start_line")
      λ first p.
        Ensures-then _ _
          (positive_integer-positive (get_field object "end_line") "inventory region end_line")
          λ last q. Ensures-check (ltb_ℤ last first) _ _ λ h.
            Ensures-then _ _
              (required_object_string-filled object "discriminator" "inventory region")
              λ name n.
                Ensures-ok _ (record { positive = p; forward = ground (arith, h); named = n })

is_none-none {ℓ} : {A : Type ℓ} (o : Option A) → is_some o ≡ false → o ≡ none
is_none-none none h = refl
is_none-none (some a) h = cc

parse_regions-All :
    (object : Fields) (id : String)
    → Ensures (λ rs. All IsRegion rs × IsDistinct (map triple rs)) (parse_regions object id)
unfolding parse_regions
parse_regions-All object id =
    Ensures-bind
      (ok_or (or_array (get_field object "regions") (get_field object "expected_regions")) _) _
      λ values.
        Ensures-then (map_result parse_inventory_region values) _
          (Ensures-map IsRegion parse_inventory_region values parse_inventory_region-IsRegion)
          λ rs valid. Ensures-check (is_some (first_duplicate [] (map triple rs))) _ _ λ h.
            Ensures-ok rs (valid, first_duplicate-IsDistinct (map triple rs) (is_none-none _ h))

abbrev IsProduced : String → List InventoryRegion → List String → List String → Type 0
IsProduced role regions variants formats =
    role ≡ "production"
    → (is_nil regions ≡ false) × ((is_nil variants ≡ false) × (is_nil formats ≡ false))

check_production-IsProduced :
    (id role : String) (regions : List InventoryRegion) (variants formats : List String)
    → Ensures
        (λ _. IsProduced role regions variants formats)
        (check_production id role regions variants formats)
unfolding check_production
check_production-IsProduced id role regions variants formats =
    Ensures-check (str_eq role "production" && is_nil regions) _ _ λ h.
      Ensures-check (is_nil variants && str_eq role "production") _ _ λ k. record {
        at = λ u l produced.
            let m = (Ensures-reject_if (is_nil formats && str_eq role "production") _).at u l in
            let is = (eq_iff role "production").1 produced in ground (arith, h, k, m, is);
      }

role_known :
    (role : String)
    → not (str_eq role "production" || str_eq role "catalogue") ≡ false
    → (role ≡ "production") ⊎ (role ≡ "catalogue")
role_known role h = elim (Bool-cases (str_eq role "production")) [
  | inl is ↦ inl ((eq_iff role "production").0 is)
  | inr other ↦ inr ((eq_iff role "catalogue").0 (ground (arith, h, other)))
]

parse_inventory_entry-IsEntry : (v : Value) → Ensures IsEntry (parse_inventory_entry v)
unfolding parse_inventory_entry
parse_inventory_entry-IsEntry v = Ensures-bind (ok_or (as_object v) _) _ λ object.
    Ensures-then _ _ (required_object_string-filled object "logical_source_id" "inventory entry")
      λ id named. Ensures-bind (required_object_string object "path" "inventory entry") _ λ path.
        Ensures-then _ _ (validate_inventory_path-IsRelative path) λ _ inside.
          Ensures-bind (required_object_string object "package" "inventory entry") _ λ package_name.
            Ensures-bind (required_object_string object "language" "inventory entry") _ λ language.
              Ensures-bind (required_object_string object "role" "inventory entry") _ λ role.
                Ensures-check (not (str_eq role "production" || str_eq role "catalogue")) _ _
                  λ known.
                    Ensures-bind (required_object_string object "source_hash" "inventory entry") _
                      λ hash.
                        Ensures-then _ _ (validate_sha256-IsHash (to_lowercase hash) _) λ _ hashed.
                          Ensures-bind
                            (string_array (get_field object "variants") "inventory entry variants")
                            _
                            λ variants.
                              Ensures-bind
                                (string_array (get_field object "expected_formats")
                                  "inventory entry expected_formats")
                                _
                                λ formats.
                                  Ensures-check (is_some (first_duplicate [] variants)) _ _ λ once.
                                    Ensures-then _ _ (parse_regions-All object id) λ regions valid.
                                      Ensures-then _ _
                                        (check_production-IsProduced id role regions variants
                                          (expected_formats_of formats))
                                        λ _ produced. Ensures-ok _ (record {
                                          named = named;
                                          inside = inside;
                                          hashed = hashed;
                                          role = role_known role known;
                                          variants =
                                              first_duplicate-IsDistinct variants
                                                (is_none-none _ once);
                                          regions = valid.0;
                                          distinct = valid.1;
                                          produced = produced;
                                        })

check_ids-none : (d : Option String) → Ensures (λ _. d ≡ none) (check_ids d)
check_ids-none none = Ensures-ok tt refl
check_ids-none (some id) = Ensures-err _

parsed_inventory :
    (dec : Decoders) (content : AppResult (List ℕ))
    → Ensures IsInventory (parse_inventory dec content)
unfolding parse_inventory
parsed_inventory dec content = Ensures-bind (artifact_value dec content _) _ λ value.
    Ensures-bind (ok_or (as_object value) _) _ λ object.
      Ensures-bind (required_object_string object "schema" "composite inventory") _ λ schema.
        Ensures-check (not (str_eq schema inventory_schema)) _ _ λ same.
          Ensures-bind (required_object_string object "mapping_version" "composite inventory") _
            λ mapping. Ensures-check (not (str_eq mapping mapping_version)) _ _ λ mapped.
              Ensures-bind (required_object_string object "source_revision" "composite inventory") _
                λ revision.
                  Ensures-bind (ok_or (array_at (get_field object "entries")) _) _ λ values.
                    Ensures-then (map_result parse_inventory_entry values) _
                      (Ensures-map IsEntry parse_inventory_entry values
                        parse_inventory_entry-IsEntry)
                      λ entries valid. Ensures-check (is_nil entries) _ _ λ filled.
                        Ensures-then (check_ids (first_duplicate [] (map id_of entries))) _
                          (check_ids-none (first_duplicate [] (map id_of entries)))
                          λ _ once. Ensures-ok _ (record {
                            schema = (eq_iff schema inventory_schema).0 (not-false _ same);
                            mapping = (eq_iff mapping mapping_version).0 (not-false _ mapped);
                            filled = filled;
                            entries = valid;
                            ids = first_duplicate-IsDistinct (map id_of entries) once;
                          })

-- Whatever the content and whatever its bytes decode to: an inventory that is accepted has the two
-- versions that the program supports and at least one entry, no id stands twice, and each entry
-- has a path inside the repository, a SHA-256 in hexadecimal, one of the two roles, variants that
-- are distinct, and distinct regions, each on positive lines in order with a discriminator; an
-- entry of production has regions, variants and expected formats.
pub parse_inventory-IsInventory :
    (dec : Decoders) (content : AppResult (List ℕ)) (inventory : Inventory)
    → parse_inventory dec content ≡ ok inventory
    → IsInventory inventory
parse_inventory-IsInventory dec content inventory parsed =
    (parsed_inventory dec content).at inventory parsed
