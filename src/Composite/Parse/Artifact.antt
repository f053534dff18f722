-- ===== src/Composite/Parse/Artifact.antt =====
-- The canonical regions of an artifact: `parse_region_artifact_with_revision` of src/composite.rs.
use coverage_mcp.Prelude.{
  ℕ, String, Bool, not, Option, none, some, List, [], ◌∷◌, str_eq, unwrap_or,
}
use coverage_mcp.Prelude.Int.{ℤ, pos, ltb_ℤ}
use coverage_mcp.Error.{AppResult, ok, validation, ◌>>=◌, ◌>>◌, ok_or, reject_if, map_result}
use coverage_mcp.Json.{Value, as_str, as_bool, as_object, get_field}
use coverage_mcp.Text.{concat, to_lowercase}
use coverage_mcp.Parser.{Decoders}
use coverage_mcp.Composite.{CanonicalRegion}
use coverage_mcp.Composite.Parse.{
  regions_schema, mapping_version, artifact_value, array_at, required_object_string,
  positive_integer, positive_or_zero,
}

-- the hits of a region, none where it has none
abbrev hits_or_zero : Option Value → AppResult ℤ
hits_or_zero none = ok (pos 0)
hits_or_zero (some value) = positive_or_zero value "canonical region hits"

abbrev as_text : Option Value → Option String
as_text none = none
as_text (some value) = as_str value

abbrev as_flag : Option Value → Option Bool
as_flag none = none
as_flag (some value) = as_bool value

unfoldable pub parse_canonical_region : Value → AppResult CanonicalRegion
unfolding positive_integer positive_or_zero required_object_string to_lowercase
parse_canonical_region value = do
  object ← ok_or (as_object value) (validation "canonical region entries must be objects")
  path ← required_object_string object "path" "canonical region"
  start ← positive_integer (get_field object "start_line") "canonical region start_line"
  end ← positive_integer (get_field object "end_line") "canonical region end_line"
  reject_if (ltb_ℤ end start) (validation "canonical region end_line must be >= start_line")
  discriminator ← required_object_string object "discriminator" "canonical region"
  hits ← hits_or_zero (get_field object "hits")
  hash ← required_object_string object "source_hash" "canonical region"
  ok (record {
    path = path;
    logical_source_id = as_text (get_field object "logical_source_id");
    start_line = start;
    end_line = end;
    discriminator = discriminator;
    hits = hits;
    covered = unwrap_or (as_flag (get_field object "covered")) (ltb_ℤ (pos 0) hits);
    source_hash = some (to_lowercase hash);
  })

unfoldable pub parse_region_artifact_with_revision :
    Decoders → AppResult (List ℕ) → AppResult (String × List CanonicalRegion)
unfolding parse_canonical_region required_object_string map_result
parse_region_artifact_with_revision dec content = do
  value ← artifact_value dec content "invalid canonical region JSON: "
  object ← ok_or (as_object value) (validation "canonical region artifact must be a JSON object")
  schema ← required_object_string object "schema" "canonical region artifact"
  reject_if (not (str_eq schema regions_schema))
      (validation (concat ("unsupported canonical region schema: " ∷ schema ∷ [])))
  mapping ← required_object_string object "mapping_version" "canonical region artifact"
  reject_if (not (str_eq mapping mapping_version))
      (validation (concat ("unsupported canonical region mapping version: " ∷ mapping ∷ [])))
  revision ← required_object_string object "source_revision" "canonical region artifact"
  values ←
      ok_or (array_at (get_field object "regions"))
        (validation "canonical region artifact.regions must be an array")
  regions ← map_result parse_canonical_region values
  ok (revision, regions)

unfoldable pub parse_region_artifact :
    Decoders → AppResult (List ℕ) → AppResult (List CanonicalRegion)
unfolding parse_region_artifact_with_revision
parse_region_artifact dec content =
    parse_region_artifact_with_revision dec content >>= λ both. ok both.1
