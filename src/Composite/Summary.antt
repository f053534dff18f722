-- ===== src/Composite/Summary.antt =====
-- `component_summaries` (src/composite.rs): how much of each component is covered.
use coverage_mcp.Prelude.{
  is_nil, ℕ, String, Bool, ◌&&◌, ◌||◌, List, [], ◌∷◌, count, length, ltb, map, str_eq, ◌==◌,
  if◌then◌else◌,
}
use coverage_mcp.Order.{text_ord, pair_ord}
use coverage_mcp.BTree
use coverage_mcp.BTree.{BTreeMap, BTreeSet, keys}
use coverage_mcp.Composite.{ExpectedRegion}

pub record ComponentSummary : Type 0 where
  pub component : String
  pub covered_regions : ℕ
  pub total_regions : ℕ
  pub is_complete : Bool

abbrev component_of : String → String
component_of language =
    if str_eq language "rust" || str_eq language "wgsl" || str_eq language "wasm"
    then "rust"
    else if str_eq language "python"
    then "python"
    else if str_eq language "javascript" || str_eq language "js"
    then "javascript"
    else "other"

-- the keys of one component
unfoldable component_keys : String → BTreeMap String ExpectedRegion → List String
component_keys component [] = []
component_keys component ((key, entry) ∷ expected) =
    let rest = component_keys component expected in
    if str_eq (component_of entry.language) component then key ∷ rest else rest

-- One summary of `component_summaries`. A rate is left to its two numbers.
unfoldable component_summary :
    BTreeMap String ExpectedRegion → BTreeSet String → BTreeSet String → String → ComponentSummary
unfolding component_keys BTree.contains_key
component_summary expected covered_keys reasons component =
    let ks = component_keys component expected in
    let covered_count = count (BTree.contains_key covered_keys) ks in
    record {
      component = component;
      covered_regions = covered_count;
      total_regions = length ks;
      is_complete = ltb 0 (length ks) && covered_count == length ks && is_nil reasons;
    }

unfoldable pub component_summaries :
    BTreeMap String ExpectedRegion → BTreeSet String → BTreeSet String → List ComponentSummary
unfolding component_summary
component_summaries expected covered_keys reasons =
    map (component_summary expected covered_keys reasons) ("rust" ∷ "python" ∷ "javascript" ∷ [])
