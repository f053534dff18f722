-- ===== src/Parser/Sound/Llvm.antt =====
-- `parse_llvm` keeps the builder valid.
use coverage_mcp.Prelude.{
  String, Bool, true, false, Option, none, some, List, [], ◌∷◌, if◌then◌else◌,
}
use coverage_mcp.Error.{fold_result, ok_or}
use coverage_mcp.Error.Ensures.{Ensures-then, Ensures-err}
use coverage_mcp.Json.{Value, Fields, as_array, get_field}
use coverage_mcp.Models.Builder.{new}
use coverage_mcp.Parser.Llvm.{
  Records, BranchRows, segment_values, add_segment, add_segments, add_llvm_branch,
  add_llvm_branches, put_metrics, add_payload, add_llvm_file, add_unit,
}
use coverage_mcp.Error.Ensures.{Ensures, Ensures-ok, Ensures-bind, Ensures-fold, ensures_rules}
use coverage_mcp.Models.Paths.{FileSystem}
use coverage_mcp.Models.Builder.{CoverageBuilder}
use coverage_mcp.Models.Valid.{IsValid, new-IsValid, add_file_metrics-IsValid}
use coverage_mcp.Parser.{Decoders, parse_error}
use coverage_mcp.Parser.Sound.{add_counted-IsValid, add_branches-IsValid}

-- either branch of a test keeps it
if-IsValid :
    (fs : FileSystem) (test : Bool) (a b : CoverageBuilder)
    → IsValid fs a
    → IsValid fs b
    → IsValid fs (if test then a else b)
if-IsValid fs true a b va vb = va
if-IsValid fs false a b va vb = vb

module _ (dec : Decoders) (fs : FileSystem) where
  segment_values-Keeps :
      (b : CoverageBuilder) (file : String) (values : List Value)
      → IsValid fs b
      → Ensures (IsValid fs) (segment_values dec fs b file values)
  unfolding segment_values
  segment_values-Keeps b file [] v = Ensures-err _
  segment_values-Keeps b file (_ ∷ []) v = Ensures-err _
  segment_values-Keeps b file (_ ∷ _ ∷ []) v = Ensures-err _
  segment_values-Keeps b file (_ ∷ _ ∷ _ ∷ []) v = Ensures-err _
  segment_values-Keeps b file (line ∷ column ∷ count ∷ flag ∷ rest) v =
      search (ensures_rules, if-IsValid, add_counted-IsValid) depth 12

  add_segment-Keeps :
      (file : String) (b : CoverageBuilder) (segment : Value)
      → IsValid fs b
      → Ensures (IsValid fs) (add_segment dec fs file b segment)
  unfolding add_segment
  add_segment-Keeps file b segment v = search (ensures_rules, segment_values-Keeps) depth 12

  segments-Keeps :
      (file : String) (b : CoverageBuilder) (segments : List Value)
      → IsValid fs b
      → Ensures (IsValid fs) (fold_result (add_segment dec fs file) b segments)
  segments-Keeps file b segments v = Ensures-fold _ b segments (add_segment-Keeps file) v

  add_segments-Keeps :
      (file : String) (b : CoverageBuilder) (segments : Option Value)
      → IsValid fs b
      → Ensures (IsValid fs) (add_segments dec fs file b segments)
  unfolding add_segments
  add_segments-Keeps file b none v = Ensures-ok b v
  add_segments-Keeps file b (some segments) v = search (ensures_rules, segments-Keeps) depth 12

  abbrev Keeps : BranchRows → Type 0
  Keeps r = IsValid fs r.builder

  add_llvm_branch-Keeps :
      (file : String) (r : BranchRows) (branch : Value)
      → Keeps r
      → Ensures Keeps (add_llvm_branch dec fs file r branch)
  unfolding add_llvm_branch
  add_llvm_branch-Keeps file r branch v = search (ensures_rules, add_branches-IsValid) depth 12

  add_llvm_branches-Keeps :
      (file : String) (b : CoverageBuilder) (branches : Option Value)
      → IsValid fs b
      → Ensures
          (λ (r : CoverageBuilder × Option (List Value)). IsValid fs r.0)
          (add_llvm_branches dec fs file b branches)
  unfolding add_llvm_branches
  add_llvm_branches-Keeps file b none v = Ensures-ok _ v
  add_llvm_branches-Keeps file b (some value) v =
      Ensures-bind (ok_or (as_array value) (parse_error "LLVM branches must be an array")) _
        λ branches.
          Ensures-then _ _
            (Ensures-fold {P = Keeps} (add_llvm_branch dec fs file)
              (record { builder = b; normalized = [] }) branches (add_llvm_branch-Keeps file) v)
            λ r k. Ensures-ok _ k

  put_metrics-IsValid :
      (b : CoverageBuilder) (file : String) (metrics : Option Fields)
      → IsValid fs b
      → IsValid fs (put_metrics dec fs b file metrics)
  unfolding put_metrics
  put_metrics-IsValid b file none v = v
  put_metrics-IsValid b file (some metrics) v = add_file_metrics-IsValid fs b file metrics v

  add_payload-Keeps :
      (records : Records) (b : CoverageBuilder) (payload : Fields) (file : String)
      → IsValid fs b
      → Ensures (IsValid fs) (add_payload dec fs records b payload file)
  unfolding add_payload
  add_payload-Keeps records b payload file v =
      Ensures-then _ _ (add_segments-Keeps file b (get_field payload "segments") v) λ s hs.
        Ensures-then _ _ (add_llvm_branches-Keeps file s (get_field payload "branches") hs)
          λ r hr. search (ensures_rules, put_metrics-IsValid) depth 12

  add_llvm_file-Keeps :
      (records : Records) (b : CoverageBuilder) (value : Value)
      → IsValid fs b
      → Ensures (IsValid fs) (add_llvm_file dec fs records b value)
  unfolding add_llvm_file
  add_llvm_file-Keeps records b value v = search (ensures_rules, add_payload-Keeps) depth 12

  llvm_files-Keeps :
      (records : Records) (b : CoverageBuilder) (files : List Value)
      → IsValid fs b
      → Ensures (IsValid fs) (fold_result (add_llvm_file dec fs records) b files)
  llvm_files-Keeps records b files v = Ensures-fold _ b files (add_llvm_file-Keeps records) v

  add_unit-Keeps :
      (b : CoverageBuilder) (value : Value)
      → IsValid fs b
      → Ensures (IsValid fs) (add_unit dec fs b value)
  unfolding add_unit
  add_unit-Keeps b value v = search (ensures_rules, llvm_files-Keeps) depth 12

  pub units-Keeps :
      (repo : Option String) (units : List Value)
      → Ensures (IsValid fs) (fold_result (add_unit dec fs) (new repo) units)
  units-Keeps repo units = Ensures-fold _ _ units add_unit-Keeps (new-IsValid fs repo)
