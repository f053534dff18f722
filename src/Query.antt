-- ===== src/Query.antt =====
-- query.rs: the data of a coverage question, and what a report observes.
pub mod Observe
pub mod Groups
pub mod Incremental
pub mod Find
pub mod Bounded
pub mod Pages
pub mod Compare
pub mod Load
use Prim.Native.String.{len}
use coverage_mcp.Prelude.{
  ℕ, String, Bool, true, false, not, ◌&&◌, ◌||◌, Option, none, some, List, [], ◌∷◌, ltb, leb,
  str_eq, is_none_or, is_some_and, unwrap_or, if◌then◌else◌,
}
use coverage_mcp.Prelude.Int.{ℤ, pos, max_ℤ, leb_ℤ, ltb_ℤ, ◌-i64◌, wrap}
use coverage_mcp.Order.{text_ord}
use coverage_mcp.BTree
use coverage_mcp.BTree.{BTreeMap}
use coverage_mcp.Text.{concat, contains, is_empty, show_ℤ, to_lowercase}
use coverage_mcp.Error.{AppError, validation, AppResult, ok, err, ◌>>◌, reject_if}
use coverage_mcp.Json.{Value}
use coverage_mcp.Models.{
  CoverageReport, total_lines, covered_lines, total_branches, covered_branches, total_regions,
  covered_regions,
}

pub record FindRequest : Type 0 where
  pub measurement : Option String
  pub suite : Option String
  pub query : Option String
  pub line : Option ℤ
  pub metric : Option String
  pub limit : ℕ
  pub offset : ℕ

pub record CompareRequest : Type 0 where
  pub measurement : String
  pub baseline : String
  pub query : Option String
  pub metric : Option String
  pub scope : Option String
  pub previous : List String
  pub limit : ℕ

abbrev default_limit : ℕ
default_limit = 5

-- The `kind` of an observation and the metric of a question: one of three words.
pub data Metric : Type 0 where
  regions branches lines : Metric

-- The `arm` of an observation: "", "true" or "false".
pub data Arm : Type 0 where
  no_arm true_arm false_arm : Arm

abbrev metric_word : Metric → String
metric_word regions = "regions"
metric_word branches = "branches"
metric_word lines = "lines"

abbrev pub arm_word : Arm → String
arm_word no_arm = ""
arm_word true_arm = "true"
arm_word false_arm = "false"

-- `==` of metrics
abbrev pub same_metric : Metric → Metric → Bool
same_metric regions regions = true
same_metric branches branches = true
same_metric lines lines = true
same_metric _ _ = false

-- Start line and column, end line and column.
abbrev pub Span : Type 0
Span = ℤ × (ℤ × (ℤ × ℤ))

pub record Observation : Type 0 where
  pub path : String
  pub symbol : String
  pub span : Span
  pub kind : Metric
  pub arm : Arm
  pub hits : ℤ
  pub identity : Option String
  pub cause : Option String

abbrev pub Observations : Type 0
Observations = BTreeMap String Observation

pub data SourceState : Type 0 where
  unverified matches_receipt changed_or_missing : SourceState

pub record Measurement : Type 0 where
  pub reference : String
  pub report : CoverageReport
  pub context : Value
  pub source_state : SourceState
  pub native : Option Observations

-- `{:?}` of a span
unfoldable pub show_span : Span → String
unfolding concat show_ℤ
show_span (a, (b, (c, d))) =
    concat ("[" ∷ show_ℤ a ∷ ", " ∷ show_ℤ b ∷ ", " ∷ show_ℤ c ∷ ", " ∷ show_ℤ d ∷ "]" ∷ [])

-- `Observation::key`
unfoldable pub key : Observation → String
unfolding show_span concat
key o = unwrap_or o.identity (
    concat (
      metric_word o.kind
      ∷ ":"
      ∷ o.path
      ∷ ":"
      ∷ o.symbol
      ∷ ":"
      ∷ show_span o.span
      ∷ ":"
      ∷ arm_word o.arm
      ∷ []))

-- `Observation::matches`
unfoldable pub matches : Observation → Option String → Option ℤ → Bool
unfolding concat contains to_lowercase
matches o query line =
    let text = to_lowercase (concat (o.path ∷ " " ∷ o.symbol ∷ [])) in
    is_none_or query (λ q. contains text (to_lowercase q))
    && is_none_or line (λ n. leb_ℤ o.span.0 n && leb_ℤ n o.span.1.1.0)

-- The status of a comparison, a word of the response.
pub data Status : Type 0 where
  incomparable tests_failed limited no_gain improved regression : Status

abbrev pub invalid : String → AppError
invalid message = validation message

unfoldable pub validate : ℕ → Option String → AppResult (Unit {0})
validate limit query = do
  reject_if (not (leb 1 limit && leb limit 20)) (invalid "limit must be between 1 and 20")
  reject_if (is_some_and query (λ q. is_empty q || ltb 256 (len q)))
      (invalid "query must contain 1–256 bytes")

unfoldable pub metric : Option String → CoverageReport → AppResult Metric
unfolding total_regions
metric requested report =
    let word = unwrap_or requested "auto" in
    if str_eq word "auto"
    then ok (if ltb_ℤ (pos 0) (total_regions report) then regions else lines)
    else if str_eq word "regions"
    then ok regions
    else if str_eq word "branches"
    then ok branches
    else if str_eq word "lines"
    then ok lines
    else err (invalid "metric must be auto, regions, branches, or lines")

pub record Counts : Type 0 where
  pub metric : Metric
  pub covered : ℤ
  pub total : ℤ
  pub missing : ℤ

unfoldable pub counts : CoverageReport → Metric → Counts
unfolding total_lines covered_lines total_branches covered_branches total_regions covered_regions
    ◌-i64◌
counts report regions = record {
  metric = regions;
  covered = covered_regions report;
  total = total_regions report;
  missing = total_regions report -i64 covered_regions report;
}
counts report branches = record {
  metric = branches;
  covered = covered_branches report;
  total = total_branches report;
  missing = total_branches report -i64 covered_branches report;
}
counts report lines = record {
  metric = lines;
  covered = covered_lines report;
  total = total_lines report;
  missing = total_lines report -i64 covered_lines report;
}
