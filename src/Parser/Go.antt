-- ===== src/Parser/Go.antt =====
-- `parse_go` of src/parser.rs.
pub mod Range
pub mod Accepted
use coverage_mcp.Prelude.{
  ℕ, zero, suc, ◌+◌, String, Bool, false, not, ◌||◌, ◌==◌, is_some, Option, none, some, unwrap_or,
  List, [], ◌∷◌, length, get_elem?, if◌then◌else◌,
}
use coverage_mcp.Prelude.Int.{ℤ, pos, pos_part, ltb_ℤ, ◌+i64◌, ◌-i64◌}
use coverage_mcp.Error.{AppResult, ok, err, ◌>>=◌, ◌>>◌, ok_or, reject_if, fold_result}
use coverage_mcp.Models.{CoverageReport}
use coverage_mcp.Models.Paths.{FileSystem}
use coverage_mcp.Models.Builder.{CoverageBuilder, new}
use coverage_mcp.Models.Build.{build}
use coverage_mcp.Text.{is_empty, trim, strip_text, concat, show_ℤ}
use coverage_mcp.Text.Split.{lines, split_once, rsplit_once, split_whitespace}
use coverage_mcp.Parser.{Decoders, parse_error, utf8_text, no_details, add_counted}
use coverage_mcp.Parser.Number.{safe_i64}

abbrev range_error : String → String
range_error range = concat ("Go coverprofile range is malformed: " ∷ range ∷ [])

-- One record: a file, its lines from `first` to `last`, and the hits.
pub record Block : Type 0 where
  pub file : String
  pub first : ℤ
  pub last : ℤ
  pub hits : ℤ

-- `line_count` of a record
unfoldable pub line_count : ℤ → ℤ → ℤ
unfolding ◌+i64◌ ◌-i64◌
line_count first last = (last -i64 first) +i64 pos 1

abbrev pub max_range : ℕ
max_range = 1000000

module _ (dec : Decoders) (fs : FileSystem) where
  unfoldable pub go_position_line : String → AppResult ℤ
  go_position_line position = do
    (line_text, column_text) ←
        ok_or (split_once b'.' position)
          (parse_error (concat ("Go coverprofile position is malformed: " ∷ position ∷ [])))
    line ← safe_i64 dec (some line_text)
    _ ← safe_i64 dec (some column_text)
    reject_if (ltb_ℤ line (pos 1))
        (parse_error (concat ("Go coverprofile line must be positive: " ∷ show_ℤ line ∷ [])))
    ok line

  -- the three fields of a record
  unfoldable pub go_block : String → String → String → String → AppResult Block
  go_block raw place statements_text hits_text = do
    (file, range) ← ok_or (rsplit_once b':' place) (parse_error (range_error place))
    (from, to) ← ok_or (split_once b',' range) (parse_error (range_error range))
    first ← go_position_line from
    last ← go_position_line to
    statements ← safe_i64 dec (some statements_text)
    hits ← safe_i64 dec (some hits_text)
    reject_if (ltb_ℤ statements (pos 0) || ltb_ℤ hits (pos 0) || ltb_ℤ last first)
        (parse_error (concat ("Go coverprofile record has invalid counts or range: " ∷ raw ∷ [])))
    reject_if (ltb_ℤ (pos max_range) (line_count first last))
        (parse_error "Go coverprofile range exceeds one million lines")
    ok (record { file = file; first = first; last = last; hits = hits })

  -- `for line in first..=last`, with the number of lines that are left
  unfoldable pub add_range : CoverageBuilder → String → ℤ → ℕ → ℤ → CoverageBuilder
  add_range b file line zero hits = b
  add_range b file line (suc left) hits =
      add_range (add_counted fs b file line hits (some (ltb_ℤ (pos 0) hits))) file (line +i64 pos 1)
        left hits

  unfoldable pub add_block : CoverageBuilder → Block → CoverageBuilder
  add_block b block =
      add_range b block.file block.first (pos_part (line_count block.first block.last)) block.hits

  unfoldable pub go_fields : String → List String → AppResult Block
  go_fields raw (place ∷ statements ∷ hits ∷ []) = go_block raw place statements hits
  go_fields raw parts = err (
      parse_error
        (concat ("Go coverprofile record must contain exactly three fields: " ∷ raw ∷ [])))

  unfoldable pub go_line : CoverageBuilder → String → AppResult CoverageBuilder
  go_line b raw =
      if is_empty (trim raw)
      then ok b
      else go_fields raw (split_whitespace raw) >>= λ block. ok (add_block b block)

  abbrev pub is_mode : List String → Bool
  is_mode [] = false
  is_mode (line ∷ _) = is_some (strip_text line "mode:")

  abbrev behind_mode : List String → List String
  behind_mode [] = []
  behind_mode (_ ∷ rest) = rest

  unfoldable pub parse_go : String → List ℕ → Option String → AppResult CoverageReport
  parse_go path bytes repo = do
    text ← utf8_text dec bytes
    reject_if (not (is_mode (lines text))) (parse_error "Go coverprofile must start with 'mode:'")
    b ← fold_result go_line (new repo) (behind_mode (lines text))
    ok (
        build b "go" path
          ("Go coverprofiles report statement blocks; this expands each block to all touched lines."
            ∷ [])
          no_details)
