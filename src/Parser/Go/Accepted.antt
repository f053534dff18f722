-- ===== src/Parser/Go/Accepted.antt =====
-- What a record of a Go profile is when it is accepted, and what it adds to the rows.
use coverage_mcp.Prelude.{
  ℕ, ◌+◌, ◌-◌, ◌^◌, ◌≤◌, ◌<◌, ◌≡◌, refl, ◌∙◌, String, Bool, ◌&&◌, ◌||◌, some, List, [], ◌∷◌, arith,
  str_eq, if◌then◌else◌,
}
use coverage_mcp.Prelude.Int.{
  ℤ, pos, negsuc, ◌≤ℤ◌, leb_ℤ, ltb_ℤ, InI64, ◌+i64◌, ◌-i64◌, wrap, ◌+ℤ◌, ◌-ℤ◌,
}
use coverage_mcp.BTree
use coverage_mcp.Order.{text_ord, int_ord, pair_ord}
use coverage_mcp.Error.{ok, ok_or}
use coverage_mcp.Error.Ensures.{
  Ensures, Ensures-ok, Ensures-err, Ensures-bind, Ensures-then, Ensures-check,
}
use coverage_mcp.Models.Builder.{CoverageBuilder}
use coverage_mcp.Models.Paths.{FileSystem, normalize_report_path}
use coverage_mcp.Models.Valid.{IsValid}
use coverage_mcp.Parser.{Decoders}
use coverage_mcp.Parser.Go.{
  Block, max_range, line_count, go_position_line, go_block, go_fields, add_block,
}
use coverage_mcp.Parser.Go.Range.{block_row, also, reaches, get-add_range}
use coverage_mcp.Text.Split.{split_once, rsplit_once}
use coverage_mcp.Parser.Number.{safe_i64}
use coverage_mcp.Parser.Number.Exact.{safe_i64-Reads}

-- A range of at most a million positive lines, and hits that are not negative.
pub record IsBlock (block : Block) : Type 0 where
  pub positive : pos 1 ≤ℤ block.first
  pub forward : block.first ≤ℤ block.last
  pub in_range : InI64 block.last
  pub nonneg : pos 0 ≤ℤ block.hits
  pub short : line_count block.first block.last ≤ℤ pos max_range

-- the line is one of the block's, in its file
abbrev pub in_block : String → Block → String × ℤ → Bool
in_block name block p = str_eq p.0 name && (leb_ℤ block.first p.1 && leb_ℤ p.1 block.last)

line_count-pos :
    (n m : ℕ) → n ≤ m → 0 < n → m < 2 ^ 63 → line_count (pos n) (pos m) ≡ pos (m - n + 1)
unfolding line_count ◌-i64◌ ◌+i64◌ ◌-ℤ◌ ◌+ℤ◌ wrap
line_count-pos n m h positive small = ground arith

reaches-in_block :
    (name : String) (n m : ℕ) (hits : ℤ) (file : String) (p : String × ℤ)
    → n ≤ m
    → reaches name n (m - n + 1) p
      ≡ in_block name (record { file = file; first = pos n; last = pos m; hits = hits }) p
reaches-in_block name n m hits file (path, pos j) h = ground arith
reaches-in_block name n m hits file (path, negsuc j) h = ground arith

module _ (dec : Decoders) (fs : FileSystem) where
  safe_i64-InI64 : (text : String) → Ensures InI64 (safe_i64 dec (some text))
  safe_i64-InI64 text = record { at = λ z h. ((safe_i64-Reads dec text).at z h).3 }

  go_position_line-positive :
      (position : String) → Ensures (λ z. (pos 1 ≤ℤ z) × InI64 z) (go_position_line dec fs position)
  unfolding go_position_line
  go_position_line-positive position = Ensures-bind (ok_or (split_once b'.' position) _) _ λ parts.
      Ensures-then _ _ (safe_i64-InI64 parts.0) λ line i.
        Ensures-bind (safe_i64 dec (some parts.1)) _
          λ _. Ensures-check (ltb_ℤ line (pos 1)) _ _ λ low. Ensures-ok _ (ground arith, i)

  go_block-IsBlock :
      (raw place statements hits : String)
      → Ensures IsBlock (go_block dec fs raw place statements hits)
  unfolding go_block
  go_block-IsBlock raw place statements_text hits_text =
      Ensures-bind (ok_or (rsplit_once b':' place) _) _ λ at.
        Ensures-bind (ok_or (split_once b',' at.1) _) _ λ range.
          Ensures-then _ _ (go_position_line-positive range.0) λ first f.
            Ensures-then _ _ (go_position_line-positive range.1) λ last l.
              Ensures-bind (safe_i64 dec (some statements_text)) _ λ statements.
                Ensures-bind (safe_i64 dec (some hits_text)) _ λ hits.
                  Ensures-check (ltb_ℤ statements (pos 0) || ltb_ℤ hits (pos 0) || ltb_ℤ last first)
                    _ _
                    λ sound.
                      Ensures-check (ltb_ℤ (pos max_range) (line_count first last)) _ _ λ short.
                        Ensures-ok _ (record {
                          positive = f.0;
                          forward = ground arith;
                          in_range = l.1;
                          nonneg = ground arith;
                          short = ground arith;
                        })

  go_fields-IsBlock :
      (raw : String) (parts : List String) → Ensures IsBlock (go_fields dec fs raw parts)
  unfolding go_fields
  go_fields-IsBlock raw [] = Ensures-err _
  go_fields-IsBlock raw (_ ∷ []) = Ensures-err _
  go_fields-IsBlock raw (_ ∷ _ ∷ []) = Ensures-err _
  go_fields-IsBlock raw (place ∷ statements ∷ hits ∷ []) =
      go_block-IsBlock raw place statements hits
  go_fields-IsBlock raw (_ ∷ _ ∷ _ ∷ _ ∷ _) = Ensures-err _

  get-add_block :
      (b : CoverageBuilder) (file : String) (first last hits : ℤ) (p : String × ℤ)
      → IsValid fs b
      → IsBlock (record { file = file; first = first; last = last; hits = hits })
      → BTree.get
          (add_block dec fs b
            (record { file = file; first = first; last = last; hits = hits })).lines
          p
        ≡ (if in_block
              (normalize_report_path fs file b.repo_path)
              (record { file = file; first = first; last = last; hits = hits })
              p
            then also fs
                (BTree.get b.lines p)
                (block_row (normalize_report_path fs file b.repo_path) p.1 hits)
            else BTree.get b.lines p)
  unfolding add_block
  get-add_block b file (negsuc n) last hits p v k = absurd (omega (arith, k.positive))
  get-add_block b file (pos n) (negsuc m) hits p v k = absurd (omega (arith, k.positive, k.forward))
  get-add_block b file (pos n) (pos m) hits p v k =
      rw (line_count-pos n m (omega (arith, k.forward)) (omega (arith, k.positive)) k.in_range.0) (
        get-add_range fs dec b file n (m - n + 1) hits p v (omega (arith, k.positive))
          (omega (arith, k.in_range.0, k.forward))
        ∙ rw
            (reaches-in_block (normalize_report_path fs file b.repo_path) n m hits file p
              (omega (arith, k.forward)))
            refl)

  -- On a valid builder, if the fields of a Go profile record are accepted as a block, then its
  -- lines are positive and at most a million, its hits are not negative, and adding it joins one
  -- row with these hits to each line of its range in its file, and leaves every other line as it
  -- was.
  pub go_fields-lines :
      (b : CoverageBuilder) (raw : String) (parts : List String) (block : Block) (p : String × ℤ)
      → IsValid fs b
      → go_fields dec fs raw parts ≡ ok block
      → IsBlock block
        × (BTree.get (add_block dec fs b block).lines p ≡ (
            if in_block (normalize_report_path fs block.file b.repo_path) block p
            then also fs
                (BTree.get b.lines p)
                (block_row (normalize_report_path fs block.file b.repo_path) p.1 block.hits)
            else BTree.get b.lines p))
  go_fields-lines b raw parts block p v accepted =
      let k = (go_fields-IsBlock raw parts).at block accepted in
      (k, get-add_block b block.file block.first block.last block.hits p v k)
