-- ===== src/Parser/Go/Range.antt =====
-- A block of a Go profile reaches exactly the lines of its range, each once.
use Prim.Native.Nat.Ordering.{eq}
use coverage_mcp.Prelude.{
  ℕ, zero, suc, ◌+◌, ◌^◌, ◌≤◌, ◌<◌, ◌≡◌, refl, sym, ap, ◌∙◌, String, Bool, true, false, ◌&&◌, ◌||◌,
  leb, ltb, str_eq, Option, some, arith, eq_iff, if◌then◌else◌, inl, inr, Bool-cases,
}
use coverage_mcp.Prelude.Int.{ℤ, pos, negsuc, ltb_ℤ, eqb_ℤ, pos-+i64}
use coverage_mcp.Order.{text_ord, int_ord, pair_ord}
use coverage_mcp.BTree
use coverage_mcp.BTree.Commute.{joined, get-join}
use coverage_mcp.BTree.Laws.{Ordering-cases}
use coverage_mcp.Models.{LineCoverage, merge}
use coverage_mcp.Models.Builder.{CoverageBuilder, row_of}
use coverage_mcp.Models.Paths.{FileSystem, normalize_report_path}
use coverage_mcp.Models.Reorder.{lines-kept, repo-add_record}
use coverage_mcp.Models.Trace.{LineRecord}
use coverage_mcp.Models.Valid.{IsValid}
use coverage_mcp.Parser.{Decoders, add_counted, no_details}
use coverage_mcp.Parser.Go.{add_range}
use coverage_mcp.Parser.Sound.{add_counted-IsValid}

-- the row that one record gives a line of the file `name`
abbrev pub block_row : String → ℤ → ℤ → LineCoverage
block_row name line hits =
    row_of name line hits (some (ltb_ℤ (pos 0) hits)) true (pos 0) (pos 0) (pos 0) (pos 0)
      no_details

abbrev pub within : ℕ → ℕ → ℤ → Bool
within first left (pos n) = leb first n && ltb n (first + left)
within first left (negsuc n) = false

-- the line `p` of the file `name` is one of `left` lines from `first` on
abbrev pub reaches : String → ℕ → ℕ → String × ℤ → Bool
reaches name first left p = str_eq p.0 name && within first left p.1

abbrev is_line : String → ℕ → String × ℤ → Bool
is_line name n p = str_eq p.0 name && eqb_ℤ p.1 (pos n)

is_line-eq : (name : String) (n : ℕ) (p : String × ℤ) → is_line name n p ≡ true → p ≡ (name, pos n)
is_line-eq name n (path, z) h = ground (arith, eq_iff path name)

is_line_self : (name : String) (n : ℕ) → is_line name n (name, pos n) ≡ true
is_line_self name n = ground (arith, eq_iff name name)

reaches-zero : (name : String) (n : ℕ) (p : String × ℤ) → reaches name n 0 p ≡ false
reaches-zero name n (path, pos j) = ground arith
reaches-zero name n (path, negsuc j) = ground arith

-- a range is its first line and the range behind it, which does not have that line
reaches-suc :
    (name : String) (n left : ℕ) (p : String × ℤ)
    → reaches name n (suc left) p ≡ is_line name n p || reaches name (n + 1) left p
reaches-suc name n left (path, pos j) = ground arith
reaches-suc name n left (path, negsuc j) = ground arith

reaches-behind :
    (name : String) (n left : ℕ) (p : String × ℤ)
    → is_line name n p ≡ true
    → reaches name (n + 1) left p ≡ false
reaches-behind name n left (path, pos j) h = ground arith
reaches-behind name n left (path, negsuc j) h = ground arith

first_or_behind {ℓ} :
    {A : Type ℓ} (name : String) (n left : ℕ) (p : String × ℤ) (f : A → A) (a : A)
    → (if reaches name (n + 1) left p
        then f (if is_line name n p then f a else a)
        else if is_line name n p
        then f a
        else a)
      ≡ (if reaches name n (suc left) p then f a else a)
first_or_behind name n left p f a = elim (Bool-cases (is_line name n p)) [
  | inl here ↦ rw (reaches-suc name n left p, here, reaches-behind name n left p here) refl
  | inr other ↦ rw (reaches-suc name n left p, other) refl
]

reaches-one :
    (name : String) (n : ℕ) (p : String × ℤ) → reaches name n (suc zero) p ≡ is_line name n p
reaches-one name n (path, pos j) = ground arith
reaches-one name n (path, negsuc j) = ground arith

false-is_line {ℓ} : {A : Type ℓ} → false ≡ true → A
false-is_line h = absurd (cc)

-- a branch on the comparison with a key is one on the key
at_line :
    (name : String) (n : ℕ) (p : String × ℤ) (at : String × ℤ → Option LineCoverage)
    (other : Option LineCoverage)
    → elim (pair_ord.cmp p (name, pos n)) [ eq ↦ at (name, pos n) | _ ↦ other ]
      ≡ (if is_line name n p then at p else other)
at_line name n p at other = elim (Bool-cases (is_line name n p)) [
  | inl here ↦ rw (here, is_line-eq name n p here, pair_ord.cmp_self (name, pos n)) refl
  | inr elsewhere ↦ rw elsewhere (elim (Ordering-cases (pair_ord.cmp p (name, pos n))) [
    | inl below ↦ rw below refl
    | inr (inl same) ↦ false-is_line (
        sym elsewhere
        ∙ ap (λ q. is_line name n q) (pair_ord.eq_of_cmp p (name, pos n) same)
        ∙ is_line_self name n)
    | inr (inr above) ↦ rw above refl
  ])
]

module _ (fs : FileSystem) where
  abbrev Lookup : Type 0
  Lookup = Option LineCoverage

  -- what is known of a line after one more record
  abbrev pub also : Lookup → LineCoverage → Lookup
  also known row = some (joined merge known row)

  abbrev record_of : String → ℕ → ℤ → LineRecord
  record_of file n hits = record {
    path = file;
    line_number = pos n;
    hits = hits;
    covered = some (ltb_ℤ (pos 0) hits);
    count_line = true;
    total_branches = pos 0;
    covered_branches = pos 0;
    total_functions = pos 0;
    covered_functions = pos 0;
    details = no_details;
  }

  abbrev counted : CoverageBuilder → String → ℕ → ℤ → CoverageBuilder
  counted b file n hits = add_counted fs b file (pos n) hits (some (ltb_ℤ (pos 0) hits))

  repo-counted :
      (b : CoverageBuilder) (file : String) (n : ℕ) (hits : ℤ)
      → (counted b file n hits).repo_path ≡ b.repo_path
  unfolding add_counted
  repo-counted b file n hits = repo-add_record fs b (record_of file n hits)

  get-counted :
      (b : CoverageBuilder) (file : String) (n : ℕ) (hits : ℤ) (p : String × ℤ)
      → IsValid fs b
      → 0 < n
      → BTree.get (counted b file n hits).lines p ≡ (
          if is_line (normalize_report_path fs file b.repo_path) n p
          then also
              (BTree.get b.lines p)
              (block_row (normalize_report_path fs file b.repo_path) p.1 hits)
          else BTree.get b.lines p)
  unfolding add_counted row_of
  get-counted b file n hits p v positive =
      ap (λ m. BTree.get m p) (lines-kept fs b (record_of file n hits) v (ground arith))
      ∙ get-join merge b.lines _ p _ v.sorted
      ∙ at_line _ n p (λ q. also (BTree.get b.lines q) (block_row _ q.1 hits)) _

  module _ (dec : Decoders) where
    pub get-add_range :
        (b : CoverageBuilder) (file : String) (n left : ℕ) (hits : ℤ) (p : String × ℤ)
        → IsValid fs b
        → 0 < n
        → n + left ≤ 2 ^ 63
        → BTree.get (add_range dec fs b file (pos n) left hits).lines p ≡ (
            if reaches (normalize_report_path fs file b.repo_path) n left p
            then also
                (BTree.get b.lines p)
                (block_row (normalize_report_path fs file b.repo_path) p.1 hits)
            else BTree.get b.lines p)
    unfolding add_range
    get-add_range b file n zero hits p v positive small =
        rw (reaches-zero (normalize_report_path fs file b.repo_path) n p) refl
    get-add_range b file n (suc zero) hits p v positive small =
        rw (reaches-one (normalize_report_path fs file b.repo_path) n p)
          (get-counted b file n hits p v positive)
    get-add_range b file n (suc (suc left)) hits p v positive small =
        ap
          (λ line.
            BTree.get (add_range dec fs (counted b file n hits) file line (suc left) hits).lines p)
          (pos-+i64 n 1 (omega arith))
        ∙ get-add_range (counted b file n hits) file (n + 1) (suc left) hits p
            (add_counted-IsValid fs b file (pos n) hits _ v) (omega arith) (omega arith)
        ∙ rw (repo-counted b file n hits, get-counted b file n hits p v positive)
            (first_or_behind (normalize_report_path fs file b.repo_path) n (suc left) p
              (λ known. also known (block_row (normalize_report_path fs file b.repo_path) p.1 hits))
              (BTree.get b.lines p))
