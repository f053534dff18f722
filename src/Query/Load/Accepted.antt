-- ===== src/Query/Load/Accepted.antt =====
-- Which receipts `check_receipt` of src/query.rs, the checks that load makes of one, accepts.
use Prim.Native.String.{len}
use Prim.Native.String.len.{cons}
use text.Mathlib.TextPositions.{len_utf8-pos}
use coverage_mcp.Prelude.{
  ◌≤◌, String, ◌≡◌, ◌⊎◌, ◌↔◌, refl, ap, Bool, true, false, not, ◌||◌, Bool-cases, Option, none,
  some, List, [], ◌∷◌, arith, inl, inr, is_some_and, not-false, eq_iff,
}
use coverage_mcp.Error.{ok}
use coverage_mcp.Error.Ensures.{Ensures, Ensures-check, Ensures-reject_if}
use coverage_mcp.Json.{
  Value, Fields, null, bool, int, float, str, arr, obj, index, lookup, is_text, is_object,
}
use coverage_mcp.Text.{is_empty}
use coverage_mcp.Query.{invalid}
use coverage_mcp.Query.Load.Select.{one_of, bad_build, check_receipt}

-- The value is there and is one of the words.
abbrev pub IsOneOf : List String → Option Value → Type 0
IsOneOf [] o = ⊥
IsOneOf (word ∷ words) o = (o ≡ some (str word)) ⊎ IsOneOf words o

-- A receipt for the content with this hash.
pub record IsReceipt (report_hash : String) (receipt : Value) : Type 0 where
  pub own_hash : index receipt "report_sha256" ≡ str report_hash
  pub sources : (hashes : Fields) × (index receipt "source_hashes" ≡ obj hashes)
  pub build : (id : String) × (index receipt "build_id" ≡ str id) × (1 ≤ len id) × (len id ≤ 256)
  pub tests :
      (lookup receipt "test_status" ≡ none)
      ⊎ IsOneOf ("passed" ∷ "failed" ∷ "unknown" ∷ []) (lookup receipt "test_status")
  pub scope :
      (lookup receipt "scope" ≡ none)
      ⊎ IsOneOf ("full" ∷ "selected_tests" ∷ []) (lookup receipt "scope")

is_text-str : (v : Value) (t : String) → (is_text v t ≡ true) ↔ (v ≡ str t)
is_text-str (str s) t =
    (λ h. ap str ((eq_iff s t).0 h), λ e. let same : s ≡ t = cc in (eq_iff s t).1 same)
is_text-str null t = (λ h. absurd (cc), λ e. absurd (cc))
is_text-str (bool b) t = (λ h. absurd (cc), λ e. absurd (cc))
is_text-str (int z) t = (λ h. absurd (cc), λ e. absurd (cc))
is_text-str (float s) t = (λ h. absurd (cc), λ e. absurd (cc))
is_text-str (arr vs) t = (λ h. absurd (cc), λ e. absurd (cc))
is_text-str (obj fs) t = (λ h. absurd (cc), λ e. absurd (cc))

is_object-obj : (v : Value) → (is_object v ≡ true) ↔ ((fs : Fields) × (v ≡ obj fs))
is_object-obj v = (fields v, λ (fs, e). rw e refl)
  where
    fields : (w : Value) → is_object w ≡ true → (fs : Fields) × (w ≡ obj fs)
    fields (obj fs) h = (fs, refl)
    fields null h = absurd (cc)
    fields (bool b) h = absurd (cc)
    fields (int z) h = absurd (cc)
    fields (float s) h = absurd (cc)
    fields (arr vs) h = absurd (cc)
    fields (str s) h = absurd (cc)

-- A text that is not empty has a byte.
filled_iff : (s : String) → (is_empty s ≡ false) ↔ (1 ≤ len s)
filled_iff String.[] = (λ h. absurd (cc), λ h. absurd (omega (arith, h)))
filled_iff (String.◌∷◌ c s) = (λ h. rw (cons c s) (omega (arith, (len_utf8-pos c).1)), λ h. refl)

bad_build_iff :
    (v : Value)
    → (bad_build v ≡ false) ↔ ((id : String) × (v ≡ str id) × (1 ≤ len id) × (len id ≤ 256))
bad_build_iff v =
    (bounds v, λ (id, e, filled, small). rw e (ground (arith, (filled_iff id).1 filled, small)))
  where
    bounds :
        (w : Value)
        → bad_build w ≡ false
        → (id : String) × (w ≡ str id) × (1 ≤ len id) × (len id ≤ 256)
    bounds (str s) h =
        let filled : is_empty s ≡ false = ground (arith, h) in
        (s, refl, (filled_iff s).0 filled, ground (arith, h))
    bounds null h = absurd (cc)
    bounds (bool b) h = absurd (cc)
    bounds (int z) h = absurd (cc)
    bounds (float s) h = absurd (cc)
    bounds (arr vs) h = absurd (cc)
    bounds (obj fs) h = absurd (cc)

-- one more word
word_iff :
    (word : String) (words : List String) (v : Value)
    → (one_of words v ≡ true) ↔ IsOneOf words (some v)
    → (is_text v word || one_of words v ≡ true) ↔ IsOneOf (word ∷ words) (some v)
word_iff word words v rest = (found, holds)
  where
    found : is_text v word || one_of words v ≡ true → IsOneOf (word ∷ words) (some v)
    found h = elim (Bool-cases (is_text v word)) [
      | inl this ↦ inl (ap some ((is_text-str v word).0 this))
      | inr other ↦ inr (rest.0 (ground (arith, h, other)))
    ]

    holds : IsOneOf (word ∷ words) (some v) → is_text v word || one_of words v ≡ true
    holds (inl e) = let same : v ≡ str word = cc in ground (arith, (is_text-str v word).1 same)
    holds (inr later) = ground (arith, rest.1 later)

one_of_iff : (words : List String) (v : Value) → (one_of words v ≡ true) ↔ IsOneOf words (some v)
one_of_iff [] v = (λ h. absurd (cc), λ e. absurd e)
one_of_iff (word ∷ words) v = word_iff word words v (one_of_iff words v)

known_iff :
    (words : List String) (o : Option Value)
    → (is_some_and o (λ v. not (one_of words v)) ≡ false) ↔ ((o ≡ none) ⊎ IsOneOf words o)
known_iff words none = (λ h. inl refl, λ h. refl)
known_iff words (some v) = (λ h. inr ((one_of_iff words v).0 (not-false _ h)), holds)
  where
    holds : (some v ≡ none) ⊎ IsOneOf words (some v) → not (one_of words v) ≡ false
    holds (inl e) = absurd (cc)
    holds (inr word) = rw ((one_of_iff words v).1 word) refl

-- The tests of `check_receipt`, none of which refuses the receipt.
record Passes (report_hash : String) (receipt : Value) : Type 0 where
  own_hash : not (is_text (index receipt "report_sha256") report_hash) ≡ false
  sources :
      not (is_object (index receipt "source_hashes")) || bad_build (index receipt "build_id")
      ≡ false
  words :
      is_some_and
          (lookup receipt "test_status")
          (λ v. not (one_of ("passed" ∷ "failed" ∷ "unknown" ∷ []) v))
        || is_some_and
            (lookup receipt "scope")
            (λ v. not (one_of ("full" ∷ "selected_tests" ∷ []) v))
      ≡ false

check_receipt-Passes :
    (report_hash : String) (receipt : Value)
    → Ensures (λ _. Passes report_hash receipt) (check_receipt report_hash receipt)
unfolding check_receipt
check_receipt-Passes report_hash receipt = Ensures-check _ _ _ λ own. Ensures-check _ _ _ λ sources.
    record {
      at = λ u h. record {
        own_hash = own;
        sources = sources;
        words = (Ensures-reject_if _ (invalid "context test_status or scope is invalid")).at u h;
      };
    }

or_false : (a b : Bool) → (a || b) ≡ false → (a ≡ false) × (b ≡ false)
or_false a b h = ground arith

Passes-IsReceipt :
    (report_hash : String) (receipt : Value)
    → Passes report_hash receipt
    → IsReceipt report_hash receipt
Passes-IsReceipt report_hash receipt p =
    let (sources, build) = or_false _ _ p.sources in
    let (tests, scope) = or_false _ _ p.words in
    record {
      own_hash = (is_text-str _ report_hash).0 (not-false _ p.own_hash);
      sources = (is_object-obj _).0 (not-false _ sources);
      build = (bad_build_iff _).0 build;
      tests = (known_iff ("passed" ∷ "failed" ∷ "unknown" ∷ []) _).0 tests;
      scope = (known_iff ("full" ∷ "selected_tests" ∷ []) _).0 scope;
    }

IsReceipt-accepted :
    (report_hash : String) (receipt : Value)
    → IsReceipt report_hash receipt
    → check_receipt report_hash receipt ≡ ok tt
unfolding check_receipt
IsReceipt-accepted report_hash receipt r =
    rw
      (
        (is_text-str _ report_hash).1 r.own_hash,
        (is_object-obj _).1 r.sources,
        (bad_build_iff _).1 r.build,
        (known_iff ("passed" ∷ "failed" ∷ "unknown" ∷ []) _).1 r.tests,
        (known_iff ("full" ∷ "selected_tests" ∷ []) _).1 r.scope,
      )
      refl

-- Exactly these receipts are accepted.
pub check_receipt_iff :
    (report_hash : String) (receipt : Value)
    → (check_receipt report_hash receipt ≡ ok tt) ↔ IsReceipt report_hash receipt
check_receipt_iff report_hash receipt = (
  λ h. Passes-IsReceipt report_hash receipt ((check_receipt-Passes report_hash receipt).at tt h),
  IsReceipt-accepted report_hash receipt,
)
