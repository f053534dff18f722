-- ===== src/Composite/Hash.antt =====
-- `source_hash` of src/composite.rs. The bytes of a file and SHA-256 are parameters.
use Prim.Native.Char.{Char}
use coverage_mcp.Prelude.{
  ℕ, ◌+◌, ◌/◌, ◌%◌, ◌<◌, ◌≡◌, refl, String, true, List, [], ◌∷◌, All, all_below-at, length, arith,
}
use coverage_mcp.Error.{AppResult, ok, ◌>>=◌}
use coverage_mcp.Error.Ensures.{Ensures, Ensures-ok, Ensures-bind}
use coverage_mcp.Text.{char_at, char_count}
use coverage_mcp.Composite.Parse.{is_hexdigit, all_hexdigits, validate_sha256}

abbrev hex_digit : ℕ → Char
hex_digit = char_at "0123456789abcdef"

-- `{byte:02x}` of each byte
unfoldable pub hex_encode : List ℕ → String
hex_encode [] = ""
hex_encode (byte ∷ bytes) =
    String.◌∷◌ (hex_digit (byte / 16)) (String.◌∷◌ (hex_digit (byte % 16)) (hex_encode bytes))

unfoldable pub source_hash : (List ℕ → List ℕ) → AppResult (List ℕ) → AppResult String
unfolding hex_encode
source_hash digest content = content >>= λ bytes. ok (hex_encode (digest bytes))

is_hexdigit-hex_digit : (k : ℕ) → k < 16 → is_hexdigit (hex_digit k) ≡ true
is_hexdigit-hex_digit k h = all_below-at 16 (λ j. is_hexdigit (hex_digit j)) k refl h

char_count-hex_encode :
    (bytes : List ℕ) → char_count (hex_encode bytes) ≡ length bytes + length bytes
unfolding char_count hex_encode
char_count-hex_encode [] = refl
char_count-hex_encode (byte ∷ bytes) = omega (arith, char_count-hex_encode bytes)

all_hexdigits-hex_encode :
    (bytes : List ℕ) → All (λ b. b < 256) bytes → all_hexdigits (hex_encode bytes) ≡ true
unfolding hex_encode
all_hexdigits-hex_encode [] h = refl
all_hexdigits-hex_encode (byte ∷ bytes) h = ground (
  arith,
  is_hexdigit-hex_digit (byte / 16) (omega (arith, h.0)),
  is_hexdigit-hex_digit (byte % 16) (omega arith),
  all_hexdigits-hex_encode bytes h.1,
)

-- If a digest is 32 bytes, the hash that is computed of a file that can be read is one that the
-- validation of inventories accepts.
pub source_hash-validate_sha256 :
    (digest : List ℕ → List ℕ) (content : AppResult (List ℕ)) (text context : String)
    → ((bytes : List ℕ) → (length (digest bytes) ≡ 32) × All (λ b. b < 256) (digest bytes))
    → source_hash digest content ≡ ok text
    → validate_sha256 text context ≡ ok tt
unfolding source_hash validate_sha256
source_hash-validate_sha256 digest content text context sized hashed = accepted.at text hashed
  where
    accepted : Ensures (λ t. validate_sha256 t context ≡ ok tt) (source_hash digest content)
    accepted = Ensures-bind content _ λ bytes. Ensures-ok _ (
        ground (
          arith,
          char_count-hex_encode (digest bytes),
          all_hexdigits-hex_encode (digest bytes) (sized bytes).1,
          (sized bytes).0,
        ))
