-- ===== src/Parser.antt =====
-- src/parser.rs: coverage reports of seven formats, as calls of the builder. What a library or the
-- processor makes of bytes and of decimal numbers is a parameter, the `Decoders`.
pub mod Number
pub mod Xml
pub mod Lcov
pub mod CoveragePy
pub mod Cobertura
pub mod Jacoco
pub mod Istanbul
pub mod Go
pub mod Llvm
pub mod Select
pub mod Sound
use Prim.Native.String.{◌++◌}
use coverage_mcp.Prelude.{ℕ, String, Bool, true, false, Option, some, List, if◌then◌else◌}
use coverage_mcp.Prelude.Int.{ℤ, pos, ltb_ℤ}
use coverage_mcp.Error.{AppError, AppResult, ok, err, io, json, validation}
use coverage_mcp.Json.{Value, obj, end}
use coverage_mcp.Models.Paths.{FileSystem}
use coverage_mcp.Models.Builder.{CoverageBuilder, add_line}

-- An `f64`. A finite one, `finite m k`, has the value m / 2^k.
pub data Double : Type 0 where
  nan : Double
  infinite : Double
  finite : ℤ → ℕ → Double

-- what a decoder gives: a value, or the text of its error
pub data Decoded (A : Type 0) : Type 0 where
  decoded : A → Decoded A
  failed : String → Decoded A

-- An attribute of an XML tag with its decoded value.
pub data XmlAttr : Type 0 where
  attr : String → Decoded String → XmlAttr
  malformed : String → XmlAttr

-- What the XML reader reports, up to the end of the file. A text, a comment and the like is `other`.
pub data XmlEvent : Type 0 where
  start : String → List XmlAttr → XmlEvent
  empty : String → List XmlAttr → XmlEvent
  end_tag : XmlEvent
  other : XmlEvent
  broken : String → XmlEvent

pub record Decoders : Type 0 where
  -- `str::parse::<f64>`, or none for an error
  pub f64_of_text : String → Decoded Double
  -- `format!("{value}")` and serde_json's number of a finite `f64`
  pub text_of_f64 : Double → String
  pub json_of_f64 : Double → Value
  -- the standard library's decoding of UTF-8
  pub from_utf8 : List ℕ → Decoded String
  pub from_utf8_lossy : List ℕ → String
  -- `serde_json::from_slice`
  pub from_slice : List ℕ → Decoded Value
  -- the events of `quick_xml::Reader`
  pub xml_events : List ℕ → List XmlEvent

-- `parse_error`
abbrev pub parse_error : String → AppError
parse_error message = validation ("coverage parse error: " ++ message)

-- `str::from_utf8`, whose error becomes an I/O error
abbrev pub utf8_text : Decoders → List ℕ → AppResult String
utf8_text dec bytes = elim (dec.from_utf8 bytes) [
  | decoded text ↦ ok text
  | failed message ↦ err (io message)
]

-- `serde_json::from_slice`
abbrev pub json_value : Decoders → List ℕ → AppResult Value
json_value dec bytes = elim (dec.from_slice bytes) [
  | decoded v ↦ ok v
  | failed message ↦ err (json message)
]

-- `json!({})`
abbrev pub no_details : Value
no_details = obj end

-- What a report of a source line with no branches and no functions adds.
unfoldable pub add_counted :
    FileSystem → CoverageBuilder → String → ℤ → ℤ → Option Bool → CoverageBuilder
add_counted fs b file line hits covered =
    add_line fs b file line hits covered true (pos 0) (pos 0) (pos 0) (pos 0) no_details

-- Branches of a line that itself is not counted.
unfoldable pub add_branches : FileSystem → CoverageBuilder → String → ℤ → ℤ → ℤ → CoverageBuilder
add_branches fs b file line total covered =
    add_line fs b file line (pos 0) (some false) false total covered (pos 0) (pos 0) no_details

-- A function that begins on a line that itself is not counted.
unfoldable pub add_function : FileSystem → CoverageBuilder → String → ℤ → ℤ → CoverageBuilder
add_function fs b file line hits =
    add_line fs b file line (pos 0) (some false) false (pos 0) (pos 0) (pos 1)
      (if ltb_ℤ (pos 0) hits then pos 1 else pos 0) no_details
