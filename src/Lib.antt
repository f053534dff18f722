-- ===== src/Lib.antt =====
-- coverage-mcp: what its coverage reports hold and what its questions about them answer.
--
-- The program reads coverage reports into one data model, and answers two questions about them:
-- which observations are missing, and what changed between two reports. Reports come from a file or
-- from the store; either way a measurement is loaded, its observations are computed, and an answer
-- is built from their groups and cut to the size of a response.
--
--   Prelude     names, Boolean tests, lists and i64 arithmetic that the other modules share
--   Order       total orders as an interface; texts, numbers, options and pairs
--   BTree       the standard library's BTreeMap and BTreeSet, as entries in key order, and their laws
--   Sort        the standard library's stable sort
--   Error       src/error.rs: errors, their HTTP status and text, and results
--   Json, Text  serde_json's values as the program reads them; the text operations it uses
--   FilePath    the methods of std::path::Path that it uses
--   Config      src/config.rs: ServerConfig and from_environment
--   Lock        src/lock.rs: the metadata of a lease (Lock), acquire, drop and held_daemon_owner
--               (Lock.Lease), and processes that take and drop leases (Lock.Exclusive)
--   Pool        src/pool.rs: open_pool and checkout (Pool), an operation and its watchdog as steps of
--               two threads (Pool.Watchdog), and the tracker of active operations (Pool.Tracker)
--   Parser      src/parser.rs: numbers (Parser.Number), parse_xml and its searches (Parser.Xml), a
--               module for each format, and the choice among them (Parser.Select)
--   Models      src/models.rs: LineCoverage::merge (Models), normalize_report_path (Models.Paths),
--               CoverageBuilder (Models.Builder) and its build (Models.Build)
--   Query       src/query.rs: requests and observations (Query), observations (Query.Observe),
--               group_rows (Query.Groups), find (Query.Find), bounded (Query.Bounded), compare
--               (Query.Compare.Call), and a client that reads page after page (Query.Pages)
--   Query.Incremental  src/query_incremental.rs: batches joined to the inventory of a baseline
--   Query.Load  src/query.rs: load and its receipt (Query.Load.Select), source_state (Query.Load),
--               decode_composite (Query.Load.Composite)
--   Composite   src/composite.rs: the data and expected_regions (Composite), and assemble in three
--               loops: over the evidence (Composite.Gather.Loop), over the production entries
--               (Composite.Inspect), over the expected regions (Composite.Regions); the summaries of
--               components (Composite.Summary) and the result (Composite.Assemble)
--   Composite.Parse  src/composite.rs: composite_descriptor (Composite.Parse), parse_inventory
--               (Composite.Parse.Inventory), parse_region_artifact (Composite.Parse.Artifact) and
--               derive_standard_regions (Composite.Parse.Derive); source_hash is Composite.Hash
--   Examples    the theorems at concrete inputs
--
-- Parameters. The file system is what canonicalize makes of a path; a Disk reads files, hashes and
-- parses them; a Store has the saved snapshots; demangle is rustc-demangle; the size of a response
-- is the length of serde_json's text; digest is SHA-256, and assemble takes the hash of a source
-- file as a parameter, which Composite.Hash.source_hash fills. find and compare take the loading as
-- a parameter, which Query.Load.Select.load fills. Decoders say what UTF-8 decoding, serde_json,
-- quick_xml and the reading of a decimal number make of bytes and texts; lookup is the environment;
-- Faults say which calls of the system fail while a lease is taken.
--
-- Numbers. A finite f64 is m / 2^k for an integer m; both infinities are one value. An i64 wraps
-- around as in a release build; a usize sum saturates at 2^64 - 1. A map is the list of its entries
-- in key order.
--
-- Fuel. The loop of bounded gets one more than the number of its groups, and each turn drops one
-- group; the client of Query.Pages gets one more than the number of all groups, and each page but an
-- empty last one has a group.
--
-- Not modelled: incomplete_build, a constant result; how r2d2 keeps connections; the transports, the
-- store and the service, which are I/O; percentages and rates, which stay two numbers; capital
-- letters outside ASCII, which lower case leaves as they are here; paths with parts like `.`; and
-- the texts of errors of other crates.
pub mod Prelude
pub mod Order
pub mod BTree
pub mod Error
pub mod Json
pub mod Text
pub mod Sort
pub mod FilePath
pub mod Config
pub mod Lock
pub mod Pool
pub mod Models
pub mod Parser
pub mod Query
pub mod Composite
pub mod Examples
