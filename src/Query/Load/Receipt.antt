-- ===== src/Query/Load/Receipt.antt =====
-- What load of src/query.rs makes of a report file and of the receipt beside it.
use Prim.Native.String.{◌++◌}
use coverage_mcp.Prelude.{
  ℕ, ◌*◌, ◌≤◌, String, ◌≡◌, ◌⊎◌, ◌↔◌, refl, sym, ap₂, Option, none, some, arith, inl, inr, ltb,
  false,
}
use coverage_mcp.Error.{ok, ◌>>=◌, ◌>>◌, reject_if}
use coverage_mcp.Error.Ensures.{Ensures, Ensures-ok, Ensures-known, Ensures-check}
use coverage_mcp.Json.{Value, null}
use coverage_mcp.Query.{Measurement, invalid}
use coverage_mcp.Query.Load.{Disk, report_path, source_state}
use coverage_mcp.Query.Load.Accepted.{IsReceipt, check_receipt_iff}
use coverage_mcp.Query.Load.Select.{check_receipt, read_receipt, load_file}

module _ (disk : Disk) (root : String) where
  -- A file beside the report that is small enough and lies in the repository, and what it holds.
  pub record HasReceipt (path report_hash : String) (receipt : Value) : Type 0 where
    pub size : ℕ
    pub receipt_path : String
    pub text : String
    pub stored : disk.file_size (path ++ ".context.json") ≡ ok (some size)
    pub small : size ≤ 1048576
    pub inside : report_path disk.paths root (path ++ ".context.json") ≡ ok receipt_path
    pub content : disk.read receipt_path ≡ ok text
    pub decoded : disk.from_slice text ≡ ok receipt
    pub accepted : IsReceipt report_hash receipt

  -- null where there is no such file, and what it holds otherwise
  abbrev pub IsContext : String → String → Value → Type 0
  IsContext path report_hash context =
      ((disk.file_size (path ++ ".context.json") ≡ ok none) × (context ≡ null))
      ⊎ HasReceipt path report_hash context

  -- The measurement of a report file inside the repository, its content, and its receipt, if any.
  pub record IsLoaded (selected : String) (m : Measurement) : Type 0 where
    pub path : String
    pub bytes : String
    pub inside : report_path disk.paths root selected ≡ ok path
    pub content : disk.read_report_bytes path ≡ ok bytes
    pub parsed : disk.parse_coverage_bytes path bytes ≡ ok m.report
    pub context : IsContext path (disk.digest bytes) m.context
    pub state : source_state disk root m.report m.context ≡ ok m.source_state
    pub named : m.reference ≡ selected
    pub no_native : m.native ≡ none

  -- what `read_receipt` does once it knows the size of the file, if there is one
  sized :
      (path report_hash : String) (size : Option ℕ)
      → disk.file_size (path ++ ".context.json") ≡ ok size
      → Ensures (IsContext path report_hash) (elim size [
        | none ↦ ok null
        | some bytes ↦ do
          reject_if (ltb (1024 * 1024) bytes) (invalid "measurement context exceeds 1 MiB")
          receipt_path ← report_path disk.paths root (path ++ ".context.json")
          text ← disk.read receipt_path
          receipt ← disk.from_slice text
          check_receipt report_hash receipt
          ok receipt
      ])
  sized path report_hash none missing = Ensures-ok null (inl (missing, refl))
  sized path report_hash (some bytes) stored = Ensures-check (ltb (1024 * 1024) bytes) _ _ λ small.
      Ensures-known (report_path disk.paths root (path ++ ".context.json")) _ λ receipt_path inside.
        Ensures-known (disk.read receipt_path) _ λ text content.
          Ensures-known (disk.from_slice text) _ λ receipt decoded.
            Ensures-known (check_receipt report_hash receipt) _ λ u accepted. Ensures-ok receipt (
              inr (record {
                size = bytes;
                receipt_path = receipt_path;
                text = text;
                stored = stored;
                small = ground (arith, small);
                inside = inside;
                content = content;
                decoded = decoded;
                accepted = (check_receipt_iff report_hash receipt).0 accepted;
              }))

  read_receipt-IsContext :
      (path report_hash : String)
      → Ensures (IsContext path report_hash) (read_receipt disk root path report_hash)
  unfolding read_receipt
  read_receipt-IsContext path report_hash =
      Ensures-known (disk.file_size (path ++ ".context.json")) _
        λ size stored. sized path report_hash size stored

  IsContext-read :
      (path report_hash : String) (context : Value)
      → IsContext path report_hash context
      → read_receipt disk root path report_hash ≡ ok context
  unfolding read_receipt
  IsContext-read path report_hash context (inl (missing, empty)) = rw (missing, empty) refl
  IsContext-read path report_hash context (inr r) =
      let small : ltb (1024 * 1024) r.size ≡ false = ground (arith, r.small) in
      let checked = (check_receipt_iff report_hash context).1 r.accepted in
      rw (r.stored, small, r.inside, r.content, r.decoded, checked) refl

  load_file-Ensures :
      (selected : String) → Ensures (IsLoaded selected) (load_file disk root selected)
  unfolding load_file
  load_file-Ensures selected = Ensures-known (report_path disk.paths root selected) _ λ path inside.
      Ensures-known (disk.read_report_bytes path) _ λ bytes content.
        Ensures-known (disk.parse_coverage_bytes path bytes) _ λ report parsed.
          Ensures-known (read_receipt disk root path (disk.digest bytes)) _ λ receipt read.
            Ensures-known (source_state disk root report receipt) _ λ state found.
              Ensures-ok _ (record {
                path = path;
                bytes = bytes;
                inside = inside;
                content = content;
                parsed = parsed;
                context = (read_receipt-IsContext path (disk.digest bytes)).at receipt read;
                state = found;
                named = refl;
                no_native = refl;
              })

  IsLoaded-load :
      (selected : String) (m : Measurement)
      → IsLoaded selected m
      → load_file disk root selected ≡ ok m
  unfolding load_file
  IsLoaded-load selected m l =
      let read = IsContext-read l.path (disk.digest l.bytes) m.context l.context in
      rw (l.inside, l.content, l.parsed, read, l.state)
        (ap₂ (λ reference native. ok (record m { reference = reference; native = native }))
          (sym l.named) (sym l.no_native))

  -- load_file returns a measurement exactly if the selected file is inside the repository and its
  -- bytes are read and parsed as the measurement's report, and the measurement's context is null,
  -- where no file stands beside the report, or else what the JSON of that file decodes to: the
  -- file has at most 1048576 bytes and lies in the repository, the receipt names the digest of the
  -- report's bytes, has an object of source hashes and a build_id of 1 to 256 bytes, and each of
  -- test_status and scope is absent or one of the known words; its source state is that of this
  -- report and context, its reference is the selected one, and it has no native rows.
  pub load_file-IsLoaded :
      (selected : String) (m : Measurement)
      → (load_file disk root selected ≡ ok m) ↔ IsLoaded selected m
  load_file-IsLoaded selected m = ((load_file-Ensures selected).at m, IsLoaded-load selected m)
