-- ===== src/Query/Load/Verified.antt =====
-- What a measurement rests on that is said to match its receipt.
use coverage_mcp.Prelude.{
  String, ◌≡◌, refl, Bool, true, false, Option, some, List, [], ◌∷◌, arith, All, Option-cases,
  Bool-cases, inl, inr, str_eq, not,
}
use coverage_mcp.Error.{AppResult, ok, err, ◌>>=◌, >>=-eq-ok, reject_if, ok_or}
use coverage_mcp.Error.Ensures.{
  Ensures, Ensures-ok, Ensures-err, Ensures-bind, Ensures-then, Ensures-known, Ensures-if,
}
use coverage_mcp.Json.{Value, Fields, index, as_object}
use coverage_mcp.Models.{CoverageReport, FileCoverage}
use coverage_mcp.Query.{Measurement, SourceState, unverified, matches_receipt, changed_or_missing}
use coverage_mcp.Prelude.{is_nil}
use coverage_mcp.Query.Load.{
  Disk, Store, report_path, expected_hash, check_at, check_file, check_files, source_state,
}
use coverage_mcp.Query.Load.Composite.{
  decode_rows, decoded_report, decoded_context, decode_composite,
}
use coverage_mcp.Query.Load.Select.{
  read_receipt, saved_measurement, saved_or_composite, load, load_file, load_saved, load_composite,
  is_saved, select, is_not_found,
}

module _ (disk : Disk) (root : String) where
  -- The file is inside the repository, and its content has the hash of the receipt.
  pub record IsMatch (hashes : Fields) (file : FileCoverage) : Type 0 where
    pub expected : String
    pub path : String
    pub bytes : String
    in_receipt : expected_hash hashes file ≡ some expected
    pub inside : report_path disk.paths root file.file_path ≡ ok path
    pub content : disk.read path ≡ ok bytes
    pub same : str_eq (disk.digest bytes) expected ≡ true

  read-same :
      (path expected : String) (r : AppResult String)
      → (r >>= λ bytes. ok (str_eq (disk.digest bytes) expected)) ≡ ok true
      → (bytes : String) × (r ≡ ok bytes) × (str_eq (disk.digest bytes) expected ≡ true)
  read-same path expected r h =
      let (bytes, e, same) = >>=-eq-ok r (λ bytes. ok (str_eq (disk.digest bytes) expected)) h in
      (bytes, e, cc)

  check_at-IsMatch :
      (hashes : Fields) (file : FileCoverage) (expected : String) (r : AppResult String)
      → report_path disk.paths root file.file_path ≡ r
      → expected_hash hashes file ≡ some expected
      → check_at disk expected r ≡ ok true
      → IsMatch hashes file
  check_at-IsMatch hashes file expected (err e) found he h = ground arith
  check_at-IsMatch hashes file expected (ok path) found he h =
      let (bytes, content, same) = read-same path expected (disk.read path) h in
      record {
        expected = expected;
        path = path;
        bytes = bytes;
        in_receipt = he;
        inside = found;
        content = content;
        same = same;
      }

  check_file-IsMatch :
      (hashes : Fields) (file : FileCoverage) (expected : String)
      → expected_hash hashes file ≡ some expected
      → check_file disk root file expected ≡ ok true
      → IsMatch hashes file
  unfolding check_file
  check_file-IsMatch hashes file expected he h =
      check_at-IsMatch hashes file expected (report_path disk.paths root file.file_path) refl he h

  -- What a state says: to match, all files of the rest must match.
  abbrev Says : Fields → SourceState → List FileCoverage → SourceState → Type 0
  Says hashes state files result =
      result ≡ matches_receipt → (state ≡ matches_receipt) × All (IsMatch hashes) files

  step-Says :
      (hashes : Fields) (state : SourceState) (file : FileCoverage) (files : List FileCoverage)
      (expected : String)
      → expected_hash hashes file ≡ some expected
      → (same : Bool) → check_file disk root file expected ≡ ok same
      → Ensures (Says hashes state files) (check_files disk root hashes state files)
      → Ensures (Says hashes state (file ∷ files)) (elim same [
        | true ↦ check_files disk root hashes state files
        | false ↦ ok changed_or_missing
      ])
  step-Says hashes state file files expected he true hc rest = record {
    at = λ result h m.
        let (s, matched) = rest.at result h m in
        (s, (check_file-IsMatch hashes file expected he hc, matched));
  }
  step-Says hashes state file files expected he false hc rest =
      Ensures-ok changed_or_missing (λ m. ground arith)

  check_files-Says :
      (hashes : Fields) (files : List FileCoverage) (state : SourceState)
      → Ensures (Says hashes state files) (check_files disk root hashes state files)
  unfolding check_files
  check_files-Says hashes [] state = Ensures-ok state (λ m. (m, tt))
  check_files-Says hashes (file ∷ files) state = elim (Option-cases (expected_hash hashes file)) [
    | inl unknown ↦
        rw (unknown, check_files)
          (record {
            at = λ result h m.
                ground (arith, ((check_files-Says hashes files unverified).at result h m).0);
          })
    | inr (expected, he) ↦
        rw (he, check_files)
          (Ensures-known (check_file disk root file expected) _ (λ same hc.
            step-Says hashes state file files expected he same hc
              (check_files-Says hashes files state)))
  ]

  -- Every file of a report matches the receipt.
  pub record IsVerified (report : CoverageReport) (receipt : Value) : Type 0 where
    pub hashes : Fields
    has_hashes : as_object (index receipt "source_hashes") ≡ some hashes
    has_files : is_nil report.files ≡ false
    matched : All (IsMatch hashes) report.files

  abbrev MeansVerified : CoverageReport → Value → SourceState → Type 0
  MeansVerified report receipt state = state ≡ matches_receipt → IsVerified report receipt

  source_state-MeansVerified :
      (report : CoverageReport) (receipt : Value)
      → Ensures (MeansVerified report receipt) (source_state disk root report receipt)
  unfolding source_state
  source_state-MeansVerified report receipt =
      elim (Option-cases (as_object (index receipt "source_hashes"))) [
        | inl no_hashes ↦ rw (no_hashes, source_state) (Ensures-ok unverified (λ m. ground arith))
        | inr (hashes, has) ↦
            rw (has, source_state)
              (elim (Bool-cases (is_nil report.files)) [
                | inl no_files ↦ rw no_files (Ensures-ok unverified (λ m. ground arith))
                | inr has_files ↦ rw has_files (record {
                  at = λ state h m. record {
                    hashes = hashes;
                    has_hashes = has;
                    has_files = has_files;
                    matched =
                        (((check_files-Says hashes report.files matches_receipt).at state h) m).1;
                  };
                })
              ])
      ]

  abbrev IsHonest : Measurement → Type 0
  IsHonest m = MeansVerified m.report m.context m.source_state

  load_file-IsHonest : (selected : String) → Ensures IsHonest (load_file disk root selected)
  unfolding load_file
  load_file-IsHonest selected = Ensures-bind (report_path disk.paths root selected) _ (λ path.
      Ensures-bind (disk.read_report_bytes path) _ (λ bytes.
        Ensures-bind (disk.parse_coverage_bytes path bytes) _ (λ report.
          Ensures-bind (read_receipt disk root path (disk.digest bytes)) _ (λ receipt.
            Ensures-then (source_state disk root report receipt) _
              (source_state-MeansVerified report receipt) (λ state honest. Ensures-ok _ honest)))))

  decode_composite-IsHonest :
      (reference : String) (snapshot : Value) (rows : List Value)
      → Ensures IsHonest (decode_composite disk root reference snapshot rows)
  unfolding decode_composite
  decode_composite-IsHonest reference snapshot rows = Ensures-bind (decode_rows rows) _ (λ d.
      Ensures-bind (reject_if _ _) _ (λ _.
        Ensures-then
          (source_state disk root (decoded_report disk.value_text reference snapshot d)
            (decoded_context disk.value_text snapshot d))
          _ (source_state-MeansVerified _ _) (λ state honest. Ensures-ok _ honest)))

module _ (disk : Disk) (store : Option Store) (root repo_key : String) where
  load_composite-IsHonest :
      (saved : Store) (reference : String)
      → Ensures (IsHonest disk root) (load_composite disk saved root repo_key reference)
  unfolding load_composite
  load_composite-IsHonest saved reference =
      Ensures-bind (saved.composite_snapshot reference) _ (λ snapshot.
        Ensures-bind (reject_if _ _) _ (λ _.
          Ensures-bind (saved.composite_regions_all reference) _
            (λ rows. decode_composite-IsHonest disk root reference snapshot rows)))

  saved_measurement-unverified :
      (selected : String) (suite : Option String) (row : Value × CoverageReport) (m : Measurement)
      → saved_measurement repo_key selected suite row ≡ ok m
      → m.source_state ≡ unverified
  unfolding saved_measurement
  saved_measurement-unverified selected suite (snapshot, report) m h = ground arith

  saved_measurement-IsHonest :
      (selected : String) (suite : Option String) (row : Value × CoverageReport)
      → Ensures (IsHonest disk root) (saved_measurement repo_key selected suite row)
  saved_measurement-IsHonest selected suite row = record {
    at =
        λ m h matches. ground (arith, saved_measurement-unverified selected suite row m h, matches);
  }

  saved_or_composite-IsHonest :
      (saved : Store) (selected : String) (suite : Option String)
      (r : AppResult (Value × CoverageReport))
      → Ensures (IsHonest disk root) (saved_or_composite disk saved root repo_key selected suite r)
  saved_or_composite-IsHonest saved selected suite (ok row) =
      saved_measurement-IsHonest selected suite row
  saved_or_composite-IsHonest saved selected suite (err e) =
      Ensures-if (is_not_found e) _ _ (load_composite-IsHonest saved selected) (Ensures-err e)

  load-Ensures :
      (reference suite : Option String)
      → Ensures (IsHonest disk root) (load disk store root repo_key reference suite)
  unfolding load load_saved
  load-Ensures reference suite = Ensures-bind (select store root reference suite) _ (λ selected.
      Ensures-if (not (is_saved disk root selected)) _ _ (load_file-IsHonest disk root selected) (
        Ensures-bind (ok_or store _) _ (λ saved.
          saved_or_composite-IsHonest saved selected suite (saved.measurement_report selected))))

  -- A measurement that loads with the state matches_receipt has a receipt with source hashes and
  -- at least one file, and every file of its report is in the receipt, inside the repository,
  -- readable, and has the digest that the receipt names.
  pub load-IsVerified :
      (reference suite : Option String) (m : Measurement)
      → load disk store root repo_key reference suite ≡ ok m
      → m.source_state ≡ matches_receipt
      → IsVerified disk root m.report m.context
  load-IsVerified reference suite m h matches = (load-Ensures reference suite).at m h matches
