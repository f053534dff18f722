-- ===== src/Models/Paths.antt =====
-- `normalize_report_path` of models.rs. The file system is a parameter: what it makes of a path.
use Prim.Native.Char.{code}
use coverage_mcp.Text.{strip_text}
use coverage_mcp.Prelude.{String, Bool, false, Option, none, some, ◌==◌, str_eq, if◌then◌else◌}

-- `Path::canonicalize`: the absolute path with its links resolved, or none for an I/O error.
pub record FileSystem : Type 0 where
  pub canonicalize : String → Option String

-- `Path::is_absolute`
abbrev pub is_absolute : String → Bool
is_absolute String.[] = false
is_absolute (String.◌∷◌ c _) = code c == b'/'

-- what is left of a path below `base`, once the text of `base` is off
abbrev below : String → String → Option String
below base String.[] = some ""
below base (String.◌∷◌ c rest) =
    if code c == b'/' then some rest else if str_eq base "/" then some (String.◌∷◌ c rest) else none

-- `Path::strip_prefix` of canonical paths, which have no `.`, no `..` and no doubled separator.
unfoldable pub strip_prefix : String → String → Option String
unfolding strip_text
strip_prefix path base = elim (strip_text path base) [ none ↦ none | some rest ↦ below base rest ]

-- `replace('\\', "/")`
unfoldable forward_slashes : String → String
forward_slashes String.[] = String.[]
forward_slashes (String.◌∷◌ c s) = String.◌∷◌ (if code c == 92 then "/" else c) (forward_slashes s)

abbrev relative_to : Option String → Option String → Option String
relative_to (some file) (some repo) = strip_prefix file repo
relative_to _ _ = none

-- A path inside the repository becomes relative to it; any other stays as it is written.
unfoldable pub normalize_report_path : FileSystem → String → Option String → String
unfolding strip_prefix forward_slashes
normalize_report_path fs path none = forward_slashes path
normalize_report_path fs path (some repo) =
    if is_absolute path
    then elim (relative_to (fs.canonicalize path) (fs.canonicalize repo)) [
      | some relative ↦ forward_slashes relative
      | none ↦ forward_slashes path
    ]
    else forward_slashes path
