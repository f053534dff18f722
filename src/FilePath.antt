-- ===== src/FilePath.antt =====
-- The methods of `Path` that the program calls, on paths as texts with `/`, none of whose parts is `.`.
use Prim.Native.Char.{code}
use Prim.Native.String.{◌++◌}
use coverage_mcp.Prelude.{◌≡◌, refl, String, Bool, false, Option, none, some, ◌==◌, if◌then◌else◌}
use coverage_mcp.Text.{is_empty}
use coverage_mcp.Text.Split.{rsplit_once, trim_end_matches}

abbrev ends_in_slash : String → Bool
ends_in_slash String.[] = false
ends_in_slash (String.◌∷◌ c String.[]) = code c == b'/'
ends_in_slash (String.◌∷◌ c (String.◌∷◌ d s)) = ends_in_slash (String.◌∷◌ d s)

abbrev starts_in_slash : String → Bool
starts_in_slash String.[] = false
starts_in_slash (String.◌∷◌ c _) = code c == b'/'

-- `Path::join`
abbrev pub join : String → String → String
join base path =
    if starts_in_slash path
    then path
    else if is_empty base
    then path
    else if ends_in_slash base
    then base ++ path
    else base ++ ("/" ++ path)

abbrev without_slashes : String → String
without_slashes s = trim_end_matches (λ c. code c == b'/') s

abbrev or_root : String → String
or_root folder = if is_empty (without_slashes folder) then "/" else without_slashes folder

-- the part before the last separator; the root and the empty path have none
abbrev parent_of : Option (String × String) → String
parent_of none = ""
parent_of (some (folder, _)) = or_root folder

-- `Path::parent`
unfoldable pub parent : String → Option String
unfolding rsplit_once trim_end_matches
parent path =
    if is_empty (without_slashes path)
    then none
    else some (parent_of (rsplit_once b'/' (without_slashes path)))

abbrev file_name : String → String
file_name path = elim (rsplit_once b'/' (without_slashes path)) [
  | none ↦ without_slashes path
  | some (_, name) ↦ name
]

-- what stands behind the last dot of a name that does not begin with it
abbrev behind_dot : Option (String × String) → Option String
behind_dot none = none
behind_dot (some (stem, dotted)) = if is_empty stem then none else some dotted

-- `Path::extension`
unfoldable pub extension : String → Option String
unfolding rsplit_once trim_end_matches
extension path = behind_dot (rsplit_once b'.' (file_name path))

parent_test : parent "/home/a/common.duckdb" ≡ some "/home/a"
unfolding parent
parent_test = refl
