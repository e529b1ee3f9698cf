-- ===== src/Cacheprog/Labels.antt =====
-- src/cacheprog/session.rs: the label that names a session's manifest. The directories' go.mod
-- files and the environment are inputs.
use flywheel.Prelude.{ℕ, Option, none, some, List, [], ◌∷◌, ◌++◌, ◌==◌, if◌then◌else◌}
use flywheel.Bytes.{Bytes, codes, bytes_eq, starts_with}
use flywheel.Text.{split, trim, strip_prefix, trim_start_matches}

-- `line.split("//").next()`
unfoldable pub before_comment : Bytes → Bytes
before_comment [] = []
before_comment (c ∷ cs) =
    let rest = before_comment cs in if starts_with (c ∷ cs) (codes "//") then [] else c ∷ rest

unfoldable pub trim_end_matches : ℕ → Bytes → Bytes
trim_end_matches sep [] = []
trim_end_matches sep (c ∷ cs) = elim (trim_end_matches sep cs) [
  | [] ↦ if c == sep then [] else c ∷ []
  | d ∷ ds ↦ c ∷ d ∷ ds
]

-- `str::trim_matches`, for a byte.
unfoldable pub trim_matches : ℕ → Bytes → Bytes
unfolding trim_end_matches
trim_matches sep text = trim_end_matches sep (trim_start_matches sep text)

-- The module that a line names.
unfoldable pub module_of : Bytes → Option Bytes
unfolding before_comment trim_matches
module_of line = elim (strip_prefix (codes "module") (trim (before_comment line))) [
  | none ↦ none
  | some path ↦ elim (trim_matches 34 (trim path)) [ [] ↦ none | c ∷ cs ↦ some (c ∷ cs) ]
]

unfoldable pub first_module : List Bytes → Option Bytes
unfolding module_of
first_module [] = none
first_module (line ∷ lines) = elim (module_of line) [
  | some path ↦ some path
  | none ↦ first_module lines
]

unfoldable pub parse_module_path : Bytes → Option Bytes
unfolding first_module
parse_module_path go_mod = first_module (split 10 go_mod)

-- The go.mod files of the ancestors, where they can be read: the first one decides.
unfoldable pub find_module_path : List (Option Bytes) → Option Bytes
unfolding parse_module_path
find_module_path [] = none
find_module_path (none ∷ ancestors) = find_module_path ancestors
find_module_path (some contents ∷ ancestors) = parse_module_path contents

unfoldable pub go_env : Option Bytes → Bytes → Bytes
go_env none fallback = fallback
go_env (some []) fallback = fallback
go_env (some (c ∷ cs)) fallback = c ∷ cs

unfoldable pub host_goos : Bytes → Bytes
host_goos os = if bytes_eq os (codes "macos") then codes "darwin" else os

unfoldable pub host_goarch : Bytes → Bytes
host_goarch arch =
    if bytes_eq arch (codes "x86_64")
    then codes "amd64"
    else if bytes_eq arch (codes "aarch64")
    then codes "arm64"
    else if bytes_eq arch (codes "x86")
    then codes "386"
    else arch

unfoldable pub compose_label : Option Bytes → Bytes → Bytes → Bytes → Bytes
compose_label none goos goarch cwd = cwd
compose_label (some path) goos goarch cwd = path ++ 32 ∷ (goos ++ 47 ∷ goarch)

unfoldable pub session_label :
    Option Bytes → List (Option Bytes) → Option Bytes → Option Bytes → Bytes → Bytes → Bytes → Bytes
unfolding find_module_path go_env host_goos host_goarch compose_label
session_label (some label) ancestors goos goarch os arch cwd = label
session_label none ancestors goos goarch os arch cwd =
    compose_label (find_module_path ancestors) (go_env goos (host_goos os))
      (go_env goarch (host_goarch arch)) cwd

-- `manifest_key`
unfoldable pub manifest_key : (sha256 hex_encode : Bytes → Bytes) → Bytes → Bytes
manifest_key sha256 hex_encode label = codes "go-manifest-" ++ hex_encode (sha256 label)
