-- ===== src/Context/Paths.antt =====
-- The paths in an exported context: `isValidFilePath` in cli/context/store/store.go, and `path.Clean`.
pub mod Clean
pub mod Valid
use mathlib.Core.List.{reverse}
use docker_cli.Prelude.{
  ℕ, Bool, true, false, not, ◌&&◌, ◌||◌, List, [], ◌∷◌, ◌==◌, if◌then◌else◌, Result, ok, err,
}
use docker_cli.Text.{Text, codes, eq, has_prefix, contains, split, join}

abbrev pub separator : ℕ
separator = b'/'

-- What `..` does behind the components so far, of which the last stands first.
abbrev pub climb : Bool → List Text → List Text
climb rooted [] = if rooted then [] else codes ".." ∷ []
climb rooted (c ∷ out) = if eq c (codes "..") then codes ".." ∷ c ∷ out else out

abbrev pub add_component : Bool → List Text → Text → List Text
add_component rooted out c =
    if eq c [] || eq c (codes ".")
    then out
    else if eq c (codes "..")
    then climb rooted out
    else c ∷ out

unfoldable pub reduce : Bool → List Text → List Text → List Text
unfolding eq
reduce rooted out [] = out
reduce rooted out (c ∷ cs) = reduce rooted (add_component rooted out c) cs

-- The components with slashes between, and a dot for no component.
abbrev pub or_dot : List Text → Text
or_dot [] = codes "."
or_dot (c ∷ cs) = join (c ∷ cs) (separator ∷ [])

-- `path.Clean`: repeated slashes, the components `.`, and the component in front of each `..` go.
unfoldable pub clean : Text → Text
unfolding reduce join split
clean [] = codes "."
clean (c ∷ s) =
    if c == separator
    then separator ∷ join (reverse (reduce true [] (split s separator))) (separator ∷ [])
    else or_dot (reverse (reduce false [] (split (c ∷ s) separator)))

abbrev pub meta_file : Text
meta_file = codes "meta.json"

abbrev pub tls_prefix : Text
tls_prefix = codes "tls/"

pub data FilePathError : Type 0 where
  unexpected_file : FilePathError
  unexpected_format : FilePathError
  unexpected_backslash : FilePathError

-- `isValidFilePath`
unfoldable pub is_valid_file_path : Text → Result FilePathError (Unit {0})
unfolding eq has_prefix contains clean
is_valid_file_path p =
    if not (eq p meta_file) && not (has_prefix p tls_prefix)
    then err unexpected_file
    else if not (eq (clean p) p)
    then err unexpected_format
    else if contains p (codes "\\")
    then err unexpected_backslash
    else ok tt
