-- ===== src/Context/Names.antt =====
-- Names of contexts: `ValidateContextName` in cli/context/store/store.go.
use docker_cli.Prelude.{
  ℕ, Bool, false, ◌&&◌, ◌||◌, [], ◌∷◌, leb, ◌==◌, all, if◌then◌else◌, Result, ok, err,
}
use docker_cli.Text.{Text, codes, eq}

pub data NameError : Type 0 where
  empty_name : NameError
  reserved_name : NameError
  invalid_name : NameError

-- `[a-zA-Z0-9]`
abbrev pub is_alphanumeric : ℕ → Bool
is_alphanumeric c =
    (leb b'a' c && leb c b'z') || (leb b'A' c && leb c b'Z') || (leb b'0' c && leb c b'9')

-- `[a-zA-Z0-9_.+-]`
abbrev pub is_name_char : ℕ → Bool
is_name_char c = is_alphanumeric c || c == b'_' || c == b'.' || c == b'+' || c == b'-'

-- `restrictedNameRegEx.MatchString`
abbrev pub matches_restricted_name : Text → Bool
matches_restricted_name (c ∷ d ∷ s) = is_alphanumeric c && all is_name_char (d ∷ s)
matches_restricted_name _ = false

-- `ValidateContextName`
unfoldable pub validate_context_name : Text → Result NameError (Unit {0})
unfolding eq
validate_context_name name =
    if eq name []
    then err empty_name
    else if eq name (codes "default")
    then err reserved_name
    else if matches_restricted_name name
    then ok tt
    else err invalid_name
