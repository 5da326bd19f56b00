-- ===== src/Template/Functions.antt =====
-- The default substitution functions of cli/compose/template/template.go.
use docker_cli.Prelude.{
  Bool, true, false, not, ◌||◌, Option, none, some, List, [], ◌∷◌, ◌++◌, if◌then◌else◌,
}
use docker_cli.Text.{Text, codes, cut, contains}

-- `Mapping`: the value, and whether the variable is set.
abbrev pub Mapping : Type 0
Mapping = Text → Text × Bool

-- `*InvalidTemplateError`, by its field `Template`.
pub data Error : Type 0 where
  invalid_template : Text → Error

-- What a `SubstituteFunc` returns: `("", false, nil)`, `(value, true, nil)` or an error.
pub data Applied : Type 0 where
  skipped : Applied
  value : Text → Applied
  failed : Error → Applied

abbrev pub or_whole : Text → Option (Text × Text) → Text × Text
or_whole s none = (s, [])
or_whole s (some kv) = kv

unfoldable pub partition : Text → Text → Text × Text
partition s sep = or_whole s (cut s sep)

abbrev pub is_empty : Text → Bool
is_empty [] = true
is_empty (c ∷ s) = false

unfoldable pub soft_default : Text → Mapping → Applied
unfolding contains partition
soft_default substitution mapping =
    let (name, default_value) = partition substitution (codes ":-") in
    let (v, set) = mapping name in
    if not (contains substitution (codes ":-"))
    then skipped
    else if not set || is_empty v
    then value default_value
    else value v

unfoldable pub hard_default : Text → Mapping → Applied
unfolding contains partition
hard_default substitution mapping =
    let (name, default_value) = partition substitution (codes "-") in
    let (v, set) = mapping name in
    if not (contains substitution (codes "-"))
    then skipped
    else if not set
    then value default_value
    else value v

abbrev pub missing : Text → Text → Error
missing name message =
    invalid_template
      (codes "required variable " ++ (name ++ (codes " is missing a value: " ++ message)))

unfoldable pub with_required : Text → Mapping → Text → (Text → Bool) → Applied
unfolding contains partition
with_required substitution mapping sep valid =
    let (name, message) = partition substitution sep in
    let (v, set) = mapping name in
    if not (contains substitution sep)
    then skipped
    else if not set || not (valid v)
    then failed (missing name message)
    else value v

unfoldable pub required_non_empty : Text → Mapping → Applied
unfolding with_required
required_non_empty substitution mapping =
    with_required substitution mapping (codes ":?") (λ v. not (is_empty v))

unfoldable pub required : Text → Mapping → Applied
unfolding with_required
required substitution mapping = with_required substitution mapping (codes "?") (λ _. true)

-- `DefaultSubstituteFuncs`
abbrev pub default_functions : List (Text → Mapping → Applied)
default_functions = soft_default ∷ hard_default ∷ required_non_empty ∷ required ∷ []
