-- ===== src/Interpolation/Paths.antt =====
-- The paths of cli/compose/interpolation/interpolation.go, and the casts that are found by path.
pub mod Laws
use docker_cli.Prelude.{
  ℕ, Bool, true, false, ◌&&◌, ◌||◌, Option, none, some, List, [], ◌∷◌, ◌++◌, if◌then◌else◌,
}
use docker_cli.Text.{Text, codes, eq, split, join}

-- `pathSeparator`, `PathMatchAll` and `PathMatchList`
abbrev pub path_separator : ℕ
path_separator = b'.'

abbrev pub path_match_all : Text
path_match_all = codes "*"

abbrev pub path_match_list : Text
path_match_list = codes "[]"

-- `Path`
abbrev pub KeyPath : Type 0
KeyPath = Text

-- `NewPath`
abbrev pub new_path : List Text → KeyPath
new_path items = join items (path_separator ∷ [])

-- `Next`
abbrev pub next : KeyPath → Text → KeyPath
next p part = p ++ (path_separator ∷ part)

-- `parts`
abbrev pub parts : KeyPath → List Text
parts p = split p path_separator

-- The loop of `matches`, behind the test that the lists are equally long.
abbrev pub matches_parts : List Text → List Text → Bool
matches_parts [] [] = true
matches_parts [] (q ∷ pattern_parts) = false
matches_parts (part ∷ ps) [] = false
matches_parts (part ∷ ps) (q ∷ pattern_parts) =
    (eq q path_match_all || eq q part) && matches_parts ps pattern_parts

-- `matches`
unfoldable pub matches : KeyPath → KeyPath → Bool
unfolding split eq
matches p pattern = matches_parts (parts p) (parts pattern)

-- `getCasterForPath`: of the patterns that match, the one that the walk over the map meets first.
unfoldable pub get_caster_for_path {ℓ} : {C : Type ℓ} → List (KeyPath × C) → KeyPath → Option C
unfolding matches
get_caster_for_path [] path = none
get_caster_for_path ((pattern, caster) ∷ type_cast_mapping) path =
    if matches path pattern then some caster else get_caster_for_path type_cast_mapping path
