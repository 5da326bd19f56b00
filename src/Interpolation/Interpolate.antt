-- ===== src/Interpolation/Interpolate.antt =====
-- `Interpolate` and `recursiveInterpolate` of cli/compose/interpolation/interpolation.go. A value that
-- the source returns beside an error is not part of the result.
pub mod Leaves
pub mod Outcomes
pub mod Replaced
pub mod Unchanged
use docker_cli.Prelude.{
  Bool, true, false, Option, none, some, List, [], ◌∷◌, if◌then◌else◌, Result, ok, err, ◌>>=◌,
}
use docker_cli.Text.{Text, eq}
use docker_cli.Template.Functions.{Mapping, Error, invalid_template}
use docker_cli.Template.Substitute.{substitute}
use docker_cli.Interpolation.Value.{
  Value, text, mapping, list, other, Members, no_members, member, Items, no_items, item,
}
use docker_cli.Interpolation.Paths.{KeyPath, new_path, next, path_match_list, get_caster_for_path}

-- The errors that `newPathError` is given: those of a template, those of another substitution
-- function, and those of a cast behind `errors.Wrap`. `E` is what stands outside this repository.
pub data Cause (E : Type 0) : Type 0 where
  template_error : Text → Cause E
  foreign : E → Cause E
  cast_failed : E → Cause E

-- The errors that `newPathError` makes.
pub data PathError (E : Type 0) : Type 0 where
  invalid_format : KeyPath → Text → PathError E
  while_interpolating : KeyPath → Cause E → PathError E

-- `Cast`
abbrev pub Cast : Type 0 → Type 0 → Type 0
Cast E O = Text → Result E (Value O)

-- `Options`, behind the defaults.
pub record Options (E : Type 0) (O : Type 0) : Type 0 where
  pub lookup_value : Mapping
  pub type_cast_mapping : List (KeyPath × Cast E O)
  pub substitute : Text → Mapping → Text × Option (Cause E)

-- `Options`, as a caller writes them: nil functions and a nil map are `none`.
pub record GivenOptions (E : Type 0) (O : Type 0) : Type 0 where
  pub lookup_value : Option Mapping
  pub type_cast_mapping : Option (List (KeyPath × Cast E O))
  pub substitute : Option (Text → Mapping → Text × Option (Cause E))

abbrev pub or_default {ℓ} : {A : Type ℓ} → Option A → A → A
or_default none d = d
or_default (some a) d = a

module _ {E : Type 0} where
  -- `newPathError`, on an error that is not nil.
  unfoldable pub new_path_error : KeyPath → Cause E → PathError E
  new_path_error path (template_error template) = invalid_format path template
  new_path_error path (foreign e) = while_interpolating path (foreign e)
  new_path_error path (cast_failed e) = while_interpolating path (cast_failed e)

  abbrev pub as_cause : Option Error → Option (Cause E)
  as_cause none = none
  as_cause (some (invalid_template template)) = some (template_error template)

  -- `template.Substitute`, as a substitution function.
  unfoldable pub default_substitute : Text → Mapping → Text × Option (Cause E)
  unfolding substitute
  default_substitute template lookup_value =
      ((substitute template lookup_value).0, as_cause (substitute template lookup_value).1)

module _ {E O : Type 0} where
  -- The defaults of `Interpolate`; `lookup_env` is `os.LookupEnv`.
  abbrev pub with_defaults : Mapping → GivenOptions E O → Options E O
  with_defaults lookup_env given = record {
    lookup_value = or_default given.lookup_value lookup_env;
    type_cast_mapping = or_default given.type_cast_mapping [];
    substitute = or_default given.substitute default_substitute;
  }

  module _ (opts : Options E O) where
    abbrev pub cast_to : KeyPath → Option (Cast E O) → Text → Result (PathError E) (Value O)
    cast_to path none new_value = ok (text new_value)
    cast_to path (some caster) new_value = elim (caster new_value) [
      | ok casted ↦ ok casted
      | err e ↦ err (new_path_error path (cast_failed e))
    ]

    -- The case `string`, on what the substitution returns.
    unfoldable pub text_or_cast :
        Text → KeyPath → Text × Option (Cause E) → Result (PathError E) (Value O)
    unfolding new_path_error eq get_caster_for_path
    text_or_cast value path (new_value, some cause) = err (new_path_error path cause)
    text_or_cast value path (new_value, none) =
        let casted = cast_to path (get_caster_for_path opts.type_cast_mapping path) new_value in
        if eq new_value value then ok (text value) else casted

    unfoldable pub interpolate_text : Text → KeyPath → Result (PathError E) (Value O)
    unfolding text_or_cast
    interpolate_text value path = text_or_cast value path (opts.substitute value opts.lookup_value)

    unfoldable mutual
      unfolding interpolate_text

      -- `recursiveInterpolate`
      pub recursive_interpolate : Value O → KeyPath → Result (PathError E) (Value O)
      recursive_interpolate (text value) path = interpolate_text value path
      recursive_interpolate (mapping value) path =
          interpolate_members value path >>= λ out. ok (mapping out)
      recursive_interpolate (list value) path =
          interpolate_items value path >>= λ out. ok (list out)
      recursive_interpolate (other value) path = ok (other value)

      -- The loop over a map.
      pub interpolate_members : Members O → KeyPath → Result (PathError E) (Members O)
      interpolate_members no_members path = ok no_members
      interpolate_members (member key elem value) path =
          recursive_interpolate elem (next path key) >>= λ interpolated_elem.
          interpolate_members value path >>= λ out. ok (member key interpolated_elem out)

      -- The loop over a list.
      pub interpolate_items : Items O → KeyPath → Result (PathError E) (Items O)
      interpolate_items no_items path = ok no_items
      interpolate_items (item elem value) path =
          recursive_interpolate elem (next path path_match_list) >>= λ interpolated_elem.
          interpolate_items value path >>= λ out. ok (item interpolated_elem out)

    -- The loop of `Interpolate`.
    unfoldable pub interpolate_config : Members O → Result (PathError E) (Members O)
    unfolding recursive_interpolate
    interpolate_config no_members = ok no_members
    interpolate_config (member key value config) =
        recursive_interpolate value (new_path (key ∷ [])) >>= λ interpolated_value.
        interpolate_config config >>= λ out. ok (member key interpolated_value out)

  -- `Interpolate`
  unfoldable pub interpolate :
      Mapping → Members O → GivenOptions E O → Result (PathError E) (Members O)
  unfolding interpolate_config default_substitute
  interpolate lookup_env config given = interpolate_config (with_defaults lookup_env given) config
