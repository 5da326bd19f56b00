-- ===== src/Interpolation/Interpolate/Unchanged.antt =====
-- Documents that the interpolation of cli/compose/interpolation/interpolation.go gives back.
use docker_cli.Prelude.{◌≡◌, refl, ap, ◌∙◌, sym, Option, none, [], ◌∷◌, ok, Bool-cases, inl, inr}
use docker_cli.Text.{Text, eq}
use docker_cli.Text.Laws.{eq_iff}
use docker_cli.Template.Functions.{Mapping, default_functions}
use docker_cli.Template.Substitute.{substitute}
use docker_cli.Template.Escape.{escape, substitute_with-escape}
use docker_cli.Interpolation.Value.{
  Value, text, mapping, list, other, Members, no_members, member, Items, no_items, item,
}
use docker_cli.Interpolation.Paths.{KeyPath, new_path, next, path_match_list, get_caster_for_path}
use docker_cli.Interpolation.Interpolate.{
  Options, or_default, default_substitute, text_or_cast, interpolate_text, recursive_interpolate,
  interpolate_members, interpolate_items, interpolate_config, interpolate,
}

-- The document with every `$` of its strings doubled.
mutual
  pub escape_value : {O : Type 0} → Value O → Value O
  escape_value (text s) = text (escape s)
  escape_value (mapping ms) = mapping (escape_members ms)
  escape_value (list xs) = list (escape_items xs)
  escape_value (other o) = other o

  pub escape_members : {O : Type 0} → Members O → Members O
  escape_members no_members = no_members
  escape_members (member k v ms) = member k (escape_value v) (escape_members ms)

  pub escape_items : {O : Type 0} → Items O → Items O
  escape_items no_items = no_items
  escape_items (item v xs) = item (escape_value v) (escape_items xs)

default_substitute-escape :
    {E : Type 0} (s : Text) (lookup_value : Mapping)
    → default_substitute {E = E} (escape s) lookup_value ≡ (s, none)
unfolding default_substitute substitute
default_substitute-escape s lookup_value =
    rw (substitute_with-escape s lookup_value default_functions) refl

module _ {E O : Type 0} (lookup_value : Mapping) where
  -- The options that name no cast and no substitution function.
  abbrev pub no_casts : Options E O
  no_casts = record {
    lookup_value = lookup_value;
    type_cast_mapping = [];
    substitute = default_substitute;
  }

  same_or_new :
      (s value : Text) (path : KeyPath) → text_or_cast no_casts value path (s, none) ≡ ok (text s)
  unfolding text_or_cast get_caster_for_path
  same_or_new s value path = elim (Bool-cases (eq s value)) [
    | inl e ↦ rw e (ap (λ t. ok (text t)) (sym ((eq_iff s value).0 e)))
    | inr e ↦ rw e refl
  ]

  text-escape :
      (s : Text) (path : KeyPath) → interpolate_text no_casts (escape s) path ≡ ok (text s)
  unfolding interpolate_text
  text-escape s path =
      ap (text_or_cast no_casts (escape s) path) (default_substitute-escape s lookup_value)
      ∙ same_or_new s (escape s) path

  mutual
    unfolding recursive_interpolate escape_value

    recursive-escape :
        (v : Value O) (path : KeyPath) → recursive_interpolate no_casts (escape_value v) path ≡ ok v
    recursive-escape (text s) path = text-escape s path
    recursive-escape (mapping ms) path = rw (members-escape ms path)
    recursive-escape (list xs) path = rw (items-escape xs path)
    recursive-escape (other o) path = refl

    members-escape :
        (ms : Members O) (path : KeyPath)
        → interpolate_members no_casts (escape_members ms) path ≡ ok ms
    members-escape no_members path = refl
    members-escape (member k v ms) path =
        rw (recursive-escape v (next path k), members-escape ms path)

    items-escape :
        (xs : Items O) (path : KeyPath) → interpolate_items no_casts (escape_items xs) path ≡ ok xs
    items-escape no_items path = refl
    items-escape (item v xs) path =
        rw (recursive-escape v (next path path_match_list), items-escape xs path)

  config-escape : (ms : Members O) → interpolate_config no_casts (escape_members ms) ≡ ok ms
  unfolding interpolate_config escape_value
  config-escape no_members = refl
  config-escape (member k v ms) = rw (recursive-escape v (new_path (k ∷ [])), config-escape ms)

-- With no casts and the default substitution, interpolating a configuration whose every `$` is
-- doubled gives the configuration back, whatever the variables are.
pub interpolate-escape :
    {E O : Type 0} (lookup_env : Mapping) (config : Members O) (lookup_value : Option Mapping)
    → interpolate {E = E} lookup_env
        (escape_members config)
        (record { lookup_value = lookup_value; type_cast_mapping = none; substitute = none })
      ≡ ok config
unfolding interpolate
interpolate-escape lookup_env config lookup_value =
    config-escape (or_default lookup_value lookup_env) config
