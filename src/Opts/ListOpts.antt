-- ===== src/Opts/ListOpts.antt =====
-- `ListOpts` and `MapOpts` of opts/opts.go.
pub mod Counts
use docker_cli.Prelude.{
  Bool, true, false, Option, none, some, List, [], ◌∷◌, ◌++◌, if◌then◌else◌, Result, ok, err,
}
use docker_cli.Text.{Text, codes, cut3, eq}
use docker_cli.Maps.{Map, insert, elem}
use docker_cli.Sort.Unique.{add_member}

-- `ValidatorFctType`, and a call of a validator that may be nil. `E` is what errors are.
abbrev pub Validator : Type 0 → Type 0
Validator E = Text → Result E Text

abbrev pub validated : {E : Type 0} → Option (Validator E) → Text → Result E Text
validated none value = ok value
validated (some validator) value = validator value

-- `ListOpts`
pub record ListOpts (E : Type 0) : Type 0 where
  pub values : List Text
  pub validator : Option (Validator E)

-- `MapOpts`
pub record MapOpts (E : Type 0) : Type 0 where
  pub values : Map Text
  pub validator : Option (Validator E)

-- The loop of `Delete`, which returns behind the first match.
unfoldable pub delete_first : Text → List Text → List Text
unfolding eq
delete_first key [] = []
delete_first key (k ∷ values) =
    let rest = delete_first key values in if eq k key then values else k ∷ rest

-- The loop of `GetMap`, a set as the list of its members.
unfoldable pub members_onto : List Text → List Text → List Text
unfolding add_member
members_onto [] ret = ret
members_onto (k ∷ values) ret = members_onto values (add_member k ret)

module _ {E : Type 0} where
  -- `Set` of a list.
  unfoldable pub set_list : ListOpts E → Text → Result E (ListOpts E)
  set_list opts value = elim (validated opts.validator value) [
    | err e ↦ err e
    | ok v ↦ ok (record { values = opts.values ++ v ∷ []; validator = opts.validator })
  ]

  -- `Delete`
  unfoldable pub delete_value : ListOpts E → Text → ListOpts E
  unfolding delete_first
  delete_value opts key = record {
    values = delete_first key opts.values;
    validator = opts.validator;
  }

  -- `Get`
  unfoldable pub get_value : ListOpts E → Text → Bool
  unfolding elem
  get_value opts key = elem key opts.values

  -- `GetMap`
  unfoldable pub get_map : ListOpts E → List Text
  unfolding members_onto
  get_map opts = members_onto opts.values []

  -- `Set` of a map.
  unfoldable pub set_map : MapOpts E → Text → Result E (MapOpts E)
  unfolding insert
  set_map opts value = elim (validated opts.validator value) [
    | err e ↦ err e
    | ok v ↦ ok (record {
      values = insert (cut3 v (codes "=")).0 (cut3 v (codes "=")).1 opts.values;
      validator = opts.validator;
    })
  ]
