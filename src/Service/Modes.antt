-- ===== src/Service/Modes.antt =====
-- The replicas, the log driver and the placement preferences in cli/command/service/update.go.
use docker_cli.Prelude.{
  ℕ, Bool, false, Option, none, some, List, [], ◌∷◌, ◌++◌, if◌then◌else◌, Result, ok, err, any,
}
use docker_cli.Text.{Text, eq}
use docker_cli.Maps.{Map}
use docker_cli.Template.Functions.{is_empty}
use docker_cli.Service.Flags.{convert_kv_strings_to_map}

-- `replicas can only be used with replicated mode`
pub data ReplicasError : Type 0 where
  not_replicated : ReplicasError

-- `updateReplicas`, on `serviceMode.Replicated` and the number in it; `flag` is the value of the flag
-- if it is changed, which may be none itself.
unfoldable pub update_replicas :
    Option (Option ℕ) → Option (Option ℕ) → Result ReplicasError (Option (Option ℕ))
update_replicas none replicated = ok replicated
update_replicas (some replicas) none = err not_replicated
update_replicas (some replicas) (some old) = ok (some replicas)

-- `swarm.Driver`
pub record Driver : Type 0 where
  pub name : Text
  pub options : Map Text

-- `updateLogDriver`, with the name if that flag is changed, and the values of `flagLogOpt`.
unfoldable pub update_log_driver : Option Text → List Text → Option Driver → Option Driver
unfolding convert_kv_strings_to_map
update_log_driver none log_opts driver = driver
update_log_driver (some name) log_opts driver =
    if is_empty name
    then driver
    else some (record { name = name; options = convert_kv_strings_to_map log_opts })

-- `swarm.PlacementPreference`: the descriptor of its spread, if it has one.
abbrev pub Preference : Type 0
Preference = Option Text

-- `removal.Spread != nil && existing.Spread != nil && ...`
abbrev pub same_spread : Preference → Preference → Bool
same_spread (some removal) (some existing) = eq removal existing
same_spread _ _ = false

-- The loop over the preferences that are there.
unfoldable pub keep_preferences : List Preference → List Preference → List Preference
unfolding eq
keep_preferences removals [] = []
keep_preferences removals (existing ∷ preferences) =
    let rest = keep_preferences removals preferences in
    if any (λ removal. same_spread removal existing) removals then rest else existing ∷ rest

-- `updatePlacementPreferences`; each flag is its value if it is changed.
unfoldable pub update_placement_preferences :
    Option (List Preference) → Option (List Preference) → List Preference → List Preference
unfolding keep_preferences
update_placement_preferences pref_add pref_rm preferences =
    let kept : List Preference = elim pref_rm [
      | none ↦ preferences
      | some removals ↦ keep_preferences removals preferences
    ] in
    let added : List Preference = elim pref_add [ none ↦ [] | some prefs ↦ prefs ] in kept ++ added
