-- ===== src/Service/Environment.antt =====
-- `updateEnvironment` and `updateUlimits` of cli/command/service/update.go, which index a list by a key.
pub mod Lookup
use docker_cli.Prelude.{Bool, true, false, Option, none, some, List, [], ◌∷◌, if◌then◌else◌}
use docker_cli.Text.{Text, codes, cut3}
use docker_cli.Maps.{Map, keys, values, delete_all}
use docker_cli.Maps.Keyed.{put_all}
use docker_cli.Sort.{sort_by}
use docker_cli.Service.Flags.{
  ListFlag, env_key, build_to_remove_set, remove_items, convert_kv_strings_to_map,
}

-- `updateEnvironment`. The order of the new list is the order in which `envSet` is walked.
unfoldable pub update_environment : ListFlag → ListFlag → List Text → List Text
unfolding build_to_remove_set remove_items env_key put_all
update_environment env_add env_rm field =
    let field' = remove_items field (build_to_remove_set env_rm) env_key in
    let env_set = put_all env_key env_add.values (put_all env_key field' []) in
    if env_add.changed then values env_set else field'

-- `flagUlimitAdd`, an `*opts.UlimitOpt`: `Changed`, and `GetList()` of its value. `container.Ulimit`
-- stands outside this repository: `L`, with its field `Name`.
pub record UlimitFlag (L : Type 0) : Type 0 where
  pub changed : Bool
  pub values : List L

module _ {L : Type 0} (name : L → Text) where
  -- `updateUlimits`; nil and an empty slice are the same list.
  unfoldable pub update_ulimits : UlimitFlag L → ListFlag → List L → List L
  unfolding put_all delete_all convert_kv_strings_to_map sort_by
  update_ulimits ulimit_add ulimit_rm ulimits =
      let current = put_all name ulimits [] in
      let left =
        if ulimit_rm.changed
        then delete_all (keys (convert_kv_strings_to_map ulimit_rm.values)) current
        else current in
      let new_ulimits = if ulimit_add.changed then put_all name ulimit_add.values left else left in
      sort_by name (values new_ulimits)
