-- ===== src/Service/Labels.antt =====
-- The maps of cli/command/service/update.go: container labels, labels and sysctls. `none` is a nil map.
pub mod Lookup
use docker_cli.Prelude.{Bool, true, false, Option, none, some, List, [], ◌∷◌, if◌then◌else◌}
use docker_cli.Text.{Text}
use docker_cli.Maps.{Map, keys, delete_all, insert_all}
use docker_cli.Service.Flags.{ListFlag, convert_kv_strings_to_map}

-- `*field != nil && flags.Changed(…)` guards the removal.
abbrev pub remove_keys : Bool → List Text → Option (Map Text) → Option (Map Text)
remove_keys changed ks none = none
remove_keys changed ks (some m) = some (if changed then delete_all ks m else m)

abbrev pub or_new : Option (Map Text) → Map Text
or_new none = []
or_new (some m) = m

-- The second half of the three functions.
abbrev pub add_values : ListFlag → Option (Map Text) → Option (Map Text)
add_values add field =
    if add.changed
    then some (insert_all (convert_kv_strings_to_map add.values) (or_new field))
    else field

-- `updateContainerLabels`
unfoldable pub update_container_labels : ListFlag → ListFlag → Option (Map Text) → Option (Map Text)
unfolding delete_all insert_all convert_kv_strings_to_map
update_container_labels label_add label_rm field =
    add_values label_add (remove_keys label_rm.changed label_rm.values field)

-- `updateLabels`
unfoldable pub update_labels : ListFlag → ListFlag → Option (Map Text) → Option (Map Text)
unfolding delete_all insert_all convert_kv_strings_to_map
update_labels label_add label_rm field =
    add_values label_add (remove_keys label_rm.changed label_rm.values field)

-- `updateSysCtls`: what is removed may be written `key` or `key=value`.
unfoldable pub update_sys_ctls : ListFlag → ListFlag → Option (Map Text) → Option (Map Text)
unfolding delete_all insert_all convert_kv_strings_to_map
update_sys_ctls sysctl_add sysctl_rm field =
    add_values sysctl_add
      (remove_keys sysctl_rm.changed (keys (convert_kv_strings_to_map sysctl_rm.values)) field)
