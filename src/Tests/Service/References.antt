-- ===== src/Tests/Service/References.antt =====
-- Health checks, networks and configs of cli/command/service/update.go on concrete inputs.
use docker_cli.Prelude.{
  ◌≡◌, refl, [], ◌∷◌, ◌++◌, List, Option, some, none, ok, true, false, is_some, any, ◌||◌,
}
use docker_cli.Text.{Text, codes, eq}
use docker_cli.Maps.{elem, insert, lookup, insert_all}
use docker_cli.Service.Flags.{ListFlag}
use docker_cli.Service.Healthcheck.{
  HealthFlags, any_health_changed, get_no_healthcheck, update_healthcheck,
}
use docker_cli.Service.Healthcheck.Disabled.{Asked, update_healthcheck-Asked}
use docker_cli.Service.Networks.{Attachment, NetworkFlag, update_networks, spec_networks}
use docker_cli.Service.Networks.Attached.{Attached, update_networks-Attached}
use docker_cli.Service.References.{Reference}
use docker_cli.Service.Configs.{
  CredentialFlag, ReferenceFlag, config_named, get_updated_configs, update_cred_spec_config,
}
use docker_cli.Service.Configs.Referenced.{refers, get_updated_configs-Referenced}
use docker_cli.Service.Configs.Twice.{get_updated_configs-twice}

abbrev no_check : HealthFlags
no_check = record {
  no_healthcheck = some true;
  health_cmd = none;
  health_interval = none;
  health_timeout = none;
  health_start_period = none;
  health_retries = some 3;
}

update_healthcheck-Asked_example :
    (let health = any_health_changed no_check in
      Asked
        (is_some no_check.no_healthcheck || health)
        (get_no_healthcheck no_check.no_healthcheck)
        health
        none
        (update_healthcheck no_check none))
update_healthcheck-Asked_example = update_healthcheck-Asked no_check none

-- Networks whose identifiers are their names.
abbrev network : Text → Attachment
network name = record { target = name; aliases = []; driver_opts = [] }

abbrev remove_b : ListFlag
remove_b = record { changed = true; values = codes "b" ∷ [] }

abbrev add_a : NetworkFlag
add_a = record { changed = true; networks = network (codes "a") ∷ [] }

update_networks_test :
    update_networks
      (λ name. some name)
      remove_b
      add_a
      (network (codes "c") ∷ (network (codes "b") ∷ []))
      []
    ≡ ok (network (codes "a") ∷ (network (codes "c") ∷ []))
unfolding update_networks eq elem
update_networks_test = refl

update_networks-Attached_example :
    Attached
      (λ name. some name)
      remove_b
      add_a
      (spec_networks (network (codes "c") ∷ (network (codes "b") ∷ [])) [])
      (network (codes "a") ∷ (network (codes "c") ∷ []))
update_networks-Attached_example =
    update_networks-Attached (λ name. some name) remove_b add_a
      (network (codes "c") ∷ (network (codes "b") ∷ [])) []
      (network (codes "a") ∷ (network (codes "c") ∷ [])) update_networks_test

-- An engine with one config, and a service that has it as its credential spec.
abbrev one_config : List Text → Option (List (Text × Text))
one_config names = some ((codes "cred", codes "id") ∷ [])

abbrev no_change : ListFlag
no_change = record { changed = false; values = [] }

abbrev add_none : ReferenceFlag
add_none = record { changed = false; references = [] }

abbrev cred_flag : CredentialFlag
cred_flag = record {
  changed = true;
  source = codes "config://cred";
  spec = record { config = codes "cred"; file = []; registry = [] };
}

abbrev cred : Reference
cred = record { name = codes "cred"; id = codes "id"; file = []; is_runtime = true }

get_updated_configs_test :
    get_updated_configs one_config no_change add_none cred_flag none (cred ∷ [])
    ≡ ok (cred ∷ (cred ∷ []))
unfolding get_updated_configs eq insert lookup insert_all
get_updated_configs_test = refl

get_updated_configs-Referenced_example :
    (any (refers (codes "cred")) (cred ∷ (cred ∷ [])) ≡ true)
    × (c : Reference) × (config_named (codes "cred") (cred ∷ (cred ∷ [])) ≡ some c)
    × (update_cred_spec_config cred_flag (cred ∷ (cred ∷ [])) none
        ≡ some (some (record (cred_flag.spec) { config = c.id })))
get_updated_configs-Referenced_example =
    get_updated_configs-Referenced one_config no_change add_none cred_flag none (cred ∷ [])
      (cred ∷ (cred ∷ [])) refl refl refl get_updated_configs_test

refers_test : any (refers (codes "cred")) (cred ∷ []) ≡ true
unfolding eq
refers_test = refl

get_updated_configs-twice_example :
    (kept added : List Reference) × (cred ∷ (cred ∷ []) ≡ kept ++ added)
    × (any (refers (codes "cred")) kept ≡ true)
    × (any (refers (codes "cred")) added ≡ true)
get_updated_configs-twice_example =
    get_updated_configs-twice one_config no_change add_none cred_flag none (cred ∷ [])
      (cred ∷ (cred ∷ [])) refl refl refers_test get_updated_configs_test
