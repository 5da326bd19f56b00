-- ===== src/Service/Healthcheck.antt =====
-- `updateHealthcheck` of cli/command/service/update.go.
pub mod Disabled
use docker_cli.Prelude.{
  ℕ, Bool, true, false, ◌||◌, Option, none, some, List, [], ◌∷◌, if◌then◌else◌, is_some, Result, ok,
  err,
}
use docker_cli.Text.{Text, codes, eq}
use docker_cli.Template.Functions.{is_empty}

-- `container.HealthConfig`, of the engine's API: the fields that are set. Numbers are not negative.
pub record HealthConfig : Type 0 where
  pub test : List Text
  pub interval : ℕ
  pub timeout : ℕ
  pub start_period : ℕ
  pub retries : ℕ

-- The flags: a value where the flag is changed.
pub record HealthFlags : Type 0 where
  pub no_healthcheck : Option Bool
  pub health_cmd : Option Text
  pub health_interval : Option ℕ
  pub health_timeout : Option ℕ
  pub health_start_period : Option ℕ
  pub health_retries : Option ℕ

-- `anyChanged` of the flags for a check's command and numbers.
abbrev pub any_health_changed : HealthFlags → Bool
any_health_changed flags =
    is_some flags.health_cmd
    || is_some flags.health_interval
    || is_some flags.health_timeout
    || is_some flags.health_start_period
    || is_some flags.health_retries

-- `flags.GetBool(flagNoHealthcheck)`
abbrev pub get_no_healthcheck : Option Bool → Bool
get_no_healthcheck none = false
get_no_healthcheck (some b) = b

-- `container.HealthConfig{}`
abbrev pub no_config : HealthConfig
no_config = record { test = []; interval = 0; timeout = 0; start_period = 0; retries = 0 }

abbrev pub config_of : Option HealthConfig → HealthConfig
config_of none = no_config
config_of (some config) = config

abbrev pub none_test : Text
none_test = codes "NONE"

-- `len(test) > 0 && test[0] == "NONE"`
abbrev pub is_disabled : List Text → Bool
is_disabled [] = false
is_disabled (word ∷ words) = eq word none_test

abbrev pub test_of : Text → List Text
test_of cmd = if is_empty cmd then [] else codes "CMD-SHELL" ∷ (cmd ∷ [])

-- The value of a flag if it is changed, and what was there if it is not.
abbrev pub or_old : Option ℕ → ℕ → ℕ
or_old none old = old
or_old (some new) old = new

abbrev pub enabled_test : List Text → List Text
enabled_test test = if is_disabled test then [] else test

abbrev pub new_test : Option Text → List Text → List Text
new_test none test = enabled_test test
new_test (some cmd) test = test_of cmd

-- The part behind the test of `--no-healthcheck`.
abbrev pub set_health : HealthFlags → HealthConfig → HealthConfig
set_health flags config = record {
  test = new_test flags.health_cmd config.test;
  interval = or_old flags.health_interval config.interval;
  timeout = or_old flags.health_timeout config.timeout;
  start_period = or_old flags.health_start_period config.start_period;
  retries = or_old flags.health_retries config.retries;
}

-- `--no-healthcheck conflicts with --health-* options`
pub data HealthError : Type 0 where
  conflict : HealthError

-- `updateHealthcheck`, on `containerSpec.Healthcheck`.
unfoldable pub update_healthcheck :
    HealthFlags → Option HealthConfig → Result HealthError (Option HealthConfig)
unfolding eq
update_healthcheck flags healthcheck =
    if is_some flags.no_healthcheck || any_health_changed flags
    then if get_no_healthcheck flags.no_healthcheck
      then if any_health_changed flags
        then err conflict
        else ok (some (record no_config { test = none_test ∷ [] }))
      else ok (some (set_health flags (config_of healthcheck)))
    else ok healthcheck
