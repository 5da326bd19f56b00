-- ===== src/Service/Healthcheck/Disabled.antt =====
-- When `updateHealthcheck` of cli/command/service/update.go leaves the check of a service disabled.
use docker_cli.Prelude.{
  Bool, true, false, ◌&&◌, ◌||◌, ◌≡◌, refl, Option, none, some, List, [], ◌∷◌, if◌then◌else◌,
  is_some, Result, ok, err, Bool-cases, inl, inr,
}
use docker_cli.Text.{Text, codes, eq}
use docker_cli.Template.Functions.{is_empty}
use docker_cli.Service.Healthcheck.{
  HealthConfig, HealthFlags, any_health_changed, get_no_healthcheck, no_config, config_of,
  is_disabled, enabled_test, new_test, set_health, HealthError, conflict, update_healthcheck,
  none_test,
}

-- What is asked for, by whether a flag is changed, whether `--no-healthcheck` is set, and whether a
-- flag for a check is changed.
abbrev pub Asked :
    Bool → Bool → Bool → Option HealthConfig → Result HealthError (Option HealthConfig) → Type 0
Asked changed off health old (err e) = (off ≡ true) × (health ≡ true) × (changed ≡ true)
Asked changed off health old (ok none) = (changed ≡ false) × (old ≡ none)
Asked changed off health old (ok (some config)) =
    if changed
    then (is_disabled config.test ≡ off) × ((off && health) ≡ false)
    else old ≡ some config

enabled_test-is_disabled : (test : List Text) → is_disabled (enabled_test test) ≡ false
enabled_test-is_disabled test = elim (Bool-cases (is_disabled test)) [
  | inl y ↦ rw y refl
  | inr n ↦ rw n n
]

test_of-is_disabled :
    (b : Bool) (cmd : Text) → is_disabled (if b then [] else codes "CMD-SHELL" ∷ (cmd ∷ [])) ≡ false
unfolding eq
test_of-is_disabled true cmd = refl
test_of-is_disabled false cmd = refl

new_test-is_disabled : (o : Option Text) (test : List Text) → is_disabled (new_test o test) ≡ false
new_test-is_disabled none test = enabled_test-is_disabled test
new_test-is_disabled (some cmd) test = test_of-is_disabled (is_empty cmd) cmd

unchanged_lem :
    (off health : Bool) (old : Option HealthConfig) → Asked false off health old (ok old)
unchanged_lem off health none = (refl, refl)
unchanged_lem off health (some config) = refl

branches_lem :
    (changed off health : Bool) (old : Option HealthConfig) (disabled config : HealthConfig)
    → is_disabled disabled.test ≡ true
    → is_disabled config.test ≡ false
    → Asked changed off health old (
        if changed
        then if off then if health then err conflict else ok (some disabled) else ok (some config)
        else ok old)
branches_lem false off health old disabled config d c = unchanged_lem off health old
branches_lem true true true old disabled config d c = (refl, refl, refl)
branches_lem true true false old disabled config d c = (d, refl)
branches_lem true false health old disabled config d c = (c, refl)

-- `updateHealthcheck` refuses exactly the calls with `--no-healthcheck` and a flag for a check; behind
-- any other call that changes a flag there is a check, and it is disabled exactly if the call has
-- `--no-healthcheck`; and a call that changes none leaves what was there.
pub update_healthcheck-Asked :
    (flags : HealthFlags) (old : Option HealthConfig)
    → (let health = any_health_changed flags in
        Asked
          (is_some flags.no_healthcheck || health)
          (get_no_healthcheck flags.no_healthcheck)
          health
          old
          (update_healthcheck flags old))
unfolding update_healthcheck eq
update_healthcheck-Asked flags old =
    let health = any_health_changed flags in
    branches_lem (is_some flags.no_healthcheck || health) (get_no_healthcheck flags.no_healthcheck)
      health old (record no_config { test = none_test ∷ [] }) (set_health flags (config_of old))
      refl (new_test-is_disabled flags.health_cmd (config_of old).test)
