-- ===== src/Tests/Service/Modes.antt =====
-- Replicas, log drivers and preferences of cli/command/service/update.go on concrete inputs.
use docker_cli.Prelude.{◌≡◌, refl, some, none, err, [], ◌∷◌}
use docker_cli.Text.{codes, eq, cut}
use docker_cli.Maps.{insert}
use docker_cli.Service.Modes.{
  update_replicas, not_replicated, update_log_driver, update_placement_preferences,
}

update_replicas_test : update_replicas (some (some 3)) none ≡ err not_replicated
unfolding update_replicas
update_replicas_test = refl

update_log_driver_test :
    update_log_driver (some (codes "syslog")) (codes "tag=x" ∷ []) none
    ≡ some (record { name = codes "syslog"; options = (codes "tag", codes "x") ∷ [] })
unfolding update_log_driver cut insert
update_log_driver_test = refl

update_placement_preferences_test :
    update_placement_preferences
      (some (some (codes "c") ∷ []))
      (some (some (codes "a") ∷ []))
      (some (codes "a") ∷ (some (codes "b") ∷ []))
    ≡ some (codes "b") ∷ (some (codes "c") ∷ [])
unfolding update_placement_preferences eq
update_placement_preferences_test = refl
