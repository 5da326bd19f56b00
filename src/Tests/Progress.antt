-- ===== src/Tests/Progress.antt =====
-- cli/command/service/progress/progress.go on concrete inputs.
use docker_cli.Prelude.{
  ◌≡◌, refl, [], ◌∷◌, List, some, ok, true, false, length, all, ◌||◌, not, ◌==◌, err, none, ◌^◌,
  Option,
}
use docker_cli.Text.{codes, eq}
use docker_cli.Maps.{elem, values}
use docker_cli.Progress.Tasks.{
  Task, running, failed, shutdown, Line, complete, overall, bar, slot_state,
}
use docker_cli.Progress.Slots.{find_slot, put_slot}
use docker_cli.Progress.Replicated.{Updater, tasks_by_slot, update_replicated}
use docker_cli.Progress.Replicated.Choice.{IsChosen, tasks_by_slot-IsChosen}
use docker_cli.Progress.Replicated.Numbers.{
  IsNumbered, Kept, new_updater, here, next, Rounds-IsNumbered,
}
use docker_cli.Progress.Start.{get_active_nodes, initialize_updater, unrecognized_service_mode}
use docker_cli.Progress.Global
use docker_cli.Progress.Global.{tasks_by_node, update_global}
use docker_cli.Progress.Global.Converged.{runs_on, Answers, update_global-all}
use docker_cli.Progress.Jobs.{JobUpdater, new_job_updater, job_tasks_by_slot, count_job, update_job}

-- A task of slot 1 that was replaced, and its replacement.
abbrev old_task : Task
old_task = record {
  slot = 1;
  node_id = codes "a";
  desired_state = shutdown;
  state = failed;
  message = [];
  job_iteration = some 1;
}

abbrev replacement : Task
replacement = record old_task { desired_state = running; state = running }

abbrev both : List Task
both = old_task ∷ (replacement ∷ [])

tasks_by_slot_test : find_slot 1 (tasks_by_slot (codes "a" ∷ []) both []) ≡ some replacement
unfolding tasks_by_slot elem eq
tasks_by_slot_test = refl

tasks_by_slot-IsChosen_example :
    IsChosen (codes "a" ∷ []) 1 (find_slot 1 (tasks_by_slot (codes "a" ∷ []) both [])) both
tasks_by_slot-IsChosen_example = tasks_by_slot-IsChosen (codes "a" ∷ []) 1 both

-- One round with a service of two replicas.
abbrev one_slot : Updater
one_slot = record { slot_map = (1, 1) ∷ []; initialized = true; done = false }

abbrev round_lines : List Line
round_lines =
    overall 0 2 false ∷ (bar 1 2 ∷ (bar 2 2 ∷ (slot_state 1 2 running ∷ (overall 1 2 false ∷ []))))

round_test :
    update_replicated (some 2) both (codes "a" ∷ []) false new_updater
    ≡ ok (one_slot, false, round_lines)
unfolding update_replicated elem eq
round_test = refl

Rounds-IsNumbered_example :
    IsNumbered 1 one_slot.slot_map × Kept one_slot.slot_map one_slot.slot_map
Rounds-IsNumbered_example =
    Rounds-IsNumbered one_slot one_slot
      (next (some 2) both (codes "a" ∷ []) false false round_lines here round_test) here

abbrev nodes_updater : Global.Updater
nodes_updater = record { initialized = true; done = false }

update_global-all_example :
    (let chosen = values (tasks_by_node both []) in
      Answers
        (true || not (length chosen == 0))
        (all (runs_on (codes "a" ∷ [])) chosen)
        nodes_updater
        (update_global both (codes "a" ∷ []) false nodes_updater))
update_global-all_example = update_global-all both (codes "a" ∷ []) false nodes_updater

-- A job of one task, which is complete.
abbrev job : Option JobUpdater
job = new_job_updater 1 1 1

new_job_updater_test : new_job_updater 1 (2 ^ 63) 1 ≡ none
new_job_updater_test = refl

abbrev finished : List Task
finished = record old_task { slot = 0; state = complete } ∷ []

update_job_test : elim job [ none ↦ false | some u ↦ (update_job finished u).1 ] ≡ true
unfolding update_job job_tasks_by_slot count_job find_slot put_slot
update_job_test = refl

get_active_nodes_test :
    get_active_nodes (
      some (
        record { id = codes "a"; is_down = false }
        ∷ (record { id = codes "b"; is_down = true } ∷ [])))
    ≡ some (codes "a" ∷ [])
unfolding get_active_nodes elem
get_active_nodes_test = refl

initialize_updater_test :
    initialize_updater
      (record { replicated = some none; global = false; replicated_job = none; global_job = false })
    ≡ err unrecognized_service_mode
unfolding initialize_updater
initialize_updater_test = refl
