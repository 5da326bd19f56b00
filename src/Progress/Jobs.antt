-- ===== src/Progress/Jobs.antt =====
-- `replicatedJobProgressUpdater` and `globalJobProgressUpdater` of
-- cli/command/service/progress/progress.go.
pub mod Global
use docker_cli.Prelude.{
  ℕ, zero, suc, ◌+◌, ◌-◌, ltb, leb, ◌==◌, Bool, true, false, not, ◌&&◌, ◌||◌, Option, none, some,
  List, [], ◌∷◌, ◌++◌, length, if◌then◌else◌, any, ◌^◌,
}
use docker_cli.Text.{Text}
use docker_cli.Maps.{Map, elem, lookup, insert, values, has_key}
use docker_cli.Template.Functions.{is_empty}
use docker_cli.Progress.Tasks.{
  Task, TaskState, unknown, numbered_states, complete, is_complete, Line, bar, slot_error,
  slot_state, node_error, node_state, job_progress, active_tasks, waiting_for_tasks,
  max_progress_bars, active_tasks_below,
}
use docker_cli.Progress.Slots.{SlotMap, find_slot, put_slot}
use docker_cli.Progress.Replicated.{has_unknown_state, first_bars}

-- The fields of the updater of a replicated job; the widths that pad numbers are left to the
-- formatting.
pub record JobUpdater : Type 0 where
  pub job_iteration : ℕ
  pub concurrent : ℕ
  pub total : ℕ
  pub initialized : Bool

-- Whether `int(n)` of an `n` of `uint64` is not below 0; 2^63 and more become `n - 2^64`.
abbrev is_int : ℕ → Bool
is_int n = ltb n (2 ^ 63)

-- `newReplicatedJobProgressUpdater`. None is the updater with a count below 0, which the fields of
-- `JobUpdater` do not hold.
abbrev pub new_job_updater : ℕ → ℕ → ℕ → Option JobUpdater
new_job_updater max_concurrent total_completions iteration =
    if is_int max_concurrent && is_int total_completions
    then some (record {
      job_iteration = iteration;
      concurrent = max_concurrent;
      total = total_completions;
      initialized = false;
    })
    else none

-- `task.JobIteration == nil || task.JobIteration.Index != ...`
abbrev pub of_other_iteration : ℕ → Task → Bool
of_other_iteration iteration task = elim task.job_iteration [
  | none ↦ true
  | some index ↦ not (index == iteration)
]

-- The task with the lower state.
abbrev pub lower : Option Task → Task → Option Task
lower none task = some task
lower (some existing) task =
    if ltb (numbered_states task.state) (numbered_states existing.state) then some task else none

-- `tasksBySlot[task.Slot] = task`, if there is a task to set.
abbrev pub set_slot : Option Task → SlotMap Task → SlotMap Task
set_slot none m = m
set_slot (some task) m = put_slot task.slot task m

-- The loop that makes `tasksBySlot`.
unfoldable pub job_tasks_by_slot : ℕ → List Task → SlotMap Task → SlotMap Task
unfolding find_slot put_slot
job_tasks_by_slot iteration [] by_slot = by_slot
job_tasks_by_slot iteration (task ∷ tasks) by_slot = job_tasks_by_slot iteration tasks (
    if of_other_iteration iteration task || has_unknown_state task
    then by_slot
    else set_slot (lower (find_slot task.slot by_slot) task) by_slot)

-- The zero `swarm.Task`, which is what a map has at a key that is not there.
abbrev pub zero_task : Task
zero_task = record {
  slot = 0;
  node_id = [];
  desired_state = unknown [];
  state = unknown [];
  message = [];
  job_iteration = none;
}

abbrev pub or_zero : Option Task → Task
or_zero none = zero_task
or_zero (some task) = task

-- `writeTaskProgress` of a replicated job.
abbrev pub write_job_task : ℕ → Task → List Line
write_job_task total task =
    if ltb max_progress_bars total
    then []
    else if not (is_empty task.message)
    then slot_error (task.slot + 1) total task.message ∷ []
    else slot_state (task.slot + 1) total task.state ∷ []

-- `numberedStates[state] < numberedStates[swarm.TaskStateComplete]`
abbrev pub is_active : Task → Bool
is_active task = ltb (numbered_states task.state) (numbered_states complete)

-- The loop `for i := 0; i < len(tasksBySlot); i++`, from `i` on with `n` rounds left: how many are
-- active, how many complete, and what is written.
unfoldable pub count_job : ℕ → ℕ → ℕ → SlotMap Task → ℕ × ℕ × List Line
unfolding find_slot
count_job total zero i by_slot = (0, 0, [])
count_job total (suc n) i by_slot =
    let task = or_zero (find_slot i by_slot) in
    let (active, completed, lines) = count_job total n (suc i) by_slot in
    (
      if is_active task then active + 1 else active,
      if is_complete task.state then completed + 1 else completed,
      write_job_task total task ++ lines,
    )

-- `writeOverallProgress` of a replicated job. `actualDesired` is negative where more tasks are complete
-- than the total.
abbrev pub write_job_overall : JobUpdater → ℕ → ℕ → List Line
write_job_overall u active completed =
    let desired = u.total - completed in
    job_progress completed u.total
    ∷ (if ltb u.total completed
        then active_tasks_below active (completed - u.total)
        else active_tasks active (if ltb u.concurrent desired then u.concurrent else desired))
    ∷ []

-- `update` of a replicated job, which has no error.
unfoldable pub update_job : List Task → JobUpdater → JobUpdater × Bool × List Line
unfolding job_tasks_by_slot count_job
update_job tasks u =
    let first =
      if u.initialized
      then []
      else write_job_overall u 0 0
        ++ (if leb u.total max_progress_bars then first_bars u.total 1 u.total else []) in
    let by_slot = job_tasks_by_slot u.job_iteration tasks [] in
    let (active, completed, lines) = count_job u.total (length by_slot) 0 by_slot in
    (
      record u { initialized = true },
      completed == u.total,
      first ++ (lines ++ write_job_overall u active completed),
    )
