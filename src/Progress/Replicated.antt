-- ===== src/Progress/Replicated.antt =====
-- `replicatedProgressUpdater` of cli/command/service/progress/progress.go.
pub mod Choice
pub mod Numbers
use docker_cli.Prelude.{
  ℕ, suc, ◌+◌, ltb, leb, ◌==◌, Bool, true, false, not, ◌&&◌, ◌||◌, Option, none, some, List, [],
  ◌∷◌, ◌++◌, length, if◌then◌else◌, any, Result, ok, err, map, zero,
}
use docker_cli.Text.{Text}
use docker_cli.Maps.{elem}
use docker_cli.Template.Functions.{is_empty}
use docker_cli.Progress.Tasks.{
  Task, TaskState, running, numbered_states, terminal_state, is_running, Line, overall, bar,
  slot_error, slot_state, max_progress_bars,
}
use docker_cli.Progress.Slots.{SlotMap, find_slot, put_slot, slot_values, number_at}

-- The updater's fields.
pub record Updater : Type 0 where
  pub slot_map : SlotMap ℕ
  pub initialized : Bool
  pub done : Bool

-- Whether a task that is there is kept before another of its slot or node.
abbrev pub is_kept : Task → Task → Bool
is_kept existing task =
    ltb (numbered_states existing.desired_state) (numbered_states task.desired_state)
    || (numbered_states existing.desired_state == numbered_states task.desired_state
        && leb (numbered_states existing.state) (numbered_states task.state))

abbrev pub has_unknown_state : Task → Bool
has_unknown_state task = numbered_states task.desired_state == 0 || numbered_states task.state == 0

abbrev pub on_inactive_node : List Text → Task → Bool
on_inactive_node active_nodes task =
    not (is_empty task.node_id) && not (elem task.node_id active_nodes)

-- A task in known states, where `existing` is the task of its slot so far.
abbrev pub place_known : Bool → Task → Option Task → SlotMap Task → SlotMap Task
place_known inactive task none tasks_by_slot =
    if inactive then tasks_by_slot else put_slot task.slot task tasks_by_slot
place_known inactive task (some existing) tasks_by_slot =
    if is_kept existing task
    then tasks_by_slot
    else if inactive
    then tasks_by_slot
    else put_slot task.slot task tasks_by_slot

-- One round of the loop of `tasksBySlot`.
unfoldable pub place_task : List Text → Task → SlotMap Task → SlotMap Task
unfolding find_slot put_slot elem
place_task active_nodes task tasks_by_slot =
    if has_unknown_state task
    then tasks_by_slot
    else place_known (on_inactive_node active_nodes task) task (find_slot task.slot tasks_by_slot)
        tasks_by_slot

-- `tasksBySlot`, over the map so far.
unfoldable pub tasks_by_slot : List Text → List Task → SlotMap Task → SlotMap Task
unfolding place_task
tasks_by_slot active_nodes [] by_slot = by_slot
tasks_by_slot active_nodes (task ∷ tasks) by_slot =
    tasks_by_slot active_nodes tasks (place_task active_nodes task by_slot)

-- The number of a slot, which is made if there is none.
abbrev pub map_slot : ℕ → SlotMap ℕ → ℕ × SlotMap ℕ
map_slot slot slot_map =
    let mapped = number_at slot slot_map in
    if mapped == 0
    then (length slot_map + 1, put_slot slot (length slot_map + 1) slot_map)
    else (mapped, slot_map)

-- `writeTaskProgress`; how `truncError` cuts the message is left to the formatting.
abbrev pub write_task_progress : Bool → Task → ℕ → ℕ → List Line
write_task_progress done task mapped_slot replicas =
    if done || ltb max_progress_bars replicas || ltb replicas mapped_slot
    then []
    else if not (is_empty task.message)
    then slot_error mapped_slot replicas task.message ∷ []
    else if not (terminal_state task.desired_state) && not (terminal_state task.state)
    then slot_state mapped_slot replicas task.state ∷ []
    else []

-- A task that counts as running.
abbrev pub counts_as_running : Task → Bool
counts_as_running task = not (terminal_state task.desired_state) && is_running task.state

-- The loop over the tasks: the slots, how many run, and what is written.
unfoldable pub count_running : Bool → ℕ → List Task → SlotMap ℕ → ℕ → SlotMap ℕ × ℕ × List Line
unfolding find_slot put_slot
count_running done replicas [] slot_map n = (slot_map, n, [])
count_running done replicas (task ∷ tasks) slot_map n =
    let (mapped, slot_map') = map_slot task.slot slot_map in
    let (final, total, lines) =
      count_running done replicas tasks slot_map' (if counts_as_running task then n + 1 else n) in
    (final, total, write_task_progress done task mapped replicas ++ lines)

-- The lines of the first call: `replicas` bars, from `i` on.
abbrev pub first_bars : ℕ → ℕ → ℕ → List Line
first_bars zero i replicas = []
first_bars (suc n) i replicas = bar i replicas ∷ first_bars n (i + 1) replicas

-- `update`, for a service with this number of replicas; none is an error.
unfoldable pub update_replicated :
    Option ℕ → List Task → List Text → Bool → Updater → Result Text (Updater × Bool × List Line)
unfolding tasks_by_slot count_running
update_replicated none tasks active_nodes rollback u = err []
update_replicated (some replicas) tasks active_nodes rollback u =
    let first =
      if u.initialized
      then []
      else overall 0 replicas rollback
        ∷ (if leb replicas max_progress_bars then first_bars replicas 1 replicas else []) in
    let slot_map = if u.initialized then u.slot_map else [] in
    let chosen = slot_values (tasks_by_slot active_nodes tasks []) in
    let done = u.done && not (any (λ t. not (is_running t.state)) chosen) in
    let (slot_map', n, lines) = count_running done replicas chosen slot_map 0 in
    let last = if done then [] else overall n replicas rollback ∷ [] in
    ok (
      record { slot_map = slot_map'; initialized = true; done = done || n == replicas },
      n == replicas,
      first ++ (lines ++ last),
    )
