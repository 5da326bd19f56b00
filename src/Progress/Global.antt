-- ===== src/Progress/Global.antt =====
-- `globalProgressUpdater` of cli/command/service/progress/progress.go.
pub mod Converged
use docker_cli.Prelude.{
  ℕ, ◌+◌, ltb, leb, ◌==◌, Bool, true, false, not, ◌&&◌, ◌||◌, Option, none, some, List, [], ◌∷◌,
  ◌++◌, length, if◌then◌else◌, any,
}
use docker_cli.Text.{Text}
use docker_cli.Maps.{Map, elem, lookup, insert, values}
use docker_cli.Template.Functions.{is_empty}
use docker_cli.Progress.Tasks.{
  Task, terminal_state, is_running, Line, overall, node_error, node_state, waiting_for_tasks,
  max_progress_bars,
}
use docker_cli.Progress.Replicated.{is_kept, has_unknown_state, counts_as_running}

-- The updater's fields.
pub record Updater : Type 0 where
  pub initialized : Bool
  pub done : Bool

-- A task in known states, where `existing` is the task of its node so far.
abbrev pub place_on_node : Task → Option Task → Map Task → Map Task
place_on_node task none tasks_by_node = insert task.node_id task tasks_by_node
place_on_node task (some existing) tasks_by_node =
    if is_kept existing task then tasks_by_node else insert task.node_id task tasks_by_node

-- `tasksByNode`, over the map so far.
unfoldable pub tasks_by_node : List Task → Map Task → Map Task
unfolding lookup insert
tasks_by_node [] by_node = by_node
tasks_by_node (task ∷ tasks) by_node = tasks_by_node tasks (
    if has_unknown_state task
    then by_node
    else place_on_node task (lookup task.node_id by_node) by_node)

-- `writeTaskProgress`; how an identifier and a message are cut is left to the formatting.
abbrev pub write_node_progress : Bool → Task → ℕ → List Line
write_node_progress done task node_count =
    if done || ltb max_progress_bars node_count
    then []
    else if not (is_empty task.message)
    then node_error task.node_id task.message ∷ []
    else if not (terminal_state task.desired_state) && not (terminal_state task.state)
    then node_state task.node_id task.state ∷ []
    else []

-- The loop over the tasks: how many run, and what is written.
unfoldable pub count_on_nodes : Bool → ℕ → List Text → List Task → ℕ → ℕ × List Line
unfolding elem
count_on_nodes done node_count active_nodes [] n = (n, [])
count_on_nodes done node_count active_nodes (task ∷ tasks) n =
    let active = elem task.node_id active_nodes in
    let (total, lines) =
      count_on_nodes done node_count active_nodes tasks
        (if active && counts_as_running task then n + 1 else n) in
    (total, (if active then write_node_progress done task node_count else []) ++ lines)

-- The rest of `update`, with what the first call wrote.
abbrev pub update_nodes :
    List Task → ℕ → List Text → Bool → Bool → List Line → Updater × Bool × List Line
update_nodes chosen node_count active_nodes rollback was_done first =
    let done = was_done && not (any (λ t. not (is_running t.state)) chosen) in
    let (n, lines) = count_on_nodes done node_count active_nodes chosen 0 in
    let last = if done then [] else overall n node_count rollback ∷ [] in
    (
      record { initialized = true; done = done || n == node_count },
      n == node_count,
      first ++ (lines ++ last),
    )

-- `update`, which has no error.
unfoldable pub update_global : List Task → List Text → Bool → Updater → Updater × Bool × List Line
unfolding tasks_by_node
update_global tasks active_nodes rollback u =
    let chosen = values (tasks_by_node tasks []) in
    let node_count = length chosen in
    if u.initialized
    then update_nodes chosen node_count active_nodes rollback u.done []
    else if node_count == 0
    then (u, false, waiting_for_tasks ∷ [])
    else update_nodes chosen node_count active_nodes rollback u.done
        (overall 0 node_count rollback ∷ [])
