-- ===== src/Progress/Jobs/Global.antt =====
-- `globalJobProgressUpdater` of cli/command/service/progress/progress.go.
use docker_cli.Prelude.{
  ℕ, ◌+◌, ltb, ◌==◌, Bool, true, false, not, ◌&&◌, ◌||◌, Option, none, some, List, [], ◌∷◌, ◌++◌,
  length, if◌then◌else◌,
}
use docker_cli.Text.{Text}
use docker_cli.Maps.{Map, elem, lookup, insert, values}
use docker_cli.Template.Functions.{is_empty}
use docker_cli.Progress.Tasks.{
  Task, is_complete, Line, node_error, node_state, job_progress, waiting_for_tasks,
  max_progress_bars,
}
use docker_cli.Progress.Jobs.{of_other_iteration, lower}

-- The updater's fields; `taskNodes` is the set of its keys.
pub record GlobalJobUpdater : Type 0 where
  pub initialized : Bool
  pub total : ℕ
  pub task_nodes : List Text

-- The loop that makes `taskNodes`.
unfoldable pub task_nodes_of : ℕ → List Task → List Text → List Text
unfolding elem
task_nodes_of iteration [] nodes = nodes
task_nodes_of iteration (task ∷ tasks) nodes = task_nodes_of iteration tasks (
    if of_other_iteration iteration task || elem task.node_id nodes
    then nodes
    else nodes ++ (task.node_id ∷ []))

-- `tasksByNodeID[task.NodeID] = task`, if there is a task to set.
abbrev pub set_node : Option Task → Map Task → Map Task
set_node none m = m
set_node (some task) m = insert task.node_id task m

-- The loop that makes `tasksByNodeID`.
unfoldable pub job_tasks_by_node : ℕ → List Text → List Task → Map Task → Map Task
unfolding elem lookup insert
job_tasks_by_node iteration nodes [] by_node = by_node
job_tasks_by_node iteration nodes (task ∷ tasks) by_node = job_tasks_by_node iteration nodes tasks (
    if of_other_iteration iteration task || not (elem task.node_id nodes)
    then by_node
    else set_node (lower (lookup task.node_id by_node) task) by_node)

-- `writeTaskProgress` of a global job.
abbrev pub write_node_task : ℕ → Task → List Line
write_node_task total task =
    if ltb max_progress_bars total
    then []
    else if not (is_empty task.message)
    then node_error task.node_id task.message ∷ []
    else node_state task.node_id task.state ∷ []

-- The loop over the tasks: how many are complete, and what is written.
unfoldable pub count_complete : ℕ → List Task → ℕ → ℕ × List Line
count_complete total [] n = (n, [])
count_complete total (task ∷ tasks) n =
    let (completed, lines) =
      count_complete total tasks (if is_complete task.state then n + 1 else n) in
    (completed, write_node_task total task ++ lines)

-- The rest of `update`, with what the first call wrote.
abbrev pub update_job_nodes :
    ℕ → List Task → List Line → GlobalJobUpdater → GlobalJobUpdater × Bool × List Line
update_job_nodes iteration tasks first u =
    let chosen = values (job_tasks_by_node iteration u.task_nodes tasks []) in
    let (completed, lines) = count_complete u.total chosen 0 in
    (u, completed == u.total, first ++ (lines ++ (job_progress completed u.total ∷ [])))

-- The updater after its first call that finds tasks.
abbrev pub start_job : List Text → GlobalJobUpdater
start_job nodes = record { initialized = true; total = length nodes; task_nodes = nodes }

-- `update`, for a service with this job iteration; it has no error.
unfoldable pub update_global_job :
    ℕ → List Task → List Text → GlobalJobUpdater → GlobalJobUpdater × Bool × List Line
unfolding task_nodes_of
update_global_job iteration tasks active_nodes u =
    let started = start_job (task_nodes_of iteration tasks []) in
    if u.initialized
    then update_job_nodes iteration tasks [] u
    else if length tasks == 0 && not (length active_nodes == 0)
    then (u, false, waiting_for_tasks ∷ [])
    else update_job_nodes iteration tasks (job_progress 0 started.total ∷ []) started
