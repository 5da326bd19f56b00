-- ===== src/Progress/Start.antt =====
-- What `ServiceProgress` of cli/command/service/progress/progress.go calls beside the updaters.
use docker_cli.Prelude.{
  ℕ, Bool, true, false, Option, none, some, List, [], ◌∷◌, ◌++◌, if◌then◌else◌, Result, ok, err,
}
use docker_cli.Text.{Text}
use docker_cli.Maps.{elem}
use docker_cli.Progress.Jobs.{JobUpdater, new_job_updater}

-- `swarm.Node`: its identifier, and whether its state is down.
pub record Node : Type 0 where
  pub id : Text
  pub is_down : Bool

-- The loop of `getActiveNodes`, over the set so far as the list of its members.
unfoldable pub active_nodes_onto : List Node → List Text → List Text
unfolding elem
active_nodes_onto [] active_nodes = active_nodes
active_nodes_onto (n ∷ nodes) active_nodes = active_nodes_onto nodes (
    if n.is_down
    then active_nodes
    else if elem n.id active_nodes
    then active_nodes
    else active_nodes ++ (n.id ∷ []))

-- `getActiveNodes`, with the answer of the engine; none is an error.
unfoldable pub get_active_nodes : Option (List Node) → Option (List Text)
unfolding active_nodes_onto
get_active_nodes none = none
get_active_nodes (some nodes) = some (active_nodes_onto nodes [])

-- `swarm.ReplicatedJob` with both counts, and the job iteration of the service.
pub record ReplicatedJob : Type 0 where
  pub max_concurrent : ℕ
  pub total_completions : ℕ
  pub iteration : ℕ

-- `swarm.ServiceMode`: which of its fields are there.
pub record ServiceMode : Type 0 where
  pub replicated : Option (Option ℕ)
  pub global : Bool
  pub replicated_job : Option ReplicatedJob
  pub global_job : Bool

-- The four updaters, each as it is made; that of a replicated job is none where a count of it is an
-- `int` below 0.
pub data ProgressUpdater : Type 0 where
  replicated_updater : ProgressUpdater
  global_updater : ProgressUpdater
  replicated_job_updater : Option JobUpdater → ProgressUpdater
  global_job_updater : ProgressUpdater

-- `unrecognized service mode`
pub data ModeError : Type 0 where
  unrecognized_service_mode : ModeError

abbrev pub has_replicas : Option (Option ℕ) → Bool
has_replicas (some (some replicas)) = true
has_replicas _ = false

abbrev pub job_or_global : Option ReplicatedJob → Bool → Result ModeError ProgressUpdater
job_or_global (some job) global_job = ok (
    replicated_job_updater (new_job_updater job.max_concurrent job.total_completions job.iteration))
job_or_global none true = ok global_job_updater
job_or_global none false = err unrecognized_service_mode

-- `initializeUpdater`
unfoldable pub initialize_updater : ServiceMode → Result ModeError ProgressUpdater
initialize_updater mode =
    if has_replicas mode.replicated
    then ok replicated_updater
    else if mode.global
    then ok global_updater
    else job_or_global mode.replicated_job mode.global_job
