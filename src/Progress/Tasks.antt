-- ===== src/Progress/Tasks.antt =====
-- The tasks that cli/command/service/progress/progress.go counts, and the lines that it writes.
use docker_cli.Prelude.{ℕ, ltb, Bool, true, false, Option}
use docker_cli.Text.{Text}

-- `swarm.TaskState`, of the engine's API; `unknown` is any state that `numberedStates` does not have.
pub data TaskState : Type 0 where
  new_task : TaskState
  allocated : TaskState
  pending : TaskState
  assigned : TaskState
  accepted : TaskState
  preparing : TaskState
  ready : TaskState
  starting : TaskState
  running : TaskState
  complete : TaskState
  shutdown : TaskState
  failed : TaskState
  rejected : TaskState
  unknown : Text → TaskState

-- `numberedStates[state]`, which is 0 for a state that is not there.
abbrev pub numbered_states : TaskState → ℕ
numbered_states new_task = 1
numbered_states allocated = 2
numbered_states pending = 3
numbered_states assigned = 4
numbered_states accepted = 5
numbered_states preparing = 6
numbered_states ready = 7
numbered_states starting = 8
numbered_states running = 9
numbered_states complete = 10
numbered_states shutdown = 11
numbered_states failed = 12
numbered_states rejected = 13
numbered_states (unknown s) = 0

-- `terminalState`
abbrev pub terminal_state : TaskState → Bool
terminal_state state = ltb (numbered_states running) (numbered_states state)

abbrev pub is_running : TaskState → Bool
is_running running = true
is_running _ = false

abbrev pub is_complete : TaskState → Bool
is_complete complete = true
is_complete _ = false

-- `swarm.Task`: the fields that are read. A slot is not negative.
pub record Task : Type 0 where
  pub slot : ℕ
  pub node_id : Text
  pub desired_state : TaskState
  pub state : TaskState
  pub message : Text
  pub job_iteration : Option ℕ

-- What is written to the progress output, before it is formatted.
pub data Line : Type 0 where
  overall : ℕ → ℕ → Bool → Line
  bar : ℕ → ℕ → Line
  slot_error : ℕ → ℕ → Text → Line
  slot_state : ℕ → ℕ → TaskState → Line
  node_error : Text → Text → Line
  node_state : Text → TaskState → Line
  waiting_for_tasks : Line
  job_progress : ℕ → ℕ → Line
  active_tasks : ℕ → ℕ → Line
  -- out of a negative number
  active_tasks_below : ℕ → ℕ → Line

-- `maxProgressBars`
abbrev pub max_progress_bars : ℕ
max_progress_bars = 20
