-- ===== src/Progress/Monitor.antt =====
-- The main loop of `ServiceProgress` in cli/command/service/progress/progress.go.
pub mod Quiet
pub mod Verdicts
pub mod Verified
use docker_cli.Prelude.{
  ℕ, ◌+◌, ◌-◌, ltb, leb, ◌==◌, Bool, true, false, not, ◌&&◌, ◌||◌, Option, none, some, List, [],
  ◌∷◌, ◌++◌, if◌then◌else◌,
}
use docker_cli.Text.{Text}
use docker_cli.Template.Functions.{is_empty}

-- `swarm.UpdateState`, of the engine's API; `other` is a state that the loop has no case for.
pub data UpdateState : Type 0 where
  updating : UpdateState
  completed : UpdateState
  paused : UpdateState
  rollback_started : UpdateState
  rollback_paused : UpdateState
  rollback_completed : UpdateState
  other : UpdateState

-- `swarm.UpdateStatus`
pub record UpdateStatus : Type 0 where
  pub state : UpdateState
  pub message : Text

-- What one round of the loop learns from outside. A time is in nanoseconds, from a moment on that is
-- before the start and at which no clock is read again: `IsZero` is then `none`.
pub record Round : Type 0 where
  -- `service.Spec.UpdateConfig.Monitor`, and 0 where there is no configuration
  pub configured : ℕ
  pub update_status : Option UpdateStatus
  -- whether the service is read, and an updater is made for it
  pub inspected : Bool
  -- the clock before the tasks are read, after that, and where the wait is computed
  pub before : ℕ
  pub after : ℕ
  pub later : ℕ
  -- what `updater.update` returns, as a function of `rollback`; `none` is an error of it or of a
  -- request to the engine before it
  pub verdict : Bool → Option Bool
  -- whether `service.JobStatus` is there
  pub is_job : Bool
  -- whether the signal comes before the next round
  pub interrupted : Bool

-- The loop's variables.
pub record State : Type 0 where
  pub converged : Bool
  pub converged_at : Option ℕ
  pub monitor : ℕ
  pub rollback : Bool
  pub message : Option Text

-- `5 * time.Second`
abbrev pub default_monitor : ℕ
default_monitor = 5000000000

abbrev pub initial : State
initial = record {
  converged = false;
  converged_at = none;
  monitor = default_monitor;
  rollback = false;
  message = none;
}

-- What the loop writes for itself.
pub data Note : Type 0 where
  rolling_back : Text → Note
  service_converged : Note
  rollback_message : Text → Note
  job_complete : Note
  waiting : ℕ → Note
  task_failure : Note
  in_background : Note

-- How the loop ends.
pub data End : Type 0 where
  done : End
  update_paused : Text → End
  rolled_back_paused : Text → End
  failed : End

-- A round goes on with a state, or ends the loop.
pub data Outcome : Type 0 where
  go_on : State → List Note → Outcome
  stop : End → List Note → Outcome

-- `if service.Spec.UpdateConfig != nil && ...Monitor != 0`
abbrev pub read_monitor : ℕ → State → State
read_monitor configured s = if configured == 0 then s else record s { monitor = configured }

-- The switch on `service.UpdateStatus.State`.
abbrev pub read_status : Option UpdateStatus → State → Outcome
read_status none s = go_on s []
read_status (some status) s = elim status.state [
  | updating ↦ go_on (record s { rollback = false }) []
  | completed ↦ if s.converged then go_on s [] else stop done []
  | paused ↦ stop (update_paused status.message) []
  | rollback_started ↦
      go_on (record s { rollback = true })
        (if not s.rollback && not (is_empty status.message)
          then rolling_back status.message ∷ []
          else [])
  | rollback_paused ↦ stop (rolled_back_paused status.message) []
  | rollback_completed ↦
      go_on
        (record s {
          rollback = true;
          message = if s.converged then s.message else some status.message;
        })
        []
  | other ↦ go_on s []
]

-- `time.Since(convergedAt) >= monitor`, for a service that is converged.
abbrev pub is_verified : State → ℕ → Bool
is_verified s now = elim s.converged_at [
  | none ↦ s.converged
  | some since ↦ s.converged && leb (since + s.monitor) now
]

abbrev pub last_message : Option Text → List Note
last_message none = []
last_message (some m) = rollback_message m ∷ []

abbrev pub failure_of : Option ℕ → List Note
failure_of none = []
failure_of (some since) = task_failure ∷ []

-- `wait := monitor - time.Since(convergedAt)`, which is written if it is not negative.
abbrev pub waiting_for : ℕ → ℕ → List Note
waiting_for until now = if leb now until then waiting (until - now) ∷ [] else []

-- `select`, with what was written before.
abbrev pub select : Round → State → List Note → Outcome
select round s notes =
    if round.interrupted
    then stop done (notes ++ (if s.converged then [] else in_background ∷ []))
    else go_on s notes

abbrev pub or_now : Option ℕ → ℕ → ℕ
or_now none now = now
or_now (some since) now = since

-- The rest of the round, after `updater.update` with this verdict.
abbrev pub after_update : Round → State → Bool → Outcome
after_update round s false =
    select round (record s { converged = false; converged_at = none }) (failure_of s.converged_at)
after_update round s true =
    let since = or_now s.converged_at round.after in
    if round.is_job
    then stop done (job_complete ∷ [])
    else select round (record s { converged = true; converged_at = some since })
        (waiting_for (since + s.monitor) round.later)

-- From the test of `convergedAt` on.
abbrev pub verify : Round → State → Outcome
verify round s =
    if is_verified s round.before
    then stop done (service_converged ∷ last_message s.message)
    else elim (round.verdict s.rollback) [ none ↦ stop failed [] | some b ↦ after_update round s b ]

-- What is written before what an outcome writes.
abbrev pub behind : List Note → Outcome → Outcome
behind notes (go_on s more) = go_on s (notes ++ more)
behind notes (stop e more) = stop e (notes ++ more)

-- The rest of a round, after the switch.
abbrev pub then_verify : Round → Outcome → Outcome
then_verify round (stop e notes) = stop e notes
then_verify round (go_on s notes) = behind notes (verify round s)

-- One round of the loop.
unfoldable pub round_step : Round → State → Outcome
round_step round s =
    if round.inspected
    then then_verify round (read_status round.update_status (read_monitor round.configured s))
    else stop failed []

-- What an outcome writes, and then what the loop does from its state on.
abbrev pub go_with : Outcome → (State → Option End × List Note) → Option End × List Note
go_with (stop e notes) k = (some e, notes)
go_with (go_on s notes) k = let (e, more) = k s in (e, notes ++ more)

-- The loop over the rounds: how it ends, or none where it still runs after them; and what it wrote.
unfoldable pub service_progress : List Round → State → Option End × List Note
unfolding round_step
service_progress [] s = (none, [])
service_progress (round ∷ rounds) s = go_with (round_step round s) (λ t. service_progress rounds t)
