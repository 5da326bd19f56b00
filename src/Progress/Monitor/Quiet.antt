-- ===== src/Progress/Monitor/Quiet.antt =====
-- That `ServiceProgress` of cli/command/service/progress/progress.go ends for a service that is, and
-- stays, converged.
use docker_cli.Prelude.{
  ℕ, ◌+◌, ◌≤◌, ◌==◌, ◌≡◌, refl, ◌∙◌, ap, subst, Bool, true, false, Option, none, some, List, [],
  ◌∷◌, ◌++◌, if◌then◌else◌, arith, All,
}
use docker_cli.Text.{Text}
use docker_cli.Progress.Monitor.{
  Round, State, Note, service_converged, End, done, Outcome, go_on, stop, read_monitor, read_status,
  is_verified, after_update, select, verify, then_verify, behind, round_step, or_now, UpdateStatus,
  waiting_for, last_message, service_progress, job_complete, UpdateState, updating, completed,
  paused, rollback_started, rollback_paused, rollback_completed, other, go_with,
}

abbrev pub is_pausing : UpdateState → Bool
is_pausing paused = true
is_pausing rollback_paused = true
is_pausing _ = false

abbrev pub has_paused : Option UpdateStatus → Bool
has_paused none = false
has_paused (some status) = is_pausing status.state

-- A round in which no request fails, the update is not paused, the verdict is that the service
-- converged, and no monitor above `limit` is configured.
abbrev pub IsCalm : ℕ → Round → Type 0
IsCalm limit round =
    (round.inspected ≡ true)
    × (has_paused round.update_status ≡ false)
    × ((rollback : Bool) → round.verdict rollback ≡ some true)
    × (round.configured ≤ limit)

-- The state of a service that is converged since `t`.
abbrev IsConverged : ℕ → ℕ → State → Type 0
IsConverged limit t s = (s.converged ≡ true) × (s.converged_at ≡ some t) × (s.monitor ≤ limit)

-- The loop ends without an error, or goes on with `P`.
abbrev Ends : (State → Type 0) → Outcome → Type 0
Ends P (go_on t notes) = P t
Ends P (stop e notes) = e ≡ done

select-Ends :
    (P : State → Type 0) (interrupted : Bool) (s : State) (notes more : List Note)
    → P s
    → Ends P (if interrupted then stop done more else go_on s notes)
select-Ends P true s notes more h = refl
select-Ends P false s notes more h = h

job-Ends :
    (P : State → Type 0) (is_job : Bool) (out : Outcome) (notes : List Note)
    → Ends P out
    → Ends P (if is_job then stop done notes else out)
job-Ends P true out notes h = refl
job-Ends P false out notes h = h

after_update-Ends :
    (limit : ℕ) (round : Round) (s : State)
    → s.monitor ≤ limit
    → Ends (IsConverged limit (or_now s.converged_at round.after)) (after_update round s true)
after_update-Ends limit round s h =
    let since = or_now s.converged_at round.after in
    let P = IsConverged limit since in
    let t = record s { converged = true; converged_at = some since } in
    let notes = waiting_for (since + s.monitor) round.later in
    job-Ends P round.is_job (select round t notes) (job_complete ∷ [])
      (select-Ends P round.interrupted t notes (notes ++ []) (refl, refl, h))

verify-Ends :
    (limit : ℕ) (round : Round) (s : State)
    → IsCalm limit round
    → s.monitor ≤ limit
    → Ends (IsConverged limit (or_now s.converged_at round.after)) (verify round s)
verify-Ends limit round s (i, p, v, c) h =
    let P = IsConverged limit (or_now s.converged_at round.after) in
    rw (v s.rollback) (
      job-Ends P (is_verified s round.before) (after_update round s true)
        (service_converged ∷ last_message s.message) (after_update-Ends limit round s h))

behind-Ends :
    (P : State → Type 0) (notes : List Note) (out : Outcome)
    → Ends P out
    → Ends P (behind notes out)
behind-Ends P notes (go_on t more) h = h
behind-Ends P notes (stop e more) h = h

-- What the rest of a round reads.
abbrev Same : State → State → Type 0
Same s t = (t.converged ≡ s.converged) × (t.converged_at ≡ s.converged_at) × (t.monitor ≡ s.monitor)

completed-Ends :
    (P : State → Type 0) (b : Bool) (s : State)
    → P s
    → Ends P (if b then go_on s [] else stop done [])
completed-Ends P true s h = h
completed-Ends P false s h = refl

status-Ends :
    (k : UpdateState) (m : Text) (s : State)
    → is_pausing k ≡ false
    → Ends (Same s) (read_status (some (record { state = k; message = m })) s)
status-Ends updating m s h = (refl, refl, refl)
status-Ends completed m s h = completed-Ends (Same s) s.converged s (refl, refl, refl)
status-Ends paused m s h = ground arith
status-Ends rollback_started m s h = (refl, refl, refl)
status-Ends rollback_paused m s h = ground arith
status-Ends rollback_completed m s h = (refl, refl, refl)
status-Ends other m s h = (refl, refl, refl)

read_status-Ends :
    (o : Option UpdateStatus) (s : State) → has_paused o ≡ false → Ends (Same s) (read_status o s)
read_status-Ends none s h = (refl, refl, refl)
read_status-Ends (some status) s h = status-Ends status.state status.message s h

then_verify-Ends :
    (P Q : State → Type 0) (round : Round) (out : Outcome)
    → ((t : State) → Q t → Ends P (verify round t))
    → Ends Q out
    → Ends P (then_verify round out)
then_verify-Ends P Q round (go_on t notes) k h = behind-Ends P notes (verify round t) (k t h)
then_verify-Ends P Q round (stop e notes) k h = h

-- The monitor's duration in a round.
abbrev monitored : ℕ → State → State
monitored configured s = record s { monitor = if configured == 0 then s.monitor else configured }

if_lem :
    (b : Bool) (configured : ℕ) (s : State)
    → (if b then s else record s { monitor = configured })
      ≡ record s { monitor = if b then s.monitor else configured }
if_lem true configured s = refl
if_lem false configured s = refl

read_monitor_lem : (configured : ℕ) (s : State) → read_monitor configured s ≡ monitored configured s
read_monitor_lem configured s = if_lem (configured == 0) configured s

round_step-Ends :
    (P : State → Type 0) (limit : ℕ) (round : Round) (s : State)
    → IsCalm limit round
    → ((t : State) → Same (monitored round.configured s) t → Ends P (verify round t))
    → Ends P (round_step round s)
unfolding round_step
round_step-Ends P limit round s (i, p, v, c) k =
    let t = monitored round.configured s in
    rw (i, read_monitor_lem round.configured s)
      (then_verify-Ends P (Same t) round (read_status round.update_status t) k
        (read_status-Ends round.update_status t p))

monitored-le :
    (limit configured : ℕ) (s t : State)
    → configured ≤ limit
    → s.monitor ≤ limit
    → t.monitor ≡ (monitored configured s).monitor
    → t.monitor ≤ limit
monitored-le limit configured s t c h m = ground arith

monitored-since :
    (since limit : ℕ) (round : Round) (t : State)
    → t.monitor ≤ limit
    → since + limit ≤ round.before
    → since + t.monitor ≤ round.before
monitored-since since limit round t h l = omega arith

-- A calm round leaves the service converged, since the time there was or else since the round.
calm_round-Ends :
    (limit : ℕ) (round : Round) (s : State)
    → IsCalm limit round
    → s.monitor ≤ limit
    → Ends (IsConverged limit (or_now s.converged_at round.after)) (round_step round s)
calm_round-Ends limit round s c h =
    round_step-Ends (IsConverged limit (or_now s.converged_at round.after)) limit round s c
      (λ t (a, b, m).
        subst (λ o. Ends (IsConverged limit (or_now o round.after)) (verify round t)) b
          (verify-Ends limit round t c (monitored-le limit round.configured s t (c.3) h m)))

late_verify-Ends :
    (since : ℕ) (round : Round) (s : State)
    → s.converged ≡ true
    → s.converged_at ≡ some since
    → since + s.monitor ≤ round.before
    → Ends (λ t. ⊥) (verify round s)
late_verify-Ends since round s v e l =
    let h : is_verified s round.before ≡ true = rw (e, v) (ground arith) in rw h refl

-- A calm round that is late enough is the last.
late_round-Ends :
    (limit since : ℕ) (round : Round) (s : State)
    → IsCalm limit round
    → IsConverged limit since s
    → since + limit ≤ round.before
    → Ends (λ t. ⊥) (round_step round s)
late_round-Ends limit since round s c (v, e, h) l =
    round_step-Ends (λ t. ⊥) limit round s c
      (λ t (a, b, m).
        late_verify-Ends since round t (a ∙ v) (b ∙ e) (
          monitored-since since limit round t (monitored-le limit round.configured s t (c.3) h m)
            l))

go_with_lem :
    (P : State → Type 0) (out : Outcome) (k : State → Option End × List Note)
    → Ends P out
    → ((t : State) → P t → (k t).0 ≡ some done)
    → (go_with out k).0 ≡ some done
go_with_lem P (go_on t notes) k h f = f t h
go_with_lem P (stop e notes) k h f = ap some h

service_progress_lem :
    (limit since : ℕ) (rounds : List Round) (last : Round) (more : List Round) (s : State)
    → IsConverged limit since s
    → All (IsCalm limit) rounds
    → IsCalm limit last
    → since + limit ≤ last.before
    → (service_progress (rounds ++ last ∷ more) s).0 ≡ some done
unfolding service_progress
service_progress_lem limit since [] last more s h cs c l =
    go_with_lem (λ t. ⊥) (round_step last s) (λ t. service_progress more t)
      (late_round-Ends limit since last s c h l) (λ t z. absurd z)
service_progress_lem limit since (round ∷ rounds) last more s (v, e, h) (c, cs) d l =
    go_with_lem (IsConverged limit since) (round_step round s)
      (λ t. service_progress (rounds ++ last ∷ more) t)
      (subst (λ o. Ends (IsConverged limit (or_now o round.after)) (round_step round s)) e
        (calm_round-Ends limit round s c h))
      (λ t k. service_progress_lem limit since rounds last more t k cs d l)

-- From a state in which the service is not converged, any calm round, calm rounds after it, and a calm
-- round that begins no less than the limit on the monitor's duration after the first had its verdict
-- end the loop without an error, whatever rounds would follow.
pub service_progress-Ends :
    (limit : ℕ) (first : Round) (rounds : List Round) (last : Round) (more : List Round) (s : State)
    → s.converged_at ≡ none
    → s.monitor ≤ limit
    → All (IsCalm limit) (first ∷ rounds)
    → IsCalm limit last
    → first.after + limit ≤ last.before
    → (service_progress (first ∷ (rounds ++ last ∷ more)) s).0 ≡ some done
unfolding service_progress
service_progress-Ends limit first rounds last more s e h (c, cs) d l =
    go_with_lem (IsConverged limit first.after) (round_step first s)
      (λ t. service_progress (rounds ++ last ∷ more) t)
      (subst (λ o. Ends (IsConverged limit (or_now o first.after)) (round_step first s)) e
        (calm_round-Ends limit first s c h))
      (λ t k. service_progress_lem limit first.after rounds last more t k cs d l)
