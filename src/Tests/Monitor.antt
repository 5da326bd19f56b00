-- ===== src/Tests/Monitor.antt =====
-- The main loop of cli/command/service/progress/progress.go on concrete rounds.
use docker_cli.Prelude.{
  ℕ, ◌+◌, ◌≡◌, ◌≤◌, refl, [], ◌∷◌, some, none, true, false, is_some, arith, if◌then◌else◌, ◌==◌,
}
use docker_cli.Progress.Monitor.{
  Round, State, initial, done, round_step, go_on, stop, service_converged, service_progress,
  waiting,
}
use docker_cli.Progress.Monitor.Verdicts.{
  Runs, start, next, last_verdict, IsStableSince, Runs-IsStableSince,
}
use docker_cli.Progress.Monitor.Verified.{round_step-Verified}
use docker_cli.Progress.Monitor.Quiet.{service_progress-Ends}

-- A round at a time, for a service that runs as it should and is monitored for 3.
abbrev round_at : ℕ → Round
round_at now = record {
  inspected = true;
  configured = 3;
  update_status = none;
  before = now;
  after = now;
  later = now;
  verdict = λ rollback. some true;
  is_job = false;
  interrupted = false;
}

abbrev after_first : State
after_first = record initial { converged = true; converged_at = some 1; monitor = 3 }

first_test : round_step (round_at 1) initial ≡ go_on after_first (waiting 3 ∷ [])
unfolding round_step
first_test = refl

first_runs : Runs ((true, 1) ∷ []) after_first
first_runs = next (round_at 1) (waiting 3 ∷ []) true start first_test refl

Runs-IsStableSince_example :
    (after_first.converged ≡ last_verdict ((true, 1) ∷ []))
    × (is_some after_first.converged_at ≡ after_first.converged)
    × ((t : ℕ) → after_first.converged_at ≡ some t → IsStableSince t ((true, 1) ∷ []))
Runs-IsStableSince_example = Runs-IsStableSince first_runs

last_test : round_step (round_at 4) after_first ≡ stop done (service_converged ∷ [])
unfolding round_step
last_test = refl

round_step-Verified_example :
    (done ≡ done)
    × (t : ℕ) × IsStableSince t ((true, 1) ∷ [])
    × (t + (if (round_at 4).configured == 0 then after_first.monitor else (round_at 4).configured)
        ≤ (round_at 4).before)
round_step-Verified_example =
    round_step-Verified (round_at 4) done (service_converged ∷ []) first_runs last_test refl

service_progress-Ends_example :
    (service_progress (round_at 1 ∷ (round_at 2 ∷ (round_at 5000000001 ∷ []))) initial).0
    ≡ some done
service_progress-Ends_example =
    service_progress-Ends 5000000000 (round_at 1) (round_at 2 ∷ []) (round_at 5000000001) [] initial
      refl (omega arith)
      ((refl, refl, λ b. refl, omega arith), ((refl, refl, λ b. refl, omega arith), tt))
      (refl, refl, λ b. refl, omega arith) (omega arith)
