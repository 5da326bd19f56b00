-- ===== src/Progress/Monitor/Verified.antt =====
-- What `ServiceProgress` of cli/command/service/progress/progress.go has seen when it says that a
-- service converged.
use docker_cli.Prelude.{
  ℕ, ◌+◌, ◌≤◌, leb, ◌==◌, ◌≡◌, refl, sym, ◌∙◌, subst, inl, inr, Bool, true, false, ◌&&◌, ◌||◌,
  Option, none, some, List, [], ◌∷◌, ◌++◌, if◌then◌else◌, arith, Bool-cases, any, is_some,
}
use docker_cli.Text.{Text}
use docker_cli.Progress.Monitor.{
  Round, State, Note, service_converged, End, done, Outcome, go_on, stop, read_monitor, read_status,
  is_verified, after_update, select, verify, then_verify, behind, round_step, or_now, UpdateStatus,
  failure_of, waiting_for, last_message, failed, UpdateState, updating, completed, paused,
  rollback_started, rollback_paused, rollback_completed, other, in_background,
}
use docker_cli.Progress.Monitor.Verdicts.{History, Runs, IsStableSince, Runs-IsStableSince}

abbrev pub is_verdict : Note → Bool
is_verdict service_converged = true
is_verdict _ = false

any-append :
    (xs ys : List Note) → any is_verdict (xs ++ ys) ≡ (any is_verdict xs || any is_verdict ys)
any-append [] ys = refl
any-append (x ∷ xs) ys = ground (arith, any-append xs ys)

-- Where an outcome says that the service converged, it stops so, and `v` holds.
abbrev Says : Bool → Outcome → Type 0
Says v (go_on t notes) = any is_verdict notes ≡ false
Says v (stop e notes) = any is_verdict notes ≡ true → (e ≡ done) × (v ≡ true)

select_if-Says :
    (v i c : Bool) (s : State) (notes : List Note)
    → any is_verdict notes ≡ false
    → Says v
        (if i then stop done (notes ++ (if c then [] else in_background ∷ [])) else go_on s notes)
select_if-Says v true true s notes h = λ k. ground (arith, any-append notes [])
select_if-Says v true false s notes h = λ k. ground (arith, any-append notes (in_background ∷ []))
select_if-Says v false c s notes h = h

select-Says :
    (v : Bool) (round : Round) (s : State) (notes : List Note)
    → any is_verdict notes ≡ false
    → Says v (select round s notes)
select-Says v round s notes h = select_if-Says v round.interrupted s.converged s notes h

failure_lem : (o : Option ℕ) → any is_verdict (failure_of o) ≡ false
failure_lem none = refl
failure_lem (some n) = refl

waiting_lem : (until now : ℕ) → any is_verdict (waiting_for until now) ≡ false
waiting_lem until now = ground arith

after_update-Says :
    (v : Bool) (round : Round) (s : State) (b : Bool) → Says v (after_update round s b)
after_update-Says v round s false =
    select-Says v round (record s { converged = false; converged_at = none })
      (failure_of s.converged_at) (failure_lem s.converged_at)
after_update-Says v round s true =
    let since = or_now s.converged_at round.after in
    let t = record s { converged = true; converged_at = some since } in
    elim (Bool-cases round.is_job) [
      | inl y ↦ rw y (λ k. ground arith)
      | inr n ↦ rw n (
          select-Says v round t (waiting_for (since + s.monitor) round.later)
            (waiting_lem (since + s.monitor) round.later))
    ]

verdict-Says :
    (v : Bool) (round : Round) (s : State) (o : Option Bool)
    → Says v (elim o [ none ↦ stop failed [] | some b ↦ after_update round s b ])
verdict-Says v round s none = λ k. ground arith
verdict-Says v round s (some b) = after_update-Says v round s b

verify_if-Says :
    (v : Bool) (round : Round) (s : State)
    → Says v (
        if v
        then stop done (service_converged ∷ last_message s.message)
        else elim (round.verdict s.rollback) [
          | none ↦ stop failed []
          | some b ↦ after_update round s b
        ])
verify_if-Says true round s = λ k. (refl, refl)
verify_if-Says false round s = verdict-Says false round s (round.verdict s.rollback)

verify-Says : (round : Round) (s : State) → Says (is_verified s round.before) (verify round s)
verify-Says round s = verify_if-Says (is_verified s round.before) round s

behind-Says :
    (v : Bool) (notes : List Note) (out : Outcome)
    → any is_verdict notes ≡ false
    → Says v out
    → Says v (behind notes out)
behind-Says v notes (go_on t more) h k = ground (arith, any-append notes more)
behind-Says v notes (stop e more) h k = λ m. k (ground (arith, any-append notes more))

-- The switch says nothing, and leaves what the test reads.
abbrev Keeps : ℕ → Bool → Outcome → Type 0
Keeps now v (go_on t notes) = (is_verified t now ≡ v) × (any is_verdict notes ≡ false)
Keeps now v (stop e notes) = any is_verdict notes ≡ false

status-Keeps :
    (now : ℕ) (k : UpdateState) (m : Text) (s : State)
    → Keeps now (is_verified s now) (read_status (some (record { state = k; message = m })) s)
status-Keeps now updating m s = (refl, refl)
status-Keeps now completed m s = elim (Bool-cases s.converged) [
  | inl y ↦ rw y (refl, refl)
  | inr n ↦ rw n refl
]
status-Keeps now paused m s = refl
status-Keeps now rollback_started m s = (refl, ground arith)
status-Keeps now rollback_paused m s = refl
status-Keeps now rollback_completed m s = (refl, refl)
status-Keeps now other m s = (refl, refl)

read_status-Keeps :
    (now : ℕ) (o : Option UpdateStatus) (s : State)
    → Keeps now (is_verified s now) (read_status o s)
read_status-Keeps now none s = (refl, refl)
read_status-Keeps now (some status) s = status-Keeps now status.state status.message s

then_verify-Says :
    (round : Round) (v : Bool) (out : Outcome)
    → Keeps round.before v out
    → Says v (then_verify round out)
then_verify-Says round v (go_on t notes) (e, h) =
    rw (sym e)
      (behind-Says (is_verified t round.before) notes (verify round t) h (verify-Says round t))
then_verify-Says round v (stop e notes) h = λ k. ground arith

if_Says : (v b : Bool) (out : Outcome) → Says v out → Says v (if b then out else stop failed [])
if_Says v true out h = h
if_Says v false out h = λ k. ground arith

round_step-Says :
    (round : Round) (s : State)
    → Says (is_verified (read_monitor round.configured s) round.before) (round_step round s)
unfolding round_step
round_step-Says round s =
    let t = read_monitor round.configured s in
    let v = is_verified t round.before in
    let out = read_status round.update_status t in
    if_Says v round.inspected (then_verify round out)
      (then_verify-Says round v out (read_status-Keeps round.before round.update_status t))

time_lem :
    (o : Option ℕ) (c : Bool) (m now : ℕ)
    → is_some o ≡ c
    → elim o [ none ↦ c | some since ↦ c && leb (since + m) now ] ≡ true
    → (t : ℕ) × (o ≡ some t) × (t + m ≤ now)
time_lem none c m now h v = ground arith
time_lem (some t) c m now h v = (t, refl, ground arith)

abbrev monitor_of : ℕ → State → ℕ
monitor_of configured s = if configured == 0 then s.monitor else configured

is_verified-read_monitor :
    (b : Bool) (configured now : ℕ) (s : State)
    → is_verified (if b then s else record s { monitor = configured }) now
      ≡ is_verified (record s { monitor = if b then s.monitor else configured }) now
is_verified-read_monitor true configured now s = refl
is_verified-read_monitor false configured now s = refl

-- If a round says that the service converged, the loop ends there without an error; and the verdicts
-- have said so without a break from some time on that is no less than the monitor's duration before
-- the round, where the duration is the one configured, or else the one before.
pub round_step-Verified :
    {h : History} {s : State}
    → (round : Round) (e : End) (notes : List Note) → Runs h s
    → round_step round s ≡ stop e notes
    → any is_verdict notes ≡ true
    → (e ≡ done)
      × (t : ℕ) × IsStableSince t h
      × (t + (if round.configured == 0 then s.monitor else round.configured) ≤ round.before)
round_step-Verified {h} {s} round e notes r q k =
    let v0 = is_verified (read_monitor round.configured s) round.before in
    let (d, v) = subst (Says v0) q (round_step-Says round s) k in
    let (c, i, stable) = Runs-IsStableSince r in
    let w = is_verified-read_monitor (round.configured == 0) round.configured round.before s in
    let (t, f, l) =
      time_lem s.converged_at s.converged (monitor_of round.configured s) round.before i
        (sym w ∙ v) in
    (d, t, stable t f, l)
