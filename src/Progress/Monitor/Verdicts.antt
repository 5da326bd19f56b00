-- ===== src/Progress/Monitor/Verdicts.antt =====
-- When `ServiceProgress` of cli/command/service/progress/progress.go calls a service converged.
use docker_cli.Prelude.{
  ℕ, ◌+◌, ◌==◌, ◌≡◌, refl, sym, ◌∙◌, ap, inl, inr, Bool, true, false, Option, none, some, List, [],
  ◌∷◌, if◌then◌else◌, arith, Bool-cases, is_some, subst,
}
use docker_cli.Text.{Text}
use docker_cli.Progress.Monitor.{
  Round, State, initial, Note, Outcome, go_on, stop, read_monitor, read_status, is_verified,
  after_update, select, verify, then_verify, behind, round_step, or_now, UpdateStatus, failure_of,
  waiting_for, failed, UpdateState, updating, completed, paused, rollback_started, rollback_paused,
  rollback_completed, other,
}

-- What the rounds so far found, the latest first: a verdict, and when it was had.
abbrev pub History : Type 0
History = List (Bool × ℕ)

-- The rounds of the loop from its start on, with what they found.
pub data Runs : History → State → Type 0 where
  start : Runs [] initial
  next :
      {h : History} {s t : State}
      → (round : Round) (notes : List Note) (b : Bool) → Runs h s
      → round_step round s ≡ go_on t notes
      → round.verdict t.rollback ≡ some b
      → Runs ((b, round.after) ∷ h) t

-- The state after a round with verdict `b`, where `o` was `convergedAt`.
abbrev Follows : Bool → ℕ → Option ℕ → State → Type 0
Follows b now o t = (t.converged ≡ b) × (t.converged_at ≡ (if b then some (or_now o now) else none))

abbrev GoesOn : Round → Option ℕ → Outcome → Type 0
GoesOn round o (go_on t notes) =
    (b : Bool) → round.verdict t.rollback ≡ some b → Follows b round.after o t
GoesOn round o (stop e notes) = Unit

some_lem : {b c : Bool} → (o : Option Bool) → o ≡ some b → o ≡ some c → b ≡ c
some_lem none e f = ground arith
some_lem (some a) e f = ground arith

select-GoesOn :
    (round : Round) (o : Option ℕ) (t : State) (b : Bool) (notes : List Note)
    → round.verdict t.rollback ≡ some b
    → Follows b round.after o t
    → GoesOn round o (select round t notes)
select-GoesOn round o t b notes e f = elim (Bool-cases round.interrupted) [
  | inl y ↦ rw y tt
  | inr n ↦ rw n (λ c k. rw (sym (some_lem (round.verdict t.rollback) e k)) f)
]

after_update-GoesOn :
    (round : Round) (s : State) (b : Bool)
    → round.verdict s.rollback ≡ some b
    → GoesOn round s.converged_at (after_update round s b)
after_update-GoesOn round s false e =
    select-GoesOn round s.converged_at (record s { converged = false; converged_at = none }) false
      (failure_of s.converged_at) e (refl, refl)
after_update-GoesOn round s true e = elim (Bool-cases round.is_job) [
  | inl y ↦ rw y tt
  | inr n ↦
      let since = or_now s.converged_at round.after in
      rw n (
        select-GoesOn round s.converged_at
          (record s { converged = true; converged_at = some since }) true
          (waiting_for (since + s.monitor) round.later) e (refl, refl))
]

verdict-GoesOn :
    (round : Round) (s : State) (o : Option Bool)
    → round.verdict s.rollback ≡ o
    → GoesOn round s.converged_at
        (elim o [ none ↦ stop failed [] | some b ↦ after_update round s b ])
verdict-GoesOn round s none e = tt
verdict-GoesOn round s (some b) e = after_update-GoesOn round s b e

verify-GoesOn : (round : Round) (s : State) → GoesOn round s.converged_at (verify round s)
verify-GoesOn round s = elim (Bool-cases (is_verified s round.before)) [
  | inl y ↦ rw y tt
  | inr n ↦ rw n (verdict-GoesOn round s (round.verdict s.rollback) refl)
]

behind-GoesOn :
    (round : Round) (o : Option ℕ) (notes : List Note) (out : Outcome)
    → GoesOn round o out
    → GoesOn round o (behind notes out)
behind-GoesOn round o notes (go_on t more) h = h
behind-GoesOn round o notes (stop e more) h = h

abbrev KeepsTime : Option ℕ → Outcome → Type 0
KeepsTime o (go_on t notes) = t.converged_at ≡ o
KeepsTime o (stop e notes) = Unit

status-KeepsTime :
    (k : UpdateState) (m : Text) (s : State)
    → KeepsTime s.converged_at (read_status (some (record { state = k; message = m })) s)
status-KeepsTime updating m s = refl
status-KeepsTime completed m s = elim (Bool-cases s.converged) [
  | inl y ↦ rw y refl
  | inr n ↦ rw n tt
]
status-KeepsTime paused m s = tt
status-KeepsTime rollback_started m s = refl
status-KeepsTime rollback_paused m s = tt
status-KeepsTime rollback_completed m s = refl
status-KeepsTime other m s = refl

read_status-KeepsTime :
    (o : Option UpdateStatus) (s : State) → KeepsTime s.converged_at (read_status o s)
read_status-KeepsTime none s = refl
read_status-KeepsTime (some status) s = status-KeepsTime status.state status.message s

read_monitor-converged_at : (n : ℕ) (s : State) → (read_monitor n s).converged_at ≡ s.converged_at
read_monitor-converged_at n s = elim (Bool-cases (n == 0)) [ inl y ↦ rw y refl | inr x ↦ rw x refl ]

then_verify-GoesOn :
    (round : Round) (o : Option ℕ) (out : Outcome)
    → KeepsTime o out
    → GoesOn round o (then_verify round out)
then_verify-GoesOn round o (go_on t notes) h =
    rw (sym h) (behind-GoesOn round t.converged_at notes (verify round t) (verify-GoesOn round t))
then_verify-GoesOn round o (stop e notes) h = tt

if_GoesOn :
    {o p : Option ℕ}
    → (round : Round) (b : Bool) (out : Outcome) → p ≡ o
    → GoesOn round p out
    → GoesOn round o (if b then out else stop failed [])
if_GoesOn round true out e h = rw (sym e) h
if_GoesOn round false out e h = tt

round_step-GoesOn : (round : Round) (s : State) → GoesOn round s.converged_at (round_step round s)
unfolding round_step
round_step-GoesOn round s =
    let t = read_monitor round.configured s in
    let out = read_status round.update_status t in
    if_GoesOn round round.inspected (then_verify round out)
      (read_monitor-converged_at round.configured s)
      (then_verify-GoesOn round t.converged_at out (read_status-KeepsTime round.update_status t))

round_step-Follows :
    (round : Round) (s t : State) (notes : List Note) (b : Bool)
    → round_step round s ≡ go_on t notes
    → round.verdict t.rollback ≡ some b
    → Follows b round.after s.converged_at t
round_step-Follows round s t notes b e f =
    subst (GoesOn round s.converged_at) e (round_step-GoesOn round s) b f

-- The verdicts from the one at `t` on say that the service converged, and the one before it did not.
abbrev pub IsStableSince : ℕ → History → Type 0
IsStableSince t [] = ⊥
IsStableSince t ((true, now) ∷ []) = now ≡ t
IsStableSince t ((true, now) ∷ ((false, _) ∷ h)) = now ≡ t
IsStableSince t ((true, now) ∷ ((true, now') ∷ h)) = IsStableSince t ((true, now') ∷ h)
IsStableSince t ((false, _) ∷ h) = ⊥

if_some : (n : ℕ) (b : Bool) → is_some (if b then some n else none) ≡ b
if_some n true = refl
if_some n false = refl

-- When the verdicts began to say so.
abbrev stable_since : History → Option ℕ
stable_since [] = none
stable_since ((b, now) ∷ h) = if b then some (or_now (stable_since h) now) else none

stable_since-IsStableSince : (h : History) (t : ℕ) → stable_since h ≡ some t → IsStableSince t h
stable_since-IsStableSince [] t e = ground arith
stable_since-IsStableSince ((false, now) ∷ h) t e = ground arith
stable_since-IsStableSince ((true, now) ∷ []) t e = ground arith
stable_since-IsStableSince ((true, now) ∷ ((false, x) ∷ h)) t e = ground arith
stable_since-IsStableSince ((true, now) ∷ ((true, now') ∷ h)) t e =
    stable_since-IsStableSince ((true, now') ∷ h) t e

-- What the latest verdict says.
abbrev pub last_verdict : History → Bool
last_verdict [] = false
last_verdict ((b, now) ∷ h) = b

Runs-stable_since : {h : History} {s : State} → Runs h s → s.converged_at ≡ stable_since h
Runs-stable_since start = refl
Runs-stable_since (next {h} {s} {t} round notes b r e f) =
    let (c, k) = round_step-Follows round s t notes b e f in
    k ∙ ap (λ o. if b then some (or_now o round.after) else none) (Runs-stable_since r)

-- In every state that the loop reaches, the service is converged exactly if the latest verdict says
-- so, and then `convergedAt` is there and is the time of the first of the verdicts that have said so
-- without a break since.
pub Runs-IsStableSince :
    {h : History} {s : State}
    → Runs h s
    → (s.converged ≡ last_verdict h)
      × (is_some s.converged_at ≡ s.converged)
      × ((t : ℕ) → s.converged_at ≡ some t → IsStableSince t h)
Runs-IsStableSince start = (refl, refl, λ t e. ground arith)
Runs-IsStableSince (next {h} {s} {t} round notes b r e f) =
    let (c, k) = round_step-Follows round s t notes b e f in
    let q = Runs-stable_since (next round notes b r e f) in
    (
      c,
      rw (c, k) (if_some (or_now s.converged_at round.after) b),
      λ u g. stable_since-IsStableSince ((b, round.after) ∷ h) u (sym q ∙ g),
    )
