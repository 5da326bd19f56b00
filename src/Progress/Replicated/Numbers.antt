-- ===== src/Progress/Replicated/Numbers.antt =====
-- The numbers that `replicatedProgressUpdater` of cli/command/service/progress/progress.go gives
-- to the slots of a service.
use docker_cli.Prelude.{
  ℕ, suc, ◌+◌, ◌==◌, ◌≡◌, refl, sym, ap, ◌⊎◌, inl, inr, Bool, true, false, ◌≤◌, Option, none, some,
  List, [], ◌∷◌, if◌then◌else◌, arith, Bool-cases, length, Result, ok, err, ◌&&◌, not, any,
}
use docker_cli.Text.{Text}
use docker_cli.Progress.Tasks.{Task, Line, is_running}
use docker_cli.Progress.Slots.{
  SlotMap, find_slot, put_slot, find_slot-put_slot, number_at, slot_values,
}
use docker_cli.Progress.Replicated.{
  Updater, map_slot, count_running, counts_as_running, update_replicated, tasks_by_slot,
}

-- The slots are distinct, and numbered in order from `i` on.
abbrev pub IsNumbered : ℕ → SlotMap ℕ → Type 0
IsNumbered i [] = Unit
IsNumbered i ((slot, n) ∷ m) = (n ≡ i) × (find_slot slot m ≡ none) × IsNumbered (suc i) m

-- Each slot that has a number in `m` has the same in `m'`.
abbrev pub Kept : SlotMap ℕ → SlotMap ℕ → Type 0
Kept m m' = (slot n : ℕ) → find_slot slot m ≡ some n → find_slot slot m' ≡ some n

number_at-le : (i slot n : ℕ) (m : SlotMap ℕ) → IsNumbered i m → find_slot slot m ≡ some n → i ≤ n
unfolding find_slot
number_at-le i slot n [] h e = ground arith
number_at-le i slot n ((k, v) ∷ m) (q, d, h) e = elim (Bool-cases (k == slot)) [
  | inl y ↦ ground arith
  | inr x ↦ let l : suc i ≤ n = number_at-le (suc i) slot n m h (ground arith) in omega arith
]

put_slot-IsNumbered :
    (i slot n : ℕ) (m : SlotMap ℕ)
    → find_slot slot m ≡ none
    → n ≡ length m + i
    → IsNumbered i m
    → IsNumbered i (put_slot slot n m)
unfolding find_slot put_slot
put_slot-IsNumbered i slot n [] e q h = (ground arith, refl, tt)
put_slot-IsNumbered i slot n ((k, v) ∷ m) e q (w, d, h) = elim (Bool-cases (k == slot)) [
  | inl y ↦ ground arith
  | inr x ↦ rw x (
    w,
    ground (arith, find_slot-put_slot slot k n m),
    put_slot-IsNumbered (suc i) slot n m (ground arith) (ground arith) h,
  )
]

put_slot-Kept : (slot n : ℕ) (m : SlotMap ℕ) → find_slot slot m ≡ none → Kept m (put_slot slot n m)
put_slot-Kept slot n m e j k h = ground (arith, find_slot-put_slot slot j n m)

-- The state of the slots, from `m` on.
abbrev Grown : SlotMap ℕ → SlotMap ℕ → Type 0
Grown m m' = IsNumbered 1 m' × Kept m m'

zero_none :
    (o : Option ℕ)
    → (elim o [ none ↦ 0 | some n ↦ n ] == 0) ≡ true
    → ((v : ℕ) → o ≡ some v → 1 ≤ v)
    → o ≡ none
zero_none none e k = refl
zero_none (some v) e k = ground (arith, k v refl)

map_slot-Grown : (slot : ℕ) (m : SlotMap ℕ) → IsNumbered 1 m → Grown m ((map_slot slot m).1)
map_slot-Grown slot m h = elim (Bool-cases (number_at slot m == 0)) [
  | inr x ↦ rw x (h, λ j n e. e)
  | inl y ↦
      let e : find_slot slot m ≡ none =
        zero_none (find_slot slot m) y (λ v e. number_at-le 1 slot v m h e) in
      rw y (
        put_slot-IsNumbered 1 slot (length m + 1) m e refl h,
        put_slot-Kept slot (length m + 1) m e,
      )
]

count_running-Grown :
    (done : Bool) (replicas : ℕ) (tasks : List Task) (m : SlotMap ℕ) (n : ℕ)
    → IsNumbered 1 m
    → Grown m ((count_running done replicas tasks m n).0)
unfolding count_running
count_running-Grown done replicas [] m n h = (h, λ j v e. e)
count_running-Grown done replicas (t ∷ ts) m n h =
    let (h1, k1) = map_slot-Grown t.slot m h in
    let (h2, k2) =
      count_running-Grown done replicas ts ((map_slot t.slot m).1)
        (if counts_as_running t then n + 1 else n) h1 in
    (h2, λ j v e. k2 j v (k1 j v e))

-- The updater before its first call.
abbrev pub new_updater : Updater
new_updater = record { slot_map = []; initialized = false; done = false }

-- Any number of calls of `update`, with what the engine says at each.
pub data Rounds (u : Updater) : Updater → Type 0 where
  here : Rounds u u
  next :
      {v w : Updater}
      → (replicas : Option ℕ) (tasks : List Task) (active_nodes : List Text)
        (rollback converged : Bool) (lines : List Line)
      → Rounds u v
      → update_replicated replicas tasks active_nodes rollback v ≡ ok (w, converged, lines)
      → Rounds u w

-- The slots are numbered, and there are none before the first call.
abbrev IsSound : Updater → Type 0
IsSound u = IsNumbered 1 u.slot_map × (u.initialized ≡ true ⊎ (u.slot_map ≡ []))

-- Starting the first call forgets no slot.
start-Grown :
    (b : Bool) (m : SlotMap ℕ)
    → IsNumbered 1 m
    → b ≡ true ⊎ (m ≡ [])
    → Grown m (if b then m else [])
start-Grown true m h k = (h, λ j v e. e)
start-Grown false m h (inl k) = ground arith
start-Grown false m h (inr k) = (tt, λ j v e. rw (sym k) e)

-- The updater of a result.
abbrev updater_or : Updater → Result Text (Updater × Bool × List Line) → Updater
updater_or u (ok r) = r.0
updater_or u (err e) = u

update_replicated-IsSound :
    (replicas : Option ℕ) (tasks : List Task) (active_nodes : List Text) (rollback : Bool)
    (u v : Updater) (converged : Bool) (lines : List Line)
    → IsSound u
    → update_replicated replicas tasks active_nodes rollback u ≡ ok (v, converged, lines)
    → IsSound v × Kept u.slot_map v.slot_map
unfolding update_replicated
update_replicated-IsSound none ts nodes rb u v c l h e = ground arith
update_replicated-IsSound (some replicas) ts nodes rb u v c l h e =
    let q = ap (updater_or u) e in
    let m = if u.initialized then u.slot_map else [] in
    let chosen = slot_values (tasks_by_slot nodes ts []) in
    let done = u.done && not (any (λ t. not (is_running t.state)) chosen) in
    let (s, i) = h in
    let (h1, k1) = start-Grown u.initialized u.slot_map s i in
    let (h2, k2) = count_running-Grown done replicas chosen m 0 h1 in
    rw (sym q) ((h2, inl refl), λ j n f. k2 j n (k1 j n f))

Rounds-IsSound : (u v : Updater) → IsSound u → Rounds u v → IsSound v × Kept u.slot_map v.slot_map
Rounds-IsSound u v h here = (h, λ j n e. e)
Rounds-IsSound u v h (next {v = w} replicas ts nodes rb c l r e) =
    let (h1, k1) = Rounds-IsSound u w h r in
    let (h2, k2) = update_replicated-IsSound replicas ts nodes rb w v c l h1 e in
    (h2, λ j n f. k2 j n (k1 j n f))

-- After any calls of `update`, the slots of the updater are distinct and numbered from 1 on in the
-- order in which they came, and after any more calls each has the number that it had.
pub Rounds-IsNumbered :
    (u v : Updater)
    → Rounds new_updater u
    → Rounds u v
    → IsNumbered 1 u.slot_map × Kept u.slot_map v.slot_map
Rounds-IsNumbered u v r r' =
    let (h, k) = Rounds-IsSound new_updater u (tt, inr refl) r in
    let (h', k') = Rounds-IsSound u v h r' in (h.0, k')
