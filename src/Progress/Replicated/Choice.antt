-- ===== src/Progress/Replicated/Choice.antt =====
-- Which task `tasksBySlot` of cli/command/service/progress/progress.go chooses for each slot.
use docker_cli.Prelude.{
  ℕ, ◌+◌, ◌*◌, ◌≤◌, ltb, leb, ◌==◌, ◌≡◌, refl, sym, ◌∙◌, ap, ◌⊎◌, inl, inr, Bool, true, false, not,
  ◌&&◌, ◌||◌, Option, none, some, List, [], ◌∷◌, if◌then◌else◌, any, arith, Bool-cases,
}
use docker_cli.Text.{Text}
use docker_cli.Progress.Tasks.{
  Task, TaskState, new_task, allocated, pending, assigned, accepted, preparing, ready, starting,
  running, complete, shutdown, failed, rejected, unknown, numbered_states,
}
use docker_cli.Progress.Slots.{SlotMap, find_slot, put_slot, find_slot-put_slot}
use docker_cli.Progress.Replicated.{
  is_kept, has_unknown_state, on_inactive_node, place_task, tasks_by_slot, place_known,
}

numbered_states-le : (s : TaskState) → numbered_states s ≤ 13
numbered_states-le new_task = omega arith
numbered_states-le allocated = omega arith
numbered_states-le pending = omega arith
numbered_states-le assigned = omega arith
numbered_states-le accepted = omega arith
numbered_states-le preparing = omega arith
numbered_states-le ready = omega arith
numbered_states-le starting = omega arith
numbered_states-le running = omega arith
numbered_states-le complete = omega arith
numbered_states-le shutdown = omega arith
numbered_states-le failed = omega arith
numbered_states-le rejected = omega arith
numbered_states-le (unknown s) = omega arith

-- The desired state first, then the observed one.
abbrev pub rank : Task → ℕ
rank t = numbered_states t.desired_state * 14 + numbered_states t.state

lex_lem :
    (a b c d : ℕ)
    → b ≤ 13
    → d ≤ 13
    → (ltb a c || (a == c && leb b d)) ≡ leb (a * 14 + b) (c * 14 + d)
lex_lem a b c d h k = ground arith

is_kept-rank : (e t : Task) → is_kept e t ≡ leb (rank e) (rank t)
is_kept-rank e t =
    lex_lem (numbered_states e.desired_state) (numbered_states e.state)
      (numbered_states t.desired_state) (numbered_states t.state) (numbered_states-le e.state)
      (numbered_states-le t.state)

abbrev pub In : {A : Type 0} → A → List A → Type 0
In a [] = ⊥
In a (x ∷ xs) = (x ≡ a) ⊎ In a xs

abbrev or_better : Option Task → Task → Option Task
or_better none t = some t
or_better (some e) t = if leb (rank e) (rank t) then some e else some t

kept_case :
    (slot : ℕ) (e t : Task) (m : SlotMap Task)
    → find_slot slot m ≡ some e
    → (b : Bool) → (t.slot == slot) ≡ true
    → find_slot slot (if b then m else put_slot t.slot t m) ≡ (if b then some e else some t)
kept_case slot e t m h true s = h
kept_case slot e t m h false s = ground (arith, find_slot-put_slot t.slot slot t m)

other_case :
    (slot : ℕ) (e t : Task) (m : SlotMap Task)
    → (t.slot == slot) ≡ false
    → (b : Bool) → find_slot slot (if b then m else put_slot t.slot t m) ≡ find_slot slot m
other_case slot e t m s true = refl
other_case slot e t m s false = ground (arith, find_slot-put_slot t.slot slot t m)

known_lem :
    (slot : ℕ) (unknown_state inactive : Bool) (t : Task) (o : Option Task) (m : SlotMap Task)
    → find_slot t.slot m ≡ o
    → find_slot slot (if unknown_state then m else place_known inactive t o m) ≡ (
        if t.slot == slot && not unknown_state && not inactive
        then or_better (find_slot slot m) t
        else find_slot slot m)
known_lem slot true inactive t o m h = ground arith
known_lem slot false true t none m h = ground arith
known_lem slot false true t (some e) m h = ground arith
known_lem slot false false t none m h = ground (arith, find_slot-put_slot t.slot slot t m)
known_lem slot false false t (some e) m h = elim (Bool-cases (t.slot == slot)) [
  | inl s ↦
      let s' : t.slot ≡ slot = ground arith in
      let h' : find_slot slot m ≡ some e = ap (λ k. find_slot k m) (sym s') ∙ h in
      rw (s, h', is_kept-rank e t) (kept_case slot e t m h' (leb (rank e) (rank t)) s)
  | inr s ↦ rw s (other_case slot e t m s (is_kept e t))
]

second_lem :
    (ce ct x : Bool) (re rt rr : ℕ)
    → ce ≡ true
    → leb re rt ≡ true ⊎ (ct ≡ false)
    → ((ce && ltb re rr) || x) ≡ false
    → ((ce && ltb re rr) || ((ct && ltb rt rr) || x)) ≡ false
second_lem ce false x re rt rr c k h = h
second_lem ce true x re rt rr c (inl k) h = ground arith
second_lem ce true x re rt rr c (inr k) h = ground arith

first_lem :
    (ce ct x : Bool) (re rt rr : ℕ)
    → ct ≡ true
    → leb re rt ≡ false
    → ((ct && ltb rt rr) || x) ≡ false
    → ((ce && ltb re rr) || ((ct && ltb rt rr) || x)) ≡ false
first_lem false ct x re rt rr c k h = h
first_lem true ct x re rt rr c k h = ground arith

module _ (active_nodes : List Text) (slot : ℕ) where
  -- A task for the slot in known states, on no node or on an active one.
  abbrev pub candidate : Task → Bool
  candidate t = t.slot == slot && not (has_unknown_state t) && not (on_inactive_node active_nodes t)

  abbrev better : Option Task → Task → Option Task
  better o t = if candidate t then or_better o t else o

  abbrev best : Option Task → List Task → Option Task
  best o [] = o
  best o (t ∷ ts) = best (better o t) ts

  place_task-better :
      (t : Task) (m : SlotMap Task)
      → find_slot slot (place_task active_nodes t m) ≡ better (find_slot slot m) t
  unfolding place_task
  place_task-better t m =
      known_lem slot (has_unknown_state t) (on_inactive_node active_nodes t) t (find_slot t.slot m)
        m refl

  find_slot-tasks_by_slot :
      (ts : List Task) (m : SlotMap Task)
      → find_slot slot (tasks_by_slot active_nodes ts m) ≡ best (find_slot slot m) ts
  unfolding tasks_by_slot
  find_slot-tasks_by_slot [] m = refl
  find_slot-tasks_by_slot (t ∷ ts) m =
      find_slot-tasks_by_slot ts (place_task active_nodes t m)
      ∙ ap (λ o. best o ts) (place_task-better t m)

  -- A task that could be chosen before `t`.
  abbrev pub beats : Task → Task → Bool
  beats t u = candidate u && ltb (rank u) (rank t)

  -- The task of a slot among some: a candidate that no other comes before, and none only where there
  -- is no candidate.
  abbrev pub IsChosen : Option Task → List Task → Type 0
  IsChosen none ts = any candidate ts ≡ false
  IsChosen (some t) ts = (candidate t ≡ true) × In t ts × (any (beats t) ts ≡ false)

  -- A task that does not beat the choice can stand second in the list.
  IsChosen-second :
      (o : Option Task) (e t : Task) (ts : List Task)
      → candidate e ≡ true
      → leb (rank e) (rank t) ≡ true ⊎ (candidate t ≡ false)
      → IsChosen o (e ∷ ts)
      → IsChosen o (e ∷ (t ∷ ts))
  IsChosen-second none e t ts c h k = ground arith
  IsChosen-second (some r) e t ts c h (cr, i, b) = (
    cr,
    elim i [ inl q ↦ inl q | inr j ↦ inr (inr j) ],
    second_lem (candidate e) (candidate t) (any (beats r) ts) (rank e) (rank t) (rank r) c h b,
  )

  -- Nor does one that the head comes before matter in front of it.
  IsChosen-first :
      (o : Option Task) (e t : Task) (ts : List Task)
      → candidate t ≡ true
      → leb (rank e) (rank t) ≡ false
      → IsChosen o (t ∷ ts)
      → IsChosen o (e ∷ (t ∷ ts))
  IsChosen-first none e t ts c h k = ground arith
  IsChosen-first (some r) e t ts c h (cr, i, b) = (
    cr,
    inr i,
    first_lem (candidate e) (candidate t) (any (beats r) ts) (rank e) (rank t) (rank r) c h b,
  )

  best-some :
      (e : Task) (ts : List Task) → candidate e ≡ true → IsChosen (best (some e) ts) (e ∷ ts)
  best-some e [] c = (c, inl refl, ground arith)
  best-some e (t ∷ ts) c = elim (Bool-cases (candidate t)) [
    | inr n ↦ rw n (IsChosen-second (best (some e) ts) e t ts c (inr n) (best-some e ts c))
    | inl y ↦ elim (Bool-cases (leb (rank e) (rank t))) [
      | inl l ↦ rw (y, l) (IsChosen-second (best (some e) ts) e t ts c (inl l) (best-some e ts c))
      | inr g ↦ rw (y, g) (IsChosen-first (best (some t) ts) e t ts y g (best-some t ts y))
    ]
  ]

  IsChosen-skip :
      (o : Option Task) (t : Task) (ts : List Task)
      → candidate t ≡ false
      → IsChosen o ts
      → IsChosen o (t ∷ ts)
  IsChosen-skip none t ts n k = ground arith
  IsChosen-skip (some r) t ts n (c, i, b) = (c, inr i, ground arith)

  best-none : (ts : List Task) → IsChosen (best none ts) ts
  best-none [] = refl
  best-none (t ∷ ts) = elim (Bool-cases (candidate t)) [
    | inl y ↦ rw y (best-some t ts y)
    | inr n ↦ rw n (IsChosen-skip (best none ts) t ts n (best-none ts))
  ]

-- What `tasks_by_slot` has for a slot is a task of the list for that slot, in known states and on no
-- node or an active one, and no other such task of the list comes before it: its desired state is
-- the earliest, and its state the earliest among those. Where it has none, the list has no such task.
pub tasks_by_slot-IsChosen :
    (active_nodes : List Text) (slot : ℕ) (ts : List Task)
    → IsChosen active_nodes slot (find_slot slot (tasks_by_slot active_nodes ts [])) ts
unfolding find_slot
tasks_by_slot-IsChosen active_nodes slot ts =
    rw (find_slot-tasks_by_slot active_nodes slot ts []) (best-none active_nodes slot ts)
