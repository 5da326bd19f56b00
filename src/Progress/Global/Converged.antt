-- ===== src/Progress/Global/Converged.antt =====
-- When `globalProgressUpdater` of cli/command/service/progress/progress.go finds a service converged.
use docker_cli.Prelude.{
  ℕ, ◌+◌, ◌==◌, ◌≡◌, ◌≤◌, refl, ◌∙◌, ap, Bool, true, false, not, ◌&&◌, ◌||◌, List, [], ◌∷◌, length,
  if◌then◌else◌, any, all, arith, Bool-cases, inl, inr,
}
use docker_cli.Text.{Text}
use docker_cli.Maps.{elem, values}
use docker_cli.Progress.Tasks.{Task, Line, overall, is_running, waiting_for_tasks}
use docker_cli.Progress.Replicated.{counts_as_running}
use docker_cli.Progress.Global.{Updater, tasks_by_node, count_on_nodes, update_nodes, update_global}

-- A task that runs on an active node.
abbrev pub runs_on : List Text → Task → Bool
runs_on active_nodes t = elem t.node_id active_nodes && counts_as_running t

count_on_nodes-le :
    (done : Bool) (k : ℕ) (nodes : List Text) (ts : List Task) (n : ℕ)
    → (count_on_nodes done k nodes ts n).0 ≤ length ts + n
unfolding count_on_nodes
count_on_nodes-le done k nodes [] n = omega arith
count_on_nodes-le done k nodes (t ∷ ts) n = elim (Bool-cases (runs_on nodes t)) [
  | inl y ↦ rw y (omega (arith, count_on_nodes-le done k nodes ts (n + 1)))
  | inr x ↦ rw x (omega (arith, count_on_nodes-le done k nodes ts n))
]

count_on_nodes-all :
    (done : Bool) (k : ℕ) (nodes : List Text) (ts : List Task) (n : ℕ)
    → ((count_on_nodes done k nodes ts n).0 == length ts + n) ≡ all (runs_on nodes) ts
unfolding count_on_nodes
count_on_nodes-all done k nodes [] n = ground arith
count_on_nodes-all done k nodes (t ∷ ts) n = elim (Bool-cases (runs_on nodes t)) [
  | inl y ↦ rw y (ground (arith, count_on_nodes-all done k nodes ts (n + 1)))
  | inr x ↦ rw x (ground (arith, count_on_nodes-le done k nodes ts n))
]

plus_zero : (n : ℕ) → n ≡ n + 0
plus_zero n = omega arith

update_nodes-all :
    (chosen : List Task) (nodes : List Text) (rollback done : Bool) (first : List Line)
    → (update_nodes chosen (length chosen) nodes rollback done first).1 ≡ all (runs_on nodes) chosen
update_nodes-all chosen nodes rollback done first =
    let d = done && not (any (λ t. not (is_running t.state)) chosen) in
    ap (λ k. (count_on_nodes d (length chosen) nodes chosen 0).0 == k) (plus_zero (length chosen))
    ∙ count_on_nodes-all d (length chosen) nodes chosen 0

-- What is true of a call with `c` as its answer where it answers, and none where it waits.
abbrev pub Answers : Bool → Bool → Updater → Updater × Bool × List Line → Type 0
Answers true c u (v, converged, lines) = (converged ≡ c) × (v.initialized ≡ true)
Answers false c u (v, converged, lines) = (converged ≡ false) × (v ≡ u)

branches_lem :
    (i z c : Bool) (u : Updater) (a b : Updater × Bool × List Line) (notes : List Line)
    → Answers true c u a
    → Answers true c u b
    → Answers (i || not z) c u (if i then a else if z then (u, false, notes) else b)
branches_lem true z c u a b notes h k = h
branches_lem false true c u a b notes h k = (refl, refl)
branches_lem false false c u a b notes h k = k

-- Once the first tasks are there, `update` finds the service converged exactly if the task that is
-- chosen for each node runs on an active node; and before that, it waits as it was.
pub update_global-all :
    (tasks : List Task) (nodes : List Text) (rollback : Bool) (u : Updater)
    → (let chosen = values (tasks_by_node tasks []) in
        Answers
          (u.initialized || not (length chosen == 0))
          (all (runs_on nodes) chosen)
          u
          (update_global tasks nodes rollback u))
unfolding update_global
update_global-all tasks nodes rollback u =
    let chosen = values (tasks_by_node tasks []) in
    let n = length chosen in
    let first = overall 0 n rollback ∷ [] in
    branches_lem u.initialized (n == 0) (all (runs_on nodes) chosen) u
      (update_nodes chosen n nodes rollback u.done [])
      (update_nodes chosen n nodes rollback u.done first) (waiting_for_tasks ∷ [])
      (update_nodes-all chosen nodes rollback u.done [], refl)
      (update_nodes-all chosen nodes rollback u.done first, refl)
