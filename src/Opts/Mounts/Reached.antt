-- ===== src/Opts/Mounts/Reached.antt =====
-- The values of a `MountOpt` of opts/mount.go, however often `Set` is called.
use docker_cli.Prelude.{
  ◌≡◌, List, [], ◌∷◌, ◌++◌, append_assoc, append-nil, All, All-append, ok, err, sym, ◌∙◌, ap,
}
use docker_cli.Text.{Text}
use docker_cli.Opts.Mounts.Fields.{Libraries, Mount, MountError}
use docker_cli.Opts.Mounts.{MountOpt, set_mount}
use docker_cli.Opts.Mounts.Valid.{IsValid, set_mount-Appends}

-- One call of `Set` by the flag parser: a call that fails leaves the values as they were.
pub data Step (libraries : Libraries) (o o' : MountOpt) : Type 0 where
  accepted : (value : Text) → set_mount libraries o value ≡ ok o' → Step libraries o o'
  refused :
      (value : Text) (e : MountError)
      → set_mount libraries o value ≡ err e
      → o' ≡ o
      → Step libraries o o'

pub data Reach (libraries : Libraries) (o : MountOpt) : MountOpt → Type 0 where
  here : Reach libraries o o
  next : {p q : MountOpt} → Reach libraries o p → Step libraries p q → Reach libraries o q

-- Valid mounts behind those that were there.
abbrev pub Grown : MountOpt → MountOpt → Type 0
Grown o o' = (ms : List Mount) × (o'.values ≡ o.values ++ ms) × All IsValid ms

Step-Grown : (libraries : Libraries) (o o' : MountOpt) → Step libraries o o' → Grown o o'
Step-Grown libraries o o' (accepted value h) =
    let (m, v, e) = set_mount-Appends libraries o value o' h in (m ∷ [], e, (v, tt))
Step-Grown libraries o o' (refused value e h k) =
    ([], ap (λ (x : MountOpt). x.values) k ∙ sym (append-nil o.values), tt)

Grown-trans : (o p q : MountOpt) → Grown o p → Grown p q → Grown o q
Grown-trans o p q (ms, e, h) (ns, f, k) = (
  ms ++ ns,
  f ∙ ap (λ xs. xs ++ ns) e ∙ append_assoc o.values ms ns,
  All-append IsValid ms ns h k,
)

-- However often `Set` is called, the values are those at the start with valid mounts behind them: no
-- call changes or drops a mount, and no mount that is not valid is ever added.
pub Reach-Grown : (libraries : Libraries) {o o' : MountOpt} → Reach libraries o o' → Grown o o'
Reach-Grown libraries {o} here = ([], sym (append-nil o.values), tt)
Reach-Grown libraries {o} (next {p} {q} r s) =
    Grown-trans o p q (Reach-Grown libraries r) (Step-Grown libraries p q s)
