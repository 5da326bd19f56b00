-- ===== src/Opts/Mounts/Valid.antt =====
-- The mounts that `Set` of opts/mount.go accepts.
use docker_cli.Prelude.{
  ◌≡◌, refl, ◌⊎◌, inl, inr, ◌↔◌, Bool, true, false, not, ◌&&◌, Option, none, some, List, [], ◌∷◌,
  ◌++◌, arith, ok, is_some, guard-eq-ok, guard-true, implies-cases, implies-true, ◌≢◌, guard_inv,
  bind-eq-ok,
}
use docker_cli.Text.{Text, codes, eq}
use docker_cli.Text.Laws.{eq_iff}
use docker_cli.Template.Functions.{is_empty}
use docker_cli.Opts.Mounts.Fields.{Libraries, Mount, BindOptions, empty_mount, parse_fields}
use docker_cli.Opts.Mounts.{MountOpt, check_bind, check_mount, read_csv, set_mount}

abbrev pub BindIsValid : Mount → Option BindOptions → Type 0
BindIsValid m none = Unit
BindIsValid m (some b) =
    ((b.read_only_non_recursive ≡ false) ⊎ (m.read_only ≡ true))
    × ((b.read_only_force_recursive ≡ false)
        ⊎ ((m.read_only ≡ true) × (b.propagation ≡ codes "rprivate")))

-- A type and a target; options of a type only on a mount of that type; a recursive setting for
-- read-only mounts only on such a mount.
abbrev pub IsValid : Mount → Type 0
IsValid m =
    (m.mount_type ≢ [])
    × (m.target ≢ [])
    × ((m.volume_options ≡ none) ⊎ (m.mount_type ≡ codes "volume"))
    × ((m.bind_options ≡ none) ⊎ (m.mount_type ≡ codes "bind"))
    × ((m.tmpfs_options ≡ none) ⊎ (m.mount_type ≡ codes "tmpfs"))
    × BindIsValid m m.bind_options

abbrev rnr : BindOptions → Bool
rnr b = b.read_only_non_recursive

abbrev rfr : BindOptions → Bool
rfr b = b.read_only_force_recursive

both_cases :
    (a r : Bool) (p q : Text)
    → not (a && not r) ≡ true
    → not (a && not (eq p q)) ≡ true
    → (a ≡ false) ⊎ ((r ≡ true) × (p ≡ q))
both_cases true true p q h k = inr (refl, ground (arith, eq_iff p q))
both_cases true false p q h k = cc
both_cases false r p q h k = inl refl

check_bind_sound : (m : Mount) (b : Option BindOptions) → check_bind m b ≡ ok tt → BindIsValid m b
check_bind_sound m none h = tt
check_bind_sound m (some b) h =
    let (h1, k1) = guard-eq-ok _ _ _ h in
    let (h2, h3) = guard-eq-ok _ _ _ k1 in
    (
      implies-cases (rnr b) m.read_only h1,
      both_cases (rfr b) m.read_only b.propagation (codes "rprivate") h2 (guard_inv _ _ h3),
    )

of_both :
    (a r : Bool) (p q : Text)
    → (a ≡ false) ⊎ ((r ≡ true) × (p ≡ q))
    → (not (a && not r) ≡ true) × (not (a && not (eq p q)) ≡ true)
of_both a r p q (inl h) = ground arith
of_both a r p q (inr (h, k)) = ground (arith, eq_iff p q)

check_bind_complete :
    (m : Mount) (b : Option BindOptions) → BindIsValid m b → check_bind m b ≡ ok tt
check_bind_complete m none h = refl
check_bind_complete m (some b) (h, k) =
    let h1 = implies-true (rnr b) m.read_only h in
    let (h2, h3) = of_both (rfr b) m.read_only b.propagation (codes "rprivate") k in
    guard-true _ _ _ h1 (guard-true _ _ _ h2 (ground arith))

nonempty_iff : (s : Text) → (not (is_empty s) ≡ true) ↔ (s ≢ [])
nonempty_iff [] = (λ h. cc, λ h. absurd (h refl))
nonempty_iff (c ∷ s) = (λ h e. cc, λ h. refl)

option_cases {ℓ} :
    {A : Type ℓ} (o : Option A) (s t : Text)
    → not (is_some o && not (eq s t)) ≡ true
    → (o ≡ none) ⊎ (s ≡ t)
option_cases none s t h = inl refl
option_cases (some a) s t h = inr (ground (arith, eq_iff s t))

of_option {ℓ} :
    {A : Type ℓ} (o : Option A) (s t : Text)
    → (o ≡ none) ⊎ (s ≡ t)
    → not (is_some o && not (eq s t)) ≡ true
of_option none s t h = refl
of_option (some a) s t (inl h) = cc
of_option (some a) s t (inr h) = ground (arith, eq_iff s t)

-- The tests behind the loop accept the valid mounts and no others.
pub check_mount_iff : (m : Mount) → (check_mount m ≡ ok tt) ↔ IsValid m
unfolding check_mount
check_mount_iff m = (to, from)
  where
    to : check_mount m ≡ ok tt → IsValid m
    to h =
        let (h1, k1) = guard-eq-ok _ _ _ h in
        let (h2, k2) = guard-eq-ok _ _ _ k1 in
        let (h3, k3) = guard-eq-ok _ _ _ k2 in
        let (h4, k4) = guard-eq-ok _ _ _ k3 in
        let (h5, k5) = guard-eq-ok _ _ _ k4 in
        (
          (nonempty_iff m.mount_type).0 h1,
          (nonempty_iff m.target).0 h2,
          option_cases m.volume_options m.mount_type (codes "volume") h3,
          option_cases m.bind_options m.mount_type (codes "bind") h4,
          option_cases m.tmpfs_options m.mount_type (codes "tmpfs") h5,
          check_bind_sound m m.bind_options k5,
        )

    from : IsValid m → check_mount m ≡ ok tt
    from (h1, h2, h3, h4, h5, h6) = guard-true _ _ _ ((nonempty_iff m.mount_type).1 h1) (
        guard-true _ _ _ ((nonempty_iff m.target).1 h2) (
          guard-true _ _ _ (of_option m.volume_options m.mount_type (codes "volume") h3) (
            guard-true _ _ _ (of_option m.bind_options m.mount_type (codes "bind") h4) (
              guard-true _ _ _ (of_option m.tmpfs_options m.mount_type (codes "tmpfs") h5)
                (check_bind_complete m m.bind_options h6)))))

-- The mount that a call of `Set` appends.
abbrev pub Appends : MountOpt → MountOpt → Type 0
Appends o o' = (m : Mount) × IsValid m × (o'.values ≡ o.values ++ m ∷ [])

module _ (libraries : Libraries) where
  -- A call of `Set` that succeeds appends one valid mount.
  pub set_mount-Appends :
      (o : MountOpt) (value : Text) (o' : MountOpt)
      → set_mount libraries o value ≡ ok o'
      → Appends o o'
  unfolding set_mount
  set_mount-Appends o value o' h =
      let (fields, e1, h1) = bind-eq-ok (read_csv libraries (libraries.csv_read value)) _ h in
      let (m, e2, h2) = bind-eq-ok (parse_fields libraries fields empty_mount) _ h1 in
      let (u, e3, h3) = bind-eq-ok (check_mount m) _ h2 in
      (m, (check_mount_iff m).0 e3, ground arith)

  read_csv-eq-ok :
      (o : Option (List Text)) (fields : List Text)
      → read_csv libraries o ≡ ok fields
      → o ≡ some fields
  read_csv-eq-ok none fields h = cc
  read_csv-eq-ok (some xs) fields h = cc

  -- `Set` succeeds exactly where the text is CSV, its fields are accepted, and the mount that they
  -- make is valid; the result is the old values with that mount behind them.
  pub set_mount_iff :
      (o : MountOpt) (value : Text) (o' : MountOpt)
      → (set_mount libraries o value ≡ ok o') ↔ (
          (fields : List Text) × (m : Mount) × (libraries.csv_read value ≡ some fields)
          × (parse_fields libraries fields empty_mount ≡ ok m)
          × IsValid m
          × (o' ≡ record { values = o.values ++ m ∷ [] }))
  unfolding set_mount
  set_mount_iff o value o' = (to, from)
    where
      to :
          set_mount libraries o value ≡ ok o'
          → (fields : List Text) × (m : Mount) × (libraries.csv_read value ≡ some fields)
            × (parse_fields libraries fields empty_mount ≡ ok m)
            × IsValid m
            × (o' ≡ record { values = o.values ++ m ∷ [] })
      to h =
          let (fields, e1, h1) = bind-eq-ok (read_csv libraries (libraries.csv_read value)) _ h in
          let (m, e2, h2) = bind-eq-ok (parse_fields libraries fields empty_mount) _ h1 in
          let (u, e3, h3) = bind-eq-ok (check_mount m) _ h2 in
          (
            fields,
            m,
            read_csv-eq-ok (libraries.csv_read value) fields e1,
            e2,
            (check_mount_iff m).0 e3,
            cc,
          )

      from :
          (fields : List Text) × (m : Mount) × (libraries.csv_read value ≡ some fields)
            × (parse_fields libraries fields empty_mount ≡ ok m)
            × IsValid m
            × (o' ≡ record { values = o.values ++ m ∷ [] })
          → set_mount libraries o value ≡ ok o'
      from (fields, m, e1, e2, v, e3) = rw (e1, e2, (check_mount_iff m).1 v, e3) refl
