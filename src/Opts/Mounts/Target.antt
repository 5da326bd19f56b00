-- ===== src/Opts/Mounts/Target.antt =====
-- Which field decides the target of a mount, in `Set` of opts/mount.go.
use docker_cli.Prelude.{
  ◌≡◌, refl, sym, ◌∙◌, ap, Bool, true, false, not, ◌&&◌, Option, none, some, List, [], ◌∷◌, arith,
  if◌then◌else◌, Result, ok, err, inl, inr, Result-cases,
}
use docker_cli.Text.{Text, codes, cut3}
use docker_cli.Maps.Keyed.{or_else}
use docker_cli.Opts.Mounts.Fields.{
  Libraries, Mount, MountError, Key, target_key, type_key, source_key, readonly_key,
  consistency_key, bind_propagation, bind_nonrecursive, bind_recursive, volume_subpath,
  volume_nocopy, volume_label, volume_driver, volume_opt, tmpfs_size, tmpfs_mode, other_key,
  to_lower, set_bare, set_key, key_of, parse_field, parse_fields, invalid_value, bind_options_of,
  volume_options_of, tmpfs_options_of, bind_recursive_value, empty_mount,
}

abbrev is_target : Key → Bool
is_target target_key = true
is_target _ = false

module _ (libraries : Libraries) where
  -- The value of the last field whose key is `target`, `dst` or `destination`, in any case.
  abbrev pub last_target : List Text → Option Text
  last_target [] = none
  last_target (field ∷ fields) = or_else (last_target fields) (
      if (cut3 field (codes "=")).2
        && is_target (key_of (to_lower libraries (cut3 field (codes "=")).0))
      then some (cut3 field (codes "=")).1
      else none)

  abbrev TargetIs : Text → Result MountError Mount → Type 0
  TargetIs t (ok m) = m.target ≡ t
  TargetIs t (err e) = Unit

  set_bare-target :
      (k : Key) (field : Text) (m : Mount) → TargetIs m.target (set_bare libraries k field m)
  unfolding set_bare
  set_bare-target readonly_key field m = refl
  set_bare-target volume_nocopy field m = refl
  set_bare-target bind_nonrecursive field m = refl
  set_bare-target _ field m = tt

  -- A result for a value that may not parse.
  parsed_lem {ℓ} :
      {A : Type ℓ} (t : Text) (o : Option A) (e : MountError) (f : A → Mount)
      → ((a : A) → (f a).target ≡ t)
      → TargetIs t (elim o [ none ↦ err e | some a ↦ ok (f a) ])
  parsed_lem t none e f h = tt
  parsed_lem t (some a) e f h = h a

  recursive_lem :
      (key val : Text) (m : Mount) → TargetIs m.target (bind_recursive_value libraries key val m)
  recursive_lem key val m = ground arith

  set_key-target :
      (k : Key) (key val field : Text) (m : Mount)
      → TargetIs (if is_target k then val else m.target) (set_key libraries k key val field m)
  unfolding set_key
  set_key-target type_key key val field m = refl
  set_key-target source_key key val field m = refl
  set_key-target target_key key val field m = refl
  set_key-target readonly_key key val field m =
      parsed_lem m.target (libraries.parse_bool val) (invalid_value key val)
        (λ v. record m { read_only = v }) (λ v. refl)
  set_key-target consistency_key key val field m = refl
  set_key-target bind_propagation key val field m = refl
  set_key-target bind_nonrecursive key val field m =
      parsed_lem m.target (libraries.parse_bool val) (invalid_value key val)
        (λ v. record m { bind_options = some (record (bind_options_of m) { non_recursive = v }) })
        (λ v. refl)
  set_key-target bind_recursive key val field m = recursive_lem key val m
  set_key-target volume_subpath key val field m = refl
  set_key-target volume_nocopy key val field m =
      parsed_lem m.target (libraries.parse_bool val) (invalid_value key val)
        (λ v. record m { volume_options = some (record (volume_options_of m) { no_copy = v }) })
        (λ v. refl)
  set_key-target volume_label key val field m = refl
  set_key-target volume_driver key val field m = refl
  set_key-target volume_opt key val field m = refl
  set_key-target tmpfs_size key val field m =
      parsed_lem m.target (libraries.ram_in_bytes val) (invalid_value key val)
        (λ v. record m { tmpfs_options = some (record (tmpfs_options_of m) { size_bytes = v }) })
        (λ v. refl)
  set_key-target tmpfs_mode key val field m =
      parsed_lem m.target (libraries.parse_mode val) (invalid_value key val)
        (λ v. record m { tmpfs_options = some (record (tmpfs_options_of m) { mode = v }) })
        (λ v. refl)
  set_key-target other_key key val field m = tt

  field_lem :
      (found : Bool) (k : Key) (key val field : Text) (m : Mount)
      → TargetIs
          (if found && is_target k then val else m.target)
          (if not found then set_bare libraries k field m else set_key libraries k key val field m)
  field_lem true k key val field m = set_key-target k key val field m
  field_lem false k key val field m = set_bare-target k field m

  parse_field-target :
      (field : Text) (m : Mount)
      → TargetIs
          (if (cut3 field (codes "=")).2
              && is_target (key_of (to_lower libraries (cut3 field (codes "=")).0))
            then (cut3 field (codes "=")).1
            else m.target)
          (parse_field libraries field m)
  unfolding parse_field
  parse_field-target field m =
      let key = to_lower libraries (cut3 field (codes "=")).0 in
      field_lem (cut3 field (codes "=")).2 (key_of key) key (cut3 field (codes "=")).1 field m

  -- The value, or a default.
  abbrev pub value_or : Option Text → Text → Text
  value_or none d = d
  value_or (some t) d = t

  last_lem :
      (o : Option Text) (b : Bool) (t d : Text)
      → value_or o (if b then t else d) ≡ value_or (or_else o (if b then some t else none)) d
  last_lem none true t d = refl
  last_lem none false t d = refl
  last_lem (some u) b t d = refl

  target_of :
      (t : Text) (m : Mount) (r : Result MountError Mount) → TargetIs t r → r ≡ ok m → m.target ≡ t
  target_of t m (ok n) h e = ground arith
  target_of t m (err f) h e = cc

  fields_lem :
      (fields : List Text) (m m' : Mount)
      → parse_fields libraries fields m ≡ ok m'
      → m'.target ≡ value_or (last_target fields) m.target
  unfolding parse_fields
  fields_lem [] m m' h = ground arith
  fields_lem (field ∷ fields) m m' h = elim (Result-cases (parse_field libraries field m)) [
    | inl (n, e) ↦
        fields_lem fields n m' (sym (rw (parse_fields, e) refl) ∙ h)
        ∙ ap (value_or (last_target fields))
            (target_of _ n (parse_field libraries field m) (parse_field-target field m) e)
        ∙ last_lem (last_target fields) _ _ m.target
    | inr (f, e) ↦
        let k : parse_fields libraries (field ∷ fields) m ≡ err f = rw (parse_fields, e) refl in cc
  ]

  -- A mount that the fields make has the target of the last field named `target`, `dst` or
  -- `destination`, in any case, or else none.
  pub parse_fields-target :
      (fields : List Text) (m : Mount)
      → parse_fields libraries fields empty_mount ≡ ok m
      → m.target ≡ value_or (last_target fields) []
  parse_fields-target fields m h = fields_lem fields empty_mount m h
