-- ===== src/Opts/Mounts.antt =====
-- `MountOpt` of opts/mount.go: the values of the flag `--mount`.
pub mod Fields
pub mod Valid
pub mod Reached
pub mod Target
use docker_cli.Prelude.{
  Bool, true, false, not, ◌&&◌, ◌||◌, Option, none, some, List, [], ◌∷◌, ◌++◌, if◌then◌else◌,
  Result, ok, err, ◌>>=◌, ◌>>◌, guard, is_some,
}
use docker_cli.Text.{Text, codes, eq}
use docker_cli.Template.Functions.{is_empty}
use docker_cli.Opts.Mounts.Fields.{
  Libraries, Mount, BindOptions, MountError, bad_csv, type_required, target_required, cannot_mix,
  requires_readonly, requires_rprivate, empty_mount, parse_fields,
}

pub record MountOpt : Type 0 where
  pub values : List Mount

-- The tests on the bind options.
abbrev pub check_bind : Mount → Option BindOptions → Result MountError (Unit {0})
check_bind mount none = ok tt
check_bind mount (some bind) = do
  guard (not (bind.read_only_non_recursive && not mount.read_only))
      (requires_readonly (codes "writable"))
  guard (not (bind.read_only_force_recursive && not mount.read_only))
      (requires_readonly (codes "readonly"))
  guard (not (bind.read_only_force_recursive && not (eq bind.propagation (codes "rprivate"))))
      requires_rprivate

-- The tests behind the loop over the fields.
unfoldable pub check_mount : Mount → Result MountError (Unit {0})
unfolding eq
check_mount mount = do
  guard (not (is_empty mount.mount_type)) type_required
  guard (not (is_empty mount.target)) target_required
  guard (not (is_some mount.volume_options && not (eq mount.mount_type (codes "volume"))))
      (cannot_mix (codes "volume-*") mount.mount_type)
  guard (not (is_some mount.bind_options && not (eq mount.mount_type (codes "bind"))))
      (cannot_mix (codes "bind-*") mount.mount_type)
  guard (not (is_some mount.tmpfs_options && not (eq mount.mount_type (codes "tmpfs"))))
      (cannot_mix (codes "tmpfs-*") mount.mount_type)
  check_bind mount mount.bind_options

module _ (libraries : Libraries) where
  abbrev pub read_csv : Option (List Text) → Result MountError (List Text)
  read_csv none = err bad_csv
  read_csv (some fields) = ok fields

  -- `Set`
  unfoldable pub set_mount : MountOpt → Text → Result MountError MountOpt
  unfolding parse_fields check_mount
  set_mount opt value = do
    fields ← read_csv (libraries.csv_read value)
    mount ← parse_fields libraries fields empty_mount
    check_mount mount
    ok (record { values = opt.values ++ mount ∷ [] })
