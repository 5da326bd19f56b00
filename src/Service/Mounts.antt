-- ===== src/Service/Mounts.antt =====
-- `updateMounts` of cli/command/service/update.go. `mounttypes.Mount` stands outside this
-- repository: `M`, with its fields `Target` and `Source`.
pub mod Indexed
pub mod Updated
use docker_cli.Prelude.{Bool, not, Option, none, some, List, [], ◌∷◌, if◌then◌else◌}
use docker_cli.Text.{Text, eq}
use docker_cli.Maps.{Map, has_key, insert, values, elem}
use docker_cli.Maps.Index.{put_absent}
use docker_cli.Sort.{text_le, sort_with}
use docker_cli.Service.Flags.{ListFlag, build_to_remove_set}

-- `flagMountAdd`, an `*opts.MountOpt`: `Changed`, and its `Value()`.
pub record MountFlag (M : Type 0) : Type 0 where
  pub changed : Bool
  pub values : List M

module _ {M : Type 0} (target source : M → Text) where
  -- The loop over the new mounts; `none` is the error `duplicate mount target`.
  unfoldable pub index_new : List M → Map M → Option (Map M)
  unfolding has_key insert
  index_new [] mounts_by_target = some mounts_by_target
  index_new (mount ∷ mounts) mounts_by_target =
      let rest = index_new mounts (insert (target mount) mount mounts_by_target) in
      if has_key (target mount) mounts_by_target then none else rest

  -- The loop that leaves out the removed targets.
  unfoldable pub remove_targets : List Text → List M → List M
  unfolding elem
  remove_targets to_remove [] = []
  remove_targets to_remove (mount ∷ mounts) =
      let rest = remove_targets to_remove mounts in
      if not (elem (target mount) to_remove) then mount ∷ rest else rest

  -- The order of the result: by source, then by target.
  abbrev pub mount_le : M → M → Bool
  mount_le a b =
      if eq (source a) (source b)
      then text_le (target a) (target b)
      else text_le (source a) (source b)

  unfoldable pub update_mounts : MountFlag M → ListFlag → List M → Option (List M)
  unfolding index_new put_absent remove_targets build_to_remove_set sort_with eq text_le
  update_mounts mount_add mount_rm mounts =
      elim (index_new (if mount_add.changed then mount_add.values else []) []) [
        | none ↦ none
        | some new ↦ some (
            sort_with mount_le (
              remove_targets (build_to_remove_set mount_rm)
                (values (put_absent target mounts new))))
      ]
