-- ===== src/Service/Mounts/Updated.antt =====
-- Which mounts `updateMounts` of cli/command/service/update.go leaves.
use docker_cli.Prelude.{
  ◌≡◌, refl, ap, ◌∙◌, Bool, true, false, not, ◌&&◌, Option, none, some, List, [], ◌∷◌, any, arith,
  if◌then◌else◌, is_some,
}
use docker_cli.Text.{Text}
use docker_cli.Text.Laws.{eq_iff}
use docker_cli.Maps.{Map, lookup, has_key, values, elem}
use docker_cli.Maps.Keyed.{or_else}
use docker_cli.Sort.{sort_with}
use docker_cli.Sort.Laws.{text_le_total}
use docker_cli.Sort.Orders.{any-sort_with, Ordered, sort_with-Ordered}
use docker_cli.Service.Flags.{ListFlag, build_to_remove_set}
use docker_cli.Service.Mounts.{MountFlag, index_new, remove_targets, mount_le, update_mounts}
use docker_cli.Maps.Index.{
  find_first, put_absent, at_key, holds, lookup-put_absent, Distinct-put_absent, Keyed-put_absent,
  any-values,
}
use docker_cli.Service.Mounts.Indexed.{
  clash, lookup-index_new, Distinct-index_new, Keyed-index_new, any-remove_targets, clash-sort_with,
  clash-values, clash-remove_targets, is_some-index_new,
}

module _ {M : Type 0} (target source : M → Text) where
  mount_le_total :
      (x y : M) → mount_le target source x y ≡ false → mount_le target source y x ≡ true
  mount_le_total x y h = ground (
    arith,
    eq_iff (source x) (source y),
    eq_iff (source y) (source x),
    text_le_total (source x) (source y),
    text_le_total (target x) (target y),
  )

  -- What a result of an update is: ordered, with one mount for each target, and that mount the
  -- first of the new ones or else of the old ones, where the target is not removed.
  abbrev pub Mounted : List M → List M → List Text → List M → Type 0
  Mounted new old removed out =
      Ordered (mount_le target source) out
      × (clash target source out ≡ false)
      × ((k : Text) (p : M → Bool)
          → any (at_key target k p) out ≡ (
              not (elem k removed)
              && holds target p (or_else (find_first target k new) (find_first target k old))))

  abbrev new_mounts : MountFlag M → List M
  new_mounts add = if add.changed then add.values else []

  Mounted-result :
      (new old : List M) (rm : List Text) (m : Map M)
      → index_new target source new [] ≡ some m
      → Mounted new old rm (
          sort_with
            (mount_le target source)
            (remove_targets target source rm (values (put_absent target old m))))
  Mounted-result new old rm m h =
      let le = mount_le target source in
      let all = put_absent target old m in
      let left = remove_targets target source rm (values all) in
      let d = Distinct-put_absent target old m (Distinct-index_new target source new [] m h tt) in
      let keyed = Keyed-put_absent target old m (Keyed-index_new target source new [] m h tt) in
      (
        sort_with-Ordered le mount_le_total left,
        clash-sort_with target source left
            ∙ clash-remove_targets target source rm (values all)
                (clash-values target source all d keyed),
        λ k p.
            any-sort_with le (at_key target k p) left
            ∙ any-remove_targets target source k p rm (values all)
            ∙ ap (λ b. not (elem k rm) && b)
                (any-values target k p all d keyed
                  ∙ ap (holds target p) (
                      lookup-put_absent target k old m
                      ∙ ap (λ o. or_else o (find_first target k old))
                          (lookup-index_new target source k new [] m h ∙ unfold lookup in refl))),
      )

  -- An error where two new mounts have one target, and else such a result.
  abbrev pub MountsOrError : List M → List M → List Text → Option (List M) → Type 0
  MountsOrError new old removed none = clash target source new ≡ true
  MountsOrError new old removed (some out) =
      (clash target source new ≡ false) × Mounted new old removed out

  sorted_or_error_lem :
      (new old : List M) (rm : List Text) (r : Option (Map M))
      → index_new target source new [] ≡ r
      → is_some r ≡ not (clash target source new)
      → MountsOrError new old rm (elim r [
        | none ↦ none
        | some m ↦ some (
            sort_with
              (mount_le target source)
              (remove_targets target source rm (values (put_absent target old m))))
      ])
  sorted_or_error_lem new old rm none h e = ground arith
  sorted_or_error_lem new old rm (some m) h e = (ground arith, Mounted-result new old rm m h)

  no_keys_lem : (ms : List M) → any (λ n. has_key {V = M} (target n) []) ms ≡ false
  unfolding has_key lookup
  no_keys_lem [] = refl
  no_keys_lem (x ∷ ms) = no_keys_lem ms

  -- `updateMounts` fails where two new mounts have one target, and only there. Otherwise its result
  -- is ordered by source and target, has one mount for each target, and that mount is the new one or
  -- else the first of the old ones, where the target is not removed.
  pub update_mounts-MountsOrError :
      (add : MountFlag M) (rm : ListFlag) (mounts : List M)
      → MountsOrError
          (new_mounts add)
          mounts
          (build_to_remove_set rm)
          (update_mounts target source add rm mounts)
  unfolding update_mounts
  update_mounts-MountsOrError add rm mounts =
      sorted_or_error_lem (new_mounts add) mounts (build_to_remove_set rm)
        (index_new target source (new_mounts add) []) refl
        (is_some-index_new target source (new_mounts add) []
          ∙ ground (arith, no_keys_lem (new_mounts add)))
