-- ===== src/Service/Resources.antt =====
-- The generic resources of a service in cli/command/service/update.go and
-- cli/command/service/generic_resource_opts.go.
pub mod Removed
use docker_cli.Prelude.{
  ℕ, Bool, true, false, not, Option, none, some, List, [], ◌∷◌, if◌then◌else◌, Result, ok, err,
  ◌>>=◌, ◌>>◌, guard, map,
}
use docker_cli.Text.{Text}
use docker_cli.Maps.{Map, has_key, insert, delete, values}
use docker_cli.Service.Flags.{ListFlag}

-- `swarm.GenericResource`: one of its two specifications is there, or neither.
pub data GenericResource : Type 0 where
  discrete : Text → ℕ → GenericResource
  named : Text → Text → GenericResource
  neither : GenericResource

pub data ResourceError : Type 0 where
  invalid_resource : GenericResource → ResourceError
  duplicate_resource : Text → ResourceError
  not_found : Text → ResourceError

-- `buildGenericResourceMap`, over the map so far. A resource that is in the map is discrete.
unfoldable pub build_map : List GenericResource → Map ℕ → Result ResourceError (Map ℕ)
unfolding has_key insert
build_map [] m = ok m
build_map (discrete kind value ∷ resources) m =
    guard (not (has_key kind m)) (duplicate_resource kind)
    >> build_map resources (insert kind value m)
build_map (named kind value ∷ resources) m = err (invalid_resource (named kind value))
build_map (neither ∷ resources) m = err (invalid_resource neither)

-- `buildGenericResourceList`
abbrev pub build_generic_resource_list : Map ℕ → List GenericResource
build_generic_resource_list m = map (λ e. discrete (e.0) (e.1)) m

-- The loop of `removeGenericResources`.
unfoldable pub remove_kinds : List Text → Map ℕ → Result ResourceError (Map ℕ)
unfolding has_key delete
remove_kinds [] m = ok m
remove_kinds (kind ∷ kinds) m =
    guard (has_key kind m) (not_found kind) >> remove_kinds kinds (delete kind m)

-- `removeGenericResources`, on the generic resources of the reservations.
unfoldable pub remove_generic_resources :
    ListFlag → List GenericResource → Result ResourceError (List GenericResource)
unfolding build_map remove_kinds
remove_generic_resources generic_rm resources =
    if generic_rm.changed
    then (build_map resources [] >>= λ m.
        remove_kinds generic_rm.values m >>= λ rest. ok (build_generic_resource_list rest))
    else ok resources
