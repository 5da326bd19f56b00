-- ===== src/Loader/Merge.antt =====
-- Merging Compose files: cli/compose/loader/merge.go. The package mergo is a parameter, and so are the
-- structs of which the code reads a key only.
pub mod Named
pub mod Files
use docker_cli.Prelude.{
  ℕ, Bool, true, false, ◌||◌, Option, none, some, List, [], ◌∷◌, if◌then◌else◌, Result, ok, err,
  ◌>>=◌,
}
use docker_cli.Text.{Text, codes, eq}
use docker_cli.Template.Functions.{is_empty}
use docker_cli.Maps.{Map, lookup, insert, values}
use docker_cli.Maps.Keyed.{put_all}
use docker_cli.Sort.{sort_by}

-- The errors of the parts, with what `errors.Wrapf` puts in front of them.
pub data MergeError {ℓ} (E : Type ℓ) : Type ℓ where
  cannot_merge_service : Text → E → MergeError E
  cannot_merge_map : E → MergeError E
  cannot_merge_from : Text → Text → MergeError E → MergeError E

-- `mapByName`
unfoldable pub map_by_name {ℓ} : {A : Type ℓ} → (A → Text) → List A → Map A
unfolding put_all
map_by_name name services = put_all name services []

module _ {ℓ κ} {A : Type ℓ} {E : Type κ} (name : A → Text)
    (merge_service : A → A → Result E A) where
  abbrev pub merge_one : Text → Option A → A → Result (MergeError E) A
  merge_one k none override_service = ok override_service
  merge_one k (some base_service) override_service =
      elim (merge_service base_service override_service) [
        | ok service ↦ ok service
        | err e ↦ err (cannot_merge_service k e)
      ]

  -- The loop over the services of the override.
  unfoldable pub merge_loop : Map A → Map A → Result (MergeError E) (Map A)
  unfolding lookup insert
  merge_loop [] base_services = ok base_services
  merge_loop ((k, override_service) ∷ services) base_services =
      merge_one k (lookup k base_services) override_service >>= λ service.
      merge_loop services (insert k service base_services)

  -- `mergeServices`
  unfoldable pub merge_services : List A → List A → Result (MergeError E) (List A)
  unfolding merge_loop map_by_name sort_by
  merge_services base override =
      merge_loop (map_by_name name override) (map_by_name name base) >>= λ services.
      ok (sort_by name (values services))

-- `mergeSlice` with `toServiceSecretConfigsMap` and `toServiceSecretConfigsSlice`, and the like for
-- configs and volumes, by the key that the functions use. `merge_map` is `mergo.Map`.
unfoldable pub merge_slice {ℓ κ} :
    {A : Type ℓ} {E : Type κ}
    → (A → Text)
    → (Map A → Map A → Result E (Map A))
    → List A
    → List A
    → Result E (List A)
unfolding put_all sort_by
merge_slice key merge_map dst src =
    merge_map (put_all key dst []) (put_all key src []) >>= λ m. ok (sort_by key (values m))

-- `types.LoggingConfig`, its map being nil or there.
pub record LoggingConfig : Type 0 where
  pub driver : Text
  pub options : Option (Map Text)

-- What a map that is there holds behind `mergo.Merge` into it; a nil map can only be replaced, and the
-- code passes the address of a copy.
abbrev pub in_place : Option (Map Text) → Map Text → Option (Map Text)
in_place none merged = none
in_place (some options) merged = some merged

-- `mergeLoggingConfig`
unfoldable pub merge_logging_config {κ} :
    {E : Type κ}
    → (Option (Map Text) → Option (Map Text) → Result E (Map Text))
    → LoggingConfig
    → LoggingConfig
    → Result E LoggingConfig
unfolding eq
merge_logging_config merge_options dst src =
    if eq dst.driver src.driver || is_empty dst.driver || is_empty src.driver
    then (merge_options dst.options src.options >>= λ merged. ok (record {
      driver = if is_empty dst.driver then src.driver else dst.driver;
      options = in_place dst.options merged;
    }))
    else ok src

-- `safelyMerge`, on pointers
abbrev pub safely_merge {ℓ κ} :
    {A : Type ℓ} {E : Type κ} → (A → A → Result E A) → Option A → Option A → Result E (Option A)
safely_merge merge_fn dst none = ok dst
safely_merge merge_fn none (some src) = ok (some src)
safely_merge merge_fn (some dst) (some src) = merge_fn dst src >>= λ merged. ok (some merged)

-- `mergeUlimitsConfig` and `mergeUint64`: what is pointed at, and a pointer that may be nil.
abbrev pub set_pointee {ℓ} : {A : Type ℓ} → A → Option A → A
set_pointee dst none = dst
set_pointee dst (some src) = src

-- `mergeShellCommand`
abbrev pub merge_shell_command : List Text → List Text → List Text
merge_shell_command dst [] = dst
merge_shell_command dst (word ∷ words) = word ∷ words

-- `types.ServiceNetworkConfig`
pub record ServiceNetworkConfig : Type 0 where
  pub aliases : List Text
  pub driver_opts : Map Text
  pub ipv4_address : Text
  pub ipv6_address : Text

-- `mergeServiceNetworkConfig`
abbrev pub merge_service_network_config :
    ServiceNetworkConfig → Option ServiceNetworkConfig → ServiceNetworkConfig
merge_service_network_config dst none = dst
merge_service_network_config dst (some src) = record dst {
  aliases = src.aliases;
  ipv4_address = if is_empty src.ipv4_address then dst.ipv4_address else src.ipv4_address;
  ipv6_address = if is_empty src.ipv6_address then dst.ipv6_address else src.ipv6_address;
}

-- `types.Config`, with a type for each kind of section, without `Extras`, which no step touches.
pub record Config (A V N S C : Type 0) : Type 0 where
  pub filename : Text
  pub version : Text
  pub services : List A
  pub volumes : Map V
  pub networks : Map N
  pub secrets : Map S
  pub configs : Map C

-- `errors.Wrapf(err, "cannot merge … from %s", override.Filename)`
abbrev pub wrap_from {ℓ κ} :
    {E : Type ℓ} {A : Type κ} → Text → Text → Result (MergeError E) A → Result (MergeError E) A
wrap_from section filename (ok a) = ok a
wrap_from section filename (err e) = err (cannot_merge_from section filename e)

-- `mergeVolumes`, `mergeNetworks`, `mergeSecrets` and `mergeConfigs`, with what `mergo.Map` gives
abbrev pub merge_section {ℓ κ} :
    {E : Type ℓ} {T : Type κ} → Result E (Map T) → Result (MergeError E) (Map T)
merge_section (ok m) = ok m
merge_section (err e) = err (cannot_merge_map e)

module _ {ℓ} {E : Type ℓ} {A V N S C : Type 0} (name : A → Text)
    (merge_service : A → A → Result E A)
    (merge_map : (T : Type 0) → Map T → Map T → Result E (Map T)) where
  -- One round of the loop of `merge`.
  abbrev pub merge_file :
      Config A V N S C → Config A V N S C → Result (MergeError E) (Config A V N S C)
  merge_file base override =
      let from = override.filename in
      wrap_from (codes "services") from
        (merge_services name merge_service base.services override.services)
      >>= λ services.
          wrap_from (codes "volumes") from
            (merge_section (merge_map V base.volumes override.volumes))
          >>= λ volumes.
              wrap_from (codes "networks") from
                (merge_section (merge_map N base.networks override.networks))
              >>= λ networks.
                  wrap_from (codes "secrets") from
                    (merge_section (merge_map S base.secrets override.secrets))
                  >>= λ secrets.
                      wrap_from (codes "configs") from
                        (merge_section (merge_map C base.configs override.configs))
                      >>= λ configs. ok (record base {
                        services = services;
                        volumes = volumes;
                        networks = networks;
                        secrets = secrets;
                        configs = configs;
                      })

  -- `merge`, of the first file and the others
  unfoldable pub merge :
      Config A V N S C → List (Config A V N S C) → Result (MergeError E) (Config A V N S C)
  unfolding merge_services
  merge base [] = ok base
  merge base (override ∷ overrides) = merge_file base override >>= λ c. merge c overrides
