-- ===== src/Opts/Mounts/Fields.antt =====
-- The fields of a mount, and the loop over them in `Set` of opts/mount.go.
use docker_cli.Prelude.{
  ℕ, Bool, true, false, not, ◌||◌, Option, none, some, List, [], ◌∷◌, map, if◌then◌else◌, Result,
  ok, err,
}
use docker_cli.Text.{Text, codes, eq, cut3, has_prefix, lower}
use docker_cli.Maps.{Map, insert}
use docker_cli.Template.Functions.{is_empty}

-- What the function calls: `csv.Reader.Read`, `strconv.ParseBool`, `units.RAMInBytes`,
-- `strconv.ParseUint(·, 8, 32)`, `filepath.Abs`, each with `none` for an error, and the Unicode
-- tables of `strings.ToLower`. The path separator is `/`.
pub record Libraries : Type 0 where
  pub csv_read : Text → Option (List Text)
  pub parse_bool : Text → Option Bool
  pub ram_in_bytes : Text → Option ℕ
  pub parse_mode : Text → Option ℕ
  pub abs_path : Text → Option Text
  pub fold : ℕ → ℕ

-- `mounttypes.Mount` of the engine's API, with the structs that it points to. `VolumeOptions` is
-- only made with its labels and its driver.
pub record BindOptions : Type 0 where
  pub propagation : Text
  pub non_recursive : Bool
  pub read_only_non_recursive : Bool
  pub read_only_force_recursive : Bool

pub record VolumeOptions : Type 0 where
  pub no_copy : Bool
  pub labels : Map Text
  pub subpath : Text
  pub driver_name : Text
  pub driver_options : Option (Map Text)

pub record TmpfsOptions : Type 0 where
  pub size_bytes : ℕ
  pub mode : ℕ

pub record Mount : Type 0 where
  pub mount_type : Text
  pub source : Text
  pub target : Text
  pub read_only : Bool
  pub consistency : Text
  pub bind_options : Option BindOptions
  pub volume_options : Option VolumeOptions
  pub tmpfs_options : Option TmpfsOptions

-- The mount at the start of the loop.
abbrev pub empty_mount : Mount
empty_mount = record {
  mount_type = codes "volume";
  source = [];
  target = [];
  read_only = false;
  consistency = [];
  bind_options = none;
  volume_options = none;
  tmpfs_options = none;
}

pub data MountError : Type 0 where
  bad_csv : MountError
  not_a_pair : Text → MountError
  invalid_value : Text → Text → MountError
  unexpected_key : Text → Text → MountError
  type_required : MountError
  target_required : MountError
  cannot_mix : Text → Text → MountError
  requires_readonly : Text → MountError
  requires_rprivate : MountError

-- The closures `volumeOptions`, `bindOptions` and `tmpfsOptions`.
abbrev pub volume_options_of : Mount → VolumeOptions
volume_options_of mount = elim mount.volume_options [
  | some options ↦ options
  | none ↦ record {
    no_copy = false;
    labels = [];
    subpath = [];
    driver_name = [];
    driver_options = none;
  }
]

abbrev pub bind_options_of : Mount → BindOptions
bind_options_of mount = elim mount.bind_options [
  | some options ↦ options
  | none ↦ record {
    propagation = [];
    non_recursive = false;
    read_only_non_recursive = false;
    read_only_force_recursive = false;
  }
]

abbrev pub tmpfs_options_of : Mount → TmpfsOptions
tmpfs_options_of mount = elim mount.tmpfs_options [
  | some options ↦ options
  | none ↦ record { size_bytes = 0; mode = 0 }
]

-- `setValueOnMap`
abbrev pub set_value_on_map : Map Text → Text → Map Text
set_value_on_map target value =
    let (k, v, found) = cut3 value (codes "=") in
    if not (is_empty k) then insert k v target else target

-- The keys that the two `switch` statements tell apart.
pub data Key : Type 0 where
  type_key : Key
  source_key : Key
  target_key : Key
  readonly_key : Key
  consistency_key : Key
  bind_propagation : Key
  bind_nonrecursive : Key
  bind_recursive : Key
  volume_subpath : Key
  volume_nocopy : Key
  volume_label : Key
  volume_driver : Key
  volume_opt : Key
  tmpfs_size : Key
  tmpfs_mode : Key
  other_key : Key

abbrev pub keys_by_name : List (Text × Key)
keys_by_name =
    (codes "type", type_key)
    ∷ (codes "source", source_key)
    ∷ (codes "src", source_key)
    ∷ (codes "target", target_key)
    ∷ (codes "dst", target_key)
    ∷ (codes "destination", target_key)
    ∷ (codes "readonly", readonly_key)
    ∷ (codes "ro", readonly_key)
    ∷ (codes "consistency", consistency_key)
    ∷ (codes "bind-propagation", bind_propagation)
    ∷ (codes "bind-nonrecursive", bind_nonrecursive)
    ∷ (codes "bind-recursive", bind_recursive)
    ∷ (codes "volume-subpath", volume_subpath)
    ∷ (codes "volume-nocopy", volume_nocopy)
    ∷ (codes "volume-label", volume_label)
    ∷ (codes "volume-driver", volume_driver)
    ∷ (codes "volume-opt", volume_opt)
    ∷ (codes "tmpfs-size", tmpfs_size)
    ∷ (codes "tmpfs-mode", tmpfs_mode)
    ∷ []

unfoldable pub key_in : List (Text × Key) → Text → Key
unfolding eq
key_in [] key = other_key
key_in ((name, k) ∷ names) key = if eq key name then k else key_in names key

unfoldable pub key_of : Text → Key
unfolding key_in
key_of = key_in keys_by_name

module _ (libraries : Libraries) where
  open libraries use {parse_bool, ram_in_bytes, parse_mode, abs_path, fold}

  -- `strings.ToLower`
  abbrev pub to_lower : Text → Text
  to_lower = map (lower fold)

  abbrev pub set_bind : Mount → BindOptions → Result MountError Mount
  set_bind mount options = ok (record mount { bind_options = some options })

  abbrev pub set_volume : Mount → VolumeOptions → Result MountError Mount
  set_volume mount options = ok (record mount { volume_options = some options })

  abbrev pub set_tmpfs : Mount → TmpfsOptions → Result MountError Mount
  set_tmpfs mount options = ok (record mount { tmpfs_options = some options })

  -- A field without a `=`.
  unfoldable pub set_bare : Key → Text → Mount → Result MountError Mount
  set_bare readonly_key field mount = ok (record mount { read_only = true })
  set_bare volume_nocopy field mount =
      set_volume mount (record (volume_options_of mount) { no_copy = true })
  set_bare bind_nonrecursive field mount =
      set_bind mount (record (bind_options_of mount) { non_recursive = true })
  set_bare _ field mount = err (not_a_pair field)

  -- The value of `source`, where a relative path is made absolute.
  abbrev pub source_value : Text → Text
  source_value val =
      let absolute : Text = elim (abs_path val) [ none ↦ val | some abs ↦ abs ] in
      if has_prefix val (codes "./") || eq val (codes ".") then absolute else val

  abbrev pub bind_recursive_value : Text → Text → Mount → Result MountError Mount
  bind_recursive_value key val mount =
      let options = bind_options_of mount in
      if eq val (codes "enabled")
      then ok mount
      else if eq val (codes "disabled")
      then set_bind mount (record options { non_recursive = true })
      else if eq val (codes "writable")
      then set_bind mount (record options { read_only_non_recursive = true })
      else if eq val (codes "readonly")
      then set_bind mount (record options { read_only_force_recursive = true })
      else err (invalid_value key val)

  abbrev pub driver_options_of : Mount → Map Text
  driver_options_of mount = elim (volume_options_of mount).driver_options [
    | none ↦ []
    | some options ↦ options
  ]

  -- A field `key=val`; `key` is in lower case.
  unfoldable pub set_key : Key → Text → Text → Text → Mount → Result MountError Mount
  unfolding lower has_prefix eq insert
  set_key type_key key val field mount = ok (record mount { mount_type = to_lower val })
  set_key source_key key val field mount = ok (record mount { source = source_value val })
  set_key target_key key val field mount = ok (record mount { target = val })
  set_key readonly_key key val field mount = elim (parse_bool val) [
    | none ↦ err (invalid_value key val)
    | some b ↦ ok (record mount { read_only = b })
  ]
  set_key consistency_key key val field mount = ok (record mount { consistency = to_lower val })
  set_key bind_propagation key val field mount =
      set_bind mount (record (bind_options_of mount) { propagation = to_lower val })
  set_key bind_nonrecursive key val field mount = elim (parse_bool val) [
    | none ↦ err (invalid_value key val)
    | some b ↦ set_bind mount (record (bind_options_of mount) { non_recursive = b })
  ]
  set_key bind_recursive key val field mount = bind_recursive_value key val mount
  set_key volume_subpath key val field mount =
      set_volume mount (record (volume_options_of mount) { subpath = val })
  set_key volume_nocopy key val field mount = elim (parse_bool val) [
    | none ↦ err (invalid_value key val)
    | some b ↦ set_volume mount (record (volume_options_of mount) { no_copy = b })
  ]
  set_key volume_label key val field mount =
      let options = volume_options_of mount in
      set_volume mount (record options { labels = set_value_on_map options.labels val })
  set_key volume_driver key val field mount =
      set_volume mount (record (volume_options_of mount) { driver_name = val })
  set_key volume_opt key val field mount = set_volume mount (record (volume_options_of mount) {
    driver_options = some (set_value_on_map (driver_options_of mount) val);
  })
  set_key tmpfs_size key val field mount = elim (ram_in_bytes val) [
    | none ↦ err (invalid_value key val)
    | some n ↦ set_tmpfs mount (record (tmpfs_options_of mount) { size_bytes = n })
  ]
  set_key tmpfs_mode key val field mount = elim (parse_mode val) [
    | none ↦ err (invalid_value key val)
    | some n ↦ set_tmpfs mount (record (tmpfs_options_of mount) { mode = n })
  ]
  set_key other_key key val field mount = err (unexpected_key key field)

  -- One round of the loop.
  unfoldable pub parse_field : Text → Mount → Result MountError Mount
  unfolding set_bare set_key key_of lower
  parse_field field mount =
      let (k, val, found) = cut3 field (codes "=") in
      let key = to_lower k in
      if not found
      then set_bare (key_of key) field mount
      else set_key (key_of key) key val field mount

  unfoldable pub parse_fields : List Text → Mount → Result MountError Mount
  unfolding parse_field
  parse_fields [] mount = ok mount
  parse_fields (field ∷ fields) mount = elim (parse_field field mount) [
    | err e ↦ err e
    | ok mount' ↦ parse_fields fields mount'
  ]
