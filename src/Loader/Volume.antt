-- ===== src/Loader/Volume.antt =====
-- `ParseVolume` of cli/compose/loader/volume.go.
pub mod Sections
pub mod Described
pub mod Parsed
use docker_cli.Prelude.{
  ℕ, suc, ◌+◌, ◌==◌, leb, Bool, true, false, not, ◌&&◌, ◌||◌, Option, none, some, List, [], ◌∷◌,
  ◌++◌, any, if◌then◌else◌,
}
use docker_cli.Text.{Text, codes, eq, has_prefix, split}
use docker_cli.Template.Functions.{is_empty}

-- `types.ServiceVolumeConfig`: the fields that are written. `bind` is the propagation and `volume`
-- the field `NoCopy` of the structs that they point to.
pub record VolumeConfig : Type 0 where
  pub volume_type : Text
  pub source : Text
  pub target : Text
  pub read_only : Bool
  pub bind : Option Text
  pub volume : Option Bool

abbrev pub empty_config : VolumeConfig
empty_config = record {
  volume_type = [];
  source = [];
  target = [];
  read_only = false;
  bind = none;
  volume = none;
}

pub data VolumeError : Type 0 where
  empty_spec : VolumeError
  empty_section : VolumeError
  too_many_colons : VolumeError

-- `len(spec)`, the bytes of the UTF-8 encoding.
abbrev pub byte_len : Text → ℕ
byte_len [] = 0
byte_len (c ∷ s) =
    (if leb c 0x7f then 1 else if leb c 0x7ff then 2 else if leb c 0xffff then 3 else 4)
    + byte_len s

abbrev pub colon : ℕ
colon = b':'

-- `endOfSpec`
abbrev pub end_of_spec : ℕ
end_of_spec = 0

-- `mount.Propagations`, of the engine's API.
module _ (propagations : List Text) where
  -- `isBindOption`
  abbrev pub is_bind_option : Text → Bool
  is_bind_option option = any (eq option) propagations

  -- One round of the loop over the options.
  unfoldable pub populate_option : Text → VolumeConfig → VolumeConfig
  unfolding eq
  populate_option option config =
      let volume = config.volume in
      let read_only = config.read_only in
      let bind = config.bind in
      record {
        volume_type = config.volume_type;
        source = config.source;
        target = config.target;
        read_only =
            if eq option (codes "ro")
            then true
            else if eq option (codes "rw")
            then false
            else read_only;
        bind =
            if eq option (codes "ro") || eq option (codes "rw") || eq option (codes "nocopy")
            then bind
            else if is_bind_option option
            then some option
            else bind;
        volume = if eq option (codes "nocopy") then some true else volume;
      }

  unfoldable pub populate_options : List Text → VolumeConfig → VolumeConfig
  unfolding populate_option
  populate_options [] config = config
  populate_options (option ∷ options) config =
      populate_options options (populate_option option config)

  abbrev pub with_source : Text → VolumeConfig → VolumeConfig
  with_source s config = record {
    volume_type = config.volume_type;
    source = s;
    target = config.target;
    read_only = config.read_only;
    bind = config.bind;
    volume = config.volume;
  }

  abbrev pub with_target : Text → VolumeConfig → VolumeConfig
  with_target t config = record {
    volume_type = config.volume_type;
    source = config.source;
    target = t;
    read_only = config.read_only;
    bind = config.bind;
    volume = config.volume;
  }

  abbrev pub with_type : Text → VolumeConfig → VolumeConfig
  with_type t config = record {
    volume_type = t;
    source = config.source;
    target = config.target;
    read_only = config.read_only;
    bind = config.bind;
    volume = config.volume;
  }

  -- `populateFieldFromBuffer`: the configuration, which an error leaves as it is, and the error.
  unfoldable pub populate_field : ℕ → Text → VolumeConfig → VolumeConfig × Option VolumeError
  unfolding populate_options split
  populate_field char buffer config =
      let options = populate_options (split buffer b',') config in
      if is_empty buffer
      then (config, some empty_section)
      else if is_empty config.source && char == end_of_spec
      then (with_target buffer config, none)
      else if is_empty config.source
      then (with_source buffer config, none)
      else if is_empty config.target
      then (with_target buffer config, none)
      else if char == colon
      then (config, some too_many_colons)
      else (options, none)

  -- `unicode.IsLetter` is `is_letter`.
  module _ (is_letter : ℕ → Bool) where
    -- `isWindowsDrive`
    abbrev pub is_windows_drive : Text → ℕ → Bool
    is_windows_drive [] char = false
    is_windows_drive (c ∷ []) char = char == colon && is_letter c
    is_windows_drive (c ∷ (d ∷ buffer)) char = false

    -- `isFilePath`. The empty source, on which the code would panic, is not reached.
    unfoldable pub is_file_path : Text → Bool
    unfolding has_prefix
    is_file_path [] = false
    is_file_path (c ∷ []) = c == b'.' || c == b'/' || c == b'~'
    is_file_path (c ∷ (d ∷ s)) =
        (c == b'.' || c == b'/' || c == b'~')
        || has_prefix (c ∷ (d ∷ s)) (b'\\' ∷ b'\\' ∷ [])
        || is_windows_drive (c ∷ []) d

    -- `populateType`
    unfoldable pub populate_type : VolumeConfig → VolumeConfig
    unfolding is_file_path
    populate_type config =
        if is_empty config.source
        then with_type (codes "volume") config
        else if is_file_path config.source
        then with_type (codes "bind") config
        else with_type (codes "volume") config

    -- The loop over the characters: the configuration and the error, if there is one.
    unfoldable pub parse_chars : Text → Text → VolumeConfig → VolumeConfig × Option VolumeError
    unfolding populate_field
    parse_chars [] buffer config = (config, none)
    parse_chars (char ∷ chars) buffer config =
        let longer = parse_chars chars (buffer ++ char ∷ []) config in
        let (config', failure) = populate_field char buffer config in
        let next = parse_chars chars [] config' in
        let populated : VolumeConfig × Option VolumeError = elim failure [
          | some e ↦ (config', some e)
          | none ↦ next
        ] in
        if is_windows_drive buffer char
        then longer
        else if char == colon || char == end_of_spec
        then populated
        else longer

    -- `ParseVolume`
    unfoldable pub parse_volume : Text → VolumeConfig × Option VolumeError
    unfolding parse_chars populate_type
    parse_volume spec =
        let (config, failure) = parse_chars (spec ++ end_of_spec ∷ []) [] empty_config in
        let short = with_type (codes "volume") (with_target spec empty_config) in
        if byte_len spec == 0
        then (empty_config, some empty_spec)
        else if leb (byte_len spec) 2
        then (short, none)
        else (populate_type config, failure)
