-- ===== src/Loader/Volume/Described.antt =====
-- The type and the options of a volume of cli/compose/loader/volume.go, by what the texts are.
use docker_cli.Prelude.{
  ℕ, ◌≡◌, refl, ◌∙◌, ap, Bool, true, false, not, ◌&&◌, ◌||◌, Option, none, some, List, [], ◌∷◌, any,
  ◌==◌, if◌then◌else◌, arith, Bool-cases, inl, inr,
}
use docker_cli.Text.{Text, codes, eq, has_prefix}
use docker_cli.Maps.{elem}
use docker_cli.Maps.Keyed.{or_else}
use docker_cli.Loader.Volume.{
  VolumeConfig, empty_config, populate_option, populate_options, is_file_path, populate_type,
  with_source, with_target,
}
use docker_cli.Loader.Volume.Sections.{Section}

-- The mode that stands last: whether it is `ro`.
abbrev pub last_mode : List Text → Option Bool
last_mode [] = none
last_mode (o ∷ os) =
    or_else (last_mode os)
      (if eq o (codes "ro") then some true else if eq o (codes "rw") then some false else none)

abbrev pub is_read_only : Option Bool → Bool
is_read_only none = false
is_read_only (some b) = b

-- The propagation that stands last; an option with another meaning is none.
abbrev pub last_propagation : List Text → List Text → Option Text
last_propagation propagations [] = none
last_propagation propagations (o ∷ os) = or_else (last_propagation propagations os) (
    if any (eq o) propagations
      && not (eq o (codes "ro") || eq o (codes "rw") || eq o (codes "nocopy"))
    then some o
    else none)

-- `\\\\host`, a drive, or a path that begins with `.`, `/` or `~`.
abbrev pub is_path : (ℕ → Bool) → Text → Bool
is_path is_letter [] = false
is_path is_letter (c ∷ []) = c == b'.' || c == b'/' || c == b'~'
is_path is_letter (c ∷ d ∷ s) =
    c == b'.' || c == b'/' || c == b'~' || (c == b'\\' && d == b'\\') || (d == b':' && is_letter c)

-- The volume of a source and a target with options.
abbrev pub described : List Text → (ℕ → Bool) → Text → Text → List Text → VolumeConfig
described propagations is_letter s t options = record {
  volume_type = if is_path is_letter s then codes "bind" else codes "volume";
  source = s;
  target = t;
  read_only = is_read_only (last_mode options);
  bind = last_propagation propagations options;
  volume = if elem (codes "nocopy") options then some true else none;
}

-- The parts of a configuration that options set.
abbrev with_options : VolumeConfig → Bool → Option Text → Option Bool → VolumeConfig
with_options config r b v = record {
  volume_type = config.volume_type;
  source = config.source;
  target = config.target;
  read_only = r;
  bind = b;
  volume = v;
}

or_mode : Option Bool → Bool → Bool
or_mode none old = old
or_mode (some b) old = b

mode_lem :
    (r w : Bool) (last : Option Bool) (old : Bool)
    → or_mode last (if r then true else if w then false else old)
      ≡ or_mode (or_else last (if r then some true else if w then some false else none)) old
unfolding or_mode
mode_lem true w none old = refl
mode_lem false true none old = refl
mode_lem false false none old = refl
mode_lem r w (some b) old = refl

bind_lem :
    (r w copy prop : Bool) (last old : Option Text) (o : Text)
    → or_else last (if r || w || copy then old else if prop then some o else old)
      ≡ or_else (or_else last (if prop && not (r || w || copy) then some o else none)) old
bind_lem r w copy prop (some l) old o = refl
bind_lem r w copy true none old o = ground arith
bind_lem r w copy false none old o = ground arith

copy_lem :
    (copy later : Bool) (old : Option Bool)
    → (if later then some true else (if copy then some true else old))
      ≡ (if (if copy then true else later) then some true else old)
copy_lem true true old = refl
copy_lem true false old = refl
copy_lem false later old = refl

or_none_lem : (o : Option Text) → or_else o none ≡ o
or_none_lem none = refl
or_none_lem (some a) = refl

is_read_only_lem : (o : Option Bool) → or_mode o false ≡ is_read_only o
unfolding or_mode
is_read_only_lem none = refl
is_read_only_lem (some b) = refl

module _ (propagations : List Text) (is_letter : ℕ → Bool) where
  -- What the options leave of the fields that they may set.
  abbrev applied : List Text → VolumeConfig → VolumeConfig
  applied options config =
      with_options config (or_mode (last_mode options) config.read_only)
        (or_else (last_propagation propagations options) config.bind)
        (if elem (codes "nocopy") options then some true else config.volume)

  populate_options-applied :
      (options : List Text) (config : VolumeConfig)
      → populate_options propagations options config ≡ applied options config
  unfolding populate_options elem or_mode
  populate_options-applied [] config = refl
  populate_options-applied (o ∷ os) config =
      let reads = eq o (codes "ro") in
      let w = eq o (codes "rw") in
      let copy = eq o (codes "nocopy") in
      let prop = any (eq o) propagations in
      let later = elem (codes "nocopy") os in
      populate_options-applied os (populate_option propagations o config)
      ∙ ap
          (λ r.
            with_options config r
              (or_else (last_propagation propagations os)
                (if reads || w || copy then config.bind else if prop then some o else config.bind))
              (if later then some true else (if copy then some true else config.volume)))
          (mode_lem reads w (last_mode os) config.read_only)
      ∙ ap
          (λ b.
            with_options config (or_mode (last_mode (o ∷ os)) config.read_only) b
              (if later then some true else (if copy then some true else config.volume)))
          (bind_lem reads w copy prop (last_propagation propagations os) config.bind o)
      ∙ ap
          (λ v.
            with_options config (or_mode (last_mode (o ∷ os)) config.read_only)
              (or_else (last_propagation propagations (o ∷ os)) config.bind) v)
          (copy_lem copy later config.volume)

  is_file_path-is_path : (s : Text) → is_file_path propagations is_letter s ≡ is_path is_letter s
  unfolding is_file_path has_prefix
  is_file_path-is_path [] = refl
  is_file_path-is_path (c ∷ []) = ground arith
  is_file_path-is_path (c ∷ d ∷ s) = ground arith

  type_lem :
      (s t : Text) (r : Bool) (b : Option Text) (v : Option Bool)
      → Section propagations is_letter s
      → populate_type propagations is_letter (
          with_options (with_target propagations t (with_source propagations s empty_config)) r b v)
        ≡ record {
          volume_type = if is_path is_letter s then codes "bind" else codes "volume";
          source = s;
          target = t;
          read_only = r;
          bind = b;
          volume = v;
        }
  unfolding populate_type
  type_lem [] t r b v h = elim h [ ]
  type_lem (c ∷ s) t r b v h =
      let same = is_file_path-is_path (c ∷ s) in
      elim (Bool-cases (is_path is_letter (c ∷ s))) [
        | inl e ↦ rw (populate_type, same ∙ e, e) refl
        | inr e ↦ rw (populate_type, same ∙ e, e) refl
      ]

  pub described_lem :
      (s t : Text) (options : List Text)
      → Section propagations is_letter s
      → populate_type propagations is_letter (
          populate_options propagations options
            (with_target propagations t (with_source propagations s empty_config)))
        ≡ described propagations is_letter s t options
  described_lem s t options h =
      let base = with_target propagations t (with_source propagations s empty_config) in
      ap (populate_type propagations is_letter) (populate_options-applied options base)
      ∙ type_lem s t _ _ _ h
      ∙ ap
          (λ r.
            with_options (described propagations is_letter s t options) r
              (or_else (last_propagation propagations options) none)
              (if elem (codes "nocopy") options then some true else none))
          (is_read_only_lem (last_mode options))
      ∙ ap
          (λ b.
            with_options (described propagations is_letter s t options)
              (is_read_only (last_mode options)) b
              (if elem (codes "nocopy") options then some true else none))
          (or_none_lem (last_propagation propagations options))
