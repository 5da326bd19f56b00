-- ===== src/Tests/Mounts.antt =====
-- opts/mount.go on concrete values.
use docker_cli.Prelude.{◌≡◌, ◌↔◌, refl, [], ◌∷◌, ◌++◌, List, some, none, ok, true}
use docker_cli.Text.{Text, codes, cut, eq, split, has_prefix, lower}
use docker_cli.Opts.Mounts.Fields.{Libraries, Mount, empty_mount, parse_fields}
use docker_cli.Opts.Mounts.{MountOpt, set_mount}
use docker_cli.Opts.Mounts.Valid.{IsValid, set_mount_iff}
use docker_cli.Maps.{insert}

-- Fields without quotes.
abbrev plain : Libraries
plain = record {
  csv_read = λ s. some (split s b',');
  parse_bool = λ s. some true;
  ram_in_bytes = λ s. none;
  parse_mode = λ s. none;
  abs_path = λ s. some s;
  fold = λ c. c;
}

abbrev no_mounts : MountOpt
no_mounts = record { values = [] }

abbrev cache : Mount
cache = record empty_mount { target = codes "/cache" }

abbrev one_mount : MountOpt
one_mount = record { values = cache ∷ [] }

set_mount_test : set_mount plain no_mounts (codes "target=/cache") ≡ ok one_mount
unfolding set_mount eq cut has_prefix lower insert split
set_mount_test = refl

set_mount_iff_example : (set_mount plain no_mounts (codes "target=/cache") ≡ ok one_mount) ↔ (
    (fields : List Text) × (m : Mount) × (plain.csv_read (codes "target=/cache") ≡ some fields)
    × (parse_fields plain fields empty_mount ≡ ok m)
    × IsValid m
    × (one_mount ≡ record { values = no_mounts.values ++ m ∷ [] }))
set_mount_iff_example = set_mount_iff plain no_mounts (codes "target=/cache") one_mount
