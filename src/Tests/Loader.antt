-- ===== src/Tests/Loader.antt =====
-- cli/compose/loader on concrete specifications: volume.go, windows_path.go and merge.go.
use docker_cli.Maps.{Map}
use docker_cli.Maps.Keyed.{find_last}
use docker_cli.Template.Functions.{is_empty}
use docker_cli.Loader.Merge.{merge_services, Config, merge, LoggingConfig, merge_logging_config}
use docker_cli.Loader.Merge.Named.{MergedOrError, merge_services-MergedOrError}
use docker_cli.Loader.Merge.Files.{merged_across, merge-merged_across, merge_logging_config-none}
use docker_cli.Prelude.{
  ◌≡◌, refl, ℕ, Bool, true, none, some, List, [], ◌∷◌, ◌++◌, ◌&&◌, ◌||◌, leb, arith, inl, inr, ◌≤◌,
  not, ◌==◌, drop, length, ap, sym, ok_lem, ok, Result, Option,
}
use docker_cli.Text.{Text, codes, eq, split, has_prefix}
use docker_cli.Loader.Volume.{colon, parse_volume, too_many_colons}
use docker_cli.Loader.WindowsPaths.{volume_name_len, starts_with_slash, is_abs}
use docker_cli.Loader.WindowsPaths.Volumes.{volume_part, is_abs-volume_part}
use docker_cli.Loader.Volume.Described.{described}
use docker_cli.Loader.Volume.Parsed.{parse_volume-sections}

abbrev is_letter : ℕ → Bool
is_letter c = (leb b'A' c && leb c b'Z') || (leb b'a' c && leb c b'z')

abbrev propagations : List Text
propagations = codes "rprivate" ∷ []

parse_volume_test : parse_volume propagations is_letter (codes "C:\\d:/c:ro,rprivate") ≡ (
  record {
    volume_type = codes "bind";
    source = codes "C:\\d";
    target = codes "/c";
    read_only = true;
    bind = some (codes "rprivate");
    volume = none;
  },
  none,
)
unfolding parse_volume eq split has_prefix
parse_volume_test = refl

parse_volume-sections_example :
    (parse_volume propagations is_letter (codes "C:d" ++ colon ∷ codes "cc")
      ≡ (described propagations is_letter (codes "C:d") (codes "cc") [], none))
    × (parse_volume propagations is_letter
          (codes "C:d" ++ colon ∷ (codes "cc" ++ colon ∷ codes "ro"))
        ≡ (
          described propagations is_letter (codes "C:d") (codes "cc") (split (codes "ro") b','),
          none,
        ))
    × (parse_volume propagations is_letter
          (codes "C:d" ++ colon ∷ (codes "cc" ++ colon ∷ (codes "ro" ++ colon ∷ codes "x")))
        ≡ (described propagations is_letter (codes "C:d") (codes "cc") [], some too_many_colons))
parse_volume-sections_example =
    parse_volume-sections propagations is_letter (codes "C:d") (codes "cc") (codes "ro") (codes "x")
      (omega arith, omega arith, inr (codes "d", refl, refl, (omega arith, tt), (omega arith, tt)))
      (omega arith, omega arith, inl (refl, (omega arith, tt), (omega arith, tt)))
      (omega arith, omega arith, inl (refl, (omega arith, tt), (omega arith, tt)))

is_abs-volume_part_example :
    (volume_name_len (codes "C:x") ≡ some (volume_part (codes "C:x")))
    × (volume_part (codes "C:x") ≤ length (codes "C:x"))
    × (is_abs (codes "C:x")
        ≡ some (
            not (volume_part (codes "C:x") == 0)
            && starts_with_slash (drop (volume_part (codes "C:x")) (codes "C:x"))))
is_abs-volume_part_example = is_abs-volume_part (codes "C:x")

-- A service by its name and its image, of which the later wins.
abbrev service_name : Text × Text → Text
service_name s = s.0

abbrev later : Text × Text → Text × Text → Result Text (Text × Text)
later b o = ok o

later_name :
    (b o c : Text × Text)
    → service_name b ≡ service_name o
    → later b o ≡ ok c
    → service_name c ≡ service_name o
later_name b o c e r = ap service_name (sym (ok_lem r))

abbrev web_and_db : List (Text × Text)
web_and_db = (codes "web", codes "nginx") ∷ (codes "db", codes "pg") ∷ []

abbrev new_web : List (Text × Text)
new_web = (codes "web", codes "caddy") ∷ []

merge_services_test :
    merge_services service_name later web_and_db new_web
    ≡ ok ((codes "db", codes "pg") ∷ (codes "web", codes "caddy") ∷ [])
unfolding merge_services eq
merge_services_test = refl

merge_services-MergedOrError_example :
    MergedOrError service_name later later_name web_and_db new_web
      (merge_services service_name later web_and_db new_web)
merge_services-MergedOrError_example =
    merge_services-MergedOrError service_name later later_name web_and_db new_web

abbrev file_of : Text → List (Text × Text) → Config (Text × Text) Text Text Text Text
file_of filename services = record {
  filename = filename;
  version = codes "3";
  services = services;
  volumes = [];
  networks = [];
  secrets = [];
  configs = [];
}

abbrev later_map : (T : Type 0) → Map T → Map T → Result Text (Map T)
later_map T base override = ok override

abbrev both : Config (Text × Text) Text Text Text Text
both = file_of (codes "base") ((codes "db", codes "pg") ∷ (codes "web", codes "caddy") ∷ [])

merge_test :
    merge service_name later later_map
      (file_of (codes "base") web_and_db)
      (file_of (codes "more") new_web ∷ [])
    ≡ ok both
unfolding merge eq
merge_test = refl

merge-merged_across_example :
    ok (find_last service_name (codes "web") both.services)
    ≡ merged_across service_name later later_map later_name
        (codes "web")
        (find_last service_name (codes "web") web_and_db)
        (file_of (codes "more") new_web ∷ [])
merge-merged_across_example =
    merge-merged_across service_name later later_map later_name (file_of (codes "base") web_and_db)
      both (file_of (codes "more") new_web ∷ []) (codes "web") merge_test

abbrev json_file : Option (Map Text) → LoggingConfig
json_file options = record { driver = codes "json-file"; options = options }

abbrev only_options : Option (Map Text) → Option (Map Text) → Result Text (Map Text)
only_options dst none = ok []
only_options dst (some options) = ok options

merge_logging_test :
    merge_logging_config only_options
      (json_file none)
      (json_file (some ((codes "max-size", codes "1m") ∷ [])))
    ≡ ok (json_file none)
unfolding merge_logging_config
merge_logging_test = refl

json_drivers :
    (eq (codes "json-file") (codes "json-file")
      || is_empty (codes "json-file")
      || is_empty (codes "json-file"))
    ≡ true
unfolding eq
json_drivers = refl

merge_logging_config-none_example : (json_file none).options ≡ none
merge_logging_config-none_example =
    merge_logging_config-none only_options (json_file none)
      (json_file (some ((codes "max-size", codes "1m") ∷ []))) (json_file none) json_drivers refl
      merge_logging_test
