-- ===== src/Tests/Interpolation.antt =====
-- cli/compose/interpolation/interpolation.go on concrete documents.
use docker_cli.Prelude.{◌≡◌, refl, true, false, none, some, [], ◌∷◌, if◌then◌else◌, ok, err}
use docker_cli.Text.{Text, codes, eq, join}
use docker_cli.Template.Functions.{Mapping}
use docker_cli.Interpolation.Value.{text, mapping, other, Members, no_members, member}
use docker_cli.Interpolation.Interpolate.{
  Cast, GivenOptions, invalid_format, interpolate, with_defaults,
}
use docker_cli.Interpolation.Interpolate.Replaced.{Interpolated, interpolate-Interpolated}

abbrev environment : Mapping
environment name = if eq name (codes "N") then (codes "1", true) else ([], false)

-- Numbers are the other values, and a cast reads the text `1`.
abbrev to_one : Cast Text Text
to_one s = if eq s (codes "1") then ok (other s) else err (codes "not one")

abbrev given : GivenOptions Text Text
given = record {
  lookup_value = none;
  type_cast_mapping = some ((codes "services.*.replicas", to_one) ∷ []);
  substitute = none;
}

abbrev service : Text → Members Text
service s =
    member (codes "services")
      (mapping
        (member (codes "web") (mapping (member (codes "replicas") (text s) no_members)) no_members))
      no_members

interpolate_test :
    interpolate environment (service (codes "${N}")) given
    ≡ ok (
        member
          (codes "services")
          (mapping (
            member
              (codes "web")
              (mapping (member (codes "replicas") (other (codes "1")) no_members))
              no_members))
          no_members)
unfolding interpolate eq join
interpolate_test = refl

interpolate_error :
    interpolate environment (service (codes "$")) given
    ≡ err (invalid_format (codes "services.web.replicas") (codes "$"))
unfolding interpolate eq join
interpolate_error = refl

interpolate-Interpolated_example :
    Interpolated
      (with_defaults environment given)
      (service (codes "${N}"))
      (interpolate environment (service (codes "${N}")) given)
interpolate-Interpolated_example =
    interpolate-Interpolated environment (service (codes "${N}")) given
