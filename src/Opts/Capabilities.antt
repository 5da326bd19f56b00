-- ===== src/Opts/Capabilities.antt =====
-- opts/capabilities.go. A `map[string]bool` whose entries are all true is the list of its keys.
pub mod Effective
use docker_cli.Prelude.{ℕ, Bool, not, ◌||◌, List, [], ◌∷◌, ◌++◌, map, if◌then◌else◌}
use docker_cli.Text.{Text, codes, eq, has_prefix, trim_space, upper}
use docker_cli.Maps.{elem}
use docker_cli.Sort.{sort_strings}
use docker_cli.Sort.Unique.{add_member}

abbrev pub all_capabilities : Text
all_capabilities = codes "ALL"

abbrev pub reset_capabilities : Text
reset_capabilities = codes "RESET"

-- The second half of `NormalizeCapability`.
abbrev pub with_prefix : Text → Text
with_prefix capability =
    if eq capability all_capabilities || eq capability reset_capabilities
    then capability
    else if not (has_prefix capability (codes "CAP_"))
    then codes "CAP_" ++ capability
    else capability

-- The loop over `dropCaps` in `EffectiveCapAddCapDrop`.
unfoldable pub effective_drop : List Text → List Text → List Text
unfolding elem
effective_drop add_caps [] = []
effective_drop add_caps (c ∷ drop_caps) =
    let rest = effective_drop add_caps drop_caps in
    if elem c add_caps then rest else if not (eq c reset_capabilities) then c ∷ rest else rest

-- The loop over `addCaps`.
unfoldable pub effective_add : List Text → List Text
effective_add [] = []
effective_add (c ∷ add_caps) =
    let rest = effective_add add_caps in if not (eq c reset_capabilities) then c ∷ rest else rest

-- The special case of `ALL`.
abbrev pub or_all : List Text → List Text
or_all caps = if elem all_capabilities caps then all_capabilities ∷ [] else caps

-- `unicode.ToUpper` outside ASCII is `fold`.
module _ (fold : ℕ → ℕ) where
  -- `NormalizeCapability`
  unfoldable pub normalize_capability : Text → Text
  unfolding trim_space upper eq has_prefix
  normalize_capability capability = with_prefix (map (upper fold) (trim_space capability))

  -- `CapabilitiesMap`, over the map so far.
  unfoldable pub capabilities_onto : List Text → List Text → List Text
  unfolding normalize_capability add_member
  capabilities_onto [] normalized = normalized
  capabilities_onto (c ∷ caps) normalized =
      capabilities_onto caps (add_member (normalize_capability c) normalized)

  unfoldable pub capabilities_map : List Text → List Text
  unfolding capabilities_onto
  capabilities_map caps = capabilities_onto caps []

  -- `EffectiveCapAddCapDrop`
  unfoldable pub effective_cap_add_cap_drop : List Text → List Text → List Text × List Text
  unfolding capabilities_map effective_drop effective_add sort_strings elem
  effective_cap_add_cap_drop add drop =
      let add_caps = or_all (capabilities_map add) in
      let drop_caps = or_all (capabilities_map drop) in
      (sort_strings (effective_add add_caps), sort_strings (effective_drop add_caps drop_caps))
