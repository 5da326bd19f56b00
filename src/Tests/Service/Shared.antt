-- ===== src/Tests/Service/Shared.antt =====
-- Capabilities, mounts and ports in cli/command/service/update.go.
use docker_cli.Prelude.{◌≡◌, refl, true, false, some, List, [], ◌∷◌, ℕ, any}
use docker_cli.Text.{Text, codes, eq}
use docker_cli.Maps.{elem, has_key}
use docker_cli.Maps.Index.{at_key}
use docker_cli.Service.Flags.{ListFlag, build_to_remove_set}
use docker_cli.Service.Capabilities.{Caps, update_capabilities}
use docker_cli.Service.Capabilities.Updated.{IsUpdated, update_capabilities-IsUpdated}
use docker_cli.Service.Mounts.{MountFlag, update_mounts}
use docker_cli.Service.Mounts.Updated.{MountsOrError, update_mounts-MountsOrError}
use docker_cli.Service.Ports.{
  PortConfig, PortFlag, update_ports, port_config_to_string, equal_protocol, equal_publish_mode,
}
use docker_cli.Service.Ports.Updated.{IsPublished, update_ports-IsPublished, update_ports-lost}

abbrev same : ListFlag
same = record { changed = false; values = [] }

abbrev of : List Text → ListFlag
of vs = record { changed = true; values = vs }

abbrev dropped_a : Caps
dropped_a = record { cap_add = []; cap_drop = codes "CAP_A" ∷ [] }

abbrev no_caps : Caps
no_caps = record { cap_add = []; cap_drop = [] }

update_capabilities_test :
    update_capabilities (λ c. c) (of (codes "a" ∷ [])) same dropped_a ≡ no_caps
unfolding update_capabilities elem eq
update_capabilities_test = refl

update_capabilities-IsUpdated_example :
    IsUpdated
      (λ c. c)
      (of (codes "a" ∷ []))
      same
      dropped_a
      (update_capabilities (λ c. c) (of (codes "a" ∷ [])) same dropped_a)
update_capabilities-IsUpdated_example =
    update_capabilities-IsUpdated (λ c. c) (of (codes "a" ∷ [])) same dropped_a

-- A mount that is its target and its source.
abbrev TestMount : Type 0
TestMount = Text × Text

abbrev mount_add : MountFlag TestMount
mount_add = record { changed = true; values = (codes "/a", codes "new") ∷ [] }

abbrev mounts : List TestMount
mounts = (codes "/a", codes "old") ∷ (codes "/b", codes "b") ∷ (codes "/c", codes "c") ∷ []

update_mounts_test :
    update_mounts (λ m. m.0) (λ m. m.1) mount_add (of (codes "/c" ∷ [])) mounts
    ≡ some ((codes "/b", codes "b") ∷ (codes "/a", codes "new") ∷ [])
unfolding update_mounts eq elem has_key
update_mounts_test = refl

update_mounts-MountsOrError_example :
    MountsOrError
      (λ m. m.0)
      (λ m. m.1)
      mount_add.values
      mounts
      (build_to_remove_set (of (codes "/c" ∷ [])))
      (update_mounts (λ m. m.0) (λ m. m.1) mount_add (of (codes "/c" ∷ [])) mounts)
update_mounts-MountsOrError_example =
    update_mounts-MountsOrError (λ m. m.0) (λ m. m.1) mount_add (of (codes "/c" ∷ [])) mounts

abbrev port : ℕ → PortConfig
port n = record {
  name = [];
  protocol = codes "tcp";
  target_port = n;
  published_port = n;
  publish_mode = codes "ingress";
}

abbrev publish : List PortConfig → PortFlag
publish ps = record { changed = true; values = ps }

-- A port as one digit.
abbrev digit : ℕ → Text
digit n = n ∷ []

update_ports_test :
    update_ports digit (publish (port 81 ∷ port 83 ∷ [])) (port 81 ∷ []) (port 82 ∷ port 81 ∷ [])
    ≡ port 82 ∷ port 83 ∷ []
unfolding update_ports eq has_key equal_protocol equal_publish_mode
update_ports_test = refl

update_ports-IsPublished_example :
    IsPublished digit
      (publish (port 81 ∷ []))
      (port 82 ∷ [])
      (port 82 ∷ [])
      (update_ports digit (publish (port 81 ∷ [])) (port 82 ∷ []) (port 82 ∷ []))
update_ports-IsPublished_example =
    update_ports-IsPublished digit (publish (port 81 ∷ [])) (port 82 ∷ []) (port 82 ∷ [])

update_ports-lost_example :
    any
      (at_key (port_config_to_string digit) (port_config_to_string digit (port 82)) (λ _. true))
      (update_ports digit (publish (port 82 ∷ [])) (port 82 ∷ []) (port 82 ∷ []))
    ≡ false
unfolding eq port_config_to_string equal_protocol equal_publish_mode
update_ports-lost_example =
    update_ports-lost digit (publish (port 82 ∷ [])) (port 82 ∷ []) (port 82 ∷ []) (port 82)
      (λ _. true) refl refl
