-- ===== src/Service/Ports.antt =====
-- `updatePorts` of cli/command/service/update.go, with `portConfigToString`, `equalProtocol` and
-- `equalPublishMode`.
pub mod Updated
use docker_cli.Prelude.{ℕ, ◌==◌, Bool, not, ◌&&◌, ◌||◌, List, [], ◌∷◌, ◌++◌, any, if◌then◌else◌}
use docker_cli.Text.{Text, codes, eq}
use docker_cli.Maps.{Map, has_key, insert, values}
use docker_cli.Maps.Index.{put_absent}
use docker_cli.Sort.{text_le, sort_with}
use docker_cli.Template.Functions.{is_empty}

-- `swarm.PortConfig`, of the engine's API: the fields that the function reads, and the name.
pub record PortConfig : Type 0 where
  pub name : Text
  pub protocol : Text
  pub target_port : ℕ
  pub published_port : ℕ
  pub publish_mode : Text

-- `equalProtocol`
unfoldable pub equal_protocol : Text → Text → Bool
unfolding eq
equal_protocol prot1 prot2 =
    eq prot1 prot2
    || (is_empty prot1 && eq prot2 (codes "tcp"))
    || (is_empty prot2 && eq prot1 (codes "tcp"))

-- `equalPublishMode`
unfoldable pub equal_publish_mode : Text → Text → Bool
unfolding eq
equal_publish_mode mode1 mode2 =
    eq mode1 mode2
    || (is_empty mode1 && eq mode2 (codes "ingress"))
    || (is_empty mode2 && eq mode1 (codes "ingress"))

-- The test under which the loop goes on to the next port.
abbrev pub is_removed_by : PortConfig → PortConfig → Bool
is_removed_by port p_config =
    equal_protocol port.protocol p_config.protocol
    && port.target_port == p_config.target_port
    && equal_publish_mode port.publish_mode p_config.publish_mode

-- The loop `portLoop`.
unfoldable pub clean_ports : List PortConfig → List PortConfig → List PortConfig
unfolding equal_protocol equal_publish_mode
clean_ports to_remove [] = []
clean_ports to_remove (port ∷ ports) =
    let rest = clean_ports to_remove ports in
    if any (is_removed_by port) to_remove then rest else port ∷ rest

-- `flagPublishAdd`, an `*opts.PortOpt`.
pub record PortFlag : Type 0 where
  pub changed : Bool
  pub values : List PortConfig

-- `%v` of a `uint32` is `show`.
module _ (show : ℕ → Text) where
  -- `portConfigToString`
  unfoldable pub port_config_to_string : PortConfig → Text
  port_config_to_string port_config =
      show port_config.published_port
      ++ (codes ":"
          ++ (show port_config.target_port
              ++ (codes "/" ++ (port_config.protocol ++ (codes "/" ++ port_config.publish_mode)))))

  -- The loop over the added ports.
  unfoldable pub fresh_ports : Map PortConfig → List PortConfig → List PortConfig
  unfolding port_config_to_string has_key
  fresh_ports port_set [] = []
  fresh_ports port_set (port ∷ ports) =
      let rest = fresh_ports port_set ports in
      if has_key (port_config_to_string port) port_set then rest else port ∷ rest

  abbrev pub port_le : PortConfig → PortConfig → Bool
  port_le a b = text_le (port_config_to_string a) (port_config_to_string b)

  -- `updatePorts`; `to_remove` is the value of `flagPublishRemove`.
  unfoldable pub update_ports : PortFlag → List PortConfig → List PortConfig → List PortConfig
  unfolding put_absent clean_ports fresh_ports sort_with text_le
  update_ports publish_add to_remove port_config =
      let port_set = put_absent port_config_to_string port_config [] in
      let kept = clean_ports to_remove (values port_set) in
      let added = if publish_add.changed then fresh_ports port_set publish_add.values else [] in
      sort_with port_le (kept ++ added)
