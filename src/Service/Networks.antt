-- ===== src/Service/Networks.antt =====
-- `updateNetworks` of cli/command/service/update.go. A request to the engine for a network is a
-- parameter, `inspect`: the identifier of the network that a name or identifier stands for.
pub mod Attached
use docker_cli.Prelude.{
  Bool, true, false, Option, none, some, List, [], ◌∷◌, ◌++◌, if◌then◌else◌, Result, ok, err, ◌>>=◌,
  map, guard, not, ◌>>◌,
}
use docker_cli.Text.{Text}
use docker_cli.Maps.{Map, elem}
use docker_cli.Sort.{sort_by}
use docker_cli.Service.Flags.{ListFlag, build_to_remove_set}

-- `swarm.NetworkAttachmentConfig`; an `opts.NetworkAttachmentOpts` is read by the same fields.
pub record Attachment : Type 0 where
  pub target : Text
  pub aliases : List Text
  pub driver_opts : Map Text

-- `flagNetworkAdd`: `Changed`, and what `convertNetworks` makes of its value.
pub record NetworkFlag : Type 0 where
  pub changed : Bool
  pub networks : List Attachment

pub data NetworkError : Type 0 where
  not_found : Text → NetworkError
  already_attached : Text → NetworkError

-- The networks of `spec.TaskTemplate`, or the deprecated ones if there are none.
abbrev pub spec_networks : List Attachment → List Attachment → List Attachment
spec_networks [] old_networks = old_networks
spec_networks (nw ∷ networks) old_networks = nw ∷ networks

module _ (inspect : Text → Option Text) where
  -- `resolveNetworkID`
  abbrev pub resolve_network_id : Text → Result NetworkError Text
  resolve_network_id name = elim (inspect name) [ none ↦ err (not_found name) | some id ↦ ok id ]

  -- The loop that makes `idsToRemove`, a set as the list of its members.
  unfoldable pub ids_to_remove : List Text → Result NetworkError (List Text)
  ids_to_remove [] = ok []
  ids_to_remove (name ∷ names) = do
    id ← resolve_network_id name
    ids ← ids_to_remove names
    ok (id ∷ ids)

  -- The loop over the networks of the specification.
  unfoldable pub keep_networks : List Text → List Attachment → List Attachment
  unfolding elem
  keep_networks ids [] = []
  keep_networks ids (nw ∷ networks) =
      let rest = keep_networks ids networks in if elem nw.target ids then rest else nw ∷ rest

  -- The loop over the new networks, with the networks so far; `existingNetworks` is the set of their
  -- targets.
  unfoldable pub add_networks :
      List Attachment → List Attachment → Result NetworkError (List Attachment)
  unfolding elem
  add_networks so_far [] = ok so_far
  add_networks so_far (nw ∷ networks) = do
    id ← resolve_network_id nw.target
    guard (not (elem id (map (λ n. n.target) so_far))) (already_attached nw.target)
    add_networks (so_far ++ (record nw { target = id } ∷ [])) networks

  -- `updateNetworks`, on `spec.TaskTemplate.Networks` and `spec.Networks`, of which it leaves the
  -- second empty.
  unfoldable pub update_networks :
      ListFlag
      → NetworkFlag
      → List Attachment
      → List Attachment
      → Result NetworkError (List Attachment)
  unfolding build_to_remove_set ids_to_remove keep_networks add_networks sort_by
  update_networks network_rm network_add networks old_networks = do
    ids ← ids_to_remove (build_to_remove_set network_rm)
    new ←
        add_networks (keep_networks ids (spec_networks networks old_networks))
          (if network_add.changed then network_add.networks else [])
    ok (sort_by (λ nw. nw.target) new)
