-- ===== src/Service/Lists.antt =====
-- The flat lists of cli/command/service/update.go: groups, placement constraints, DNS settings.
pub mod Membership
use docker_cli.Prelude.{List, [], ◌∷◌, ◌++◌, if◌then◌else◌}
use docker_cli.Text.{Text}
use docker_cli.Sort.{sort_strings}
use docker_cli.Service.Flags.{ListFlag, build_to_remove_set, remove_items, remove_duplicates}

-- `updateGroups`, on the list that it writes.
unfoldable pub update_groups : ListFlag → ListFlag → List Text → List Text
unfolding build_to_remove_set remove_items sort_strings
update_groups group_add group_rm groups =
    let groups' = if group_add.changed then groups ++ group_add.values else groups in
    sort_strings (remove_items groups' (build_to_remove_set group_rm) (λ g. g))

-- `updatePlacementConstraints`, on `placement.Constraints`.
unfoldable pub update_placement_constraints : ListFlag → ListFlag → List Text → List Text
unfolding build_to_remove_set remove_items sort_strings
update_placement_constraints constraint_add constraint_rm constraints =
    let constraints' =
      if constraint_add.changed then constraints ++ constraint_add.values else constraints in
    sort_strings (remove_items constraints' (build_to_remove_set constraint_rm) (λ c. c))

-- `swarm.DNSConfig`
pub record DnsConfig : Type 0 where
  pub nameservers : List Text
  pub search : List Text
  pub options : List Text

-- One of the three lists of `updateDNSConfig`.
unfoldable pub update_dns_list : ListFlag → ListFlag → List Text → List Text
unfolding build_to_remove_set remove_items remove_duplicates sort_strings
update_dns_list dns_add dns_rm entries =
    let entries' = if dns_add.changed then entries ++ dns_add.values else entries in
    sort_strings (remove_items (remove_duplicates entries') (build_to_remove_set dns_rm) (λ e. e))

-- The flags that `updateDNSConfig` reads.
pub record DnsFlags : Type 0 where
  pub dns_add : ListFlag
  pub dns_rm : ListFlag
  pub search_add : ListFlag
  pub search_rm : ListFlag
  pub option_add : ListFlag
  pub option_rm : ListFlag

-- `updateDNSConfig`
unfoldable pub update_dns_config : DnsFlags → DnsConfig → DnsConfig
unfolding update_dns_list
update_dns_config flags config = record {
  nameservers = update_dns_list flags.dns_add flags.dns_rm config.nameservers;
  search = update_dns_list flags.search_add flags.search_rm config.search;
  options = update_dns_list flags.option_add flags.option_rm config.options;
}
