-- ===== src/Tests/Service.antt =====
-- cli/command/service/update.go on concrete specifications.
mod Shared
mod References
mod Modes
use docker_cli.Prelude.{
  ◌≡◌, refl, true, false, none, some, [], ◌∷◌, ◌++◌, List, if◌then◌else◌, is_some,
}
use docker_cli.Text.{Text, codes, eq, cut, join}
use docker_cli.Service.Flags.{ListFlag, remove_duplicates}
use docker_cli.Service.Lists.{
  update_groups, update_placement_constraints, update_dns_config, DnsFlags, DnsConfig,
}
use docker_cli.Service.Lists.Membership.{
  Edited, update_groups-Edited, update_placement_constraints-Edited, update_dns_config-Edited,
}
use docker_cli.Service.Hosts.{update_entry, update_hosts, fields, entry_line, HostMapping}
use docker_cli.Service.Hosts.Updated.{kept_entries, update_hosts-kept, update_entry-twice}
use docker_cli.Maps.{Map, elem}
use docker_cli.Maps.Keyed.{or_else, find_last}
use docker_cli.Sort.Laws.{IsSorted}
use docker_cli.Sort.Unique.{Unique}
use docker_cli.Service.Flags.{env_key}
use docker_cli.Service.Labels.{update_container_labels, update_labels, update_sys_ctls}
use docker_cli.Service.Labels.Lookup.{get, last_value, update_labels-get}
use docker_cli.Service.Environment.{UlimitFlag, update_environment, update_ulimits}
use docker_cli.Service.Environment.Lookup.{update_environment-find_last, update_ulimits-find_last}

abbrev same : ListFlag
same = record { changed = false; values = [] }

abbrev of : List Text → ListFlag
of vs = record { changed = true; values = vs }

abbrev hosts : List Text
hosts =
    codes "127.0.0.2 host3 host1 host2"
    ∷ codes "127.0.0.1 host1 host4"
    ∷ codes "127.0.0.3 host1"
    ∷ []

update_groups_test :
    update_groups
      (of (codes "b" ∷ codes "a" ∷ []))
      (of (codes "c" ∷ []))
      (codes "c" ∷ codes "d" ∷ [])
    ≡ codes "a" ∷ codes "b" ∷ codes "d" ∷ []
unfolding update_groups eq elem
update_groups_test = refl

update_hosts_test :
    update_hosts same (of (codes "host1" ∷ [])) hosts
    ≡ some (codes "127.0.0.2 host3 host2" ∷ codes "127.0.0.1 host4" ∷ [])
unfolding update_hosts eq elem cut join
update_hosts_test = refl

update_hosts_by_address :
    update_hosts same (of (codes "host1:127.0.0.1" ∷ [])) hosts
    ≡ some (
        codes "127.0.0.2 host3 host1 host2"
        ∷ codes "127.0.0.1 host4"
        ∷ codes "127.0.0.3 host1"
        ∷ [])
unfolding update_hosts eq elem cut join
update_hosts_by_address = refl

abbrev dns_flags : DnsFlags
dns_flags = record {
  dns_add = of (codes "1.1.1.1" ∷ []);
  dns_rm = same;
  search_add = same;
  search_rm = same;
  option_add = same;
  option_rm = same;
}

abbrev dns : DnsConfig
dns = record { nameservers = codes "1.1.1.1" ∷ []; search = []; options = [] }

update_hosts-kept_example :
    update_hosts same same hosts ≡ some (remove_duplicates (kept_entries [] hosts ++ []))
unfolding fields eq elem
update_hosts-kept_example =
    update_hosts-kept same same hosts
      ((refl, (refl, (refl, tt))), ((refl, (refl, tt)), ((refl, tt), tt)))

abbrev host1 : HostMapping
host1 = record { ip_addr = []; host = codes "host1" }

update_entry-twice_example :
    (update_entry (host1 ∷ []) (codes "127.0.0.1" ∷ codes "host1" ∷ codes "host1" ∷ []) ≡ none)
    × (update_entry
          (host1 ∷ [])
          (codes "127.0.0.1" ∷ codes "host1" ∷ codes "host1" ∷ codes "b" ∷ [])
        ≡ some (entry_line (codes "127.0.0.1") (codes "host1" ∷ codes "b" ∷ [])))
unfolding eq
update_entry-twice_example = update_entry-twice (codes "127.0.0.1") (codes "host1") (codes "b") refl

abbrev label_map : Map Text
label_map = (codes "a", codes "1") ∷ (codes "b", codes "2") ∷ []

update_labels_test :
    update_labels
      (of (codes "c=3" ∷ codes "c=4" ∷ []))
      (of (codes "a" ∷ codes "b=2" ∷ []))
      (some label_map)
    ≡ some ((codes "b", codes "2") ∷ (codes "c", codes "4") ∷ [])
unfolding update_labels eq cut
update_labels_test = refl

update_sys_ctls_test :
    update_sys_ctls same (of (codes "a" ∷ codes "b=7" ∷ [])) (some label_map) ≡ some []
unfolding update_sys_ctls eq cut
update_sys_ctls_test = refl

update_labels-get_example :
    (get (codes "a") (update_container_labels same (of (codes "a" ∷ [])) (some label_map))
      ≡ or_else none
          (if elem (codes "a") (codes "a" ∷ []) then none else get (codes "a") (some label_map)))
    × (get (codes "a") (update_labels same (of (codes "a" ∷ [])) (some label_map))
        ≡ or_else none
            (if elem (codes "a") (codes "a" ∷ []) then none else get (codes "a") (some label_map)))
    × (get (codes "a") (update_sys_ctls same (of (codes "a" ∷ [])) (some label_map))
        ≡ or_else none (
            if is_some (last_value (codes "a") (codes "a" ∷ []))
            then none
            else get (codes "a") (some label_map)))
update_labels-get_example =
    update_labels-get (codes "a") same (of (codes "a" ∷ [])) (some label_map)

update_environment_test :
    update_environment
      (of (codes "A=2" ∷ codes "C=3" ∷ []))
      (of (codes "B" ∷ []))
      (codes "A=1" ∷ codes "B=1" ∷ [])
    ≡ codes "A=2" ∷ codes "C=3" ∷ []
unfolding update_environment eq cut elem
update_environment_test = refl

-- A limit that is its name alone.
abbrev limits : UlimitFlag Text
limits = record { changed = true; values = codes "nofile" ∷ codes "core" ∷ [] }
