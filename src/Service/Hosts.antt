-- ===== src/Service/Hosts.antt =====
-- `updateHosts` of cli/command/service/update.go, with `convertExtraHostsToSwarmHosts` of
-- cli/command/service/opts.go. Each entry is `IP_address canonical_hostname [aliases…]`.
pub mod Kept
pub mod Updated
use docker_cli.Prelude.{
  ℕ, zero, suc, ◌+◌, Bool, not, ◌&&◌, Option, none, some, List, [], ◌∷◌, ◌++◌, if◌then◌else◌,
  length, ltb,
}
use docker_cli.Text.{Text, codes, eq, cut3, is_space, join}
use docker_cli.Template.Functions.{is_empty}
use docker_cli.Service.Flags.{ListFlag, remove_duplicates}
use docker_cli.Service.Slices.{Slice, full, items, remove_scan}

-- `strings.Fields`, with the word read so far.
unfoldable pub fields_from : Text → Text → List Text
unfolding is_space
fields_from word [] = if is_empty word then [] else word ∷ []
fields_from word (c ∷ s) =
    let longer = fields_from (word ++ c ∷ []) s in
    let rest = fields_from [] s in
    if not (is_space c) then longer else if is_empty word then rest else word ∷ rest

unfoldable pub fields : Text → List Text
unfolding fields_from
fields s = fields_from [] s

pub record HostMapping : Type 0 where
  pub ip_addr : Text
  pub host : Text

-- The loop that fills `toRemove`.
unfoldable pub mappings : List Text → List HostMapping
mappings [] = []
mappings (entry ∷ entries) =
    record { ip_addr = (cut3 entry (codes ":")).1; host = (cut3 entry (codes ":")).0 }
    ∷ mappings entries

-- The test of the inner loop's `continue`.
abbrev pub passes_over : HostMapping → Text → Bool
passes_over rm ip = not (is_empty rm.ip_addr) && not (eq rm.ip_addr ip)

-- The loop over `toRemove`; `none` is a panic.
unfoldable pub remove_hosts : List HostMapping → Text → Slice → Option Slice
unfolding remove_scan
remove_hosts [] ip names = some names
remove_hosts (rm ∷ to_remove) ip names =
    let next = remove_hosts to_remove ip in
    let removed : Option Slice = elim (remove_scan rm.host 0 names.len names) [
      | none ↦ none
      | some names' ↦ next names'
    ] in
    let passed = next names in if passes_over rm ip then passed else removed

-- The line of an entry, and no line where no name is left.
abbrev pub entry_line : Text → List Text → List Text
entry_line ip [] = []
entry_line ip (n ∷ names) = (ip ++ (codes " " ++ join (n ∷ names) (codes " "))) ∷ []

-- One round of the loop over the entries.
unfoldable pub update_entry : List HostMapping → List Text → Option (List Text)
unfolding remove_hosts
update_entry to_remove [] = some []
update_entry to_remove (ip ∷ names) = elim (remove_hosts to_remove ip (full names)) [
  | none ↦ none
  | some left ↦ some (entry_line ip (items left))
]

unfoldable pub update_entries : List HostMapping → List Text → Option (List Text)
unfolding update_entry fields
update_entries to_remove [] = some []
update_entries to_remove (entry ∷ hosts) = elim (update_entry to_remove (fields entry)) [
  | none ↦ none
  | some lines ↦ elim (update_entries to_remove hosts) [
    | none ↦ none
    | some rest ↦ some (lines ++ rest)
  ]
]

unfoldable pub convert_extra_hosts_to_swarm_hosts : List Text → List Text
convert_extra_hosts_to_swarm_hosts [] = []
convert_extra_hosts_to_swarm_hosts (extra_host ∷ extra_hosts) =
    let (host, ip, found) = cut3 extra_host (codes ":") in
    let rest = convert_extra_hosts_to_swarm_hosts extra_hosts in
    if found then (ip ++ (codes " " ++ host)) ∷ rest else rest

-- `updateHosts`; `none` is a panic.
unfoldable pub update_hosts : ListFlag → ListFlag → List Text → Option (List Text)
unfolding mappings update_entries convert_extra_hosts_to_swarm_hosts remove_duplicates
update_hosts host_add host_rm hosts =
    let to_remove = if host_rm.changed then mappings host_rm.values else [] in
    let values =
      if host_add.changed then convert_extra_hosts_to_swarm_hosts host_add.values else [] in
    elim (update_entries to_remove hosts) [
      | none ↦ none
      | some new_hosts ↦ some (remove_duplicates (new_hosts ++ values))
    ]
