-- ===== src/Service/Hosts/Updated.antt =====
-- `updateHosts` of cli/command/service/update.go as a whole: a specification by filtering, which it
-- meets on entries that name each host once, and what it does where a host is named twice.
use docker_cli.Prelude.{
  ◌≡◌, refl, sym, false, none, some, List, [], ◌∷◌, ◌++◌, if◌then◌else◌, append-nil, arith,
  Bool-cases, inl, inr, All,
}
use docker_cli.Text.{Text, eq}
use docker_cli.Text.Laws.{eq_refl}
use docker_cli.Maps.{elem}
use docker_cli.Sort.Unique.{Unique}
use docker_cli.Service.Flags.{ListFlag, remove_items, remove_duplicates}
use docker_cli.Service.Lists.Membership.{remove_items-Unique}
use docker_cli.Service.Slices.{Slice, full}
use docker_cli.Service.Hosts.{
  HostMapping, mappings, passes_over, remove_hosts, entry_line, fields, update_entry,
  update_entries, convert_extra_hosts_to_swarm_hosts, update_hosts,
}
use docker_cli.Service.Hosts.Kept.{Shows, items-Shows, without, remove_scan-Shows}

-- The hosts that the mappings remove from an entry of this address.
abbrev pub removed_from : Text → List HostMapping → List Text
removed_from ip [] = []
removed_from ip (rm ∷ rms) =
    if passes_over rm ip then removed_from ip rms else rm.host ∷ removed_from ip rms

remove_items_nil : (names : List Text) → remove_items names [] (λ n. n) ≡ names
unfolding remove_items elem
remove_items_nil [] = refl
remove_items_nil (n ∷ names) = rw (remove_items_nil names)

remove_items_twice :
    (host : Text) (names rm : List Text)
    → remove_items (without host names) rm (λ n. n) ≡ remove_items names (host ∷ rm) (λ n. n)
unfolding remove_items elem
remove_items_twice host [] rm = refl
remove_items_twice host (n ∷ names) rm = ground (arith, remove_items_twice host names rm)

remove_hosts-Shows :
    (rms : List HostMapping) (ip : Text) (s : Slice) (names : List Text)
    → Shows s names
    → Unique names
    → (s' : Slice) × (remove_hosts rms ip s ≡ some s')
      × Shows s' (remove_items names (removed_from ip rms) (λ n. n))
unfolding remove_hosts
remove_hosts-Shows [] ip s names h u = (s, refl, rw (remove_items_nil names) h)
remove_hosts-Shows (rm ∷ rms) ip s names h u = elim (Bool-cases (passes_over rm ip)) [
  | inl e ↦
      let (s', run, shown) = remove_hosts-Shows rms ip s names h u in (s', rw e run, rw e shown)
  | inr e ↦
      let (s₁, first, h₁) = remove_scan-Shows rm.host s names h u in
      let (s', run, shown) =
        remove_hosts-Shows rms ip s₁ (without rm.host names) h₁ (remove_items-Unique names _ u) in
      (
        s',
        rw (e, first) run,
        rw e (rw (remove_items_twice rm.host names (removed_from ip rms)) at shown),
      )
]

-- What should be left of an entry.
abbrev pub kept_entry : List HostMapping → List Text → List Text
kept_entry rms [] = []
kept_entry rms (ip ∷ names) = entry_line ip (remove_items names (removed_from ip rms) (λ n. n))

abbrev pub kept_entries : List HostMapping → List Text → List Text
kept_entries rms [] = []
kept_entries rms (entry ∷ hosts) = kept_entry rms (fields entry) ++ kept_entries rms hosts

-- An entry names no host twice.
abbrev pub NamesOnce : List Text → Type 0
NamesOnce [] = Unit
NamesOnce (ip ∷ names) = Unique names

update_entry-kept :
    (rms : List HostMapping) (parts : List Text)
    → NamesOnce parts
    → update_entry rms parts ≡ some (kept_entry rms parts)
unfolding update_entry
update_entry-kept rms [] h = refl
update_entry-kept rms (ip ∷ names) u =
    let shown : Shows (full names) names = record {
      behind = [];
      array_is = sym (append-nil names);
      len_is = refl;
    } in
    let (s', run, left) = remove_hosts-Shows rms ip (full names) names shown u in
    rw (run, update_entry, items-Shows s' _ left)

update_entries-kept :
    (rms : List HostMapping) (hosts : List Text)
    → All (λ entry. NamesOnce (fields entry)) hosts
    → update_entries rms hosts ≡ some (kept_entries rms hosts)
unfolding update_entries
update_entries-kept rms [] h = refl
update_entries-kept rms (entry ∷ hosts) (p, h) =
    rw (update_entry-kept rms (fields entry) p, update_entries-kept rms hosts h, update_entries)

-- Where no entry names a host twice, `updateHosts` does not panic. Each entry keeps, in order, the
-- hosts that no mapping for its address, or for any address, removes; an entry with no host left is
-- dropped; the new hosts come behind, and of equal lines the first is kept.
pub update_hosts-kept :
    (add rm : ListFlag) (hosts : List Text)
    → All (λ entry. NamesOnce (fields entry)) hosts
    → (let rms = if rm.changed then mappings rm.values else [] in
        let new = if add.changed then convert_extra_hosts_to_swarm_hosts add.values else [] in
        update_hosts add rm hosts ≡ some (remove_duplicates (kept_entries rms hosts ++ new)))
unfolding update_hosts
update_hosts-kept add rm hosts h =
    rw (update_entries-kept (if rm.changed then mappings rm.values else []) hosts h, update_hosts)

-- An entry that names a host twice and no other panics when the host is removed, and one that names
-- it twice in front of another keeps it once.
pub update_entry-twice :
    (ip host other : Text)
    → eq other host ≡ false
    → (let rm : HostMapping = record { ip_addr = []; host = host } in
        (update_entry (rm ∷ []) (ip ∷ host ∷ host ∷ []) ≡ none)
        × (update_entry (rm ∷ []) (ip ∷ host ∷ host ∷ other ∷ [])
            ≡ some (entry_line ip (host ∷ other ∷ []))))
unfolding update_entry eq
update_entry-twice ip host other h = (rw (eq_refl host), rw (eq_refl host, h))
