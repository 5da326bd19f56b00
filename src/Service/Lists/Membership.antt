-- ===== src/Service/Lists/Membership.antt =====
-- What is in the lists that cli/command/service/update.go writes: exactly what was there or is added,
-- less what is removed; DNS lists hold nothing twice; the lists are sorted.
use docker_cli.Prelude.{◌≡◌, refl, ◌∙◌, not, ◌&&◌, ◌||◌, List, [], ◌∷◌, ◌++◌, arith, if◌then◌else◌}
use docker_cli.Text.{Text}
use docker_cli.Text.Laws.{eq_iff, eq_refl}
use docker_cli.Maps.{elem}
use docker_cli.Maps.Laws.{elem-append}
use docker_cli.Sort.{sort_strings}
use docker_cli.Sort.Laws.{elem-sort_strings, IsSorted, sort_strings-IsSorted}
use docker_cli.Sort.Unique.{Unique, sort_strings-Unique}
use docker_cli.Service.Flags.{
  ListFlag, added, build_to_remove_set, remove_items, remove_seen, remove_duplicates,
}
use docker_cli.Service.Lists.{
  update_groups, update_placement_constraints, DnsConfig, DnsFlags, update_dns_config,
}

pub elem-remove_items :
    (k : Text) (xs rm : List Text)
    → elem k (remove_items xs rm (λ s. s)) ≡ (elem k xs && not (elem k rm))
unfolding remove_items elem
elem-remove_items k [] rm = refl
elem-remove_items k (x ∷ xs) rm = ground (arith, elem-remove_items k xs rm, eq_iff x k)

pub elem-remove_seen :
    (k : Text) (hit xs : List Text) → elem k (remove_seen hit xs) ≡ (elem k xs && not (elem k hit))
unfolding remove_seen elem
elem-remove_seen k hit [] = refl
elem-remove_seen k hit (x ∷ xs) =
    ground (arith, elem-remove_seen k hit xs, elem-remove_seen k (x ∷ hit) xs, eq_iff x k)

remove_seen-Unique : (hit xs : List Text) → Unique (remove_seen hit xs)
unfolding remove_seen elem
remove_seen-Unique hit [] = tt
remove_seen-Unique hit (x ∷ xs) = ground (
  arith,
  remove_seen-Unique hit xs,
  remove_seen-Unique (x ∷ hit) xs,
  elem-remove_seen x (x ∷ hit) xs,
  eq_refl x,
)

pub remove_items-Unique : (xs rm : List Text) → Unique xs → Unique (remove_items xs rm (λ s. s))
unfolding remove_items
remove_items-Unique [] rm h = tt
remove_items-Unique (x ∷ xs) rm (n, h) =
    ground (arith, remove_items-Unique xs rm h, elem-remove_items x xs rm)

-- Sorted, and exactly the members that were there or are added, less those that are removed.
abbrev pub Edited : ListFlag → ListFlag → List Text → List Text → Type 0
Edited add rm old new =
    ((k : Text) → elem k new ≡ ((elem k old || elem k (added add)) && not (elem k (added rm))))
    × IsSorted (λ s. s) new

elem-added_to :
    (k : Text) (add : ListFlag) (old : List Text)
    → elem k (if add.changed then old ++ add.values else old) ≡ (elem k old || elem k (added add))
elem-added_to k add old = unfold elem in ground (arith, elem-append k old add.values)

elem-remove_duplicates : (k : Text) (xs : List Text) → elem k (remove_duplicates xs) ≡ elem k xs
unfolding remove_duplicates elem
elem-remove_duplicates k xs = ground (arith, elem-remove_seen k [] xs)

remove_duplicates-Unique : (xs : List Text) → Unique (remove_duplicates xs)
unfolding remove_duplicates
remove_duplicates-Unique xs = remove_seen-Unique [] xs

elem-build_to_remove_set :
    (k : Text) (rm : ListFlag) → elem k (build_to_remove_set rm) ≡ elem k (added rm)
unfolding build_to_remove_set
elem-build_to_remove_set k rm = ground arith

edit_lem :
    (add rm : ListFlag) (old : List Text)
    → Edited add rm old (
        sort_strings (
          remove_items
            (if add.changed then old ++ add.values else old)
            (build_to_remove_set rm)
            (λ s. s)))
edit_lem add rm old =
    let xs = if add.changed then old ++ add.values else old in
    (
      λ k.
          elem-sort_strings k _
          ∙ elem-remove_items k xs (build_to_remove_set rm)
          ∙ rw (elem-added_to k add old, elem-build_to_remove_set k rm),
      sort_strings-IsSorted _,
    )

edit_dns_lem :
    (add rm : ListFlag) (old : List Text)
    → (let xs = if add.changed then old ++ add.values else old in
        let new =
          sort_strings (remove_items (remove_duplicates xs) (build_to_remove_set rm) (λ s. s)) in
        Edited add rm old new × Unique new)
edit_dns_lem add rm old =
    let xs = if add.changed then old ++ add.values else old in
    (
      (
        λ k.
            elem-sort_strings k _
            ∙ elem-remove_items k (remove_duplicates xs) (build_to_remove_set rm)
            ∙ rw (
              elem-remove_duplicates k xs,
              elem-added_to k add old,
              elem-build_to_remove_set k rm,
            ),
        sort_strings-IsSorted _,
      ),
      sort_strings-Unique _ (remove_items-Unique _ _ (remove_duplicates-Unique xs)),
    )

-- The groups of a service: the new list is sorted, and holds what it held or the flag adds, less what
-- the other flag removes.
pub update_groups-Edited :
    (add rm : ListFlag) (groups : List Text) → Edited add rm groups (update_groups add rm groups)
unfolding update_groups
update_groups-Edited add rm groups = edit_lem add rm groups

-- The placement constraints of a service, likewise.
pub update_placement_constraints-Edited :
    (add rm : ListFlag) (constraints : List Text)
    → Edited add rm constraints (update_placement_constraints add rm constraints)
unfolding update_placement_constraints
update_placement_constraints-Edited add rm constraints = edit_lem add rm constraints

-- Each of the three DNS lists is sorted, holds nothing twice, and holds what it held or its flag
-- adds, less what its other flag removes.
pub update_dns_config-Edited :
    (f : DnsFlags) (c : DnsConfig)
    → (let d = update_dns_config f c in
        (Edited f.dns_add f.dns_rm c.nameservers d.nameservers × Unique d.nameservers)
        × (Edited f.search_add f.search_rm c.search d.search × Unique d.search)
        × (Edited f.option_add f.option_rm c.options d.options × Unique d.options))
unfolding update_dns_config
update_dns_config-Edited f c = (
  edit_dns_lem f.dns_add f.dns_rm c.nameservers,
  edit_dns_lem f.search_add f.search_rm c.search,
  edit_dns_lem f.option_add f.option_rm c.options,
)
