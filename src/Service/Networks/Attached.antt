-- ===== src/Service/Networks/Attached.antt =====
-- The networks behind `updateNetworks` of cli/command/service/update.go.
use docker_cli.Prelude.{
  false, not, ◌&&◌, ◌||◌, ◌≡◌, refl, sym, ◌∙◌, ap, subst, Option, none, some, List, [], ◌∷◌, ◌++◌,
  if◌then◌else◌, Result, ok, err, map, arith, Bool-cases, inl, inr, bind-eq-ok, guard-eq-ok,
  append_assoc, append-nil, ok_lem, not_lem,
}
use docker_cli.Text.{Text}
use docker_cli.Text.Laws.{eq_iff}
use docker_cli.Maps.{elem}
use docker_cli.Maps.Laws.{elem-append}
use docker_cli.Sort.{text_le, insert_by, sort_by, sort_strings}
use docker_cli.Sort.Laws.{elem-sort_strings, IsSorted, sort_strings-IsSorted}
use docker_cli.Sort.Unique.{Unique, sort_strings-Unique}
use docker_cli.Service.Flags.{ListFlag, build_to_remove_set, remove_items}
use docker_cli.Service.Lists.Membership.{elem-remove_items, remove_items-Unique}
use docker_cli.Service.Networks.{
  Attachment, NetworkFlag, NetworkError, not_found, already_attached, spec_networks,
  resolve_network_id, ids_to_remove, keep_networks, add_networks, update_networks,
}

abbrev pub targets : List Attachment → List Text
targets networks = map (λ nw. nw.target) networks

targets-insert_by :
    (nw : Attachment) (networks : List Attachment)
    → targets (insert_by (λ n. n.target) nw networks)
      ≡ insert_by (λ s. s) nw.target (targets networks)
unfolding insert_by
targets-insert_by nw [] = refl
targets-insert_by nw (n ∷ networks) = elim (Bool-cases (text_le nw.target n.target)) [
  | inl y ↦ rw y refl
  | inr x ↦ rw x (ap (λ ts. n.target ∷ ts) (targets-insert_by nw networks))
]

targets-sort_by :
    (networks : List Attachment)
    → targets (sort_by (λ n. n.target) networks) ≡ sort_strings (targets networks)
unfolding sort_by sort_strings
targets-sort_by [] = refl
targets-sort_by (n ∷ networks) =
    targets-insert_by n (sort_by (λ n. n.target) networks)
    ∙ ap (insert_by (λ s. s) n.target) (targets-sort_by networks)

Unique-push : (x : Text) (xs : List Text) → Unique xs → elem x xs ≡ false → Unique (xs ++ (x ∷ []))
unfolding elem
Unique-push x [] h n = (refl, tt)
Unique-push x (y ∷ xs) (m, h) n =
    ground (arith, Unique-push x xs h, elem-append y xs (x ∷ []), eq_iff x y, eq_iff y x)

resolve_lem :
    {id : Text}
    → (name : Text) (o : Option Text)
    → elim o as (λ _. Result NetworkError Text) [ none ↦ err (not_found name) | some i ↦ ok i ]
      ≡ ok id
    → o ≡ some id
resolve_lem name none h = cc
resolve_lem name (some i) h = ap some (ok_lem h)

module _ (inspect : Text → Option Text) where
  targets-keep_networks :
      (ids : List Text) (networks : List Attachment)
      → targets (keep_networks inspect ids networks) ≡ remove_items (targets networks) ids (λ s. s)
  unfolding keep_networks remove_items
  targets-keep_networks ids [] = refl
  targets-keep_networks ids (n ∷ networks) = elim (Bool-cases (elem n.target ids)) [
    | inl y ↦ rw y (targets-keep_networks ids networks)
    | inr x ↦ rw x (ap (λ ts. n.target ∷ ts) (targets-keep_networks ids networks))
  ]

  -- The identifiers of the networks that some names stand for, in order.
  abbrev pub Resolved : List Text → List Text → Type 0
  Resolved [] [] = Unit
  Resolved [] (id ∷ ids) = ⊥
  Resolved (name ∷ names) [] = ⊥
  Resolved (name ∷ names) (id ∷ ids) = (inspect name ≡ some id) × Resolved names ids

  ids_to_remove-Resolved :
      (names ids : List Text) → ids_to_remove inspect names ≡ ok ids → Resolved names ids
  unfolding ids_to_remove
  ids_to_remove-Resolved [] ids h = subst (Resolved []) (ok_lem h) tt
  ids_to_remove-Resolved (name ∷ names) ids h =
      let (id, e, k) = bind-eq-ok (resolve_network_id inspect name) _ h in
      let (rest, f, l) = bind-eq-ok (ids_to_remove inspect names) _ k in
      subst (Resolved (name ∷ names)) (ok_lem l)
        (resolve_lem name (inspect name) e, ids_to_remove-Resolved names rest f)

  -- The networks behind those so far: their targets are added, and none was there or occurs twice.
  abbrev Pushed : List Attachment → List Attachment → List Attachment → Type 0
  Pushed so_far networks new =
      (ids : List Text) × Resolved (targets networks) ids
      × (targets new ≡ targets so_far ++ ids)
      × (Unique (targets so_far) → Unique (targets new))

  targets-append :
      (xs : List Attachment) (x : Attachment)
      → targets (xs ++ (x ∷ [])) ≡ targets xs ++ (x.target ∷ [])
  targets-append [] x = refl
  targets-append (y ∷ xs) x = ap (λ ts. y.target ∷ ts) (targets-append xs x)

  add_networks-Pushed :
      (so_far networks new : List Attachment)
      → add_networks inspect so_far networks ≡ ok new
      → Pushed so_far networks new
  unfolding add_networks
  add_networks-Pushed so_far [] new h =
      let q = ok_lem h in
      (
        [],
        tt,
        ap targets (sym q) ∙ sym (append-nil (targets so_far)),
        subst (λ n. Unique (targets so_far) → Unique (targets n)) q (λ u. u),
      )
  add_networks-Pushed so_far (nw ∷ networks) new h =
      let (id, e, k) = bind-eq-ok (resolve_network_id inspect nw.target) _ h in
      let (fresh, l) =
        guard-eq-ok (not (elem id (targets so_far))) (already_attached nw.target) _ k in
      let added = record nw { target = id } in
      let t = targets-append so_far added in
      let (ids, r, q, u) = add_networks-Pushed (so_far ++ (added ∷ [])) networks new l in
      (
        id ∷ ids,
        (resolve_lem nw.target (inspect nw.target) e, r),
        q ∙ ap (λ ts. ts ++ ids) t ∙ append_assoc (targets so_far) (id ∷ []) ids,
        λ v. u (
            subst Unique (sym t)
              (Unique-push id (targets so_far) v (not_lem (elem id (targets so_far)) fresh))),
      )

  -- The networks behind: the targets that were there and are not removed, and those added; sorted, and
  -- none twice if none was.
  abbrev pub Attached : ListFlag → NetworkFlag → List Attachment → List Attachment → Type 0
  Attached network_rm network_add old new =
      (ids added : List Text) × Resolved (build_to_remove_set network_rm) ids
      × Resolved (targets (if network_add.changed then network_add.networks else [])) added
      × ((t : Text)
          → elem t (targets new) ≡ ((elem t (targets old) && not (elem t ids)) || elem t added))
      × IsSorted (λ s. s) (targets new)
      × (Unique (targets old) → Unique (targets new))

  -- Where `updateNetworks` succeeds, the identifiers of the networks to remove and of those to add are
  -- found; the targets behind are those that were there and are not removed, and those added; they are
  -- sorted; and none occurs twice if none did.
  pub update_networks-Attached :
      (network_rm : ListFlag) (network_add : NetworkFlag)
      (networks old_networks new : List Attachment)
      → update_networks inspect network_rm network_add networks old_networks ≡ ok new
      → Attached network_rm network_add (spec_networks networks old_networks) new
  unfolding update_networks
  update_networks-Attached network_rm network_add networks old_networks new h =
      let old = spec_networks networks old_networks in
      let added = if network_add.changed then network_add.networks else [] in
      let (ids, e, k) = bind-eq-ok (ids_to_remove inspect (build_to_remove_set network_rm)) _ h in
      let kept = keep_networks inspect ids old in
      let (ns, f, l) = bind-eq-ok (add_networks inspect kept added) _ k in
      let (ads, r, q, u) = add_networks-Pushed kept added ns f in
      let kt = targets-keep_networks ids old in
      let nt : targets new ≡ sort_strings (targets ns) =
        ap targets (sym (ok_lem l)) ∙ targets-sort_by ns in
      (
        ids,
        ads,
        ids_to_remove-Resolved (build_to_remove_set network_rm) ids e,
        r,
        λ t.
            ap (elem t) (nt ∙ ap sort_strings (q ∙ ap (λ ts. ts ++ ads) kt))
            ∙ elem-sort_strings t (remove_items (targets old) ids (λ s. s) ++ ads)
            ∙ elem-append t (remove_items (targets old) ids (λ s. s)) ads
            ∙ ap (λ b. b || elem t ads) (elem-remove_items t (targets old) ids),
        subst (IsSorted (λ s. s)) (sym nt) (sort_strings-IsSorted (targets ns)),
        λ v. subst Unique (sym nt) (
            sort_strings-Unique (targets ns)
              (u (subst Unique (sym kt) (remove_items-Unique (targets old) ids v)))),
      )
