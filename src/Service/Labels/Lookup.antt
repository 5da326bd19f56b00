-- ===== src/Service/Labels/Lookup.antt =====
-- What a label or a sysctl is behind an update, by cli/command/service/update.go.
use docker_cli.Prelude.{
  ◌≡◌, refl, ap, ◌∙◌, Bool, ◌&&◌, Option, none, some, List, [], ◌∷◌, arith, if◌then◌else◌, is_some,
}
use docker_cli.Text.{Text, codes, eq, cut3}
use docker_cli.Maps.{Map, lookup, insert, keys, elem}
use docker_cli.Maps.Laws.{
  lookup-insert, Distinct, Distinct-insert, lookup-delete_all, lookup-insert_all, elem-keys,
}
use docker_cli.Maps.Keyed.{or_else}
use docker_cli.Service.Flags.{ListFlag, added, convert_onto, convert_kv_strings_to_map}
use docker_cli.Service.Labels.{
  remove_keys, or_new, add_values, update_container_labels, update_labels, update_sys_ctls,
}

-- The value of the last `key=value` with this key; with no `=` the value is empty.
abbrev pub last_value : Text → List Text → Option Text
last_value k [] = none
last_value k (v ∷ vs) =
    or_else (last_value k vs)
      (if eq (cut3 v (codes "=")).0 k then some (cut3 v (codes "=")).1 else none)

lookup-convert_onto :
    (k : Text) (vs : List Text) (m : Map Text)
    → lookup k (convert_onto vs m) ≡ or_else (last_value k vs) (lookup k m)
unfolding convert_onto
lookup-convert_onto k [] m = refl
lookup-convert_onto k (v ∷ vs) m =
    let key = (cut3 v (codes "=")).0 in
    let value = (cut3 v (codes "=")).1 in
    ground (arith, lookup-convert_onto k vs (insert key value m), lookup-insert key k m value)

Distinct-convert_onto : (vs : List Text) (m : Map Text) → Distinct m → Distinct (convert_onto vs m)
unfolding convert_onto
Distinct-convert_onto [] m h = h
Distinct-convert_onto (v ∷ vs) m h =
    Distinct-convert_onto vs _ (Distinct-insert (cut3 v (codes "=")).0 (cut3 v (codes "=")).1 m h)

-- `ConvertKVStringsToMap` keeps the last value of each key.
pub lookup-convert :
    (k : Text) (vs : List Text) → lookup k (convert_kv_strings_to_map vs) ≡ last_value k vs
unfolding convert_kv_strings_to_map lookup
lookup-convert k vs = ground (arith, lookup-convert_onto k vs [])

Distinct-convert : (vs : List Text) → Distinct (convert_kv_strings_to_map vs)
unfolding convert_kv_strings_to_map
Distinct-convert vs = Distinct-convert_onto vs [] tt

-- A nil map has no values.
abbrev pub get : Text → Option (Map Text) → Option Text
get k none = none
get k (some m) = lookup k m

get-remove_keys :
    (k : Text) (changed : Bool) (ks : List Text) (field : Option (Map Text))
    → get k (remove_keys changed ks field) ≡ (if changed && elem k ks then none else get k field)
get-remove_keys k changed ks none = ground arith
get-remove_keys k changed ks (some m) = ground (arith, lookup-delete_all k ks m)

get-or_new : (k : Text) (field : Option (Map Text)) → lookup k (or_new field) ≡ get k field
unfolding lookup
get-or_new k none = refl
get-or_new k (some m) = refl

get-add_values :
    (k : Text) (add : ListFlag) (field : Option (Map Text))
    → get k (add_values add field) ≡ or_else (last_value k (added add)) (get k field)
get-add_values k add field = ground (
  arith,
  lookup-insert_all k (convert_kv_strings_to_map add.values) (or_new field)
      (Distinct-convert add.values),
  lookup-convert k add.values,
  get-or_new k field,
)

pub elem-added : (k : Text) (f : ListFlag) → (f.changed && elem k f.values) ≡ elem k (added f)
unfolding elem
elem-added k f = ground arith

pub keys-added :
    (k : Text) (f : ListFlag)
    → (f.changed && elem k (keys (convert_kv_strings_to_map f.values)))
      ≡ is_some (last_value k (added f))
keys-added k f =
    rw (elem-keys k (convert_kv_strings_to_map f.values), lookup-convert k f.values) (ground arith)

-- A container label, a label or a sysctl behind an update: the last value that is added for the key,
-- or else what it was, if the key is not removed. A sysctl is removed by its key, whatever value is
-- written with it.
pub update_labels-get :
    (k : Text) (add rm : ListFlag) (field : Option (Map Text))
    → (get k (update_container_labels add rm field)
        ≡ or_else (last_value k (added add)) (if elem k (added rm) then none else get k field))
      × (get k (update_labels add rm field)
          ≡ or_else (last_value k (added add)) (if elem k (added rm) then none else get k field))
      × (get k (update_sys_ctls add rm field)
          ≡ or_else
              (last_value k (added add))
              (if is_some (last_value k (added rm)) then none else get k field))
unfolding update_container_labels update_labels update_sys_ctls
update_labels-get k add rm field = (labels, labels, sysctls)
  where
    sysctl_keys : List Text
    sysctl_keys = keys (convert_kv_strings_to_map rm.values)

    labels :
        get k (add_values add (remove_keys rm.changed rm.values field))
        ≡ or_else (last_value k (added add)) (if elem k (added rm) then none else get k field)
    labels =
        get-add_values k add (remove_keys rm.changed rm.values field)
        ∙ ap (or_else (last_value k (added add))) (
            get-remove_keys k rm.changed rm.values field
            ∙ ap (λ b. if b then none else get k field) (elem-added k rm))

    sysctls :
        get k (add_values add (remove_keys rm.changed sysctl_keys field))
        ≡ or_else
            (last_value k (added add))
            (if is_some (last_value k (added rm)) then none else get k field)
    sysctls =
        get-add_values k add (remove_keys rm.changed sysctl_keys field)
        ∙ ap (or_else (last_value k (added add))) (
            get-remove_keys k rm.changed sysctl_keys field
            ∙ ap (λ b. if b then none else get k field) (keys-added k rm))
