-- ===== src/Service/Environment/Lookup.antt =====
-- Which variable or limit stands under a key behind an update, by cli/command/service/update.go.
use docker_cli.Prelude.{
  ◌≡◌, refl, ap, ◌∙◌, Bool, true, false, ◌&&◌, none, List, [], ◌∷◌, arith, if◌then◌else◌, is_some,
}
use docker_cli.Text.{Text}
use docker_cli.Text.Laws.{eq_iff}
use docker_cli.Maps.{Map, lookup, keys, values, elem, delete_all}
use docker_cli.Maps.Laws.{Distinct, lookup-delete_all, Distinct-delete_all}
use docker_cli.Maps.Keyed.{
  or_else, put_all, find_last, lookup-put_all, Distinct-put_all, Keyed, Keyed-put_all,
  Keyed-delete_all, find_last-values, find_last-sort_by,
}
use docker_cli.Sort.Laws.{IsSorted, sort_by-IsSorted}
use docker_cli.Service.Flags.{
  ListFlag, added, env_key, build_to_remove_set, remove_items, convert_kv_strings_to_map,
}
use docker_cli.Service.Labels.Lookup.{last_value, keys-added}
use docker_cli.Service.Environment.{update_environment, UlimitFlag, update_ulimits}

find_last-remove_items :
    (k : Text) (xs rm : List Text)
    → find_last env_key k (remove_items xs rm env_key)
      ≡ (if elem k rm then none else find_last env_key k xs)
unfolding remove_items find_last
find_last-remove_items k [] rm = ground arith
find_last-remove_items k (x ∷ xs) rm =
    ground (arith, find_last-remove_items k xs rm, eq_iff (env_key x) k)

module _ {A : Type 0} (key : A → Text) where
  -- The values of an index, written over an index.
  find_last-put_all :
      (k : Text) (xs : List A) (m : Map A)
      → Distinct m
      → Keyed key m
      → find_last key k (values (put_all key xs m)) ≡ or_else (find_last key k xs) (lookup k m)
  find_last-put_all k xs m d h =
      find_last-values key k (put_all key xs m) (Distinct-put_all key xs m d)
        (Keyed-put_all key xs m h)
      ∙ lookup-put_all key k xs m

  lookup-index : (k : Text) (xs : List A) → lookup k (put_all key xs []) ≡ find_last key k xs
  lookup-index k xs = lookup-put_all key k xs [] ∙ unfold lookup in ground arith

removed_lem : (k : Text) (rm : ListFlag) → elem k (build_to_remove_set rm) ≡ elem k (added rm)
unfolding build_to_remove_set
removed_lem k rm = ground arith

kept_lem :
    (k : Text) (rm : ListFlag) (field : List Text)
    → find_last env_key k (remove_items field (build_to_remove_set rm) env_key)
      ≡ (if elem k (added rm) then none else find_last env_key k field)
kept_lem k rm field =
    find_last-remove_items k field (build_to_remove_set rm)
    ∙ ap (λ b. if b then none else find_last env_key k field) (removed_lem k rm)

find_last-choice :
    (k : Text) (changed : Bool) (vs field : List Text)
    → find_last env_key k
        (if changed then values (put_all env_key vs (put_all env_key field [])) else field)
      ≡ or_else (find_last env_key k (if changed then vs else [])) (find_last env_key k field)
find_last-choice k true vs field =
    find_last-put_all env_key k vs (put_all env_key field []) (Distinct-put_all env_key field [] tt)
      (Keyed-put_all env_key field [] tt)
    ∙ ap (or_else (find_last env_key k vs)) (lookup-index env_key k field)
find_last-choice k false vs field = unfold find_last in refl

-- The variable under a key: the last that is added, or else the last that was there, if the key is not
-- removed.
pub update_environment-find_last :
    (k : Text) (add rm : ListFlag) (field : List Text)
    → find_last env_key k (update_environment add rm field)
      ≡ or_else
          (find_last env_key k (added add))
          (if elem k (added rm) then none else find_last env_key k field)
unfolding update_environment
update_environment-find_last k add rm field =
    find_last-choice k add.changed add.values (remove_items field (build_to_remove_set rm) env_key)
    ∙ ap (or_else (find_last env_key k (added add))) (kept_lem k rm field)

module _ {L : Type 0} (name : L → Text) where
  module _ (k : Text) (vs : List L) (m : Map L) (d : Distinct m) (h : Keyed name m) where
    find_last-additions :
        (changed : Bool)
        → find_last name k (values (if changed then put_all name vs m else m))
          ≡ or_else (find_last name k (if changed then vs else [])) (lookup k m)
    find_last-additions true = find_last-put_all name k vs m d h
    find_last-additions false = find_last-values name k m d h ∙ unfold find_last in refl

  module _ (ks : List Text) (m : Map L) where
    Distinct-left :
        (changed : Bool) → Distinct m → Distinct (if changed then delete_all ks m else m)
    Distinct-left true d = Distinct-delete_all ks m d
    Distinct-left false d = d

    Keyed-left :
        (changed : Bool) → Keyed name m → Keyed name (if changed then delete_all ks m else m)
    Keyed-left true h = Keyed-delete_all name ks m h
    Keyed-left false h = h

    lookup-left :
        (k : Text) (changed : Bool)
        → lookup k (if changed then delete_all ks m else m)
          ≡ (if changed && elem k ks then none else lookup k m)
    lookup-left k true = lookup-delete_all k ks m
    lookup-left k false = refl

  abbrev index_left : ListFlag → List L → Map L
  index_left rm ulimits =
      if rm.changed
      then delete_all (keys (convert_kv_strings_to_map rm.values)) (put_all name ulimits [])
      else put_all name ulimits []

  lookup-index_left :
      (k : Text) (rm : ListFlag) (ulimits : List L)
      → lookup k (index_left rm ulimits)
        ≡ (if is_some (last_value k (added rm)) then none else find_last name k ulimits)
  lookup-index_left k rm ulimits =
      lookup-left (keys (convert_kv_strings_to_map rm.values)) (put_all name ulimits []) k
        rm.changed
      ∙ ap (λ b. if b then none else lookup k (put_all name ulimits [])) (keys-added k rm)
      ∙ ap (λ v. if is_some (last_value k (added rm)) then none else v)
          (lookup-index name k ulimits)

  -- The limits are sorted by name, and the one under a name is the last that is added, or else the
  -- last that was there, if the name is not removed.
  pub update_ulimits-find_last :
      (k : Text) (add : UlimitFlag L) (rm : ListFlag) (ulimits : List L)
      → (find_last name k (update_ulimits name add rm ulimits)
          ≡ or_else
              (find_last name k (if add.changed then add.values else []))
              (if is_some (last_value k (added rm)) then none else find_last name k ulimits))
        × IsSorted name (update_ulimits name add rm ulimits)
  unfolding update_ulimits
  update_ulimits-find_last k add rm ulimits =
      let ks = keys (convert_kv_strings_to_map rm.values) in
      let left = index_left rm ulimits in
      let new = values (if add.changed then put_all name add.values left else left) in
      (
        find_last-sort_by name k new
            ∙ find_last-additions k add.values left
                (Distinct-left ks (put_all name ulimits []) rm.changed
                  (Distinct-put_all name ulimits [] tt))
                (Keyed-left ks (put_all name ulimits []) rm.changed
                  (Keyed-put_all name ulimits [] tt))
                add.changed
            ∙ ap (or_else (find_last name k (if add.changed then add.values else [])))
                (lookup-index_left k rm ulimits),
        sort_by-IsSorted name new,
      )
