-- ===== src/Service/Flags.antt =====
-- The helpers that cli/command/service/update.go edits lists with.
use docker_cli.Prelude.{Bool, not, List, [], ◌∷◌, if◌then◌else◌}
use docker_cli.Text.{Text, codes, cut3}
use docker_cli.Maps.{Map, elem, insert}

-- A flag whose value is an `*opts.ListOpts`: `flags.Changed(name)`, and `GetAll()` of its value.
pub record ListFlag : Type 0 where
  pub changed : Bool
  pub values : List Text

-- `envKey`
unfoldable pub env_key : Text → Text
env_key value = (cut3 value (codes "=")).0

-- `buildToRemoveSet`, a set as the list of its members.
unfoldable pub build_to_remove_set : ListFlag → List Text
build_to_remove_set flag = if not flag.changed then [] else flag.values

-- The loops that keep what is not in a set, `removeItems` among them.
unfoldable pub remove_items : List Text → List Text → (Text → Text) → List Text
remove_items [] to_remove key = []
remove_items (item ∷ seq) to_remove key =
    let rest = remove_items seq to_remove key in
    if not (elem (key item) to_remove) then item ∷ rest else rest

-- The loop of `removeDuplicates`, with the entries seen so far.
unfoldable pub remove_seen : List Text → List Text → List Text
remove_seen hit [] = []
remove_seen hit (v ∷ entries) =
    let fresh = v ∷ remove_seen (v ∷ hit) entries in
    let seen = remove_seen hit entries in if not (elem v hit) then fresh else seen

-- `removeDuplicates`
unfoldable pub remove_duplicates : List Text → List Text
unfolding remove_seen
remove_duplicates entries = remove_seen [] entries

-- What a flag adds to a list.
abbrev pub added : ListFlag → List Text
added flag = if flag.changed then flag.values else []

-- `opts.ConvertKVStringsToMap` (opts/parse.go), over the map so far.
unfoldable pub convert_onto : List Text → Map Text → Map Text
unfolding insert
convert_onto [] result = result
convert_onto (value ∷ values) result =
    convert_onto values (insert (cut3 value (codes "=")).0 (cut3 value (codes "=")).1 result)

unfoldable pub convert_kv_strings_to_map : List Text → Map Text
unfolding convert_onto
convert_kv_strings_to_map values = convert_onto values []
