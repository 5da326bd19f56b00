-- ===== src/Maps.antt =====
-- Go's maps with string keys, as association lists. The order in which a map is walked is not fixed
-- in Go; here it is the order of the list, and no property of the program rests on it.
pub mod Laws
pub mod Keyed
pub mod Index
use docker_cli.Prelude.{
  Bool, true, false, Option, none, some, List, [], ◌∷◌, ◌++◌, if◌then◌else◌, is_some, map,
}
use docker_cli.Text.{Text, eq}

abbrev pub Map {ℓ} : Type ℓ → Type ℓ
Map V = List (Text × V)

module _ {ℓ} {V : Type ℓ} where
  -- `v, ok := m[k]`
  unfoldable pub lookup : Text → Map V → Option V
  lookup k [] = none
  lookup k ((j, v) ∷ m) = if eq j k then some v else lookup k m

  -- `_, ok := m[k]`
  unfoldable pub has_key : Text → Map V → Bool
  unfolding lookup
  has_key k m = is_some (lookup k m)

  -- `m[k] = v`
  unfoldable pub insert : Text → V → Map V → Map V
  insert k v [] = (k, v) ∷ []
  insert k v ((j, w) ∷ m) = let rest = insert k v m in if eq j k then (k, v) ∷ m else (j, w) ∷ rest

  -- `delete(m, k)`
  unfoldable pub delete : Text → Map V → Map V
  delete k [] = []
  delete k ((j, w) ∷ m) = let rest = delete k m in if eq j k then rest else (j, w) ∷ rest

  -- `for _, v := range m`
  abbrev pub values : Map V → List V
  values m = map (λ e. e.1) m

  -- `for k := range m`
  abbrev pub keys : Map V → List Text
  keys m = map (λ e. e.0) m

-- A membership test in a slice.
unfoldable pub elem : Text → List Text → Bool
elem k [] = false
elem k (x ∷ xs) = if eq x k then true else elem k xs

-- `for _, k := range keys { m[k] = v }`
unfoldable pub insert_all {ℓ} : {V : Type ℓ} → List (Text × V) → Map V → Map V
unfolding insert
insert_all [] m = m
insert_all ((k, v) ∷ kvs) m = insert_all kvs (insert k v m)

-- `for _, k := range keys { delete(m, k) }`
unfoldable pub delete_all {ℓ} : {V : Type ℓ} → List Text → Map V → Map V
unfolding delete
delete_all [] m = m
delete_all (k ∷ ks) m = delete_all ks (delete k m)
