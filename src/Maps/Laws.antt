-- ===== src/Maps/Laws.antt =====
-- Laws of the maps: what a look-up gives behind each operation, and that keys stay distinct.
use docker_cli.Prelude.{
  ◌≡◌, refl, false, ◌||◌, none, some, List, [], ◌∷◌, ◌++◌, arith, if◌then◌else◌, is_some,
}
use docker_cli.Text.{Text, eq}
use docker_cli.Text.Laws.{eq_iff}
use docker_cli.Maps.{delete_all, insert_all, Map, lookup, insert, delete, keys, elem}

module _ {ℓ} {V : Type ℓ} where
  module _ (at key : Text) where
    -- Behind a write to `at`.
    pub lookup-insert :
        (m : Map V) (new : V)
        → lookup key (insert at new m) ≡ (if eq at key then some new else lookup key m)
    unfolding lookup insert
    lookup-insert [] new = refl
    lookup-insert ((first, old) ∷ m) new =
        ground (arith, lookup-insert m new, eq_iff first key, eq_iff first at, eq_iff at key)

    -- Behind a removal at `at`.
    pub lookup-delete :
        (m : Map V) → lookup key (delete at m) ≡ (if eq at key then none else lookup key m)
    unfolding lookup delete
    lookup-delete [] = ground arith
    lookup-delete ((first, old) ∷ m) =
        ground (arith, lookup-delete m, eq_iff first key, eq_iff first at, eq_iff at key)

  -- No key occurs twice.
  abbrev pub Distinct : Map V → Type 0
  Distinct [] = Unit
  Distinct ((k, v) ∷ m) = (is_some (lookup k m) ≡ false) × Distinct m

  pub Distinct-insert : (k : Text) (v : V) (m : Map V) → Distinct m → Distinct (insert k v m)
  unfolding insert lookup
  Distinct-insert k v [] h = (refl, tt)
  Distinct-insert k v ((j, w) ∷ m) (n, h) =
      ground (arith, eq_iff j k, eq_iff k j, lookup-insert k j m v, Distinct-insert k v m h)

  pub Distinct-delete : (k : Text) (m : Map V) → Distinct m → Distinct (delete k m)
  unfolding delete lookup
  Distinct-delete k [] h = tt
  Distinct-delete k ((j, w) ∷ m) (n, h) =
      ground (arith, eq_iff k j, lookup-delete k j m, Distinct-delete k m h)

  pub elem-keys : (k : Text) (m : Map V) → elem k (keys m) ≡ is_some (lookup k m)
  unfolding elem lookup
  elem-keys k [] = refl
  elem-keys k ((j, w) ∷ m) = ground (arith, elem-keys k m)

pub elem-append : (k : Text) (xs ys : List Text) → elem k (xs ++ ys) ≡ (elem k xs || elem k ys)
unfolding elem
elem-append k [] ys = refl
elem-append k (x ∷ xs) ys = ground (arith, elem-append k xs ys)

module _ {ℓ} {V : Type ℓ} where
  pub lookup-delete_all :
      (k : Text) (ks : List Text) (m : Map V)
      → lookup k (delete_all ks m) ≡ (if elem k ks then none else lookup k m)
  unfolding delete_all elem
  lookup-delete_all k [] m = refl
  lookup-delete_all k (j ∷ ks) m =
      ground (arith, lookup-delete_all k ks (delete j m), lookup-delete j k m)

  pub Distinct-delete_all : (ks : List Text) (m : Map V) → Distinct m → Distinct (delete_all ks m)
  unfolding delete_all
  Distinct-delete_all [] m h = h
  Distinct-delete_all (j ∷ ks) m h = Distinct-delete_all ks (delete j m) (Distinct-delete j m h)

  -- With distinct keys the order of the writes does not matter.
  pub lookup-insert_all :
      (k : Text) (kvs m : Map V)
      → Distinct kvs
      → lookup k (insert_all kvs m) ≡ (if is_some (lookup k kvs) then lookup k kvs else lookup k m)
  unfolding insert_all lookup
  lookup-insert_all k [] m h = refl
  lookup-insert_all k ((j, v) ∷ kvs) m (n, h) =
      ground (arith, lookup-insert_all k kvs (insert j v m) h, lookup-insert j k m v, eq_iff j k)
