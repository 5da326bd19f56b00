-- ===== src/Maps/Keyed.antt =====
-- Maps from the key of a value to the value, as the program builds them to index a list.
use docker_cli.Prelude.{◌≡◌, refl, Option, none, some, List, [], ◌∷◌, arith, if◌then◌else◌}
use docker_cli.Text.{Text, eq}
use docker_cli.Text.Laws.{eq_iff}
use docker_cli.Maps.{delete_all, Map, lookup, insert, delete, values}
use docker_cli.Maps.Laws.{lookup-insert, Distinct, Distinct-insert}
use docker_cli.Sort.{insert_by, sort_by}
use docker_cli.Sort.Laws.{text_le_refl}

abbrev pub or_else {ℓ} : {A : Type ℓ} → Option A → Option A → Option A
or_else none b = b
or_else (some a) b = some a

module _ {ℓ} {A : Type ℓ} (key : A → Text) where
  -- `for _, x := range xs { m[key(x)] = x }`
  unfoldable pub put_all : List A → Map A → Map A
  unfolding insert
  put_all [] m = m
  put_all (x ∷ xs) m = put_all xs (insert (key x) x m)

  -- The last element with the key.
  unfoldable pub find_last : Text → List A → Option A
  find_last k [] = none
  find_last k (x ∷ xs) = or_else (find_last k xs) (if eq (key x) k then some x else none)

  pub lookup-put_all :
      (k : Text) (xs : List A) (m : Map A)
      → lookup k (put_all xs m) ≡ or_else (find_last k xs) (lookup k m)
  unfolding put_all find_last
  lookup-put_all k [] m = refl
  lookup-put_all k (x ∷ xs) m =
      ground (arith, lookup-put_all k xs (insert (key x) x m), lookup-insert (key x) k m x)

  pub Distinct-put_all : (xs : List A) (m : Map A) → Distinct m → Distinct (put_all xs m)
  unfolding put_all
  Distinct-put_all [] m h = h
  Distinct-put_all (x ∷ xs) m h =
      Distinct-put_all xs (insert (key x) x m) (Distinct-insert (key x) x m h)

  -- Every value stands under its key.
  abbrev pub Keyed : Map A → Type 0
  Keyed [] = Unit
  Keyed ((k, v) ∷ m) = (k ≡ key v) × Keyed m

  pub Keyed-insert : (x : A) (m : Map A) → Keyed m → Keyed (insert (key x) x m)
  unfolding insert
  Keyed-insert x [] h = (refl, tt)
  Keyed-insert x ((k, v) ∷ m) (e, h) = ground (arith, Keyed-insert x m h)

  pub Keyed-put_all : (xs : List A) (m : Map A) → Keyed m → Keyed (put_all xs m)
  unfolding put_all
  Keyed-put_all [] m h = h
  Keyed-put_all (x ∷ xs) m h = Keyed-put_all xs (insert (key x) x m) (Keyed-insert x m h)

  Keyed-delete : (k : Text) (m : Map A) → Keyed m → Keyed (delete k m)
  unfolding delete
  Keyed-delete k [] h = tt
  Keyed-delete k ((j, v) ∷ m) (e, h) = ground (arith, Keyed-delete k m h)

  pub Keyed-delete_all : (ks : List Text) (m : Map A) → Keyed m → Keyed (delete_all ks m)
  unfolding delete_all
  Keyed-delete_all [] m h = h
  Keyed-delete_all (k ∷ ks) m h = Keyed-delete_all ks (delete k m) (Keyed-delete k m h)

  pub find_last-values :
      (k : Text) (m : Map A) → Distinct m → Keyed m → find_last k (values m) ≡ lookup k m
  unfolding find_last lookup
  find_last-values k [] d h = refl
  find_last-values k ((j, v) ∷ m) (n, d) (e, h) =
      ground (arith, find_last-values k m d h, eq_iff j k, eq_iff (key v) k)

  find_last-insert_by :
      (k : Text) (x : A) (xs : List A) → find_last k (insert_by key x xs) ≡ find_last k (x ∷ xs)
  unfolding find_last insert_by
  find_last-insert_by k x [] = refl
  find_last-insert_by k x (y ∷ ys) =
      ground (
        arith,
        find_last-insert_by k x ys,
        eq_iff (key x) k,
        eq_iff (key y) k,
        text_le_refl (key x),
      )

  pub find_last-sort_by : (k : Text) (xs : List A) → find_last k (sort_by key xs) ≡ find_last k xs
  unfolding find_last sort_by
  find_last-sort_by k [] = refl
  find_last-sort_by k (x ∷ xs) =
      ground (arith, find_last-insert_by k x (sort_by key xs), find_last-sort_by k xs)
