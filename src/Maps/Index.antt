-- ===== src/Maps/Index.antt =====
-- A list indexed by a key where the first value of each key is kept, and tests on the values of an
-- index.
use docker_cli.Prelude.{
  ◌≡◌, refl, Bool, false, not, ◌&&◌, Option, none, some, List, [], ◌∷◌, any, arith, if◌then◌else◌,
}
use docker_cli.Text.{Text, eq}
use docker_cli.Text.Laws.{eq_iff}
use docker_cli.Maps.{Map, lookup, has_key, insert, values}
use docker_cli.Maps.Laws.{lookup-insert, Distinct, Distinct-insert}
use docker_cli.Maps.Keyed.{or_else, Keyed, Keyed-insert}

module _ {A : Type 0} (key : A → Text) where
  -- The first value with a key.
  abbrev pub find_first : Text → List A → Option A
  find_first k [] = none
  find_first k (m ∷ ms) = if eq (key m) k then some m else find_first k ms

  -- `for _, x := range xs { if _, ok := m[key(x)]; !ok { m[key(x)] = x } }`
  unfoldable pub put_absent : List A → Map A → Map A
  unfolding has_key insert
  put_absent [] m = m
  put_absent (x ∷ xs) m = put_absent xs (if not (has_key (key x) m) then insert (key x) x m else m)

  pub lookup-put_absent :
      (k : Text) (xs : List A) (m : Map A)
      → lookup k (put_absent xs m) ≡ or_else (lookup k m) (find_first k xs)
  unfolding put_absent has_key
  lookup-put_absent k [] m = ground arith
  lookup-put_absent k (x ∷ xs) m = ground (
    arith,
    lookup-put_absent k xs m,
    lookup-put_absent k xs (insert (key x) x m),
    lookup-insert (key x) k m x,
    eq_iff (key x) k,
  )

  pub Distinct-put_absent : (xs : List A) (m : Map A) → Distinct m → Distinct (put_absent xs m)
  unfolding put_absent has_key
  Distinct-put_absent [] m d = d
  Distinct-put_absent (x ∷ xs) m d = ground (
    arith,
    Distinct-put_absent xs m d,
    Distinct-put_absent xs (insert (key x) x m) (Distinct-insert (key x) x m d),
  )

  pub Keyed-put_absent : (xs : List A) (m : Map A) → Keyed key m → Keyed key (put_absent xs m)
  unfolding put_absent has_key
  Keyed-put_absent [] m d = d
  Keyed-put_absent (x ∷ xs) m d = ground (
    arith,
    Keyed-put_absent xs m d,
    Keyed-put_absent xs (insert (key x) x m) (Keyed-insert key x m d),
  )

  -- The values with a key, tested.
  abbrev pub at_key : Text → (A → Bool) → A → Bool
  at_key k p m = eq (key m) k && p m

  abbrev pub holds : (A → Bool) → Option A → Bool
  holds p none = false
  holds p (some m) = p m

  pub any-values :
      (k : Text) (p : A → Bool) (m : Map A)
      → Distinct m
      → Keyed key m
      → any (at_key k p) (values m) ≡ holds p (lookup k m)
  unfolding lookup
  any-values k p [] d h = refl
  any-values k p ((j, v) ∷ m) (n, d) (e, h) =
      ground (arith, any-values k p m d h, eq_iff (key v) k, eq_iff j k)
