-- ===== src/Opts/ListOpts/Counts.antt =====
-- How often a value is in a `ListOpts` of opts/opts.go, behind its operations.
use docker_cli.Prelude.{
  ℕ, ◌+◌, ◌-◌, ltb, ◌≡◌, refl, ◌∙◌, ◌||◌, List, [], ◌∷◌, ◌++◌, if◌then◌else◌, arith,
}
use docker_cli.Text.{Text, eq}
use docker_cli.Text.Laws.{eq_iff}
use docker_cli.Maps.{elem}
use docker_cli.Sort.Unique.{Unique, add_member, elem-add_member, Unique-add_member}
use docker_cli.Opts.ListOpts.{
  ListOpts, delete_first, members_onto, delete_value, get_value, get_map,
}

abbrev pub count : Text → List Text → ℕ
count k [] = 0
count k (x ∷ xs) = (if eq x k then 1 else 0) + count k xs

count-append : (k : Text) (xs ys : List Text) → count k (xs ++ ys) ≡ count k xs + count k ys
count-append k [] ys = omega arith
count-append k (x ∷ xs) ys = omega (arith, count-append k xs ys)

count-delete_first :
    (k key : Text) (xs : List Text)
    → count k (delete_first key xs) ≡ count k xs - (if eq key k then 1 else 0)
unfolding delete_first
count-delete_first k key [] = ground arith
count-delete_first k key (x ∷ xs) =
    ground (arith, count-delete_first k key xs, eq_iff x key, eq_iff x k, eq_iff key k)

elem-count : (k : Text) (xs : List Text) → elem k xs ≡ ltb 0 (count k xs)
unfolding elem
elem-count k [] = refl
elem-count k (x ∷ xs) = ground (arith, elem-count k xs)

elem-members_onto :
    (k : Text) (xs m : List Text) → elem k (members_onto xs m) ≡ (elem k xs || elem k m)
unfolding members_onto elem
elem-members_onto k [] m = refl
elem-members_onto k (x ∷ xs) m =
    ground (arith, elem-members_onto k xs (add_member x m), elem-add_member k x m)

Unique-members_onto : (xs m : List Text) → Unique m → Unique (members_onto xs m)
unfolding members_onto
Unique-members_onto [] m h = h
Unique-members_onto (x ∷ xs) m h = Unique-members_onto xs (add_member x m) (Unique-add_member x m h)

module _ {E : Type 0} (opts : ListOpts E) where
  -- `Delete` takes out one occurrence of its key, if there is one, and of no other value; `Get` tells
  -- whether there is an occurrence; `GetMap` has the same members, each once.
  pub delete_value-count :
      (key k : Text)
      → (count k (delete_value opts key).values ≡ count k opts.values - (if eq key k then 1 else 0))
        × (get_value opts k ≡ ltb 0 (count k opts.values))
        × (elem k (get_map opts) ≡ get_value opts k)
        × Unique (get_map opts)
  unfolding delete_value get_value get_map
  delete_value-count key k = (
    count-delete_first k key opts.values,
    elem-count k opts.values,
    elem-members_onto k opts.values [] ∙ unfold elem in ground arith,
    Unique-members_onto opts.values [] tt,
  )
