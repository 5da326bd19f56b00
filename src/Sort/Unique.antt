-- ===== src/Sort/Unique.antt =====
-- Lists in which nothing occurs twice, and sets as such lists, for Go's `map[string]bool` and
-- `map[string]struct{}`.
use docker_cli.Prelude.{◌≡◌, refl, ◌∙◌, false, not, ◌&&◌, ◌||◌, List, [], ◌∷◌, arith, if◌then◌else◌}
use docker_cli.Text.{Text, eq}
use docker_cli.Text.Laws.{eq_iff}
use docker_cli.Maps.{elem}
use docker_cli.Sort.{insert_by, sort_strings}
use docker_cli.Sort.Laws.{elem-insert_by, elem-sort_strings}

-- No element occurs twice.
abbrev pub Unique : List Text → Type 0
Unique [] = Unit
Unique (x ∷ xs) = (elem x xs ≡ false) × Unique xs

Unique-insert_by :
    (x : Text) (xs : List Text) → elem x xs ≡ false → Unique xs → Unique (insert_by (λ s. s) x xs)
unfolding insert_by elem
Unique-insert_by x [] n h = (refl, tt)
Unique-insert_by x (y ∷ ys) n (m, h) =
    ground (arith, Unique-insert_by x ys, elem-insert_by y x ys, eq_iff x y, eq_iff y x)

pub sort_strings-Unique : (xs : List Text) → Unique xs → Unique (sort_strings xs)
unfolding sort_strings
sort_strings-Unique [] h = tt
sort_strings-Unique (x ∷ xs) (n, h) =
    Unique-insert_by x (sort_strings xs) (elem-sort_strings x xs ∙ n) (sort_strings-Unique xs h)

-- `m[k] = true`
unfoldable pub add_member : Text → List Text → List Text
unfolding elem
add_member k m = if elem k m then m else k ∷ m

-- `delete(m, k)`
unfoldable pub drop_member : Text → List Text → List Text
drop_member k [] = []
drop_member k (x ∷ m) = let rest = drop_member k m in if eq x k then rest else x ∷ rest

pub elem-add_member : (c k : Text) (m : List Text) → elem c (add_member k m) ≡ (eq k c || elem c m)
unfolding add_member elem
elem-add_member c k m = ground (arith, eq_iff k c)

pub elem-drop_member :
    (c k : Text) (m : List Text) → elem c (drop_member k m) ≡ (elem c m && not (eq k c))
unfolding drop_member elem
elem-drop_member c k [] = refl
elem-drop_member c k (x ∷ m) =
    ground (arith, elem-drop_member c k m, eq_iff x k, eq_iff x c, eq_iff k c)

pub Unique-add_member : (k : Text) (m : List Text) → Unique m → Unique (add_member k m)
unfolding add_member
Unique-add_member k m h = ground arith

pub Unique-drop_member : (k : Text) (m : List Text) → Unique m → Unique (drop_member k m)
unfolding drop_member
Unique-drop_member k [] h = tt
Unique-drop_member k (x ∷ m) (n, h) =
    ground (arith, Unique-drop_member k m h, elem-drop_member x k m)
