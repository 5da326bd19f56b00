-- ===== src/Sort/Orders.antt =====
-- Sorting by any total order: what holds of some element, and that the result is ordered.
use docker_cli.Prelude.{◌≡◌, refl, Bool, true, false, List, [], ◌∷◌, any, arith}
use docker_cli.Sort.{insert_with, sort_with}

module _ {ℓ} {A : Type ℓ} (le : A → A → Bool) where
  pub any-insert_with :
      (p : A → Bool) (x : A) (xs : List A) → any p (insert_with le x xs) ≡ any p (x ∷ xs)
  unfolding insert_with
  any-insert_with p x [] = refl
  any-insert_with p x (y ∷ ys) = ground (arith, any-insert_with p x ys)

  -- Sorting neither adds nor loses an element, whatever a test tells of it.
  pub any-sort_with : (p : A → Bool) (xs : List A) → any p (sort_with le xs) ≡ any p xs
  unfolding sort_with
  any-sort_with p [] = refl
  any-sort_with p (x ∷ xs) =
      ground (arith, any-insert_with p x (sort_with le xs), any-sort_with p xs)

  -- Neighbours are in order.
  abbrev pub Ordered : List A → Type 0
  Ordered [] = Unit
  Ordered (x ∷ []) = Unit
  Ordered (x ∷ (y ∷ ys)) = (le x y ≡ true) × Ordered (y ∷ ys)

  module _ (total : (x y : A) → le x y ≡ false → le y x ≡ true) where
    insert_with-Ordered : (x : A) (xs : List A) → Ordered xs → Ordered (insert_with le x xs)
    unfolding insert_with
    insert_with-Ordered x [] h = tt
    insert_with-Ordered x (y ∷ []) h = ground (arith, total x y)
    insert_with-Ordered x (y ∷ (z ∷ zs)) (p, h) =
        ground (arith, total x y, insert_with-Ordered x (z ∷ zs) h)

    pub sort_with-Ordered : (xs : List A) → Ordered (sort_with le xs)
    unfolding sort_with
    sort_with-Ordered [] = tt
    sort_with-Ordered (x ∷ xs) = insert_with-Ordered x (sort_with le xs) (sort_with-Ordered xs)
