-- ===== src/Sort.antt =====
-- Go's `sort.Strings` and `sort.SliceStable`, as insertion by a key that is a text. Strings that
-- compare equal are equal, so the result of `sort.Strings` does not depend on the algorithm; a
-- stable sort has one result for any order.
pub mod Laws
pub mod Orders
pub mod Unique
use docker_cli.Prelude.{ℕ, Bool, true, false, ◌&&◌, ◌||◌, List, [], ◌∷◌, ltb, ◌==◌, if◌then◌else◌}
use docker_cli.Text.{Text}

-- `s <= t`, by code points: on valid UTF-8 this is the order of the bytes.
unfoldable pub text_le : Text → Text → Bool
text_le [] t = true
text_le (a ∷ s) [] = false
text_le (a ∷ s) (b ∷ t) = ltb a b || (a == b && text_le s t)

module _ {ℓ} {A : Type ℓ} (key : A → Text) where
  unfoldable pub insert_by : A → List A → List A
  unfolding text_le
  insert_by x [] = x ∷ []
  insert_by x (y ∷ ys) =
      let later = insert_by x ys in if text_le (key x) (key y) then x ∷ (y ∷ ys) else y ∷ later

  unfoldable pub sort_by : List A → List A
  unfolding insert_by
  sort_by [] = []
  sort_by (x ∷ xs) = insert_by x (sort_by xs)

-- `sort.Slice`, which is not stable: insertion by any order, for lists in which it does not matter.
module _ {ℓ} {A : Type ℓ} (le : A → A → Bool) where
  unfoldable pub insert_with : A → List A → List A
  insert_with x [] = x ∷ []
  insert_with x (y ∷ ys) =
      let later = insert_with x ys in if le x y then x ∷ (y ∷ ys) else y ∷ later

  unfoldable pub sort_with : List A → List A
  unfolding insert_with
  sort_with [] = []
  sort_with (x ∷ xs) = insert_with x (sort_with xs)

-- `sort.Strings`
unfoldable pub sort_strings : List Text → List Text
unfolding sort_by
sort_strings = sort_by (λ s. s)
