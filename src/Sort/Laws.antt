-- ===== src/Sort/Laws.antt =====
-- The order of texts is total, and sorting permutes, orders and keeps what holds of all elements.
use mathlib.Core.List.{Perm}
use mathlib.Core.List.Perm
use docker_cli.Prelude.{◌≡◌, refl, true, false, List, [], ◌∷◌, All, arith, Bool-cases, inl, inr}
use docker_cli.Text.{Text}
use docker_cli.Maps.{elem}
use docker_cli.Sort.{text_le, insert_by, sort_by, sort_strings}

pub text_le_refl : (s : Text) → text_le s s ≡ true
unfolding text_le
text_le_refl [] = refl
text_le_refl (a ∷ s) = ground (arith, text_le_refl s)

pub text_le_total : (s t : Text) → text_le s t ≡ false → text_le t s ≡ true
unfolding text_le
text_le_total [] t h = cc
text_le_total (a ∷ s) [] h = refl
text_le_total (a ∷ s) (b ∷ t) h = ground (arith, text_le_total s t)

pub text_le_trans : (s t u : Text) → text_le s t ≡ true → text_le t u ≡ true → text_le s u ≡ true
unfolding text_le
text_le_trans [] t u h k = refl
text_le_trans (a ∷ s) [] u h k = cc
text_le_trans (a ∷ s) (b ∷ t) [] h k = cc
text_le_trans (a ∷ s) (b ∷ t) (c ∷ u) h k = ground (arith, text_le_trans s t u)

module _ {ℓ} {A : Type ℓ} (key : A → Text) where
  pub insert_by-perm : (x : A) (xs : List A) → Perm (insert_by key x xs) (x ∷ xs)
  unfolding insert_by
  insert_by-perm x [] = Perm.refl _
  insert_by-perm x (y ∷ ys) = elim (Bool-cases (text_le (key x) (key y))) [
    | inl e ↦ rw e (Perm.refl _)
    | inr e ↦ rw e (Perm.trans (Perm.cons y (insert_by-perm x ys)) (Perm.swap _ _ _))
  ]

  pub sort_by-perm : (xs : List A) → Perm (sort_by key xs) xs
  unfolding sort_by
  sort_by-perm [] = Perm.refl _
  sort_by-perm (x ∷ xs) =
      Perm.trans (insert_by-perm x (sort_by key xs)) (Perm.cons x (sort_by-perm xs))

  -- Every element is below those behind it.
  abbrev pub IsSorted : List A → Type 0
  IsSorted [] = Unit
  IsSorted (x ∷ xs) = All (λ y. text_le (key x) (key y) ≡ true) xs × IsSorted xs

  All-insert_by {κ} :
      (P : A → Type κ) (x : A) (xs : List A) → P x → All P xs → All P (insert_by key x xs)
  unfolding insert_by
  All-insert_by P x [] p h = (p, tt)
  All-insert_by P x (y ∷ ys) p (q, h) = elim (Bool-cases (text_le (key x) (key y))) [
    | inl e ↦ rw e (p, (q, h))
    | inr e ↦ rw e (q, All-insert_by P x ys p h)
  ]

  pub All-sort_by {κ} : (P : A → Type κ) (xs : List A) → All P xs → All P (sort_by key xs)
  unfolding sort_by
  All-sort_by P [] h = tt
  All-sort_by P (x ∷ xs) (p, h) = All-insert_by P x (sort_by key xs) p (All-sort_by P xs h)

  All-le :
      (x y : A) (ys : List A)
      → text_le (key x) (key y) ≡ true
      → All (λ z. text_le (key y) (key z) ≡ true) ys
      → All (λ z. text_le (key x) (key z) ≡ true) ys
  All-le x y [] e h = tt
  All-le x y (z ∷ zs) e (p, h) = (text_le_trans (key x) (key y) (key z) e p, All-le x y zs e h)

  insert_by-IsSorted : (x : A) (xs : List A) → IsSorted xs → IsSorted (insert_by key x xs)
  unfolding insert_by
  insert_by-IsSorted x [] h = (tt, tt)
  insert_by-IsSorted x (y ∷ ys) (p, h) = elim (Bool-cases (text_le (key x) (key y))) [
    | inl e ↦ rw e ((e, All-le x y ys e p), (p, h))
    | inr e ↦ rw e (
      All-insert_by (λ z. text_le (key y) (key z) ≡ true) x ys (text_le_total (key x) (key y) e) p,
      insert_by-IsSorted x ys h,
    )
  ]

  pub sort_by-IsSorted : (xs : List A) → IsSorted (sort_by key xs)
  unfolding sort_by
  sort_by-IsSorted [] = tt
  sort_by-IsSorted (x ∷ xs) = insert_by-IsSorted x (sort_by key xs) (sort_by-IsSorted xs)

pub elem-insert_by :
    (k x : Text) (xs : List Text) → elem k (insert_by (λ s. s) x xs) ≡ elem k (x ∷ xs)
unfolding elem insert_by
elem-insert_by k x [] = refl
elem-insert_by k x (y ∷ ys) = ground (arith, elem-insert_by k x ys)

-- Sorting changes no membership.
pub elem-sort_strings : (k : Text) (xs : List Text) → elem k (sort_strings xs) ≡ elem k xs
unfolding sort_strings elem
elem-sort_strings k [] = refl
elem-sort_strings k (x ∷ xs) =
    ground (arith, elem-insert_by k x (sort_by (λ s. s) xs), elem-sort_strings k xs)

pub sort_strings-IsSorted : (xs : List Text) → IsSorted (λ s. s) (sort_strings xs)
unfolding sort_strings
sort_strings-IsSorted xs = sort_by-IsSorted (λ s. s) xs
