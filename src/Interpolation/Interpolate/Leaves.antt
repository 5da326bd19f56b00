-- ===== src/Interpolation/Interpolate/Leaves.antt =====
-- The strings of a document with their paths: interpolation fails with the error of the first of
-- them that fails.
use docker_cli.Prelude.{
  ◌≡◌, refl, ◌∙◌, sym, Option, none, some, List, [], ◌∷◌, ◌++◌, Result, ok, err, ◌>>=◌, arith,
}
use docker_cli.Text.{Text}
use docker_cli.Interpolation.Value.{
  Value, text, mapping, list, other, Members, no_members, member, Items, no_items, item,
}
use docker_cli.Interpolation.Paths.{KeyPath, new_path, next, path_match_list}
use docker_cli.Maps.Keyed.{or_else}
use docker_cli.Interpolation.Interpolate.{
  PathError, Options, interpolate_text, recursive_interpolate, interpolate_members,
  interpolate_items, interpolate_config,
}

mutual
  pub leaves : {O : Type 0} → Value O → KeyPath → List (KeyPath × Text)
  leaves (text s) p = (p, s) ∷ []
  leaves (mapping ms) p = member_leaves ms p
  leaves (list xs) p = item_leaves xs p
  leaves (other o) p = []

  pub member_leaves : {O : Type 0} → Members O → KeyPath → List (KeyPath × Text)
  member_leaves no_members p = []
  member_leaves (member k v ms) p = leaves v (next p k) ++ member_leaves ms p

  pub item_leaves : {O : Type 0} → Items O → KeyPath → List (KeyPath × Text)
  item_leaves no_items p = []
  item_leaves (item v xs) p = leaves v (next p path_match_list) ++ item_leaves xs p

-- The strings of a configuration.
pub config_leaves : {O : Type 0} → Members O → List (KeyPath × Text)
config_leaves no_members = []
config_leaves (member k v ms) = leaves v (new_path (k ∷ [])) ++ config_leaves ms

abbrev pub error_of {ℓ} : {E : Type 0} {A : Type ℓ} → Result E A → Option E
error_of (ok a) = none
error_of (err e) = some e

or_else-none {ℓ} : {A : Type ℓ} (o : Option A) → or_else o none ≡ o
or_else-none none = refl
or_else-none (some a) = refl

module _ {E O : Type 0} (opts : Options E O) where
  -- The error of the first string that has one.
  abbrev pub first_error : List (KeyPath × Text) → Option (PathError E)
  first_error [] = none
  first_error ((p, s) ∷ ls) = or_else (error_of (interpolate_text opts s p)) (first_error ls)

  first_error-append :
      (ls ks : List (KeyPath × Text))
      → first_error (ls ++ ks) ≡ or_else (first_error ls) (first_error ks)
  first_error-append [] ks = refl
  first_error-append ((p, s) ∷ ls) ks = ground (arith, first_error-append ls ks)

  error_of-bind {ℓ κ} :
      {A : Type ℓ} {B : Type κ} (m : Result (PathError E) A) (f : A → B)
      → error_of (m >>= λ a. ok (f a)) ≡ error_of m
  error_of-bind (ok a) f = refl
  error_of-bind (err e) f = refl

  error_of-two {ℓ κ ι} :
      {A : Type ℓ} {B : Type κ} {C : Type ι} (m : Result (PathError E) A)
      (n : Result (PathError E) B) (f : A → B → C)
      → error_of (m >>= λ a. n >>= λ b. ok (f a b)) ≡ or_else (error_of m) (error_of n)
  error_of-two (ok a) (ok b) f = refl
  error_of-two (ok a) (err e) f = refl
  error_of-two (err e) n f = refl

  mutual
    unfolding recursive_interpolate leaves

    recursive_error :
        (v : Value O) (p : KeyPath)
        → error_of (recursive_interpolate opts v p) ≡ first_error (leaves v p)
    recursive_error (text s) p = sym (or_else-none (error_of (interpolate_text opts s p)))
    recursive_error (mapping ms) p =
        error_of-bind (interpolate_members opts ms p) mapping ∙ members_error ms p
    recursive_error (list xs) p =
        error_of-bind (interpolate_items opts xs p) list ∙ items_error xs p
    recursive_error (other o) p = refl

    members_error :
        (ms : Members O) (p : KeyPath)
        → error_of (interpolate_members opts ms p) ≡ first_error (member_leaves ms p)
    members_error no_members p = refl
    members_error (member k v ms) p =
        error_of-two (recursive_interpolate opts v (next p k)) (interpolate_members opts ms p)
          (member k)
        ∙ rw (
          recursive_error v (next p k),
          members_error ms p,
          first_error-append (leaves v (next p k)) (member_leaves ms p),
        )

    items_error :
        (xs : Items O) (p : KeyPath)
        → error_of (interpolate_items opts xs p) ≡ first_error (item_leaves xs p)
    items_error no_items p = refl
    items_error (item v xs) p =
        error_of-two (recursive_interpolate opts v (next p path_match_list))
          (interpolate_items opts xs p) item
        ∙ rw (
          recursive_error v (next p path_match_list),
          items_error xs p,
          first_error-append (leaves v (next p path_match_list)) (item_leaves xs p),
        )

  pub config_error :
      (ms : Members O) → error_of (interpolate_config opts ms) ≡ first_error (config_leaves ms)
  unfolding interpolate_config config_leaves
  config_error no_members = refl
  config_error (member k v ms) =
      error_of-two (recursive_interpolate opts v (new_path (k ∷ []))) (interpolate_config opts ms)
        (member k)
      ∙ rw (
        recursive_error v (new_path (k ∷ [])),
        config_error ms,
        first_error-append (leaves v (new_path (k ∷ []))) (config_leaves ms),
      )
