-- ===== src/Interpolation/Interpolate/Replaced.antt =====
-- What `Interpolate` of cli/compose/interpolation/interpolation.go makes of each string.
use docker_cli.Prelude.{◌≡◌, refl, sym, [], ◌∷◌, Result, ok, err, ◌>>=◌}
use docker_cli.Text.{Text}
use docker_cli.Interpolation.Interpolate.Outcomes.{
  Becomes, text_outcome_lem, FailsFirst, first_error-FailsFirst,
}
use docker_cli.Interpolation.Value.{
  Value, text, mapping, list, other, Members, no_members, member, Items, no_items, item,
}
use docker_cli.Interpolation.Paths.{KeyPath, new_path, next, path_match_list}
use docker_cli.Interpolation.Interpolate.{
  PathError, Options, interpolate_text, recursive_interpolate, interpolate_members,
  interpolate_items, interpolate_config, interpolate, GivenOptions, with_defaults,
}
use docker_cli.Template.Functions.{Mapping}
use docker_cli.Interpolation.Interpolate.Leaves.{first_error, config_leaves, error_of, config_error}

-- What holds of a result, if it is one.
abbrev pub IfOk {ℓ κ} : {E : Type 0} {A : Type ℓ} → (A → Type κ) → Result E A → Type κ
IfOk P (ok a) = P a
IfOk P (err e) = Unit

IfOk-bind :
    {E A B : Type 0} (P : A → Type 0) (Q : B → Type 0) (m : Result E A) (f : A → B)
    → ((a : A) → P a → Q (f a))
    → IfOk P m
    → IfOk Q (m >>= λ a. ok (f a))
IfOk-bind P Q (ok a) f h p = h a p
IfOk-bind P Q (err e) f h p = tt

IfOk-two :
    {E A B C : Type 0} (P : A → Type 0) (Q : B → Type 0) (R : C → Type 0) (m : Result E A)
    (n : Result E B) (f : A → B → C)
    → ((a : A) (b : B) → P a → Q b → R (f a b))
    → IfOk P m
    → IfOk Q n
    → IfOk R (m >>= λ a. n >>= λ b. ok (f a b))
IfOk-two P Q R (ok a) (ok b) f h p q = h a b p q
IfOk-two P Q R (ok a) (err e) f h p q = tt
IfOk-two P Q R (err e) n f h p q = tt

module _ {E O : Type 0} (opts : Options E O) where
  becomes_lem :
      (s : Text) (p : KeyPath) (r : Result (PathError E) (Value O))
      → interpolate_text opts s p ≡ r
      → IfOk (λ out. Becomes opts p s (ok out)) r
  becomes_lem s p (ok out) e = text_outcome_lem opts s p (ok out) e
  becomes_lem s p (err f) e = tt

  -- Each string is replaced by what it is interpolated to, and all else is as it was.
  mutual
    pub Replaced : Value O → KeyPath → Value O → Type 0
    Replaced (text s) p out = Becomes opts p s (ok out)
    Replaced (mapping ms) p (mapping out) = ReplacedMembers ms p out
    Replaced (list xs) p (list out) = ReplacedItems xs p out
    Replaced (other o) p out = out ≡ other o
    Replaced _ p out = ⊥

    pub ReplacedMembers : Members O → KeyPath → Members O → Type 0
    ReplacedMembers no_members p no_members = Unit
    ReplacedMembers (member k v ms) p (member k' v' ms') =
        (k ≡ k') × Replaced v (next p k) v' × ReplacedMembers ms p ms'
    ReplacedMembers _ p out = ⊥

    pub ReplacedItems : Items O → KeyPath → Items O → Type 0
    ReplacedItems no_items p no_items = Unit
    ReplacedItems (item v xs) p (item v' xs') =
        Replaced v (next p path_match_list) v' × ReplacedItems xs p xs'
    ReplacedItems _ p out = ⊥

  mutual
    unfolding recursive_interpolate Replaced

    recursive-Replaced :
        (v : Value O) (p : KeyPath) → IfOk (Replaced v p) (recursive_interpolate opts v p)
    recursive-Replaced (text s) p = becomes_lem s p (interpolate_text opts s p) refl
    recursive-Replaced (mapping ms) p =
        IfOk-bind (ReplacedMembers ms p) (Replaced (mapping ms) p) (interpolate_members opts ms p)
          mapping (λ out r. r) (members-Replaced ms p)
    recursive-Replaced (list xs) p =
        IfOk-bind (ReplacedItems xs p) (Replaced (list xs) p) (interpolate_items opts xs p) list
          (λ out r. r) (items-Replaced xs p)
    recursive-Replaced (other o) p = refl

    members-Replaced :
        (ms : Members O) (p : KeyPath) → IfOk (ReplacedMembers ms p) (interpolate_members opts ms p)
    members-Replaced no_members p = tt
    members-Replaced (member k v ms) p =
        IfOk-two (Replaced v (next p k)) (ReplacedMembers ms p) (ReplacedMembers (member k v ms) p)
          (recursive_interpolate opts v (next p k)) (interpolate_members opts ms p) (member k)
          (λ v' ms' r rs. (refl, r, rs)) (recursive-Replaced v (next p k)) (members-Replaced ms p)

    items-Replaced :
        (xs : Items O) (p : KeyPath) → IfOk (ReplacedItems xs p) (interpolate_items opts xs p)
    items-Replaced no_items p = tt
    items-Replaced (item v xs) p =
        IfOk-two (Replaced v (next p path_match_list)) (ReplacedItems xs p)
          (ReplacedItems (item v xs) p) (recursive_interpolate opts v (next p path_match_list))
          (interpolate_items opts xs p) item (λ v' xs' r rs. (r, rs))
          (recursive-Replaced v (next p path_match_list)) (items-Replaced xs p)

  -- Replacement in a configuration, whose keys begin the paths.
  pub ReplacedConfig : Members O → Members O → Type 0
  ReplacedConfig no_members no_members = Unit
  ReplacedConfig (member k v ms) (member k' v' ms') =
      (k ≡ k') × Replaced v (new_path (k ∷ [])) v' × ReplacedConfig ms ms'
  ReplacedConfig _ out = ⊥

  config-Replaced : (ms : Members O) → IfOk (ReplacedConfig ms) (interpolate_config opts ms)
  unfolding interpolate_config ReplacedConfig
  config-Replaced no_members = tt
  config-Replaced (member k v ms) =
      IfOk-two (Replaced v (new_path (k ∷ []))) (ReplacedConfig ms) (ReplacedConfig (member k v ms))
        (recursive_interpolate opts v (new_path (k ∷ []))) (interpolate_config opts ms) (member k)
        (λ v' ms' r rs. (refl, r, rs)) (recursive-Replaced v (new_path (k ∷ [])))
        (config-Replaced ms)

  -- The error of the first string that fails, or the replaced configuration.
  abbrev pub Interpolated : Members O → Result (PathError E) (Members O) → Type 0
  Interpolated config (ok out) = ReplacedConfig config out
  Interpolated config (err e) = FailsFirst opts (config_leaves config) e

  Interpolated_lem :
      (config : Members O) (r : Result (PathError E) (Members O))
      → error_of r ≡ first_error opts (config_leaves config)
      → IfOk (ReplacedConfig config) r
      → Interpolated config r
  Interpolated_lem config (ok out) e h = h
  Interpolated_lem config (err f) e h = first_error-FailsFirst opts (config_leaves config) f (sym e)

-- Interpolation fails where a string of the configuration fails, with the error of the first of them,
-- which names the path of that string and why it failed: the substitution, or the cast for the path.
-- Otherwise each string is replaced by what the substitution makes of it, through the cast for its
-- path unless the substitution left it as it was, and all else stays.
pub interpolate-Interpolated :
    {E O : Type 0} (lookup_env : Mapping) (config : Members O) (given : GivenOptions E O)
    → Interpolated (with_defaults lookup_env given) config (interpolate lookup_env config given)
unfolding interpolate
interpolate-Interpolated lookup_env config given =
    Interpolated_lem (with_defaults lookup_env given) config
      (interpolate_config (with_defaults lookup_env given) config)
      (config_error (with_defaults lookup_env given) config)
      (config-Replaced (with_defaults lookup_env given) config)
