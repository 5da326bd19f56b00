-- ===== src/Service/Mounts/Indexed.antt =====
-- The index by target that `updateMounts` of cli/command/service/update.go builds.
use docker_cli.Prelude.{
  ◌≡◌, refl, ap, Bool, false, not, ◌&&◌, ◌||◌, some, List, [], ◌∷◌, any, arith, is_some,
}
use docker_cli.Text.{Text, eq}
use docker_cli.Text.Laws.{eq_iff}
use docker_cli.Maps.{Map, lookup, has_key, insert, values, elem}
use docker_cli.Maps.Laws.{lookup-insert, Distinct, Distinct-insert}
use docker_cli.Maps.Keyed.{or_else, Keyed, Keyed-insert}
use docker_cli.Maps.Index.{find_first, at_key}
use docker_cli.Sort.{insert_with, sort_with}
use docker_cli.Sort.Orders.{any-insert_with, any-sort_with}
use docker_cli.Service.Mounts.{index_new, remove_targets, mount_le}

module _ {M : Type 0} (target source : M → Text) where
  -- Some mount has a target that is in the list.
  abbrev pub clash : List M → Bool
  clash [] = false
  clash (m ∷ ms) = any (λ n. eq (target n) (target m)) ms || clash ms

  pub lookup-index_new :
      (k : Text) (mounts : List M) (m m' : Map M)
      → index_new target source mounts m ≡ some m'
      → lookup k m' ≡ or_else (lookup k m) (find_first target k mounts)
  unfolding index_new has_key
  lookup-index_new k [] m m' h = ground arith
  lookup-index_new k (x ∷ mounts) m m' h = ground (
    arith,
    lookup-index_new k mounts (insert (target x) x m) m',
    lookup-insert (target x) k m x,
    eq_iff (target x) k,
  )

  pub Distinct-index_new :
      (mounts : List M) (m m' : Map M)
      → index_new target source mounts m ≡ some m'
      → Distinct m
      → Distinct m'
  unfolding index_new has_key
  Distinct-index_new [] m m' h d = ground arith
  Distinct-index_new (x ∷ mounts) m m' h d = ground (
    arith,
    Distinct-index_new mounts (insert (target x) x m) m',
    Distinct-insert (target x) x m d,
  )

  pub Keyed-index_new :
      (mounts : List M) (m m' : Map M)
      → index_new target source mounts m ≡ some m'
      → Keyed target m
      → Keyed target m'
  unfolding index_new has_key
  Keyed-index_new [] m m' h d = ground arith
  Keyed-index_new (x ∷ mounts) m m' h d =
      ground (arith, Keyed-index_new mounts (insert (target x) x m) m', Keyed-insert target x m d)

  pub any-remove_targets :
      (k : Text) (p : M → Bool) (rm : List Text) (ms : List M)
      → any (at_key target k p) (remove_targets target source rm ms)
        ≡ (not (elem k rm) && any (at_key target k p) ms)
  unfolding remove_targets
  any-remove_targets k p rm [] = ground arith
  any-remove_targets k p rm (x ∷ ms) =
      ground (arith, any-remove_targets k p rm ms, eq_iff (target x) k)

  -- No two mounts have one target.
  clash-insert_with :
      (x : M) (ms : List M) → clash (insert_with (mount_le target source) x ms) ≡ clash (x ∷ ms)
  unfolding insert_with
  clash-insert_with x [] = refl
  clash-insert_with x (y ∷ ms) = ground (
    arith,
    clash-insert_with x ms,
    any-insert_with (mount_le target source) (λ n. eq (target n) (target y)) x ms,
    eq_iff (target x) (target y),
    eq_iff (target y) (target x),
  )

  pub clash-sort_with : (ms : List M) → clash (sort_with (mount_le target source) ms) ≡ clash ms
  unfolding sort_with
  clash-sort_with [] = refl
  clash-sort_with (x ∷ ms) = ground (
    arith,
    clash-insert_with x (sort_with (mount_le target source) ms),
    clash-sort_with ms,
    any-sort_with (mount_le target source) (λ n. eq (target n) (target x)) ms,
  )

  any-value_targets :
      (k : Text) (m : Map M)
      → Keyed target m
      → any (λ n. eq (target n) k) (values m) ≡ is_some (lookup k m)
  unfolding lookup
  any-value_targets k [] h = refl
  any-value_targets k ((j, v) ∷ m) (e, h) =
      ground (arith, any-value_targets k m h, eq_iff (target v) k, eq_iff j k)

  pub clash-values : (m : Map M) → Distinct m → Keyed target m → clash (values m) ≡ false
  unfolding lookup
  clash-values [] d h = refl
  clash-values ((j, v) ∷ m) (n, d) (e, h) = ground (
    arith,
    clash-values m d h,
    any-value_targets j m h,
    ap (λ t. is_some (lookup t m)) e,
    ap (λ t. any (λ x. eq (target x) t) (values m)) e,
  )

  any-left_targets :
      (k : Text) (rm : List Text) (ms : List M)
      → any (λ n. eq (target n) k) ms ≡ false
      → any (λ n. eq (target n) k) (remove_targets target source rm ms) ≡ false
  unfolding remove_targets
  any-left_targets k rm [] h = refl
  any-left_targets k rm (x ∷ ms) h = ground (arith, any-left_targets k rm ms)

  pub clash-remove_targets :
      (rm : List Text) (ms : List M)
      → clash ms ≡ false
      → clash (remove_targets target source rm ms) ≡ false
  unfolding remove_targets
  clash-remove_targets rm [] h = refl
  clash-remove_targets rm (x ∷ ms) h =
      ground (arith, clash-remove_targets rm ms, any-left_targets (target x) rm ms)

  any-has_key-insert :
      (x : M) (m : Map M) (ms : List M)
      → any (λ n. has_key (target n) (insert (target x) x m)) ms
        ≡ (any (λ n. eq (target n) (target x)) ms || any (λ n. has_key (target n) m) ms)
  unfolding has_key
  any-has_key-insert x m [] = refl
  any-has_key-insert x m (y ∷ ms) = ground (
    arith,
    any-has_key-insert x m ms,
    lookup-insert (target x) (target y) m x,
    eq_iff (target x) (target y),
    eq_iff (target y) (target x),
  )

  pub is_some-index_new :
      (ms : List M) (m : Map M)
      → is_some (index_new target source ms m)
        ≡ not (clash ms || any (λ n. has_key (target n) m) ms)
  unfolding index_new
  is_some-index_new [] m = refl
  is_some-index_new (x ∷ ms) m =
      ground (arith, is_some-index_new ms (insert (target x) x m), any-has_key-insert x m ms)
