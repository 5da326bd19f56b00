-- ===== src/Context/Store/Apart.antt =====
-- The places of the store of cli/context/store are apart: which lie at or below another.
use docker_cli.Prelude.{◌≡◌, ◌∙◌, false, ◌&&◌, [], ◌∷◌, ◌++◌, arith, Bool}
use docker_cli.Text.{Text, codes, eq}
use docker_cli.Context.Disk.{FilePath, same_path, is_below}
use docker_cli.Context.Disk.Laws.{same_path_append, is_below_append}
use docker_cli.Context.Store.Places.{meta_part, tls_part, same_split}

-- Whether two names have one digest, so one directory.
abbrev pub same : (Text → Text) → Text → Text → Bool
same digest n m = eq (digest n) (digest m)

module _ (digest : Text → Text) (root : FilePath) where
  abbrev pub meta_path : Text → FilePath
  meta_path n = root ++ meta_part (digest n)

  abbrev pub tls_path : Text → Text → Text → FilePath
  tls_path n ep f = root ++ tls_part (digest n) ep f

  pub same_meta : (n m : Text) → same_path (meta_path n) (meta_path m) ≡ same digest n m
  unfolding same_path eq
  same_meta n m = same_path_append root (meta_part (digest n)) (meta_part (digest m)) ∙ ground arith

  pub meta_not_tls : (n m ep f : Text) → same_path (meta_path n) (tls_path m ep f) ≡ false
  unfolding same_path eq
  meta_not_tls n m ep f = same_path_append root (meta_part (digest n)) (tls_part (digest m) ep f)

  pub tls_not_meta : (n m ep f : Text) → same_path (tls_path m ep f) (meta_path n) ≡ false
  unfolding same_path eq
  tls_not_meta n m ep f = same_path_append root (tls_part (digest m) ep f) (meta_part (digest n))

  pub same_tls :
      (n ep f m d g : Text)
      → same_path (tls_path n ep f) (tls_path m d g) ≡ (same digest n m && (eq ep d && eq f g))
  unfolding same_path eq
  same_tls n ep f m d g =
      same_path_append root (tls_part (digest n) ep f) (tls_part (digest m) d g)
      ∙ ground (arith, same_split f g)

  pub below_meta_meta :
      (n m : Text) → is_below (root ++ codes "meta" ∷ digest n ∷ []) (meta_path m) ≡ same digest n m
  unfolding is_below eq
  below_meta_meta n m =
      is_below_append root (codes "meta" ∷ digest n ∷ []) (meta_part (digest m)) ∙ ground arith

  pub below_meta_tls :
      (n m ep f : Text) → is_below (root ++ codes "meta" ∷ digest n ∷ []) (tls_path m ep f) ≡ false
  unfolding is_below eq
  below_meta_tls n m ep f =
      is_below_append root (codes "meta" ∷ digest n ∷ []) (tls_part (digest m) ep f)

  pub below_tls_meta :
      (n m : Text) (p : FilePath)
      → is_below (root ++ codes "tls" ∷ digest n ∷ p) (meta_path m) ≡ false
  unfolding is_below eq
  below_tls_meta n m p = is_below_append root (codes "tls" ∷ digest n ∷ p) (meta_part (digest m))

  pub below_tls_tls :
      (n m ep f : Text)
      → is_below (root ++ codes "tls" ∷ digest n ∷ []) (tls_path m ep f) ≡ same digest n m
  unfolding is_below eq
  below_tls_tls n m ep f =
      is_below_append root (codes "tls" ∷ digest n ∷ []) (tls_part (digest m) ep f) ∙ ground arith

  pub below_endpoint_tls :
      (n ep m d f : Text)
      → is_below (root ++ codes "tls" ∷ digest n ∷ ep ∷ []) (tls_path m d f)
        ≡ (same digest n m && eq ep d)
  unfolding is_below eq
  below_endpoint_tls n ep m d f =
      is_below_append root (codes "tls" ∷ digest n ∷ ep ∷ []) (tls_part (digest m) d f)
      ∙ ground arith
