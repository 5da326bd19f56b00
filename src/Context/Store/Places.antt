-- ===== src/Context/Store/Places.antt =====
-- Where the store of cli/context/store keeps what is written.
use docker_cli.Prelude.{
  ◌≡◌, ◌↔◌, refl, sym, ◌∙◌, ap, Bool, true, false, List, [], ◌∷◌, ◌++◌, All, arith, append_assoc,
}
use docker_cli.Text.{Text, codes, eq, split, join}
use docker_cli.Text.Laws.{eq_iff, join-split}
use docker_cli.Context.Paths.{separator, meta_file}
use docker_cli.Context.Paths.Valid.{IsComponent}
use docker_cli.Context.Disk.{FilePath, same_path, join_path}
use docker_cli.Context.Disk.Laws.{join_path-append, join_path-component, same_path_iff}
use docker_cli.Context.Store.{new_store}

-- Where a file of a name, endpoint and file name stands below the root of the store.
abbrev pub meta_part : Text → List Text
meta_part id = codes "meta" ∷ id ∷ meta_file ∷ []

abbrev pub tls_part : Text → Text → Text → List Text
tls_part id endpoint file = codes "tls" ∷ id ∷ endpoint ∷ split file separator

-- The file of an endpoint can be named.
abbrev pub IsPlace : Text → Text → Type 0
IsPlace endpoint file = IsComponent endpoint × All IsComponent (split file separator)

pub Bool_ext : (a b : Bool) → ((a ≡ true) ↔ (b ≡ true)) → a ≡ b
Bool_ext true b (h, k) = sym (h refl)
Bool_ext false true (h, k) = k refl
Bool_ext false false h = refl

pub same_split : (f g : Text) → same_path (split f separator) (split g separator) ≡ eq f g
same_split f g = Bool_ext (same_path (split f separator) (split g separator)) (eq f g) (
  (λ h. (eq_iff f g).1 (
      sym (join-split f separator)
      ∙ ap (λ l. join l (separator ∷ [])) ((same_path_iff _ _).0 h)
      ∙ join-split g separator)),
  (λ h. (same_path_iff _ _).1 (ap (λ t. split t separator) ((eq_iff f g).0 h))),
)

meta-IsComponent : IsComponent (codes "meta")
meta-IsComponent = (((λ e. cc), (λ e. cc), (λ e. cc)), omega arith)

tls-IsComponent : IsComponent (codes "tls")
tls-IsComponent = (((λ e. cc), (λ e. cc), (λ e. cc)), omega arith)

meta_file-IsComponent : IsComponent meta_file
meta_file-IsComponent = (((λ e. cc), (λ e. cc), (λ e. cc)), omega arith)

join_component :
    (root p : FilePath) (c : Text) → IsComponent c → join_path (root ++ p) c ≡ root ++ (p ++ c ∷ [])
join_component root p c h = join_path-component (root ++ p) c h ∙ append_assoc root p (c ∷ [])

meta_root_lem : (root : FilePath) → (new_store root).meta_root ≡ root ++ codes "meta" ∷ []
unfolding new_store
meta_root_lem root = join_path-component root (codes "meta") meta-IsComponent

tls_root_lem : (root : FilePath) → (new_store root).tls_root ≡ root ++ codes "tls" ∷ []
unfolding new_store
tls_root_lem root = join_path-component root (codes "tls") tls-IsComponent

module _ (digest : Text → Text) (plain : (n : Text) → IsComponent (digest n))
    (root : FilePath) where
  pub meta_dir_lem :
      (n : Text)
      → join_path (new_store root).meta_root (digest n) ≡ root ++ codes "meta" ∷ digest n ∷ []
  meta_dir_lem n =
      ap (λ p. join_path p (digest n)) (meta_root_lem root)
      ∙ join_component root (codes "meta" ∷ []) (digest n) (plain n)

  pub meta_file_lem :
      (n : Text)
      → join_path (join_path (new_store root).meta_root (digest n)) meta_file
        ≡ root ++ meta_part (digest n)
  meta_file_lem n =
      ap (λ p. join_path p meta_file) (meta_dir_lem n)
      ∙ join_component root (codes "meta" ∷ digest n ∷ []) meta_file meta_file-IsComponent

  pub tls_dir_lem :
      (n : Text)
      → join_path (new_store root).tls_root (digest n) ≡ root ++ codes "tls" ∷ digest n ∷ []
  tls_dir_lem n =
      ap (λ p. join_path p (digest n)) (tls_root_lem root)
      ∙ join_component root (codes "tls" ∷ []) (digest n) (plain n)

  pub endpoint_dir_lem :
      (n ep : Text)
      → IsComponent ep
      → join_path (join_path (new_store root).tls_root (digest n)) ep
        ≡ root ++ codes "tls" ∷ digest n ∷ ep ∷ []
  endpoint_dir_lem n ep h =
      ap (λ p. join_path p ep) (tls_dir_lem n)
      ∙ join_component root (codes "tls" ∷ digest n ∷ []) ep h

  pub tls_file_lem :
      (n ep f : Text)
      → IsPlace ep f
      → join_path (join_path (join_path (new_store root).tls_root (digest n)) ep) f
        ≡ root ++ tls_part (digest n) ep f
  tls_file_lem n ep f (h, k) =
      ap (λ p. join_path p f) (endpoint_dir_lem n ep h)
      ∙ join_path-append (root ++ codes "tls" ∷ digest n ∷ ep ∷ []) f k
      ∙ append_assoc root (codes "tls" ∷ digest n ∷ ep ∷ []) (split f separator)
