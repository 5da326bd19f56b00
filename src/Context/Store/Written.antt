-- ===== src/Context/Store/Written.antt =====
-- What is read from the store of cli/context/store behind the loops that write files.
use docker_cli.Prelude.{
  ◌≡◌, refl, ◌∙◌, ap, Bool, true, false, ◌&&◌, Option, none, some, [], ◌∷◌, All, if◌then◌else◌,
  arith, inl, inr, is_some, Option-cases,
}
use docker_cli.Text.{Text, eq, split}
use docker_cli.Text.Laws.{eq_iff}
use docker_cli.Maps.{Map, lookup}
use docker_cli.Maps.Laws.{Distinct}
use docker_cli.Context.Paths.{separator}
use docker_cli.Context.Paths.Valid.{IsComponent}
use docker_cli.Context.Import.{TlsData, files_of}
use docker_cli.Context.Disk.{FilePath, Disk, read_file, write_file}
use docker_cli.Context.Store.{Codec, new_store}
use docker_cli.Context.Store.Image.{write_files, write_endpoints}
use docker_cli.Context.Store.Places.{tls_file_lem}
use docker_cli.Context.Store.Apart.{same, meta_path, tls_path, same_tls, tls_not_meta}

-- The files of an endpoint, under distinct names that stay below its directory.
abbrev pub AreFiles : Map Text → Type 0
AreFiles files = Distinct files × All (λ f. All IsComponent (split f.0 separator)) files

-- The material of a context: distinct endpoints with plain names, and their files.
abbrev pub IsMaterial : TlsData → Type 0
IsMaterial tls = Distinct tls × All (λ e. IsComponent e.0 × AreFiles e.1) tls

-- The file of an endpoint.
abbrev pub file_of : TlsData → Text → Text → Option Text
file_of tls ep f = lookup f (files_of (lookup ep tls))

abbrev pub or_else : Option Text → Option Text → Option Text
or_else (some a) o = some a
or_else none o = o

choose_lem :
    (a b c : Bool) (rest old : Option Text) (content : Text)
    → (c ≡ true → rest ≡ none)
    → (if a && b
        then or_else rest (if a && (b && c) then some content else old)
        else (if a && (b && c) then some content else old))
      ≡ (if a && b then or_else (if c then some content else rest) old else old)
choose_lem true true true rest old content h = rw (h refl) refl
choose_lem true true false rest old content h = refl
choose_lem true false c rest old content h = refl
choose_lem false b c rest old content h = refl

absent_lem {ℓ} :
    {V : Type ℓ} (f g : Text) (files : Map V)
    → is_some (lookup f files) ≡ false
    → eq f g ≡ true
    → lookup g files ≡ none
absent_lem f g files h e = elim (Option-cases (lookup g files)) [
  | inl n ↦ n
  | inr (a, k) ↦ let same = (eq_iff f g).0 e in cc
]

material_lem :
    (a b : Bool) (files : Map Text) (tls : TlsData) (d g : Text) (old : Option Text)
    → (b ≡ true → lookup d tls ≡ none)
    → (if a
        then or_else (file_of tls d g) (if a && b then or_else (lookup g files) old else old)
        else (if a && b then or_else (lookup g files) old else old))
      ≡ (if a
          then or_else (lookup g (files_of (if b then some files else lookup d tls))) old
          else old)
unfolding lookup
material_lem true true files tls d g old h = rw (h refl) refl
material_lem true false files tls d g old h = refl
material_lem false b files tls d g old h = refl

module _ {ℓ κ} {E : Type ℓ} {V : Type κ} (codec : Codec E V)
    (plain : (n : Text) → IsComponent (codec.digest n)) (root : FilePath) where
  abbrev pub at_tls : Text → Text → Text → Disk → Option Text
  at_tls n ep f disk = read_file (tls_path codec.digest root n ep f) disk

  abbrev pub at_meta : Text → Disk → Option Text
  at_meta n disk = read_file (meta_path codec.digest root n) disk

  pub at_tls-write :
      (n ep f content m d g : Text) (disk : Disk)
      → at_tls m d g (write_file (tls_path codec.digest root n ep f) content disk)
        ≡ (if same codec.digest n m && (eq ep d && eq f g) then some content else at_tls m d g disk)
  unfolding read_file
  at_tls-write n ep f content m d g disk = rw (same_tls codec.digest root n ep f m d g) refl

  pub at_meta-write_tls :
      (n ep f content m : Text) (disk : Disk)
      → at_meta m (write_file (tls_path codec.digest root n ep f) content disk) ≡ at_meta m disk
  unfolding read_file
  at_meta-write_tls n ep f content m disk = rw (tls_not_meta codec.digest root m n ep f) refl

  pub at_tls-write_files :
      (n ep : Text) (files : Map Text) (m d g : Text) (disk : Disk)
      → IsComponent ep
      → AreFiles files
      → at_tls m d g (write_files codec (new_store root) n ep files disk) ≡ (
          if same codec.digest n m && eq ep d
          then or_else (lookup g files) (at_tls m d g disk)
          else at_tls m d g disk)
  unfolding write_files lookup
  at_tls-write_files n ep [] m d g disk h k = ground arith
  at_tls-write_files n ep ((f, content) ∷ files) m d g disk h ((n', ds), (p, ps)) =
      ap
        (λ q.
          at_tls m d g (write_files codec (new_store root) n ep files (write_file q content disk)))
        (tls_file_lem codec.digest plain root n ep f (h, p))
      ∙ at_tls-write_files n ep files m d g
          (write_file (tls_path codec.digest root n ep f) content disk) h (ds, ps)
      ∙ ap (λ o. if same codec.digest n m && eq ep d then or_else (lookup g files) o else o)
          (at_tls-write n ep f content m d g disk)
      ∙ choose_lem (same codec.digest n m) (eq ep d) (eq f g) (lookup g files) (at_tls m d g disk)
          content (absent_lem f g files n')

  pub at_meta-write_files :
      (n ep : Text) (files : Map Text) (m : Text) (disk : Disk)
      → IsComponent ep
      → AreFiles files
      → at_meta m (write_files codec (new_store root) n ep files disk) ≡ at_meta m disk
  unfolding write_files
  at_meta-write_files n ep [] m disk h k = refl
  at_meta-write_files n ep ((f, content) ∷ files) m disk h ((_, ds), (p, ps)) =
      ap
        (λ q. at_meta m (write_files codec (new_store root) n ep files (write_file q content disk)))
        (tls_file_lem codec.digest plain root n ep f (h, p))
      ∙ at_meta-write_files n ep files m
          (write_file (tls_path codec.digest root n ep f) content disk) h (ds, ps)
      ∙ at_meta-write_tls n ep f content m disk

  pub at_meta-write_endpoints :
      (n : Text) (tls : TlsData) (m : Text) (disk : Disk)
      → IsMaterial tls
      → at_meta m (write_endpoints codec (new_store root) n tls disk) ≡ at_meta m disk
  unfolding write_endpoints
  at_meta-write_endpoints n [] m disk k = refl
  at_meta-write_endpoints n ((ep, files) ∷ tls) m disk ((_, ds), ((h, k), ks)) =
      at_meta-write_endpoints n tls m (write_files codec (new_store root) n ep files disk) (ds, ks)
      ∙ at_meta-write_files n ep files m disk h k

  pub at_tls-write_endpoints :
      (n : Text) (tls : TlsData) (m d g : Text) (disk : Disk)
      → IsMaterial tls
      → at_tls m d g (write_endpoints codec (new_store root) n tls disk) ≡ (
          if same codec.digest n m
          then or_else (file_of tls d g) (at_tls m d g disk)
          else at_tls m d g disk)
  unfolding write_endpoints lookup
  at_tls-write_endpoints n [] m d g disk k = ground arith
  at_tls-write_endpoints n ((ep, files) ∷ tls) m d g disk ((e, ds), ((h, k), ks)) =
      at_tls-write_endpoints n tls m d g (write_files codec (new_store root) n ep files disk)
        (ds, ks)
      ∙ ap (λ o. if same codec.digest n m then or_else (file_of tls d g) o else o)
          (at_tls-write_files n ep files m d g disk h k)
      ∙ material_lem (same codec.digest n m) (eq ep d) files tls d g (at_tls m d g disk)
          (absent_lem ep d tls e)
