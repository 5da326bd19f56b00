-- ===== src/Context/Store/Simulated.antt =====
-- What the disk holds behind the calls of the store of cli/context/store that succeed, by the list of
-- files.
use docker_cli.Prelude.{
  ◌≡◌, refl, sym, ◌∙◌, ap, Option, none, some, [], ◌∷◌, ◌++◌, if◌then◌else◌, Result, ok, err,
}
use docker_cli.Text.{Text}
use docker_cli.Maps.{Map}
use docker_cli.Context.Paths.Valid.{IsComponent}
use docker_cli.Context.Import.{Metadata, TlsData}
use docker_cli.Context.Disk.{FilePath, Disk, same_path, is_below, read_file}
use docker_cli.Context.Disk
use docker_cli.Context.Disk.Laws.{read_file-remove_all}
use docker_cli.Context.Store.{
  Codec, new_store, Os, then_do, write_metadata, create_or_update, remove_context, write_file,
  write_files, write_endpoints, reset_tls_material, reset_endpoint_tls_material, metadata_dir,
  tls_dir, endpoint_dir,
}
use docker_cli.Context.Store.Image

abbrev pub answer {ℓ κ} : {E : Type ℓ} {A : Type κ} → Result E A → Option A
answer (ok a) = some a
answer (err e) = none

-- What `os.ReadFile` gives, if anything.
abbrev pub content {ℓ ι} : {E : Type ℓ} {S : Type ι} → Os E S → FilePath → S → Option Text
content os p s = answer (os.read_file p s)

-- What the packages `os` and `ioutils` promise of a call that succeeds: making directories leaves all
-- files, a file is written and no other, and what lies at or below a path is removed and nothing else.
pub record OsLaws {ℓ ι} {E : Type ℓ} {S : Type ι} (os : Os E S) : Type (ℓ ⊔ ι) where
  pub mkdir_all_lem :
      (p q : FilePath) (s : S)
      → (os.mkdir_all p s).1 ≡ ok tt
      → content os q (os.mkdir_all p s).0 ≡ content os q s
  pub atomic_write_file_lem :
      (p : FilePath) (bytes : Text) (q : FilePath) (s : S)
      → (os.atomic_write_file p bytes s).1 ≡ ok tt
      → content os q (os.atomic_write_file p bytes s).0
        ≡ (if same_path p q then some bytes else content os q s)
  pub remove_all_lem :
      (p q : FilePath) (s : S)
      → (os.remove_all p s).1 ≡ ok tt
      → content os q (os.remove_all p s).0 ≡ (if is_below p q then none else content os q s)

module _ {ℓ κ ι} {E : Type ℓ} {V : Type κ} (codec : Codec E V)
    (plain : (n : Text) → IsComponent (codec.digest n)) (root : FilePath) {S : Type ι} (os : Os E S)
    (laws : OsLaws os) where
  -- The files below the root are those of the list.
  abbrev pub Shows : S → Disk → Type 0
  Shows s disk = (p : FilePath) → content os (root ++ p) s ≡ read_file (root ++ p) disk

  mkdir_all-Shows :
      (p : FilePath) (s : S) (disk : Disk)
      → Shows s disk
      → (os.mkdir_all p s).1 ≡ ok tt
      → Shows (os.mkdir_all p s).0 disk
  mkdir_all-Shows p s disk h e q = laws.mkdir_all_lem p (root ++ q) s e ∙ h q

  write-Shows :
      (p : FilePath) (bytes : Text) (s : S) (disk : Disk)
      → Shows s disk
      → (os.atomic_write_file p bytes s).1 ≡ ok tt
      → Shows (os.atomic_write_file p bytes s).0 (Disk.write_file p bytes disk)
  unfolding read_file
  write-Shows p bytes s disk h e q =
      laws.atomic_write_file_lem p bytes (root ++ q) s e
      ∙ ap (λ o. if same_path p (root ++ q) then some bytes else o) (h q)

  remove-Shows :
      (p : FilePath) (s : S) (disk : Disk)
      → Shows s disk
      → (os.remove_all p s).1 ≡ ok tt
      → Shows (os.remove_all p s).0 (Disk.remove_all p disk)
  remove-Shows p s disk h e q =
      laws.remove_all_lem p (root ++ q) s e
      ∙ ap (λ o. if is_below p (root ++ q) then none else o) (h q)
      ∙ sym (read_file-remove_all p (root ++ q) disk)

  -- Where a call and the rest succeed, the list goes through what both make of it.
  pub then_do-Shows :
      (r : S × Result E (Unit {0})) (next : S → S × Result E (Unit {0})) (middle last : Disk)
      → (r.1 ≡ ok tt → Shows r.0 middle)
      → ((s : S) → Shows s middle → (next s).1 ≡ ok tt → Shows (next s).0 last)
      → (then_do r next).1 ≡ ok tt
      → Shows (then_do r next).0 last
  then_do-Shows (s, ok _) next middle last h k e = k s (h refl) e
  then_do-Shows (s, err f) next middle last h k e = cc

  write_metadata-Shows :
      (name : Text) (bytes : Result E Text) (s : S) (disk : Disk)
      → Shows s disk
      → (write_metadata codec (new_store root) os name bytes s).1 ≡ ok tt
      → Shows
          (write_metadata codec (new_store root) os name bytes s).0
          (Image.write_metadata codec (new_store root) name bytes disk)
  write_metadata-Shows name (err f) s disk h e = cc
  write_metadata-Shows name (ok bytes) s disk h e = write-Shows _ bytes s disk h e

  pub create_or_update-Shows :
      (meta : Metadata V) (s : S) (disk : Disk)
      → Shows s disk
      → (create_or_update codec (new_store root) os meta s).1 ≡ ok tt
      → Shows
          (create_or_update codec (new_store root) os meta s).0
          (Image.create_or_update codec (new_store root) meta disk)
  unfolding create_or_update Image.create_or_update
  create_or_update-Shows meta s disk h =
      then_do-Shows _ _ disk _ (mkdir_all-Shows _ s disk h)
        (λ s' h'. write_metadata-Shows meta.name (codec.marshal meta) s' disk h')

  pub remove_context-Shows :
      (name : Text) (s : S) (disk : Disk)
      → Shows s disk
      → (remove_context codec (new_store root) os name s).1 ≡ ok tt
      → Shows
          (remove_context codec (new_store root) os name s).0
          (Image.remove_context codec (new_store root) name disk)
  unfolding remove_context Image.remove_context
  remove_context-Shows name s disk h =
      let dir = metadata_dir codec (new_store root) name in
      then_do-Shows _ _ (Disk.remove_all dir disk) _ (remove-Shows dir s disk h)
        (λ s' h'. remove-Shows _ s' (Disk.remove_all dir disk) h')

  write_file-Shows :
      (name ep file bytes : Text) (s : S) (disk : Disk)
      → Shows s disk
      → (write_file codec (new_store root) os name ep file bytes s).1 ≡ ok tt
      → Shows (write_file codec (new_store root) os name ep file bytes s).0 (
          Disk.write_file
            (Disk.join_path (endpoint_dir codec (new_store root) name ep) file)
            bytes
            disk)
  write_file-Shows name ep file bytes s disk h =
      then_do-Shows _ _ disk _ (mkdir_all-Shows _ s disk h) (λ s1 h1.
        then_do-Shows _ _ disk _ (mkdir_all-Shows _ s1 disk h1)
          (λ s2 h2. write-Shows _ bytes s2 disk h2))

  write_files-Shows :
      (name ep : Text) (files : Map Text) (s : S) (disk : Disk)
      → Shows s disk
      → (write_files codec (new_store root) os name ep files s).1 ≡ ok tt
      → Shows
          (write_files codec (new_store root) os name ep files s).0
          (Image.write_files codec (new_store root) name ep files disk)
  unfolding write_files Image.write_files
  write_files-Shows name ep [] s disk h = λ e. h
  write_files-Shows name ep ((file, bytes) ∷ files) s disk h =
      then_do-Shows _ _ _ _ (write_file-Shows name ep file bytes s disk h)
        (λ s' h'. write_files-Shows name ep files s' _ h')

  write_endpoints-Shows :
      (name : Text) (tls : TlsData) (s : S) (disk : Disk)
      → Shows s disk
      → (write_endpoints codec (new_store root) os name tls s).1 ≡ ok tt
      → Shows
          (write_endpoints codec (new_store root) os name tls s).0
          (Image.write_endpoints codec (new_store root) name tls disk)
  unfolding write_endpoints Image.write_endpoints
  write_endpoints-Shows name [] s disk h = λ e. h
  write_endpoints-Shows name ((ep, files) ∷ tls) s disk h =
      then_do-Shows _ _ _ _ (write_files-Shows name ep files s disk h)
        (λ s' h'. write_endpoints-Shows name tls s' _ h')

  pub reset_tls_material-Shows :
      (name : Text) (tls : Option TlsData) (s : S) (disk : Disk)
      → Shows s disk
      → (reset_tls_material codec (new_store root) os name tls s).1 ≡ ok tt
      → Shows
          (reset_tls_material codec (new_store root) os name tls s).0
          (Image.reset_tls_material codec (new_store root) name tls disk)
  unfolding reset_tls_material Image.reset_tls_material
  reset_tls_material-Shows name none s disk h =
      then_do-Shows _ _ _ _ (remove-Shows (tls_dir codec (new_store root) name) s disk h)
        (λ s' h' e. h')
  reset_tls_material-Shows name (some tls) s disk h =
      then_do-Shows _ _ _ _ (remove-Shows (tls_dir codec (new_store root) name) s disk h)
        (λ s' h'. write_endpoints-Shows name tls s' _ h')

  pub reset_endpoint-Shows :
      (name ep : Text) (files : Option (Map Text)) (s : S) (disk : Disk)
      → Shows s disk
      → (reset_endpoint_tls_material codec (new_store root) os name ep files s).1 ≡ ok tt
      → Shows
          (reset_endpoint_tls_material codec (new_store root) os name ep files s).0
          (Image.reset_endpoint_tls_material codec (new_store root) name ep files disk)
  unfolding reset_endpoint_tls_material Image.reset_endpoint_tls_material
  reset_endpoint-Shows name ep none s disk h =
      then_do-Shows _ _ _ _ (remove-Shows (endpoint_dir codec (new_store root) name ep) s disk h)
        (λ s' h' e. h')
  reset_endpoint-Shows name ep (some files) s disk h =
      then_do-Shows _ _ _ _ (remove-Shows (endpoint_dir codec (new_store root) name ep) s disk h)
        (λ s' h'. write_files-Shows name ep files s' _ h')
