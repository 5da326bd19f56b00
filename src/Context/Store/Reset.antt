-- ===== src/Context/Store/Reset.antt =====
-- What is read from the store of cli/context/store behind a reset of TLS material.
use docker_cli.Context.Store.Apart.{same}
use docker_cli.Prelude.{
  ◌≡◌, refl, ◌∙◌, ap, Bool, true, false, ◌&&◌, Option, none, some, [], ◌∷◌, if◌then◌else◌,
}
use docker_cli.Text.{Text, eq}
use docker_cli.Maps.{Map, lookup}
use docker_cli.Context.Paths.Valid.{IsComponent}
use docker_cli.Context.Import.{TlsData, files_of}
use docker_cli.Context.Disk.{FilePath, Disk, remove_all}
use docker_cli.Context.Store.{Codec, new_store}
use docker_cli.Context.Store.Image.{
  reset_tls_material, reset_endpoint_tls_material, write_files, write_endpoints,
}
use docker_cli.Context.Store.Places.{tls_dir_lem, endpoint_dir_lem}
use docker_cli.Context.Store.Written.{
  AreFiles, IsMaterial, file_of, or_else, at_tls-write_files, at_meta-write_files,
  at_tls-write_endpoints, at_meta-write_endpoints,
}
use docker_cli.Context.Store.Behind.{
  material, metadata_at, file_at, tls_dir, endpoint_dir, metadata_at-remove_tls, file_at-remove_tls,
  file_at-remove_endpoint,
}

fresh_lem :
    (b : Bool) (new old : Option Text)
    → (if b then or_else new (if b then none else old) else (if b then none else old))
      ≡ (if b then new else old)
fresh_lem true (some a) old = refl
fresh_lem true none old = refl
fresh_lem false new old = refl

module _ {ℓ κ} {E : Type ℓ} {V : Type κ} (codec : Codec E V)
    (plain : (n : Text) → IsComponent (codec.digest n)) (root : FilePath) where
  reset_lem :
      (name : Text) (tls : Option TlsData) (disk : Disk)
      → reset_tls_material codec (new_store root) name tls disk
        ≡ write_endpoints codec
            (new_store root)
            name
            (material tls)
            (remove_all (tls_dir codec plain root name) disk)
  unfolding reset_tls_material
  reset_lem name none disk = rw (tls_dir_lem codec.digest plain root name) refl
  reset_lem name (some tls) disk = rw (tls_dir_lem codec.digest plain root name) refl

  pub metadata_at-reset_tls_material :
      (name : Text) (tls : Option TlsData) (n : Text) (disk : Disk)
      → IsMaterial (material tls)
      → metadata_at codec plain root n (reset_tls_material codec (new_store root) name tls disk)
        ≡ metadata_at codec plain root n disk
  metadata_at-reset_tls_material name tls n disk h =
      ap (metadata_at codec plain root n) (reset_lem name tls disk)
      ∙ at_meta-write_endpoints codec plain root name (material tls) n _ h
      ∙ metadata_at-remove_tls codec plain root name n [] disk

  pub file_at-reset_tls_material :
      (name : Text) (tls : Option TlsData) (n ep f : Text) (disk : Disk)
      → IsMaterial (material tls)
      → file_at codec plain root n ep f (reset_tls_material codec (new_store root) name tls disk)
        ≡ (if same codec.digest name n
            then file_of (material tls) ep f
            else file_at codec plain root n ep f disk)
  file_at-reset_tls_material name tls n ep f disk h =
      ap (file_at codec plain root n ep f) (reset_lem name tls disk)
      ∙ at_tls-write_endpoints codec plain root name (material tls) n ep f _ h
      ∙ ap (λ o. if same codec.digest name n then or_else (file_of (material tls) ep f) o else o)
          (file_at-remove_tls codec plain root name n ep f disk)
      ∙ fresh_lem (same codec.digest name n) (file_of (material tls) ep f)
          (file_at codec plain root n ep f disk)

  reset_endpoint_lem :
      (name endpoint : Text) (files : Option (Map Text)) (disk : Disk)
      → IsComponent endpoint
      → reset_endpoint_tls_material codec (new_store root) name endpoint files disk
        ≡ write_files codec
            (new_store root)
            name
            endpoint
            (files_of files)
            (remove_all (endpoint_dir codec plain root name endpoint) disk)
  unfolding reset_endpoint_tls_material write_files
  reset_endpoint_lem name endpoint none disk h =
      rw (endpoint_dir_lem codec.digest plain root name endpoint h) refl
  reset_endpoint_lem name endpoint (some files) disk h =
      ap (λ p. write_files codec (new_store root) name endpoint files (remove_all p disk))
        (endpoint_dir_lem codec.digest plain root name endpoint h)

  pub metadata_at-reset_endpoint :
      (name endpoint : Text) (files : Option (Map Text)) (n : Text) (disk : Disk)
      → IsComponent endpoint
      → AreFiles (files_of files)
      → metadata_at codec plain root n
          (reset_endpoint_tls_material codec (new_store root) name endpoint files disk)
        ≡ metadata_at codec plain root n disk
  metadata_at-reset_endpoint name endpoint files n disk h k =
      ap (metadata_at codec plain root n) (reset_endpoint_lem name endpoint files disk h)
      ∙ at_meta-write_files codec plain root name endpoint (files_of files) n _ h k
      ∙ metadata_at-remove_tls codec plain root name n (endpoint ∷ []) disk

  pub file_at-reset_endpoint :
      (name endpoint : Text) (files : Option (Map Text)) (n ep f : Text) (disk : Disk)
      → IsComponent endpoint
      → AreFiles (files_of files)
      → file_at codec plain root n ep f
          (reset_endpoint_tls_material codec (new_store root) name endpoint files disk)
        ≡ (if same codec.digest name n && eq endpoint ep
            then lookup f (files_of files)
            else file_at codec plain root n ep f disk)
  file_at-reset_endpoint name endpoint files n ep f disk h k =
      let at = same codec.digest name n && eq endpoint ep in
      ap (file_at codec plain root n ep f) (reset_endpoint_lem name endpoint files disk h)
      ∙ at_tls-write_files codec plain root name endpoint (files_of files) n ep f _ h k
      ∙ ap (λ o. if at then or_else (lookup f (files_of files)) o else o)
          (file_at-remove_endpoint codec plain root name endpoint n ep f disk)
      ∙ fresh_lem at (lookup f (files_of files)) (file_at codec plain root n ep f disk)
