-- ===== src/Context/Store/Behind.antt =====
-- What is read from the store of cli/context/store behind each call that changes it.
use docker_cli.Prelude.{
  ◌≡◌, refl, ◌∙◌, ap, Bool, ◌&&◌, Option, none, some, [], ◌∷◌, ◌++◌, if◌then◌else◌, ok,
}
use docker_cli.Text.{Text, codes, eq}
use docker_cli.Context.Paths.Valid.{IsComponent}
use docker_cli.Context.Import.{Metadata, TlsData}
use docker_cli.Context.Disk.{FilePath, Disk, read_file, write_file, remove_all}
use docker_cli.Context.Disk.Laws.{read_file-remove_all}
use docker_cli.Context.Store.{Codec, new_store}
use docker_cli.Context.Store.Image.{create_or_update, write_metadata, remove_context}
use docker_cli.Context.Store.Places.{meta_file_lem, meta_dir_lem, tls_dir_lem}
use docker_cli.Context.Store.Apart.{
  same, same_meta, meta_not_tls, below_meta_meta, below_meta_tls, below_tls_meta, below_tls_tls,
  below_endpoint_tls,
}
use docker_cli.Context.Store.Written.{at_tls, at_meta}

abbrev pub material : Option TlsData → TlsData
material none = []
material (some tls) = tls

module _ {ℓ κ} {E : Type ℓ} {V : Type κ} (codec : Codec E V)
    (plain : (n : Text) → IsComponent (codec.digest n)) (root : FilePath) where
  abbrev pub metadata_at : Text → Disk → Option Text
  metadata_at n disk = at_meta codec plain root n disk

  abbrev pub file_at : Text → Text → Text → Disk → Option Text
  file_at n ep f disk = at_tls codec plain root n ep f disk

  abbrev pub meta_dir : Text → FilePath
  meta_dir n = root ++ codes "meta" ∷ codec.digest n ∷ []

  abbrev pub tls_dir : Text → FilePath
  tls_dir n = root ++ codes "tls" ∷ codec.digest n ∷ []

  abbrev pub endpoint_dir : Text → Text → FilePath
  endpoint_dir n ep = root ++ codes "tls" ∷ codec.digest n ∷ ep ∷ []

  -- Whether a directory is removed, and what was read before.
  abbrev pub unless : Bool → Option Text → Option Text
  unless b o = if b then none else o

  metadata_at-remove_meta :
      (name n : Text) (disk : Disk)
      → metadata_at n (remove_all (meta_dir name) disk)
        ≡ unless (same codec.digest name n) (metadata_at n disk)
  metadata_at-remove_meta name n disk =
      read_file-remove_all (meta_dir name) _ disk
      ∙ ap (λ b. unless b (metadata_at n disk)) (below_meta_meta codec.digest root name n)

  pub metadata_at-remove_tls :
      (name n : Text) (p : FilePath) (disk : Disk)
      → metadata_at n (remove_all (root ++ codes "tls" ∷ codec.digest name ∷ p) disk)
        ≡ metadata_at n disk
  metadata_at-remove_tls name n p disk =
      read_file-remove_all (root ++ codes "tls" ∷ codec.digest name ∷ p) _ disk
      ∙ ap (λ b. unless b (metadata_at n disk)) (below_tls_meta codec.digest root name n p)

  file_at-remove_meta :
      (name n ep f : Text) (disk : Disk)
      → file_at n ep f (remove_all (meta_dir name) disk) ≡ file_at n ep f disk
  file_at-remove_meta name n ep f disk =
      read_file-remove_all (meta_dir name) _ disk
      ∙ ap (λ b. unless b (file_at n ep f disk)) (below_meta_tls codec.digest root name n ep f)

  pub file_at-remove_tls :
      (name n ep f : Text) (disk : Disk)
      → file_at n ep f (remove_all (tls_dir name) disk)
        ≡ unless (same codec.digest name n) (file_at n ep f disk)
  file_at-remove_tls name n ep f disk =
      read_file-remove_all (tls_dir name) _ disk
      ∙ ap (λ b. unless b (file_at n ep f disk)) (below_tls_tls codec.digest root name n ep f)

  pub file_at-remove_endpoint :
      (name endpoint n ep f : Text) (disk : Disk)
      → file_at n ep f (remove_all (endpoint_dir name endpoint) disk)
        ≡ unless (same codec.digest name n && eq endpoint ep) (file_at n ep f disk)
  file_at-remove_endpoint name endpoint n ep f disk =
      read_file-remove_all (endpoint_dir name endpoint) _ disk
      ∙ ap (λ b. unless b (file_at n ep f disk))
          (below_endpoint_tls codec.digest root name endpoint n ep f)

  create_lem :
      (meta : Metadata V) (bytes : Text) (disk : Disk)
      → codec.marshal meta ≡ ok bytes
      → create_or_update codec (new_store root) meta disk
        ≡ write_file
            (root ++ codes "meta" ∷ codec.digest meta.name ∷ codes "meta.json" ∷ [])
            bytes
            disk
  unfolding create_or_update
  create_lem meta bytes disk e =
      ap (λ r. write_metadata codec (new_store root) meta.name r disk) e
      ∙ ap (λ p. write_file p bytes disk) (meta_file_lem codec.digest plain root meta.name)

  pub metadata_at-create_or_update :
      (meta : Metadata V) (bytes n : Text) (disk : Disk)
      → codec.marshal meta ≡ ok bytes
      → metadata_at n (create_or_update codec (new_store root) meta disk)
        ≡ (if same codec.digest meta.name n then some bytes else metadata_at n disk)
  unfolding read_file
  metadata_at-create_or_update meta bytes n disk e =
      ap (metadata_at n) (create_lem meta bytes disk e)
      ∙ ap (λ b. if b then some bytes else metadata_at n disk)
          (same_meta codec.digest root meta.name n)

  pub file_at-create_or_update :
      (meta : Metadata V) (bytes n ep f : Text) (disk : Disk)
      → codec.marshal meta ≡ ok bytes
      → file_at n ep f (create_or_update codec (new_store root) meta disk) ≡ file_at n ep f disk
  unfolding read_file
  file_at-create_or_update meta bytes n ep f disk e =
      ap (file_at n ep f) (create_lem meta bytes disk e)
      ∙ ap (λ b. if b then some bytes else file_at n ep f disk)
          (meta_not_tls codec.digest root meta.name n ep f)

  remove_lem :
      (name : Text) (disk : Disk)
      → remove_context codec (new_store root) name disk
        ≡ remove_all (tls_dir name) (remove_all (meta_dir name) disk)
  unfolding remove_context
  remove_lem name disk =
      rw (tls_dir_lem codec.digest plain root name, meta_dir_lem codec.digest plain root name) refl

  pub metadata_at-remove_context :
      (name n : Text) (disk : Disk)
      → metadata_at n (remove_context codec (new_store root) name disk)
        ≡ (if same codec.digest name n then none else metadata_at n disk)
  metadata_at-remove_context name n disk =
      ap (metadata_at n) (remove_lem name disk)
      ∙ metadata_at-remove_tls name n [] (remove_all (meta_dir name) disk)
      ∙ metadata_at-remove_meta name n disk

  pub file_at-remove_context :
      (name n ep f : Text) (disk : Disk)
      → file_at n ep f (remove_context codec (new_store root) name disk)
        ≡ (if same codec.digest name n then none else file_at n ep f disk)
  file_at-remove_context name n ep f disk =
      ap (file_at n ep f) (remove_lem name disk)
      ∙ file_at-remove_tls name n ep f (remove_all (meta_dir name) disk)
      ∙ ap (unless (same codec.digest name n)) (file_at-remove_meta name n ep f disk)
