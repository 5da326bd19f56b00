-- ===== src/Context/Store/Image.antt =====
-- The files below the root of the store of cli/context/store as a list: the places that each change of
-- the store writes and removes, where no call of the operating system fails.
use docker_cli.Prelude.{Option, none, some, [], ◌∷◌, Result, ok, err}
use docker_cli.Text.{Text}
use docker_cli.Maps.{Map}
use docker_cli.Context.Paths.{meta_file}
use docker_cli.Context.Import.{Metadata, TlsData}
use docker_cli.Context.Disk.{Disk, write_file, remove_all, join_path}
use docker_cli.Context.Store.{Codec, ContextStore, metadata_dir, tls_dir, endpoint_dir}

module _ {ℓ κ} {E : Type ℓ} {V : Type κ} (codec : Codec E V) (store : ContextStore) where
  abbrev pub write_metadata : Text → Result E Text → Disk → Disk
  write_metadata name (err e) disk = disk
  write_metadata name (ok bytes) disk =
      write_file (join_path (metadata_dir codec store name) meta_file) bytes disk

  unfoldable pub create_or_update : Metadata V → Disk → Disk
  unfolding join_path
  create_or_update meta disk = write_metadata meta.name (codec.marshal meta) disk

  unfoldable pub remove_context : Text → Disk → Disk
  unfolding remove_all join_path
  remove_context name disk =
      remove_all (tls_dir codec store name) (remove_all (metadata_dir codec store name) disk)

  unfoldable pub write_files : Text → Text → Map Text → Disk → Disk
  unfolding join_path
  write_files name endpoint [] disk = disk
  write_files name endpoint ((file, content) ∷ files) disk =
      write_files name endpoint files
        (write_file (join_path (endpoint_dir codec store name endpoint) file) content disk)

  unfoldable pub write_endpoints : Text → TlsData → Disk → Disk
  unfolding write_files
  write_endpoints name [] disk = disk
  write_endpoints name ((endpoint, files) ∷ endpoints) disk =
      write_endpoints name endpoints (write_files name endpoint files disk)

  unfoldable pub reset_tls_material : Text → Option TlsData → Disk → Disk
  unfolding write_endpoints remove_all join_path
  reset_tls_material name none disk = remove_all (tls_dir codec store name) disk
  reset_tls_material name (some tls) disk =
      write_endpoints name tls (remove_all (tls_dir codec store name) disk)

  unfoldable pub reset_endpoint_tls_material : Text → Text → Option (Map Text) → Disk → Disk
  unfolding write_files remove_all join_path
  reset_endpoint_tls_material name endpoint none disk =
      remove_all (endpoint_dir codec store name endpoint) disk
  reset_endpoint_tls_material name endpoint (some files) disk =
      write_files name endpoint files (remove_all (endpoint_dir codec store name endpoint) disk)
