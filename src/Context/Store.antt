-- ===== src/Context/Store.antt =====
-- The store of contexts: cli/context/store/store.go, metadatastore.go and tlsstore.go. The digest of a
-- name, the encoder and decoders of JSON, and the operating system are parameters.
pub mod Image
pub mod Simulated
pub mod Places
pub mod Apart
pub mod Written
pub mod Behind
pub mod Reset
pub mod Refines
use docker_cli.Prelude.{
  Bool, true, false, ◌||◌, Option, none, some, List, [], ◌∷◌, if◌then◌else◌, Result, ok, err, ◌>>=◌,
}
use docker_cli.Text.{Text, codes, eq}
use docker_cli.Template.Functions.{is_empty}
use docker_cli.Maps.{Map}
use docker_cli.Context.Paths.{meta_file}
use docker_cli.Context.Import.{Metadata, TlsData, lift}
use docker_cli.Context.Disk.{FilePath, join_path}

-- `untypedContextMetadata`, its raw messages being texts.
pub record Untyped : Type 0 where
  pub name : Text
  pub metadata : Text
  pub endpoints : Map Text

-- An error of `os.ReadFile`: `os.ErrNotExist`, which the store returns as `errdefs.NotFound`, or another.
pub data ReadFailure {ℓ} (E : Type ℓ) : Type ℓ where
  not_exist : ReadFailure E
  read_failed : E → ReadFailure E

pub data StoreError {ℓ} (E : Type ℓ) : Type ℓ where
  not_read : ReadFailure E → StoreError E
  parsing : E → StoreError E

-- What the store calls: `contextdirOf`, `json.Marshal`, `json.Unmarshal` of the file, and of the
-- values into what the getters of `Config` give for the context and for the endpoint of a name.
pub record Codec {ℓ κ} (E : Type ℓ) (V : Type κ) : Type (ℓ ⊔ κ) where
  pub digest : Text → Text
  pub marshal : Metadata V → Result E Text
  pub unmarshal : Text → Result E Untyped
  pub unmarshal_context : Text → Result E V
  pub unmarshal_endpoint : Text → Text → Result E V

-- `parseTypedOrMap`, with what `json.Unmarshal` gives for the getter.
abbrev pub parse_typed_or_map {ℓ κ} :
    {E : Type ℓ} {V : Type κ} → Text → (Text → Result E V) → Result E (Option V)
parse_typed_or_map payload decode =
    if is_empty payload || eq payload (codes "null")
    then ok none
    else (decode payload >>= λ value. ok (some value))

-- The operating system: what the store calls of the packages `os` and `ioutils`, on a disk.
pub record Os {ℓ ι} (E : Type ℓ) (S : Type ι) : Type (ℓ ⊔ ι) where
  pub read_file : FilePath → S → Result (ReadFailure E) Text
  pub mkdir_all : FilePath → S → S × Result E (Unit {0})
  pub atomic_write_file : FilePath → Text → S → S × Result E (Unit {0})
  pub remove_all : FilePath → S → S × Result E (Unit {0})

-- A call, and the rest where it succeeds.
abbrev pub then_do {ℓ ι} :
    {E : Type ℓ} {S : Type ι}
    → S × Result E (Unit {0})
    → (S → S × Result E (Unit {0}))
    → S × Result E (Unit {0})
then_do (s, ok _) next = next s
then_do (s, err e) next = (s, err e)

-- `filepath.Dir`
abbrev pub parent : FilePath → FilePath
parent [] = []
parent (c ∷ []) = []
parent (c ∷ d ∷ p) = c ∷ parent (d ∷ p)

-- The two directories of a `ContextStore`.
pub record ContextStore : Type 0 where
  pub meta_root : FilePath
  pub tls_root : FilePath

-- `New`
unfoldable pub new_store : FilePath → ContextStore
unfolding join_path
new_store dir = record {
  meta_root = join_path dir (codes "meta");
  tls_root = join_path dir (codes "tls");
}

module _ {ℓ κ} {E : Type ℓ} {V : Type κ} (codec : Codec E V) where
  -- The loop on the endpoints in `getByID`. A value may be nil.
  unfoldable pub parse_endpoints : Map Text → Result E (Map (Option V))
  unfolding eq
  parse_endpoints [] = ok []
  parse_endpoints ((k, v) ∷ endpoints) =
      parse_typed_or_map v (codec.unmarshal_endpoint k) >>= λ value.
      parse_endpoints endpoints >>= λ rest. ok ((k, value) ∷ rest)

  abbrev pub typed_metadata : Untyped → Result E (Metadata V)
  typed_metadata untyped = parse_typed_or_map untyped.metadata codec.unmarshal_context >>= λ value.
      parse_endpoints untyped.endpoints >>= λ endpoints.
      ok (record { name = untyped.name; metadata = value; endpoints = endpoints })

  -- `getByID` behind the call of `os.ReadFile`
  abbrev pub parse_file : Result (ReadFailure E) Text → Result (StoreError E) (Metadata V)
  parse_file (err failure) = err (not_read failure)
  parse_file (ok bytes) = lift parsing (codec.unmarshal bytes >>= typed_metadata)

  module _ (store : ContextStore) where
    -- `(*metadataStore).contextDir` at the digest of a name
    abbrev pub metadata_dir : Text → FilePath
    metadata_dir name = join_path store.meta_root (codec.digest name)

    -- `(*tlsStore).contextDir`
    abbrev pub tls_dir : Text → FilePath
    tls_dir name = join_path store.tls_root (codec.digest name)

    abbrev pub endpoint_dir : Text → Text → FilePath
    endpoint_dir name endpoint = join_path (tls_dir name) endpoint

    module _ {ι} {S : Type ι} (os : Os E S) where
      -- `GetMetadata`
      unfoldable pub get_metadata : Text → S → Result (StoreError E) (Metadata V)
      unfolding parse_endpoints join_path
      get_metadata name s = parse_file (os.read_file (join_path (metadata_dir name) meta_file) s)

      -- `createOrUpdate` of the metadata behind `os.MkdirAll`
      abbrev pub write_metadata : Text → Result E Text → S → S × Result E (Unit {0})
      write_metadata name (err e) s = (s, err e)
      write_metadata name (ok bytes) s =
          os.atomic_write_file (join_path (metadata_dir name) meta_file) bytes s

      -- `CreateOrUpdate`
      unfoldable pub create_or_update : Metadata V → S → S × Result E (Unit {0})
      unfolding join_path
      create_or_update meta s =
          then_do (os.mkdir_all (metadata_dir meta.name) s)
            (write_metadata meta.name (codec.marshal meta))

      -- `Remove`
      unfoldable pub remove_context : Text → S → S × Result E (Unit {0})
      unfolding join_path
      remove_context name s =
          then_do (os.remove_all (metadata_dir name) s) (os.remove_all (tls_dir name))

      -- `GetTLSData`
      unfoldable pub get_tls_data : Text → Text → Text → S → Result (StoreError E) Text
      unfolding join_path
      get_tls_data name endpoint file s =
          lift not_read (os.read_file (join_path (endpoint_dir name endpoint) file) s)

      -- `createOrUpdate` of a file of an endpoint
      abbrev pub write_file : Text → Text → Text → Text → S → S × Result E (Unit {0})
      write_file name endpoint file content s =
          then_do (os.mkdir_all (parent store.tls_root) s) (λ s'.
            then_do (os.mkdir_all (endpoint_dir name endpoint) s')
              (os.atomic_write_file (join_path (endpoint_dir name endpoint) file) content))

      -- The loop on the files of an endpoint, up to the first error.
      unfoldable pub write_files : Text → Text → Map Text → S → S × Result E (Unit {0})
      unfolding join_path
      write_files name endpoint [] s = (s, ok tt)
      write_files name endpoint ((file, content) ∷ files) s =
          then_do (write_file name endpoint file content s) (write_files name endpoint files)

      unfoldable pub write_endpoints : Text → TlsData → S → S × Result E (Unit {0})
      unfolding write_files
      write_endpoints name [] s = (s, ok tt)
      write_endpoints name ((endpoint, files) ∷ endpoints) s =
          then_do (write_files name endpoint files s) (write_endpoints name endpoints)

      -- The loops of a reset, which does nothing for `nil`.
      abbrev pub write_material : Text → Option TlsData → S → S × Result E (Unit {0})
      write_material name none s = (s, ok tt)
      write_material name (some tls) s = write_endpoints name tls s

      abbrev pub write_endpoint : Text → Text → Option (Map Text) → S → S × Result E (Unit {0})
      write_endpoint name endpoint none s = (s, ok tt)
      write_endpoint name endpoint (some files) s = write_files name endpoint files s

      -- `ResetTLSMaterial`
      unfoldable pub reset_tls_material : Text → Option TlsData → S → S × Result E (Unit {0})
      unfolding write_endpoints join_path
      reset_tls_material name tls s =
          then_do (os.remove_all (tls_dir name) s) (write_material name tls)

      -- `ResetEndpointTLSMaterial`
      unfoldable pub reset_endpoint_tls_material :
          Text → Text → Option (Map Text) → S → S × Result E (Unit {0})
      unfolding write_files join_path
      reset_endpoint_tls_material name endpoint files s =
          then_do (os.remove_all (endpoint_dir name endpoint) s)
            (write_endpoint name endpoint files)
