-- ===== src/Context/Import.antt =====
-- The import of an exported context: `importTar`, `importZip` and what they call in
-- cli/context/store/store.go. The readers of archives (archive/tar and
-- archive/zip) and the decoder of JSON are parameters.
pub mod Inside
pub mod Writes
use docker_cli.Prelude.{
  ℕ, Bool, true, false, not, Option, none, some, List, [], ◌∷◌, ◌==◌, if◌then◌else◌, Result, ok,
  err, ◌>>=◌, ◌>>◌, map,
}
use docker_cli.Text.{Text, codes, eq, cut, has_prefix, strip_prefix}
use docker_cli.Maps.{Map, lookup, insert}
use docker_cli.Context.Names.{NameError, validate_context_name}
use docker_cli.Context.Limited.{Contents, limited, joined, max_allowed_file_size_to_import}
use docker_cli.Context.Paths.{FilePathError, is_valid_file_path, meta_file, tls_prefix}

-- `Metadata`, its values of type `any` being nil or of type `V`.
pub record Metadata {ℓ} (V : Type ℓ) : Type ℓ where
  pub name : Text
  pub metadata : Option V
  pub endpoints : Map (Option V)

-- `ContextTLSData`: the files of each endpoint.
abbrev pub TlsData : Type 0
TlsData = Map (Map Text)

pub data ImportError {ℓ} (E : Type ℓ) : Type ℓ where
  outside : E → ImportError E
  bad_path : FilePathError → ImportError E
  bad_name : NameError → ImportError E
  bad_archive : ImportError E
  no_metadata : ImportError E

-- One entry of the archive: whether it is a regular file, its name, and what reading it gives.
pub record Entry {ℓ} (E : Type ℓ) : Type ℓ where
  pub regular : Bool
  pub name : Text
  pub content : Result E Text

-- A file of a zip archive: what opening it gives, as the reads up to the end and the error that ends
-- them.
pub record ZipEntry {ℓ} (E : Type ℓ) : Type ℓ where
  pub regular : Bool
  pub name : Text
  pub opened : Result E (List Text × Option E)

-- What the import calls of the interface `Writer`.
pub record Writer {ℓ κ ι} (E : Type ℓ) (V : Type κ) (S : Type ι) : Type (ℓ ⊔ κ ⊔ ι) where
  pub create_or_update : Metadata V → S → S × Result E (Unit {0})
  pub reset_tls_material : Text → TlsData → S → S × Result E (Unit {0})

abbrev pub files_of : Option (Map Text) → Map Text
files_of none = []
files_of (some files) = files

-- `strings.TrimPrefix`
abbrev pub trim_prefix : Text → Text → Text
trim_prefix s p = elim (strip_prefix p s) [ none ↦ s | some rest ↦ rest ]

abbrev pub add_file {ℓ} :
    {E : Type ℓ} → TlsData → Text → Option (Text × Text) → Result (ImportError E) TlsData
add_file tls_data content none = err bad_archive
add_file tls_data content (some (ep_name, file_name)) =
    ok (insert ep_name (insert file_name content (files_of (lookup ep_name tls_data))) tls_data)

-- `importEndpointTLS`
unfoldable pub import_endpoint_tls {ℓ} :
    {E : Type ℓ} → TlsData → Text → Text → Result (ImportError E) TlsData
unfolding cut strip_prefix insert lookup
import_endpoint_tls tls_data tls_path content =
    add_file tls_data content (cut (trim_prefix tls_path tls_prefix) (codes "/"))

-- An error of the code below, as the import returns it.
abbrev pub lift {ℓ κ ι} : {E : Type ℓ} {F : Type κ} {A : Type ι} → (E → F) → Result E A → Result F A
lift f (ok a) = ok a
lift f (err e) = err (f e)

-- `parseMetadata`
unfoldable pub parse_metadata {ℓ κ} :
    {E : Type ℓ} {V : Type κ}
    → (Text → Result E (Metadata V))
    → Text
    → Text
    → Result (ImportError E) (Metadata V)
unfolding validate_context_name
parse_metadata unmarshal name content = lift outside (unmarshal content) >>= λ meta.
    lift bad_name (validate_context_name name) >> ok (record meta { name = name })

-- The store behind a call, and whether it failed.
abbrev pub ImportOutcome {ℓ ι} : Type ℓ → Type ι → Type (ℓ ⊔ ι)
ImportOutcome E S = S × Result (ImportError E) (Unit {0})

-- A call of the writer, and the rest where it succeeds.
abbrev pub and_then {ℓ ι} :
    {E : Type ℓ} {S : Type ι}
    → S × Result E (Unit {0})
    → (S → ImportOutcome E S)
    → ImportOutcome E S
and_then (s, ok _) next = next s
and_then (s, err e) next = (s, err (outside e))

module _ {ℓ κ ι} {E : Type ℓ} {V : Type κ} {S : Type ι} (unmarshal : Text → Result E (Metadata V))
    (writer : Writer E V S) (name : Text) where
  abbrev pub import_metadata : Result E Text → (S → ImportOutcome E S) → S → ImportOutcome E S
  import_metadata content next s = elim (lift outside content >>= parse_metadata unmarshal name) [
    | err e ↦ (s, err e)
    | ok meta ↦ and_then (writer.create_or_update meta s) next
  ]

  abbrev pub import_tls :
      TlsData → Text → Result E Text → (TlsData → S → ImportOutcome E S) → S → ImportOutcome E S
  import_tls tls_data path content next s =
      elim (lift outside content >>= import_endpoint_tls tls_data path) [
        | err e ↦ (s, err e)
        | ok tls ↦ next tls s
      ]

  -- One file; `next` is the rest of the loop, with `tlsData`, `importedMetaFile` and the store.
  abbrev pub import_file :
      Entry E → TlsData → Bool → (TlsData → Bool → S → ImportOutcome E S) → S → ImportOutcome E S
  import_file entry tls imported next s = elim (is_valid_file_path entry.name) [
    | err e ↦ (s, err (bad_path e))
    | ok _ ↦
        if eq entry.name meta_file
        then import_metadata entry.content (next tls true) s
        else if has_prefix entry.name tls_prefix
        then import_tls tls entry.name entry.content (λ t. next t imported) s
        else next tls imported s
  ]

  -- Behind the loop.
  abbrev pub finish : TlsData → Bool → S → ImportOutcome E S
  finish tls imported s =
      if imported
      then and_then (writer.reset_tls_material name tls s) (λ s'. (s', ok tt))
      else (s, err no_metadata)

  -- The loop, over the entries up to the end of the archive or an error of the reader.
  unfoldable pub import_entries : List (Entry E) → Option E → TlsData → Bool → S → ImportOutcome E S
  unfolding import_endpoint_tls parse_metadata is_valid_file_path
  import_entries [] (some e) tls imported s = (s, err (outside e))
  import_entries [] none tls imported s = finish tls imported s
  import_entries (entry ∷ entries) failure tls imported s =
      let next = import_entries entries failure in
      if entry.regular then import_file entry tls imported next s else next tls imported s

  module _ (exceeds : E) where
    -- `importTar`: the reader of the archive is given what the limited reader gives, and answers with
    -- the entries, and the error that ends them, if any.
    unfoldable pub import_tar :
        (Contents E → List (Entry E) × Option E) → List Text → Option E → S → ImportOutcome E S
    unfolding import_entries limited
    import_tar tar_reader reads failure s =
        let (entries, end) =
          tar_reader (limited exceeds max_allowed_file_size_to_import reads failure) in
        import_entries entries end [] false s

    -- `io.ReadAll`
    abbrev read_all : Contents E → Result E Text
    read_all (content, none) = ok content
    read_all (content, some e) = err e

    -- What reading a file of the archive gives: only that of the metadata is read with the limit.
    abbrev zip_entry : ZipEntry E → Entry E
    zip_entry file = record {
      regular = file.regular;
      name = file.name;
      content = file.opened >>= λ (reads, failure). read_all (
          if eq file.name meta_file
          then limited exceeds max_allowed_file_size_to_import reads failure
          else (joined reads, failure));
    }

    -- `importZip` behind `io.ReadAll` of the archive.
    abbrev import_body : (Text → Result E (List (ZipEntry E))) → Contents E → S → ImportOutcome E S
    import_body zip_reader (body, some e) s = (s, err (outside e))
    import_body zip_reader (body, none) s = elim (zip_reader body) [
      | err e ↦ (s, err (outside e))
      | ok files ↦ import_entries (map zip_entry files) none [] false s
    ]

    -- `importZip`
    unfoldable pub import_zip :
        (Text → Result E (List (ZipEntry E))) → List Text → Option E → S → ImportOutcome E S
    unfolding import_entries limited
    import_zip zip_reader reads failure s =
        import_body zip_reader (limited exceeds max_allowed_file_size_to_import reads failure) s
