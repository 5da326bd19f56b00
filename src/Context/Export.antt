-- ===== src/Context/Export.antt =====
-- The export of a context: `Export` in cli/context/store/store.go, as the entries that a reader of the
-- archive meets, and the error that ends the stream.
pub mod Collect
pub mod Files
pub mod RoundTrip
use docker_cli.Prelude.{
  Bool, true, false, Option, none, some, List, [], ◌∷◌, ◌++◌, if◌then◌else◌, Result, ok, err, ◌>>=◌,
}
use docker_cli.Text.{Text, codes, join}
use docker_cli.Template.Functions.{is_empty}
use docker_cli.Maps.{Map}
use docker_cli.Context.Paths.{clean, separator, meta_file}
use docker_cli.Context.Import.{Metadata, Entry}

abbrev pub non_empty : List Text → List Text
non_empty [] = []
non_empty (w ∷ ws) = let rest = non_empty ws in if is_empty w then rest else w ∷ rest

abbrev pub clean_joined : List Text → Text
clean_joined [] = []
clean_joined (w ∷ ws) = clean (join (w ∷ ws) (separator ∷ []))

-- `path.Join`
abbrev pub path_join : List Text → Text
path_join ws = clean_joined (non_empty ws)

-- What the export calls of the interface `Reader`.
pub record Reader {ℓ κ} (E : Type ℓ) (V : Type κ) : Type (ℓ ⊔ κ) where
  pub get_metadata : Text → Result E (Metadata V)
  pub list_tls_files : Text → Result E (Map (List Text))
  pub get_tls_data : Text → Text → Text → Result E Text

-- The entries that were written, and the error that `CloseWithError` got, if any.
abbrev pub Stream {ℓ} : Type ℓ → Type ℓ
Stream E = List (Entry E) × Option E

abbrev pub and_write {ℓ} : {E : Type ℓ} → Stream E → Stream E → Stream E
and_write (entries, some e) more = (entries, some e)
and_write (entries, none) (more, failure) = (entries ++ more, failure)

abbrev pub file_entry {ℓ} : {E : Type ℓ} → Text → Text → Entry E
file_entry path content = record { regular = true; name = path; content = ok content }

abbrev pub dir_entry {ℓ} : {E : Type ℓ} → Text → Entry E
dir_entry path = record { regular = false; name = path; content = ok [] }

module _ {ℓ κ} {E : Type ℓ} {V : Type κ} (reader : Reader E V) (name : Text) where
  -- One round of the loop on the files of an endpoint.
  abbrev pub export_file : Text → Text → Stream E
  export_file endpoint file = elim (reader.get_tls_data name endpoint file) [
    | err e ↦ ([], some e)
    | ok content ↦ (file_entry (path_join (codes "tls" ∷ endpoint ∷ file ∷ [])) content ∷ [], none)
  ]

  unfoldable pub export_files : Text → List Text → Stream E
  unfolding clean join
  export_files endpoint [] = ([], none)
  export_files endpoint (file ∷ files) =
      and_write (export_file endpoint file) (export_files endpoint files)

  unfoldable pub export_endpoints : Map (List Text) → Stream E
  unfolding export_files clean join
  export_endpoints [] = ([], none)
  export_endpoints ((endpoint, files) ∷ endpoints) =
      and_write (dir_entry (path_join (codes "tls" ∷ endpoint ∷ [])) ∷ [], none)
        (and_write (export_files endpoint files) (export_endpoints endpoints))

  -- What follows the entry of the metadata.
  abbrev pub export_tls : Result E (Map (List Text)) → Stream E
  export_tls (err e) = ([], some e)
  export_tls (ok endpoints) =
      and_write (dir_entry (codes "tls") ∷ [], none) (export_endpoints endpoints)

  -- `Export`
  unfoldable pub export_context : (Metadata V → Result E Text) → Stream E
  unfolding export_endpoints
  export_context marshal = elim (reader.get_metadata name >>= marshal) [
    | err e ↦ ([], some e)
    | ok meta_bytes ↦
        and_write (file_entry meta_file meta_bytes ∷ [], none)
          (export_tls (reader.list_tls_files name))
  ]
