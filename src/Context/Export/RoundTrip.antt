-- ===== src/Context/Export/RoundTrip.antt =====
-- What the import of cli/context/store/store.go makes of an exported context.
use docker_cli.Prelude.{
  ◌≡◌, ◌≢◌, refl, sym, subst, ◌∙◌, ap, Bool, true, false, Option, none, some, List, [], ◌∷◌, ◌++◌,
  All, Result, ok, err, append_assoc, append-nil, map, length, ◌≤◌,
}
use docker_cli.Text.{Text, codes}
use docker_cli.Text.Laws.{eq_refl, Lacks}
use docker_cli.Maps.{Map, lookup, insert, keys}
use docker_cli.Maps.Laws.{Distinct}
use docker_cli.Context.Limited.{Contents, joined, max_allowed_file_size_to_import, limited-joined}
use docker_cli.Context.Names.{validate_context_name}
use docker_cli.Context.Paths.{meta_file}
use docker_cli.Context.Paths.Valid.{IsComponent, meta_lem}
use docker_cli.Context.Import.{
  Metadata, TlsData, Entry, Writer, ImportOutcome, and_then, files_of, parse_metadata,
  import_metadata, import_file, import_entries, import_tar,
}
use docker_cli.Context.Export.{
  Reader, Stream, path_join, file_entry, dir_entry, and_write, export_file, export_files,
  export_endpoints, export_context,
}
use docker_cli.Context.Export.Files.{IsFile, import_file-file}
use docker_cli.Context.Export.Collect.{add_files, add_files-append, absent_key}

export_file-ok {ℓ κ} :
    {E : Type ℓ} {V : Type κ} (reader : Reader E V) (name ep f content : Text)
    → reader.get_tls_data name ep f ≡ ok content
    → export_file reader name ep f
      ≡ (file_entry (path_join (codes "tls" ∷ ep ∷ f ∷ [])) content ∷ [], none)
export_file-ok reader name ep f content e = rw (export_file, e) refl

and_write-entry {ℓ} :
    {E : Type ℓ} (entry : Entry E) (stream more : Stream E)
    → and_write (and_write (entry ∷ [], none) stream) more
      ≡ (entry ∷ (and_write stream more).0, (and_write stream more).1)
and_write-entry entry (entries, some e) more = refl
and_write-entry entry (entries, none) more = refl

and_then_ext {ℓ ι} :
    {E : Type ℓ} {S : Type ι} (r : S × Result E (Unit {0})) {f g : S → ImportOutcome E S}
    → ((s : S) → f s ≡ g s)
    → and_then r f ≡ and_then r g
and_then_ext (s, ok _) h = h s
and_then_ext (s, err e) h = refl

module _ {ℓ κ ι} {E : Type ℓ} {V : Type κ} {S : Type ι} (unmarshal : Text → Result E (Metadata V))
    (writer : Writer E V S) (name : Text) where
  -- A file of an endpoint is added, and the loop goes on.
  import_entries-file :
      (ep f content : Text) (entries : List (Entry E)) (failure : Option E) (tls : TlsData)
      → (imported : Bool) (s : S) → IsComponent ep
      → Lacks b'\\' ep
      → IsFile f
      → import_entries unmarshal writer name
          (file_entry (path_join (codes "tls" ∷ ep ∷ f ∷ [])) content ∷ entries)
          failure
          tls
          imported
          s
        ≡ import_entries unmarshal writer name entries failure
            (insert ep (insert f content (files_of (lookup ep tls))) tls)
            imported
            s
  unfolding import_entries
  import_entries-file ep f content entries failure tls imported s h l (k, m) =
      import_file-file unmarshal writer name ep f content
        (import_entries unmarshal writer name entries failure) tls imported s h l (k, m)

  -- The import of a stream.
  abbrev import_stream : Stream E → TlsData → Bool → S → ImportOutcome E S
  import_stream stream tls imported s =
      import_entries unmarshal writer name stream.0 stream.1 tls imported s

  module _ (reader : Reader E V) (source : Text) where
    -- The files of an endpoint, as the reader gives them.
    abbrev pub AreFiles : Text → Map Text → Type ℓ
    AreFiles ep files = All (λ f. IsFile f.0 × (reader.get_tls_data source ep f.0 ≡ ok f.1)) files

    import_stream-files :
        (ep : Text) (files : Map Text) (more : Stream E) (tls : TlsData) (imported : Bool) (s : S)
        → IsComponent ep
        → Lacks b'\\' ep
        → AreFiles ep files
        → import_stream (and_write (export_files reader source ep (keys files)) more) tls imported s
          ≡ import_stream more (add_files ep files tls) imported s
    unfolding export_files
    import_stream-files ep [] more tls imported s h l k = refl
    import_stream-files ep ((f, content) ∷ files) more tls imported s h l ((k, e), ks) =
        let rest = export_files reader source ep (keys files) in
        let entry = file_entry (path_join (codes "tls" ∷ ep ∷ f ∷ [])) content in
        ap (λ o. import_stream (and_write (and_write o rest) more) tls imported s)
          (export_file-ok reader source ep f content e)
        ∙ ap (λ o. import_stream o tls imported s) (and_write-entry entry rest more)
        ∙ import_entries-file ep f content (and_write rest more).0 (and_write rest more).1 tls
            imported s h l k
        ∙ import_stream-files ep files more
            (insert ep (insert f content (files_of (lookup ep tls))) tls) imported s h l ks

    -- A context of which all files can be exported: its endpoints and files have plain names without a
    -- backslash, each endpoint has a file, and the reader gives the contents.
    abbrev pub AreEndpoints : TlsData → Type ℓ
    AreEndpoints tls =
        All (λ e. IsComponent e.0 × Lacks b'\\' e.0 × AreFiles e.0 e.1 × (e.1 ≢ []) × Distinct e.1)
          tls

    abbrev pub listing : TlsData → Map (List Text)
    listing tls = map (λ e. (e.0, keys e.1)) tls

    import_stream-endpoints :
        (tls done : TlsData) (s : S)
        → AreEndpoints tls
        → Distinct (done ++ tls)
        → import_stream (export_endpoints reader source (listing tls)) done true s
          ≡ import_stream ([], none) (done ++ tls) true s
    unfolding export_endpoints import_entries
    import_stream-endpoints [] done s h d =
        ap (λ t. import_stream ([], none) t true s) (sym (append-nil done))
    import_stream-endpoints ((ep, files) ∷ tls) done s ((h, l, k, n, df), hs) d =
        let more = export_endpoints reader source (listing tls) in
        let absent = absent_key ep files done tls d in
        let moved = append_assoc done ((ep, files) ∷ []) tls in
        import_stream-files ep files more done true s h l k
        ∙ ap (λ t. import_stream more t true s) (add_files-append ep files done absent n df)
        ∙ import_stream-endpoints tls (done ++ (ep, files) ∷ []) s hs (subst Distinct (sym moved) d)
        ∙ ap (λ t. import_stream ([], none) t true s) moved

    module _ (marshal : Metadata V → Result E Text) (meta : Metadata V) (bytes : Text)
        (found : reader.get_metadata source ≡ ok meta) (written : marshal meta ≡ ok bytes)
        (read : unmarshal bytes ≡ ok meta) (valid : validate_context_name name ≡ ok tt) where
      parse_metadata-ok : parse_metadata unmarshal name bytes ≡ ok (record meta { name = name })
      unfolding parse_metadata
      parse_metadata-ok = rw (read, valid) refl

      -- The behaviour of the import on the first entry of an export.
      import_file-metadata :
          (next : TlsData → Bool → S → ImportOutcome E S) (tls : TlsData) (imported : Bool) (s : S)
          → import_file unmarshal writer name (file_entry meta_file bytes) tls imported next s
            ≡ and_then (writer.create_or_update (record meta { name = name }) s) (next tls true)
      import_file-metadata next tls imported s =
          rw
            (
              import_file,
              meta_lem meta_file refl,
              eq_refl meta_file,
              import_metadata,
              parse_metadata-ok,
            )
            refl

      export_context-ok :
          (endpoints : Map (List Text))
          → reader.list_tls_files source ≡ ok endpoints
          → export_context reader source marshal ≡ (
            file_entry meta_file bytes
                ∷ dir_entry (codes "tls")
                ∷ (export_endpoints reader source endpoints).0,
            (export_endpoints reader source endpoints).1,
          )
      unfolding export_context
      export_context-ok endpoints e = rw (export_context, found, written, e) refl

      -- The import of an export whose archive is no longer than 10 MiB writes the metadata with the new
      -- name, and then the files of all endpoints, where the context can be exported, the decoder
      -- inverts the encoder, and the reader of archives reads what was written to the archive.
      pub import_tar-export_context :
          (exceeds : E) (tar_reader : Contents E → List (Entry E) × Option E) (reads : List Text)
          (tls : TlsData) (s : S)
          → length (joined reads) ≤ max_allowed_file_size_to_import
          → tar_reader (joined reads, none) ≡ export_context reader source marshal
          → reader.list_tls_files source ≡ ok (listing tls)
          → AreEndpoints tls
          → Distinct tls
          → import_tar unmarshal writer name exceeds tar_reader reads none s
            ≡ and_then
                (writer.create_or_update (record meta { name = name }) s)
                (λ s'. and_then (writer.reset_tls_material name tls s') (λ s''. (s'', ok tt)))
      unfolding import_tar import_entries
      import_tar-export_context exceeds tar_reader reads tls s fits archive e h d =
          let rest = export_endpoints reader source (listing tls) in
          let next =
            import_entries unmarshal writer name (dir_entry (codes "tls") ∷ rest.0) rest.1 in
          ap (λ o. import_stream (tar_reader o) [] false s)
            (limited-joined exceeds max_allowed_file_size_to_import reads fits)
          ∙ ap (λ o. import_stream o [] false s) archive
          ∙ ap (λ o. import_stream o [] false s) (export_context-ok (listing tls) e)
          ∙ import_file-metadata next [] false s
          ∙ and_then_ext (writer.create_or_update (record meta { name = name }) s)
              (λ s'. import_stream-endpoints tls [] s' h d)
