-- ===== src/Context/Import/Writes.antt =====
-- What the import of cli/context/store/store.go writes to the store, with and without an error.
use docker_cli.Prelude.{
  ◌≡◌, refl, sym, ap, Bool, true, false, Option, none, some, List, [], ◌∷◌, Result, ok, err, ◌>>=◌,
  arith, ◌⊎◌, inl, inr, Bool-cases, Result-cases, ok_lem, bind-eq-ok,
}
use docker_cli.Text.{Text, eq, has_prefix}
use docker_cli.Text.Laws.{eq_iff}
use docker_cli.Context.Names.{validate_context_name}
use docker_cli.Context.Limited.{Contents, limited, max_allowed_file_size_to_import}
use docker_cli.Context.Paths.{is_valid_file_path, meta_file, tls_prefix}
use docker_cli.Context.Paths.Valid.{IsTlsPath, is_valid_file_path-IsTlsPath}
use docker_cli.Context.Import.{
  Metadata, TlsData, ImportError, outside, bad_path, no_metadata, Entry, Writer, lift,
  import_endpoint_tls, parse_metadata, ImportOutcome, and_then, import_metadata, import_tls,
  import_file, import_entries, import_tar,
}
use docker_cli.Context.Import.Inside.{IsInside, import_endpoint_tls-IsInside}

parse_metadata-name {ℓ κ} :
    {E : Type ℓ} {V : Type κ} (unmarshal : Text → Result E (Metadata V)) (name content : Text)
    → (meta : Metadata V) → parse_metadata unmarshal name content ≡ ok meta
    → (validate_context_name name ≡ ok tt) × (meta.name ≡ name)
unfolding parse_metadata
parse_metadata-name unmarshal name content meta h = elim (Result-cases (unmarshal content)) [
  | inl (m, e) ↦ elim (Result-cases (validate_context_name name)) [
    | inl (_, v) ↦ (v, ap (λ m. m.name) (sym (ok_lem (rw (e, v) at h))))
    | inr (f, v) ↦ cc
  ]
  | inr (f, e) ↦ cc
]

tls_path : (p : Text) → is_valid_file_path p ≡ ok tt → eq p meta_file ≡ false → IsTlsPath p
tls_path p h n = elim ((is_valid_file_path-IsTlsPath p).0 h) [
  | inl e ↦ ground (arith, (eq_iff p meta_file).1 e)
  | inr (t, _) ↦ t
]

module _ {ℓ κ ι μ} {E : Type ℓ} {V : Type κ} {S : Type ι} (unmarshal : Text → Result E (Metadata V))
    (writer : Writer E V S) (name : Text) (P : S → Type μ)
    (keeps : (meta : Metadata V) (s : S)
      → validate_context_name name ≡ ok tt
      → meta.name ≡ name
      → P s
      → P (writer.create_or_update meta s).0) where
  -- An error before any file of the endpoints was written, or one write of files that stay inside.
  abbrev pub Ends : ImportOutcome E S → Type (ℓ ⊔ ι ⊔ μ)
  Ends r =
      (P r.0 × (e : ImportError E) × (r.1 ≡ err e))
      ⊎ ((tls : TlsData) × (s : S) × IsInside tls
          × P s
          × (validate_context_name name ≡ ok tt)
          × (r ≡ and_then (writer.reset_tls_material name tls s) (λ s'. (s', ok tt))))

  and_then-Ends :
      (r : S × Result E (Unit {0})) (next : S → ImportOutcome E S)
      → P r.0
      → ((s : S) → P s → Ends (next s))
      → Ends (and_then r next)
  and_then-Ends (s, ok _) next p k = k s p
  and_then-Ends (s, err e) next p k = inl (p, outside e, refl)

  import_metadata-Ends :
      (content : Result E Text) (next : S → ImportOutcome E S) (s : S)
      → P s
      → ((s' : S) → validate_context_name name ≡ ok tt → P s' → Ends (next s'))
      → Ends (import_metadata unmarshal writer name content next s)
  import_metadata-Ends content next s p k =
      elim (Result-cases (lift outside content >>= parse_metadata unmarshal name)) [
        | inl (meta, e) ↦
            let (data_read, _, h) =
              bind-eq-ok (lift outside content) (parse_metadata unmarshal name) e in
            let (valid, n) = parse_metadata-name unmarshal name data_read meta h in
            rw (import_metadata, e)
              (and_then-Ends (writer.create_or_update meta s) next (keeps meta s valid n p)
                (λ s' p'. k s' valid p'))
        | inr (f, e) ↦ rw (import_metadata, e) (inl (p, f, refl))
      ]

  import_tls-Ends :
      (tls : TlsData) (path : Text) (content : Result E Text)
      (next : TlsData → S → ImportOutcome E S) (s : S)
      → IsTlsPath path
      → IsInside tls
      → P s
      → ((new : TlsData) → IsInside new → Ends (next new s))
      → Ends (import_tls unmarshal writer name tls path content next s)
  import_tls-Ends tls path content next s t i p k =
      elim (Result-cases (lift outside content >>= import_endpoint_tls tls path)) [
        | inl (new, e) ↦
            let (data_read, _, h) =
              bind-eq-ok (lift outside content) (import_endpoint_tls tls path) e in
            rw (import_tls, e) (k new (import_endpoint_tls-IsInside tls new path data_read t i h))
        | inr (f, e) ↦ rw (import_tls, e) (inl (p, f, refl))
      ]

  -- What a file leaves for the rest of the loop.
  abbrev Continues : (TlsData → Bool → S → ImportOutcome E S) → Type (ℓ ⊔ ι ⊔ μ)
  Continues next =
      (tls : TlsData) (imported : Bool) (s : S)
      → IsInside tls
      → (imported ≡ true → validate_context_name name ≡ ok tt)
      → P s
      → Ends (next tls imported s)

  import_file-Ends :
      (entry : Entry E) (next : TlsData → Bool → S → ImportOutcome E S)
      → Continues next
      → Continues (λ tls imported s. import_file unmarshal writer name entry tls imported next s)
  import_file-Ends entry next k tls imported s i v p =
      elim (Result-cases (is_valid_file_path entry.name)) [
        | inl (_, e) ↦ elim (Bool-cases (eq entry.name meta_file)) [
          | inl m ↦
              rw (import_file, e, m)
                (import_metadata-Ends entry.content (next tls true) s p
                  (λ s' valid p'. k tls true s' i (λ _. valid) p'))
          | inr m ↦ elim (Bool-cases (has_prefix entry.name tls_prefix)) [
            | inl t ↦
                rw (import_file, e, m, t)
                  (import_tls-Ends tls entry.name entry.content (λ new. next new imported) s
                    (tls_path entry.name e m) i p (λ new h. k new imported s h v p))
            | inr t ↦ rw (import_file, e, m, t) (k tls imported s i v p)
          ]
        ]
        | inr (f, e) ↦ rw (import_file, e) (inl (p, bad_path f, refl))
      ]

  import_entries-Ends :
      (entries : List (Entry E)) (failure : Option E)
      → Continues (import_entries unmarshal writer name entries failure)
  unfolding import_entries
  import_entries-Ends [] (some e) tls imported s i v p = inl (p, outside e, refl)
  import_entries-Ends [] none tls true s i v p = inr (tls, s, i, p, v refl, refl)
  import_entries-Ends [] none tls false s i v p = inl (p, no_metadata, refl)
  import_entries-Ends (entry ∷ entries) failure tls imported s i v p =
      elim (Bool-cases entry.regular) [
        | inl e ↦ rw e (
            import_file-Ends entry (import_entries unmarshal writer name entries failure)
              (import_entries-Ends entries failure) tls imported s i v p)
        | inr e ↦ rw e (import_entries-Ends entries failure tls imported s i v p)
      ]

  -- An import keeps what every change of the metadata of a context with its name keeps: it fails
  -- without a change of the files of the endpoints, or its name is valid, and it ends with one call that
  -- writes files whose names all stay inside the directory of the context. It holds for all that the
  -- reader of the archive makes of the bytes.
  pub import_tar-Ends :
      (exceeds : E) (tar_reader : Contents E → List (Entry E) × Option E) (reads : List Text)
      (failure : Option E) (s : S)
      → P s
      → Ends (import_tar unmarshal writer name exceeds tar_reader reads failure s)
  unfolding import_tar
  import_tar-Ends exceeds tar_reader reads failure s p =
      let (entries, end) =
        tar_reader (limited exceeds max_allowed_file_size_to_import reads failure) in
      import_entries-Ends entries end [] false s tt (λ h. cc) p
