-- ===== src/Context/Import/Inside.antt =====
-- What the import of cli/context/store/store.go collects of the files below `tls`.
use docker_cli.Prelude.{
  ◌≡◌, refl, sym, subst, ◌∙◌, ap, List, [], ◌∷◌, ◌++◌, All, ok, err, inl, inr, Bool-cases, ok_lem,
}
use docker_cli.Text.{Text, codes, eq, join, cut}
use docker_cli.Text.Laws.{cut-append, cut-Lacks, strip_prefix-append}
use docker_cli.Maps.{Map, lookup, insert}
use docker_cli.Context.Paths.{separator, tls_prefix}
use docker_cli.Context.Paths.Valid.{IsComponent, IsTlsPath}
use docker_cli.Context.Import.{
  TlsData, bad_archive, files_of, trim_prefix, add_file, import_endpoint_tls,
}

module _ {ℓ κ} {V : Type ℓ} (P : Text × V → Type κ) where
  pub All-insert : (k : Text) (v : V) (m : Map V) → P (k, v) → All P m → All P (insert k v m)
  unfolding insert
  All-insert k v [] p h = (p, tt)
  All-insert k v ((j, w) ∷ m) p (q, h) = elim (Bool-cases (eq j k)) [
    | inl e ↦ rw e (p, h)
    | inr e ↦ rw e (q, All-insert k v m p h)
  ]

-- The path of a file inside the directory of an endpoint.
abbrev pub IsFilePath : Text → Type 0
IsFilePath f =
    (c : Text) × (cs : List Text) × All IsComponent (c ∷ cs) × (f ≡ join (c ∷ cs) (separator ∷ []))

-- All names stay inside the directory of the context.
abbrev pub IsInside : TlsData → Type 0
IsInside tls = All (λ e. IsComponent e.0 × All (λ f. IsFilePath f.0) e.1) tls

files-IsInside :
    (ep : Text) (tls : TlsData)
    → IsInside tls
    → All (λ f. IsFilePath f.0) (files_of (lookup ep tls))
unfolding lookup
files-IsInside ep [] h = tt
files-IsInside ep ((j, files) ∷ tls) ((_, k), h) = elim (Bool-cases (eq j ep)) [
  | inl e ↦ rw e k
  | inr e ↦ rw e (files-IsInside ep tls h)
]

trim_lem : (rest : Text) → trim_prefix (tls_prefix ++ rest) tls_prefix ≡ rest
trim_lem rest = rw (trim_prefix, strip_prefix-append tls_prefix rest) refl

module _ {ℓ} {E : Type ℓ} where
  -- A file directly below `tls` has no endpoint.
  pub import_endpoint_tls-one :
      (tls : TlsData) (c content : Text)
      → IsComponent c
      → import_endpoint_tls {E = E} tls (tls_prefix ++ c) content ≡ err bad_archive
  unfolding import_endpoint_tls
  import_endpoint_tls-one tls c content (_, l) =
      ap (λ s. add_file tls content (cut s (codes "/"))) (trim_lem c)
      ∙ ap (add_file tls content) (cut-Lacks c [] separator l)

  -- The first component is the endpoint, and the rest is the file.
  pub import_endpoint_tls-append :
      (tls : TlsData) (c file content : Text)
      → IsComponent c
      → import_endpoint_tls {E = E} tls (tls_prefix ++ (c ++ separator ∷ file)) content
        ≡ ok (insert c (insert file content (files_of (lookup c tls))) tls)
  unfolding import_endpoint_tls
  import_endpoint_tls-append tls c file content (_, l) =
      ap (λ s. add_file tls content (cut s (codes "/"))) (trim_lem (c ++ separator ∷ file))
      ∙ ap (add_file tls content) (cut-append c [] file separator l)

  pub import_endpoint_tls-IsInside :
      (tls new : TlsData) (path content : Text)
      → IsTlsPath path
      → IsInside tls
      → import_endpoint_tls {E = E} tls path content ≡ ok new
      → IsInside new
  unfolding join
  import_endpoint_tls-IsInside tls new path content (c, [], (h, _), e) k r =
      let one = import_endpoint_tls-one tls c content h in cc
  import_endpoint_tls-IsInside tls new path content (c, d ∷ cs, (h, l), e) k r =
      let file = join (d ∷ cs) (separator ∷ []) in
      let files = files_of (lookup c tls) in
      subst IsInside
        (ok_lem (
          sym (import_endpoint_tls-append tls c file content h)
          ∙ ap (λ p. import_endpoint_tls tls p content) (sym e)
          ∙ r))
        (All-insert _ c (insert file content files) tls
          (h, All-insert _ file content files (d, cs, l, refl) (files-IsInside c tls k)) k)
