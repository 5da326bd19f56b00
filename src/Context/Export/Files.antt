-- ===== src/Context/Export/Files.antt =====
-- The path that `Export` in cli/context/store/store.go gives a file, and what the import makes of it.
use docker_cli.Prelude.{
  ◌≡◌, ◌≢◌, refl, ◌∙◌, ap, Bool, false, [], ◌∷◌, ◌++◌, All-append, Result, ok, arith, inr,
}
use docker_cli.Text.{Text, eq, codes, join}
use docker_cli.Text.Laws.{Lacks}
use docker_cli.Template.Functions.{is_empty}
use docker_cli.Maps.{lookup, insert}
use docker_cli.Context.Paths.{separator, tls_prefix, meta_file, is_valid_file_path}
use docker_cli.Context.Paths.Valid.{
  IsComponent, is_valid_file_path-IsTlsPath, clean_complete, has_prefix-append,
}
use docker_cli.Context.Import.{
  Metadata, TlsData, Writer, ImportOutcome, files_of, import_tls, import_file,
}
use docker_cli.Context.Import.Inside.{IsFilePath, import_endpoint_tls-append}
use docker_cli.Context.Export.{path_join, file_entry}

-- The name of a file, of plain components without a backslash.
abbrev pub IsFile : Text → Type 0
IsFile f = IsFilePath f × Lacks b'\\' f

plain_not_empty : (c : Text) → IsComponent c → is_empty c ≡ false
plain_not_empty [] ((n, _, _), _) = absurd (n refl)
plain_not_empty (x ∷ c) h = refl

file_not_empty : (f : Text) → IsFilePath f → is_empty f ≡ false
unfolding join
file_not_empty f ([], cs, (((n, _, _), _), _), e) = absurd (n refl)
file_not_empty f (x ∷ c, [], k, e) = rw e refl
file_not_empty f (x ∷ c, d ∷ cs, k, e) = rw e refl

path_join-file :
    (ep f : Text)
    → IsComponent ep
    → IsFilePath f
    → path_join (codes "tls" ∷ ep ∷ f ∷ []) ≡ tls_prefix ++ (ep ++ separator ∷ f)
unfolding join
path_join-file ep f h (c, cs, k, e) =
    rw (plain_not_empty ep h, file_not_empty f (c, cs, k, e))
      (rw e (clean_complete ep (c ∷ cs) (h, k)))

valid_file :
    (ep f : Text)
    → IsComponent ep
    → Lacks b'\\' ep
    → IsFile f
    → is_valid_file_path (tls_prefix ++ (ep ++ separator ∷ f)) ≡ ok tt
unfolding join
valid_file ep f h l ((c, cs, k, e), m) =
    let backslashless = All-append (λ d. d ≢ b'\\') ep (separator ∷ f) l (omega arith, m) in
    (is_valid_file_path-IsTlsPath (tls_prefix ++ (ep ++ separator ∷ f))).1 (
      inr (
        (ep, c ∷ cs, (h, k), ap (λ g. tls_prefix ++ (ep ++ separator ∷ g)) e),
        All-append (λ d. d ≢ b'\\') tls_prefix (ep ++ separator ∷ f) (omega arith) backslashless,
      ))

not_meta : (s : Text) → eq (tls_prefix ++ s) meta_file ≡ false
unfolding eq
not_meta s = refl

module _ {ℓ κ ι} {E : Type ℓ} {V : Type κ} {S : Type ι} (unmarshal : Text → Result E (Metadata V))
    (writer : Writer E V S) (name : Text) where
  -- A file of an endpoint is added, and the loop goes on.
  pub import_file-file :
      (ep f content : Text) (next : TlsData → Bool → S → ImportOutcome E S) (tls : TlsData)
      (imported : Bool)
      → (s : S) → IsComponent ep
      → Lacks b'\\' ep
      → IsFile f
      → import_file unmarshal writer name
          (file_entry (path_join (codes "tls" ∷ ep ∷ f ∷ [])) content)
          tls
          imported
          next
          s
        ≡ next (insert ep (insert f content (files_of (lookup ep tls))) tls) imported s
  import_file-file ep f content next tls imported s h l (k, m) =
      ap (λ p. import_file unmarshal writer name (file_entry p content) tls imported next s)
        (path_join-file ep f h k)
      ∙ rw
          (
            import_file,
            valid_file ep f h l (k, m),
            not_meta (ep ++ separator ∷ f),
            has_prefix-append tls_prefix (ep ++ separator ∷ f),
            import_tls,
            import_endpoint_tls-append {E = E} tls ep f content h,
          )
          refl
