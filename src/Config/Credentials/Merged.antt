-- ===== src/Config/Credentials/Merged.antt =====
-- Whose credentials `GetAllCredentials` of cli/config/configfile/file.go gives for a registry.
use docker_cli.Prelude.{
  Option-cases, ℕ, ◌≡◌, refl, ◌∙◌, ap, Option, none, some, List, [], ◌∷◌, if◌then◌else◌, Result, ok,
  err, arith, Bool-cases, inl, inr, is_some,
}
use docker_cli.Text.{Text, eq}
use docker_cli.Text.Laws.{eq_iff}
use docker_cli.Template.Functions.{is_empty}
use docker_cli.Config.Settings.{configured_credential_store}
use docker_cli.Maps.{Map, lookup, insert_all, elem, keys}
use docker_cli.Maps.Laws.{Distinct, lookup-insert, lookup-insert_all, elem-keys}
use docker_cli.Config.Credentials.{
  CredentialsStore, get_credentials_store, get_auth_config, add_auth, add_helpers,
  get_all_credentials,
}

default_lem {ℓ} : {A : Type ℓ} (o : Option A) → (if is_some o then o else none) ≡ o
default_lem none = refl
default_lem (some a) = refl

module _ {ℓ κ} {E : Type ℓ} {A : Type κ} (native_store : Text → CredentialsStore E A)
    (file_store : CredentialsStore E A) (helpers : Map Text) (default_store : Text) where
  -- What is found, or else what was there.
  abbrev pub found_or : Result E A → Option A → Option A
  found_or (ok auth) o = some auth
  found_or (err e) o = o

  abbrev pub asked : Text → Result E A
  asked r = get_auth_config native_store file_store helpers default_store r

  add_lem :
      (h r : Text) (answer : Result E A) (auths : Map A)
      → lookup r (add_auth native_store file_store helpers default_store h answer auths)
        ≡ (if eq h r then found_or answer (lookup r auths) else lookup r auths)
  add_lem h r (ok auth) auths = lookup-insert h r auths auth
  add_lem h r (err e) auths = ground arith

  found_twice :
      (answer : Result E A) (o : Option A) → found_or answer (found_or answer o) ≡ found_or answer o
  found_twice (ok auth) o = refl
  found_twice (err e) o = refl

  lookup-add_helpers :
      (hosts : List Text) (r : Text) (auths : Map A)
      → lookup r (add_helpers native_store file_store helpers default_store hosts auths)
        ≡ (if elem r hosts then found_or (asked r) (lookup r auths) else lookup r auths)
  unfolding add_helpers elem
  lookup-add_helpers [] r auths = refl
  lookup-add_helpers (h ∷ hosts) r auths =
      let next = add_auth native_store file_store helpers default_store h (asked h) auths in
      lookup-add_helpers hosts r next
      ∙ ap (λ o. if elem r hosts then found_or (asked r) o else o) (add_lem h r (asked h) auths)
      ∙ elim (Bool-cases (eq h r)) [
        | inl e ↦ rw e (
            ap
              (λ t.
                if elem r hosts
                then found_or (asked r) (found_or (asked t) (lookup r auths))
                else found_or (asked t) (lookup r auths))
              ((eq_iff h r).0 e)
            ∙ elim (Bool-cases (elem r hosts)) [
              | inl f ↦ rw f (found_twice (asked r) (lookup r auths))
              | inr f ↦ rw f refl
            ])
        | inr e ↦ rw e refl
      ]

  all_lem :
      (auths : Map A) (r : Text)
      → Distinct auths
      → lookup r (
          add_helpers native_store file_store helpers default_store
            (keys helpers)
            (insert_all auths []))
        ≡ (if is_some (lookup r helpers)
            then found_or (asked r) (lookup r auths)
            else lookup r auths)
  unfolding lookup
  all_lem auths r d =
      lookup-add_helpers (keys helpers) r (insert_all auths [])
      ∙ ap (λ o. if elem r (keys helpers) then found_or (asked r) o else o)
          (lookup-insert_all r auths [] d ∙ default_lem (lookup r auths))
      ∙ ap (λ b. if b then found_or (asked r) (lookup r auths) else lookup r auths)
          (elem-keys r helpers)

  -- The store of a helper, or the file where none is named.
  abbrev pub store_named : Text → CredentialsStore E A
  store_named helper = if is_empty helper then file_store else native_store helper

  asked_lem :
      (c : ℕ) (r helper : Text)
      → lookup (c ∷ r) helpers ≡ some helper
      → asked (c ∷ r) ≡ (store_named helper).get (c ∷ r)
  unfolding get_auth_config get_credentials_store configured_credential_store
  asked_lem c r helper e =
      rw (asked, get_auth_config, get_credentials_store, configured_credential_store, e) refl

  -- What a registry has: the answer of the store of its helper, or else what the default store has.
  abbrev pub gathered : Text → Option Text → Option A → Option A
  gathered r none o = o
  gathered r (some helper) o = found_or ((store_named helper).get r) o

  -- Where the default store answers with a map, GetAllCredentials succeeds: a registry with a helper has
  -- what the store of that helper answers, and where that fails, or there is no helper, it has what the
  -- default store has. The name of a registry is not empty.
  pub lookup-get_all_credentials :
      (auths : Map A) (c : ℕ) (r : Text)
      → Distinct auths
      → (store_named default_store).get_all ≡ ok auths
      → (found : Map A) × (get_all_credentials native_store file_store helpers default_store
          ≡ ok found)
        × (lookup (c ∷ r) found ≡ gathered (c ∷ r) (lookup (c ∷ r) helpers) (lookup (c ∷ r) auths))
  unfolding get_all_credentials get_credentials_store configured_credential_store
  lookup-get_all_credentials auths c r d h = (
    add_helpers native_store file_store helpers default_store (keys helpers) (insert_all auths []),
    rw h refl,
    all_lem auths (c ∷ r) d ∙ elim (Option-cases (lookup (c ∷ r) helpers)) [
      | inl n ↦ rw n refl
      | inr (helper, e) ↦
          rw e (ap (λ a. found_or a (lookup (c ∷ r) auths)) (asked_lem c r helper e))
    ],
  )

  -- Where the default store fails, so does GetAllCredentials.
  pub get_all_credentials-err :
      (e : E)
      → (store_named default_store).get_all ≡ err e
      → get_all_credentials native_store file_store helpers default_store ≡ err e
  unfolding get_all_credentials get_credentials_store configured_credential_store
  get_all_credentials-err e h = rw h refl
