-- ===== src/Config/Credentials.antt =====
-- All credentials of the configured stores: `GetCredentialsStore`, `GetAuthConfig` and
-- `GetAllCredentials` in cli/config/configfile/file.go. What a store answers is a parameter.
pub mod Merged
use docker_cli.Prelude.{
  Bool, true, false, Option, none, some, List, [], ◌∷◌, if◌then◌else◌, Result, ok, err, ◌>>=◌,
}
use docker_cli.Text.{Text}
use docker_cli.Template.Functions.{is_empty}
use docker_cli.Maps.{Map, insert, insert_all, keys}
use docker_cli.Config.Settings.{configured_credential_store}

-- What is called of `credentials.Store`, with what it answers.
pub record CredentialsStore {ℓ κ} (E : Type ℓ) (A : Type κ) : Type (ℓ ⊔ κ) where
  pub get : Text → Result E A
  pub get_all : Result E (Map A)

module _ {ℓ κ} {E : Type ℓ} {A : Type κ} (native_store : Text → CredentialsStore E A)
    (file_store : CredentialsStore E A) (helpers : Map Text) (default_store : Text) where
  -- `GetCredentialsStore`
  unfoldable pub get_credentials_store : Text → CredentialsStore E A
  unfolding configured_credential_store
  get_credentials_store hostname =
      let helper = configured_credential_store helpers default_store hostname in
      if is_empty helper then file_store else native_store helper

  -- `GetAuthConfig`
  unfoldable pub get_auth_config : Text → Result E A
  unfolding get_credentials_store
  get_auth_config hostname = (get_credentials_store hostname).get hostname

  abbrev pub add_auth : Text → Result E A → Map A → Map A
  add_auth hostname (ok auth) auths = insert hostname auth auths
  add_auth hostname (err e) auths = auths

  -- The loop over the hosts that have a helper; an error is only logged.
  unfoldable pub add_helpers : List Text → Map A → Map A
  unfolding get_auth_config insert
  add_helpers [] auths = auths
  add_helpers (hostname ∷ hostnames) auths =
      add_helpers hostnames (add_auth hostname (get_auth_config hostname) auths)

  -- `GetAllCredentials`
  unfoldable pub get_all_credentials : Result E (Map A)
  unfolding add_helpers insert_all
  get_all_credentials = (get_credentials_store []).get_all >>= λ new_auths.
      ok (add_helpers (keys helpers) (insert_all new_auths []))
