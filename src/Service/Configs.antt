-- ===== src/Service/Configs.antt =====
-- The secrets, configs and the credential spec of a service in cli/command/service/update.go.
pub mod Referenced
pub mod Twice
use docker_cli.Prelude.{
  Bool, true, false, not, ◌||◌, Option, none, some, List, [], ◌∷◌, ◌++◌, if◌then◌else◌, Result, ok,
  err, ◌>>=◌,
}
use docker_cli.Text.{Text, eq}
use docker_cli.Maps.{elem}
use docker_cli.Template.Functions.{is_empty}
use docker_cli.Service.Flags.{ListFlag, build_to_remove_set}
use docker_cli.Service.References.{Reference, ReferenceError, parse_secrets, parse_configs}

-- `flagSecretAdd` or `flagConfigAdd`: `Changed`, and its value.
pub record ReferenceFlag : Type 0 where
  pub changed : Bool
  pub references : List Reference

-- `swarm.CredentialSpec`
pub record CredentialSpec : Type 0 where
  pub config : Text
  pub file : Text
  pub registry : Text

-- `flagCredentialSpec`: `Changed`, the text it was set to, and the parsed value.
pub record CredentialFlag : Type 0 where
  pub changed : Bool
  pub source : Text
  pub spec : CredentialSpec

-- The loop that leaves out the removed secrets.
unfoldable pub keep_secrets : List Text → List Reference → List Reference
unfolding elem
keep_secrets to_remove [] = []
keep_secrets to_remove (secret ∷ secrets) =
    let rest = keep_secrets to_remove secrets in
    if elem secret.name to_remove then rest else secret ∷ rest

-- `removeConfigs`, with the set to remove.
unfoldable pub remove_configs : List Text → Text → Text → List Reference → List Reference
unfolding elem eq
remove_configs to_remove cred_name cred_id [] = []
remove_configs to_remove cred_name cred_id (config ∷ configs) =
    let rest = remove_configs to_remove cred_name cred_id configs in
    if config.is_runtime
    then if eq config.name cred_name || eq config.id cred_id then config ∷ rest else rest
    else if elem config.name to_remove
    then rest
    else config ∷ rest

-- The identifier of the config of the credential spec that is there; `[]` where there is none.
abbrev pub old_cred_id : Option CredentialSpec → Text
old_cred_id none = []
old_cred_id (some spec) = spec.config

-- `credSpecConfigName` and `credSpecConfigID`
abbrev pub cred_names : CredentialFlag → Option CredentialSpec → Text × Text
cred_names flag old = if flag.changed then (flag.spec.config, []) else ([], old_cred_id old)

-- `&swarm.ConfigReference{ConfigName: name, Runtime: …}`
abbrev pub runtime_reference : Text → Reference
runtime_reference name = record { name = name; id = []; file = []; is_runtime = true }

-- `resolveConfigs`
abbrev pub resolve_configs : ReferenceFlag → Text → List Reference
resolve_configs config_add cred_name =
    (if config_add.changed then config_add.references else [])
    ++ (if is_empty cred_name then [] else runtime_reference cred_name ∷ [])

-- The first config of a name.
unfoldable pub config_named : Text → List Reference → Option Reference
unfolding eq
config_named name [] = none
config_named name (config ∷ configs) =
    let later = config_named name configs in if eq config.name name then some config else later

-- The loop of `updateCredSpecConfig`.
abbrev pub with_config_id : List Reference → CredentialSpec → CredentialSpec
with_config_id configs spec =
    if is_empty spec.config then spec else elim (config_named spec.config configs) [
      | none ↦ spec
      | some config ↦ record spec { config = config.id }
    ]

-- `updateCredSpecConfig`, on `containerSpec.Privileges`: whether they are there, and the credential
-- spec in them. No other privilege is touched.
unfoldable pub update_cred_spec_config :
    CredentialFlag
    → List Reference
    → Option (Option CredentialSpec)
    → Option (Option CredentialSpec)
unfolding config_named
update_cred_spec_config flag configs privileges =
    if flag.changed
    then if is_empty flag.source
      then elim privileges [ none ↦ none | some old ↦ some none ]
      else some (some (with_config_id configs flag.spec))
    else privileges

-- `spec.Privileges.CredentialSpec`, where both are there.
abbrev pub credential_of : Option (Option CredentialSpec) → Option CredentialSpec
credential_of none = none
credential_of (some old) = old

module _ (list_by_names : List Text → Option (List (Text × Text))) where
  -- `getUpdatedSecrets`
  unfoldable pub get_updated_secrets :
      ListFlag → ReferenceFlag → List Reference → Result ReferenceError (List Reference)
  unfolding build_to_remove_set keep_secrets parse_secrets
  get_updated_secrets secret_rm secret_add secrets =
      let kept = keep_secrets (build_to_remove_set secret_rm) secrets in
      let request = parse_secrets list_by_names secret_add.references in
      if secret_add.changed then (request >>= λ added. ok (kept ++ added)) else ok kept

  -- `getUpdatedConfigs`. `ParseConfigs` returns no config for an empty request, as where it is not
  -- called.
  unfoldable pub get_updated_configs :
      ListFlag
      → ReferenceFlag
      → CredentialFlag
      → Option (Option CredentialSpec)
      → List Reference
      → Result ReferenceError (List Reference)
  unfolding build_to_remove_set remove_configs parse_configs
  get_updated_configs config_rm config_add flag privileges configs = do
    added ←
        parse_configs list_by_names
          (resolve_configs config_add (cred_names flag (credential_of privileges)).0)
    ok (
        remove_configs (build_to_remove_set config_rm)
          (cred_names flag (credential_of privileges)).0
          (cred_names flag (credential_of privileges)).1 configs
        ++ added)
