-- ===== src/Tests/Config.antt =====
-- cli/config/configfile/file.go on concrete credentials, settings and stores.
use docker_cli.Maps.{lookup, Map}
use docker_cli.Config.Credentials.{CredentialsStore, get_all_credentials}
use docker_cli.Config.Credentials.Merged.{gathered, lookup-get_all_credentials}
use docker_cli.Maps.Laws.{Distinct}
use docker_cli.Config.Settings.{PluginOptions, plugin_config, set_plugin_config}
use docker_cli.Config.Settings.Plugins.{HaveOptions, set_plugin_config-HaveOptions}
use docker_cli.Prelude.{◌≡◌, refl, [], ◌∷◌, ok, err, inl, arith, if◌then◌else◌, some, ◌&&◌}
use docker_cli.Text.{codes, eq, Text}
use docker_cli.Config.Base64.{}
use docker_cli.Config.Auth.{
  AuthConfig, invalid_configuration, encode_auth, decode_auth, save_auths, load_auths,
}
use docker_cli.Config.Auth.RoundTrip.{
  IsSavable, restored, load_auths-save_auths, load_auths-unnamed,
}

abbrev named : AuthConfig
named = record {
  username = codes "me";
  password = codes "a:b";
  auth = [];
  email = [];
  server_address = [];
  identity_token = [];
  registry_token = [];
}

abbrev unnamed : AuthConfig
unnamed = record named { username = [] }

encode_auth_test : encode_auth named ≡ codes "bWU6YTpi"
unfolding encode_auth
encode_auth_test = refl

decode_auth_test : decode_auth (codes "bWU6YTpi") ≡ ok (codes "me", codes "a:b")
unfolding decode_auth
decode_auth_test = refl

named-IsSavable : IsSavable named
named-IsSavable = (omega arith, omega arith, omega arith, inl (λ e. cc))

load_auths-save_auths_example :
    load_auths (save_auths ((codes "hub", named) ∷ []))
    ≡ ok ((codes "hub", restored (codes "hub") named) ∷ [])
load_auths-save_auths_example =
    load_auths-save_auths ((codes "hub", named) ∷ []) (named-IsSavable, tt)

load_auths-unnamed_example :
    load_auths (save_auths ((codes "hub", named) ∷ (codes "own", unnamed) ∷ []))
    ≡ err invalid_configuration
load_auths-unnamed_example =
    load_auths-unnamed ((codes "hub", named) ∷ []) [] (codes "own") unnamed b'a' (codes ":b")
      (named-IsSavable, tt) (omega arith) refl refl

abbrev hooks : PluginOptions
hooks = (codes "compose", (codes "hooks", codes "on") ∷ []) ∷ []

set_plugin_config_test : set_plugin_config (codes "compose") (codes "hooks") [] hooks ≡ []
unfolding set_plugin_config eq
set_plugin_config_test = refl

set_plugin_config-HaveOptions_example :
    ((p o : Text)
      → plugin_config p o (set_plugin_config (codes "scout") (codes "a") (codes "b") hooks) ≡ (
          if eq (codes "scout") p && eq (codes "a") o
          then some (codes "b")
          else plugin_config p o hooks))
    × HaveOptions (set_plugin_config (codes "scout") (codes "a") (codes "b") hooks)
set_plugin_config-HaveOptions_example =
    set_plugin_config-HaveOptions (codes "scout") (codes "a") (codes "b") hooks ((λ e. cc), tt)

-- Stores that answer with their own name.
abbrev named_store : Text → CredentialsStore Text Text
named_store name = record { get = λ r. ok name; get_all = ok ((codes "hub", name) ∷ []) }

hub-Distinct : Distinct ((codes "hub", codes "file") ∷ [])
unfolding lookup
hub-Distinct = (refl, tt)

abbrev all_found : Map Text
all_found = (codes "hub", codes "file") ∷ (codes "own", codes "pass") ∷ []

get_all_credentials_test :
    get_all_credentials named_store
      (named_store (codes "file"))
      ((codes "own", codes "pass") ∷ [])
      []
    ≡ ok all_found
unfolding get_all_credentials eq
get_all_credentials_test = refl

lookup-get_all_credentials_example :
    (found : Map Text) × (get_all_credentials named_store
        (named_store (codes "file"))
        ((codes "own", codes "pass") ∷ [])
        []
      ≡ ok found)
    × (lookup (codes "own") found
        ≡ gathered named_store
            (named_store (codes "file"))
            ((codes "own", codes "pass") ∷ [])
            []
            (codes "own")
            (lookup (codes "own") ((codes "own", codes "pass") ∷ []))
            (lookup (codes "own") ((codes "hub", codes "file") ∷ [])))
lookup-get_all_credentials_example =
    lookup-get_all_credentials named_store (named_store (codes "file"))
      ((codes "own", codes "pass") ∷ []) [] ((codes "hub", codes "file") ∷ []) b'o' (codes "wn")
      hub-Distinct refl
