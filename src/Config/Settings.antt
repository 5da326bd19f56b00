-- ===== src/Config/Settings.antt =====
-- Settings of cli/config/configfile/file.go: those of plugins, the proxies, and which credential store is
-- asked. A nil map reads as an empty one.
pub mod Plugins
pub mod Proxies
use docker_cli.Prelude.{
  ℕ, Bool, true, false, not, ◌&&◌, ◌||◌, Option, none, some, List, [], ◌∷◌, if◌then◌else◌, is_some,
  leb, ◌+◌, map,
}
use docker_cli.Text.{Text, codes, eq}
use docker_cli.Template.Functions.{is_empty}
use docker_cli.Maps.{Map, lookup, has_key, insert, delete}

abbrev pub PluginOptions : Type 0
PluginOptions = Map (Map Text)

abbrev pub options_of : Option (Map Text) → Map Text
options_of none = []
options_of (some options) = options

-- `PluginConfig`, `none` where the option is not found
unfoldable pub plugin_config : Text → Text → PluginOptions → Option Text
unfolding lookup
plugin_config plugin_name option plugins = elim (lookup plugin_name plugins) [
  | none ↦ none
  | some options ↦ lookup option options
]

-- The map of a plugin, or its removal where nothing is left in it.
abbrev pub put_options : Text → Map Text → PluginOptions → PluginOptions
put_options plugin_name [] plugins = delete plugin_name plugins
put_options plugin_name (entry ∷ options) plugins = insert plugin_name (entry ∷ options) plugins

-- `SetPluginConfig`
unfoldable pub set_plugin_config : Text → Text → Text → PluginOptions → PluginOptions
unfolding lookup insert delete
set_plugin_config plugin_name option value plugins =
    let options = options_of (lookup plugin_name plugins) in
    put_options plugin_name
      (if is_empty value then delete option options else insert option value options) plugins

-- `ProxyConfig`, as the code pairs the variables with the fields.
pub record ProxyConfig : Type 0 where
  pub http_proxy : Text
  pub https_proxy : Text
  pub no_proxy : Text
  pub ftp_proxy : Text
  pub all_proxy : Text

abbrev pub empty_proxy : ProxyConfig
empty_proxy = record {
  http_proxy = [];
  https_proxy = [];
  no_proxy = [];
  ftp_proxy = [];
  all_proxy = [];
}

abbrev pub permitted : ProxyConfig → Map Text
permitted config =
    (codes "HTTP_PROXY", config.http_proxy)
    ∷ (codes "HTTPS_PROXY", config.https_proxy)
    ∷ (codes "NO_PROXY", config.no_proxy)
    ∷ (codes "FTP_PROXY", config.ftp_proxy)
    ∷ (codes "ALL_PROXY", config.all_proxy)
    ∷ []

-- `strings.ToLower` on ASCII letters
abbrev pub to_lower : Text → Text
to_lower s = map (λ c. if leb b'A' c && leb c b'Z' then c + 32 else c) s

-- `if _, ok := m[k]; !ok { m[k] = v }`
abbrev pub set_default : Text → Option Text → Map (Option Text) → Map (Option Text)
set_default k v m = if has_key k m then m else insert k v m

-- The loop over the permitted variables. The values are pointers, of which those given may be nil.
unfoldable pub add_proxies : Map Text → Map (Option Text) → Map (Option Text)
unfolding has_key insert
add_proxies [] m = m
add_proxies ((k, v) ∷ rest) m =
    add_proxies rest
      (if is_empty v then m else set_default (to_lower k) (some v) (set_default k (some v) m))

abbrev pub proxy_of : Option ProxyConfig → Option ProxyConfig → ProxyConfig
proxy_of (some config) default_config = config
proxy_of none (some config) = config
proxy_of none none = empty_proxy

-- `ParseProxyConfig`
unfoldable pub parse_proxy_config : Map ProxyConfig → Text → Map (Option Text) → Map (Option Text)
unfolding add_proxies lookup
parse_proxy_config proxies host run_opts =
    add_proxies (permitted (proxy_of (lookup host proxies) (lookup (codes "default") proxies)))
      run_opts

-- `getConfiguredCredentialStore`
unfoldable pub configured_credential_store : Map Text → Text → Text → Text
unfolding lookup
configured_credential_store helpers credentials_store registry_hostname =
    if is_empty registry_hostname
    then credentials_store
    else (elim (lookup registry_hostname helpers) [
      | none ↦ credentials_store
      | some helper ↦ helper
    ])

-- `ContainsAuth`
abbrev pub contains_auth {ℓ} : {A : Type ℓ} → Text → Map Text → Map A → Bool
contains_auth credentials_store helpers [] =
    not (is_empty credentials_store) || (elim helpers [ [] ↦ false | ◌∷◌ h hs ↦ true ])
contains_auth credentials_store helpers (a ∷ auths) = true
