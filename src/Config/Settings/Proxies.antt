-- ===== src/Config/Settings/Proxies.antt =====
-- The variables that `ParseProxyConfig` of cli/config/configfile/file.go gives a container.
use docker_cli.Prelude.{◌≡◌, ◌∙◌, ap, Option, some, [], ◌∷◌, Bool-cases, inl, inr, is_some}
use docker_cli.Text.{Text, codes, eq}
use docker_cli.Maps.{Map, lookup, has_key}
use docker_cli.Maps.Laws.{lookup-insert}
use docker_cli.Text.Laws.{eq_iff}
use docker_cli.Config.Settings.{
  set_default, to_lower, add_proxies, parse_proxy_config, ProxyConfig, permitted, proxy_of,
}

lookup-set_default :
    (k j : Text) (v w : Option Text) (m : Map (Option Text))
    → lookup j m ≡ some w
    → lookup j (set_default k v m) ≡ some w
unfolding has_key
lookup-set_default k j v w m h = elim (Bool-cases (is_some (lookup k m))) [
  | inl e ↦ rw e h
  | inr e ↦ rw e (
      lookup-insert k j m v ∙ elim (Bool-cases (eq k j)) [
        | inl q ↦ let same = (eq_iff k j).0 q in let found = ap is_some h in cc
        | inr q ↦ rw q h
      ])
]

lookup-add_proxies :
    (proxies : Map Text) (m : Map (Option Text)) (j : Text) (w : Option Text)
    → lookup j m ≡ some w
    → lookup j (add_proxies proxies m) ≡ some w
unfolding add_proxies
lookup-add_proxies [] m j w h = h
lookup-add_proxies ((k, []) ∷ rest) m j w h = lookup-add_proxies rest m j w h
lookup-add_proxies ((k, c ∷ v) ∷ rest) m j w h =
    lookup-add_proxies rest
      (set_default (to_lower k) (some (c ∷ v)) (set_default k (some (c ∷ v)) m)) j w
      (lookup-set_default (to_lower k) j (some (c ∷ v)) w (set_default k (some (c ∷ v)) m)
        (lookup-set_default k j (some (c ∷ v)) w m h))

-- What the user gives for a variable is kept, a value that is nil included.
pub lookup-parse_proxy_config :
    (proxies : Map ProxyConfig) (host : Text) (run_opts : Map (Option Text)) (j : Text)
    → (w : Option Text) → lookup j run_opts ≡ some w
    → lookup j (parse_proxy_config proxies host run_opts) ≡ some w
unfolding parse_proxy_config
lookup-parse_proxy_config proxies host run_opts j w h =
    lookup-add_proxies
      (permitted (proxy_of (lookup host proxies) (lookup (codes "default") proxies))) run_opts j w h
