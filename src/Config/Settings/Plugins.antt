-- ===== src/Config/Settings/Plugins.antt =====
-- The settings of plugins in cli/config/configfile/file.go behind a change.
use docker_cli.Prelude.{
  ◌≡◌, ◌≢◌, refl, sym, ◌∙◌, ap, ◌&&◌, none, some, [], ◌∷◌, All, arith, if◌then◌else◌, Bool-cases,
  inl, inr, Option-cases,
}
use docker_cli.Text.{Text, eq}
use docker_cli.Text.Laws.{eq_iff}
use docker_cli.Template.Functions.{is_empty}
use docker_cli.Maps.{Map, lookup, insert, delete}
use docker_cli.Maps.Laws.{lookup-insert, lookup-delete}
use docker_cli.Config.Settings.{
  PluginOptions, options_of, plugin_config, put_options, set_plugin_config,
}

-- Every plugin that is there has an option.
abbrev pub HaveOptions : PluginOptions → Type 0
HaveOptions plugins = All (λ e. e.1 ≢ []) plugins

HaveOptions-insert :
    (k : Text) (entry : Text × Text) (options : Map Text) (plugins : PluginOptions)
    → HaveOptions plugins
    → HaveOptions (insert k (entry ∷ options) plugins)
unfolding insert
HaveOptions-insert k entry options [] h = ((λ e. cc), tt)
HaveOptions-insert k entry options ((j, w) ∷ plugins) (n, h) = elim (Bool-cases (eq j k)) [
  | inl e ↦ rw e ((λ e. cc), h)
  | inr e ↦ rw e (n, HaveOptions-insert k entry options plugins h)
]

HaveOptions-delete :
    (k : Text) (plugins : PluginOptions) → HaveOptions plugins → HaveOptions (delete k plugins)
unfolding delete
HaveOptions-delete k [] h = tt
HaveOptions-delete k ((j, w) ∷ plugins) (n, h) = elim (Bool-cases (eq j k)) [
  | inl e ↦ rw e (HaveOptions-delete k plugins h)
  | inr e ↦ rw e (n, HaveOptions-delete k plugins h)
]

HaveOptions-put_options :
    (k : Text) (options : Map Text) (plugins : PluginOptions)
    → HaveOptions plugins
    → HaveOptions (put_options k options plugins)
HaveOptions-put_options k [] plugins h = HaveOptions-delete k plugins h
HaveOptions-put_options k (entry ∷ options) plugins h = HaveOptions-insert k entry options plugins h

plugin_config_lem :
    (p o : Text) (plugins : PluginOptions)
    → plugin_config p o plugins ≡ lookup o (options_of (lookup p plugins))
unfolding plugin_config lookup
plugin_config_lem p o plugins = elim (Option-cases (lookup p plugins)) [
  | inl e ↦ rw (plugin_config, e) refl
  | inr (options, e) ↦ rw (plugin_config, e) refl
]

options_of-put_options :
    (q p : Text) (options : Map Text) (plugins : PluginOptions)
    → options_of (lookup p (put_options q options plugins))
      ≡ (if eq q p then options else options_of (lookup p plugins))
options_of-put_options q p [] plugins = ap options_of (lookup-delete q p plugins) ∙ ground arith
options_of-put_options q p (entry ∷ options) plugins =
    ap options_of (lookup-insert q p plugins (entry ∷ options)) ∙ ground arith

-- What the change leaves among the options of its plugin.
changed_options :
    (r o value : Text) (options : Map Text)
    → lookup o (if is_empty value then delete r options else insert r value options)
      ≡ (if eq r o then (if is_empty value then none else some value) else lookup o options)
changed_options r o [] options = lookup-delete r o options
changed_options r o (c ∷ value) options = lookup-insert r o options (c ∷ value)

pub plugin_config-set_plugin_config :
    (q r value p o : Text) (plugins : PluginOptions)
    → plugin_config p o (set_plugin_config q r value plugins) ≡ (
        if eq q p && eq r o
        then (if is_empty value then none else some value)
        else plugin_config p o plugins)
unfolding set_plugin_config
plugin_config-set_plugin_config q r value p o plugins =
    let options = options_of (lookup q plugins) in
    let new = if is_empty value then delete r options else insert r value options in
    plugin_config_lem p o (put_options q new plugins)
    ∙ ap (lookup o) (options_of-put_options q p new plugins)
    ∙ elim (Bool-cases (eq q p)) [
      | inl e ↦ rw e (
          changed_options r o value options
          ∙ ap (λ l. if eq r o then (if is_empty value then none else some value) else l)
              (ap (λ t. lookup o (options_of (lookup t plugins))) ((eq_iff q p).0 e)
                ∙ sym (plugin_config_lem p o plugins)))
      | inr e ↦ rw e (sym (plugin_config_lem p o plugins))
    ]

-- Behind SetPluginConfig, PluginConfig finds the value under its plugin and option, or nothing for an
-- empty value, and what it found before elsewhere; and no plugin is left without an option if none was.
pub set_plugin_config-HaveOptions :
    (q r value : Text) (plugins : PluginOptions)
    → HaveOptions plugins
    → ((p o : Text)
        → plugin_config p o (set_plugin_config q r value plugins) ≡ (
            if eq q p && eq r o
            then (if is_empty value then none else some value)
            else plugin_config p o plugins))
      × HaveOptions (set_plugin_config q r value plugins)
unfolding set_plugin_config
set_plugin_config-HaveOptions q r value plugins h = (
  (λ p o. plugin_config-set_plugin_config q r value p o plugins),
  HaveOptions-put_options q _ plugins h,
)
