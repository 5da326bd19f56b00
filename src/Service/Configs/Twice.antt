-- ===== src/Service/Configs/Twice.antt =====
-- The config of a credential spec that a service has already, in cli/command/service/update.go.
use docker_cli.Prelude.{
  Bool, true, false, ◌&&◌, ◌||◌, ◌≡◌, refl, sym, ◌∙◌, ap, Option, List, [], ◌∷◌, ◌++◌,
  if◌then◌else◌, ok, arith, bind-eq-ok, any, ok_lem,
}
use docker_cli.Text.{Text, eq}
use docker_cli.Maps.{elem}
use docker_cli.Template.Functions.{is_empty}
use docker_cli.Service.Flags.{ListFlag, build_to_remove_set}
use docker_cli.Service.References.{Reference, parse_configs}
use docker_cli.Service.Configs.{
  CredentialSpec, CredentialFlag, ReferenceFlag, resolve_configs, cred_names, get_updated_configs,
  remove_configs, credential_of,
}
use docker_cli.Service.Configs.Referenced.{
  refers, first_lem, any-parse_configs, any-resolve_configs,
}

keep_lem :
    (e f t a b : Bool) (r x : List Reference) (p : List Reference → Bool)
    → p r ≡ b
    → p x ≡ ((e && t) || p r)
    → p (if t then if e || f then x else r else if a then r else x) ≡ ((e && t) || b)
keep_lem e f t a b r x p h k = ground arith

any-remove_configs :
    (name id : Text) (to_remove : List Text) (configs : List Reference)
    → any (refers name) (remove_configs to_remove name id configs) ≡ any (refers name) configs
unfolding remove_configs
any-remove_configs name id to_remove [] = refl
any-remove_configs name id to_remove (c ∷ configs) =
    keep_lem (eq c.name name) (eq c.id id) c.is_runtime (elem c.name to_remove)
      (any (refers name) configs) (remove_configs to_remove name id configs)
      (c ∷ remove_configs to_remove name id configs) (any (refers name))
      (any-remove_configs name id to_remove configs) refl

-- Where a credential spec is given for a config to which the service has a runtime reference, and
-- `getUpdatedConfigs` succeeds, the configs behind it are some that were kept, with a runtime
-- reference to the config, and some that were added, with another.
pub get_updated_configs-twice :
    (list_by_names : List Text → Option (List (Text × Text))) (config_rm : ListFlag)
    (config_add : ReferenceFlag) (flag : CredentialFlag)
    (privileges : Option (Option CredentialSpec)) (configs new : List Reference)
    → flag.changed ≡ true
    → is_empty flag.spec.config ≡ false
    → any (refers flag.spec.config) configs ≡ true
    → get_updated_configs list_by_names config_rm config_add flag privileges configs ≡ ok new
    → (kept added : List Reference) × (new ≡ kept ++ added)
      × (any (refers flag.spec.config) kept ≡ true)
      × (any (refers flag.spec.config) added ≡ true)
unfolding get_updated_configs
get_updated_configs-twice list_by_names config_rm config_add flag privileges configs new a c d h =
    let name = flag.spec.config in
    let names = cred_names flag (credential_of privileges) in
    let q : names.0 ≡ name = first_lem flag.changed _ _ a in
    let (added, e, k) =
      bind-eq-ok (parse_configs list_by_names (resolve_configs config_add (names.0))) _ h in
    let kept = remove_configs (build_to_remove_set config_rm) (names.0) (names.1) configs in
    let r : any (refers name) (resolve_configs config_add (names.0)) ≡ true =
      ap (λ n. any (refers name) (resolve_configs config_add n)) q
      ∙ any-resolve_configs name config_add c in
    (
      kept,
      added,
      sym (ok_lem k),
      ap
            (λ n.
              any (refers name)
                (remove_configs (build_to_remove_set config_rm) n (names.1) configs))
            q
          ∙ any-remove_configs name (names.1) (build_to_remove_set config_rm) configs
          ∙ d,
      any-parse_configs name list_by_names _ added r e,
    )
