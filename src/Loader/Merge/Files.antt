-- ===== src/Loader/Merge/Files.antt =====
-- Merging all files, and one logging configuration: cli/compose/loader/merge.go.
use docker_cli.Prelude.{
  ◌≡◌, refl, sym, subst, ap, ◌∙◌, then_lem, true, ◌||◌, Option, none, List, [], ◌∷◌, Result, ok,
  err, ◌>>=◌, ok_lem, bind-eq-ok,
}
use docker_cli.Text.{Text, codes, eq}
use docker_cli.Maps.Keyed.{find_last}
use docker_cli.Loader.Merge.Named.{merged_for, MergedOrError, merge_services-MergedOrError}
use docker_cli.Template.Functions.{is_empty}
use docker_cli.Maps.{Map}
use docker_cli.Loader.Merge.{
  MergeError, Config, wrap_from, merge_section, merge_file, merge, merge_services, LoggingConfig,
  merge_logging_config, in_place,
}

-- Where the drivers agree or one is missing, and the base has no options, the options of the override
-- are lost: the result has none.
pub merge_logging_config-none {κ} :
    {E : Type κ} (merge_options : Option (Map Text) → Option (Map Text) → Result E (Map Text))
    → (dst src merged : LoggingConfig)
    → (eq dst.driver src.driver || is_empty dst.driver || is_empty src.driver) ≡ true
    → dst.options ≡ none
    → merge_logging_config merge_options dst src ≡ ok merged
    → merged.options ≡ none
unfolding merge_logging_config
merge_logging_config-none merge_options dst src merged t n h =
    let (m, _, e) = bind-eq-ok (merge_options dst.options src.options) _ (
      then_lem (eq dst.driver src.driver || is_empty dst.driver || is_empty src.driver) _ (ok src) t
        h) in
    ap (λ c. c.options) (sym (ok_lem e)) ∙ ap (λ o. in_place o m) n

wrap_inv {ℓ κ} :
    {E : Type ℓ} {A : Type κ} (section from : Text) (r : Result (MergeError E) A) {a : A}
    → wrap_from section from r ≡ ok a
    → r ≡ ok a
wrap_inv section from (ok a) h = h
wrap_inv section from (err e) h = cc

-- The sections behind the services leave the services as they are.
sections_lem {ℓ} :
    {E : Type ℓ} {A V N S C : Type 0} (v : Result E (Map V)) (n : Result E (Map N))
    → (s : Result E (Map S)) (c : Result E (Map C))
    → (f : Map V → Map N → Map S → Map C → Config A V N S C) (services : List A)
    → {d : Config A V N S C}
    → ((v' : Map V) (n' : Map N) (s' : Map S) (c' : Map C) → services ≡ (f v' n' s' c').services)
    → (v >>= λ v'. n >>= λ n'. s >>= λ s'. c >>= λ c'. ok (f v' n' s' c')) ≡ ok d
    → services ≡ d.services
sections_lem (ok v) (ok n) (ok s) (ok c) f services e h =
    e v n s c ∙ ap (λ d. d.services) (ok_lem h)
sections_lem (err x) n s c f services e h = cc
sections_lem (ok v) (err x) s c f services e h = cc
sections_lem (ok v) (ok n) (err x) c f services e h = cc
sections_lem (ok v) (ok n) (ok s) (err x) f services e h = cc

module _ {ℓ} {E : Type ℓ} {A V N S C : Type 0} (name : A → Text)
    (merge_service : A → A → Result E A)
    (merge_map : (T : Type 0) → Map T → Map T → Result E (Map T))
    (keeps : (b o c : A) → name b ≡ name o → merge_service b o ≡ ok c → name c ≡ name o) where
  merge_file-services :
      (base override c : Config A V N S C)
      → merge_file name merge_service merge_map base override ≡ ok c
      → merge_services name merge_service base.services override.services ≡ ok c.services
  merge_file-services base override c h =
      let from = override.filename in
      let (services, e, r) =
        bind-eq-ok
          (wrap_from (codes "services") from
            (merge_services name merge_service base.services override.services))
          _ h in
      wrap_inv (codes "services") from _ e
      ∙ ap ok (
          sections_lem
            (wrap_from (codes "volumes") from
              (merge_section (merge_map V base.volumes override.volumes)))
            (wrap_from (codes "networks") from
              (merge_section (merge_map N base.networks override.networks)))
            (wrap_from (codes "secrets") from
              (merge_section (merge_map S base.secrets override.secrets)))
            (wrap_from (codes "configs") from
              (merge_section (merge_map C base.configs override.configs)))
            (λ volumes networks secrets configs. record base {
              services = services;
              volumes = volumes;
              networks = networks;
              secrets = secrets;
              configs = configs;
            })
            services (λ v n s c. refl) r)

  -- The service under a name behind all files in their order.
  abbrev pub merged_across :
      Text → Option A → List (Config A V N S C) → Result (MergeError E) (Option A)
  merged_across k b [] = ok b
  merged_across k b (override ∷ overrides) =
      merged_for name merge_service keeps k b (find_last name k override.services) >>= λ s.
      merged_across k s overrides

  -- Where `merge` succeeds, the service under each name is merged over the files in their order.
  pub merge-merged_across :
      (base c : Config A V N S C) (overrides : List (Config A V N S C)) (k : Text)
      → merge name merge_service merge_map base overrides ≡ ok c
      → ok (find_last name k c.services)
        ≡ merged_across k (find_last name k base.services) overrides
  unfolding merge
  merge-merged_across base c [] k h = ap (λ d. ok (find_last name k d.services)) (sym (ok_lem h))
  merge-merged_across base c (override ∷ overrides) k h =
      let (m, e, r) = bind-eq-ok (merge_file name merge_service merge_map base override) _ h in
      let step =
        subst (MergedOrError name merge_service keeps base.services override.services)
          (merge_file-services base override m e)
          (merge_services-MergedOrError name merge_service keeps base.services override.services) in
      merge-merged_across m c overrides k r
      ∙ ap (λ s. s >>= λ t. merged_across k t overrides) (step.1 k)
