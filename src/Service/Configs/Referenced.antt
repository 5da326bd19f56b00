-- ===== src/Service/Configs/Referenced.antt =====
-- The config of a credential spec in cli/command/service/update.go: that it is among the configs of
-- the service.
use docker_cli.Prelude.{
  Bool, true, false, not, ◌&&◌, ◌||◌, ◌≡◌, refl, sym, ◌∙◌, ap, Option, none, some, List, [], ◌∷◌,
  ◌++◌, if◌then◌else◌, Result, ok, err, arith, Bool-cases, inl, inr, bind-eq-ok, guard-eq-ok, any,
  then_lem, else_lem, ok_lem,
}
use docker_cli.Text.{Text, eq}
use docker_cli.Text.Laws.{eq_iff, eq_refl}
use docker_cli.Maps.{Map, lookup, has_key, insert, values}
use docker_cli.Maps.Keyed.{Keyed, Keyed-insert}
use docker_cli.Template.Functions.{is_empty}
use docker_cli.Service.Flags.{ListFlag, build_to_remove_set}
use docker_cli.Service.References.{
  Reference, ReferenceError, index_configs, resolve_ref, resolve_refs, found_ids, parse_configs,
  duplicate_target, not_found,
}
use docker_cli.Service.Configs.{
  CredentialSpec, CredentialFlag, ReferenceFlag, runtime_reference, resolve_configs, cred_names,
  config_named, with_config_id, update_cred_spec_config, get_updated_configs, remove_configs,
  credential_of,
}

resolve_ref_lem :
    (ref r : Reference) (o : Option Text)
    → elim o as (λ _. Result ReferenceError Reference) [
      | none ↦ err (not_found ref.name)
      | some id ↦ ok (record ref { id = id })
    ]
      ≡ ok r
    → (r.name ≡ ref.name) × (r.is_runtime ≡ ref.is_runtime)
resolve_ref_lem ref r none h = cc
resolve_ref_lem ref r (some id) h =
    let e = ok_lem h in
    (ap (λ (x : Reference). x.name) (sym e), ap (λ (x : Reference). x.is_runtime) (sym e))

or_lem : {d : Bool} → (a b c : Bool) → d ≡ true → (b || (a || c)) ≡ (((a && d) || b) || c)
or_lem {d} a b c e = ground arith

skip_lem : {d : Bool} → (a b c : Bool) → d ≡ false → (b || c) ≡ (((a && d) || b) || c)
skip_lem {d} a b c e = ground arith

or_true : (a : Bool) → (a || true) ≡ true
or_true true = refl
or_true false = refl

last_lem : (a b : Bool) → b ≡ true → (a || ((b && true) || false)) ≡ true
last_lem a b e = ground arith

later_lem : {a c : Bool} → (b : Bool) → a ≡ false → ((a && b) || c) ≡ true → c ≡ true
later_lem {a} {c} b e h = ground arith

module _ (name : Text) where
  -- A runtime reference to the config of this name.
  abbrev pub refers : Reference → Bool
  refers r = eq r.name name && r.is_runtime

  any-append : (xs ys : List Reference) → any refers (xs ++ ys) ≡ (any refers xs || any refers ys)
  any-append [] ys = refl
  any-append (x ∷ xs) ys = ground (arith, any-append xs ys)

  any-insert :
      (x : Reference) (m : Map Reference)
      → x.is_runtime ≡ true
      → Keyed (λ r. r.name) m
      → any refers (values (insert x.name x m)) ≡ (eq x.name name || any refers (values m))
  unfolding insert
  any-insert x [] e h = ground arith
  any-insert x ((k, v) ∷ m) e (q, h) =
      ground (arith, any-insert x m e h, eq_iff k x.name, eq_iff v.name name, eq_iff x.name name)

  any-index_configs :
      (reqs : List Reference) (files runtimes files' runtimes' : Map Reference)
      → Keyed (λ r. r.name) runtimes
      → index_configs reqs files runtimes ≡ ok (files', runtimes')
      → any refers (values runtimes') ≡ (any refers reqs || any refers (values runtimes))
  unfolding index_configs
  any-index_configs [] files runtimes files' runtimes' k h =
      ap (λ p. any refers (values (p.1))) (sym (ok_lem h))
  any-index_configs (x ∷ reqs) files runtimes files' runtimes' k h =
      elim (Bool-cases x.is_runtime) [
        | inl y ↦
            let h' = then_lem x.is_runtime _ _ y h in
            any-index_configs reqs files (insert x.name x runtimes) files' runtimes'
              (Keyed-insert (λ r. r.name) x runtimes k) h'
            ∙ ap (λ b. any refers reqs || b) (any-insert x runtimes y k)
            ∙ or_lem (eq x.name name) (any refers reqs) (any refers (values runtimes)) y
        | inr n ↦
            let (fresh, h') =
              guard-eq-ok (not (has_key x.file files)) (duplicate_target x.name) _
                (else_lem x.is_runtime _ _ n h) in
            any-index_configs reqs (insert x.file x files) runtimes files' runtimes' k h'
            ∙ skip_lem (eq x.name name) (any refers reqs) (any refers (values runtimes)) n
      ]

  any-resolve_refs :
      (found : Map Text) (refs out : List Reference)
      → resolve_refs found refs ≡ ok out
      → any refers out ≡ any refers refs
  unfolding resolve_refs
  any-resolve_refs found [] out h = ap (any refers) (sym (ok_lem h))
  any-resolve_refs found (r ∷ refs) out h =
      let (first, e, k) = bind-eq-ok (resolve_ref found r) _ h in
      let (rest, f, l) = bind-eq-ok (resolve_refs found refs) _ k in
      ap (any refers) (sym (ok_lem l))
      ∙ (let (q, w) = resolve_ref_lem r first (lookup r.name found) e in
          rw (q, w, any-resolve_refs found refs rest f))

  pub any-parse_configs :
      (list_by_names : List Text → Option (List (Text × Text))) (reqs added : List Reference)
      → any refers reqs ≡ true
      → parse_configs list_by_names reqs ≡ ok added
      → any refers added ≡ true
  unfolding parse_configs
  any-parse_configs list_by_names [] added e h = ground arith
  any-parse_configs list_by_names (req ∷ reqs) added e h =
      let (refs, f, k) = bind-eq-ok (index_configs (req ∷ reqs) [] []) _ h in
      let (found, g, l) = bind-eq-ok (found_ids (list_by_names _)) _ k in
      let (files, i, m) = bind-eq-ok (resolve_refs found (values (refs.0))) _ l in
      let (runtimes, j, n) = bind-eq-ok (resolve_refs found (values (refs.1))) _ m in
      ap (any refers) (sym (ok_lem n))
      ∙ any-append files runtimes
      ∙ ap (λ b. any refers files || b)
          (any-resolve_refs found (values (refs.1)) runtimes j
            ∙ any-index_configs (req ∷ reqs) [] [] (refs.0) (refs.1) tt f
            ∙ ap (λ b. b || false) e)
      ∙ or_true (any refers files)

  pub any-resolve_configs :
      (config_add : ReferenceFlag)
      → is_empty name ≡ false
      → any refers (resolve_configs config_add name) ≡ true
  any-resolve_configs config_add e =
      let added = if config_add.changed then config_add.references else [] in
      rw e (
        any-append added (runtime_reference name ∷ [])
        ∙ last_lem (any refers added) (eq name name) (eq_refl name))

  config_named-any :
      (configs : List Reference)
      → any refers configs ≡ true
      → (c : Reference) × (config_named name configs ≡ some c)
  unfolding config_named
  config_named-any [] h = ground arith
  config_named-any (c ∷ configs) h = elim (Bool-cases (eq c.name name)) [
    | inl y ↦ (c, rw y refl)
    | inr n ↦ rw n (config_named-any configs (later_lem c.is_runtime n h))
  ]

branch_lem :
    {c : Reference}
    → (spec : CredentialSpec) (b : Bool) (o : Option Reference) → b ≡ false
    → o ≡ some c
    → (if b then spec else elim o as (λ _. CredentialSpec) [
      | none ↦ spec
      | some config ↦ record spec { config = config.id }
    ])
      ≡ record spec { config = c.id }
branch_lem spec true o e f = cc
branch_lem spec false none e f = cc
branch_lem spec false (some d) e f =
    ap (λ o. elim o [ none ↦ spec | some x ↦ record spec { config = x.id } ]) f

pub first_lem : {A B : Type 0} → (b : Bool) (p q : A × B) → b ≡ true → (if b then p else q).0 ≡ p.0
first_lem true p q e = refl
first_lem false p q e = cc

set_lem :
    {s : CredentialSpec}
    → (a b : Bool) (privileges o : Option (Option CredentialSpec)) (t : CredentialSpec) → a ≡ true
    → b ≡ false
    → t ≡ s
    → (if a then if b then o else some (some t) else privileges) ≡ some (some s)
set_lem true true privileges o t e f g = cc
set_lem true false privileges o t e f g = ap (λ x. some (some x)) g
set_lem false b privileges o t e f g = cc

with_config_id_lem :
    (configs : List Reference) (spec : CredentialSpec) (c : Reference)
    → is_empty spec.config ≡ false
    → config_named spec.config configs ≡ some c
    → with_config_id configs spec ≡ record spec { config = c.id }
with_config_id_lem configs spec c e f =
    branch_lem spec (is_empty spec.config) (config_named spec.config configs) e f

-- Where a credential spec for a config is given and `getUpdatedConfigs` succeeds, the configs behind
-- it have a runtime reference to the config of that name, and `updateCredSpecConfig` then puts the
-- identifier of the first config of that name in the place of the name.
pub get_updated_configs-Referenced :
    (list_by_names : List Text → Option (List (Text × Text))) (config_rm : ListFlag)
    (config_add : ReferenceFlag) (flag : CredentialFlag)
    (privileges : Option (Option CredentialSpec)) (configs new : List Reference)
    → flag.changed ≡ true
    → is_empty flag.source ≡ false
    → is_empty flag.spec.config ≡ false
    → get_updated_configs list_by_names config_rm config_add flag privileges configs ≡ ok new
    → (any (refers flag.spec.config) new ≡ true)
      × (c : Reference) × (config_named flag.spec.config new ≡ some c)
      × (update_cred_spec_config flag new privileges
          ≡ some (some (record (flag.spec) { config = c.id })))
unfolding get_updated_configs update_cred_spec_config
get_updated_configs-Referenced list_by_names config_rm config_add flag privileges configs new a b c
      h =
    let name = flag.spec.config in
    let names = cred_names flag (credential_of privileges) in
    let q : names.0 ≡ name = first_lem flag.changed _ _ a in
    let (added, e, k) =
      bind-eq-ok (parse_configs list_by_names (resolve_configs config_add (names.0))) _ h in
    let kept = remove_configs (build_to_remove_set config_rm) (names.0) (names.1) configs in
    let r : any (refers name) (resolve_configs config_add (names.0)) ≡ true =
      ap (λ n. any (refers name) (resolve_configs config_add n)) q
      ∙ any-resolve_configs name config_add c in
    let u : any (refers name) new ≡ true =
      ap (any (refers name)) (sym (ok_lem k))
      ∙ any-append name kept added
      ∙ ap (λ x. any (refers name) kept || x) (any-parse_configs name list_by_names _ added r e)
      ∙ or_true (any (refers name) kept) in
    let (config, v) = config_named-any name new u in
    (
      u,
      config,
      v,
      set_lem flag.changed (is_empty flag.source) privileges _ (with_config_id new flag.spec) a b
          (with_config_id_lem new flag.spec config c v),
    )
