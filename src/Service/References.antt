-- ===== src/Service/References.antt =====
-- cli/command/service/parse.go: the references of a service to secrets and configs.
use docker_cli.Prelude.{
  Bool, not, Option, none, some, List, [], ◌∷◌, ◌++◌, if◌then◌else◌, Result, ok, err, ◌>>=◌, ◌>>◌,
  guard, map,
}
use docker_cli.Text.{Text}
use docker_cli.Maps.{Map, lookup, has_key, insert, insert_all, values}

-- `swarmtypes.SecretReference` and `swarmtypes.ConfigReference`, of the engine's API: the fields that
-- are read. A reference to a secret is to a file; one to a config has a runtime target, or a file.
pub record Reference : Type 0 where
  pub name : Text
  pub id : Text
  pub file : Text
  pub is_runtime : Bool

pub data ReferenceError : Type 0 where
  duplicate_target : Text → ReferenceError
  request_failed : ReferenceError
  not_found : Text → ReferenceError

-- The loop over the requested secrets, over the map so far.
unfoldable pub index_secrets :
    List Reference → Map Reference → Result ReferenceError (Map Reference)
unfolding has_key insert
index_secrets [] refs = ok refs
index_secrets (secret ∷ secrets) refs =
    guard (not (has_key secret.file refs)) (duplicate_target secret.name)
    >> index_secrets secrets (insert secret.file secret refs)

-- The loop over the requested configs, over the maps so far.
unfoldable pub index_configs :
    List Reference
    → Map Reference
    → Map Reference
    → Result ReferenceError (Map Reference × Map Reference)
unfolding has_key insert
index_configs [] config_refs runtime_refs = ok (config_refs, runtime_refs)
index_configs (config ∷ configs) config_refs runtime_refs =
    let with_runtime = index_configs configs config_refs (insert config.name config runtime_refs) in
    let with_file = index_configs configs (insert config.file config config_refs) runtime_refs in
    if config.is_runtime
    then with_runtime
    else (guard (not (has_key config.file config_refs)) (duplicate_target config.name) >> with_file)

-- One reference with the identifier that was found for its name.
abbrev pub resolve_ref : Map Text → Reference → Result ReferenceError Reference
resolve_ref found ref = elim (lookup ref.name found) [
  | none ↦ err (not_found ref.name)
  | some id ↦ ok (record ref { id = id })
]

-- The loops that fill in the identifiers.
unfoldable pub resolve_refs : Map Text → List Reference → Result ReferenceError (List Reference)
unfolding lookup
resolve_refs found [] = ok []
resolve_refs found (ref ∷ refs) = do
  first ← resolve_ref found ref
  rest ← resolve_refs found refs
  ok (first ∷ rest)

-- What the engine lists, as a map from names to identifiers; a later entry of a name wins.
abbrev pub found_ids : Option (List (Text × Text)) → Result ReferenceError (Map Text)
found_ids none = err request_failed
found_ids (some entries) = ok (insert_all entries [])

-- The request to the engine is a parameter: the names and identifiers of those that match one of the
-- names, or none for an error.
module _ (list_by_names : List Text → Option (List (Text × Text))) where
  -- `ParseSecrets`
  unfoldable pub parse_secrets : List Reference → Result ReferenceError (List Reference)
  unfolding index_secrets resolve_refs insert_all
  parse_secrets [] = ok []
  parse_secrets (secret ∷ secrets) = do
    refs ← index_secrets (secret ∷ secrets) []
    found ← found_ids (list_by_names (map (λ r. r.name) (values refs)))
    resolve_refs found (values refs)

  -- `ParseConfigs`
  unfoldable pub parse_configs : List Reference → Result ReferenceError (List Reference)
  unfolding index_configs resolve_refs insert_all
  parse_configs [] = ok []
  parse_configs (config ∷ configs) = do
    refs ← index_configs (config ∷ configs) [] []
    found ←
        found_ids (
          list_by_names
            (map (λ r. r.name) (values (refs.0)) ++ map (λ r. r.name) (values (refs.1))))
    files ← resolve_refs found (values (refs.0))
    runtimes ← resolve_refs found (values (refs.1))
    ok (files ++ runtimes)
