-- ===== src/Service/Resources/Removed.antt =====
-- What `removeGenericResources` of cli/command/service/update.go removes.
use docker_cli.Prelude.{
  ℕ, Bool, true, false, not, ◌≡◌, refl, sym, ◌∙◌, ap, Option, none, some, List, [], ◌∷◌,
  if◌then◌else◌, is_some, ok, guard-eq-ok, bind-eq-ok, arith, then_lem, Bool-cases, inl, inr, ◌⊎◌,
  ok_lem, not_lem,
}
use docker_cli.Text.{Text, eq}
use docker_cli.Text.Laws.{eq_iff}
use docker_cli.Maps.{Map, lookup, has_key, insert, delete, elem}
use docker_cli.Maps.Laws.{lookup-insert, lookup-delete}
use docker_cli.Service.Flags.{ListFlag}
use docker_cli.Service.Resources.{
  GenericResource, discrete, named, neither, not_found, duplicate_resource, build_map,
  build_generic_resource_list, remove_kinds, remove_generic_resources,
}

-- The value of the first discrete resource of a kind.
unfoldable pub amount : Text → List GenericResource → Option ℕ
unfolding eq
amount kind [] = none
amount kind (discrete k value ∷ resources) =
    let later = amount kind resources in if eq k kind then some value else later
amount kind (named k value ∷ resources) = amount kind resources
amount kind (neither ∷ resources) = amount kind resources

amount-build_list :
    (kind : Text) (m : Map ℕ) → amount kind (build_generic_resource_list m) ≡ lookup kind m
unfolding amount lookup
amount-build_list kind [] = refl
amount-build_list kind ((k, v) ∷ m) =
    ap (λ o. if eq k kind then some v else o) (amount-build_list kind m)

none_lem : (o p : Option ℕ) → o ≡ p → o ≡ (if is_some o then o else none)
none_lem none p e = refl
none_lem (some v) p e = refl

insert_lem :
    (b : Bool) (v : ℕ) (o p : Option ℕ)
    → b ≡ false ⊎ (is_some o ≡ false)
    → (if is_some (if b then some v else o) then if b then some v else o else p)
      ≡ (if is_some o then o else if b then some v else p)
insert_lem true v none p h = refl
insert_lem true v (some w) p (inl h) = cc
insert_lem true v (some w) p (inr h) = cc
insert_lem false v o p h = refl

absent_lem :
    (k kind : Text) (m : Map ℕ)
    → not (has_key k m) ≡ true
    → eq k kind ≡ false ⊎ (is_some (lookup kind m) ≡ false)
unfolding has_key
absent_lem k kind m h = elim (Bool-cases (eq k kind)) [
  | inr n ↦ inl n
  | inl y ↦
      let q : k ≡ kind = (eq_iff k kind).0 y in
      inr (ap (λ x. is_some (lookup x m)) (sym q) ∙ not_lem (is_some (lookup k m)) h)
]

lookup-build_map :
    (kind : Text) (resources : List GenericResource) (m m' : Map ℕ)
    → build_map resources m ≡ ok m'
    → lookup kind m' ≡ (if is_some (lookup kind m) then lookup kind m else amount kind resources)
unfolding build_map amount
lookup-build_map kind [] m m' h =
    ap (lookup kind) (sym (ok_lem h)) ∙ none_lem (lookup kind m) (lookup kind m) refl
lookup-build_map kind (discrete k v ∷ resources) m m' h =
    let (fresh, l) = guard-eq-ok (not (has_key k m)) (duplicate_resource k) _ h in
    lookup-build_map kind resources (insert k v m) m' l
    ∙ ap (λ o. if is_some o then o else amount kind resources) (lookup-insert k kind m v)
    ∙ insert_lem (eq k kind) v (lookup kind m) (amount kind resources) (absent_lem k kind m fresh)
lookup-build_map kind (named k v ∷ resources) m m' h = cc
lookup-build_map kind (neither ∷ resources) m m' h = cc

lookup-remove_kinds :
    (kind : Text) (kinds : List Text) (m m' : Map ℕ)
    → remove_kinds kinds m ≡ ok m'
    → (lookup kind m' ≡ (if elem kind kinds then none else lookup kind m))
unfolding remove_kinds elem
lookup-remove_kinds kind [] m m' h = ap (lookup kind) (sym (ok_lem h))
lookup-remove_kinds kind (k ∷ kinds) m m' h =
    let (there, l) = guard-eq-ok (has_key k m) (not_found k) _ h in
    lookup-remove_kinds kind kinds (delete k m) m' l ∙ ground (arith, lookup-delete k kind m)

-- Where `removeGenericResources` succeeds for a changed flag, each kind has behind it the amount that it
-- had before, and none if it was asked to be removed.
pub remove_generic_resources-amount :
    (generic_rm : ListFlag) (resources new : List GenericResource)
    → generic_rm.changed ≡ true
    → remove_generic_resources generic_rm resources ≡ ok new
    → (kind : Text)
    → amount kind new ≡ (if elem kind generic_rm.values then none else amount kind resources)
unfolding remove_generic_resources lookup
remove_generic_resources-amount generic_rm resources new c h kind =
    let h' = then_lem generic_rm.changed _ _ c h in
    let (m, e, k) = bind-eq-ok (build_map resources []) _ h' in
    let (rest, f, l) = bind-eq-ok (remove_kinds generic_rm.values m) _ k in
    ap (amount kind) (sym (ok_lem l))
    ∙ amount-build_list kind rest
    ∙ lookup-remove_kinds kind generic_rm.values m rest f
    ∙ ap (λ o. if elem kind generic_rm.values then none else o)
        (lookup-build_map kind resources [] m e)
