-- ===== src/Context/Export/Collect.antt =====
-- The files that `importEndpointTLS` of cli/context/store/store.go adds one by one, as they stand in a
-- map that was walked in its order.
use docker_cli.Prelude.{
  ◌≡◌, ◌≢◌, refl, sym, subst, ◌∙◌, ap, false, none, some, [], ◌∷◌, ◌++◌, arith, append_assoc,
  append-nil, is_some,
}
use docker_cli.Text.{Text, eq}
use docker_cli.Text.Laws.{eq_iff, eq_refl}
use docker_cli.Maps.{Map, lookup, insert}
use docker_cli.Maps.Laws.{Distinct}
use docker_cli.Context.Import.{TlsData, files_of}

module _ {ℓ} {V : Type ℓ} where
  -- A key that does not occur is put at the end.
  insert-absent :
      (k : Text) (v : V) (m : Map V) → lookup k m ≡ none → insert k v m ≡ m ++ (k, v) ∷ []
  unfolding insert lookup
  insert-absent k v [] h = refl
  insert-absent k v ((j, w) ∷ m) h = ground (arith, insert-absent k v m)

  insert-last :
      (k : Text) (v w : V) (m : Map V)
      → lookup k m ≡ none
      → insert k v (m ++ (k, w) ∷ []) ≡ m ++ (k, v) ∷ []
  unfolding insert lookup
  insert-last k v w [] h = rw (eq_refl k) refl
  insert-last k v w ((j, u) ∷ m) h = ground (arith, insert-last k v w m)

  lookup-last :
      (k : Text) (w : V) (m : Map V) → lookup k m ≡ none → lookup k (m ++ (k, w) ∷ []) ≡ some w
  unfolding lookup
  lookup-last k w [] h = rw (eq_refl k) refl
  lookup-last k w ((j, u) ∷ m) h = ground (arith, lookup-last k w m)

  other_key :
      (j k : Text) (v : V) (m more : Map V)
      → is_some (lookup j (m ++ (k, v) ∷ more)) ≡ false
      → eq j k ≡ false
  unfolding lookup
  other_key j k v [] more h = ground (arith, eq_iff k j, eq_iff j k)
  other_key j k v ((i, w) ∷ m) more h = ground (arith, other_key j k v m more)

  -- A key is not among those in front of it.
  pub absent_key :
      (k : Text) (v : V) (m more : Map V) → Distinct (m ++ (k, v) ∷ more) → lookup k m ≡ none
  unfolding lookup
  absent_key k v [] more h = refl
  absent_key k v ((j, w) ∷ m) more (n, h) = rw (other_key j k v m more n) (absent_key k v m more h)

-- `importEndpointTLS` for the files of one endpoint.
abbrev pub add_files : Text → Map Text → TlsData → TlsData
add_files ep [] tls = tls
add_files ep ((f, content) ∷ fs) tls =
    add_files ep fs (insert ep (insert f content (files_of (lookup ep tls))) tls)

add_more :
    (ep : Text) (fs gs : Map Text) (tls : TlsData)
    → lookup ep tls ≡ none
    → Distinct (gs ++ fs)
    → add_files ep fs (tls ++ (ep, gs) ∷ []) ≡ tls ++ (ep, gs ++ fs) ∷ []
add_more ep [] gs tls h d = ap (λ l. tls ++ (ep, l) ∷ []) (sym (append-nil gs))
add_more ep ((f, content) ∷ fs) gs tls h d =
    let moved = append_assoc gs ((f, content) ∷ []) fs in
    ap (λ o. add_files ep fs (insert ep (insert f content (files_of o)) (tls ++ (ep, gs) ∷ [])))
      (lookup-last ep gs tls h)
    ∙ ap (λ l. add_files ep fs (insert ep l (tls ++ (ep, gs) ∷ [])))
        (insert-absent f content gs (absent_key f content gs fs d))
    ∙ ap (add_files ep fs) (insert-last ep (gs ++ (f, content) ∷ []) gs tls h)
    ∙ add_more ep fs (gs ++ (f, content) ∷ []) tls h (subst Distinct (sym moved) d)
    ∙ ap (λ l. tls ++ (ep, l) ∷ []) moved

-- The files of an endpoint that was not there are added in their order.
pub add_files-append :
    (ep : Text) (fs : Map Text) (tls : TlsData)
    → lookup ep tls ≡ none
    → fs ≢ []
    → Distinct fs
    → add_files ep fs tls ≡ tls ++ (ep, fs) ∷ []
unfolding insert
add_files-append ep [] tls h n d = absurd (n refl)
add_files-append ep ((f, content) ∷ fs) tls h n d =
    ap (λ o. add_files ep fs (insert ep (insert f content (files_of o)) tls)) h
    ∙ ap (add_files ep fs) (insert-absent ep ((f, content) ∷ []) tls h)
    ∙ add_more ep fs ((f, content) ∷ []) tls h d
