-- ===== src/Service/Ports/Updated.antt =====
-- Which ports `updatePorts` of cli/command/service/update.go leaves.
use docker_cli.Prelude.{
  ℕ, ◌≡◌, refl, ap, ◌∙◌, Bool, true, false, not, ◌&&◌, ◌||◌, some, List, [], ◌∷◌, ◌++◌, any, arith,
  if◌then◌else◌, is_some,
}
use docker_cli.Text.{Text, eq}
use docker_cli.Text.Laws.{eq_iff}
use docker_cli.Maps.{Map, lookup, has_key, values}
use docker_cli.Maps.Index.{
  find_first, put_absent, at_key, holds, lookup-put_absent, Distinct-put_absent, Keyed-put_absent,
  any-values,
}
use docker_cli.Sort.Laws.{text_le_total}
use docker_cli.Sort.Orders.{any-sort_with, Ordered, sort_with-Ordered}
use docker_cli.Service.Ports.{
  PortConfig, PortFlag, is_removed_by, clean_ports, port_config_to_string, fresh_ports, port_le,
  update_ports,
}

any-append {ℓ} :
    {A : Type ℓ} (p : A → Bool) (xs ys : List A) → any p (xs ++ ys) ≡ (any p xs || any p ys)
any-append p [] ys = refl
any-append p (x ∷ xs) ys = ground (arith, any-append p xs ys)

any-clean_ports :
    (p : PortConfig → Bool) (rm ports : List PortConfig)
    → any p (clean_ports rm ports) ≡ any (λ x. p x && not (any (is_removed_by x) rm)) ports
unfolding clean_ports
any-clean_ports p rm [] = refl
any-clean_ports p rm (x ∷ ports) = ground (arith, any-clean_ports p rm ports)

any-and {ℓ} :
    {A : Type ℓ} (p q r : A → Bool) (xs : List A)
    → any (λ x. (p x && q x) && r x) xs ≡ any (λ x. p x && (q x && r x)) xs
any-and p q r [] = refl
any-and p q r (x ∷ xs) = ground (arith, any-and p q r xs)

module _ (show : ℕ → Text) where
  abbrev key : PortConfig → Text
  key = port_config_to_string show

  any-fresh_ports :
      (k : Text) (p : PortConfig → Bool) (m : Map PortConfig) (ports : List PortConfig)
      → any (at_key key k p) (fresh_ports show m ports)
        ≡ (not (is_some (lookup k m)) && any (at_key key k p) ports)
  unfolding fresh_ports has_key
  any-fresh_ports k p m [] = ground arith
  any-fresh_ports k p m (x ∷ ports) = ground (arith, any-fresh_ports k p m ports, eq_iff (key x) k)

  any-kept :
      (k : Text) (p : PortConfig → Bool) (rm ports : List PortConfig)
      → any (at_key key k p) (clean_ports rm (values (put_absent key ports [])))
        ≡ holds key (λ x. p x && not (any (is_removed_by x) rm)) (find_first key k ports)
  any-kept k p rm ports =
      let m = put_absent key ports [] in
      any-clean_ports (at_key key k p) rm (values m)
      ∙ any-and (λ x. eq (key x) k) p (λ x. not (any (is_removed_by x) rm)) (values m)
      ∙ any-values key k (λ x. p x && not (any (is_removed_by x) rm)) m
          (Distinct-put_absent key ports [] tt) (Keyed-put_absent key ports [] tt)
      ∙ ap (holds key (λ x. p x && not (any (is_removed_by x) rm)))
          (lookup-put_absent key k ports [] ∙ unfold lookup in refl)

  any-added :
      (k : Text) (p : PortConfig → Bool) (add : PortFlag) (ports : List PortConfig)
      → any
          (at_key key k p)
          (if add.changed then fresh_ports show (put_absent key ports []) add.values else [])
        ≡ (add.changed && not (is_some (find_first key k ports)) && any (at_key key k p) add.values)
  any-added k p add ports =
      unfold lookup in
      ground (
        arith,
        any-fresh_ports k p (put_absent key ports []) add.values,
        lookup-put_absent key k ports [],
      )

  port_le_total : (x y : PortConfig) → port_le show x y ≡ false → port_le show y x ≡ true
  port_le_total x y h = text_le_total (key x) (key y) h

  -- What the new list holds.
  abbrev pub IsPublished : PortFlag → List PortConfig → List PortConfig → List PortConfig → Type 0
  IsPublished add rm ports out =
      Ordered (port_le show) out
      × ((k : Text) (p : PortConfig → Bool)
          → any (at_key key k p) out ≡ (
              holds key (λ x. p x && not (any (is_removed_by x) rm)) (find_first key k ports)
              || (add.changed
                  && not (is_some (find_first key k ports))
                  && any (at_key key k p) add.values)))

  -- Under each key, a port is left if it is the first that was there and no flag removes it, or if
  -- none was there and it is added. The result is ordered by the keys.
  pub update_ports-IsPublished :
      (add : PortFlag) (rm ports : List PortConfig)
      → IsPublished add rm ports (update_ports show add rm ports)
  unfolding update_ports
  update_ports-IsPublished add rm ports =
      let m = put_absent key ports [] in
      let kept = clean_ports rm (values m) in
      let fresh = if add.changed then fresh_ports show m add.values else [] in
      (
        sort_with-Ordered (port_le show) port_le_total (kept ++ fresh),
        λ k p.
            any-sort_with (port_le show) (at_key key k p) (kept ++ fresh)
            ∙ any-append (at_key key k p) kept fresh
            ∙ rw (any-kept k p rm ports) (
                ap
                  (λ b.
                    holds key (λ x. p x && not (any (is_removed_by x) rm)) (find_first key k ports)
                    || b)
                  (any-added k p add ports)),
      )

  -- A removed port is gone even where the same update adds a port with its key.
  pub update_ports-lost :
      (add : PortFlag) (rm ports : List PortConfig) (x : PortConfig) (p : PortConfig → Bool)
      → find_first key (key x) ports ≡ some x
      → any (is_removed_by x) rm ≡ true
      → any (at_key key (key x) p) (update_ports show add rm ports) ≡ false
  update_ports-lost add rm ports x p f r =
      (update_ports-IsPublished add rm ports).1 (key x) p ∙ rw (f, r) (ground arith)
