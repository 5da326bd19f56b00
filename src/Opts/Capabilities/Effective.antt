-- ===== src/Opts/Capabilities/Effective.antt =====
-- Which capabilities `EffectiveCapAddCapDrop` of opts/capabilities.go adds and drops.
use docker_cli.Prelude.{
  ℕ, ◌≡◌, refl, ◌∙◌, Bool, not, ◌&&◌, ◌||◌, List, [], ◌∷◌, map, arith, if◌then◌else◌,
}
use docker_cli.Text.{Text, eq}
use docker_cli.Text.Laws.{eq_iff}
use docker_cli.Maps.{elem}
use docker_cli.Sort.Laws.{elem-sort_strings, IsSorted, sort_strings-IsSorted}
use docker_cli.Sort.Unique.{
  Unique, sort_strings-Unique, add_member, elem-add_member, Unique-add_member,
}
use docker_cli.Opts.Capabilities.{
  all_capabilities, reset_capabilities, effective_drop, effective_add, normalize_capability,
  capabilities_onto, capabilities_map, or_all, effective_cap_add_cap_drop,
}

elem-effective_drop :
    (c : Text) (add drop : List Text)
    → elem c (effective_drop add drop)
      ≡ (elem c drop && not (elem c add) && not (eq c reset_capabilities))
unfolding effective_drop elem
elem-effective_drop c add [] = refl
elem-effective_drop c add (x ∷ drop) = ground (arith, elem-effective_drop c add drop, eq_iff x c)

elem-effective_add :
    (c : Text) (add : List Text)
    → elem c (effective_add add) ≡ (elem c add && not (eq c reset_capabilities))
unfolding effective_add elem
elem-effective_add c [] = refl
elem-effective_add c (x ∷ add) = ground (arith, elem-effective_add c add, eq_iff x c)

Unique-effective_drop : (add drop : List Text) → Unique drop → Unique (effective_drop add drop)
unfolding effective_drop
Unique-effective_drop add [] h = tt
Unique-effective_drop add (x ∷ drop) (n, h) =
    ground (arith, Unique-effective_drop add drop h, elem-effective_drop x add drop)

Unique-effective_add : (add : List Text) → Unique add → Unique (effective_add add)
unfolding effective_add
Unique-effective_add [] h = tt
Unique-effective_add (x ∷ add) (n, h) =
    ground (arith, Unique-effective_add add h, elem-effective_add x add)

-- What a list of capabilities stands for: its normal forms, or `ALL` alone.
abbrev pub collapse : (Text → Bool) → Text → Bool
collapse p c = if p all_capabilities then eq all_capabilities c else p c

module _ (fold : ℕ → ℕ) where
  elem-capabilities_onto :
      (c : Text) (caps m : List Text)
      → elem c (capabilities_onto fold caps m)
        ≡ (elem c (map (normalize_capability fold) caps) || elem c m)
  unfolding capabilities_onto elem
  elem-capabilities_onto c [] m = refl
  elem-capabilities_onto c (x ∷ caps) m =
      let y = normalize_capability fold x in
      ground (arith, elem-capabilities_onto c caps (add_member y m), elem-add_member c y m)

  pub elem-capabilities_map :
      (c : Text) (caps : List Text)
      → elem c (capabilities_map fold caps) ≡ elem c (map (normalize_capability fold) caps)
  unfolding capabilities_map elem
  elem-capabilities_map c caps = ground (arith, elem-capabilities_onto c caps [])

  Unique-capabilities_onto :
      (caps m : List Text) → Unique m → Unique (capabilities_onto fold caps m)
  unfolding capabilities_onto
  Unique-capabilities_onto [] m h = h
  Unique-capabilities_onto (x ∷ caps) m h =
      Unique-capabilities_onto caps _ (Unique-add_member (normalize_capability fold x) m h)

  pub Unique-capabilities_map : (caps : List Text) → Unique (capabilities_map fold caps)
  unfolding capabilities_map
  Unique-capabilities_map caps = Unique-capabilities_onto caps [] tt

  -- The capabilities that a list names.
  abbrev pub names : List Text → Text → Bool
  names caps c = elem c (map (normalize_capability fold) caps)

  elem-or_all :
      (c : Text) (caps : List Text)
      → elem c (or_all (capabilities_map fold caps)) ≡ collapse (names caps) c
  elem-or_all c caps =
      unfold elem in
      ground (arith, elem-capabilities_map c caps, elem-capabilities_map all_capabilities caps)

  Unique-or_all : (caps : List Text) → Unique (or_all (capabilities_map fold caps))
  Unique-or_all caps = unfold elem in ground (arith, Unique-capabilities_map caps)

  -- What the two results hold.
  abbrev pub Effective : List Text → List Text → List Text × List Text → Type 0
  Effective add drop r =
      ((c : Text)
        → (elem c r.0 ≡ (collapse (names add) c && not (eq c reset_capabilities)))
          × (elem c r.1 ≡ (
              collapse (names drop) c
              && not (collapse (names add) c)
              && not (eq c reset_capabilities))))
      × (IsSorted (λ s. s) r.0 × Unique r.0)
      × (IsSorted (λ s. s) r.1 × Unique r.1)

  -- A capability is added if the first list names it, `ALL` standing for all others. It is dropped if
  -- the second list names it and it is not added. `RESET` is in neither result; both are sorted and
  -- hold nothing twice.
  pub effective_cap_add_cap_drop-Effective :
      (add drop : List Text) → Effective add drop (effective_cap_add_cap_drop fold add drop)
  unfolding effective_cap_add_cap_drop
  effective_cap_add_cap_drop-Effective add drop =
      let a = or_all (capabilities_map fold add) in
      let d = or_all (capabilities_map fold drop) in
      (
        λ c. (
          elem-sort_strings c (effective_add a) ∙ elem-effective_add c a ∙ rw (elem-or_all c add),
          elem-sort_strings c (effective_drop a d)
              ∙ elem-effective_drop c a d
              ∙ rw (elem-or_all c add, elem-or_all c drop),
        ),
        (
          sort_strings-IsSorted (effective_add a),
          sort_strings-Unique (effective_add a) (Unique-effective_add a (Unique-or_all add)),
        ),
        (
          sort_strings-IsSorted (effective_drop a d),
          sort_strings-Unique (effective_drop a d) (Unique-effective_drop a d (Unique-or_all drop)),
        ),
      )
