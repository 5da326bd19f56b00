-- ===== src/Service/Capabilities/Updated.antt =====
-- What becomes of each capability in `updateCapabilities` of cli/command/service/update.go.
use docker_cli.Prelude.{
  ℕ, ◌≡◌, ◌∙◌, Bool, not, ◌&&◌, ◌||◌, List, [], ◌∷◌, arith, if◌then◌else◌, Bool-cases, inl, inr,
}
use docker_cli.Text.{Text, eq}
use docker_cli.Text.Laws.{eq_iff}
use docker_cli.Maps.{elem}
use docker_cli.Sort.Laws.{elem-sort_strings, IsSorted, sort_strings-IsSorted}
use docker_cli.Sort.Unique.{
  Unique, add_member, drop_member, elem-add_member, elem-drop_member, Unique-drop_member,
}
use docker_cli.Opts.Capabilities.{all_capabilities, reset_capabilities, capabilities_map}
use docker_cli.Opts.Capabilities.Effective.{
  collapse, names, elem-capabilities_map, Unique-capabilities_map,
}
use docker_cli.Service.Flags.{ListFlag}
use docker_cli.Service.Capabilities.{
  Caps, caps_list, requested, reset_set, drop_loop, add_loop, update_capabilities,
}

module _ (k : Text) where
  elem-drop_loop :
      (to_add to_drop : List Text) (caps : Caps)
      → Unique to_drop
      → (let ask = elem k to_drop && not (elem k to_add) in
          (elem k (drop_loop to_add to_drop caps).cap_add ≡ (elem k caps.cap_add && not ask))
          × (elem k (drop_loop to_add to_drop caps).cap_drop
              ≡ (elem k caps.cap_drop || (ask && not (elem k caps.cap_add)))))
  unfolding drop_loop elem
  elem-drop_loop to_add [] caps h = ground arith
  elem-drop_loop to_add (c ∷ to_drop) caps (n, h) = ground (
    arith,
    eq_iff c k,
    elem-drop_member k c caps.cap_add,
    elem-add_member k c caps.cap_drop,
    elem-drop_loop to_add to_drop caps h,
    elem-drop_loop to_add to_drop
        (record { cap_add = drop_member c caps.cap_add; cap_drop = caps.cap_drop }) h,
    elem-drop_loop to_add to_drop
        (record { cap_add = caps.cap_add; cap_drop = add_member c caps.cap_drop }) h,
  )

  elem-add_loop :
      (to_add : List Text) (caps : Caps)
      → Unique to_add
      → (elem k (add_loop to_add caps).cap_add
          ≡ (elem k caps.cap_add || (elem k to_add && not (elem k caps.cap_drop))))
        × (elem k (add_loop to_add caps).cap_drop ≡ (elem k caps.cap_drop && not (elem k to_add)))
  unfolding add_loop elem
  elem-add_loop [] caps h = ground arith
  elem-add_loop (c ∷ to_add) caps (n, h) = ground (
    arith,
    eq_iff c k,
    elem-drop_member k c caps.cap_drop,
    elem-add_member k c caps.cap_add,
    elem-add_loop to_add (record { cap_add = caps.cap_add; cap_drop = drop_member c caps.cap_drop })
        h,
    elem-add_loop to_add (record { cap_add = add_member c caps.cap_add; cap_drop = caps.cap_drop })
        h,
  )

elem-caps_list :
    (k : Text) (caps : List Text) → elem k (caps_list caps) ≡ collapse (λ c. elem c caps) k
unfolding caps_list elem
elem-caps_list k caps = ground (arith, elem-sort_strings k caps)

caps_list-IsSorted : (caps : List Text) → IsSorted (λ s. s) (caps_list caps)
unfolding caps_list
caps_list-IsSorted caps = elim (Bool-cases (elem all_capabilities caps)) [
  | inl e ↦ rw e (tt, tt)
  | inr e ↦ rw e (sort_strings-IsSorted caps)
]

-- `k` is among the capabilities of a flag, and is not `RESET`.
abbrev pub wants : (ℕ → ℕ) → ListFlag → Text → Bool
wants fold flag k = flag.changed && names fold flag.values k && not (eq reset_capabilities k)

-- `k` is among the capabilities of the specification, and the flag does not reset them.
abbrev pub had : (ℕ → ℕ) → ListFlag → List Text → Text → Bool
had fold flag caps k =
    names fold caps k && not (flag.changed && names fold flag.values reset_capabilities)

elem-requested :
    (fold : ℕ → ℕ) (flag : ListFlag) (k : Text) → elem k (requested fold flag) ≡ wants fold flag k
elem-requested fold flag k =
    unfold elem in
    ground (
      arith,
      elem-capabilities_map fold k flag.values,
      elem-capabilities_map fold reset_capabilities flag.values,
      elem-drop_member k reset_capabilities (capabilities_map fold flag.values),
      eq_iff reset_capabilities k,
    )

Unique-requested : (fold : ℕ → ℕ) (flag : ListFlag) → Unique (requested fold flag)
Unique-requested fold flag = ground (
  arith,
  Unique-capabilities_map fold flag.values,
  Unique-drop_member reset_capabilities (capabilities_map fold flag.values)
      (Unique-capabilities_map fold flag.values),
)

elem-reset_set :
    (fold : ℕ → ℕ) (flag : ListFlag) (caps : List Text) (k : Text)
    → elem k (reset_set fold flag (capabilities_map fold caps)) ≡ had fold flag caps k
elem-reset_set fold flag caps k =
    unfold elem in
    ground (
      arith,
      elem-capabilities_map fold k caps,
      elem-capabilities_map fold reset_capabilities flag.values,
    )

-- Whether a capability is added, and whether it is dropped, behind an update.
abbrev pub added_after : (ℕ → ℕ) → ListFlag → ListFlag → Caps → Text → Bool
added_after fold add drop spec c =
    if wants fold add c
    then had fold add spec.cap_add c || not (had fold drop spec.cap_drop c)
    else had fold add spec.cap_add c && not (wants fold drop c)

abbrev pub dropped_after : (ℕ → ℕ) → ListFlag → ListFlag → Caps → Text → Bool
dropped_after fold add drop spec c =
    not (wants fold add c)
    && (had fold drop spec.cap_drop c || (wants fold drop c && not (had fold add spec.cap_add c)))

module _ (fold : ℕ → ℕ) (add drop : ListFlag) (spec : Caps) where
  abbrev start : Caps
  start = record {
    cap_add = reset_set fold add (capabilities_map fold spec.cap_add);
    cap_drop = reset_set fold drop (capabilities_map fold spec.cap_drop);
  }

  abbrev loops : Caps
  loops = add_loop (requested fold add) (drop_loop (requested fold add) (requested fold drop) start)

  loops_lem :
      (c : Text)
      → (elem c loops.cap_add ≡ added_after fold add drop spec c)
        × (elem c loops.cap_drop ≡ dropped_after fold add drop spec c)
  loops_lem c = ground (
    arith,
    elem-add_loop c (requested fold add)
        (drop_loop (requested fold add) (requested fold drop) start) (Unique-requested fold add),
    elem-drop_loop c (requested fold add) (requested fold drop) start (Unique-requested fold drop),
    elem-requested fold add c,
    elem-requested fold drop c,
    elem-reset_set fold add spec.cap_add c,
    elem-reset_set fold drop spec.cap_drop c,
  )

  collapse-ext :
      (p q : Text → Bool) (k : Text) → ((c : Text) → p c ≡ q c) → collapse p k ≡ collapse q k
  collapse-ext p q k h = ground (arith, h all_capabilities, h k)

  -- What the new lists hold.
  abbrev pub IsUpdated : Caps → Type 0
  IsUpdated caps =
      ((k : Text)
        → (elem k caps.cap_add ≡ collapse (added_after fold add drop spec) k)
          × (elem k caps.cap_drop ≡ collapse (dropped_after fold add drop spec) k))
      × IsSorted (λ s. s) caps.cap_add
      × IsSorted (λ s. s) caps.cap_drop

  -- Three states of a capability: added, dropped, neither. A request to add makes a dropped one
  -- neither and keeps or makes any other added; a request to drop one that is not also to be added
  -- makes an added one neither and any other dropped; `RESET` first empties the list. Then `ALL`
  -- stands for the whole of its list. Both lists are sorted.
  pub update_capabilities-IsUpdated : IsUpdated (update_capabilities fold add drop spec)
  unfolding update_capabilities
  update_capabilities-IsUpdated = (
    λ k. (
      elem-caps_list k loops.cap_add
          ∙ collapse-ext (λ c. elem c loops.cap_add) (added_after fold add drop spec) k
              (λ c. (loops_lem c).0),
      elem-caps_list k loops.cap_drop
          ∙ collapse-ext (λ c. elem c loops.cap_drop) (dropped_after fold add drop spec) k
              (λ c. (loops_lem c).1),
    ),
    caps_list-IsSorted loops.cap_add,
    caps_list-IsSorted loops.cap_drop,
  )
