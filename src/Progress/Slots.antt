-- ===== src/Progress/Slots.antt =====
-- Go's maps with numbers as keys, for the slots of cli/command/service/progress/progress.go.
use docker_cli.Prelude.{
  ℕ, ◌==◌, ◌≡◌, refl, Option, none, some, List, [], ◌∷◌, arith, if◌then◌else◌, map,
}

abbrev pub SlotMap {ℓ} : Type ℓ → Type ℓ
SlotMap V = List (ℕ × V)

module _ {ℓ} {V : Type ℓ} where
  -- `v, ok := m[k]`
  unfoldable pub find_slot : ℕ → SlotMap V → Option V
  find_slot k [] = none
  find_slot k ((j, v) ∷ m) = if j == k then some v else find_slot k m

  -- `m[k] = v`
  unfoldable pub put_slot : ℕ → V → SlotMap V → SlotMap V
  put_slot k v [] = (k, v) ∷ []
  put_slot k v ((j, w) ∷ m) =
      let rest = put_slot k v m in if j == k then (k, v) ∷ m else (j, w) ∷ rest

  -- `for _, v := range m`, in the order in which the keys were set
  abbrev pub slot_values : SlotMap V → List V
  slot_values m = map (λ e. e.1) m

  pub find_slot-put_slot :
      (k j : ℕ) (v : V) (m : SlotMap V)
      → find_slot j (put_slot k v m) ≡ (if k == j then some v else find_slot j m)
  unfolding find_slot put_slot
  find_slot-put_slot k j v [] = refl
  find_slot-put_slot k j v ((i, w) ∷ m) = ground (arith, find_slot-put_slot k j v m)

-- `m[k]` of a map to numbers, which is 0 where there is none.
abbrev pub number_at : ℕ → SlotMap ℕ → ℕ
number_at k m = elim (find_slot k m) [ none ↦ 0 | some n ↦ n ]
