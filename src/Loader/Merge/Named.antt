-- ===== src/Loader/Merge/Named.antt =====
-- Which services `mergeServices` of cli/compose/loader/merge.go gives.
use docker_cli.Prelude.{
  ◌≡◌, refl, sym, subst, ◌∙◌, ap, false, Option, none, some, List, [], ◌∷◌, Result, ok, err, ◌>>=◌,
  inl, inr, Bool-cases, Result-cases, is_some, arith, ok_lem,
}
use docker_cli.Text.{Text, eq}
use docker_cli.Text.Laws.{eq_iff, eq_refl}
use docker_cli.Maps.{Map, lookup, insert, values}
use docker_cli.Maps.Laws.{Distinct, Distinct-insert, lookup-insert}
use docker_cli.Maps.Keyed.{
  or_else, find_last, lookup-put_all, Distinct-put_all, Keyed, Keyed-insert, Keyed-put_all,
  find_last-values, find_last-sort_by,
}
use docker_cli.Sort.{sort_by}
use docker_cli.Sort.Laws.{IsSorted, sort_by-IsSorted}
use docker_cli.Loader.Merge.{
  MergeError, cannot_merge_service, map_by_name, merge_one, merge_loop, merge_services,
}

none_lem {ℓ} : {A : Type ℓ} (o : Option A) → is_some o ≡ false → o ≡ none
none_lem none h = refl
none_lem (some a) h = cc

or_none {ℓ} : {A : Type ℓ} (o : Option A) → or_else o none ≡ o
or_none none = refl
or_none (some a) = refl

module _ {ℓ κ} {A : Type ℓ} {E : Type κ} (name : A → Text) (merge_service : A → A → Result E A)
    (keeps : (b o c : A) → name b ≡ name o → merge_service b o ≡ ok c → name c ≡ name o) where
  -- What a round of the loop gives for a name.
  abbrev looped_for : Text → Option A → Option A → Result (MergeError E) (Option A)
  looped_for k b none = ok b
  looped_for k b (some o) = merge_one name merge_service k b o >>= λ s. ok (some s)

  merge_one-Keyed :
      (k : Text) (b : Option A) (o s : A)
      → ((a : A) → b ≡ some a → name a ≡ k)
      → k ≡ name o
      → merge_one name merge_service k b o ≡ ok s
      → k ≡ name s
  merge_one-Keyed k none o s h e r = e ∙ ap name (ok_lem r)
  merge_one-Keyed k (some a) o s h e r = elim (Result-cases (merge_service a o)) [
    | inl (c, q) ↦
        let same = ap name (ok_lem (rw (merge_one, q) at r)) in
        e ∙ sym (keeps a o c (h a refl ∙ e) q) ∙ same
    | inr (f, q) ↦ let failed = rw (merge_one, q) at r in cc
  ]

  lookup-Keyed : (k : Text) (m : Map A) (a : A) → Keyed name m → lookup k m ≡ some a → name a ≡ k
  unfolding lookup
  lookup-Keyed k [] a h e = cc
  lookup-Keyed k ((j, v) ∷ m) a (q, h) e = ground (arith, lookup-Keyed k m a h, eq_iff j k)

  -- What the loop gives for a name.
  abbrev Loop : Map A → Map A → Result (MergeError E) (Map A) → Type (ℓ ⊔ κ)
  Loop overrides base (ok m) =
      (Keyed name m × Distinct m)
      × ((k : Text) → ok (lookup k m) ≡ looped_for k (lookup k base) (lookup k overrides))
  Loop overrides base (err e) =
      (k : Text) × (looped_for k (lookup k base) (lookup k overrides) ≡ err e)

  loop_at :
      (j : Text) (o s : A) (rest base : Map A)
      → is_some (lookup j rest) ≡ false
      → merge_one name merge_service j (lookup j base) o ≡ ok s
      → looped_for j (lookup j (insert j s base)) (lookup j rest)
        ≡ looped_for j (lookup j base) (some o)
  loop_at j o s rest base n e =
      ap (λ b. looped_for j b (lookup j rest)) (lookup-insert j j base s ∙ rw (eq_refl j) refl)
      ∙ ap (looped_for j (some s)) (none_lem (lookup j rest) n)
      ∙ sym (ap (λ r. r >>= λ t. ok (some t)) e)

  round_lem :
      (overrides base overrides' base' : Map A) (r : Result (MergeError E) (Map A))
      → ((k : Text)
          → looped_for k (lookup k base') (lookup k overrides')
            ≡ looped_for k (lookup k base) (lookup k overrides))
      → Loop overrides' base' r
      → Loop overrides base r
  round_lem overrides base overrides' base' (ok m) e (h, k) = (h, λ j. k j ∙ e j)
  round_lem overrides base overrides' base' (err f) e (j, k) = (j, sym (e j) ∙ k)

  -- One service of the override, and the rest of the loop.
  loop_step :
      (j : Text) (o s : A) (rest base : Map A) (k : Text)
      → is_some (lookup j rest) ≡ false
      → merge_one name merge_service j (lookup j base) o ≡ ok s
      → looped_for k (lookup k (insert j s base)) (lookup k rest)
        ≡ looped_for k (lookup k base) (lookup k ((j, o) ∷ rest))
  unfolding lookup
  loop_step j o s rest base k n e = elim (Bool-cases (eq j k)) [
    | inl q ↦ rw q (
        subst
          (λ t.
            looped_for t (lookup t (insert j s base)) (lookup t rest)
            ≡ looped_for t (lookup t base) (some o))
          ((eq_iff j k).0 q) (loop_at j o s rest base n e))
    | inr q ↦ rw q (ap (λ b. looped_for k b (lookup k rest)) (lookup-insert j k base s ∙ rw q refl))
  ]

  merge_loop-Loop :
      (overrides base : Map A)
      → Distinct overrides
      → Keyed name overrides
      → Distinct base
      → Keyed name base
      → Loop overrides base (merge_loop name merge_service overrides base)
  unfolding merge_loop lookup
  merge_loop-Loop [] base d h db hb = ((hb, db), (λ k. refl))
  merge_loop-Loop ((j, o) ∷ rest) base (n, d) (e, h) db hb =
      elim (Result-cases (merge_one name merge_service j (lookup j base) o)) [
        | inl (s, q) ↦
            let same =
              merge_one-Keyed j (lookup j base) o s (λ a p. lookup-Keyed j base a hb p) e q in
            let keyed =
              subst (λ t. Keyed name (insert t s base)) (sym same) (Keyed-insert name s base hb) in
            rw q (
              round_lem ((j, o) ∷ rest) base rest (insert j s base) _
                (λ k. loop_step j o s rest base k n q)
                (merge_loop-Loop rest (insert j s base) d h (Distinct-insert j s base db) keyed))
        | inr (f, q) ↦ rw q (j, rw (eq_refl j, q) refl)
      ]

  -- The service under a name, of what the base and the override have under it.
  abbrev pub merged_for : Text → Option A → Option A → Result (MergeError E) (Option A)
  merged_for k b none = ok b
  merged_for k none (some o) = ok (some o)
  merged_for k (some b) (some o) = elim (merge_service b o) [
    | ok s ↦ ok (some s)
    | err e ↦ err (cannot_merge_service k e)
  ]

  merged_lem : (k : Text) (b o : Option A) → looped_for k b o ≡ merged_for k b o
  merged_lem k b none = refl
  merged_lem k none (some o) = refl
  merged_lem k (some b) (some o) = elim (Result-cases (merge_service b o)) [
    | inl (s, e) ↦ rw (merge_one, merged_for, e) refl
    | inr (f, e) ↦ rw (merge_one, merged_for, e) refl
  ]

  -- The services, sorted by name and each as merged for its name, or an error of a name.
  abbrev pub MergedOrError : List A → List A → Result (MergeError E) (List A) → Type (ℓ ⊔ κ)
  MergedOrError base override (ok services) =
      IsSorted name services
      × ((k : Text)
          → ok (find_last name k services)
            ≡ merged_for k (find_last name k base) (find_last name k override))
  MergedOrError base override (err e) =
      (k : Text) × (merged_for k (find_last name k base) (find_last name k override) ≡ err e)

  lookup-map_by_name :
      (k : Text) (xs : List A) → lookup k (map_by_name name xs) ≡ find_last name k xs
  unfolding map_by_name lookup
  lookup-map_by_name k xs = lookup-put_all name k xs [] ∙ or_none (find_last name k xs)

  sorted_lem :
      (base override : List A) (r : Result (MergeError E) (Map A))
      → Loop (map_by_name name override) (map_by_name name base) r
      → MergedOrError base override (r >>= λ m. ok (sort_by name (values m)))
  sorted_lem base override (ok m) ((h, d), k) = (
    sort_by-IsSorted name (values m),
    λ j.
        ap ok (find_last-sort_by name j (values m) ∙ find_last-values name j m d h)
        ∙ k j
        ∙ ap (λ b. looped_for j b (lookup j (map_by_name name override)))
            (lookup-map_by_name j base)
        ∙ ap (looped_for j (find_last name j base)) (lookup-map_by_name j override)
        ∙ merged_lem j (find_last name j base) (find_last name j override),
  )
  sorted_lem base override (err f) (j, k) = (
    j,
    sym (
          ap (λ b. looped_for j b (lookup j (map_by_name name override)))
            (lookup-map_by_name j base)
          ∙ ap (looped_for j (find_last name j base)) (lookup-map_by_name j override)
          ∙ merged_lem j (find_last name j base) (find_last name j override))
        ∙ k,
  )

  -- Where a merge of two services of one name keeps the name: `mergeServices` gives services that are
  -- sorted by name, and under each name what it is in one of the files, or the merge of the last of each;
  -- it fails only with the error of the merge for a name.
  pub merge_services-MergedOrError :
      (base override : List A)
      → MergedOrError base override (merge_services name merge_service base override)
  unfolding merge_services map_by_name
  merge_services-MergedOrError base override =
      sorted_lem base override
        (merge_loop name merge_service (map_by_name name override) (map_by_name name base))
        (merge_loop-Loop (map_by_name name override) (map_by_name name base)
          (Distinct-put_all name override [] tt) (Keyed-put_all name override [] tt)
          (Distinct-put_all name base [] tt) (Keyed-put_all name base [] tt))
