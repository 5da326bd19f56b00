-- ===== src/Service/Slices/Removal.antt =====
-- The removing loop of `updateHosts` in cli/command/service/update.go: where the name occurs at most
-- once it removes it, and where it occurs twice it may panic or leave it.
use docker_cli.Prelude.{
  ℕ, suc, ◌+◌, ◌-◌, ◌≡◌, refl, sym, ap, ◌∙◌, true, false, some, List, [], ◌∷◌, ◌++◌, leb, length,
  length-append, take, drop, get_or, take-append, drop-append, get_or-append, append_assoc, arith,
}
use docker_cli.Text.{Text, eq}
use docker_cli.Text.Laws.{eq_refl}
use docker_cli.Maps.{elem}
use docker_cli.Maps.Laws.{elem-append}
use docker_cli.Service.Slices.{remove_at, remove_scan}

module _ (a xs ys : List Text) (n : ℕ) (len : n ≡ length xs) (parts : a ≡ xs ++ ys) where
  take_at : take n a ≡ xs
  take_at = rw (len, parts) (take-append xs ys)

  drop_at : drop n a ≡ ys
  drop_at = rw (len, parts) (drop-append xs ys)

get_at :
    (a xs : List Text) (n : ℕ) (y : Text) (ys : List Text)
    → n ≡ length xs
    → a ≡ xs ++ y ∷ ys
    → get_or a n [] ≡ y
get_at a xs n y ys len parts = rw (len, parts) (get_or-append xs ys y [])

len-concat : (i : ℕ) (p : List Text) (x : Text) → i ≡ length p → i + 1 ≡ length (p ++ x ∷ [])
len-concat i p x e = omega (arith, length-append p (x ∷ []))

-- A list that is not empty has a last element.
snoc : (y : Text) (ys : List Text) → (init : List Text) × (z : Text) × (y ∷ ys ≡ init ++ z ∷ [])
snoc y [] = ([], y, refl)
snoc y (x ∷ xs) = let (init, z, e) = snoc x xs in (y ∷ init, z, ap (◌∷◌ y) e)

module _ (host : Text) where
  -- Where the names that are read do not hold the host nothing changes.
  pub scan_absent :
      (i : ℕ) (a p q r : List Text) (n : ℕ)
      → i ≡ length p
      → a ≡ p ++ (q ++ r)
      → elem host q ≡ false
      → remove_scan host i (length q) (record { array = a; len = n })
        ≡ some (record { array = a; len = n })
  unfolding remove_scan
  scan_absent i a p [] r n len parts out = refl
  scan_absent i a p (x ∷ q) r n len parts out =
      let differs : eq x host ≡ false = unfold elem in ground arith in
      let out' : elem host q ≡ false = unfold elem in ground arith in
      rw (get_at a p i x (q ++ r) len parts, differs)
        (scan_absent (i + 1) a (p ++ x ∷ []) q r n (len-concat i p x len)
          (parts ∙ sym (append_assoc p (x ∷ []) (q ++ r))) out')

  -- Removing at `i` shifts what stands behind, and leaves the last element behind the slice.
  remove_at_found :
      (i : ℕ) (a p q g : List Text) (y : Text) (n : ℕ)
      → i ≡ length p
      → a ≡ p ++ (y ∷ (q ++ g))
      → n ≡ length p + suc (length q)
      → remove_at (record { array = a; len = n }) i
        ≡ some (record { array = p ++ (q ++ drop (n - 1) a); len = n - 1 })
  unfolding remove_at
  remove_at_found i a p q g y n len parts total =
      let fits : leb (i + 1) n ≡ true = ground arith in
      let shown : take n a ≡ p ++ (y ∷ q) =
        take_at a (p ++ (y ∷ q)) g n (omega (arith, length-append p (y ∷ q)))
          (parts ∙ sym (append_assoc p (y ∷ q) g)) in
      let behind : drop (i + 1) (take n a) ≡ q =
        drop_at (take n a) (p ++ y ∷ []) q (i + 1) (len-concat i p y len)
          (shown ∙ sym (append_assoc p (y ∷ []) q)) in
      rw (fits, behind, take_at a p (y ∷ (q ++ g)) i len parts)

  rest_absent :
      (y : Text) (q init : List Text) (z : Text)
      → y ∷ q ≡ init ++ z ∷ []
      → elem host (y ∷ q) ≡ false
      → elem host (q ++ z ∷ []) ≡ false
  rest_absent y q init z e out =
      let out_q : elem host q ≡ false = unfold elem in ground arith in
      let out_e : elem host (init ++ z ∷ []) ≡ false = ap (elem host) (sym e) ∙ out in
      ground (arith, elem-append host init (z ∷ []), elem-append host q (z ∷ []))

  scan_rest :
      (i : ℕ) (a p q g : List Text) (n : ℕ)
      → i ≡ length p
      → a ≡ p ++ (host ∷ (q ++ g))
      → n ≡ length p + suc (length q)
      → elem host q ≡ false
      → remove_scan host
          (i + 1)
          (length q)
          (record { array = p ++ (q ++ drop (n - 1) a); len = n - 1 })
        ≡ some (record { array = p ++ (q ++ drop (n - 1) a); len = n - 1 })
  scan_rest i a p [] g n len parts total out = unfold remove_scan in refl
  scan_rest i a p (y ∷ q) g n len parts total out =
      let (init, z, e) = snoc y q in
      let total' : n - 1 ≡ length (p ++ (host ∷ init)) =
        omega (arith, length-append p (host ∷ init), ap length e, length-append init (z ∷ [])) in
      let last : drop (n - 1) a ≡ z ∷ g = drop_at a (p ++ (host ∷ init)) (z ∷ g) (n - 1) total' (
        parts
        ∙ ap (λ r. p ++ (host ∷ r)) (ap (λ l. l ++ g) e ∙ append_assoc init (z ∷ []) g)
        ∙ sym (append_assoc p (host ∷ init) (z ∷ g))) in
      let absent : elem host (q ++ z ∷ []) ≡ false = rest_absent y q init z e out in
      let moved : p ++ ((y ∷ q) ++ drop (n - 1) a) ≡ (p ++ y ∷ []) ++ ((q ++ z ∷ []) ++ g) =
        ap (λ r. p ++ (y ∷ (q ++ r))) last
        ∙ ap (λ r. p ++ (y ∷ r)) (sym (append_assoc q (z ∷ []) g))
        ∙ sym (append_assoc p (y ∷ []) ((q ++ z ∷ []) ++ g)) in
      let shifted = p ++ ((y ∷ q) ++ drop (n - 1) a) in
      let rounds : length (q ++ z ∷ []) ≡ suc (length q) =
        omega (arith, length-append q (z ∷ [])) in
      rw rounds at (
        scan_absent (i + 1) shifted (p ++ y ∷ []) (q ++ z ∷ []) g (n - 1) (len-concat i p y len)
          moved absent)

  -- Where the host occurs once among the names it is removed, and nothing else is.
  pub scan_present :
      (i : ℕ) (a p q r g : List Text) (n : ℕ)
      → i ≡ length p
      → a ≡ p ++ (q ++ (host ∷ (r ++ g)))
      → n ≡ length p + (length q + suc (length r))
      → elem host q ≡ false
      → elem host r ≡ false
      → remove_scan host i (length (q ++ host ∷ r)) (record { array = a; len = n })
        ≡ some (record { array = p ++ (q ++ (r ++ drop (n - 1) a)); len = n - 1 })
  unfolding remove_scan
  scan_present i a p [] r g n len parts total out out' =
      rw (get_at a p i host (r ++ g) len parts, eq_refl host)
        (rw (remove_at_found i a p r g host n len parts (omega arith))
          (scan_rest i a p r g n len parts (omega arith) out'))
  scan_present i a p (x ∷ q) r g n len parts total out out' =
      let differs : eq x host ≡ false = unfold elem in ground arith in
      let absent : elem host q ≡ false = unfold elem in ground arith in
      rw (get_at a p i x (q ++ (host ∷ (r ++ g))) len parts, differs)
        (scan_present (i + 1) a (p ++ x ∷ []) q r g n (len-concat i p x len)
            (parts ∙ sym (append_assoc p (x ∷ []) (q ++ (host ∷ (r ++ g)))))
            (omega (arith, length-append p (x ∷ []))) absent out'
          ∙ ap (λ l. some (record { array = l; len = n - 1 }))
              (append_assoc p (x ∷ []) (q ++ (r ++ drop (n - 1) a))))
