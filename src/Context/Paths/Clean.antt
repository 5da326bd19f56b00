-- ===== src/Context/Paths/Clean.antt =====
-- What `path.Clean` leaves in place: paths whose components are all plain names.
use mathlib.Core.List.{reverse_aux}
use docker_cli.Prelude.{
  ℕ, ◌≡◌, ◌≢◌, refl, subst, ◌∙◌, ap, Bool, false, List, [], ◌∷◌, ◌++◌, ◌==◌, All, arith, ◌⊎◌, inl,
  inr, Bool-cases,
}
use docker_cli.Text.{Text, codes, split, join}
use docker_cli.Text.Laws.{eq_iff, Lacks, split-cons}
use docker_cli.Context.Paths.{climb, add_component, reduce}

-- A name that stands for itself.
abbrev pub IsPlain : Text → Type 0
IsPlain c = (c ≢ []) × (c ≢ codes ".") × (c ≢ codes "..")

-- Plain names behind components `..`, the last first.
abbrev pub Reduced : List Text → Type 0
Reduced [] = Unit
Reduced (c ∷ cs) = (IsPlain c × Reduced cs) ⊎ ((c ≡ codes "..") × All (λ d. d ≡ codes "..") cs)

Reduced-climb : (out : List Text) → Reduced out → Reduced (climb false out)
Reduced-climb [] h = inr (refl, tt)
Reduced-climb (c ∷ out) (inl ((n, m, l), h)) = ground (arith, eq_iff c (codes ".."))
Reduced-climb (c ∷ out) (inr (e, h)) = rw ((eq_iff c (codes "..")).1 e) (inr (refl, (e, h)))

Reduced-add_component :
    (out : List Text) (c : Text) → Reduced out → Reduced (add_component false out c)
Reduced-add_component out c h =
    ground (arith, eq_iff c [], eq_iff c (codes "."), eq_iff c (codes ".."), Reduced-climb out h)

pub Reduced-reduce : (cs out : List Text) → Reduced out → Reduced (reduce false out cs)
unfolding reduce
Reduced-reduce [] out h = h
Reduced-reduce (c ∷ cs) out h =
    Reduced-reduce cs (add_component false out c) (Reduced-add_component out c h)

-- Behind a plain first component there is no `..`.
pub plain_lem :
    (out : List Text) (c : Text) → c ≢ codes ".." → Reduced (out ++ c ∷ []) → All IsPlain out
plain_lem [] c n h = tt
plain_lem (d ∷ out) c n (inl (p, h)) = (p, plain_lem out c n h)
plain_lem (d ∷ out) c n (inr (e, h)) = absurd (n (last_lem out h))
  where
    last_lem : (xs : List Text) → All (λ d. d ≡ codes "..") (xs ++ c ∷ []) → c ≡ codes ".."
    last_lem [] (k, _) = k
    last_lem (x ∷ xs) (_, k) = last_lem xs k

module _ (P : Text → Type 0) (parent : P (codes "..")) where
  All-climb : (out : List Text) → All P out → All P (climb false out)
  All-climb [] h = (parent, tt)
  All-climb (c ∷ out) (p, h) = ground arith

  pub All-reduce : (cs out : List Text) → All P cs → All P out → All P (reduce false out cs)
  unfolding reduce
  All-reduce [] out k h = h
  All-reduce (c ∷ cs) out (p, k) h =
      All-reduce cs (add_component false out c) k (ground (arith, All-climb out h))

module _ (rooted : Bool) where
  add_component-plain :
      (out : List Text) (c : Text) → IsPlain c → add_component rooted out c ≡ c ∷ out
  add_component-plain out c (n, m, l) =
      ground (arith, eq_iff c [], eq_iff c (codes "."), eq_iff c (codes ".."))

  -- Plain names are pushed one by one.
  pub reduce-plain :
      (cs out : List Text) → All IsPlain cs → reduce rooted out cs ≡ reverse_aux cs out
  unfolding reduce
  reduce-plain [] out h = refl
  reduce-plain (c ∷ cs) out (p, h) = rw (add_component-plain out c p) (reduce-plain cs (c ∷ out) h)

-- Splitting at a separator gives texts without it.
pub split-Lacks : (s : Text) (sep : ℕ) → All (Lacks sep) (split s sep)
unfolding split
split-Lacks [] sep = (tt, tt)
split-Lacks (c ∷ s) sep =
    let (w, ws, e) = split-cons s sep in
    elim (Bool-cases (c == sep)) [
      | inl h ↦ rw (h, e) (tt, subst (λ l. All (Lacks sep) l) e (split-Lacks s sep))
      | inr h ↦
          let (k, l) = subst (λ l. All (Lacks sep) l) e (split-Lacks s sep) in
          rw (h, e) ((ground arith, k), l)
    ]

pub split-one : (w : Text) (sep : ℕ) → Lacks sep w → split w sep ≡ w ∷ []
unfolding split
split-one [] sep h = refl
split-one (c ∷ w) sep (n, h) = ground (arith, split-one w sep h)

pub split-append : (w s : Text) (sep : ℕ) → Lacks sep w → split (w ++ sep ∷ s) sep ≡ w ∷ split s sep
unfolding split
split-append [] s sep h = ground arith
split-append (c ∷ w) s sep (n, h) = ground (arith, split-append w s sep h)

-- Joining texts without the separator and splitting again gives the texts back.
pub split-join :
    (w : Text) (ws : List Text) (sep : ℕ)
    → All (Lacks sep) (w ∷ ws)
    → split (join (w ∷ ws) (sep ∷ [])) sep ≡ w ∷ ws
unfolding join
split-join w [] sep (h, _) = split-one w sep h
split-join w (v ∷ ws) sep (h, k) =
    split-append w (join (v ∷ ws) (sep ∷ [])) sep h ∙ ap (λ l. w ∷ l) (split-join v ws sep k)

pub All-reverse_aux :
    (P : Text → Type 0) (xs ys : List Text) → All P xs → All P ys → All P (reverse_aux xs ys)
All-reverse_aux P [] ys h k = k
All-reverse_aux P (x ∷ xs) ys (p, h) k = All-reverse_aux P xs (x ∷ ys) h (p, k)
