-- ===== src/Text/Laws.antt =====
-- Laws of the text functions: equality, prefixes, the first occurrence, splitting and joining.
use mathlib.Core.Option
use docker_cli.Prelude.{
  ℕ, ◌≡◌, ◌≢◌, ◌↔◌, inl, inr, refl, ap, Bool, true, false, none, some, List, [], ◌∷◌, ◌++◌, All,
  ◌==◌, Bool-cases, Option-cases, arith,
}
use docker_cli.Text.{Text, eq, strip_prefix, push_before, cut, span, split, cons_first, join}

pub eq_iff : (s t : Text) → (eq s t ≡ true) ↔ (s ≡ t)
unfolding eq
eq_iff (a ∷ s) (b ∷ t) = ground (arith, eq_iff s t)
eq_iff _ _ = ground arith

pub eq_refl : (s : Text) → eq s s ≡ true
eq_refl s = (eq_iff s s).1 refl

-- A prefix that is stripped stands in front, and what stands in front is stripped.
pub strip_prefix_sound : (p s rest : Text) → strip_prefix p s ≡ some rest → s ≡ p ++ rest
unfolding strip_prefix
strip_prefix_sound [] s rest h = ground arith
strip_prefix_sound (a ∷ p) [] rest h = cc
strip_prefix_sound (a ∷ p) (b ∷ s) rest h = ground (arith, strip_prefix_sound p s rest)

pub strip_prefix-append : (p s : Text) → strip_prefix p (p ++ s) ≡ some s
unfolding strip_prefix
strip_prefix-append [] s = refl
strip_prefix-append (a ∷ p) s = ground (arith, strip_prefix-append p s)

-- Where `cut` finds the separator, the text is the two parts with the separator between.
pub cut_sound : (s sep a b : Text) → cut s sep ≡ some (a, b) → s ≡ a ++ (sep ++ b)
unfolding cut
cut_sound [] sep a b h = ground (arith, strip_prefix_sound sep [] b)
cut_sound (c ∷ s) sep a b h = elim (Option-cases (strip_prefix sep (c ∷ s))) [
  | inl e ↦
      let ((a', b'), e', q) = (Option.map-eq-some_iff _ _).0 (rw (e, cut) at h) in
      ground (arith, cut_sound s sep a' b')
  | inr (r, e) ↦ ground (arith, strip_prefix_sound sep (c ∷ s) r e)
]

-- The character does not occur.
abbrev pub Lacks : ℕ → Text → Type 0
Lacks c = All (λ d. d ≢ c)

-- The first occurrence: no character before it is the first of the separator.
pub cut-append :
    (s sep rest : Text) (c : ℕ)
    → Lacks c s
    → cut (s ++ (c ∷ sep ++ rest)) (c ∷ sep) ≡ some (s, rest)
unfolding cut strip_prefix
cut-append [] sep rest c h = ground (arith, strip_prefix-append sep rest)
cut-append (d ∷ s) sep rest c (n, h) = ground (arith, cut-append s sep rest c h)

pub cut-Lacks : (s sep : Text) (c : ℕ) → Lacks c s → cut s (c ∷ sep) ≡ none
unfolding cut strip_prefix
cut-Lacks [] sep c h = refl
cut-Lacks (d ∷ s) sep c (n, h) = ground (arith, cut-Lacks s sep c h)

pub cut-append_none :
    (s t sep : Text) (c : ℕ) → Lacks c s → cut t (c ∷ sep) ≡ none → cut (s ++ t) (c ∷ sep) ≡ none
unfolding cut strip_prefix
cut-append_none [] t sep c h e = e
cut-append_none (d ∷ s) t sep c (n, h) e = ground (arith, cut-append_none s t sep c h e)

pub cut-cons_none :
    (c d : ℕ) (s sep : Text)
    → strip_prefix (c ∷ sep) (c ∷ d ∷ s) ≡ none
    → cut (d ∷ s) (c ∷ sep) ≡ none
    → cut (c ∷ d ∷ s) (c ∷ sep) ≡ none
unfolding cut
cut-cons_none c d s sep h e = ground (arith, ap (push_before c) e)

-- The same by the second character of the separator.
pub cut-Lacks_second : (s sep : Text) (c d : ℕ) → Lacks d s → cut s (c ∷ d ∷ sep) ≡ none
unfolding cut strip_prefix
cut-Lacks_second [] sep c d h = refl
cut-Lacks_second (a ∷ []) sep c d h = ground arith
cut-Lacks_second (a ∷ b ∷ s) sep c d (n, (m, h)) =
    ground (arith, cut-Lacks_second (b ∷ s) sep c d (m, h))

pub span-append : (p : ℕ → Bool) (s : Text) → (span p s).0 ++ (span p s).1 ≡ s
unfolding span
span-append p [] = refl
span-append p (c ∷ s) = ground (arith, span-append p s)

pub span-All : (p : ℕ → Bool) (s : Text) → All (λ c. p c ≡ true) (span p s).0
unfolding span
span-All p [] = tt
span-All p (c ∷ s) = ground (arith, span-All p s)

-- The next character does not pass the test, if there is one.
abbrev pub Stops : (ℕ → Bool) → Text → Type 0
Stops p [] = Unit
Stops p (c ∷ s) = p c ≡ false

pub span-Stops : (p : ℕ → Bool) (s : Text) → Stops p (span p s).1
unfolding span
span-Stops p [] = tt
span-Stops p (c ∷ s) = elim (Bool-cases (p c)) [ inl e ↦ rw e (span-Stops p s) | inr e ↦ rw e e ]

pub span_of_All :
    (p : ℕ → Bool) (s rest : Text)
    → All (λ c. p c ≡ true) s
    → Stops p rest
    → span p (s ++ rest) ≡ (s, rest)
unfolding span
span_of_All p [] [] h k = refl
span_of_All p [] (c ∷ rest) h k = rw k
span_of_All p (c ∷ s) rest (e, h) k = rw (e, span_of_All p s rest h k)

pub split-cons : (s : Text) (sep : ℕ) → (w : Text) × (ws : List Text) × (split s sep ≡ w ∷ ws)
unfolding split
split-cons [] sep = ([], [], refl)
split-cons (c ∷ s) sep =
    let (w, ws, e) = split-cons s sep in
    elim (Bool-cases (c == sep)) [
      | inl h ↦ ([], w ∷ ws, rw (h, e))
      | inr h ↦ (c ∷ w, ws, rw (h, e))
    ]

join-cons_first :
    (c : ℕ) (w sep : Text) (ws : List Text)
    → join (cons_first c (w ∷ ws)) sep ≡ c ∷ join (w ∷ ws) sep
unfolding join
join-cons_first c w sep [] = refl
join-cons_first c w sep (v ∷ ws) = refl

-- Splitting at a character and joining with it again gives the text back.
pub join-split : (s : Text) (sep : ℕ) → join (split s sep) (sep ∷ []) ≡ s
unfolding join split
join-split [] sep = refl
join-split (c ∷ s) sep =
    let (w, ws, e) = split-cons s sep in
    ground (arith, join-cons_first c w (sep ∷ []) ws, join-split s sep)
