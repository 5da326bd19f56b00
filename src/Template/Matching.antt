-- ===== src/Template/Matching.antt =====
-- What the matcher of cli/compose/template/template.go accepts: the grammar of a substitution, that
-- a match covers the text it was read from, and that a match is found again in its own text.
use docker_cli.Prelude.{
  ℕ, ◌≡◌, ◌⊎◌, inl, inr, refl, sym, ap, ◌∙◌, true, false, Option, none, some, [], ◌∷◌, ◌++◌, ◌==◌,
  All, arith, append_assoc, append-nil, Bool-cases, Option-cases,
}
use docker_cli.Text.{Text, span}
use docker_cli.Text.Laws.{span-append, span-All, span_of_All, Stops}
use docker_cli.Template.Pattern.{
  is_start, is_name, is_open, is_mark, read_mark, read_modifier, read_subst, Match, escaped, named,
  braced, invalid, close, read_braced, read_match, source, find_submatch,
}

-- `[-?][^}]*`
abbrev pub IsMarked : Text → Type 0
IsMarked [] = ⊥
IsMarked (m ∷ d) = (is_mark m ≡ true) × All (λ c. is_open c ≡ true) d

-- `(?::?[-?][^}]*)?`
abbrev pub IsModifier : Text → Type 0
IsModifier [] = Unit
IsModifier (c ∷ d) = ((c ≡ b':') × IsMarked d) ⊎ IsMarked (c ∷ d)

-- `[_a-z][_a-z0-9]*`
abbrev pub IsName : Text → Type 0
IsName [] = ⊥
IsName (c ∷ n) = (is_start c ≡ true) × All (λ d. is_name d ≡ true) n

read_mark-IsMarked : (s d rest : Text) → read_mark s ≡ some (d, rest) → IsMarked d × (s ≡ d ++ rest)
unfolding read_mark
read_mark-IsMarked [] d rest h = cc
read_mark-IsMarked (c ∷ s) [] rest h = ground arith
read_mark-IsMarked (c ∷ s) (m ∷ d) rest h =
    let opened : d ≡ (span is_open s).0 = ground arith in
    let left : rest ≡ (span is_open s).1 = ground arith in
    ((ground arith, rw opened (span-All is_open s)), ground (arith, span-append is_open s))

read_mark-append :
    (d rest : Text) → IsMarked d → Stops is_open rest → read_mark (d ++ rest) ≡ some (d, rest)
unfolding read_mark
read_mark-append [] rest h st = elim h [ ]
read_mark-append (m ∷ d) rest (h, k) st = rw (span_of_All is_open d rest k st, h)

read_modifier-IsModifier :
    (s : Text) → IsModifier (read_modifier s).0 × ((read_modifier s).0 ++ (read_modifier s).1 ≡ s)
unfolding read_modifier
read_modifier-IsModifier [] = (tt, refl)
read_modifier-IsModifier (c ∷ s) = elim (Bool-cases (c == b':')) [
  | inl e ↦ elim (Option-cases (read_mark s)) [
    | inl n ↦ rw (e, n) (tt, refl)
    | inr ((d, rest), m) ↦
        let (h, q) = read_mark-IsMarked s d rest m in
        rw (e, m) (inl (ground arith, h), ap (◌∷◌ c) (sym q))
  ]
  | inr e ↦ elim (Option-cases (read_mark (c ∷ s))) [
    | inl n ↦ rw (e, n) (tt, refl)
    | inr (([], rest), m) ↦ absurd (read_mark-IsMarked (c ∷ s) [] rest m).0
    | inr ((m' ∷ d, rest), m) ↦
        let (h, q) = read_mark-IsMarked (c ∷ s) (m' ∷ d) rest m in rw (e, m) (inr h, sym q)
  ]
]

read_modifier-append :
    (d rest : Text) → IsModifier d → Stops is_open rest → read_modifier (d ++ rest) ≡ (d, rest)
unfolding read_modifier
read_modifier-append [] [] h st = refl
read_modifier-append [] (c ∷ rest) h st = unfold read_mark is_open in ground arith
read_modifier-append (c ∷ d) rest (inl (e, h)) st = rw (read_mark-append d rest h st) (ground arith)
read_modifier-append (c ∷ d) rest (inr h) st =
    rw (read_mark-append (c ∷ d) rest h st) (ground arith)

-- `S` of the pattern: a name and a modifier.
pub record IsSubst (t : Text) : Type 0 where
  pub name : Text
  pub modifier : Text
  pub parts : t ≡ name ++ modifier
  pub is_name : IsName name
  pub is_modifier : IsModifier modifier

read_subst-IsSubst : (s t rest : Text) → read_subst s ≡ some (t, rest) → IsSubst t × (s ≡ t ++ rest)
unfolding read_subst
read_subst-IsSubst [] t rest h = cc
read_subst-IsSubst (c ∷ s) t rest h =
    let n = (span is_name s).0 in
    let (m, q) = read_modifier-IsModifier (span is_name s).1 in
    let e : t ≡ c ∷ (n ++ (read_modifier (span is_name s).1).0) = ground arith in
    let r : rest ≡ (read_modifier (span is_name s).1).1 = ground arith in
    (
      record {
        name = c ∷ n;
        modifier = (read_modifier (span is_name s).1).0;
        parts = e;
        is_name = (ground arith, span-All is_name s);
        is_modifier = m;
      },
      rw (e, r)
          (ap (◌∷◌ c) (sym (append_assoc n _ _ ∙ ap (λ x. n ++ x) q ∙ span-append is_name s))),
    )

Stops-modifier : (d rest : Text) → IsModifier d → Stops is_open rest → Stops is_name (d ++ rest)
unfolding is_open is_name
Stops-modifier [] [] h st = tt
Stops-modifier [] (c ∷ rest) h st = ground arith
Stops-modifier (c ∷ d) rest h st = ground arith

read_subst-parts :
    (n d rest : Text)
    → IsName n
    → IsModifier d
    → Stops is_open rest
    → read_subst (n ++ (d ++ rest)) ≡ some (n ++ d, rest)
unfolding read_subst
read_subst-parts [] d rest h k st = elim h [ ]
read_subst-parts (c ∷ n) d rest (s, h) k st =
    rw (span_of_All is_name n (d ++ rest) h (Stops-modifier d rest k st))
      (rw (read_modifier-append d rest k st, s))

pub read_subst-append :
    (t rest : Text) → IsSubst t → Stops is_open rest → read_subst (t ++ rest) ≡ some (t, rest)
read_subst-append t rest h st = rw h.parts (
    ap read_subst (append_assoc h.name h.modifier rest)
    ∙ read_subst-parts h.name h.modifier rest h.is_name h.is_modifier st)

-- A substitution is not empty, and begins with a letter or `_`.
pub IsSubst-cons : {t : Text} → IsSubst t → (c : ℕ) × (s : Text) × (t ≡ c ∷ s) × (is_start c ≡ true)
IsSubst-cons {t} h = go h.name h.modifier h.is_name h.parts
  where
    go :
        (n d : Text)
        → IsName n
        → t ≡ n ++ d
        → (c : ℕ) × (s : Text) × (t ≡ c ∷ s) × (is_start c ≡ true)
    go [] d i e = elim i [ ]
    go (c ∷ n) d i e = (c, n ++ d, e, i.0)

start-ne-dollar : (c : ℕ) → is_start c ≡ true → (c == b'$') ≡ false
unfolding is_start
start-ne-dollar c h = ground arith

pub read_match-named :
    (t rest : Text) → IsSubst t → Stops is_open rest → read_match (t ++ rest) ≡ (named t, rest)
unfolding read_match
read_match-named t rest h st =
    let (c, s, e, start) = IsSubst-cons h in
    rw e (rw (start-ne-dollar c start, rw e at (read_subst-append t rest h st)))

pub read_match-braced :
    (t rest : Text) → IsSubst t → read_match (b'{' ∷ (t ++ (b'}' ∷ rest))) ≡ (braced t, rest)
unfolding read_match
read_match-braced t rest h =
    rw (read_subst-append t (b'}' ∷ rest) h refl) (unfold read_subst is_start in ground arith)

-- What a match of each kind is.
abbrev pub IsMatch : Match → Type 0
IsMatch (named t) = IsSubst t
IsMatch (braced t) = IsSubst t
IsMatch _ = Unit

abbrev Covers : Text → Match × Text → Type 0
Covers s r = IsMatch r.0 × (source r.0 ++ r.1 ≡ b'$' ∷ s)

close-Covers :
    (s : Text)
    → (o : Option (Text × Text)) → read_subst s ≡ o
    → Covers (b'{' ∷ s) (close (b'{' ∷ s) o)
close-Covers s none e = (tt, refl)
close-Covers s (some (t, [])) e = (tt, refl)
close-Covers s (some (t, c ∷ rest)) e =
    let (h, q) = read_subst-IsSubst s t (c ∷ rest) e in
    elim (Bool-cases (c == b'}')) [
      | inl x ↦
          let y : c ≡ b'}' = ground arith in
          rw x (
            h,
            ap (λ z. b'$' ∷ b'{' ∷ z)
                (append_assoc t (b'}' ∷ []) rest ∙ ap (λ z. t ++ (z ∷ rest)) (sym y) ∙ sym q),
          )
      | inr x ↦ rw x (tt, refl)
    ]

read_braced-Covers : (s : Text) → Covers s (read_braced s)
read_braced-Covers [] = (tt, refl)
read_braced-Covers (c ∷ s) = elim (Bool-cases (c == b'{')) [
  | inl e ↦ let q : c ≡ b'{' = ground arith in rw q (close-Covers s (read_subst s) refl)
  | inr e ↦ rw e (tt, refl)
]

-- A match covers the text that it was read from.
pub read_match-IsMatch :
    (s : Text) → IsMatch (read_match s).0 × (source (read_match s).0 ++ (read_match s).1 ≡ b'$' ∷ s)
unfolding read_match
read_match-IsMatch [] = (tt, refl)
read_match-IsMatch (c ∷ s) = elim (Bool-cases (c == b'$')) [
  | inl e ↦ rw e (tt, ground arith)
  | inr e ↦ rw e (elim (Option-cases (read_subst (c ∷ s))) [
    | inl n ↦ rw n (read_braced-Covers (c ∷ s))
    | inr ((t, rest), n) ↦
        let (h, q) = read_subst-IsSubst (c ∷ s) t rest n in rw n (h, ap (◌∷◌ b'$') (sym q))
  ])
]

-- In the text of a match the pattern finds the same match.
pub find_submatch-source : (m : Match) → IsMatch m → find_submatch (source m) ≡ m
unfolding find_submatch
find_submatch-source escaped h = refl
find_submatch-source (named t) h =
    ap (λ r. r.0) (ap read_match (sym (append-nil t)) ∙ read_match-named t [] h tt)
find_submatch-source (braced t) h = ap (λ r. r.0) (read_match-braced t [] h)
find_submatch-source invalid h = refl
