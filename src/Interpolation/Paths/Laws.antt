-- ===== src/Interpolation/Paths/Laws.antt =====
-- Paths of cli/compose/interpolation/interpolation.go match part by part.
use docker_cli.Prelude.{
  ℕ, ◌≡◌, refl, ◌&&◌, ◌||◌, List, [], ◌∷◌, ◌++◌, ◌==◌, arith, Bool-cases, inl, inr,
}
use docker_cli.Text.{Text, eq, split, cons_first}
use docker_cli.Text.Laws.{Lacks, split-cons}
use docker_cli.Interpolation.Paths.{
  path_separator, path_match_all, KeyPath, next, parts, matches_parts, matches,
}

abbrev glue : ℕ → List Text → List Text → List Text
glue c ws vs = cons_first c ws ++ vs

cons_first-append :
    (c : ℕ) (w : Text) (ws vs : List Text)
    → cons_first c ((w ∷ ws) ++ vs) ≡ cons_first c (w ∷ ws) ++ vs
cons_first-append c w ws vs = refl

-- The parts of a longer path are those of the path, then those of what is added.
pub parts-next : (p : KeyPath) (part : Text) → parts (next p part) ≡ parts p ++ parts part
unfolding split
parts-next [] part = refl
parts-next (c ∷ p) part =
    let (w, ws, e) = split-cons p path_separator in
    elim (Bool-cases (c == path_separator)) [
      | inl h ↦ rw h (rw (parts-next p part))
      | inr h ↦ rw h (rw (parts-next p part, e))
    ]

-- A text with no separator is one part.
split-Lacks : (s : Text) (c : ℕ) → Lacks c s → split s c ≡ s ∷ []
unfolding split
split-Lacks [] c h = refl
split-Lacks (d ∷ s) c (n, h) = ground (arith, split-Lacks s c h)

matches_parts-append :
    (ps qs : List Text) (part q : Text)
    → matches_parts (ps ++ part ∷ []) (qs ++ q ∷ [])
      ≡ (matches_parts ps qs && (eq q path_match_all || eq q part))
matches_parts-append [] [] part q = ground arith
matches_parts-append [] (r ∷ []) part q = ground arith
matches_parts-append [] (r ∷ (t ∷ qs)) part q = ground arith
matches_parts-append (p ∷ []) [] part q = ground arith
matches_parts-append (p ∷ (t ∷ ps)) [] part q = ground arith
matches_parts-append (p ∷ ps) (r ∷ qs) part q = ground (arith, matches_parts-append ps qs part q)

-- Where no key holds a dot: a path matches a pattern if its parent matches the pattern's parent, and
-- the last part of the pattern is `*` or the last part of the path.
pub matches-next :
    (p pattern : KeyPath) (part q : Text)
    → Lacks path_separator part
    → Lacks path_separator q
    → matches (next p part) (next pattern q)
      ≡ (matches p pattern && (eq q path_match_all || eq q part))
unfolding matches
matches-next p pattern part q h k =
    rw
      (
        parts-next p part,
        parts-next pattern q,
        split-Lacks part path_separator h,
        split-Lacks q path_separator k,
      )
      (matches_parts-append (parts p) (parts pattern) part q)
