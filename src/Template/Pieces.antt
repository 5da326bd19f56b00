-- ===== src/Template/Pieces.antt =====
-- The walk over the matches of a text, cli/compose/template/template.go: the fuel is enough, so the
-- walk is given by one equation for each way in which a text begins.
use docker_cli.Prelude.{
  ℕ, zero, suc, ◌≤◌, ◌≡◌, ◌≢◌, refl, ap, [], ◌∷◌, length, length-append, arith,
}
use docker_cli.Text.{Text}
use docker_cli.Template.Pattern.{
  read_match, Match, escaped, named, braced, invalid, source, lit, hit, find_from, pieces,
}
use docker_cli.Template.Matching.{read_match-IsMatch}

length-source : (m : Match) → 1 ≤ length (source m)
length-source escaped = omega arith
length-source (named t) = omega arith
length-source (braced t) = omega arith
length-source invalid = omega arith

-- A match takes at least its `$`.
length-read_match : (s : Text) → length (read_match s).1 ≤ length s
length-read_match s =
    let (h, q) = read_match-IsMatch s in
    omega (
      arith,
      ap length q,
      length-source (read_match s).0,
      length-append (source (read_match s).0) (read_match s).1,
    )

find_from-enough :
    (f g : ℕ) (s : Text) → length s ≤ f → length s ≤ g → find_from f s ≡ find_from g s
unfolding find_from
find_from-enough zero zero s h k = refl
find_from-enough zero (suc g) [] h k = refl
find_from-enough zero (suc g) (c ∷ s) h k = absurd (omega arith)
find_from-enough (suc f) zero [] h k = refl
find_from-enough (suc f) zero (c ∷ s) h k = absurd (omega arith)
find_from-enough (suc f) (suc g) [] h k = refl
find_from-enough (suc f) (suc g) (c ∷ s) h k =
    rw (find_from-enough f g s (omega arith) (omega arith)) (
      rw (
        find_from-enough f g (read_match s).1 (omega (arith, length-read_match s))
          (omega (arith, length-read_match s))))

-- The equations of the walk.
pub pieces-nil : pieces [] ≡ []
unfolding pieces
pieces-nil = refl

pub pieces-lit : (c : ℕ) (s : Text) → c ≢ b'$' → pieces (c ∷ s) ≡ lit c ∷ pieces s
unfolding pieces
pieces-lit c s h = ground arith

pub pieces-hit :
    (s : Text) (m : Match) (rest : Text)
    → read_match s ≡ (m, rest)
    → pieces (b'$' ∷ s) ≡ hit m ∷ pieces rest
unfolding pieces
pieces-hit s m rest e =
    let short : length rest ≤ length s = rw (ap (λ r. r.1) e) at (length-read_match s) in
    rw e (ap (◌∷◌ (hit m)) (find_from-enough (length s) (length rest) rest short (omega arith)))
