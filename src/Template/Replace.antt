-- ===== src/Template/Replace.antt =====
-- The closure and the walk of `SubstituteWith` of cli/compose/template/template.go, one equation for
-- each kind of piece.
use docker_cli.Prelude.{
  ℕ, ◌≡◌, refl, ap, ◌∙◌, Option, List, [], ◌∷◌, ◌++◌, append_assoc, append-nil, sym, map,
}
use docker_cli.Text.{Text}
use docker_cli.Text.Laws.{Lacks}
use docker_cli.Template.Pattern.{
  read_match, Match, escaped, braced, lit, hit, Piece, pieces, source,
}
use docker_cli.Template.Pieces.{pieces-lit, pieces-nil}
use docker_cli.Template.Matching.{IsSubst, IsSubst-cons, find_submatch-source}
use docker_cli.Template.Functions.{Mapping, Error, Applied}
use docker_cli.Template.Substitute.{replace, replace_all, run_functions}

pub read_match-escaped : (s : Text) → read_match (b'$' ∷ s) ≡ (escaped, s)
unfolding read_match
read_match-escaped s = refl

module _ (template : Text) (mapping : Mapping) (functions : List (Text → Mapping → Applied)) where
  pub replace_all-nil :
      (err : Option Error) → replace_all template mapping functions [] err ≡ ([], err)
  unfolding replace_all
  replace_all-nil err = refl

  pub replace_all-lit :
      (c : ℕ) (ps : List Piece) (err : Option Error)
      → replace_all template mapping functions (lit c ∷ ps) err ≡ (
        c ∷ (replace_all template mapping functions ps err).0,
        (replace_all template mapping functions ps err).1,
      )
  unfolding replace_all
  replace_all-lit c ps err = refl

  pub replace_all-hit :
      (m : Match) (ps : List Piece) (err : Option Error) (v : Text) (err' : Option Error)
      → replace template mapping functions (source m) err ≡ (v, err')
      → replace_all template mapping functions (hit m ∷ ps) err ≡ (
        v ++ (replace_all template mapping functions ps err').0,
        (replace_all template mapping functions ps err').1,
      )
  unfolding replace_all
  replace_all-hit m ps err v err' e = rw e

  pub replace_all-escaped :
      (ps : List Piece) (err : Option Error)
      → replace_all template mapping functions (hit escaped ∷ ps) err ≡ (
        b'$' ∷ (replace_all template mapping functions ps err).0,
        (replace_all template mapping functions ps err).1,
      )
  replace_all-escaped ps err =
      replace_all-hit escaped ps err (b'$' ∷ []) err (unfold replace in refl)

  -- A match of a substitution runs the functions.
  pub replace-braced :
      (t : Text) (err : Option Error)
      → IsSubst t
      → replace template mapping functions (source (braced t)) err
        ≡ run_functions functions t mapping err
  unfolding replace
  replace-braced t err h =
      let (c, s, e, start) = IsSubst-cons h in rw (find_submatch-source (braced t) h) (rw e refl)

  pub replace_all-append :
      (ps qs : List Piece) (err : Option Error)
      → replace_all template mapping functions (ps ++ qs) err ≡ (
        (replace_all template mapping functions ps err).0
            ++ (replace_all template mapping functions qs
                (replace_all template mapping functions ps err).1).0,
        (replace_all template mapping functions qs
            (replace_all template mapping functions ps err).1).1,
      )
  unfolding replace_all
  replace_all-append [] qs err = refl
  replace_all-append (lit c ∷ ps) qs err = rw (replace_all-append ps qs err)
  replace_all-append (hit m ∷ ps) qs err =
      rw (replace_all-append ps qs (replace template mapping functions (source m) err).1)
        (rw append_assoc)

-- Text with no `$` is copied.
pub pieces-Lacks : (s t : Text) → Lacks b'$' s → pieces (s ++ t) ≡ map lit s ++ pieces t
pieces-Lacks [] t h = refl
pieces-Lacks (c ∷ s) t (n, h) = rw (pieces-lit c (s ++ t) n, pieces-Lacks s t h)

module _ (template : Text) (mapping : Mapping) (functions : List (Text → Mapping → Applied)) where
  pub replace_all-map-lit :
      (s : Text) (err : Option Error)
      → replace_all template mapping functions (map lit s) err ≡ (s, err)
  unfolding replace_all
  replace_all-map-lit [] err = refl
  replace_all-map-lit (c ∷ s) err = rw (replace_all-map-lit s err)

  pub replace_all-plain :
      (s : Text) (err : Option Error)
      → Lacks b'$' s
      → replace_all template mapping functions (pieces s) err ≡ (s, err)
  replace_all-plain s err h =
      ap (λ ps. replace_all template mapping functions ps err)
        (ap pieces (sym (append-nil s))
          ∙ pieces-Lacks s [] h
          ∙ ap (λ ps. map lit s ++ ps) pieces-nil
          ∙ append-nil (map lit s))
      ∙ replace_all-map-lit s err
