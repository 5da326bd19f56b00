-- ===== src/Template/Escape.antt =====
-- Escaping is undone by `SubstituteWith` of cli/compose/template/template.go.
use docker_cli.Prelude.{
  ◌≡◌, inl, inr, Option, none, List, [], ◌∷◌, ◌==◌, if◌then◌else◌, arith, Bool-cases,
}
use docker_cli.Text.{Text}
use docker_cli.Template.Pattern.{escaped, pieces}
use docker_cli.Template.Pieces.{pieces-lit, pieces-hit, pieces-nil}
use docker_cli.Template.Functions.{Mapping, Error, Applied}
use docker_cli.Template.Replace.{
  replace_all-nil, replace_all-lit, replace_all-escaped, read_match-escaped,
}
use docker_cli.Template.Substitute.{replace_all, substitute_with}

-- The text with every `$` doubled.
pub escape : Text → Text
escape [] = []
escape (c ∷ s) = if c == b'$' then b'$' ∷ b'$' ∷ escape s else c ∷ escape s

module _ (template : Text) (mapping : Mapping) (functions : List (Text → Mapping → Applied)) where
  replace_all-escape :
      (s : Text) (err : Option Error)
      → replace_all template mapping functions (pieces (escape s)) err ≡ (s, err)
  unfolding escape
  replace_all-escape [] err = rw pieces-nil (replace_all-nil template mapping functions err)
  replace_all-escape (c ∷ s) err = elim (Bool-cases (c == b'$')) [
    | inl e ↦
        let e' : c ≡ b'$' = ground arith in
        rw e (
          rw (pieces-hit (b'$' ∷ escape s) escaped (escape s) (read_match-escaped (escape s))) (
            rw (replace_all-escaped template mapping functions (pieces (escape s)) err)
              (rw (replace_all-escape s err, e'))))
    | inr e ↦ rw e (
        rw (pieces-lit c (escape s) (ground arith)) (
          rw (replace_all-lit template mapping functions c (pieces (escape s)) err)
            (rw (replace_all-escape s err))))
  ]

-- Substituting in a text whose every `$` is doubled gives the text back with no error, whatever the
-- variables and the substitution functions are.
pub substitute_with-escape :
    (s : Text) (mapping : Mapping) (functions : List (Text → Mapping → Applied))
    → substitute_with (escape s) mapping functions ≡ (s, none)
unfolding substitute_with
substitute_with-escape s mapping functions = replace_all-escape (escape s) mapping functions s none
