-- ===== src/Template/Substitute.antt =====
-- `SubstituteWith` and `Substitute` of cli/compose/template/template.go. The closure that replaces a
-- match writes the variable `err` of the enclosing call, which is passed on from match to match.
use docker_cli.Prelude.{not, Option, none, some, List, [], ◌∷◌, ◌++◌, if◌then◌else◌}
use docker_cli.Text.{Text, cut}
use docker_cli.Template.Pattern.{
  Groups, Piece, lit, hit, source, match_groups, find_submatch, pieces,
}
use docker_cli.Template.Functions.{
  Mapping, Error, invalid_template, Applied, skipped, value, failed, is_empty, default_functions,
  soft_default, hard_default, required_non_empty, required,
}

-- The loop over `subsFuncs`, and the plain look-up behind it. Each call assigns `err`, so the second
-- component is the value of `err` when the closure returns.
unfoldable pub run_functions :
    List (Text → Mapping → Applied) → Text → Mapping → Option Error → Text × Option Error
run_functions [] substitution mapping err = ((mapping substitution).0, err)
run_functions (f ∷ fs) substitution mapping err = elim (f substitution mapping) [
  | skipped ↦ run_functions fs substitution mapping none
  | value v ↦ (v, none)
  | failed e ↦ ([], some e)
]

module _ (template : Text) (mapping : Mapping) (functions : List (Text → Mapping → Applied)) where
  -- The closure, on the groups of its match.
  unfoldable pub replace_groups : Groups → Option Error → Text × Option Error
  unfolding run_functions
  replace_groups groups err =
      let substitution = if is_empty groups.named then groups.braced else groups.named in
      if not (is_empty groups.escaped)
      then (groups.escaped, err)
      else if is_empty substitution
      then ([], some (invalid_template template))
      else run_functions functions substitution mapping err

  -- The closure: `substring` is the text of the match, which it matches again.
  unfoldable pub replace : Text → Option Error → Text × Option Error
  unfolding replace_groups find_submatch
  replace substring = replace_groups (match_groups (find_submatch substring))

  -- `ReplaceAllStringFunc`: the result, and `err` behind the last match.
  unfoldable pub replace_all : List Piece → Option Error → Text × Option Error
  unfolding replace
  replace_all [] err = ([], err)
  replace_all (lit c ∷ ps) err = let (out, err') = replace_all ps err in (c ∷ out, err')
  replace_all (hit m ∷ ps) err =
      let (v, err') = replace (source m) err in
      let (out, err'') = replace_all ps err' in (v ++ out, err'')

  unfoldable pub substitute_with : Text × Option Error
  unfolding replace_all pieces
  substitute_with = replace_all (pieces template) none

unfoldable pub substitute : Text → Mapping → Text × Option Error
unfolding cut substitute_with soft_default hard_default required_non_empty required
substitute template mapping = substitute_with template mapping default_functions
