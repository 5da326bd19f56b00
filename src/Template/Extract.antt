-- ===== src/Template/Extract.antt =====
-- `ExtractVariables` of cli/compose/template/template.go: the variables of a text and their defaults.
use docker_cli.Prelude.{not, List, [], ◌∷◌, ◌++◌, if◌then◌else◌}
use docker_cli.Text.{Text, codes, cut, contains}
use docker_cli.Template.Pattern.{Piece, lit, hit, Groups, match_groups, pieces}
use docker_cli.Template.Functions.{is_empty, partition}

pub record ExtractedValue : Type 0 where
  pub name : Text
  pub value : Text

-- The switch of `extractVariable`.
unfoldable pub extract_value : Text → ExtractedValue
unfolding contains partition
extract_value val =
    if contains val (codes ":?")
    then record { name = (partition val (codes ":?")).0; value = [] }
    else if contains val (codes "?")
    then record { name = (partition val (codes "?")).0; value = [] }
    else if contains val (codes ":-")
    then record { name = (partition val (codes ":-")).0; value = (partition val (codes ":-")).1 }
    else if contains val (codes "-")
    then record { name = (partition val (codes "-")).0; value = (partition val (codes "-")).1 }
    else record { name = val; value = [] }

-- The body of the loop over the matches; an escaped match is passed over.
abbrev pub extract_groups : Groups → List ExtractedValue
extract_groups groups =
    if not (is_empty groups.escaped)
    then []
    else extract_value (if is_empty groups.named then groups.braced else groups.named) ∷ []

unfoldable pub extract_pieces : List Piece → List ExtractedValue
unfolding extract_value
extract_pieces [] = []
extract_pieces (lit c ∷ ps) = extract_pieces ps
extract_pieces (hit m ∷ ps) = extract_groups (match_groups m) ++ extract_pieces ps

-- `extractVariable`, on a text: no values is the same as `false` for its callers.
unfoldable pub extract_variable : Text → List ExtractedValue
unfolding cut extract_pieces pieces
extract_variable s = extract_pieces (pieces s)
