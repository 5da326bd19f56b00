-- ===== src/Template/Pattern.antt =====
-- The regular expression `defaultPattern` of cli/compose/template/template.go, as a matcher:
--   \$(?i:(?P<escaped>\$)|(?P<named>S)|{(?P<braced>S)}|(?P<invalid>))
--   S = [_a-z][_a-z0-9]*(?::?[-?][^}]*)?
-- An alternative is tried only where those before it fail, and each repetition is the longest one:
-- no shorter repetition ever leads to a match, since a name is followed by no name character, and a
-- modifier ends at a `}` or at the end of the text.
use docker_cli.Prelude.{
  ℕ, zero, suc, Bool, not, ◌&&◌, ◌||◌, Option, none, some, List, [], ◌∷◌, ◌++◌, leb, ◌==◌,
  if◌then◌else◌, length,
}
use docker_cli.Text.{Text, span}

-- `[_a-z]` under `(?i)`: U+017F folds to `s`, and U+212A to `k`.
unfoldable pub is_start : ℕ → Bool
is_start c =
    c == b'_'
    || (leb b'a' c && leb c b'z')
    || (leb b'A' c && leb c b'Z')
    || c == 0x17F
    || c == 0x212A

-- `[_a-z0-9]` under `(?i)`
unfoldable pub is_name : ℕ → Bool
unfolding is_start
is_name c = is_start c || (leb b'0' c && leb c b'9')

-- `[^}]`
unfoldable pub is_open : ℕ → Bool
is_open c = not (c == b'}')

-- `[-?]`
abbrev pub is_mark : ℕ → Bool
is_mark c = c == b'-' || c == b'?'

-- `[-?][^}]*`, and the rest; with no match the group is skipped.
unfoldable pub read_mark : Text → Option (Text × Text)
unfolding is_open
read_mark [] = none
read_mark (c ∷ s) = let (d, rest) = span is_open s in if is_mark c then some (c ∷ d, rest) else none

-- `(?::?[-?][^}]*)?`
unfoldable pub read_modifier : Text → Text × Text
unfolding read_mark
read_modifier [] = ([], [])
read_modifier (c ∷ s) =
    if c == b':'
    then elim (read_mark s) [ none ↦ ([], c ∷ s) | some (d, rest) ↦ (c ∷ d, rest) ]
    else elim (read_mark (c ∷ s)) [ none ↦ ([], c ∷ s) | some (d, rest) ↦ (d, rest) ]

-- `S`: the text matched, and the rest.
unfoldable pub read_subst : Text → Option (Text × Text)
unfolding is_start is_name read_modifier span
read_subst [] = none
read_subst (c ∷ s) =
    let (n, s') = span is_name s in
    let (d, rest) = read_modifier s' in if is_start c then some (c ∷ (n ++ d), rest) else none

-- The alternative that matched, behind a `$`.
pub data Match : Type 0 where
  escaped : Match
  named : Text → Match
  braced : Text → Match
  invalid : Match

abbrev pub close : Text → Option (Text × Text) → Match × Text
close s none = (invalid, s)
close s (some (t, [])) = (invalid, s)
close s (some (t, c ∷ rest)) = if c == b'}' then (braced t, rest) else (invalid, s)

abbrev pub read_braced : Text → Match × Text
read_braced [] = (invalid, [])
read_braced (c ∷ s) = if c == b'{' then close (c ∷ s) (read_subst s) else (invalid, c ∷ s)

abbrev pub or_braced : Text → Option (Text × Text) → Match × Text
or_braced s none = read_braced s
or_braced s (some (t, rest)) = (named t, rest)

-- What the pattern matches behind a `$`, and the rest.
unfoldable pub read_match : Text → Match × Text
unfolding read_subst
read_match [] = (invalid, [])
read_match (c ∷ s) = if c == b'$' then (escaped, s) else or_braced (c ∷ s) (read_subst (c ∷ s))

-- The text that a match covers, from its `$`.
abbrev pub source : Match → Text
source escaped = b'$' ∷ b'$' ∷ []
source (named t) = b'$' ∷ t
source (braced t) = b'$' ∷ b'{' ∷ (t ++ (b'}' ∷ []))
source invalid = b'$' ∷ []

-- `matchGroups`: a group that took no part in the match is the empty text.
pub record Groups : Type 0 where
  pub escaped : Text
  pub named : Text
  pub braced : Text

abbrev pub match_groups : Match → Groups
match_groups escaped = record { escaped = b'$' ∷ []; named = []; braced = [] }
match_groups (named t) = record { escaped = []; named = t; braced = [] }
match_groups (braced t) = record { escaped = []; named = []; braced = t }
match_groups invalid = record { escaped = []; named = []; braced = [] }

-- A text cut at its matches: the characters between them, and each match.
pub data Piece : Type 0 where
  lit : ℕ → Piece
  hit : Match → Piece

-- The leftmost matches that do not overlap. Every `$` begins a match, and no match is empty.
unfoldable pub find_from : ℕ → Text → List Piece
unfolding read_match
find_from zero s = []
find_from (suc fuel) [] = []
find_from (suc fuel) (c ∷ s) =
    let (m, rest) = read_match s in
    let found = hit m ∷ find_from fuel rest in
    let passed = lit c ∷ find_from fuel s in if c == b'$' then found else passed

-- `FindAllString`, as `ReplaceAllStringFunc` and `FindAllStringSubmatch` walk it. Each step takes at
-- least one character, so the length of the text is enough fuel.
unfoldable pub pieces : Text → List Piece
unfolding find_from
pieces s = find_from (length s) s

-- `FindStringSubmatch`, on a text that begins with `$`.
unfoldable pub find_submatch : Text → Match
unfolding read_match
find_submatch [] = invalid
find_submatch (c ∷ s) = (read_match s).0
