-- ===== src/Text.antt =====
-- Go strings as sequences of code points, with what the program uses of the packages `strings` and
-- `unicode`. A Go string is a sequence of bytes; on valid UTF-8 these functions commute with
-- decoding, and the separators and tests in the program are all ASCII.
pub mod Laws
use Prim.Native.Char.{code}
use Prim.Native.String
use mathlib.Core.List.{reverse}
use mathlib.Core.Option
use docker_cli.Prelude.{
  ℕ, ◌+◌, ◌-◌, Bool, true, false, ◌&&◌, ◌||◌, Option, none, some, List, [], ◌∷◌, ◌++◌, String, any,
  leb, ◌==◌, if◌then◌else◌, is_some,
}

abbrev pub Text : Type 0
Text = List ℕ

-- A literal of the source.
abbrev pub codes : String → Text
codes String.[] = []
codes (String.◌∷◌ c s) = code c ∷ codes s

-- `s == t`
unfoldable pub eq : Text → Text → Bool
eq [] [] = true
eq (a ∷ s) (b ∷ t) = a == b && eq s t
eq _ _ = false

-- The rest of `s` behind the prefix `p`: `strings.HasPrefix(s, p)` and `s[len(p):]`.
unfoldable pub strip_prefix : Text → Text → Option Text
strip_prefix [] s = some s
strip_prefix (a ∷ p) [] = none
strip_prefix (a ∷ p) (b ∷ s) = if a == b then strip_prefix p s else none

-- `strings.HasPrefix`
unfoldable pub has_prefix : Text → Text → Bool
unfolding strip_prefix
has_prefix s p = is_some (strip_prefix p s)

abbrev pub push_before : ℕ → Option (Text × Text) → Option (Text × Text)
push_before c = Option.map (λ x. (c ∷ x.0, x.1))

-- `strings.Cut(s, sep)`, `none` where `sep` does not occur: before is then `s`, and after is empty.
unfoldable pub cut : Text → Text → Option (Text × Text)
unfolding strip_prefix
cut [] sep = Option.map (λ rest. ([], rest)) (strip_prefix sep [])
cut (c ∷ s) sep = elim (strip_prefix sep (c ∷ s)) [
  | none ↦ push_before c (cut s sep)
  | some rest ↦ some ([], rest)
]

abbrev pub cut_or_none : Text → Option (Text × Text) → Text × Text × Bool
cut_or_none s none = (s, [], false)
cut_or_none s (some (a, b)) = (a, b, true)

-- `before, after, found := strings.Cut(s, sep)`
abbrev pub cut3 : Text → Text → Text × Text × Bool
cut3 s sep = cut_or_none s (cut s sep)

-- `strings.Contains`
unfoldable pub contains : Text → Text → Bool
contains s sep = is_some (cut s sep)

-- The longest prefix whose members pass the test, and the rest.
unfoldable pub span : (ℕ → Bool) → Text → Text × Text
span p [] = ([], [])
span p (c ∷ s) = let (a, b) = span p s in if p c then (c ∷ a, b) else ([], c ∷ s)

-- `strings.TrimLeftFunc`
unfoldable pub trim_left : (ℕ → Bool) → Text → Text
trim_left p [] = []
trim_left p (c ∷ s) = let rest = trim_left p s in if p c then rest else c ∷ s

unfoldable pub trim_right : (ℕ → Bool) → Text → Text
unfolding trim_left
trim_right p s = reverse (trim_left p (reverse s))

-- `unicode.IsSpace`
unfoldable pub is_space : ℕ → Bool
is_space c =
    (leb 9 c && leb c 13)
    || c == 32
    || c == 0x85
    || c == 0xA0
    || c == 0x1680
    || (leb 0x2000 c && leb c 0x200a)
    || c == 0x2028
    || c == 0x2029
    || c == 0x202f
    || c == 0x205f
    || c == 0x3000

-- `strings.TrimSpace`
unfoldable pub trim_space : Text → Text
unfolding trim_left trim_right is_space
trim_space s = trim_right is_space (trim_left is_space s)

-- `strings.ContainsAny(s, chars)` and `strings.Trim…(s, chars)` test membership in `chars`.
unfoldable pub is_in : Text → ℕ → Bool
is_in chars c = any (λ d. c == d) chars

-- `strings.ContainsAny`
unfoldable pub contains_any : Text → Text → Bool
unfolding is_in
contains_any s chars = any (is_in chars) s

abbrev pub cons_first : ℕ → List Text → List Text
cons_first c [] = (c ∷ []) ∷ []
cons_first c (w ∷ ws) = (c ∷ w) ∷ ws

-- `strings.Split(s, sep)` for a separator of one character: never an empty list.
unfoldable pub split : Text → ℕ → List Text
split [] sep = [] ∷ []
split (c ∷ s) sep = let ws = split s sep in if c == sep then [] ∷ ws else cons_first c ws

-- `strings.Join(parts, sep)`
unfoldable pub join : List Text → Text → Text
join [] sep = []
join (w ∷ []) sep = w
join (w ∷ (v ∷ ws)) sep = w ++ (sep ++ join (v ∷ ws) sep)

-- `strings.ToLower` and `strings.ToUpper` on ASCII letters; other characters go by the parameter,
-- which stands for the Unicode tables.
unfoldable pub lower : (ℕ → ℕ) → ℕ → ℕ
lower fold c = if leb c 127 then (if leb b'A' c && leb c b'Z' then c + 32 else c) else fold c

unfoldable pub upper : (ℕ → ℕ) → ℕ → ℕ
upper fold c = if leb c 127 then (if leb b'a' c && leb c b'z' then c - 32 else c) else fold c
