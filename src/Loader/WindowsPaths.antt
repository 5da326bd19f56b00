-- ===== src/Loader/WindowsPaths.antt =====
-- cli/compose/loader/windows_path.go: absolute paths of Windows, on the bytes of the path. `none` is
-- an index out of range, a panic, or the end of the fuel.
pub mod Volumes
use docker_cli.Prelude.{
  ℕ, zero, suc, ◌+◌, ◌-◌, ◌==◌, ltb, leb, Bool, true, false, not, ◌&&◌, ◌||◌, Option, none, some,
  List, [], ◌∷◌, if◌then◌else◌, length, drop,
}

-- `path[i]`
abbrev pub get_elem? : List ℕ → ℕ → Option ℕ
get_elem? [] i = none
get_elem? (c ∷ path) zero = some c
get_elem? (c ∷ path) (suc i) = get_elem? path i

-- `isSlash`
abbrev pub is_slash : ℕ → Bool
is_slash c = c == b'\\' || c == b'/'

-- The inner loop: the first slash from `n` on, or the end of the path.
unfoldable pub share_end : ℕ → List ℕ → ℕ → Option ℕ
share_end zero path n = none
share_end (suc fuel) path n =
    let later = share_end fuel path (n + 1) in
    let here : Option ℕ = elim (get_elem? path n) [
      | none ↦ none
      | some c ↦ if is_slash c then some n else later
    ] in
    if ltb n (length path) then here else some n

-- What the outer loop does behind the slash that ends the name of the server, at `n`.
unfoldable pub share_name : List ℕ → ℕ → Option ℕ
unfolding share_end
share_name path n = elim (get_elem? path n) [
  | none ↦ none
  | some c ↦
      if not (is_slash c)
      then (if c == b'.' then some 0 else share_end (length path + 1) path n)
      else some 0
]

-- The outer loop, over the name of the server.
unfoldable pub server_name : ℕ → List ℕ → ℕ → Option ℕ
unfolding share_name
server_name zero path n = none
server_name (suc fuel) path n =
    let later = server_name fuel path (n + 1) in
    let here : Option ℕ = elim (get_elem? path n) [
      | none ↦ none
      | some c ↦ if is_slash c then share_name path (n + 1) else later
    ] in
    if ltb n (length path - 1) then here else some 0

abbrev pub is_drive_letter : ℕ → Bool
is_drive_letter c = (leb b'a' c && leb c b'z') || (leb b'A' c && leb c b'Z')

-- `volumeNameLen`
unfoldable pub volume_name_len : List ℕ → Option ℕ
unfolding server_name
volume_name_len [] = some 0
volume_name_len (c ∷ []) = some 0
volume_name_len (c ∷ d ∷ []) = if d == b':' && is_drive_letter c then some 2 else some 0
volume_name_len (c ∷ d ∷ e ∷ rest) =
    let path = c ∷ d ∷ e ∷ rest in
    let unc = server_name (length path + 1) path 3 in
    if d == b':' && is_drive_letter c
    then some 2
    else if leb 5 (length path) && is_slash c && is_slash d && not (is_slash e) && not (e == b'.')
    then unc
    else some 0

abbrev pub starts_with_slash : List ℕ → Bool
starts_with_slash [] = false
starts_with_slash (c ∷ path) = is_slash c

-- `isAbs`
unfoldable pub is_abs : List ℕ → Option Bool
unfolding volume_name_len
is_abs path = elim (volume_name_len path) [
  | none ↦ none
  | some l ↦ if l == 0 then some false else some (starts_with_slash (drop l path))
]
