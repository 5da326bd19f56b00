-- ===== src/Service/Slices.antt =====
-- Go slices that share their array, for the loop of `updateHosts` in cli/command/service/update.go
-- that removes from the slice over which it ranges.
pub mod Removal
use docker_cli.Prelude.{
  ℕ, zero, suc, ◌+◌, ◌-◌, Bool, Option, none, some, List, [], ◌∷◌, ◌++◌, leb, if◌then◌else◌, length,
  take, drop, get_or,
}
use docker_cli.Text.{Text, eq}

-- A slice from the first element of its array: the elements past `len` are still in the array.
pub record Slice : Type 0 where
  pub array : List Text
  pub len : ℕ

abbrev pub full : List Text → Slice
full xs = record { array = xs; len = length xs }

-- What the slice shows.
abbrev pub items : Slice → List Text
items s = take s.len s.array

-- `append(s[:i], s[i+1:]...)`, which writes the array in place: `none` where `s[i+1:]` is out of
-- bounds, a panic.
unfoldable pub remove_at : Slice → ℕ → Option Slice
remove_at s i =
    if leb (i + 1) s.len
    then some (record {
      array = take i s.array ++ (drop (i + 1) (take s.len s.array) ++ drop (s.len - 1) s.array);
      len = s.len - 1;
    })
    else none

-- `for i, h := range hostNames { if h == host { hostNames = append(hostNames[:i], …) } }`: the bound of
-- the loop is the length at its start, and `h` is read from the array as it then is.
unfoldable pub remove_scan : Text → ℕ → ℕ → Slice → Option Slice
unfolding remove_at
remove_scan host i zero s = some s
remove_scan host i (suc rounds) s =
    let next = remove_scan host (i + 1) rounds in
    let removed : Option Slice = elim (remove_at s i) [ none ↦ none | some s' ↦ next s' ] in
    let kept = next s in if eq (get_or s.array i []) host then removed else kept
