-- ===== src/Context/Disk.antt =====
-- Paths and `filepath.Join` for cli/context/store, and a list of files that stands for the files of a
-- disk. A path is absolute, and is the sequence of its components.
pub mod Laws
use mathlib.Core.List.{reverse}
use docker_cli.Prelude.{Bool, true, false, ◌&&◌, Option, none, some, List, [], ◌∷◌, if◌then◌else◌}
use docker_cli.Text.{Text, eq, split}
use docker_cli.Context.Paths.{separator, reduce}

abbrev pub FilePath : Type 0
FilePath = List Text

abbrev pub Disk : Type 0
Disk = List (FilePath × Text)

unfoldable pub same_path : FilePath → FilePath → Bool
unfolding eq
same_path [] [] = true
same_path (c ∷ p) (d ∷ q) = eq c d && same_path p q
same_path _ _ = false

-- Whether the second path is the first or lies below it.
unfoldable pub is_below : FilePath → FilePath → Bool
unfolding eq
is_below [] q = true
is_below (c ∷ p) [] = false
is_below (c ∷ p) (d ∷ q) = eq c d && is_below p q

-- The content of the file at a path.
unfoldable pub read_file : FilePath → Disk → Option Text
unfolding same_path
read_file p [] = none
read_file p ((q, content) ∷ disk) = if same_path q p then some content else read_file p disk

-- A file is written.
abbrev pub write_file : FilePath → Text → Disk → Disk
write_file p content disk = (p, content) ∷ disk

-- The files at and below a path are removed.
unfoldable pub remove_all : FilePath → Disk → Disk
unfolding is_below
remove_all p [] = []
remove_all p ((q, content) ∷ disk) =
    let rest = remove_all p disk in if is_below p q then rest else (q, content) ∷ rest

-- `filepath.Join(dir, name)`
unfoldable pub join_path : FilePath → Text → FilePath
unfolding reduce split
join_path dir name = reverse (reduce true (reverse dir) (split name separator))
