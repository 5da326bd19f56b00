-- ===== src/Context/Disk/Laws.antt =====
-- Laws of the disk: what is read behind each operation, and where plain names lead.
use mathlib.Core.List.{reverse, reverse_aux-eq, reverse-append, reverse-reverse}
use docker_cli.Prelude.{
  ◌≡◌, ◌↔◌, refl, ◌∙◌, ap, true, none, [], ◌∷◌, ◌++◌, All, if◌then◌else◌, arith, Bool-cases, inl,
  inr,
}
use docker_cli.Text.{Text, split}
use docker_cli.Text.Laws.{eq_iff, eq_refl}
use docker_cli.Context.Paths.{separator}
use docker_cli.Context.Paths.Clean.{reduce-plain, split-one}
use docker_cli.Context.Paths.Valid.{IsComponent, unzip-IsComponent}
use docker_cli.Context.Disk.{FilePath, Disk, same_path, is_below, read_file, remove_all, join_path}

pub same_path_iff : (p q : FilePath) → (same_path p q ≡ true) ↔ (p ≡ q)
unfolding same_path
same_path_iff (c ∷ p) (d ∷ q) = ground (arith, eq_iff c d, same_path_iff p q)
same_path_iff _ _ = ground arith

pub same_path_append : (p q r : FilePath) → same_path (p ++ q) (p ++ r) ≡ same_path q r
unfolding same_path
same_path_append [] q r = refl
same_path_append (c ∷ p) q r = rw (eq_refl c) (same_path_append p q r)

pub is_below_append : (p q r : FilePath) → is_below (p ++ q) (p ++ r) ≡ is_below q r
unfolding is_below
is_below_append [] q r = refl
is_below_append (c ∷ p) q r = rw (eq_refl c) (is_below_append p q r)

same_below : (p q r : FilePath) → same_path q r ≡ true → is_below p q ≡ is_below p r
same_below p q r h = ap (is_below p) ((same_path_iff q r).0 h)

pub read_file-remove_all :
    (p q : FilePath) (disk : Disk)
    → read_file q (remove_all p disk) ≡ (if is_below p q then none else read_file q disk)
unfolding read_file remove_all
read_file-remove_all p q [] = ground arith
read_file-remove_all p q ((r, content) ∷ disk) =
    let rest = read_file-remove_all p q disk in
    elim (Bool-cases (same_path r q)) [
      | inl e ↦ let below = same_below p r q e in ground arith
      | inr e ↦ ground arith
    ]

-- Plain components are appended.
pub join_path-append :
    (dir : FilePath) (name : Text)
    → All IsComponent (split name separator)
    → join_path dir name ≡ dir ++ split name separator
unfolding join_path
join_path-append dir name h =
    let cs = split name separator in
    ap reverse (
      reduce-plain true cs (reverse dir) (unzip-IsComponent cs h).0
      ∙ reverse_aux-eq cs (reverse dir))
    ∙ reverse-append (reverse cs) (reverse dir)
    ∙ ap (λ p. p ++ reverse (reverse cs)) (reverse-reverse dir)
    ∙ ap (λ q. dir ++ q) (reverse-reverse cs)

pub join_path-component :
    (dir : FilePath) (c : Text) → IsComponent c → join_path dir c ≡ dir ++ c ∷ []
join_path-component dir c (p, l) =
    let one = split-one c separator l in
    join_path-append dir c (rw one ((p, l), tt)) ∙ ap (λ q. dir ++ q) one
