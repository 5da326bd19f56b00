-- ===== src/Loader/WindowsPaths/Volumes.antt =====
-- The volumes of cli/compose/loader/windows_path.go: the loops over indices find the names that cut
-- the path at its slashes.
use docker_cli.Prelude.{
  ℕ, zero, suc, ◌+◌, ◌-◌, ◌≤◌, ◌<◌, ◌==◌, ltb, ◌≡◌, refl, ap, ◌∙◌, Bool, true, false, not, ◌&&◌,
  ◌||◌, Option, none, some, List, [], ◌∷◌, ◌++◌, append_assoc, arith, if◌then◌else◌, length,
  length-append, drop, Bool-cases, inl, inr,
}
use docker_cli.Loader.WindowsPaths.{
  get_elem?, is_slash, share_end, share_name, server_name, is_drive_letter, volume_name_len,
  starts_with_slash, is_abs,
}

-- The length of the part in front of the first slash.
abbrev pub until_slash : List ℕ → ℕ
until_slash [] = 0
until_slash (c ∷ path) = if is_slash c then 0 else suc (until_slash path)

-- The name of a share behind that of a server: not empty, and not begun by a slash or a dot.
abbrev pub share_part : List ℕ → Option ℕ
share_part [] = none
share_part (c ∷ path) = if is_slash c || c == b'.' then none else some (until_slash (c ∷ path))

abbrev pub one_longer : Option ℕ → Option ℕ
one_longer none = none
one_longer (some n) = some (suc n)

-- The length of `server\share`, if the path begins so.
abbrev pub server_part : List ℕ → Option ℕ
server_part [] = none
server_part (c ∷ path) = one_longer (if is_slash c then share_part path else server_part path)

-- The length of the volume in front of a path: a drive, or `\\server\share`.
abbrev pub volume_part : List ℕ → ℕ
volume_part [] = 0
volume_part (c ∷ []) = 0
volume_part (c ∷ d ∷ []) = if d == b':' && is_drive_letter c then 2 else 0
volume_part (c ∷ d ∷ e ∷ rest) =
    if d == b':' && is_drive_letter c
    then 2
    else if is_slash c && is_slash d && not (is_slash e) && not (e == b'.')
    then (elim (server_part rest) [ none ↦ 0 | some n ↦ 3 + n ])
    else 0

get_elem?-append : (pre rest : List ℕ) (c : ℕ) → get_elem? (pre ++ c ∷ rest) (length pre) ≡ some c
get_elem?-append [] rest c = refl
get_elem?-append (d ∷ pre) rest c = get_elem?-append pre rest c

share_end-until_slash :
    (fuel : ℕ) (pre rest : List ℕ)
    → length rest < fuel
    → share_end fuel (pre ++ rest) (length pre) ≡ some (length pre + until_slash rest)
unfolding share_end
share_end-until_slash zero pre rest h = elim h [ ]
share_end-until_slash (suc fuel) pre [] h = ground (arith, length-append pre [])
share_end-until_slash (suc fuel) pre (c ∷ rest) h = ground (
  arith,
  length-append pre (c ∷ rest),
  length-append pre (c ∷ []),
  append_assoc pre (c ∷ []) rest,
  get_elem?-append pre rest c,
  share_end-until_slash fuel (pre ++ c ∷ []) rest,
)

-- The length of a part behind `n` bytes, and 0 where there is none.
abbrev behind : ℕ → Option ℕ → ℕ
behind n none = 0
behind n (some k) = n + k

share_name-share_part :
    (pre rest : List ℕ) (c : ℕ)
    → share_name (pre ++ c ∷ rest) (length pre) ≡ some (behind (length pre) (share_part (c ∷ rest)))
unfolding share_name
share_name-share_part pre rest c = ground (
  arith,
  length-append pre (c ∷ rest),
  get_elem?-append pre rest c,
  share_end-until_slash (length (pre ++ c ∷ rest) + 1) pre (c ∷ rest),
)

server_step :
    (fuel : ℕ) (pre rest : List ℕ) (c d : ℕ)
    → (let path = pre ++ c ∷ (d ∷ rest) in
        server_name (suc fuel) path (length pre) ≡ (
          if is_slash c
          then share_name path (length pre + 1)
          else server_name fuel path (length pre + 1)))
unfolding server_name
server_step fuel pre rest c d =
    let path = pre ++ c ∷ (d ∷ rest) in
    let e : ltb (length pre) (length path - 1) ≡ true =
      ground (arith, length-append pre (c ∷ (d ∷ rest))) in
    rw (server_name, e, get_elem?-append pre (d ∷ rest) c) refl

-- A statement about the path behind one more byte.
one_more {κ} :
    (P : List ℕ → ℕ → Type κ) (pre rest : List ℕ) (c : ℕ)
    → P ((pre ++ c ∷ []) ++ rest) (length (pre ++ c ∷ []))
    → P (pre ++ c ∷ rest) (length pre + 1)
one_more P pre rest c h =
    let e : length (pre ++ c ∷ []) ≡ length pre + 1 = omega (arith, length-append pre (c ∷ [])) in
    rw (← e) (rw (← append_assoc pre (c ∷ []) rest) h)

behind_suc : (n : ℕ) (o : Option ℕ) → behind (n + 1) o ≡ behind n (one_longer o)
behind_suc n none = refl
behind_suc n (some k) = omega arith

-- The two cases of the test for a slash.
choice_lem {ℓ} :
    {A : Type ℓ} (b : Bool) (x y : A) (f : Option ℕ → A) (o p : Option ℕ)
    → x ≡ f (one_longer o)
    → y ≡ f (one_longer p)
    → (if b then x else y) ≡ f (one_longer (if b then o else p))
choice_lem true x y f o p h k = h
choice_lem false x y f o p h k = k

server_name-server_part :
    (fuel : ℕ) (pre rest : List ℕ)
    → length rest < fuel
    → server_name fuel (pre ++ rest) (length pre) ≡ some (behind (length pre) (server_part rest))
server_name-server_part zero pre rest h = elim h [ ]
server_name-server_part (suc fuel) pre [] h =
    unfold server_name in ground (arith, length-append pre [])
server_name-server_part (suc fuel) pre (c ∷ []) h =
    unfold server_name in ground (arith, length-append pre (c ∷ []))
server_name-server_part (suc fuel) pre (c ∷ (d ∷ rest)) h =
    server_step fuel pre rest c d
    ∙ choice_lem (is_slash c) _ _ (λ o. some (behind (length pre) o)) (share_part (d ∷ rest))
        (server_part (d ∷ rest))
        (one_more (λ path n. share_name path n ≡ some (behind n (share_part (d ∷ rest)))) pre
            (d ∷ rest) c (share_name-share_part (pre ++ c ∷ []) rest d)
          ∙ ap some (behind_suc (length pre) (share_part (d ∷ rest))))
        (one_more (λ path n. server_name fuel path n ≡ some (behind n (server_part (d ∷ rest)))) pre
            (d ∷ rest) c (server_name-server_part fuel (pre ++ c ∷ []) (d ∷ rest) (omega arith))
          ∙ ap some (behind_suc (length pre) (server_part (d ∷ rest))))

short_lem : (rest : List ℕ) → length rest < 2 → server_part rest ≡ none
short_lem [] h = refl
short_lem (c ∷ []) h = ground arith
short_lem (c ∷ (d ∷ rest)) h = absurd (omega arith)

volume_name_len-volume_part : (path : List ℕ) → volume_name_len path ≡ some (volume_part path)
unfolding volume_name_len
volume_name_len-volume_part [] = refl
volume_name_len-volume_part (c ∷ []) = refl
volume_name_len-volume_part (c ∷ d ∷ []) = ground arith
volume_name_len-volume_part (c ∷ d ∷ e ∷ rest) = ground (
  arith,
  short_lem rest,
  server_name-server_part (length (c ∷ d ∷ e ∷ rest) + 1) (c ∷ d ∷ e ∷ []) rest,
)

until_slash-le : (path : List ℕ) → until_slash path ≤ length path
until_slash-le [] = omega arith
until_slash-le (c ∷ path) = ground (arith, until_slash-le path)

abbrev part_len : Option ℕ → ℕ
part_len none = 0
part_len (some n) = n

share_part-le : (path : List ℕ) → part_len (share_part path) ≤ length path
share_part-le [] = omega arith
share_part-le (c ∷ path) = ground (arith, until_slash-le path)

one_longer-le : (o : Option ℕ) → part_len (one_longer o) ≤ suc (part_len o)
one_longer-le none = omega arith
one_longer-le (some n) = omega arith

server_part-le : (path : List ℕ) → part_len (server_part path) ≤ length path
server_part-le [] = omega arith
server_part-le (c ∷ path) = elim (Bool-cases (is_slash c)) [
  | inl e ↦ ground (arith, share_part-le path, one_longer-le (share_part path))
  | inr e ↦ ground (arith, server_part-le path, one_longer-le (server_part path))
]

volume_part-le : (path : List ℕ) → volume_part path ≤ length path
volume_part-le [] = omega arith
volume_part-le (c ∷ []) = omega arith
volume_part-le (c ∷ d ∷ []) = ground arith
volume_part-le (c ∷ d ∷ e ∷ rest) = ground (arith, server_part-le rest)

-- The loops over the indices never run out of range or of fuel. The length that they give is that of
-- the volume that the slashes cut out of the path, which lies within the path; a path is absolute if
-- it has a volume with a slash behind it.
pub is_abs-volume_part :
    (path : List ℕ)
    → (volume_name_len path ≡ some (volume_part path))
      × (volume_part path ≤ length path)
      × (is_abs path
          ≡ some (not (volume_part path == 0) && starts_with_slash (drop (volume_part path) path)))
unfolding is_abs
is_abs-volume_part path = (
  volume_name_len-volume_part path,
  volume_part-le path,
  rw (is_abs, volume_name_len-volume_part path) (ground arith),
)
