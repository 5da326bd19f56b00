-- ===== src/Context/Limited.antt =====
-- The `LimitedReader` of cli/context/store/io_utils.go.
use docker_cli.Prelude.{
  ℕ, zero, suc, ◌-◌, ◌*◌, ◌^◌, ◌≤◌, ltb, ◌≡◌, refl, ap, Option, none, some, List, [], ◌∷◌, ◌++◌,
  length, length-append, take, arith, if◌then◌else◌, false,
}
use docker_cli.Text.{Text}

-- What is read up to the end: what was read, and the error that ends it where it does not end with
-- `io.EOF`.
abbrev pub Contents {ℓ} : Type ℓ → Type ℓ
Contents E = Text × Option E

abbrev before {ℓ} : {E : Type ℓ} → Text → Contents E → Contents E
before read (rest, failure) = (read ++ rest, failure)

-- What `Read` gives in turn where at most `n` bytes remain. The list has what the reader below would
-- give for the buffer of each call, and the end of it is an error or `io.EOF`. The buffer is cut to
-- `n + 1` bytes; `n` is below 0 behind a call that fills it, and then the error is `exceeds`.
unfoldable pub limited {ℓ} : {E : Type ℓ} → E → ℕ → List Text → Option E → Contents E
limited exceeds zero _ failure = ([], none)
limited exceeds (suc n) [] failure = ([], failure)
limited exceeds (suc n) (p ∷ ps) failure =
    let rest = limited exceeds (suc n - length p) ps failure in
    if ltb (suc n) (length p) then (take (suc (suc n)) p, some exceeds) else before p rest

-- `maxAllowedFileSizeToImport`
abbrev pub max_allowed_file_size_to_import : ℕ
max_allowed_file_size_to_import = 10 * 2 ^ 20

abbrev pub joined : List Text → Text
joined [] = []
joined (p ∷ ps) = p ++ joined ps

empty_lem : (t : Text) → length t ≤ 0 → [] ≡ t
empty_lem [] h = refl
empty_lem (c ∷ t) h = absurd (omega arith)

-- What is no longer than the limit is read whole.
pub limited-joined {ℓ} :
    {E : Type ℓ} (exceeds : E) (n : ℕ) (ps : List Text)
    → length (joined ps) ≤ n
    → limited exceeds n ps none ≡ (joined ps, none)
unfolding limited
limited-joined exceeds zero ps h = ap (λ t. (t, none)) (empty_lem (joined ps) h)
limited-joined exceeds (suc n) [] h = refl
limited-joined exceeds (suc n) (p ∷ ps) h =
    let l = length-append p (joined ps) in
    let fits : ltb (suc n) (length p) ≡ false = ground (arith, l) in
    rw fits (ap (before p) (limited-joined exceeds (suc n - length p) ps (omega (arith, l))))
