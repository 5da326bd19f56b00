-- ===== src/Context/Paths/Valid.antt =====
-- Which paths `isValidFilePath` in cli/context/store/store.go accepts.
use mathlib.Core.List.{reverse, reverse-reverse, reverse-cons}
use docker_cli.Prelude.{
  ℕ, ◌≡◌, ◌≢◌, ◌↔◌, refl, sym, subst, ◌∙◌, ap, Bool, true, false, not, ◌&&◌, ◌||◌, List, [], ◌∷◌,
  ◌++◌, ◌==◌, if◌then◌else◌, All, arith, ◌⊎◌, inl, inr, Result, ok, err, Option-cases, Option, some,
  none, is_some,
}
use docker_cli.Text.{
  Text, codes, eq, split, join, contains, cut, has_prefix, strip_prefix, push_before,
}
use docker_cli.Text.Laws.{
  eq_iff, Lacks, split-cons, cut-Lacks, join-split, strip_prefix_sound, strip_prefix-append,
}
use docker_cli.Context.Paths.{
  separator, reduce, or_dot, clean, meta_file, tls_prefix, FilePathError, unexpected_file,
  unexpected_format, unexpected_backslash, is_valid_file_path,
}
use docker_cli.Context.Paths.Clean.{
  IsPlain, Reduced, Reduced-reduce, plain_lem, All-reduce, reduce-plain, split-Lacks, split-append,
  split-join, All-reverse_aux,
}

-- A name that stands for one entry of the directory it is looked up in.
abbrev pub IsComponent : Text → Type 0
IsComponent c = IsPlain c × Lacks separator c

clean-tls :
    (rest : Text)
    → clean (tls_prefix ++ rest)
      ≡ or_dot (reverse (reduce false [] (codes "tls" ∷ split rest separator)))
unfolding clean
clean-tls rest =
    ap (λ l. or_dot (reverse (reduce false [] l)))
      (split-append (codes "tls") rest separator (omega arith))

-- `or_dot` of components gives them back, unless there are none.
or_dot_lem :
    (cs : List Text) (c : ℕ) (s : Text)
    → c ≢ b'.'
    → All (Lacks separator) cs
    → or_dot cs ≡ c ∷ s
    → split (c ∷ s) separator ≡ cs
or_dot_lem [] c s n h e = absurd (n cc)
or_dot_lem (w ∷ ws) c s n h e = ap (λ t. split t separator) (sym e) ∙ split-join w ws separator h

All-IsComponent : (cs : List Text) → All IsPlain cs → All (Lacks separator) cs → All IsComponent cs
All-IsComponent [] h k = tt
All-IsComponent (c ∷ cs) (p, h) (l, k) = ((p, l), All-IsComponent cs h k)

pub unzip-IsComponent :
    (cs : List Text) → All IsComponent cs → All IsPlain cs × All (Lacks separator) cs
unzip-IsComponent [] h = (tt, tt)
unzip-IsComponent (c ∷ cs) ((p, l), h) = let (k, m) = unzip-IsComponent cs h in ((p, k), (l, m))

tls-IsPlain : IsPlain (codes "tls")
tls-IsPlain = ((λ e. cc), (λ e. cc), (λ e. cc))

pub clean_sound :
    (rest : Text)
    → clean (tls_prefix ++ rest) ≡ tls_prefix ++ rest
    → All IsComponent (split rest separator)
clean_sound rest h =
    let cs = split rest separator in
    let out = reduce false [] (codes "tls" ∷ cs) in
    let lacks = split-Lacks rest separator in
    let slashless =
      All-reduce (Lacks separator) (omega arith) (codes "tls" ∷ cs) [] (omega arith, lacks) tt in
    let parts =
      or_dot_lem (reverse out) b't' (codes "ls/" ++ rest) (omega arith)
        (All-reverse_aux (Lacks separator) out [] slashless tt) (sym (clean-tls rest) ∙ h) in
    let out-eq =
      sym (reverse-reverse out)
      ∙ ap reverse (sym parts ∙ split-append (codes "tls") rest separator (omega arith))
      ∙ reverse-cons (codes "tls") cs in
    let plain =
      plain_lem (reverse cs) (codes "tls") tls-IsPlain.2
        (subst Reduced out-eq (Reduced-reduce (codes "tls" ∷ cs) [] tt)) in
    All-IsComponent cs
      (subst (λ l. All IsPlain l) (reverse-reverse cs)
        (All-reverse_aux IsPlain (reverse cs) [] plain tt))
      lacks

pub clean_complete :
    (c : Text) (cs : List Text)
    → All IsComponent (c ∷ cs)
    → clean (tls_prefix ++ join (c ∷ cs) (separator ∷ []))
      ≡ tls_prefix ++ join (c ∷ cs) (separator ∷ [])
unfolding join
clean_complete c cs h =
    let (plain, lacks) = unzip-IsComponent (c ∷ cs) h in
    clean-tls (join (c ∷ cs) (separator ∷ []))
    ∙ ap (λ l. or_dot (reverse (reduce false [] (codes "tls" ∷ l))))
        (split-join c cs separator lacks)
    ∙ ap (λ l. or_dot (reverse l))
        (reduce-plain false (codes "tls" ∷ c ∷ cs) [] (tls-IsPlain, plain))
    ∙ ap or_dot (reverse-reverse (codes "tls" ∷ c ∷ cs))

is_some-push_before : (c : ℕ) (o : Option (Text × Text)) → is_some (push_before c o) ≡ is_some o
is_some-push_before c none = refl
is_some-push_before c (some x) = refl

contains-cons : (d c : ℕ) (s : Text) → contains (d ∷ s) (c ∷ []) ≡ (c == d || contains s (c ∷ []))
unfolding contains cut strip_prefix
contains-cons d c s = ground (arith, is_some-push_before d (cut s (c ∷ [])))

contains-Lacks : (s : Text) (c : ℕ) → (contains s (c ∷ []) ≡ false) ↔ Lacks c s
unfolding contains cut
contains-Lacks [] c = ((λ h. tt), (λ h. ap is_some (cut-Lacks [] [] c tt)))
contains-Lacks (d ∷ s) c = rw (contains-cons d c s) (ground (arith, contains-Lacks s c))

-- The path of a file below `tls`.
abbrev pub IsTlsPath : Text → Type 0
IsTlsPath p =
    (c : Text) × (cs : List Text) × All IsComponent (c ∷ cs)
    × (p ≡ tls_prefix ++ join (c ∷ cs) (separator ∷ []))

tls-path :
    (rest : Text)
    → (clean (tls_prefix ++ rest) ≡ tls_prefix ++ rest) ↔ IsTlsPath (tls_prefix ++ rest)
tls-path rest =
    let (w, ws, e) = split-cons rest separator in
    (
      (λ h. (
        w,
        ws,
        subst (λ l. All IsComponent l) e (clean_sound rest h),
        ap (λ t. tls_prefix ++ t)
            (sym (join-split rest separator) ∙ ap (λ l. join l (separator ∷ [])) e),
      )),
      (λ (c, cs, h, k). rw k (clean_complete c cs h)),
    )

prefix_lem :
    (p : Text) → (has_prefix p tls_prefix ≡ false) ⊎ ((rest : Text) × (p ≡ tls_prefix ++ rest))
unfolding has_prefix
prefix_lem p = elim (Option-cases (strip_prefix tls_prefix p)) [
  | inl e ↦ inl (rw e refl)
  | inr (rest, e) ↦ inr (rest, strip_prefix_sound tls_prefix p rest e)
]

tests_lem :
    (m t c b : Bool)
    → ◌≡◌ {A = Result FilePathError (Unit {0})}
        (if not m && not t
          then err unexpected_file
          else if not c
          then err unexpected_format
          else if b
          then err unexpected_backslash
          else ok tt)
        (ok tt)
      ↔ (((m ≡ true) ⊎ (t ≡ true)) × (c ≡ true) × (b ≡ false))
tests_lem m t c b = ground arith

valid_tests :
    (p : Text)
    → (is_valid_file_path p ≡ ok tt)
      ↔ (((p ≡ meta_file) ⊎ (has_prefix p tls_prefix ≡ true)) × (clean p ≡ p) × Lacks b'\\' p)
unfolding is_valid_file_path
valid_tests p = ground (
  arith,
  tests_lem (eq p meta_file) (has_prefix p tls_prefix) (eq (clean p) p) (contains p (codes "\\")),
  eq_iff p meta_file,
  eq_iff (clean p) p,
  contains-Lacks p b'\\',
)

clean-meta_file : clean meta_file ≡ meta_file
unfolding clean
clean-meta_file = refl

pub meta_lem : (p : Text) → p ≡ meta_file → is_valid_file_path p ≡ ok tt
meta_lem p e = (valid_tests p).1 (inl e, rw e clean-meta_file, rw e (omega arith))

path_of_prefix : (p : Text) → has_prefix p tls_prefix ≡ true → clean p ≡ p → IsTlsPath p
path_of_prefix p t c = elim (prefix_lem p) [
  | inl e ↦ cc
  | inr (rest, e) ↦ subst IsTlsPath (sym e) ((tls-path rest).0 (subst (λ q. clean q ≡ q) e c))
]

pub has_prefix-append : (p rest : Text) → has_prefix (p ++ rest) p ≡ true
unfolding has_prefix
has_prefix-append p rest = rw (strip_prefix-append p rest) refl

-- `isValidFilePath` accepts the file of the metadata, and the paths below `tls` whose components are
-- all plain names, none of them empty, `.` or `..`, and which have no backslash.
pub is_valid_file_path-IsTlsPath :
    (p : Text) → (is_valid_file_path p ≡ ok tt) ↔ ((p ≡ meta_file) ⊎ (IsTlsPath p × Lacks b'\\' p))
is_valid_file_path-IsTlsPath p = (
  (λ h.
      let (t, c, l) = (valid_tests p).0 h in
      elim t [ inl m ↦ inl m | inr e ↦ inr (path_of_prefix p e c, l) ]),
  (λ h. elim h [
    | inl m ↦ meta_lem p m
    | inr ((c, cs, k, e), l) ↦
        let rest = join (c ∷ cs) (separator ∷ []) in
        (valid_tests p).1
          (inr (rw e (has_prefix-append tls_prefix rest)), rw e (clean_complete c cs k), l)
  ]),
)
