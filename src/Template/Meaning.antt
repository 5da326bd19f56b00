-- ===== src/Template/Meaning.antt =====
-- What a substitution means, stated apart from the functions of
-- cli/compose/template/template.go that are tried in turn.
use docker_cli.Prelude.{
  ℕ, ◌≡◌, ◌≢◌, refl, sym, ap, ◌∙◌, Bool, true, false, not, ◌&&◌, inl, inr, Option, none, some, [],
  ◌∷◌, ◌++◌, if◌then◌else◌, arith, append_assoc, All, All-append, append-nil,
}
use docker_cli.Text.{strip_prefix, Text, codes, cut}
use docker_cli.Text.Laws.{
  cut-append_none, cut-cons_none, Lacks, cut-append, cut-Lacks, cut-Lacks_second,
}
use docker_cli.Template.Pattern.{is_name, is_start, is_open}
use docker_cli.Template.Matching.{IsName, IsModifier, IsSubst}
use docker_cli.Template.Functions.{
  Mapping, Error, missing, skipped, value, failed, is_empty, soft_default, hard_default,
  with_required, required_non_empty, required, default_functions,
}
use docker_cli.Template.Substitute.{run_functions}

-- The modifiers of a variable: `-d`, `:-d`, `?e`, `:?e`.
pub data Modifier : Type 0 where
  plain : Modifier
  if_unset if_empty need_set need_value : Text → Modifier

abbrev pub spelling : Modifier → Text
spelling plain = []
spelling (if_unset d) = b'-' ∷ d
spelling (if_empty d) = b':' ∷ b'-' ∷ d
spelling (need_set e) = b'?' ∷ e
spelling (need_value e) = b':' ∷ b'?' ∷ e

-- Where the first separator that the functions look for is the one written: no text holds a `}`, and
-- no `:` or `-` that would be read as another separator.
abbrev pub IsClean : Modifier → Type 0
IsClean plain = Unit
IsClean (if_unset d) = All (λ c. is_open c ≡ true) d × Lacks b':' d
IsClean (if_empty d) = All (λ c. is_open c ≡ true) d
IsClean (need_set e) = All (λ c. is_open c ≡ true) e × Lacks b':' e × Lacks b'-' e
IsClean (need_value e) = All (λ c. is_open c ≡ true) e × Lacks b'-' e

-- The value of the variable or the default, or an error.
abbrev pub meaning : Modifier → Text → Text × Bool → Text × Option Error
meaning plain name (v, set) = (v, none)
meaning (if_unset d) name (v, set) = (if set then v else d, none)
meaning (if_empty d) name (v, set) = (if set && not (is_empty v) then v else d, none)
meaning (need_set e) name (v, set) = if set then (v, none) else ([], some (missing name e))
meaning (need_value e) name (v, set) =
    if set && not (is_empty v) then (v, none) else ([], some (missing name e))

name-Lacks : (n : Text) (c : ℕ) → is_name c ≡ false → All (λ d. is_name d ≡ true) n → Lacks c n
name-Lacks [] c f h = tt
name-Lacks (d ∷ n) c f (e, h) = ((λ q. cc (ap is_name q)), name-Lacks n c f h)

IsName-Lacks : (n : Text) (c : ℕ) → is_name c ≡ false → IsName n → Lacks c n
unfolding is_name
IsName-Lacks [] c f h = elim h [ ]
IsName-Lacks (d ∷ n) c f (e, h) = ((λ q. cc (ap is_start q)), name-Lacks n c f h)

module _ (t : Text) (m : Mapping) where
  soft_default-skipped : cut t (codes ":-") ≡ none → soft_default t m ≡ skipped
  unfolding soft_default
  soft_default-skipped e = rw e

  soft_default-value :
      (n d : Text)
      → cut t (codes ":-") ≡ some (n, d)
      → soft_default t m ≡ value (if (m n).1 && not (is_empty (m n).0) then (m n).0 else d)
  unfolding soft_default
  soft_default-value n d e = ground arith

  hard_default-skipped : cut t (codes "-") ≡ none → hard_default t m ≡ skipped
  unfolding hard_default
  hard_default-skipped e = rw e

  hard_default-value :
      (n d : Text)
      → cut t (codes "-") ≡ some (n, d)
      → hard_default t m ≡ value (if (m n).1 then (m n).0 else d)
  unfolding hard_default
  hard_default-value n d e = ground arith

  with_required-skipped :
      (sep : Text) (valid : Text → Bool) → cut t sep ≡ none → with_required t m sep valid ≡ skipped
  unfolding with_required
  with_required-skipped sep valid e = rw e

  with_required-value :
      (sep : Text) (valid : Text → Bool) (n e : Text)
      → cut t sep ≡ some (n, e)
      → with_required t m sep valid
        ≡ (if (m n).1 && valid (m n).0 then value (m n).0 else failed (missing n e))
  unfolding with_required
  with_required-value sep valid n e h = ground arith

module _ (n : Text) (m : Mapping) (err : Option Error) (h : IsName n) where
  no_colon : Lacks b':' n
  no_colon = IsName-Lacks n b':' (unfold is_name in refl) h

  no_dash : Lacks b'-' n
  no_dash = IsName-Lacks n b'-' (unfold is_name in refl) h

  no_question : Lacks b'?' n
  no_question = IsName-Lacks n b'?' (unfold is_name in refl) h

  pub run_functions-meaning :
      (f : Modifier)
      → IsClean f
      → run_functions default_functions (n ++ spelling f) m err ≡ meaning f n (m n)
  unfolding run_functions required_non_empty required
  run_functions-meaning plain k = rw append-nil (
      ground (
        arith,
        soft_default-skipped n m (cut-Lacks n (codes "-") b':' no_colon),
        hard_default-skipped n m (cut-Lacks n [] b'-' no_dash),
        with_required-skipped n m (codes ":?") (λ v. not (is_empty v))
            (cut-Lacks n (codes "?") b':' no_colon),
        with_required-skipped n m (codes "?") (λ v. true) (cut-Lacks n [] b'?' no_question),
      ))
  run_functions-meaning (if_unset d) k =
      let colons = All-append (λ c. c ≢ b':') n (b'-' ∷ d) no_colon ((λ e. omega arith), k.1) in
      ground (
        arith,
        soft_default-skipped (n ++ b'-' ∷ d) m (cut-Lacks (n ++ b'-' ∷ d) (codes "-") b':' colons),
        hard_default-value (n ++ b'-' ∷ d) m n d (cut-append n [] d b'-' no_dash),
      )
  run_functions-meaning (if_empty d) k = ground (
    arith,
    soft_default-value (n ++ b':' ∷ b'-' ∷ d) m n d (cut-append n (codes "-") d b':' no_colon),
  )
  run_functions-meaning (need_set e) k =
      let t = n ++ b'?' ∷ e in
      let colons = All-append (λ c. c ≢ b':') n (b'?' ∷ e) no_colon ((λ q. omega arith), k.1) in
      let dashes = All-append (λ c. c ≢ b'-') n (b'?' ∷ e) no_dash ((λ q. omega arith), k.2) in
      ground (
        arith,
        soft_default-skipped t m (cut-Lacks t (codes "-") b':' colons),
        hard_default-skipped t m (cut-Lacks t [] b'-' dashes),
        with_required-skipped t m (codes ":?") (λ v. not (is_empty v))
            (cut-Lacks t (codes "?") b':' colons),
        with_required-value t m (codes "?") (λ v. true) n e (cut-append n [] e b'?' no_question),
      )
  run_functions-meaning (need_value e) k =
      let t = n ++ b':' ∷ b'?' ∷ e in
      let dashes =
        All-append (λ c. c ≢ b'-') n (b':' ∷ b'?' ∷ e) no_dash
          ((λ q. omega arith), ((λ q. omega arith), k.1)) in
      ground (
        arith,
        soft_default-skipped t m (cut-Lacks_second t [] b':' b'-' dashes),
        hard_default-skipped t m (cut-Lacks t [] b'-' dashes),
        with_required-value t m (codes ":?") (λ v. not (is_empty v)) n e
            (cut-append n (codes "?") e b':' no_colon),
      )

  -- `:?e-d` with no separator in `e` or `d` goes by the dash.
  dash_cut :
      (e d : Text)
      → Lacks b':' e
      → Lacks b':' d
      → cut (n ++ (b':' ∷ b'?' ∷ (e ++ b'-' ∷ d))) (codes ":-") ≡ none
  dash_cut e d ce cd =
      let rest = e ++ b'-' ∷ d in
      let lacks = All-append (λ c. c ≢ b':') e (b'-' ∷ d) ce ((λ q. omega arith), cd) in
      cut-append_none n (b':' ∷ b'?' ∷ rest) (codes "-") b':' no_colon (
        cut-cons_none b':' b'?' rest (codes "-") (unfold strip_prefix in refl)
          (cut-Lacks (b'?' ∷ rest) (codes "-") b':' ((λ q. omega arith), lacks)))

  pub run_functions_dash :
      (e d : Text)
      → Lacks b':' e
      → Lacks b'-' e
      → Lacks b':' d
      → (let name = n ++ (b':' ∷ b'?' ∷ e) in
          run_functions default_functions (n ++ (b':' ∷ b'?' ∷ (e ++ b'-' ∷ d))) m err
          ≡ (if (m name).1 then (m name).0 else d, none))
  unfolding run_functions
  run_functions_dash e d ce de cd =
      let name = n ++ (b':' ∷ b'?' ∷ e) in
      let t = n ++ (b':' ∷ b'?' ∷ (e ++ b'-' ∷ d)) in
      let lacks =
        All-append (λ c. c ≢ b'-') n (b':' ∷ b'?' ∷ e) no_dash
          ((λ q. omega arith), ((λ q. omega arith), de)) in
      let at : cut t (codes "-") ≡ some (name, d) =
        ap (λ x. cut x (codes "-")) (sym (append_assoc n (b':' ∷ b'?' ∷ e) (b'-' ∷ d)))
        ∙ cut-append name [] d b'-' lacks in
      ground
        (arith, soft_default-skipped t m (dash_cut e d ce cd), hard_default-value t m name d at)

spelling-IsModifier : (f : Modifier) → IsClean f → IsModifier (spelling f)
spelling-IsModifier plain k = tt
spelling-IsModifier (if_unset d) k = inr (refl, k.0)
spelling-IsModifier (if_empty d) k = inl (refl, (refl, k))
spelling-IsModifier (need_set e) k = inr (refl, k.0)
spelling-IsModifier (need_value e) k = inl (refl, (refl, k.0))

pub IsSubst-spelling : (n : Text) (f : Modifier) → IsName n → IsClean f → IsSubst (n ++ spelling f)
IsSubst-spelling n f h k = record {
  name = n;
  modifier = spelling f;
  parts = refl;
  is_name = h;
  is_modifier = spelling-IsModifier f k;
}
