-- ===== src/Template/Braces.antt =====
-- A substitution in braces between two texts, by cli/compose/template/template.go.
use docker_cli.Prelude.{
  inl, append-nil, All, true, if◌then◌else◌, ◌≡◌, refl, sym, ap, ◌∙◌, Option, none, List, [], ◌∷◌,
  ◌++◌, append_assoc, map,
}
use docker_cli.Text.{Text}
use docker_cli.Text.Laws.{Lacks}
use docker_cli.Template.Pattern.{is_open, braced, lit, hit, pieces}
use docker_cli.Template.Matching.{IsName, IsSubst, read_match-braced}
use docker_cli.Template.Pieces.{pieces-hit}
use docker_cli.Template.Functions.{Mapping, Error, Applied, default_functions}
use docker_cli.Template.Replace.{
  replace-braced, replace_all-append, replace_all-map-lit, replace_all-hit, pieces-Lacks,
  replace_all-plain,
}
use docker_cli.Template.Substitute.{run_functions, replace_all, substitute}
use docker_cli.Template.Meaning.{
  Modifier, spelling, IsClean, meaning, IsSubst-spelling, run_functions-meaning, run_functions_dash,
}

-- `${t}`
abbrev pub braces : Text → Text
braces t = b'$' ∷ b'{' ∷ (t ++ (b'}' ∷ []))

pub pieces-braces :
    (pre t post : Text)
    → Lacks b'$' pre
    → IsSubst t
    → pieces (pre ++ (braces t ++ post)) ≡ map lit pre ++ (hit (braced t) ∷ pieces post)
pieces-braces pre t post hp h =
    pieces-Lacks pre (braces t ++ post) hp
    ∙ ap (λ ps. map lit pre ++ ps)
        (ap pieces (ap (λ x. b'$' ∷ b'{' ∷ x) (append_assoc t (b'}' ∷ []) post))
          ∙ pieces-hit _ (braced t) post (read_match-braced t post h))

module _ (template : Text) (mapping : Mapping) (functions : List (Text → Mapping → Applied)) where
  -- One substitution behind a text with no `$`: the functions run on it, and then the walk goes on.
  pub replace_all-braces :
      (pre t post : Text) (err : Option Error)
      → Lacks b'$' pre
      → IsSubst t
      → (let r = run_functions functions t mapping err in
          let after = replace_all template mapping functions (pieces post) r.1 in
          replace_all template mapping functions (pieces (pre ++ (braces t ++ post))) err
          ≡ (pre ++ (r.0 ++ after.0), after.1))
  replace_all-braces pre t post err hp h = rw (pieces-braces pre t post hp h) (
      rw
        (replace_all-append template mapping functions (map lit pre) (hit (braced t) ∷ pieces post)
          err)
        (rw (replace_all-map-lit template mapping functions pre err) (
          rw (
            replace_all-hit template mapping functions (braced t) (pieces post) err _ _
              (replace-braced template mapping functions t err h)))))

-- A variable with a modifier in braces, between two texts with no `$`, is replaced by what it means,
-- and the error is the one that it means. The modifier is clean: its text holds no `}`, and none of
-- the separators that would be found before its own. A variable with `-` gets its default only where
-- it is not set: where it is set and empty, the text is empty, against the comment of `hardDefault`.
pub substitute-meaning :
    (n : Text) (f : Modifier) (m : Mapping) (pre post : Text)
    → IsName n
    → IsClean f
    → Lacks b'$' pre
    → Lacks b'$' post
    → substitute (pre ++ (braces (n ++ spelling f) ++ post)) m
      ≡ (pre ++ ((meaning f n (m n)).0 ++ post), (meaning f n (m n)).1)
unfolding substitute
substitute-meaning n f m pre post h k hp hq =
    let template = pre ++ (braces (n ++ spelling f) ++ post) in
    rw
      (replace_all-braces template m default_functions pre (n ++ spelling f) post none hp
        (IsSubst-spelling n f h k))
      (rw (run_functions-meaning n m none h f k)
        (rw (replace_all-plain template m default_functions post (meaning f n (m n)).1 hq)))

-- With two such substitutions the error of the whole is that of the second alone: an error of the
-- first is lost, and the text that is returned has nothing in its place.
pub substitute_two :
    (n n' : Text) (f f' : Modifier) (m : Mapping) (mid post : Text)
    → IsName n
    → IsClean f
    → IsName n'
    → IsClean f'
    → Lacks b'$' mid
    → Lacks b'$' post
    → substitute (braces (n ++ spelling f) ++ (mid ++ (braces (n' ++ spelling f') ++ post))) m ≡ (
      (meaning f n (m n)).0 ++ (mid ++ ((meaning f' n' (m n')).0 ++ post)),
      (meaning f' n' (m n')).1,
    )
unfolding substitute
substitute_two n n' f f' m mid post h k h' k' hm hq =
    let rest = mid ++ (braces (n' ++ spelling f') ++ post) in
    let template = braces (n ++ spelling f) ++ rest in
    rw
      (replace_all-braces template m default_functions [] (n ++ spelling f) rest none tt
        (IsSubst-spelling n f h k))
      (rw (run_functions-meaning n m none h f k) (
        rw
          (replace_all-braces template m default_functions mid (n' ++ spelling f') post
            (meaning f n (m n)).1 hm (IsSubst-spelling n' f' h' k'))
          (rw (run_functions-meaning n' m (meaning f n (m n)).1 h' f' k') (
            rw (replace_all-plain template m default_functions post (meaning f' n' (m n')).1 hq)))))

-- A message of `:?` with a `-` in it is read as a default, where neither part of the message holds
-- a `:`: whatever the value of the variable, the result depends only on the variable whose name is
-- all that stands before the dash, and there is no error.
pub substitute_dash :
    (n e d : Text) (m : Mapping)
    → IsName n
    → All (λ c. is_open c ≡ true) (e ++ b'-' ∷ d)
    → Lacks b':' e
    → Lacks b'-' e
    → Lacks b':' d
    → (let name = n ++ (b':' ∷ b'?' ∷ e) in
        substitute (braces (n ++ (b':' ∷ b'?' ∷ (e ++ b'-' ∷ d)))) m
        ≡ (if (m name).1 then (m name).0 else d, none))
unfolding substitute
substitute_dash n e d m h o ce de cd =
    let t = n ++ (b':' ∷ b'?' ∷ (e ++ b'-' ∷ d)) in
    let grammar : IsSubst t = record {
      name = n;
      modifier = b':' ∷ b'?' ∷ (e ++ b'-' ∷ d);
      parts = refl;
      is_name = h;
      is_modifier = inl (refl, (refl, o));
    } in
    rw
      (ap (λ x. replace_all (braces t) m default_functions (pieces (b'$' ∷ b'{' ∷ x)) none)
        (sym (append-nil (t ++ b'}' ∷ []))))
      (rw (replace_all-braces (braces t) m default_functions [] t [] none tt grammar)
        (rw (run_functions_dash n m none h e d ce de cd) (ap (λ x. (x, none)) (append-nil _))))
