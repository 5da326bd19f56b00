-- ===== src/Interpolation/Interpolate/Outcomes.antt =====
-- What `recursiveInterpolate` of cli/compose/interpolation/interpolation.go may make of one string.
use docker_cli.Prelude.{
  ◌≡◌, ◌≢◌, refl, subst, ◌∙◌, ap, Option, none, some, List, [], ◌∷◌, Result, ok, err, ◌⊎◌, inl, inr,
  Bool-cases, Result-cases, arith,
}
use docker_cli.Text.{Text, eq}
use docker_cli.Text.Laws.{eq_iff}
use docker_cli.Interpolation.Value.{Value, text}
use docker_cli.Interpolation.Paths.{KeyPath, get_caster_for_path}
use docker_cli.Interpolation.Interpolate.{
  Cause, template_error, foreign, cast_failed, PathError, invalid_format, while_interpolating, Cast,
  Options, new_path_error, cast_to, text_or_cast, interpolate_text,
}
use docker_cli.Interpolation.Interpolate.Leaves.{first_error}

abbrev pub path_of : {E : Type 0} → PathError E → KeyPath
path_of (invalid_format path template) = path
path_of (while_interpolating path cause) = path

abbrev pub cause_of : {E : Type 0} → PathError E → Cause E
cause_of (invalid_format path template) = template_error template
cause_of (while_interpolating path cause) = cause

new_path_error_lem :
    {E : Type 0} (path : KeyPath) (cause : Cause E)
    → (path_of (new_path_error path cause) ≡ path) × (cause_of (new_path_error path cause) ≡ cause)
unfolding new_path_error
new_path_error_lem path (template_error template) = (refl, refl)
new_path_error_lem path (foreign e) = (refl, refl)
new_path_error_lem path (cast_failed e) = (refl, refl)

module _ {E O : Type 0} where
  -- The text as it is without a cast, or what the cast gives.
  abbrev pub IsCast : Option (Cast E O) → Text → Value O → Type 0
  IsCast none new out = out ≡ text new
  IsCast (some caster) new out = caster new ≡ ok out

  -- The cast refuses the text, with that error.
  abbrev pub IsRefused : Option (Cast E O) → Text → Cause E → Type 0
  IsRefused none new cause = ⊥
  IsRefused (some caster) new cause = (x : E) × (caster new ≡ err x) × (cause ≡ cast_failed x)

  -- What a string at a path may become, by what the substitution gives and the cast for the path: a
  -- string that the substitution leaves as it is is not cast, and an error names the path.
  abbrev pub IsOutcome :
      Option (Cast E O)
      → KeyPath
      → Text
      → Text × Option (Cause E)
      → Result (PathError E) (Value O)
      → Type 0
  IsOutcome caster path s (new, some cause) (ok out) = ⊥
  IsOutcome caster path s (new, some cause) (err e) = (path_of e ≡ path) × (cause_of e ≡ cause)
  IsOutcome caster path s (new, none) (ok out) =
      ((new ≡ s) × (out ≡ text s)) ⊎ ((new ≢ s) × IsCast caster new out)
  IsOutcome caster path s (new, none) (err e) =
      (path_of e ≡ path) × (new ≢ s) × IsRefused caster new (cause_of e)

  module _ (opts : Options E O) where
    cast_to-IsOutcome :
        (caster : Option (Cast E O)) (path : KeyPath) (s new : Text)
        → new ≢ s
        → IsOutcome caster path s (new, none) (cast_to opts path caster new)
    cast_to-IsOutcome none path s new n = inr (n, refl)
    cast_to-IsOutcome (some caster) path s new n = elim (Result-cases (caster new)) [
      | inl (out, e) ↦ rw (cast_to, e) (inr (n, e))
      | inr (x, e) ↦
          let (p, c) = new_path_error_lem path (cast_failed x) in rw (cast_to, e) (p, n, (x, e, c))
    ]

    text_or_cast-IsOutcome :
        (s : Text) (path : KeyPath) (r : Text × Option (Cause E))
        → IsOutcome
            (get_caster_for_path opts.type_cast_mapping path)
            path
            s
            r
            (text_or_cast opts s path r)
    unfolding text_or_cast
    text_or_cast-IsOutcome s path (new, some cause) = new_path_error_lem path cause
    text_or_cast-IsOutcome s path (new, none) = elim (Bool-cases (eq new s)) [
      | inl e ↦ rw (text_or_cast, e) (inl ((eq_iff new s).0 e, refl))
      | inr e ↦
          rw (text_or_cast, e)
            (cast_to-IsOutcome (get_caster_for_path opts.type_cast_mapping path) path s new
              (λ q. ground (arith, (eq_iff new s).1 q)))
    ]

    -- The outcome of a string at its path.
    abbrev pub Becomes : KeyPath → Text → Result (PathError E) (Value O) → Type 0
    Becomes path s r =
        IsOutcome (get_caster_for_path opts.type_cast_mapping path) path s
          (opts.substitute s opts.lookup_value) r

    pub interpolate_text-Becomes :
        (s : Text) (path : KeyPath) → Becomes path s (interpolate_text opts s path)
    unfolding interpolate_text
    interpolate_text-Becomes s path =
        text_or_cast-IsOutcome s path (opts.substitute s opts.lookup_value)

    pub text_outcome_lem :
        (s : Text) (path : KeyPath) (r : Result (PathError E) (Value O))
        → interpolate_text opts s path ≡ r
        → Becomes path s r
    text_outcome_lem s path r e = subst (Becomes path s) e (interpolate_text-Becomes s path)

    -- The first string that fails, behind strings that do not, fails with the error.
    abbrev pub FailsFirst : List (KeyPath × Text) → PathError E → Type 0
    FailsFirst [] e = ⊥
    FailsFirst ((path, s) ∷ rest) e =
        Becomes path s (err e) ⊎ (((out : Value O) × Becomes path s (ok out)) × FailsFirst rest e)

    pub first_error-FailsFirst :
        (strings : List (KeyPath × Text)) (e : PathError E)
        → first_error opts strings ≡ some e
        → FailsFirst strings e
    first_error-FailsFirst [] e h = cc
    first_error-FailsFirst ((path, s) ∷ rest) e h =
        elim (Result-cases (interpolate_text opts s path)) [
          | inl (out, q) ↦ inr (
            (out, text_outcome_lem s path (ok out) q),
            first_error-FailsFirst rest e (rw (first_error, q) at h),
          )
          | inr (f, q) ↦
              let same : ◌≡◌ {A = Option (PathError E)} (some f) (some e) =
                rw (first_error, q) at h in
              inl (text_outcome_lem s path (err e) (q ∙ ap err cc))
        ]
