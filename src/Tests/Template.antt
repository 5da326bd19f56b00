-- ===== src/Tests/Template.antt =====
-- cli/compose/template/template.go on concrete texts.
use docker_cli.Prelude.{◌≡◌, refl, true, false, none, some, [], ◌∷◌, ◌++◌, arith, if◌then◌else◌}
use docker_cli.Text.{codes, eq}
use docker_cli.Template.Functions.{Mapping, missing, invalid_template, default_functions}
use docker_cli.Template.Pattern.{is_open, is_name, is_start}
use docker_cli.Template.Escape.{escape, substitute_with-escape}
use docker_cli.Template.Substitute.{substitute_with}
use docker_cli.Template.Meaning.{if_empty, need_value, plain, spelling}
use docker_cli.Template.Braces.{braces, substitute-meaning, substitute_two, substitute_dash}
use docker_cli.Template.Substitute.{substitute}
use docker_cli.Template.Extract.{extract_variable}

abbrev environment : Mapping
environment name =
    if eq name (codes "FOO")
    then (codes "first", true)
    else if eq name (codes "EMPTY")
    then ([], true)
    else ([], false)

substitute_test :
    substitute (codes "a ${FOO} $FOO.b $$x ${BAR:-d} ${EMPTY-no}") environment
    ≡ (codes "a first first.b $x d ", none)
unfolding substitute eq
substitute_test = refl

substitute_required :
    (substitute (codes "${BAR:?is missing}") environment)
    ≡ ([], some (missing (codes "BAR") (codes "is missing")))
unfolding substitute eq
substitute_required = refl

substitute_swallowed :
    (substitute (codes "${BAR:?is missing} ${FOO}") environment) ≡ (codes " first", none)
unfolding substitute eq
substitute_swallowed = refl

substitute_dash_test :
    (substitute (codes "${BAR:?must-be set}") environment) ≡ (codes "be set", none)
unfolding substitute eq
substitute_dash_test = refl

substitute_invalid :
    (substitute (codes "${ x") environment) ≡ (codes "{ x", some (invalid_template (codes "${ x")))
unfolding substitute eq
substitute_invalid = refl

extract_test : extract_variable (codes "${A:?x-y} $B $$C ${D-e}") ≡ (
    record { name = codes "A"; value = [] }
    ∷ record { name = codes "B"; value = [] }
    ∷ record { name = codes "D"; value = codes "e" }
    ∷ [])
unfolding extract_variable
extract_test = refl

substitute-meaning_example :
    substitute
      (codes "x=" ++ (braces (codes "BAR" ++ spelling (if_empty (codes "a:-b"))) ++ codes "!"))
      environment
    ≡ (codes "x=a:-b!", none)
unfolding is_start is_name is_open eq
substitute-meaning_example =
    substitute-meaning (codes "BAR") (if_empty (codes "a:-b")) environment (codes "x=") (codes "!")
      (refl, (refl, (refl, tt))) (refl, (refl, (refl, (refl, tt)))) (omega arith) (omega arith)

substitute_two_example :
    substitute
      (braces (codes "BAR" ++ spelling (need_value (codes "gone")))
        ++ (codes "," ++ (braces (codes "FOO" ++ spelling plain) ++ codes ".")))
      environment
    ≡ (codes ",first.", none)
unfolding is_start is_name is_open eq
substitute_two_example =
    substitute_two (codes "BAR") (codes "FOO") (need_value (codes "gone")) plain environment
      (codes ",") (codes ".") (refl, (refl, (refl, tt)))
      ((refl, (refl, (refl, (refl, tt)))), omega arith) (refl, (refl, (refl, tt))) tt (omega arith)
      (omega arith)

substitute_dash_example :
    substitute
      (braces (codes "FOO" ++ (b':' ∷ b'?' ∷ (codes "must" ++ (b'-' ∷ codes "be")))))
      environment
    ≡ (codes "be", none)
unfolding is_start is_name is_open eq
substitute_dash_example =
    substitute_dash (codes "FOO") (codes "must") (codes "be") environment (refl, (refl, (refl, tt)))
      (refl, (refl, (refl, (refl, (refl, (refl, (refl, tt))))))) (omega arith) (omega arith)
      (omega arith)

substitute_with-escape_example :
    substitute_with (escape (codes "5$ for $x")) environment default_functions
    ≡ (codes "5$ for $x", none)
substitute_with-escape_example =
    substitute_with-escape (codes "5$ for $x") environment default_functions
