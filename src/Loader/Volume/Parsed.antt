-- ===== src/Loader/Volume/Parsed.antt =====
-- What `ParseVolume` of cli/compose/loader/volume.go makes of two, three and more sections.
use docker_cli.Prelude.{
  ℕ, ◌+◌, ◌≤◌, ◌==◌, leb, ◌≡◌, refl, ap, ◌∙◌, Bool, false, Option, none, some, List, [], ◌∷◌, ◌++◌,
  append_assoc, arith, length, length-append,
}
use docker_cli.Text.{Text, split}
use docker_cli.Loader.Volume.{
  VolumeConfig, VolumeError, too_many_colons, empty_config, byte_len, colon, end_of_spec,
  populate_options, populate_field, populate_type, parse_chars, parse_volume, with_source,
  with_target,
}
use docker_cli.Loader.Volume.Described.{described, described_lem}
use docker_cli.Loader.Volume.Sections.{
  Section, read, behind, read-colon, read_end, Section-is_empty,
}

byte_len_positive : (c : ℕ) (s : Text) → 1 + byte_len s ≤ byte_len (c ∷ s)
byte_len_positive c s = ground arith

length-byte_len : (s : Text) → length s ≤ byte_len s
length-byte_len [] = omega arith
length-byte_len (c ∷ s) = ground (arith, length-byte_len s, byte_len_positive c s)

module _ (propagations : List Text) (is_letter : ℕ → Bool) where
  -- A specification of more than two characters is read by the loop.
  long_lem :
      (spec : Text) (r : VolumeConfig × Option VolumeError)
      → 3 ≤ length spec
      → read propagations is_letter (spec ++ end_of_spec ∷ []) [] empty_config ≡ r
      → parse_volume propagations is_letter spec ≡ (populate_type propagations is_letter r.0, r.1)
  unfolding parse_volume
  long_lem spec r n h =
      let l = length-byte_len spec in
      let e0 : (byte_len spec == 0) ≡ false = ground arith in
      let e1 : leb (byte_len spec) 2 ≡ false = ground arith in
      rw (parse_volume, e0, e1) (ap (λ q. (populate_type propagations is_letter q.0, q.1)) h)

  module _ (s t : Text) (hs : Section propagations is_letter s)
      (ht : Section propagations is_letter t) where
    abbrev pub with_both : VolumeConfig
    with_both = with_target propagations t (with_source propagations s empty_config)

    source_lem :
        populate_field propagations colon s empty_config
        ≡ (with_source propagations s empty_config, none)
    unfolding populate_field
    source_lem = rw (Section-is_empty propagations is_letter s hs) refl

    target_lem :
        (char : ℕ)
        → populate_field propagations char t (with_source propagations s empty_config)
          ≡ (with_both, none)
    unfolding populate_field
    target_lem char =
        rw
          (
            Section-is_empty propagations is_letter s hs,
            Section-is_empty propagations is_letter t ht,
          )
          refl

    read_both :
        (rest : Text)
        → read propagations is_letter (s ++ colon ∷ (t ++ colon ∷ rest)) [] empty_config
          ≡ read propagations is_letter rest [] with_both
    read_both rest =
        read-colon propagations is_letter s (t ++ colon ∷ rest) empty_config hs
        ∙ ap (behind propagations is_letter (t ++ colon ∷ rest)) source_lem
        ∙ read-colon propagations is_letter t rest (with_source propagations s empty_config) ht
        ∙ ap (behind propagations is_letter rest) (target_lem colon)

    nothing_left :
        (config : VolumeConfig) → read propagations is_letter [] [] config ≡ (config, none)
    unfolding parse_chars
    nothing_left config = refl

    read_two :
        read propagations is_letter ((s ++ colon ∷ t) ++ end_of_spec ∷ []) [] empty_config
        ≡ (with_both, none)
    read_two =
        ap (λ x. read propagations is_letter x [] empty_config)
          (append_assoc s (colon ∷ t) (end_of_spec ∷ []))
        ∙ read-colon propagations is_letter s (t ++ end_of_spec ∷ []) empty_config hs
        ∙ ap (behind propagations is_letter (t ++ end_of_spec ∷ [])) source_lem
        ∙ read_end propagations is_letter t (with_source propagations s empty_config) ht
        ∙ ap (behind propagations is_letter []) (target_lem end_of_spec)
        ∙ nothing_left with_both

    options_lem :
        (m : Text)
        → Section propagations is_letter m
        → populate_field propagations end_of_spec m with_both
          ≡ (populate_options propagations (split m b',') with_both, none)
    unfolding populate_field
    options_lem m hm =
        rw
          (
            Section-is_empty propagations is_letter s hs,
            Section-is_empty propagations is_letter t ht,
            Section-is_empty propagations is_letter m hm,
          )
          refl

    many_lem :
        (m : Text)
        → Section propagations is_letter m
        → populate_field propagations colon m with_both ≡ (with_both, some too_many_colons)
    unfolding populate_field
    many_lem m hm =
        rw
          (
            Section-is_empty propagations is_letter s hs,
            Section-is_empty propagations is_letter t ht,
            Section-is_empty propagations is_letter m hm,
          )
          refl

    module _ (m : Text) (hm : Section propagations is_letter m) where
      read_three :
          read propagations is_letter
            ((s ++ colon ∷ (t ++ colon ∷ m)) ++ end_of_spec ∷ [])
            []
            empty_config
          ≡ (populate_options propagations (split m b',') with_both, none)
      read_three =
          ap (λ x. read propagations is_letter x [] empty_config)
            (append_assoc s (colon ∷ (t ++ colon ∷ m)) (end_of_spec ∷ [])
              ∙ ap (λ y. s ++ colon ∷ y) (append_assoc t (colon ∷ m) (end_of_spec ∷ [])))
          ∙ read_both (m ++ end_of_spec ∷ [])
          ∙ read_end propagations is_letter m with_both hm
          ∙ ap (behind propagations is_letter []) (options_lem m hm)
          ∙ nothing_left (populate_options propagations (split m b',') with_both)

      read_four :
          (rest : Text)
          → read propagations is_letter
              ((s ++ colon ∷ (t ++ colon ∷ (m ++ colon ∷ rest))) ++ end_of_spec ∷ [])
              []
              empty_config
            ≡ (with_both, some too_many_colons)
      read_four rest =
          ap (λ x. read propagations is_letter x [] empty_config)
            (append_assoc s (colon ∷ (t ++ colon ∷ (m ++ colon ∷ rest))) (end_of_spec ∷ [])
              ∙ ap (λ y. s ++ colon ∷ y)
                  (append_assoc t (colon ∷ (m ++ colon ∷ rest)) (end_of_spec ∷ [])
                    ∙ ap (λ z. t ++ colon ∷ z) (append_assoc m (colon ∷ rest) (end_of_spec ∷ []))))
          ∙ read_both (m ++ colon ∷ (rest ++ end_of_spec ∷ []))
          ∙ read-colon propagations is_letter m (rest ++ end_of_spec ∷ []) with_both hm
          ∙ ap (behind propagations is_letter (rest ++ end_of_spec ∷ [])) (many_lem m hm)

  Section-length : (s : Text) → Section propagations is_letter s → 1 ≤ length s
  Section-length [] h = elim h [ ]
  Section-length (c ∷ s) h = omega arith

  long_enough :
      (s rest : Text)
      → Section propagations is_letter s
      → 1 ≤ length rest
      → 3 ≤ length (s ++ colon ∷ rest)
  long_enough s rest h n = omega (arith, length-append s (colon ∷ rest), Section-length s h)

  not_empty : (t rest : Text) → 1 ≤ length (t ++ colon ∷ rest)
  not_empty t rest = omega (arith, length-append t (colon ∷ rest))

-- Two sections are the source and the target, which are bound where the source is a path and a named
-- volume where it is not. The options of a third are read as they stand last: the mode, `nocopy`, and
-- the propagation. A fourth section is an error, and its options are not read. A section is a text that
-- is not empty, not one letter, and has no colon but that of a drive in front.
pub parse_volume-sections :
    (propagations : List Text) (is_letter : ℕ → Bool) (s t m rest : Text)
    → Section propagations is_letter s
    → Section propagations is_letter t
    → Section propagations is_letter m
    → (parse_volume propagations is_letter (s ++ colon ∷ t)
        ≡ (described propagations is_letter s t [], none))
      × (parse_volume propagations is_letter (s ++ colon ∷ (t ++ colon ∷ m))
          ≡ (described propagations is_letter s t (split m b','), none))
      × (parse_volume propagations is_letter (s ++ colon ∷ (t ++ colon ∷ (m ++ colon ∷ rest)))
          ≡ (described propagations is_letter s t [], some too_many_colons))
unfolding populate_options
parse_volume-sections propagations is_letter s t m rest hs ht hm = (
  long_lem propagations is_letter (s ++ colon ∷ t) _
        (long_enough propagations is_letter s t hs (Section-length propagations is_letter t ht))
        (read_two propagations is_letter s t hs ht)
      ∙ ap (λ c. (c, none)) (described_lem propagations is_letter s t [] hs),
  long_lem propagations is_letter (s ++ colon ∷ (t ++ colon ∷ m)) _
        (long_enough propagations is_letter s (t ++ colon ∷ m) hs
          (not_empty propagations is_letter t m))
        (read_three propagations is_letter s t hs ht m hm)
      ∙ ap (λ c. (c, none)) (described_lem propagations is_letter s t (split m b',') hs),
  long_lem propagations is_letter (s ++ colon ∷ (t ++ colon ∷ (m ++ colon ∷ rest))) _
        (long_enough propagations is_letter s (t ++ colon ∷ (m ++ colon ∷ rest)) hs
          (not_empty propagations is_letter t (m ++ colon ∷ rest)))
        (read_four propagations is_letter s t hs ht m hm rest)
      ∙ ap (λ c. (c, some too_many_colons)) (described_lem propagations is_letter s t [] hs),
)
