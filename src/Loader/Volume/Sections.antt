-- ===== src/Loader/Volume/Sections.antt =====
-- How the sections of a volume in cli/compose/loader/volume.go are read.
use docker_cli.Prelude.{
  ℕ, ◌==◌, ◌≡◌, ◌≢◌, refl, ap, ◌∙◌, Bool, true, false, ◌||◌, Option, none, some, List, [], ◌∷◌,
  ◌++◌, append_assoc, append-nil, arith, ◌⊎◌, inl, inr, Bool-cases,
}
use docker_cli.Text.{Text}
use docker_cli.Text.Laws.{Lacks}
use docker_cli.Template.Functions.{is_empty}
use docker_cli.Loader.Volume.{
  VolumeConfig, VolumeError, colon, end_of_spec, is_windows_drive, populate_field, parse_chars,
}

module _ (propagations : List Text) (is_letter : ℕ → Bool) where
  -- A text that the loop reads to its end: no colon in it but that of a drive in front, and not a
  -- letter alone.
  abbrev pub Section : Text → Type 0
  Section [] = ⊥
  Section (c ∷ s) =
      (c ≢ colon)
      × (c ≢ end_of_spec)
      × (((is_windows_drive propagations is_letter (c ∷ s) colon ≡ false)
            × Lacks colon s
            × Lacks end_of_spec s)
          ⊎ ((r : Text) × (s ≡ colon ∷ r)
              × (is_letter c ≡ true)
              × Lacks colon r
              × Lacks end_of_spec r))

  abbrev pub read : Text → Text → VolumeConfig → VolumeConfig × Option VolumeError
  read = parse_chars propagations is_letter

  read_char :
      (c : ℕ) (rest buffer : Text) (config : VolumeConfig)
      → (c == colon) ≡ false
      → (c == end_of_spec) ≡ false
      → read (c ∷ rest) buffer config ≡ read rest (buffer ++ c ∷ []) config
  unfolding parse_chars
  read_char c rest buffer config n m =
      elim (Bool-cases (is_windows_drive propagations is_letter buffer c)) [
        | inl e ↦ rw (parse_chars, e) refl
        | inr e ↦ rw (parse_chars, e, n, m) refl
      ]

  parse_chars-Lacks :
      (s buffer rest : Text) (config : VolumeConfig)
      → Lacks colon s
      → Lacks end_of_spec s
      → read (s ++ rest) buffer config ≡ read rest (buffer ++ s) config
  parse_chars-Lacks [] buffer rest config h k = rw (append-nil buffer) refl
  parse_chars-Lacks (c ∷ s) buffer rest config (n, h) (m, k) =
      read_char c (s ++ rest) buffer config (ground arith) (ground arith)
      ∙ parse_chars-Lacks s (buffer ++ c ∷ []) rest config h k
      ∙ ap (λ b. read rest b config) (append_assoc buffer (c ∷ []) s)

  -- What follows a section that ends at `char`.
  abbrev pub behind : Text → VolumeConfig × Option VolumeError → VolumeConfig × Option VolumeError
  behind rest r = elim r.1 [ some e ↦ (r.0, some e) | none ↦ read rest [] r.0 ]

  read_separator :
      (char : ℕ) (rest buffer : Text) (config : VolumeConfig)
      → is_windows_drive propagations is_letter buffer char ≡ false
      → (char == colon || char == end_of_spec) ≡ true
      → read (char ∷ rest) buffer config
        ≡ behind rest (populate_field propagations char buffer config)
  unfolding parse_chars
  read_separator char rest buffer config d e = rw (parse_chars, d, e) refl

  drive_then :
      (c : ℕ) (s : Text) (char : ℕ)
      → is_windows_drive propagations is_letter (c ∷ (colon ∷ s)) char ≡ false
  drive_then c s char = refl

  not_colon : (s : Text) → is_windows_drive propagations is_letter s end_of_spec ≡ false
  not_colon [] = refl
  not_colon (c ∷ []) = refl
  not_colon (c ∷ (d ∷ s)) = refl

  -- A section, up to the separator behind it.
  read-Section :
      (s rest : Text) (config : VolumeConfig)
      → Section s
      → read (s ++ rest) [] config ≡ read rest s config
  unfolding parse_chars
  read-Section [] rest config h = cc
  read-Section (c ∷ s) rest config (n, m, inl (d, h, k)) =
      parse_chars-Lacks (c ∷ s) [] rest config (n, h) (m, k)
  read-Section (c ∷ s) rest config (n, m, inr (r, e, l, h, k)) = rw e (
      read_char c (colon ∷ (r ++ rest)) [] config (ground arith) (ground arith)
      ∙ rw (parse_chars, l) refl
      ∙ parse_chars-Lacks r (c ∷ (colon ∷ [])) rest config h k)

  Section-drive : (s : Text) → Section s → is_windows_drive propagations is_letter s colon ≡ false
  Section-drive [] h = cc
  Section-drive (c ∷ s) (n, m, inl (d, h, k)) = d
  Section-drive (c ∷ s) (n, m, inr (r, e, l, h, k)) = rw e refl

  -- A section that ends at a colon.
  pub read-colon :
      (s rest : Text) (config : VolumeConfig)
      → Section s
      → read (s ++ colon ∷ rest) [] config
        ≡ behind rest (populate_field propagations colon s config)
  read-colon s rest config h =
      read-Section s (colon ∷ rest) config h
      ∙ read_separator colon rest s config (Section-drive s h) refl

  -- The last section.
  pub read_end :
      (s : Text) (config : VolumeConfig)
      → Section s
      → read (s ++ end_of_spec ∷ []) [] config
        ≡ behind [] (populate_field propagations end_of_spec s config)
  read_end s config h =
      read-Section s (end_of_spec ∷ []) config h
      ∙ read_separator end_of_spec [] s config (not_colon s) refl

  pub Section-is_empty : (s : Text) → Section s → is_empty s ≡ false
  Section-is_empty [] h = elim h [ ]
  Section-is_empty (c ∷ s) h = refl
