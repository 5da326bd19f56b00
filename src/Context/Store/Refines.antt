-- ===== src/Context/Store/Refines.antt =====
-- The store of cli/context/store as a table of contexts and of their files, whatever the disk looks like.
use docker_cli.Context.Store.Apart.{same}
use docker_cli.Prelude.{
  ◌≡◌, refl, ◌∙◌, ap, ◌&&◌, Option, none, some, List, [], ◌∷◌, All, if◌then◌else◌, Bool-cases, inl,
  inr, ok, Result, err, ◌++◌,
}
use docker_cli.Text.{Text, eq}
use docker_cli.Maps.{Map, lookup}
use docker_cli.Context.Paths.Valid.{IsComponent}
use docker_cli.Context.Import.{Metadata, TlsData, files_of, lift}
use docker_cli.Context.Disk.{FilePath, Disk, read_file}
use docker_cli.Context.Store.{
  Codec, new_store, parse_file, Os, then_do, get_metadata, create_or_update, remove_context,
  get_tls_data, reset_tls_material, reset_endpoint_tls_material, ReadFailure, not_read,
}
use docker_cli.Context.Store.Image
use docker_cli.Context.Store.Simulated.{
  answer, content, OsLaws, Shows, then_do-Shows, create_or_update-Shows, remove_context-Shows,
  reset_tls_material-Shows, reset_endpoint-Shows,
}
use docker_cli.Context.Store.Places.{IsPlace, meta_part, tls_part, meta_file_lem, tls_file_lem}
use docker_cli.Context.Store.Written.{AreFiles, IsMaterial, file_of}
use docker_cli.Context.Store.Behind.{
  material, metadata_at, file_at, metadata_at-create_or_update, file_at-create_or_update,
  metadata_at-remove_context, file_at-remove_context,
}
use docker_cli.Context.Store.Reset.{
  metadata_at-reset_tls_material, file_at-reset_tls_material, metadata_at-reset_endpoint,
  file_at-reset_endpoint,
}

-- The calls that change the store.
pub data Change {κ} (V : Type κ) : Type κ where
  put : Metadata V → Change V
  drop : Text → Change V
  reset : Text → Option TlsData → Change V
  reset_endpoint : Text → Text → Option (Map Text) → Change V

-- The metadata of each context, and the content of each file of each endpoint.
pub record Contexts {κ} (V : Type κ) : Type κ where
  pub metadata : Text → Option (Metadata V)
  pub file : Text → Text → Text → Option Text

-- What a change does to the table.
-- A name stands for all with its digest.
abbrev pub changed {κ} : {V : Type κ} → (Text → Text) → Change V → Contexts V → Contexts V
changed digest (put meta) contexts = record {
  metadata = λ n. if same digest meta.name n then some meta else contexts.metadata n;
  file = contexts.file;
}
changed digest (drop name) contexts = record {
  metadata = λ n. if same digest name n then none else contexts.metadata n;
  file = λ n ep f. if same digest name n then none else contexts.file n ep f;
}
changed digest (reset name tls) contexts = record {
  metadata = contexts.metadata;
  file = λ n ep f. if same digest name n then file_of (material tls) ep f else contexts.file n ep f;
}
changed digest (reset_endpoint name endpoint files) contexts = record {
  metadata = contexts.metadata;
  file = λ n ep f.
      if same digest name n && eq endpoint ep
      then lookup f (files_of files)
      else contexts.file n ep f;
}

module _ {ℓ κ} {E : Type ℓ} {V : Type κ} (codec : Codec E V)
    (plain : (n : Text) → IsComponent (codec.digest n)) (root : FilePath) where
  -- The list of files behind a change.
  abbrev image : Change V → Disk → Disk
  image (put meta) disk = Image.create_or_update codec (new_store root) meta disk
  image (drop name) disk = Image.remove_context codec (new_store root) name disk
  image (reset name tls) disk = Image.reset_tls_material codec (new_store root) name tls disk
  image (reset_endpoint name endpoint files) disk =
      Image.reset_endpoint_tls_material codec (new_store root) name endpoint files disk

  -- The metadata that a file holds.
  abbrev decoded : Option Text → Option (Metadata V)
  decoded none = none
  decoded (some bytes) = answer (parse_file codec (ok bytes))

  -- Metadata that is encoded and decoded again, and files with plain names.
  abbrev pub IsSound : Change V → Type (ℓ ⊔ κ)
  IsSound (put meta) =
      (bytes : Text) × (codec.marshal meta ≡ ok bytes) × (parse_file codec (ok bytes) ≡ ok meta)
  IsSound (drop name) = Unit {ℓ ⊔ κ}
  IsSound (reset name tls) = IsMaterial (material tls) × Unit {ℓ ⊔ κ}
  IsSound (reset_endpoint name endpoint files) =
      IsComponent endpoint × AreFiles (files_of files) × Unit {ℓ ⊔ κ}

  -- The places of the disk hold what the table has.
  abbrev Holds : Contexts V → Disk → Type κ
  Holds contexts disk =
      ((n : Text) → decoded (metadata_at codec plain root n disk) ≡ contexts.metadata n)
      × ((n ep f : Text)
          → IsPlace ep f
          → file_at codec plain root n ep f disk ≡ contexts.file n ep f)

  image-Holds :
      (change : Change V) (contexts : Contexts V) (disk : Disk)
      → IsSound change
      → Holds contexts disk
      → Holds (changed codec.digest change contexts) (image change disk)
  image-Holds (put meta) contexts disk (bytes, e, d) (h, k) = (
    (λ n.
        ap decoded (metadata_at-create_or_update codec plain root meta bytes n disk e)
        ∙ elim (Bool-cases (same codec.digest meta.name n)) [
          | inl b ↦ rw b (ap answer d)
          | inr b ↦ rw b (h n)
        ]),
    (λ n ep f p. file_at-create_or_update codec plain root meta bytes n ep f disk e ∙ k n ep f p),
  )
  image-Holds (drop name) contexts disk s (h, k) = (
    (λ n.
        ap decoded (metadata_at-remove_context codec plain root name n disk)
        ∙ elim (Bool-cases (same codec.digest name n)) [ inl b ↦ rw b refl | inr b ↦ rw b (h n) ]),
    (λ n ep f p.
        file_at-remove_context codec plain root name n ep f disk
        ∙ ap (λ o. if same codec.digest name n then none else o) (k n ep f p)),
  )
  image-Holds (reset name tls) contexts disk (s, _) (h, k) = (
    (λ n. ap decoded (metadata_at-reset_tls_material codec plain root name tls n disk s) ∙ h n),
    (λ n ep f p.
        file_at-reset_tls_material codec plain root name tls n ep f disk s
        ∙ ap (λ o. if same codec.digest name n then file_of (material tls) ep f else o)
            (k n ep f p)),
  )
  image-Holds (reset_endpoint name endpoint files) contexts disk (c, s, _) (h, k) = (
    (λ n.
        ap decoded (metadata_at-reset_endpoint codec plain root name endpoint files n disk c s)
        ∙ h n),
    (λ n ep f p.
        file_at-reset_endpoint codec plain root name endpoint files n ep f disk c s
        ∙ ap
            (λ o.
              if same codec.digest name n && eq endpoint ep then lookup f (files_of files) else o)
            (k n ep f p)),
  )

  abbrev images : List (Change V) → Disk → Disk
  images [] disk = disk
  images (change ∷ changes) disk = images changes (image change disk)

  abbrev pub changed_all : List (Change V) → Contexts V → Contexts V
  changed_all [] contexts = contexts
  changed_all (change ∷ changes) contexts =
      changed_all changes (changed codec.digest change contexts)

  images-Holds :
      (changes : List (Change V)) (contexts : Contexts V) (disk : Disk)
      → All IsSound changes
      → Holds contexts disk
      → Holds (changed_all changes contexts) (images changes disk)
  images-Holds [] contexts disk s h = h
  images-Holds (change ∷ changes) contexts disk (s, ss) h =
      images-Holds changes (changed codec.digest change contexts) (image change disk) ss
        (image-Holds change contexts disk s h)

  abbrev pub no_contexts : Contexts V
  no_contexts = record { metadata = λ n. none; file = λ n ep f. none }

  module _ {ι} {S : Type ι} (os : Os E S) (laws : OsLaws os) where
    -- One call that changes the store.
    abbrev pub written : Change V → S → S × Result E (Unit {0})
    written (put meta) s = create_or_update codec (new_store root) os meta s
    written (drop name) s = remove_context codec (new_store root) os name s
    written (reset name tls) s = reset_tls_material codec (new_store root) os name tls s
    written (reset_endpoint name endpoint files) s =
        reset_endpoint_tls_material codec (new_store root) os name endpoint files s

    -- Calls in their order, up to the first error.
    abbrev pub written_all : List (Change V) → S → S × Result E (Unit {0})
    written_all [] s = (s, ok tt)
    written_all (change ∷ changes) s = then_do (written change s) (written_all changes)

    -- The store answers as the table does, and with an error where the table has nothing.
    abbrev pub Represents : Contexts V → S → Type κ
    Represents contexts s =
        ((n : Text) → answer (get_metadata codec (new_store root) os n s) ≡ contexts.metadata n)
        × ((n ep f : Text)
            → IsPlace ep f
            → answer (get_tls_data codec (new_store root) os n ep f s) ≡ contexts.file n ep f)

    written-Shows :
        (change : Change V) (s : S) (disk : Disk)
        → Shows codec plain root os laws s disk
        → (written change s).1 ≡ ok tt
        → Shows codec plain root os laws (written change s).0 (image change disk)
    written-Shows (put meta) = create_or_update-Shows codec plain root os laws meta
    written-Shows (drop name) = remove_context-Shows codec plain root os laws name
    written-Shows (reset name tls) = reset_tls_material-Shows codec plain root os laws name tls
    written-Shows (reset_endpoint name endpoint files) =
        reset_endpoint-Shows codec plain root os laws name endpoint files

    written_all-Shows :
        (changes : List (Change V)) (s : S) (disk : Disk)
        → Shows codec plain root os laws s disk
        → (written_all changes s).1 ≡ ok tt
        → Shows codec plain root os laws (written_all changes s).0 (images changes disk)
    written_all-Shows [] s disk h = λ e. h
    written_all-Shows (change ∷ changes) s disk h =
        then_do-Shows codec plain root os laws (written change s) (written_all changes)
          (image change disk) _ (written-Shows change s disk h)
          (λ s' h'. written_all-Shows changes s' (image change disk) h')

    answer-parse_file :
        (r : Result (ReadFailure E) Text) → answer (parse_file codec r) ≡ decoded (answer r)
    answer-parse_file (ok bytes) = refl
    answer-parse_file (err failure) = refl

    get_metadata-decoded :
        (n : Text) (s : S) (disk : Disk)
        → Shows codec plain root os laws s disk
        → answer (get_metadata codec (new_store root) os n s)
          ≡ decoded (metadata_at codec plain root n disk)
    unfolding get_metadata
    get_metadata-decoded n s disk h =
        answer-parse_file _
        ∙ ap (λ p. decoded (content os p s)) (meta_file_lem codec.digest plain root n)
        ∙ ap decoded (h (meta_part (codec.digest n)))

    answer-lift : (r : Result (ReadFailure E) Text) → answer (lift not_read r) ≡ answer r
    answer-lift (ok bytes) = refl
    answer-lift (err failure) = refl

    get_tls_data-content :
        (n ep f : Text) (s : S) (disk : Disk)
        → IsPlace ep f
        → Shows codec plain root os laws s disk
        → answer (get_tls_data codec (new_store root) os n ep f s)
          ≡ file_at codec plain root n ep f disk
    unfolding get_tls_data
    get_tls_data-content n ep f s disk p h =
        answer-lift _
        ∙ ap (λ q. content os q s) (tls_file_lem codec.digest plain root n ep f p)
        ∙ h (tls_part (codec.digest n) ep f)

    -- Behind any creations, removals and resets of an empty store of which none fails, of metadata that
    -- can be decoded and of files with plain names, the store answers as the table does: each change
    -- shows under the names with its digest only.
    pub written_all-Represents :
        (changes : List (Change V)) (s : S)
        → All IsSound changes
        → ((p : FilePath) → content os (root ++ p) s ≡ none)
        → (written_all changes s).1 ≡ ok tt
        → Represents (changed_all changes no_contexts) (written_all changes s).0
    unfolding read_file
    written_all-Represents changes s sound empty e =
        let (h, k) = images-Holds changes no_contexts [] sound ((λ n. refl), (λ n ep f p. refl)) in
        let shows = written_all-Shows changes s [] empty e in
        (
          (λ n. get_metadata-decoded n _ _ shows ∙ h n),
          (λ n ep f p. get_tls_data-content n ep f _ _ p shows ∙ k n ep f p),
        )
