-- ===== src/Tests/Context.antt =====
-- The import, the export and the store of contexts, cli/context/store, on concrete inputs.
use docker_cli.Context.Disk.Laws.{read_file-remove_all}
use docker_cli.Context.Disk.{FilePath, Disk, read_file, same_path, is_below}
use docker_cli.Context.Store.Simulated.{answer, content, OsLaws}
use docker_cli.Prelude.{
  ◌+◌, ◌≡◌, refl, ap, ◌∙◌, Option, none, some, List, [], ◌∷◌, All, Result, ok, err, inl, inr, arith,
  map, ◌↔◌, ◌⊎◌, if◌then◌else◌, ltb, length, Bool-cases, sym, ◌++◌,
}
use docker_cli.Text.{Text, codes, eq, join, split}
use docker_cli.Text.Laws.{Lacks}
use docker_cli.Context.Disk
use docker_cli.Maps.{lookup}
use docker_cli.Maps.Laws.{Distinct}
use docker_cli.Context.Limited.{Contents, limited, joined}
use docker_cli.Context.Names.{validate_context_name}
use docker_cli.Context.Paths.{is_valid_file_path, unexpected_format, unexpected_file, clean}
use docker_cli.Context.Paths.Valid.{IsComponent, IsTlsPath, is_valid_file_path-IsTlsPath}
use docker_cli.Context.Import.{Metadata, TlsData, Entry, Writer, import_tar, and_then}
use docker_cli.Context.Import.Writes.{Ends, import_tar-Ends}
use docker_cli.Context.Export.{Reader, export_context, file_entry}
use docker_cli.Context.Export.RoundTrip.{AreEndpoints, import_tar-export_context}
use docker_cli.Context.Store.{
  Codec, parse_endpoints, Os, ReadFailure, not_exist, create_or_update, remove_context,
  reset_tls_material, new_store,
}
use docker_cli.Context.Store.Refines.{
  Change, put, drop, reset, Represents, changed_all, no_contexts, written_all, IsSound,
  written_all-Represents,
}

clean_test : clean (codes "tls/../a//./b") ≡ codes "a/b"
unfolding clean
clean_test = refl

escape_test : is_valid_file_path (codes "tls/../../x") ≡ err unexpected_format
unfolding is_valid_file_path
escape_test = refl

other_file_test : is_valid_file_path (codes "dummy-file") ≡ err unexpected_file
unfolding is_valid_file_path
other_file_test = refl

abbrev plain_metadata : Text → Metadata Text
plain_metadata name = record { name = name; metadata = none; endpoints = [] }

-- Metadata is its name.
abbrev unmarshal : Text → Result Text (Metadata Text)
unmarshal bytes = ok (plain_metadata bytes)

abbrev marshal : Metadata Text → Result Text Text
marshal meta = ok meta.name

-- A store that lists what was written.
abbrev log_writer : Writer Text Text (List Text)
log_writer = record {
  create_or_update = λ meta s. (meta.name ∷ s, ok tt);
  reset_tls_material = λ name tls s. (codes "tls" ∷ s, ok tt);
}

abbrev archive : List (Entry Text)
archive =
    file_entry (codes "meta.json") (codes "source")
    ∷ file_entry (codes "tls/docker/ca.pem") (codes "ca")
    ∷ []

abbrev exceeds : Text
exceeds = codes "read exceeds the defined limit"

abbrev Read : Type 0
Read = Contents Text

limited_test : limited exceeds 2 (codes "ab" ∷ codes "c" ∷ []) none ≡ (codes "ab", none)
unfolding limited
limited_test = refl

exceeds_test : limited exceeds 2 (codes "a" ∷ codes "bc" ∷ []) none ≡ (codes "abc", some exceeds)
unfolding limited
exceeds_test = refl

-- A reader of one archive, whose bytes are "tar".
abbrev tar_reader : List (Entry Text) → Read → List (Entry Text) × Option Text
tar_reader entries (bytes, some e) = ([], some e)
tar_reader entries (bytes, none) = if eq bytes (codes "tar") then (entries, none) else ([], none)

abbrev archive_reads : List Text
archive_reads = codes "ta" ∷ codes "r" ∷ []

import_tar_test :
    import_tar unmarshal log_writer (codes "new") exceeds (tar_reader archive) archive_reads none []
    ≡ (codes "tls" ∷ codes "new" ∷ [], ok tt)
unfolding import_tar eq
import_tar_test = refl

import_tar-Ends_example :
    Ends unmarshal log_writer
      (codes "new")
      (λ s. All (λ n. n ≡ codes "new") s)
      (λ meta s v e p. (e, p))
      (import_tar unmarshal log_writer
        (codes "new")
        exceeds
        (tar_reader archive)
        archive_reads
        none
        [])
import_tar-Ends_example =
    import_tar-Ends unmarshal log_writer (codes "new") (λ s. All (λ n. n ≡ codes "new") s)
      (λ meta s v e p. (e, p)) exceeds (tar_reader archive) archive_reads none [] tt

abbrev certificates : TlsData
certificates = (codes "docker", (codes "ca.pem", codes "ca") ∷ []) ∷ []

abbrev one_reader : Reader Text Text
one_reader = record {
  get_metadata = λ name. ok (plain_metadata name);
  list_tls_files = λ name. ok ((codes "docker", codes "ca.pem" ∷ []) ∷ []);
  get_tls_data = λ name endpoint file. ok (codes "ca");
}

name_valid : validate_context_name (codes "new") ≡ ok tt
unfolding validate_context_name
name_valid = refl

docker-IsComponent : IsComponent (codes "docker")
docker-IsComponent = (((λ e. cc), (λ e. cc), (λ e. cc)), omega arith)

pem-IsComponent : IsComponent (codes "ca.pem")
pem-IsComponent = (((λ e. cc), (λ e. cc), (λ e. cc)), omega arith)

certificates-Distinct : Distinct certificates
unfolding lookup
certificates-Distinct = (refl, tt)

files-Distinct : Distinct ((codes "ca.pem", codes "ca") ∷ [])
unfolding lookup
files-Distinct = (refl, tt)

certificates-AreEndpoints :
    AreEndpoints unmarshal log_writer (codes "new") one_reader (codes "old") certificates
unfolding join
certificates-AreEndpoints = (
  (
    docker-IsComponent,
    omega arith,
    ((((codes "ca.pem", [], (pem-IsComponent, tt), refl), omega arith), refl), tt),
    (λ e. cc),
    files-Distinct,
  ),
  tt,
)

-- A reader of the archive that the export of the context writes.
abbrev export_reader : Read → List (Entry Text) × Option Text
export_reader = tar_reader ((export_context one_reader (codes "old") marshal).0)

export_reader_lem :
    export_reader (joined archive_reads, none) ≡ export_context one_reader (codes "old") marshal
unfolding eq export_context
export_reader_lem = refl

import_tar-export_context_example :
    import_tar unmarshal log_writer (codes "new") exceeds export_reader archive_reads none []
    ≡ and_then (log_writer.create_or_update (plain_metadata (codes "new")) []) (λ s.
      and_then (log_writer.reset_tls_material (codes "new") certificates s) (λ s'. (s', ok tt)))
import_tar-export_context_example =
    import_tar-export_context unmarshal log_writer (codes "new") one_reader (codes "old") marshal
      (plain_metadata (codes "old")) (codes "old") refl refl refl name_valid exceeds export_reader
      archive_reads certificates [] (omega arith) export_reader_lem refl certificates-AreEndpoints
      certificates-Distinct

-- A digest without a slash.
abbrev digest : Text → Text
digest n = b'x' ∷ map (λ c. c + 48) n

shifted-Lacks : (n : Text) → Lacks b'/' (map (λ c. c + 48) n)
shifted-Lacks [] = tt
shifted-Lacks (c ∷ n) = ((λ e. omega arith), shifted-Lacks n)

digest-IsComponent : (n : Text) → IsComponent (digest n)
digest-IsComponent n = (((λ e. cc), (λ e. cc), (λ e. cc)), (omega arith, shifted-Lacks n))

abbrev codec : Codec Text Text
codec = record {
  digest = digest;
  marshal = marshal;
  unmarshal = λ bytes. ok (record { name = bytes; metadata = []; endpoints = [] });
  unmarshal_context = λ bytes. ok bytes;
  unmarshal_endpoint = λ name bytes. ok bytes;
}

abbrev changes : List (Change Text)
changes =
    put (plain_metadata (codes "new"))
    ∷ reset (codes "new") (some certificates)
    ∷ drop (codes "old")
    ∷ []

changes-IsSound : All (IsSound codec digest-IsComponent (codes "home" ∷ [])) changes
unfolding split parse_endpoints
changes-IsSound = (
  (codes "new", refl, refl),
  (
    (
      (
        certificates-Distinct,
        ((docker-IsComponent, (files-Distinct, ((pem-IsComponent, tt), tt))), tt),
      ),
      tt,
    ),
    (tt, tt),
  ),
)

as_read : Option Text → Result (ReadFailure Text) Text
as_read none = err not_exist
as_read (some bytes) = ok bytes

-- A disk that is full with ten files.
abbrev small_disk : Os Text Disk
small_disk = record {
  read_file = λ p disk. as_read (read_file p disk);
  mkdir_all = λ p disk. (disk, ok tt);
  atomic_write_file = λ p bytes disk.
      if ltb (length disk) 10
      then (Disk.write_file p bytes disk, ok tt)
      else (disk, err (codes "no space left on device"));
  remove_all = λ p disk. (Disk.remove_all p disk, ok tt);
}

answer-as_read : (o : Option Text) → answer (as_read o) ≡ o
unfolding as_read
answer-as_read none = refl
answer-as_read (some bytes) = refl

small_disk-OsLaws : OsLaws small_disk
unfolding read_file
small_disk-OsLaws = record {
  mkdir_all_lem = λ p q s e. refl;
  atomic_write_file_lem = λ p bytes q s e. elim (Bool-cases (ltb (length s) 10)) [
    | inl y ↦ rw y (
        answer-as_read _
        ∙ ap (λ o. if same_path p q then some bytes else o) (sym (answer-as_read _)))
    | inr x ↦ absurd (cc)
  ];
  remove_all_lem = λ p q s e.
      answer-as_read _
      ∙ read_file-remove_all p q s
      ∙ ap (λ o. if is_below p q then none else o) (sym (answer-as_read _));
}

abbrev home : FilePath
home = codes "home" ∷ []

changes_written :
    (written_all codec digest-IsComponent home small_disk small_disk-OsLaws changes []).1 ≡ ok tt
unfolding create_or_update remove_context reset_tls_material Disk.remove_all new_store
changes_written = refl

home_empty : (p : FilePath) → content small_disk (home ++ p) [] ≡ none
unfolding read_file as_read
home_empty p = refl

written_all-Represents_example :
    Represents codec digest-IsComponent home small_disk small_disk-OsLaws
      (changed_all codec digest-IsComponent home changes
        (no_contexts codec digest-IsComponent home))
      (written_all codec digest-IsComponent home small_disk small_disk-OsLaws changes []).0
written_all-Represents_example =
    written_all-Represents codec digest-IsComponent home small_disk small_disk-OsLaws changes []
      changes-IsSound home_empty changes_written

is_valid_file_path-IsTlsPath_example : (is_valid_file_path (codes "tls/docker/ca.pem") ≡ ok tt) ↔ (
    (codes "tls/docker/ca.pem" ≡ codes "meta.json")
    ⊎ (IsTlsPath (codes "tls/docker/ca.pem") × Lacks b'\\' (codes "tls/docker/ca.pem")))
is_valid_file_path-IsTlsPath_example = is_valid_file_path-IsTlsPath (codes "tls/docker/ca.pem")
