-- ===== src/Lib.antt =====
-- docker_cli: a model of parts of the Docker command line client, with theorems on them.
--
-- The client parses what the user writes (flags, Compose files) and turns it into requests to the
-- engine. Modelled is the logic in between; network and terminals are not, and of files only what the
-- store of contexts keeps. The modules:
--
-- - Prelude, Text, Maps, Sort: helpers. A Go string is a list of code points (valid UTF-8 is assumed;
--   separators and tests in the modelled code are ASCII, and the functions of the package `strings`
--   commute with decoding). A map with string keys is an association list. The sorts are insertion
--   sorts: `sort.Strings` has one possible result, and so has a stable sort.
-- - Template: cli/compose/template/template.go. `Pattern` is the regular expression as a matcher,
--   `Functions` the default substitution functions, `Substitute` the function `SubstituteWith` with its
--   shared variable `err`, `Extract` the function `extractVariable`. The walk over the matches takes
--   fuel: the length of the text, of which every step uses at least one character (`Pieces`).
-- - Service: cli/command/service/update.go. `Flags` and `Lists` are the edits of flat lists, `Slices`
--   the slices that share an array, with the loop that removes from the slice it ranges over, and
--   `Hosts` the function `updateHosts`, where `none` stands for a panic.
--   `Labels` and `Environment` are the maps, `Mounts` and `Ports` the lists that are indexed by a key
--   first, `Capabilities` the function `updateCapabilities`. Values of the engine's API are parameters
--   with the fields that the code reads. `Healthcheck` and `Networks` are the functions of those
--   names; `References` is cli/command/service/parse.go, `Configs` the secrets, configs and the
--   credential spec, `Resources` the generic resources,
--   and `Modes` the replicas, the log driver and the placement preferences. A request to the engine
--   is a parameter.
-- - Opts: the directory opts. `Capabilities` is capabilities.go; sets are lists of their members.
--   `Devices` is throttledevice.go and weightdevice.go, with `copy` of Go's slices written out;
--   `ListOpts` is the list and map options of opts.go.
--   `Mounts` is mount.go: `Fields` the loop over the fields of a value, with what it calls of libraries
--   as the record `Libraries`, and the values of a flag under any number of calls of `Set`.
-- - Progress: cli/command/service/progress/progress.go. `Monitor` is the loop of `ServiceProgress`: a
--   round takes what it learns from outside (`Round`) and either goes on with a state or ends;
--   the state is the variables of the loop, and a time is a number of nanoseconds. `Replicated`,
--   `Global` and `Jobs` are the four updaters, `Start` makes them (a job with a
--   count of 2^63 or more, whose `int` is negative, is left out), and `Slots` the maps with numbers as
--   keys. The lines that are written are data (`Line`, `Note`); how they are formatted and cut is
--   left out.
-- - Interpolation: cli/compose/interpolation/interpolation.go. `Value` is a decoded document, `Paths`
--   the paths and the casts that are found by path, `Interpolate` the walk, which uses Template. A Go
--   map is walked in the order of its list; what the source returns beside an error is left out.
-- - Loader: cli/compose/loader. `Volume` is volume.go, whose loop over the characters carries the
--   buffer and the configuration; an error leaves both results, as in the source.
--   `WindowsPaths` is windows_path.go, whose loops read the path by index: `none` is an index out of
--   range, and the fuel of each loop is the length of the path, which its index never passes.
--   `Merge` is merge.go over the structs of which it reads a key, with the package mergo as parameters;
--   a map that may be nil is there an option.
-- - Config: cli/config/configfile/file.go. `Auth` is the credentials, of AuthConfig in
--   cli/config/types/authconfig.go, as they are read from and written to the file, over `Base64`,
--   which is the encoding of Go's library on lists of bytes. A text is there its bytes.
--   `Settings` is the settings of plugins, the proxies, and the choice of a credential store,
--   and `Credentials` what `GetAllCredentials` gathers from the stores.
-- - Context: cli/context/store. `Names` and `Paths` are the validators, `Limited` the reader with a limit
--   of io_utils.go, and `Import` the functions importTar and importZip, with the store as explicit state
--   behind the interface `Writer`; the readers of archives are parameters, which are given the bytes that
--   the limited reader lets through. `Export` is the entries that `Export` writes, in an order of the map
--   that is fixed. `Store` is the metadata store and the TLS store: the calls of the operating system are
--   the record `Os`, each with its error, and a change stops at the first error. `Disk` and
--   `Store/Image` are the list of files that the theorems compare with. The digest of a name, JSON and
--   the type getters are the record `Codec`, and the roots are those of `New`.
-- - Tests: runs on concrete inputs.
--
-- Not modelled: the commands in cli/command that fill a request to the engine and print its answer, the
-- formatters and the command tree in cmd/docker, which are input and output; decoding by reflection in
-- cli/compose/loader/loader.go and the schema, which libraries do; cli/compose/convert and the flags of
-- containers and services, which copy fields to the structs of the engine's API; plugins, connection
-- helpers, registries and trust, which are processes and network clients. What a library does is a
-- parameter where modelled code calls it.
pub mod Prelude
pub mod Text
pub mod Maps
pub mod Sort
pub mod Interpolation
pub mod Loader
pub mod Opts
pub mod Config
pub mod Context
pub mod Progress
pub mod Template
pub mod Service
mod Tests
