-- ===== src/Lib.antt =====
-- MusicFS presents music that lies on several origins (local disks, NFS, SMB, S3, SFTP) as one file
-- system, and caches what is read. This library models the parts of it that move bytes, that choose
-- where these come from, and that arrange the files and their headers.
--
-- A read goes through `FileReader` (crates/musicfs-cas/src/reader.rs). It takes the manifest of the
-- file, the list of its chunks; if there is none, `ContentFetcher`
-- (crates/musicfs-cas/src/fetcher.rs) reads the file whole from its origin, has `CdcChunker`
-- (crates/musicfs-sync/src/cdc.rs) cut it, and puts each chunk into `CasStore`
-- (crates/musicfs-cas/src/store.rs), the store that the reader shares with it. On the side of the
-- origins `HealthMonitor`, `Router`, `OriginRegistry` and `FailoverExecutor`
-- (crates/musicfs-origins/src) check the origins, choose one for a path, and retry. `LruEviction`
-- (crates/musicfs-cache/src/eviction.rs) deletes chunks of the store, the longest unused first, and
-- `OverlayReader` (crates/musicfs-cache/src/overlay.rs) puts a header made of the metadata in front
-- of a file's audio; `FlacHandler` and `Id3v2Handler` (crates/musicfs-cache/src/handlers) make
-- these headers and find the audio. `VirtualTree` (crates/musicfs-cache/src/tree.rs) is what the
-- file system shows: paths, inodes, directories. `PathResolver` and `TaskSupervisor`
-- (crates/musicfs-core/src) name files by their tags and restart background tasks.
--
-- The files:
--   Base: Booleans, lists, options and results over the native numbers; Base.Dict maps as
--     association lists, Base.Slices ranges of bytes, Base.Words machine words, Base.Choose
--     minimum, sorting and filtering.
--   Core: types.rs, error.rs and events.rs of crates/musicfs-core/src. OriginType is of config.rs.
--   Core.Supervisor: supervisor.rs of the same directory; the monitor of a critical task has six
--     runs at most, hence fuel of six, and Restarts shows that these are enough.
--   Core.Resolver: resolver.rs of the same directory, up to the text of the path.
--   Cas.Hash: ChunkHash of types.rs. xxh64 and the hex encoding are crates, hence parameters
--     (Hashing).
--   Cas.Store: store.rs. `open` is open_store, the part of `put` after its checks store_chunk.
--     Cas.Store.Sizes, Contents and Paths hold its theorems.
--   Cas.Fetcher: fetcher.rs, with the ChunkRef of chunks.rs and the ChunkManifest of reader.rs.
--     Cas.Fetcher.Rounds is about one round of its loop.
--   Cas.Reader: reader.rs. The body of the loop of `read` is chunk_data, refetch and slice.
--     Cas.Reader.Ranges is about files whose chunks are in the store, Cas.Reader.Complete about
--     those that are fetched, Cas.Reader.Full about a store that rejects the chunks.
--   Sync.Cdc: cdc.rs. FastCDC is a crate, hence a parameter; CutsAll is what its documentation
--     says.
--   Sync.Delta: crates/musicfs-sync/src/delta.rs, from the files that scan_origin found; the loop
--     of `detect_changes` is compare_scanned.
--   Cache.Eviction: crates/musicfs-cache/src/eviction.rs. Pairs and Order are about the two maps
--     and the order of the chunks, Readable, Rounds and Stuck about evict_to_target.
--   Cache.Tree: tree.rs of the same directory; insert_file, mkdir and their like stand in Grow, the
--     removals in Shrink, the renames in Move, reading a path's text in Text. Sound says that the
--     map of paths and the directories with their children agree (IsTree); its children and Prefix
--     are about the operations. A path is the list of its components, as two paths are equal if
--     these are; a text with a component `.`, which the code splits in two ways, is not meant.
--     Where the code compares the texts that paths were made of, the operations take the text of
--     the argument and the texts that the map holds (`texts`). A map's order is not modelled.
--   Cache.Flac: handlers/flac.rs of the same directory, with the comments in Cache.Vorbis and what
--     the handlers share in Cache.Tags; `build_vorbis_comments` is a list of keys and values
--     (fields) that are inserted in order. Cache.Flac.Headers and Cache.Vorbis.Restored hold the
--     theorems.
--   Cache.Id3v2: the analysis of handlers/id3v2.rs, and its call in crates/musicfs-cli/src/main.rs.
--     The frames of that handler are Cache.Frames. Cache.Tags.Slots and Print are what both kinds
--     of tags share.
--   Cache.Patterns: patterns.rs of the same directory; `record` is record_pattern, and each SQL
--     statement is a function on lists of rows.
--   Cache.Overlay: overlay.rs of the same directory, format_layout.rs, and get_by_format of
--     format_handler.rs; what the database answers and what a handler makes are operations of
--     records (Database, FormatHandler). The part of `read` that joins header and audio is splice.
--   Origins.Health: health.rs; `check_one` is split into answered, transition and after_check.
--   Origins.Router: router.rs; LatencyStats::record is record_sample.
--   Origins.Registry: registry.rs and the trait Origin.
--   Origins.Failover: failover.rs. The two reads differ in what they ask of an origin (Request).
--   Tests: sample data and the theorems at it.
--
-- State is passed from operation to operation. A map is an association list, whose order is the
-- order of iteration; the theorems that need it say that no key stands twice. The directory of
-- chunks is a map from paths to contents, the sled index a map from hashes to locations. Whether a
-- call of the operating system or of sled fails is a value that the operation takes (PutFaults,
-- DeleteFaults, Weather), so that these error paths are there; a write that fails may leave any
-- content at its path. Arithmetic on u64 wraps, as in a release build; a slice or an index out of
-- range, which panics, is an error of its own (`panicked`, or none). Time, and what an origin
-- answers at each attempt, are arguments. Loops are structural recursions over the list or the
-- number of attempts that the code goes through; the outer loop of evict_to_target alone takes
-- fuel, a number of rounds: one more than there are tracked chunks is enough where these can be
-- read, as each round takes out the first of the queue.
--
-- Operations are taken one at a time: two tasks that work on the same store at once are not
-- modelled. Logging, tracing and failpoints are left out. An i64 file identity stands as its bit
-- pattern. Of the rest of the repository the FUSE layer, the database, the search index, the gRPC
-- services, the plugins and the command line are calls of other libraries around these parts; the
-- scan of an origin's directories is not modelled.
pub mod Base
pub mod Core
pub mod Cas
pub mod Sync
pub mod Origins
pub mod Cache
mod Tests
