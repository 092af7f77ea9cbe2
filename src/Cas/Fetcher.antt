-- ===== src/Cas/Fetcher.antt =====
-- `ContentFetcher` of crates/musicfs-cas/src/fetcher.rs: a file is read whole from its origin, cut
-- into chunks, and stored. The store is the one that the reader shares.
pub mod Rounds
use music_fs.Base.{
  ℕ, Bool, Option, none, some, List, [], ◌∷◌, String, Result, ok, err, if◌then◌else◌, nat_eq,
  string_eq,
}
use music_fs.Base.Dict.{lookup, insert}
use music_fs.Core.Types.{FileId, FileMeta, OriginId, FilePath, unix_secs}
use music_fs.Core.Events.{Event, file_accessed}
use music_fs.Sync.Cdc.{FastCdc, CdcChunker, Chunk, chunk_refs}
use music_fs.Cas.Hash.{Hashing, ChunkHash}
use music_fs.Cas.Store.{CasStore, PutFaults, put, exists}

-- `ChunkRef` of chunks.rs
pub record ChunkRef : Type 0 where
  pub hash : ChunkHash
  pub offset : ℕ
  pub size : ℕ

-- `ChunkManifest` of reader.rs
pub record ChunkManifest : Type 0 where
  pub file_id : FileId
  pub total_size : ℕ
  pub mtime : ℕ
  pub chunks : List ChunkRef

pub data FetchError : Type 0 where
  file_not_found : FileId → FetchError
  origin_not_found : OriginId → FetchError
  origin_read : String → FetchError

-- The one method of an origin that is called here: `read_full`.
abbrev pub ReadFull : Type 0
ReadFull = FilePath → Result String (List ℕ)

pub record ContentFetcher : Type 0 where
  pub origins : List (OriginId × ReadFull)
  pub file_meta : List (FileId × FileMeta)
  pub has_event_bus : Bool
  pub chunker : CdcChunker

unfoldable pub register_origin : OriginId → ReadFull → ContentFetcher → ContentFetcher
register_origin id origin f = record f { origins = insert id origin f.origins }

unfoldable pub register_file : FileMeta → ContentFetcher → ContentFetcher
register_file meta f = record f { file_meta = insert meta.id meta f.file_meta }

unfoldable pub register_files : List FileMeta → ContentFetcher → ContentFetcher
unfolding register_file
register_files [] f = f
register_files (meta ∷ files) f = register_files files (register_file meta f)

unfoldable pub get_file_meta : ContentFetcher → FileId → Option FileMeta
get_file_meta f id = lookup id f.file_meta

-- The event, if there is a bus to publish it on.
unfoldable pub emit_access_event : ContentFetcher → FileMeta → ℕ → ℕ → List Event → List Event
emit_access_event f meta offset size events =
    if f.has_event_bus
    then file_accessed meta.id meta.virtual_path meta.real_path.origin_id offset size ∷ events
    else events

module _ (h : Hashing) where
  -- The loop over the chunks. A `put` that fails is logged, and the chunk stays in the manifest.
  unfoldable pub store_chunks :
      (ChunkHash → PutFaults) → CasStore → List Chunk → CasStore × List ChunkRef
  store_chunks faults c [] = (c, [])
  store_chunks faults c (chunk ∷ chunks) =
      let c' = if exists h c chunk.hash then c else (put h (faults chunk.hash) c chunk.content).0 in
      let (c'', refs) = store_chunks faults c' chunks in
      (c'', record { hash = chunk.hash; offset = chunk.offset; size = chunk.size } ∷ refs)

module _ (h : Hashing) (cdc : FastCdc) where
  unfoldable pub fetch_file :
      (ChunkHash → PutFaults)
      → ContentFetcher
      → CasStore
      → FileId
      → CasStore × Result FetchError ChunkManifest
  unfolding store_chunks chunk_refs
  fetch_file faults f c file_id = elim (lookup file_id f.file_meta) [
    | none ↦ (c, err (file_not_found file_id))
    | some meta ↦ elim (lookup meta.real_path.origin_id f.origins) [
      | none ↦ (c, err (origin_not_found meta.real_path.origin_id))
      | some read_full ↦ elim (read_full meta.real_path.path) [
        | err e ↦ (c, err (origin_read e))
        | ok content ↦
            let (c', refs) = store_chunks h faults c (chunk_refs h cdc f.chunker content) in
            (
              c',
              ok (record {
                file_id = file_id;
                total_size = meta.size;
                mtime = unix_secs meta.mtime;
                chunks = refs;
              }),
            )
      ]
    ]
  ]
