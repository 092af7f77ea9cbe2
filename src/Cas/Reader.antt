-- ===== src/Cas/Reader.antt =====
-- `FileReader` of crates/musicfs-cas/src/reader.rs, over the store that it shares with the fetcher.
pub mod Ranges
pub mod Complete
pub mod Full
use music_fs.Base.{
  ℕ, ◌-◌, Bool, ◌||◌, ◌&&◌, Option, none, some, List, [], ◌∷◌, ◌++◌, Result, ok, err, if◌then◌else◌,
  nat_eq, leb, ltb, min, length,
}
use music_fs.Base.Dict.{lookup, insert}
use music_fs.Base.Slices.{range}
use music_fs.Base.Words.{add_u64}
use music_fs.Core.Types.{FileId}
use music_fs.Core.Events.{Event}
use music_fs.Sync.Cdc.{FastCdc}
use music_fs.Cas.Hash.{Hashing, ChunkHash, as_hex}
use music_fs.Cas.Store.{
  CasStore, CasError, PutFaults, DeleteFaults, get, delete, not_found, integrity_error,
}
use music_fs.Cas.Fetcher.{
  ChunkRef, ChunkManifest, FetchError, ContentFetcher, fetch_file, get_file_meta, emit_access_event,
}

pub record FileReader : Type 0 where
  pub store : CasStore
  pub fetcher : Option ContentFetcher
  pub manifests : List (FileId × ChunkManifest)
  pub events : List Event

-- How the calls of the operating system and of sled go, for each chunk, during one read.
pub record Weather : Type 0 where
  pub put_faults : ChunkHash → PutFaults
  pub delete_faults : ChunkHash → DeleteFaults
  pub read_fails : ChunkHash → Bool

-- `panicked` is a slice out of range.
pub data ReaderError : Type 0 where
  manifest_not_found : FileId → ReaderError
  fetch : FetchError → ReaderError
  cas : CasError → ReaderError
  panicked : ReaderError

unfoldable pub register_manifest : ChunkManifest → FileReader → FileReader
register_manifest m r = record r { manifests = insert m.file_id m r.manifests }

-- `&chunk_data[read_start..read_end]`
unfoldable pub slice : ℕ → ℕ → List ℕ → Result ReaderError (List ℕ)
slice start end content =
    if leb start end && leb end (length content) then ok (range start end content) else err panicked

-- A result of the store, as an error of the reader.
abbrev pub of_cas : Result CasError (List ℕ) → Result ReaderError (List ℕ)
of_cas (ok content) = ok content
of_cas (err e) = err (cas e)

-- The event of the access, if there is a fetcher that knows the file.
unfoldable pub note_access : FileReader → FileId → ℕ → ℕ → FileReader
note_access r file_id offset size = elim r.fetcher [
  | none ↦ r
  | some fetcher ↦ elim (get_file_meta fetcher file_id) [
    | none ↦ r
    | some meta ↦ record r { events = emit_access_event fetcher meta offset size r.events }
  ]
]

module _ (h : Hashing) (cdc : FastCdc) (w : Weather) where
  unfoldable pub get_or_fetch_manifest :
      FileReader → FileId → FileReader × Result ReaderError ChunkManifest
  get_or_fetch_manifest r file_id = elim (lookup file_id r.manifests) [
    | some m ↦ (r, ok m)
    | none ↦ elim r.fetcher [
      | none ↦ (r, err (manifest_not_found file_id))
      | some fetcher ↦
          let (store, fetched) = fetch_file h cdc w.put_faults fetcher r.store file_id in
          elim fetched [
            | err e ↦ (record r { store = store }, err (fetch e))
            | ok m ↦ (record r { store = store; manifests = insert file_id m r.manifests }, ok m)
          ]
    ]
  ]

  -- Fetch the file again, and read the chunk once more.
  unfoldable pub refetch :
      FileReader → FileId → ChunkHash → FileReader × Result ReaderError (List ℕ)
  refetch r file_id hash = elim r.fetcher [
    | none ↦ (r, err (cas (not_found (as_hex h hash))))
    | some fetcher ↦
        let (store, fetched) = fetch_file h cdc w.put_faults fetcher r.store file_id in
        elim fetched [
          | err e ↦ (record r { store = store }, err (fetch e))
          | ok m ↦ (
            record r { store = store; manifests = insert file_id m r.manifests },
            of_cas (get h w.read_fails store hash),
          )
        ]
  ]

  -- The bytes of one chunk: a corrupt one is deleted, and that or a missing one fetched again.
  unfoldable pub chunk_data :
      FileReader → FileId → ChunkHash → FileReader × Result ReaderError (List ℕ)
  unfolding refetch
  chunk_data r file_id hash = elim (get h w.read_fails r.store hash) [
    | ok content ↦ (r, ok content)
    | err e ↦ elim e [
      | integrity_error _ _ ↦
          let cleaned = (delete h (w.delete_faults hash) r.store hash).0 in
          refetch (record r { store = cleaned }) file_id hash
      | not_found _ ↦ refetch r file_id hash
      | other ↦ (r, err (cas other))
    ]
  ]

  -- The loop over the chunks of the manifest, for the bytes from `offset` to `end`.
  unfoldable pub read_chunks :
      FileReader → FileId → ℕ → ℕ → List ChunkRef → FileReader × Result ReaderError (List ℕ)
  read_chunks r file_id offset end [] = (r, ok [])
  read_chunks r file_id offset end (chunk ∷ chunks) =
      let chunk_start = chunk.offset in
      let chunk_end = add_u64 chunk.offset chunk.size in
      let skipped = read_chunks r file_id offset end chunks in
      if leb chunk_end offset || leb end chunk_start
      then skipped
      else let (r', found) = chunk_data r file_id chunk.hash in
        elim found [
          | err e ↦ (r', err e)
          | ok content ↦
              let read_start = if ltb chunk_start offset then offset - chunk_start else 0 in
              let read_end = if ltb end chunk_end then end - chunk_start else chunk.size in
              elim (slice read_start read_end content) [
                | err e ↦ (r', err e)
                | ok part ↦
                    let (r'', rest) = read_chunks r' file_id offset end chunks in
                    elim rest [ err e ↦ (r'', err e) | ok bytes ↦ (r'', ok (part ++ bytes)) ]
              ]
        ]

  -- Where `offset + size` wraps, the difference for the buffer's capacity wraps too, and is `size`;
  -- with overflow checks the addition panics instead.
  unfoldable pub read : FileReader → FileId → ℕ → ℕ → FileReader × Result ReaderError (List ℕ)
  read r file_id offset size =
      let (r', found) = get_or_fetch_manifest r file_id in
      elim found [
        | err e ↦ (r', err e)
        | ok m ↦
            let r'' = note_access r' file_id offset size in
            if leb m.total_size offset
            then (r'', ok [])
            else read_chunks r'' file_id offset (min (add_u64 offset size) m.total_size) m.chunks
      ]
