-- ===== src/Cas/Reader/Full.antt =====
-- A read of a file whose chunks the store rejects.
use music_fs.Sync.Cdc.Tiling.{Covers, chunk_refs-Covers}
use music_fs.Base.{
  if◌then◌else◌, length-append, Bool, ℕ, ◌+◌, ◌<◌, ◌≡◌, refl, ap, sym, ◌∙◌, true, none, some, List,
  [], ◌∷◌, length, arith, All, Result, ok, err, nat_eq, list_eq, string_eq, min,
}
use music_fs.Base.Dict.{lookup, insert}
use music_fs.Base.Words.{u64_mod}
use music_fs.Core.Types.{FileId, unix_secs}
use music_fs.Cas.Hash.{Hashing, ChunkHash, as_hex, from_bytes}
use music_fs.Cas.Store.{CasStore, PutFaults, chunk_path, put, get, exists, over_limit, not_found}
use music_fs.Cas.Fetcher.{ContentFetcher, ChunkManifest, ChunkRef, store_chunks}
use music_fs.Cas.Reader.{
  FileReader, Weather, ReaderError, cas, get_or_fetch_manifest, note_access, chunk_data, refetch,
  read_chunks, read,
}
use music_fs.Cas.Reader.Ranges.{store-note_access}
use music_fs.Cas.Reader.Complete.{IsKnown, fetch_file_known, fetch_missing}
use music_fs.Sync.Cdc.{CutsAll, FastCdc, Chunk, chunk_refs}

fetcher-note_access :
    (r : FileReader) (file_id : FileId) (offset size : ℕ)
    → (note_access r file_id offset size).fetcher ≡ r.fetcher
unfolding note_access
fetcher-note_access r file_id offset size = ground arith

module _ (h : Hashing) where
  -- The store has no such chunk and no room for it.
  abbrev pub IsRejected : CasStore → Chunk → Type 0
  IsRejected c k =
      (k.hash ≡ from_bytes h k.content)
      × (lookup (chunk_path h c.config k.hash) c.files ≡ none)
      × (over_limit c k.content ≡ true)

  put_rejected :
      (f : PutFaults) (c : CasStore) (k : Chunk) → IsRejected c k → (put h f c k.content).0 ≡ c
  unfolding put
  put_rejected f c k (hashed, free, full) =
      let spot : lookup (chunk_path h c.config (from_bytes h k.content)) c.files ≡ none =
        ap (λ (x : ChunkHash). lookup (chunk_path h c.config x) c.files) (sym hashed) ∙ free in
      ground (arith, spot, full)

  store_chunks_rejected :
      (faults : ChunkHash → PutFaults) (c : CasStore) (ks : List Chunk)
      → All (IsRejected c) ks
      → (store_chunks h faults c ks).0 ≡ c
  unfolding store_chunks exists
  store_chunks_rejected faults c [] rejected = refl
  store_chunks_rejected faults c (k ∷ ks) ((hashed, free, full), more) = ground (
    arith,
    free,
    put_rejected (faults k.hash) c k (hashed, free, full),
    store_chunks_rejected faults c ks more,
  )

  get_free :
      (read_fails : ChunkHash → Bool) (c : CasStore) (hash : ChunkHash)
      → lookup (chunk_path h c.config hash) c.files ≡ none
      → get h read_fails c hash ≡ err (not_found (as_hex h hash))
  unfolding get
  get_free read_fails c hash free = ground (arith, free)

  module _ (cdc : FastCdc) (w : Weather) where
    -- A missing chunk that the store rejects is missing again after the fetch.
    chunk_data_rejected :
        (r : FileReader) (f : ContentFetcher) (file_id : FileId) (content : List ℕ)
        (hash : ChunkHash)
        → r.fetcher ≡ some f
        → IsKnown f file_id content
        → All (IsRejected r.store) (chunk_refs h cdc f.chunker content)
        → lookup (chunk_path h r.store.config hash) r.store.files ≡ none
        → (chunk_data h cdc w r file_id hash).1 ≡ err (cas (not_found (as_hex h hash)))
    unfolding chunk_data refetch
    chunk_data_rejected r f file_id content hash has known rejected free =
        let got = get_free w.read_fails r.store hash free in
        let fetched = fetch_file_known h cdc w r.store f file_id content known in
        let same_store =
          store_chunks_rejected w.put_faults r.store (chunk_refs h cdc f.chunker content)
            rejected in
        ground (arith, got, has, fetched, same_store)

    read_first :
        (r : FileReader) (file_id : FileId) (a b : ℕ) (k : ChunkRef) (ks : List ChunkRef)
        {e : ReaderError}
        → k.offset ≡ 0
        → a < k.size
        → k.size < u64_mod
        → 0 < b
        → (chunk_data h cdc w r file_id k.hash).1 ≡ err e
        → (read_chunks h cdc w r file_id a b (k ∷ ks)).1 ≡ err e
    unfolding read_chunks
    read_first r file_id a b k ks at within fits some_wanted failed = ground (arith, failed)

    read_fetched :
        (r r' : FileReader) (file_id : FileId) (offset size : ℕ) (m : ChunkManifest)
        → get_or_fetch_manifest h cdc w r file_id ≡ (r', ok m)
        → offset < m.total_size
        → offset + size < u64_mod
        → read h cdc w r file_id offset size
          ≡ read_chunks h cdc w
              (note_access r' file_id offset size)
              file_id
              offset
              (min (offset + size) m.total_size)
              m.chunks
    unfolding read
    read_fetched r r' file_id offset size m got within fits = ground (arith, got)

    -- A read of a file that is not cached fails with NotFound, though the fetcher knows the file
    -- and its true size and its origin answers, if the store has none of the file's chunks and room
    -- for none of them, the read begins within the first chunk and asks for something, FastCDC cuts
    -- all of its input, and the file's length and the end of the read fit 64 bits.
    pub read-not_found :
        (r : FileReader) (f : ContentFetcher) (file_id : FileId) (offset size : ℕ)
        (content : List ℕ) (k : Chunk) (ks : List Chunk)
        → CutsAll cdc
        → r.fetcher ≡ some f
        → lookup file_id r.manifests ≡ none
        → IsKnown f file_id content
        → chunk_refs h cdc f.chunker content ≡ k ∷ ks
        → All (IsRejected r.store) (k ∷ ks)
        → offset < length k.content
        → 0 < size
        → length content < u64_mod
        → offset + size < u64_mod
        → (read h cdc w r file_id offset size).1 ≡ err (cas (not_found (as_hex h k.hash)))
    unfolding store_chunks
    read-not_found r f file_id offset size content k ks cuts has missing known cut rejected within
          some_wanted fits room =
        let covers : Covers h 0 (k ∷ ks) content =
          rw cut at (chunk_refs-Covers h cdc f.chunker content cuts) in
        let (rest, joined, at, k_size, _, _) = covers in
        let long : length content ≡ length k.content + length rest =
          omega (arith, length-append k.content rest, ap length joined) in
        let stored = store_chunks h w.put_faults r.store (chunk_refs h cdc f.chunker content) in
        let m : ChunkManifest = record {
          file_id = file_id;
          total_size = known.meta.size;
          mtime = unix_secs known.meta.mtime;
          chunks = stored.1;
        } in
        let r' : FileReader = record r {
          store = stored.0;
          manifests = insert file_id m r.manifests;
        } in
        let r'' = note_access r' file_id offset size in
        let got =
          fetch_missing h cdc w r f file_id stored.0 m has missing
            (fetch_file_known h cdc w r.store f file_id content known) in
        let all : All (IsRejected r.store) (chunk_refs h cdc f.chunker content) = rw cut rejected in
        let kept : r''.store ≡ r.store =
          store-note_access r' file_id offset size
          ∙ store_chunks_rejected w.put_faults r.store (chunk_refs h cdc f.chunker content) all in
        let lost : (chunk_data h cdc w r'' file_id k.hash).1
            ≡ err (cas (not_found (as_hex h k.hash))) =
          chunk_data_rejected r'' f file_id content k.hash
            (fetcher-note_access r' file_id offset size ∙ has) known (rw kept all)
            (rw kept rejected.0.1) in
        ap (λ (x : FileReader × Result ReaderError (List ℕ)). x.1)
          (read_fetched r r' file_id offset size m got (omega (arith, known.sized)) room)
        ∙ (ap
              (λ (cs : List ChunkRef).
                (read_chunks h cdc w r'' file_id offset (min (offset + size) known.meta.size) cs).1)
              (ap (λ (cs : List Chunk). (store_chunks h w.put_faults r.store cs).1) cut)
            ∙ read_first r'' file_id offset (min (offset + size) known.meta.size)
                (record { hash = k.hash; offset = k.offset; size = k.size })
                (store_chunks h w.put_faults
                  (if exists h r.store k.hash
                    then r.store
                    else (put h (w.put_faults k.hash) r.store k.content).0)
                  ks).1
                at (omega arith) (omega arith) (omega (arith, known.sized)) lost)
