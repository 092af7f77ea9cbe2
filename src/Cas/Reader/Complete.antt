-- ===== src/Cas/Reader/Complete.antt =====
-- A read of a file that is not cached: it is fetched, chunked and stored, and then read back.
use music_fs.Base.{
  ℕ, ◌+◌, ◌<◌, ◌≡◌, refl, sym, ap, ◌∙◌, false, none, some, List, [], ◌∷◌, length, arith, All, ok,
  nat_eq, string_eq, list_eq, same, same_iff, inl, inr, Bool-cases, length-append,
}
use music_fs.Base.Dict.{lookup, insert, lookup-insert}
use music_fs.Base.Slices.{range}
use music_fs.Base.Words.{u64_mod}
use music_fs.Core.Types.{FileId, FileMeta, unix_secs}
use music_fs.Sync.Cdc.{FastCdc, CutsAll, Chunk, chunk_refs}
use music_fs.Sync.Cdc.Tiling.{Covers, chunk_refs-Covers}
use music_fs.Cas.Hash.{Hashing, ChunkHash, ChunkHash_eq, from_bytes}
use music_fs.Cas.Store.{CasStore, CasConfig, ChunkPath, chunk_path, get}
use music_fs.Cas.Fetcher.{ChunkManifest, ContentFetcher, ReadFull, store_chunks, fetch_file}
use music_fs.Cas.Fetcher.Rounds.{
  IsSound, HasRoom, OwnPlace, Round, Round-store_one, store_one, path_of,
}
use music_fs.Cas.Reader.{note_access, FileReader, Weather, read, get_or_fetch_manifest}
use music_fs.Cas.Reader.Ranges.{store-note_access, manifests-note_access, read_settled, Stored}

module _ (h : Hashing) (config : CasConfig) where
  -- Chunks that share a path share their bytes: among the chunks of one file no hashes collide.
  abbrev pub Agree : Chunk → Chunk → Type 0
  Agree k l = path_of h config k ≡ path_of h config l → l.content ≡ k.content

  abbrev pub NoClash : List Chunk → Type 0
  NoClash [] = Unit
  NoClash (k ∷ ks) = All (Agree k) ks × NoClash ks

  OwnPlace-step :
      {c c' : CasStore} {k : Chunk} (ks : List Chunk)
      → Round h config c c' k
      → All (Agree k) ks
      → All (OwnPlace h config c) ks
      → All (OwnPlace h config c') ks
  OwnPlace-step [] r agree own = tt
  OwnPlace-step {c} {c'} {k} (l ∷ ks) r agree own = (head, OwnPlace-step ks r agree.1 own.1)
    where
      head : OwnPlace h config c' l
      head other q = elim (Bool-cases (same (path_of h config k) (path_of h config l))) [
        | inl e ↦
            let p = (same_iff (path_of h config k) (path_of h config l)).0 e in
            cc (r.here, agree.0 p, q, ap (λ (x : ChunkPath). lookup x c'.files) p)
        | inr e ↦ own.0 other (
            sym (
              r.only (path_of h config l)
                (λ p. cc ((same_iff (path_of h config k) (path_of h config l)).1 p, e)))
            ∙ q)
      ]

  module _ (w : Weather) (sound : (hash : ChunkHash) → IsSound (w.put_faults hash))
      (readable : (hash : ChunkHash) → w.read_fails hash ≡ false) where
    get_placed :
        (c : CasStore) (hash : ChunkHash) (content : List ℕ)
        → c.config ≡ config
        → hash ≡ from_bytes h content
        → lookup (chunk_path h config hash) c.files ≡ some content
        → get h w.read_fails c hash ≡ ok content
    unfolding get
    get_placed c hash content e hashed there =
        let spot = ap (λ (g : CasConfig). lookup (chunk_path h g hash) c.files) e ∙ there in
        ground (arith, spot, readable hash, same_iff (from_bytes h content) hash)

    store_chunks-Stored :
        (c : CasStore) (s : ℕ) (ks : List Chunk) (content : List ℕ)
        → c.config ≡ config
        → Covers h s ks content
        → HasRoom h config c (length content)
        → All (OwnPlace h config c) ks
        → NoClash ks
        → ((p : ChunkPath) (v : List ℕ)
            → lookup p c.files ≡ some v
            → lookup p (store_chunks h w.put_faults c ks).0.files ≡ some v)
          × ((store_chunks h w.put_faults c ks).0.config ≡ config)
          × Stored h w
              (store_chunks h w.put_faults c ks).0
              s
              (store_chunks h w.put_faults c ks).1
              content
    unfolding store_chunks
    store_chunks-Stored c s [] content e covers room own clash = (λ p v q. q, e, covers)
    store_chunks-Stored c s (k ∷ ks) content e (rest, cut, at, size, hashed, more) room own clash =
        let c' = store_one h config w.put_faults c k in
        let len : length content ≡ length k.content + length rest =
          omega (arith, length-append k.content rest, ap length cut) in
        let r =
          Round-store_one h config w.put_faults c k e hashed (sound k.hash)
            (record {
              no_wrap = omega (arith, room.no_wrap);
              limit = λ l. omega (arith, room.limit l);
            })
            own.0 in
        let left : HasRoom h config c (length k.content + length rest) = record {
          no_wrap = omega (arith, room.no_wrap);
          limit = λ l. omega (arith, room.limit l);
        } in
        let (keep, conf, others) =
          store_chunks-Stored c' (s + length k.content) ks rest r.same_config more
            (r.room (length rest) left) (OwnPlace-step ks r clash.0 own.1) clash.1 in
        (
          λ p v q. keep p v (r.stays p v q),
          conf,
          (
            k.content,
            rest,
            cut,
            at,
            size,
            get_placed (store_chunks h w.put_faults c' ks).0 k.hash k.content conf hashed
                (keep (path_of h config k) k.content r.here),
            others,
          ),
        )

-- A file that the fetcher knows, whose origin answers with `content`.
pub record IsKnown (f : ContentFetcher) (file_id : FileId) (content : List ℕ) : Type 0 where
  pub meta : FileMeta
  pub origin : ReadFull
  pub listed : lookup file_id f.file_meta ≡ some meta
  pub registered : lookup meta.real_path.origin_id f.origins ≡ some origin
  pub answers : origin meta.real_path.path ≡ ok content
  pub sized : meta.size ≡ length content

-- The store can take the chunks of the file: there is room, no other bytes stand at their paths, and
-- no two of them that differ share a path.
pub record CanTake (h : Hashing) (cdc : FastCdc) (c : CasStore) (f : ContentFetcher)
    (content : List ℕ) : Type 0 where
  pub room : HasRoom h c.config c (length content)
  pub own : All (OwnPlace h c.config c) (chunk_refs h cdc f.chunker content)
  pub clash : NoClash h c.config (chunk_refs h cdc f.chunker content)

-- No call of the operating system or of sled fails.
pub record IsCalm (w : Weather) : Type 0 where
  pub puts : (hash : ChunkHash) → IsSound (w.put_faults hash)
  pub reads : (hash : ChunkHash) → w.read_fails hash ≡ false

-- The file is cached: the reader lists a manifest of it whose chunks, one behind the other, are the
-- file, and the store answers each chunk's hash with the chunk's bytes.
pub record Cached (h : Hashing) (w : Weather) (r : FileReader) (file_id : FileId) (content : List ℕ)
    : Type 0 where
  pub manifest : ChunkManifest
  pub listed : lookup file_id r.manifests ≡ some manifest
  pub sized : manifest.total_size ≡ length content
  pub stored : Stored h w r.store 0 manifest.chunks content

module _ (h : Hashing) (cdc : FastCdc) (w : Weather) where
  pub fetch_file_known :
      (c : CasStore) (f : ContentFetcher) (file_id : FileId) (content : List ℕ)
      → (known : IsKnown f file_id content)
      → fetch_file h cdc w.put_faults f c file_id ≡ (
        (store_chunks h w.put_faults c (chunk_refs h cdc f.chunker content)).0,
        ok (record {
          file_id = file_id;
          total_size = known.meta.size;
          mtime = unix_secs known.meta.mtime;
          chunks = (store_chunks h w.put_faults c (chunk_refs h cdc f.chunker content)).1;
        }),
      )
  unfolding fetch_file
  fetch_file_known c f file_id content known =
      rw (known.listed, fetch_file) (rw (known.registered) (rw known.answers))

  pub fetch_missing :
      (r : FileReader) (f : ContentFetcher) (file_id : FileId) (store : CasStore)
      (m : ChunkManifest)
      → r.fetcher ≡ some f
      → lookup file_id r.manifests ≡ none
      → fetch_file h cdc w.put_faults f r.store file_id ≡ (store, ok m)
      → get_or_fetch_manifest h cdc w r file_id
        ≡ (record r { store = store; manifests = insert file_id m r.manifests }, ok m)
  unfolding get_or_fetch_manifest
  fetch_missing r f file_id store m has missing fetched = ground (arith, has, missing, fetched)

  -- Once the manifest is there, a read goes on as if it had been there before.
  read_again :
      (r r' : FileReader) (file_id : FileId) (offset size : ℕ) (m : ChunkManifest)
      → get_or_fetch_manifest h cdc w r file_id ≡ (r', ok m)
      → get_or_fetch_manifest h cdc w r' file_id ≡ (r', ok m)
      → read h cdc w r file_id offset size ≡ read h cdc w r' file_id offset size
  unfolding read
  read_again r r' file_id offset size m e e' = ground (arith, e, e')

  manifest_cached :
      (r : FileReader) (file_id : FileId) (m : ChunkManifest)
      → lookup file_id r.manifests ≡ some m
      → get_or_fetch_manifest h cdc w r file_id ≡ (r, ok m)
  unfolding get_or_fetch_manifest
  manifest_cached r file_id m e = rw (e, get_or_fetch_manifest)

  -- A read of a file that is not cached fetches it whole from its origin and returns exactly the
  -- bytes of the origin's file from the offset, as many as were asked for and as there are;
  -- afterwards the reader has a manifest of the file, and the store has each of its chunks, which
  -- one behind the other are the origin's file; if FastCDC cuts all of its input, no call of the
  -- system fails, the fetcher knows the file and its true size, the store has room and holds no
  -- other bytes at the chunks' paths, no two chunks that differ share a path, and the end of the
  -- read fits 64 bits.
  pub read_through :
      (r : FileReader) (f : ContentFetcher) (file_id : FileId) (offset size : ℕ) (content : List ℕ)
      → CutsAll cdc
      → IsCalm w
      → r.fetcher ≡ some f
      → lookup file_id r.manifests ≡ none
      → IsKnown f file_id content
      → CanTake h cdc r.store f content
      → offset + size < u64_mod
      → ((read h cdc w r file_id offset size).1 ≡ ok (range offset (offset + size) content))
        × Cached h w (read h cdc w r file_id offset size).0 file_id content
  read_through r f file_id offset size content cuts calm has missing known fits room =
      let stored = store_chunks h w.put_faults r.store (chunk_refs h cdc f.chunker content) in
      let m : ChunkManifest = record {
        file_id = file_id;
        total_size = known.meta.size;
        mtime = unix_secs known.meta.mtime;
        chunks = stored.1;
      } in
      let r' : FileReader = record r {
        store = stored.0;
        manifests = insert file_id m r.manifests;
      } in
      let fetched =
        fetch_missing r f file_id stored.0 m has missing
          (fetch_file_known r.store f file_id content known) in
      let listed : lookup file_id r'.manifests ≡ some m =
        ground (arith, lookup-insert file_id file_id m r.manifests, same_iff file_id file_id) in
      let placed =
        store_chunks-Stored h r.store.config w calm.puts calm.reads r.store 0
          (chunk_refs h cdc f.chunker content) content refl
          (chunk_refs-Covers h cdc f.chunker content cuts) fits.room fits.own fits.clash in
      let e : read h cdc w r file_id offset size
          ≡ (note_access r' file_id offset size, ok (range offset (offset + size) content)) =
        read_again r r' file_id offset size m fetched (manifest_cached r' file_id m listed)
        ∙ read_settled h cdc w r' file_id offset size m content listed known.sized placed.2
            (omega (arith, fits.room.no_wrap)) room in
      rw e (
        refl,
        record {
          manifest = m;
          listed =
              ap (λ (x : List (FileId × ChunkManifest)). lookup file_id x)
                (manifests-note_access r' file_id offset size)
              ∙ listed;
          sized = known.sized;
          stored = rw (store-note_access r' file_id offset size) placed.2;
        },
      )
