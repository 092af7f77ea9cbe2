-- ===== src/Cas/Reader/Ranges.antt =====
-- A read returns exactly the bytes that were asked for.
use music_fs.Base.{
  ℕ, ◌+◌, ◌-◌, ◌<◌, ◌≤◌, ◌≡◌, ap, sym, ◌∙◌, some, List, [], ◌∷◌, ◌++◌, Result, ok, if◌then◌else◌,
  ltb, min, length, length-append, arith, nat_eq,
}
use music_fs.Base.Dict.{lookup}
use music_fs.Base.Slices.{range-nil, range, range-append, range_empty, range_past, range_clip}
use music_fs.Base.Words.{add_u64, u64_mod}
use music_fs.Core.Types.{FileId}
use native.Mathlib.Decide.{dec_lt}
use music_fs.Sync.Cdc.{FastCdc}
use music_fs.Cas.Hash.{Hashing, ChunkHash}
use music_fs.Cas.Store.{CasStore, get}
use music_fs.Cas.Fetcher.{ChunkRef, ChunkManifest}
use music_fs.Cas.Reader.{
  FileReader, Weather, read_chunks, chunk_data, slice, read, note_access, get_or_fetch_manifest,
  ReaderError,
}

module _ (h : Hashing) (w : Weather) where
  -- The chunks stand one behind the other from `start`, hold `content`, and are in the store.
  abbrev pub Stored : CasStore → ℕ → List ChunkRef → List ℕ → Type 0
  Stored c start [] content = content ≡ []
  Stored c start (k ∷ ks) content =
      (bytes : List ℕ) × (rest : List ℕ) × (content ≡ bytes ++ rest)
      × (k.offset ≡ start)
      × (k.size ≡ length bytes)
      × (get h w.read_fails c k.hash ≡ ok bytes)
      × Stored c (start + length bytes) ks rest

-- The part of a chunk that a read takes.
slice_part :
    (a b s : ℕ) (bytes : List ℕ)
    → a < s + length bytes
    → s < b
    → a ≤ b
    → slice
        (if ltb s a then a - s else 0)
        (if ltb b (s + length bytes) then b - s else length bytes)
        bytes
      ≡ ok (range (a - s) (b - s) bytes)
unfolding slice
slice_part a b s bytes h k l = ground (arith, range_clip (a - s) (b - s) bytes)

range_cut :
    (a b s : ℕ) (bytes rest content : List ℕ)
    → content ≡ bytes ++ rest
    → range (a - s) (b - s) content
      ≡ range (a - s) (b - s) bytes ++ range (a - (s + length bytes)) (b - (s + length bytes)) rest
range_cut a b s bytes rest content cut = ground (arith, range-append (a - s) (b - s) bytes rest)

range_within :
    (a n : ℕ) (content : List ℕ)
    → range (a - 0) (min (a + n) (length content) - 0) content ≡ range a (a + n) content
range_within a n content = ground (arith, range_clip a (a + n) content)

pub store-note_access :
    (r : FileReader) (file_id : FileId) (offset size : ℕ)
    → (note_access r file_id offset size).store ≡ r.store
unfolding note_access
store-note_access r file_id offset size = ground arith

pub manifests-note_access :
    (r : FileReader) (file_id : FileId) (offset size : ℕ)
    → (note_access r file_id offset size).manifests ≡ r.manifests
unfolding note_access
manifests-note_access r file_id offset size = ground arith

module _ (h : Hashing) (cdc : FastCdc) (w : Weather) where
  chunk_data_present :
      (r : FileReader) (file_id : FileId) (hash : ChunkHash) {bytes : List ℕ}
      → get h w.read_fails r.store hash ≡ ok bytes
      → chunk_data h cdc w r file_id hash ≡ (r, ok bytes)
  unfolding chunk_data
  chunk_data_present r file_id hash got = rw (got, chunk_data)

  -- One chunk that is at hand, in front of chunks that read as `tail`.
  read_chunks-cons :
      (r : FileReader) (file_id : FileId) (a b s : ℕ) (k : ChunkRef) (ks : List ChunkRef)
      (bytes tail : List ℕ)
      → a ≤ b
      → k.offset ≡ s
      → k.size ≡ length bytes
      → add_u64 k.offset k.size ≡ s + length bytes
      → chunk_data h cdc w r file_id k.hash ≡ (r, ok bytes)
      → read_chunks h cdc w r file_id a b ks ≡ (r, ok tail)
      → read_chunks h cdc w r file_id a b (k ∷ ks) ≡ (r, ok (range (a - s) (b - s) bytes ++ tail))
  unfolding read_chunks
  read_chunks-cons r file_id a b s k ks bytes tail l at size end_at got more = ground (
    arith,
    slice_part a b s bytes,
    range_empty (a - s) (b - s) bytes,
    range_past (a - s) (b - s) bytes,
  )

  pub read_chunks-range :
      (r : FileReader) (file_id : FileId) (a b s : ℕ) (chunks : List ChunkRef) (content : List ℕ)
      → a ≤ b
      → s + length content < u64_mod
      → Stored h w r.store s chunks content
      → read_chunks h cdc w r file_id a b chunks ≡ (r, ok (range (a - s) (b - s) content))
  read_chunks-range r file_id a b s [] content l fits stored =
      rw stored
        (unfold read_chunks in ap (λ (x : List ℕ). (r, ok x)) (sym (range-nil (a - s) (b - s))))
  read_chunks-range r file_id a b s (k ∷ ks) content l fits
        (bytes, rest, cut, at, size, got, more) =
      let len : length content ≡ length bytes + length rest =
        omega (arith, length-append bytes rest, ap length cut) in
      read_chunks-cons r file_id a b s k ks bytes
        (range (a - (s + length bytes)) (b - (s + length bytes)) rest) l at size (omega arith)
        (chunk_data_present r file_id k.hash got)
        (read_chunks-range r file_id a b (s + length bytes) ks rest l (omega arith) more)
      ∙ ap (λ (x : List ℕ). (r, ok x)) (sym (range_cut a b s bytes rest content cut))

  read_known :
      (r : FileReader) (file_id : FileId) (offset size : ℕ) (m : ChunkManifest)
      → lookup file_id r.manifests ≡ some m
      → offset < m.total_size
      → add_u64 offset size ≡ offset + size
      → read h cdc w r file_id offset size
        ≡ read_chunks h cdc w
            (note_access r file_id offset size)
            file_id
            offset
            (min (offset + size) m.total_size)
            m.chunks
  unfolding read get_or_fetch_manifest
  read_known r file_id offset size m known within exact = ground arith

  -- A read at or behind the end of a file whose manifest is at hand returns nothing, and only notes
  -- the access.
  pub read_eof :
      (r : FileReader) (file_id : FileId) (offset size : ℕ) (m : ChunkManifest)
      → lookup file_id r.manifests ≡ some m
      → m.total_size ≤ offset
      → read h cdc w r file_id offset size ≡ (note_access r file_id offset size, ok [])
  unfolding read get_or_fetch_manifest
  read_eof r file_id offset size m known past = ground arith

  -- Such a read notes the access, and changes nothing else.
  pub read_settled :
      (r : FileReader) (file_id : FileId) (offset size : ℕ) (m : ChunkManifest) (content : List ℕ)
      → lookup file_id r.manifests ≡ some m
      → m.total_size ≡ length content
      → Stored h w r.store 0 m.chunks content
      → length content < u64_mod
      → offset + size < u64_mod
      → read h cdc w r file_id offset size
        ≡ (note_access r file_id offset size, ok (range offset (offset + size) content))
  read_settled r file_id offset size m content known total stored fits room =
      elim (dec_lt offset (length content)) [
        | yes within ↦
            let r' = note_access r file_id offset size in
            let end = min (offset + size) (length content) in
            read_known r file_id offset size m known (omega arith) (omega arith)
            ∙ (ap
                  (λ (n : ℕ).
                    read_chunks h cdc w r' file_id offset (min (offset + size) n) m.chunks)
                  total
                ∙ (read_chunks-range r' file_id offset end 0 m.chunks content (omega arith)
                      (omega arith) (rw store-note_access stored)
                    ∙ ap (λ (x : List ℕ). (r', ok x)) (range_within offset size content)))
        | no past ↦
            read_eof r file_id offset size m known (omega arith)
            ∙ ap (λ (x : List ℕ). (note_access r file_id offset size, ok x))
                (sym (range_past offset (offset + size) content (omega arith)))
      ]

  -- A read of a file whose manifest is at hand and whose chunks are in the store returns the bytes
  -- of the file from the offset, as many as were asked for and as there are, and leaves the store;
  -- if neither the file's length nor the end of the read exceeds 64 bits.
  pub read_exact :
      (r : FileReader) (file_id : FileId) (offset size : ℕ) (m : ChunkManifest) (content : List ℕ)
      → lookup file_id r.manifests ≡ some m
      → m.total_size ≡ length content
      → Stored h w r.store 0 m.chunks content
      → length content < u64_mod
      → offset + size < u64_mod
      → ((read h cdc w r file_id offset size).1 ≡ ok (range offset (offset + size) content))
        × ((read h cdc w r file_id offset size).0.store ≡ r.store)
  read_exact r file_id offset size m content known total stored fits room =
      let e = read_settled r file_id offset size m content known total stored fits room in
      (
        ap (λ (x : FileReader × Result ReaderError (List ℕ)). x.1) e,
        ap (λ (x : FileReader × Result ReaderError (List ℕ)). x.0.store) e
            ∙ store-note_access r file_id offset size,
      )
