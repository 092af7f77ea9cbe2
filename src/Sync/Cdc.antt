-- ===== src/Sync/Cdc.antt =====
-- crates/musicfs-sync/src/cdc.rs. The cut points are FastCDC's, a crate that is not part of the
-- repository: a parameter, with what its documentation promises.
pub mod Tiling
use music_fs.Base.{ℕ, ◌+◌, ◌*◌, ◌<◌, ◌≡◌, List, [], ◌∷◌, length, map}
use music_fs.Base.Slices.{range}
use music_fs.Base.Words.{as_u32, u32_mod}
use music_fs.Cas.Hash.{Hashing, ChunkHash, from_bytes}

-- Minimum, average and maximum size, the data, and the offset and length of each chunk.
abbrev pub FastCdc : Type 0
FastCdc = ℕ → ℕ → ℕ → List ℕ → List (ℕ × ℕ)

-- The cuts follow one another from `start` and end at `end`.
abbrev pub Tiles : ℕ → List (ℕ × ℕ) → ℕ → Type 0
Tiles start [] end = start ≡ end
Tiles start ((offset, size) ∷ cuts) end =
    (offset ≡ start) × (size < u32_mod) × Tiles (start + size) cuts end

-- FastCDC cuts the whole of its input, with no gap and no overlap, into chunks of `u32` length.
pub record CutsAll (cdc : FastCdc) : Type 0 where
  pub tiles : (lo avg hi : ℕ) (content : List ℕ) → Tiles 0 (cdc lo avg hi content) (length content)

pub record CdcChunker : Type 0 where
  pub min_size : ℕ
  pub avg_size : ℕ
  pub max_size : ℕ

abbrev pub default_chunker : CdcChunker
default_chunker = record { min_size = 16 * 1024; avg_size = 64 * 1024; max_size = 256 * 1024 }

pub record Chunk : Type 0 where
  pub hash : ChunkHash
  pub offset : ℕ
  pub size : ℕ
  pub content : List ℕ

module _ (h : Hashing) where
  -- One chunk of the iterator: `&data[c.offset..c.offset + c.length]` and its hash.
  unfoldable pub chunk_at : List ℕ → ℕ × ℕ → Chunk
  chunk_at content (offset, size) =
      let bytes = range offset (offset + size) content in
      record { hash = from_bytes h bytes; offset = offset; size = as_u32 size; content = bytes }

  -- `chunk` and `chunk_refs` build the same list; the one copies its bytes.
  unfoldable pub chunk_refs : FastCdc → CdcChunker → List ℕ → List Chunk
  unfolding chunk_at
  chunk_refs cdc c content = map (chunk_at content) (cdc c.min_size c.avg_size c.max_size content)

  -- The loop of `chunk_streaming`, over the state of its callback.
  unfoldable pub stream : {S : Type 0} → (Chunk → S → S) → List ℕ → List (ℕ × ℕ) → S → ℕ → S × ℕ
  unfolding chunk_at
  stream process content [] s count = (s, count)
  stream process content (cut ∷ cuts) s count =
      stream process content cuts (process (chunk_at content cut) s) (count + 1)

  unfoldable pub chunk_streaming :
      {S : Type 0} → FastCdc → CdcChunker → (Chunk → S → S) → List ℕ → S → S × ℕ
  unfolding stream
  chunk_streaming cdc c process content s =
      stream process content (cdc c.min_size c.avg_size c.max_size content) s 0
