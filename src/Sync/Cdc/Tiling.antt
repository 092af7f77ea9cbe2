-- ===== src/Sync/Cdc/Tiling.antt =====
-- The chunks of a file, one behind the other, are the file.
use music_fs.Base.{ℕ, ◌+◌, ◌≤◌, ◌≡◌, refl, List, [], ◌∷◌, ◌++◌, length, arith, map, drop, ◌∙◌, ap}
use mathlib.Core.List.{foldl}
use music_fs.Base.Slices.{drop_all, drop-range, range, length-range}
use music_fs.Cas.Hash.{Hashing, from_bytes}
use music_fs.Sync.Cdc.{
  FastCdc, CutsAll, Tiles, CdcChunker, Chunk, chunk_at, chunk_refs, stream, chunk_streaming,
}

module _ (h : Hashing) where
  -- From `start` on, the chunks hold `content`, each under the hash of its own bytes.
  abbrev pub Covers : ℕ → List Chunk → List ℕ → Type 0
  Covers start [] content = content ≡ []
  Covers start (k ∷ ks) content =
      (rest : List ℕ) × (content ≡ k.content ++ rest)
      × (k.offset ≡ start)
      × (k.size ≡ length k.content)
      × (k.hash ≡ from_bytes h k.content)
      × Covers (start + length k.content) ks rest

  Tiles-le : (s : ℕ) (cuts : List (ℕ × ℕ)) (n : ℕ) → Tiles s cuts n → s ≤ n
  Tiles-le s [] n t = omega arith
  Tiles-le s ((o, l) ∷ cuts) n t = omega (arith, Tiles-le (s + l) cuts n t.2)

  pub chunks-Covers :
      (content : List ℕ) (s : ℕ) (cuts : List (ℕ × ℕ))
      → Tiles s cuts (length content)
      → Covers s (map (chunk_at h content) cuts) (drop s content)
  unfolding chunk_at
  chunks-Covers content s [] t = drop_all s content (omega arith)
  chunks-Covers content s ((o, l) ∷ cuts) (at, small, more) =
      let fits = Tiles-le (s + l) cuts (length content) more in
      let len : length (range s (s + l) content) ≡ l =
        omega (arith, length-range s (s + l) content fits) in
      rw at (
        drop (s + l) content,
        drop-range s (s + l) content (omega arith),
        refl,
        omega arith,
        refl,
        rw len (chunks-Covers content (s + l) cuts more),
      )

  -- If FastCDC cuts all of its input, the chunks of a file, one behind the other, are the file,
  -- each with its offset, its length and the hash of its own bytes.
  pub chunk_refs-Covers :
      (cdc : FastCdc) (c : CdcChunker) (content : List ℕ)
      → CutsAll cdc
      → Covers 0 (chunk_refs h cdc c content) content
  unfolding chunk_refs
  chunk_refs-Covers cdc c content all =
      chunks-Covers content 0 (cdc c.min_size c.avg_size c.max_size content)
        (all.tiles c.min_size c.avg_size c.max_size content)

  stream-eq-foldl :
      {S : Type 0} (process : Chunk → S → S) (content : List ℕ) (cuts : List (ℕ × ℕ)) (s : S)
      (n : ℕ)
      → stream h process content cuts s n ≡ (
        foldl (λ t k. process k t) s (map (chunk_at h content) cuts),
        n + length (map (chunk_at h content) cuts),
      )
  unfolding stream
  stream-eq-foldl process content [] s n = ap (λ (m : ℕ). (s, m)) (omega arith)
  stream-eq-foldl process content (c ∷ cuts) s n =
      stream-eq-foldl process content cuts (process (chunk_at h content c) s) (n + 1)
      ∙ ap (λ (m : ℕ). (foldl (λ t k. process k t) s (map (chunk_at h content) (c ∷ cuts)), m))
          (omega arith)

  -- The streaming form calls its callback on the same chunks as chunk_refs, in order, and returns
  -- their number.
  pub chunk_streaming-eq-foldl :
      {S : Type 0} (cdc : FastCdc) (c : CdcChunker) (process : Chunk → S → S) (content : List ℕ)
      (s : S)
      → chunk_streaming h cdc c process content s ≡ (
        foldl (λ t k. process k t) s (chunk_refs h cdc c content),
        length (chunk_refs h cdc c content),
      )
  unfolding chunk_streaming chunk_refs
  chunk_streaming-eq-foldl cdc c process content s =
      stream-eq-foldl process content (cdc c.min_size c.avg_size c.max_size content) s 0
      ∙ ap (λ (m : ℕ). (foldl (λ t k. process k t) s (chunk_refs h cdc c content), m)) (omega arith)
