-- ===== src/Cas/Store/Paths.antt =====
-- The path of a chunk determines its hash.
use music_fs.Base.{
  nat_eq, list_eq, ◌<◌, ◌≡◌, refl, ap, Option, none, some, List, [], ◌∷◌, ◌++◌, ◌∙◌, sym, All,
  append_assoc,
}
use music_fs.Cas.Hash.{Hashing, HexLaws, ChunkHash, as_hex, as_hex_injective}
use music_fs.Cas.Store.{CasConfig, chunk_path, shards}

abbrev last {ℓ} : {A : Type ℓ} → List A → Option A
last [] = none
last (x ∷ []) = some x
last (x ∷ y ∷ xs) = last (y ∷ xs)

last-append {ℓ} : {A : Type ℓ} (xs : List A) (x : A) → last (xs ++ (x ∷ [])) ≡ some x
last-append [] x = refl
last-append (y ∷ []) x = refl
last-append (y ∷ z ∷ xs) x = last-append (z ∷ xs) x

module _ (h : Hashing) where
  last-chunk_path :
      (config : CasConfig) (hash : ChunkHash)
      → last (chunk_path h config hash) ≡ some (as_hex h hash)
  unfolding chunk_path
  last-chunk_path config hash =
      let dir = config.chunks_dir ++ shards config.shard_levels 0 (as_hex h hash) in
      ap last (
        sym (
          append_assoc config.chunks_dir (shards config.shard_levels 0 (as_hex h hash))
            (as_hex h hash ∷ [])))
      ∙ last-append dir (as_hex h hash)

  -- Chunks whose hashes differ never share a path, whatever the number of shard levels, if the
  -- hashes hold bytes and hex encoding can be undone.
  pub chunk_path_injective :
      HexLaws h
      → (config : CasConfig) (a b : ChunkHash) → All (λ b. b < 256) a.bytes
      → All (λ b. b < 256) b.bytes
      → chunk_path h config a ≡ chunk_path h config b
      → a ≡ b
  chunk_path_injective laws config a b ha hb p =
      as_hex_injective h laws a b ha hb
        (cc (last-chunk_path config a, last-chunk_path config b, ap last p))
