-- ===== src/Cas/Store/Sizes.antt =====
-- `current_size` counts the bytes of the chunks on disk.
use music_fs.Base.{
  true, nat_eq, list_eq, ℕ, ◌+◌, ◌<◌, ◌≤◌, ◌≡◌, false, none, some, List, [], ◌∷◌, arith, length,
  same_iff, ok, Option-cases, inl, inr,
}
use music_fs.Base.Dict.{
  lookup, insert, remove, Unique, Unique-insert, Unique-remove, remove_absent, lookup-insert,
}
use music_fs.Base.Words.{sub_u64, u64_mod}
use music_fs.Cas.Hash.{Hashing, ChunkHash, ChunkHash_eq, from_bytes}
use music_fs.Cas.Store.{
  ChunkPath, CasConfig, CasStore, PutFaults, DeleteFaults, written, calculate_size, over_limit,
  chunk_path, put, delete, open_store, Sled,
}

calculate_size-insert :
    (k : ChunkPath) (v : List ℕ) (m : List (ChunkPath × List ℕ))
    → lookup k m ≡ none
    → calculate_size (insert k v m) ≡ calculate_size m + length v
unfolding lookup insert calculate_size
calculate_size-insert k v [] h = omega arith
calculate_size-insert k v ((j, w) ∷ m) h = ground (arith, calculate_size-insert k v m)

calculate_size-remove :
    (k : ChunkPath) (v : List ℕ) (m : List (ChunkPath × List ℕ))
    → Unique m
    → lookup k m ≡ some v
    → calculate_size (remove k m) + length v ≡ calculate_size m
unfolding lookup remove calculate_size
calculate_size-remove k v [] u h = cc
calculate_size-remove k v ((j, w) ∷ m) u h =
    ground (arith, same_iff j k, calculate_size-remove k v m, remove_absent k m)

-- No path stands twice, the counter is the sum of the files, it does not wrap, and it keeps the
-- limit of the configuration where there is one.
pub record IsAccounted (c : CasStore) : Type 0 where
  pub unique : Unique c.files
  pub counted : c.current_size ≡ calculate_size c.files
  pub fits : c.current_size < u64_mod
  pub limited : 0 < c.config.max_size → c.current_size ≤ c.config.max_size

-- No call after the write of the chunk fails.
pub record IsClean (f : PutFaults) : Type 0 where
  pub write : f.write ≡ written
  pub serialize : f.serialize_fails ≡ false
  pub index : f.index_fails ≡ false

-- `open` counts what is on disk.
pub open_store_counts :
    (s : Sled) (config : CasConfig) (files : List (ChunkPath × List ℕ)) {c : CasStore}
    → open_store false s config files ≡ ok c
    → (c.current_size ≡ calculate_size files) × (c.files ≡ files) × (c.config ≡ config)
unfolding open_store
open_store_counts s config files e = ground arith

module _ (h : Hashing) where
  -- A put keeps the size counter equal to the sum of the files and within the limit, if no call
  -- after the creation of the directory fails and the counter does not wrap.
  pub put-IsAccounted :
      (f : PutFaults) (c : CasStore) (content : List ℕ)
      → IsAccounted c
      → IsClean f
      → c.current_size + length content < u64_mod
      → IsAccounted (put h f c content).0
  unfolding put
  put-IsAccounted f c content v clean room =
      let path = chunk_path h c.config (from_bytes h content) in
      ground (
        arith,
        calculate_size-insert path content c.files,
        Unique-insert path content c.files v.unique,
      )

  -- A delete keeps the size counter equal to the sum of the files and within the limit, unless the
  -- index fails.
  pub delete-IsAccounted :
      (f : DeleteFaults) (c : CasStore) (hash : ChunkHash)
      → IsAccounted c
      → f.index_fails ≡ false
      → IsAccounted (delete h f c hash).0
  unfolding delete
  delete-IsAccounted f c hash v clean =
      let path = chunk_path h c.config hash in
      elim (Option-cases (lookup path c.files)) [
        | inl e ↦ rw (e, delete) v
        | inr (content, e) ↦ ground (
          arith,
          calculate_size-remove path content c.files v.unique e,
          Unique-remove path c.files v.unique,
        )
      ]

  -- If the index fails after a new chunk was written, deleting that chunk without a fault takes its
  -- length off a counter that never held it.
  pub delete_after_index_failure :
      (f : PutFaults) (g : DeleteFaults) (c : CasStore) (content : List ℕ)
      → lookup (chunk_path h c.config (from_bytes h content)) c.files ≡ none
      → over_limit c content ≡ false
      → f.create_dir_fails ≡ false
      → f.write ≡ written
      → f.serialize_fails ≡ false
      → f.index_fails ≡ true
      → g.metadata_fails ≡ false
      → g.remove_file_fails ≡ false
      → g.index_fails ≡ false
      → (delete h g (put h f c content).0 (from_bytes h content)).0.current_size
        ≡ sub_u64 c.current_size (length content)
  unfolding put delete
  delete_after_index_failure f g c content fresh room dir wrote serialized lost meta removed
        indexed =
      let own = chunk_path h c.config (from_bytes h content) in
      ground (arith, same_iff own own, lookup-insert own own content c.files)
