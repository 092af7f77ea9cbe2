-- ===== src/Cache/Eviction/Readable.antt =====
-- Chunks that the eviction tracks and that are in the store.
use music_fs.Base.{
  ℕ, zero, suc, ◌<◌, ◌≤◌, ◌≡◌, ◌≢◌, refl, ap, ◌∙◌, Bool, true, false, not, some, List, [], ◌∷◌,
  length, take, All, if◌then◌else◌, same, same_iff, nat_eq, list_eq, arith, Option-cases, ok,
}
use music_fs.Base.Dict.{lookup}
use music_fs.Cas.Hash.{Hashing, HexLaws, ChunkHash, ChunkHash_eq, from_bytes}
use music_fs.Cas.Store.{CasStore, CasConfig, DeleteFaults, chunk_path, get, delete}
use music_fs.Cas.Store.Paths.{chunk_path_injective}
use music_fs.Cas.Store.Contents.{delete_keeps}
use music_fs.Cache.Eviction.{Eviction, hashes}
use music_fs.Cache.Eviction.Pairs.{IsPaired}
use music_fs.Cache.Eviction.Order.{without}

-- No call of the system fails during a `delete`.
pub record IsQuiet (f : DeleteFaults) : Type 0 where
  pub metadata : f.metadata_fails ≡ false
  pub remove_file : f.remove_file_fails ≡ false
  pub index : f.index_fails ≡ false

abbrev pub Bytes : ChunkHash → Type 0
Bytes k = All (λ b. b < 256) k.bytes

pub length-without : (hash : ChunkHash) (q : List ChunkHash) → length (without hash q) ≤ length q
length-without hash [] = omega arith
length-without hash (k ∷ q) = ground (arith, length-without hash q)

pub All-without :
    (P Q : ChunkHash → Type 0) (hash : ChunkHash) (q : List ChunkHash)
    → ((k : ChunkHash) → hash ≢ k → P k → Q k)
    → All P q
    → All Q (without hash q)
All-without P Q hash [] f a = tt
All-without P Q hash (k ∷ q) f a = go (same hash k) refl (All-without P Q hash q f a.1)
  where
    go :
        (b : Bool)
        → same hash k ≡ b
        → All Q (without hash q)
        → All Q (if not b then k ∷ without hash q else without hash q)
    go true e rest = rest
    go false e rest = (f k (λ p. cc ((same_iff hash k).1 p, e)) a.0, rest)

pub All-take : (P : ChunkHash → Type 0) (n : ℕ) (q : List ChunkHash) → All P q → All P (take n q)
All-take P zero q a = tt
All-take P (suc n) [] a = tt
All-take P (suc n) (k ∷ q) a = (a.0, All-take P n q a.1)

module _ (h : Hashing) where
  -- The chunk is in the store, as it was put there.
  pub record IsReadable (c : CasStore) (k : ChunkHash) : Type 0 where
    pub bytes : Bytes k
    pub content : List ℕ
    pub stored : lookup (chunk_path h c.config k) c.files ≡ some content
    pub hashed : from_bytes h content ≡ k

  -- The maps of the eviction fit each other, and every chunk that it tracks is readable.
  pub record IsTracking (e : Eviction) : Type 0 where
    pub paired : IsPaired e.lru
    pub readable : All (IsReadable e.store) (hashes e.lru.access_times)

  pub All-Bytes : (c : CasStore) (q : List ChunkHash) → All (IsReadable c) q → All Bytes q
  All-Bytes c [] a = tt
  All-Bytes c (k ∷ q) a = (a.0.bytes, All-Bytes c q a.1)

  pub delete_quiet :
      (f : DeleteFaults) (c : CasStore) (hash : ChunkHash)
      → IsQuiet f
      → ((delete h f c hash).1 ≡ ok tt) × ((delete h f c hash).0.config ≡ c.config)
  unfolding delete
  delete_quiet f c hash quiet =
      ground (arith, Option-cases (lookup (chunk_path h c.config hash) c.files))

  pub get_readable :
      (read_fails : ChunkHash → Bool) (c : CasStore) (k : ChunkHash)
      → read_fails k ≡ false
      → (r : IsReadable c k) → get h read_fails c k ≡ ok r.content
  unfolding get
  get_readable read_fails c k fine r =
      ground (arith, r.stored, fine, same_iff (from_bytes h r.content) k, r.hashed)

  pub IsReadable-delete :
      (f : DeleteFaults) (c : CasStore) (hash k : ChunkHash)
      → HexLaws h
      → IsQuiet f
      → Bytes hash
      → hash ≢ k
      → IsReadable c k
      → IsReadable (delete h f c hash).0 k
  IsReadable-delete f c hash k laws quiet small ne r = record {
    bytes = r.bytes;
    content = r.content;
    stored =
        ap (λ (g : CasConfig). lookup (chunk_path h g k) (delete h f c hash).0.files)
          (delete_quiet f c hash quiet).1
        ∙ (delete_keeps h f c hash (chunk_path h c.config k)
              (λ p. ne (chunk_path_injective h laws c.config hash k small r.bytes p))
            ∙ r.stored);
    hashed = r.hashed;
  }
