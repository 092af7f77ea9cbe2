-- ===== src/Cache/Eviction.antt =====
-- `LruEviction` of crates/musicfs-cache/src/eviction.rs. An `Instant` is a number; the map from
-- instants to hashes is a list in ascending order, as a `BTreeMap` iterates.
pub mod Pairs
pub mod Order
pub mod Readable
pub mod Rounds
pub mod Stuck
use music_fs.Base.{
  ℕ, zero, suc, ◌+◌, Bool, Option, none, some, List, [], ◌∷◌, length, map, take, if◌then◌else◌, ltb,
  same, nat_eq, Result, ok, err,
}
use music_fs.Base.Dict.{lookup, insert, remove}
use music_fs.Base.Words.{add_u64}
use music_fs.Cas.Hash.{Hashing, ChunkHash, ChunkHash_eq}
use music_fs.Cas.Store.{CasStore, CasError, DeleteFaults, get, delete}

pub record LruEviction : Type 0 where
  pub access_times : List (ℕ × ChunkHash)
  pub hash_to_time : List (ChunkHash × ℕ)

abbrev pub new_eviction : LruEviction
new_eviction = record { access_times = []; hash_to_time = [] }

-- `BTreeMap::insert`
unfoldable pub insert_at : ℕ → ChunkHash → List (ℕ × ChunkHash) → List (ℕ × ChunkHash)
insert_at t k [] = (t, k) ∷ []
insert_at t k ((u, j) ∷ m) =
    let rest = insert_at t k m in
    if same u t then (t, k) ∷ m else if ltb t u then (t, k) ∷ (u, j) ∷ m else (u, j) ∷ rest

-- The times without that of a hash, if it has one.
unfoldable pub forget_time : ChunkHash → LruEviction → List (ℕ × ChunkHash)
forget_time hash l = elim (lookup hash l.hash_to_time) [
  | none ↦ l.access_times
  | some old ↦ remove old l.access_times
]

unfoldable pub record_access : ℕ → ChunkHash → LruEviction → LruEviction
record_access now hash l = record {
  access_times = insert_at now hash (forget_time hash l);
  hash_to_time = insert hash now (remove hash l.hash_to_time);
}

abbrev pub hashes : List (ℕ × ChunkHash) → List ChunkHash
hashes = map (λ e. e.1)

unfoldable pub select_victims : ℕ → LruEviction → List ChunkHash
select_victims count l = take count (hashes l.access_times)

unfoldable pub remove_hash : ChunkHash → LruEviction → LruEviction
remove_hash hash l = record {
  access_times = forget_time hash l;
  hash_to_time = remove hash l.hash_to_time;
}

-- What the eviction changes, and the bytes that it freed so far.
pub record Eviction : Type 0 where
  pub store : CasStore
  pub lru : LruEviction
  pub bytes_freed : ℕ

module _ (h : Hashing) (read_fails : ChunkHash → Bool) (faults : ChunkHash → DeleteFaults) where
  -- The loop over the victims: one that cannot be read is passed over.
  unfoldable pub evict_victims : List ChunkHash → Eviction → Eviction × Result CasError (Unit {0})
  evict_victims [] e = (e, ok tt)
  evict_victims (hash ∷ victims) e = elim (get h read_fails e.store hash) [
    | err _ ↦ evict_victims victims e
    | ok content ↦
        let bytes_freed = add_u64 e.bytes_freed (length content) in
        let (store, deleted) = delete h (faults hash) e.store hash in
        elim deleted [
          | err x ↦ (record e { store = store; bytes_freed = bytes_freed }, err x)
          | ok _ ↦
              evict_victims victims
                (record { store = store; lru = remove_hash hash e.lru; bytes_freed = bytes_freed })
        ]
  ]

  -- The outer loop, for at most so many rounds; none if it has not ended by then.
  unfoldable pub evict_rounds : ℕ → ℕ → Eviction → Option (Eviction × Result CasError ℕ)
  evict_rounds zero target e = none
  evict_rounds (suc fuel) target e =
      let victims = select_victims 10 e.lru in
      let (e', evicted) = evict_victims victims e in
      let later = evict_rounds fuel target e' in
      if ltb target e.store.current_size
      then elim victims [
        | [] ↦ some (e, ok e.bytes_freed)
        | _ ∷ _ ↦ elim evicted [ err x ↦ some (e', err x) | ok _ ↦ later ]
      ]
      else some (e, ok e.bytes_freed)

  unfoldable pub evict_to_target :
      ℕ → ℕ → CasStore → LruEviction → Option (Eviction × Result CasError ℕ)
  unfolding evict_rounds
  evict_to_target fuel target store lru =
      evict_rounds fuel target (record { store = store; lru = lru; bytes_freed = 0 })
