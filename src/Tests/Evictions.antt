-- ===== src/Tests/Evictions.antt =====
-- The theorems of the eviction, at samples.
use music_fs.Base.{
  ◌≡◌, ◌≤◌, ◌⊎◌, refl, false, true, none, some, List, [], ◌∷◌, take, arith, ok, list_eq, nat_eq,
}
use music_fs.Base.Dict.{lookup, insert, remove}
use music_fs.Cas.Hash.{ChunkHash, ChunkHash_eq, from_bytes, as_hex, le_bytes, le_bytes_byte}
use music_fs.Cas.Store.{CasStore, io, chunk_path, put, get, shards, over_limit, store_chunk}
use music_fs.Cache.Eviction.{
  LruEviction, Eviction, hashes, select_victims, evict_to_target, insert_at, forget_time,
  record_access, remove_hash,
}
use music_fs.Cache.Eviction.Pairs.{IsPaired}
use music_fs.Cache.Eviction.Order.{
  Use, used, evicted, replay, queue, replay-IsPaired, select_victims-replay,
}
use music_fs.Cache.Eviction.Readable.{IsTracking}
use music_fs.Cache.Eviction.Rounds.{evict_to_target-ends}
use music_fs.Cache.Eviction.Stuck.{evict_to_target-stuck}
use music_fs.Tests.Samples.{
  plain, plain-HexLaws, empty_store, no_put_faults, no_delete_faults, song,
}

program : Unit {0}
unfolding lookup insert remove from_bytes as_hex le_bytes chunk_path put get shards over_limit
    store_chunk insert_at forget_time record_access remove_hash select_victims
program = tt

abbrev key : ChunkHash
key = from_bytes plain song

abbrev other_key : ChunkHash
other_key = record { bytes = 1 ∷ [] }

abbrev store : CasStore
store = (put plain no_put_faults empty_store song).0

-- Both chunks are used, the first one again, and the other one is evicted.
abbrev history : List Use
history = evicted other_key ∷ used 3 key ∷ used 2 other_key ∷ used 1 key ∷ []

replay-IsPaired_example : IsPaired (replay history)
replay-IsPaired_example =
    replay-IsPaired history ((omega arith, (omega arith, tt)), ((omega arith, tt), (tt, tt)))

select_victims-replay_example : select_victims 10 (replay history) ≡ take 10 (queue history)
select_victims-replay_example =
    select_victims-replay 10 history
      ((omega arith, (omega arith, tt)), ((omega arith, tt), (tt, tt)))

abbrev one_tracked : LruEviction
one_tracked = replay (used 1 key ∷ [])

evict_to_target-ends_example :
    (e : Eviction) × (evict_to_target plain
        (λ _. false)
        (λ _. no_delete_faults)
        2
        3
        store
        one_tracked
      ≡ some (e, ok e.bytes_freed))
    × IsTracking plain e
    × ((e.store.current_size ≤ 3) ⊎ (hashes e.lru.access_times ≡ []))
unfolding program
evict_to_target-ends_example =
    evict_to_target-ends plain plain-HexLaws (λ _. false) (λ _. no_delete_faults) (λ k. refl)
      (λ k. record { metadata = refl; remove_file = refl; index = refl }) 2 3 store one_tracked
      (omega arith) (replay-IsPaired (used 1 key ∷ []) (tt, tt))
      (
        record {
          bytes = le_bytes_byte 8 (plain.xxh64 song);
          content = song;
          stored = refl;
          hashed = refl;
        },
        tt,
      )

evict_to_target-stuck_example :
    evict_to_target plain (λ _. true) (λ _. no_delete_faults) 1000 3 store one_tracked ≡ none
unfolding program
evict_to_target-stuck_example =
    evict_to_target-stuck plain (λ _. true) (λ _. no_delete_faults) 1000 3 store one_tracked
      (omega arith) (omega arith) ((io, refl), tt)
