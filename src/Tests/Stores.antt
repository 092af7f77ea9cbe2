-- ===== src/Tests/Stores.antt =====
-- The theorems of the content-addressed store and of the chunker, at samples.
use music_fs.Base.{
  list_eq, nat_eq, ℕ, ◌+◌, ◌≡◌, ◌≢◌, refl, false, true, some, List, [], ◌∷◌, arith, ok, err,
}
use music_fs.Base.Dict.{lookup, insert, remove}
use music_fs.Base.Words.{sub_u64}
use music_fs.Cas.Hash.{ChunkHash, from_bytes, from_hex, as_hex, le_bytes}
use music_fs.Cas.Store.{
  CasStore, PutFaults, write_failed, integrity_error, chunk_path, put, get, delete, exists, shards,
  over_limit, store_chunk,
}
use music_fs.Cas.Store.Sizes.{
  IsAccounted, put-IsAccounted, delete-IsAccounted, delete_after_index_failure,
}
use music_fs.Cas.Store.Contents.{get-verified, get-put, put_after_failed_write}
use music_fs.Sync.Cdc.{chunk_refs, Chunk, default_chunker}
use music_fs.Sync.Cdc.Tiling.{Covers, chunk_refs-Covers}
use music_fs.Tests.Samples.{
  plain, pairs, pairs-CutsAll, empty_store, no_put_faults, no_delete_faults, no_put_faults-IsClean,
  empty_store-IsAccounted, song,
}

program : Unit {0}
unfolding lookup insert remove from_bytes from_hex as_hex le_bytes chunk_path put get delete exists
    shards over_limit store_chunk
program = tt

abbrev key : ChunkHash
key = from_bytes plain song

abbrev full_store : CasStore
full_store = (put plain no_put_faults empty_store song).0

put_then_get : get plain (λ _. false) full_store key ≡ ok song
unfolding program
put_then_get = refl

get-put_example : get plain (λ _. false) full_store key ≡ ok song
unfolding program
get-put_example =
    get-put plain no_put_faults (λ _. false) empty_store song (λ other p. cc) refl refl

get-verified_example : from_bytes plain song ≡ key
unfolding program
get-verified_example = get-verified plain (λ _. false) full_store key (omega arith) put_then_get

put-IsAccounted_example : IsAccounted full_store
put-IsAccounted_example =
    put-IsAccounted plain no_put_faults empty_store song empty_store-IsAccounted
      no_put_faults-IsClean (omega arith)

full_store-IsAccounted : IsAccounted full_store
full_store-IsAccounted =
    put-IsAccounted plain no_put_faults empty_store song empty_store-IsAccounted
      no_put_faults-IsClean (omega arith)

delete-IsAccounted_example : IsAccounted (delete plain no_delete_faults full_store key).0
delete-IsAccounted_example =
    delete-IsAccounted plain no_delete_faults full_store key full_store-IsAccounted refl

abbrev other_key : ChunkHash
other_key = record { bytes = 0 ∷ [] }

keys_differ :
    chunk_path plain empty_store.config key ≢ chunk_path plain empty_store.config other_key
unfolding program
keys_differ p = ground arith

abbrev key_path : List (List ℕ)
key_path = chunk_path plain full_store.config key

abbrev torn : PutFaults
torn = record no_put_faults { write = write_failed (some (10 ∷ [])) }

put_after_failed_write_example :
    (put plain no_put_faults (put plain torn empty_store song).0 song
      ≡ ((put plain torn empty_store song).0, ok key))
    × (get plain (λ _. false) (put plain torn empty_store song).0 key
        ≡ err (integrity_error (as_hex plain key) (as_hex plain (from_bytes plain (10 ∷ [])))))
unfolding program
put_after_failed_write_example =
    put_after_failed_write plain torn no_put_faults (λ _. false) empty_store song (10 ∷ [])
      (omega arith) refl refl refl refl (λ p. ground arith) refl

abbrev unindexed : PutFaults
unindexed = record no_put_faults { index_fails = true }

delete_after_index_failure_example :
    (delete plain no_delete_faults (put plain unindexed empty_store song).0 key).0.current_size
    ≡ sub_u64 0 5
unfolding program
delete_after_index_failure_example =
    delete_after_index_failure plain unindexed no_delete_faults empty_store song refl refl refl refl
      refl refl refl refl refl

chunk_refs-Covers_example : Covers plain 0 (chunk_refs plain pairs default_chunker song) song
chunk_refs-Covers_example = chunk_refs-Covers plain pairs default_chunker song pairs-CutsAll

abbrev total : Chunk → ℕ → ℕ
total k n = n + k.size
