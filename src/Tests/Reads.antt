-- ===== src/Tests/Reads.antt =====
-- The theorems of the reader, at samples.
use music_fs.Base.{All, err, List, list_eq, nat_eq, string_eq, ◌≡◌, refl, [], ◌∷◌, arith, ok}
use music_fs.Base.Dict.{lookup, insert}
use music_fs.Base.Slices.{range}
use music_fs.Cas.Reader.Full.{IsRejected, read-not_found}
use music_fs.Cas.Reader.{cas, FileReader, read, get_or_fetch_manifest}
use music_fs.Cas.Store.{not_found, chunk_path, put, get, exists, shards, over_limit, store_chunk}
use music_fs.Sync.Cdc.{Chunk, chunk_refs, chunk_at}
use music_fs.Tests.Samples.{
  limited, plain, pairs, pairs-CutsAll, calm, no_put_faults-IsClean, song, song_meta, disk, fetcher,
  cold_reader,
}
use music_fs.Core.Types.{unix_secs}
use music_fs.Cas.Hash.{from_bytes, as_hex, le_bytes}
use music_fs.Cas.Fetcher.{fetch_file, store_chunks, ChunkManifest}
use music_fs.Cas.Reader.Ranges.{Stored, read_exact}
use music_fs.Cas.Reader.Complete.{read_through, IsKnown, CanTake, IsCalm, Cached}

program : Unit {0}
unfolding lookup insert from_bytes as_hex le_bytes chunk_path put get exists shards over_limit
    store_chunk fetch_file store_chunks get_or_fetch_manifest chunk_refs chunk_at unix_secs
program = tt

song-IsKnown : IsKnown fetcher 1 song
unfolding program
song-IsKnown = record {
  meta = song_meta;
  origin = disk;
  listed = refl;
  registered = refl;
  answers = refl;
  sized = refl;
}

calm-IsCalm : IsCalm calm
calm-IsCalm = record {
  puts = λ _. record { create = refl; clean = no_put_faults-IsClean };
  reads = λ _. refl;
}

song-CanTake : CanTake plain pairs cold_reader.store fetcher song
unfolding program
song-CanTake = record {
  room = record { no_wrap = omega arith; limit = λ l. omega arith };
  own = (λ other p. cc, (λ other p. cc, (λ other p. cc, tt)));
  clash = ((λ p. ground arith, (λ p. ground arith, tt)), ((λ p. ground arith, tt), (tt, tt)));
}

read_through_example :
    ((read plain pairs calm cold_reader 1 1 3).1 ≡ ok (range 1 4 song))
    × Cached plain calm (read plain pairs calm cold_reader 1 1 3).0 1 song
unfolding program
read_through_example =
    read_through plain pairs calm cold_reader fetcher 1 1 3 song pairs-CutsAll calm-IsCalm refl refl
      song-IsKnown song-CanTake (omega arith)

abbrev warm_reader : FileReader
warm_reader = (get_or_fetch_manifest plain pairs calm cold_reader 1).0

abbrev manifest : ChunkManifest
manifest = record {
  file_id = 1;
  total_size = 5;
  mtime = 3;
  chunks =
      (store_chunks plain calm.put_faults cold_reader.store
        (chunk_refs plain pairs fetcher.chunker song)).1;
}

song-Stored : Stored plain calm warm_reader.store 0 manifest.chunks song
unfolding program
song-Stored = (
  10 ∷ 20 ∷ [],
  30 ∷ 40 ∷ 50 ∷ [],
  refl,
  refl,
  refl,
  refl,
  (30 ∷ 40 ∷ [], 50 ∷ [], refl, refl, refl, refl, (50 ∷ [], [], refl, refl, refl, refl, refl)),
)

read_exact_example :
    ((read plain pairs calm warm_reader 1 3 9).1 ≡ ok (range 3 12 song))
    × ((read plain pairs calm warm_reader 1 3 9).0.store ≡ warm_reader.store)
unfolding program
read_exact_example =
    read_exact plain pairs calm warm_reader 1 3 9 manifest song refl refl song-Stored (omega arith)
      (omega arith)

-- A store that has room for one byte.
abbrev full_reader : FileReader
full_reader = record cold_reader {
  store = record cold_reader.store { config = record limited { max_size = 1 }; current_size = 1 };
}

abbrev chunks : List Chunk
chunks = chunk_refs plain pairs fetcher.chunker song

abbrev first : Chunk
first = chunk_at plain song (0, 2)

abbrev others : List Chunk
others = chunk_at plain song (2, 2) ∷ chunk_at plain song (4, 1) ∷ []

chunks-cut : chunks ≡ first ∷ others
unfolding program
chunks-cut = refl

chunks-IsRejected : All (IsRejected plain full_reader.store) (first ∷ others)
unfolding program
chunks-IsRejected = ((refl, refl, refl), ((refl, refl, refl), ((refl, refl, refl), tt)))

read-not_found_example :
    (read plain pairs calm full_reader 1 0 3).1 ≡ err (cas (not_found (as_hex plain first.hash)))
unfolding program
read-not_found_example =
    read-not_found plain pairs calm full_reader fetcher 1 0 3 song first others pairs-CutsAll refl
      refl song-IsKnown chunks-cut chunks-IsRejected (omega arith) (omega arith) (omega arith)
      (omega arith)
