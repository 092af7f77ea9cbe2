-- ===== src/Tests/Samples.antt =====
-- Sample values for what is not part of the repository, and a small store, fetcher and reader.
use music_fs.Base.{
  ℕ, suc, ◌+◌, ◌*◌, ◌%◌, ◌≡◌, false, true, none, some, List, [], ◌∷◌, refl, length, arith, ok,
  nat_eq,
}
use music_fs.Base.Words.{u64_mod}
use music_fs.Core.Types.{FileMeta, FilePath, after_epoch}
use music_fs.Cas.Hash.{Hashing, HexLaws}
use music_fs.Cas.Store.{calculate_size, CasConfig, CasStore, PutFaults, DeleteFaults, written}
use music_fs.Cas.Store.Sizes.{IsAccounted, IsClean}
use music_fs.Cas.Fetcher.{ContentFetcher, ReadFull}
use music_fs.Cas.Reader.{FileReader, Weather}
use music_fs.Sync.Cdc.{FastCdc, CutsAll, Tiles, default_chunker}

abbrev pub mix : List ℕ → ℕ
mix [] = 7
mix (b ∷ bs) = (mix bs * 31 + b) % u64_mod

abbrev pub plain : Hashing
plain = record { xxh64 = mix; hex_encode = λ bs. bs; hex_decode = λ bs. some bs }

pub plain-HexLaws : HexLaws plain
plain-HexLaws = record { decode_encode = λ bs h. refl }

-- Chunks of two bytes, the last one perhaps of one.
abbrev pub pairs_from : ℕ → List ℕ → List (ℕ × ℕ)
pairs_from start [] = []
pairs_from start (x ∷ []) = (start, 1) ∷ []
pairs_from start (x ∷ y ∷ bytes) = (start, 2) ∷ pairs_from (start + 2) bytes

abbrev pub pairs : FastCdc
pairs lo avg hi content = pairs_from 0 content

pairs_from-Tiles :
    (start : ℕ) (content : List ℕ) → Tiles start (pairs_from start content) (start + length content)
pairs_from-Tiles start [] = omega arith
pairs_from-Tiles start (x ∷ []) = (refl, omega arith, omega arith)
pairs_from-Tiles start (x ∷ y ∷ bytes) =
    let e : start + 2 + length bytes ≡ start + suc (suc (length bytes)) = omega arith in
    (refl, omega arith, rw e at (pairs_from-Tiles (start + 2) bytes))

pub pairs-CutsAll : CutsAll pairs
pairs-CutsAll = record { tiles = λ lo avg hi content. tiles content }
  where
    tiles : (content : List ℕ) → Tiles 0 (pairs_from 0 content) (length content)
    tiles content =
        let e : 0 + length content ≡ length content = omega arith in
        rw e at (pairs_from-Tiles 0 content)

abbrev pub limited : CasConfig
limited = record { chunks_dir = (99 ∷ []) ∷ []; max_size = 1000; shard_levels = 2 }

abbrev pub empty_store : CasStore
empty_store = record { config = limited; files = []; index = []; current_size = 0 }

abbrev pub no_put_faults : PutFaults
no_put_faults = record {
  create_dir_fails = false;
  write = written;
  serialize_fails = false;
  index_fails = false;
}

abbrev pub no_delete_faults : DeleteFaults
no_delete_faults = record { metadata_fails = false; remove_file_fails = false; index_fails = false }

pub no_put_faults-IsClean : IsClean no_put_faults
no_put_faults-IsClean = record { write = refl; serialize = refl; index = refl }

pub empty_store-IsAccounted : IsAccounted empty_store
unfolding calculate_size
empty_store-IsAccounted = record {
  unique = tt;
  counted = refl;
  fits = omega arith;
  limited = λ l. omega arith;
}

abbrev pub calm : Weather
calm = record {
  put_faults = λ _. no_put_faults;
  delete_faults = λ _. no_delete_faults;
  read_fails = λ _. false;
}

abbrev pub song : List ℕ
song = 10 ∷ 20 ∷ 30 ∷ 40 ∷ 50 ∷ []

abbrev pub song_path : FilePath
song_path = record { rooted = true; components = "a.flac" ∷ [] }

abbrev pub song_meta : FileMeta
song_meta = record {
  id = 1;
  virtual_path = song_path;
  real_path = record { origin_id = "disk"; path = song_path };
  size = 5;
  mtime = after_epoch 3_000_000_000;
  content_hash = none;
  audio = none;
}

abbrev pub disk : ReadFull
disk _ = ok song

abbrev pub fetcher : ContentFetcher
fetcher = record {
  origins = ("disk", disk) ∷ [];
  file_meta = (1, song_meta) ∷ [];
  has_event_bus = true;
  chunker = default_chunker;
}

abbrev pub cold_reader : FileReader
cold_reader = record { store = empty_store; fetcher = some fetcher; manifests = []; events = [] }
