-- ===== src/Tests/Overlays.antt =====
-- The theorem of the overlay, at a sample.
use music_fs.Base.{◌≡◌, refl, none, some, [], ◌∷◌, ok, arith, nat_eq, list_eq, string_eq}
use music_fs.Base.Dict.{lookup, insert}
use music_fs.Base.Slices.{range}
use music_fs.Core.Types.{AudioMeta, flac, unix_secs}
use music_fs.Cas.Hash.{from_bytes, as_hex, le_bytes}
use music_fs.Cas.Store.{chunk_path, put, get, exists, shards, over_limit, store_chunk}
use music_fs.Cas.Fetcher.{ChunkManifest, fetch_file, store_chunks}
use music_fs.Cas.Reader.{FileReader, get_or_fetch_manifest}
use music_fs.Cas.Reader.Ranges.{Stored}
use music_fs.Sync.Cdc.{chunk_refs, chunk_at}
use music_fs.Cache.Overlay.{
  FormatLayout, FormatHandler, Database, OverlayReader, get_by_format, overlay_read,
}
use music_fs.Cache.Overlay.Splice.{virtual_file}
use music_fs.Cache.Overlay.Reads.{overlay_read-range}
use music_fs.Tests.Samples.{plain, pairs, calm, song, fetcher, cold_reader}

program : Unit {0}
unfolding lookup insert from_bytes as_hex le_bytes chunk_path put get exists shards over_limit
    store_chunk fetch_file store_chunks get_or_fetch_manifest chunk_refs chunk_at unix_secs
    get_by_format
program = tt

abbrev warm_reader : FileReader
warm_reader = (get_or_fetch_manifest plain pairs calm cold_reader 1).0

abbrev manifest : ChunkManifest
manifest = record {
  file_id = 1;
  total_size = 5;
  mtime = 3;
  chunks =
      (store_chunks plain calm.put_faults cold_reader.store
        (chunk_refs plain pairs fetcher.chunker song)).1;
}

-- The first byte of the song is its old header.
abbrev layout : FormatLayout
layout = record { audio_start = 1; audio_end = 5; format = flac; format_data = none }

abbrev blank : AudioMeta
blank = record {
  title = none;
  artist = none;
  album = none;
  album_artist = none;
  genre = none;
  year = none;
  track = none;
  disc = none;
  duration_ms = none;
  bitrate = none;
  sample_rate = none;
  format = flac;
  track_total = none;
  disc_total = none;
  date = none;
  composer = none;
  comment = none;
  lyrics = none;
  copyright = none;
  compilation = none;
  artist_sort = none;
  album_artist_sort = none;
  album_sort = none;
  title_sort = none;
  mb_recording_id = none;
  mb_album_id = none;
  mb_artist_id = none;
  mb_album_artist_id = none;
  mb_release_group_id = none;
  replaygain_track_gain = none;
  replaygain_track_peak = none;
  replaygain_album_gain = none;
  replaygain_album_peak = none;
  channels = none;
  bits_per_sample = none;
  encoder = none;
}

abbrev maker : FormatHandler
maker = record {
  synthesize = λ metadata laid_out. ok (7 ∷ 8 ∷ 9 ∷ []);
  estimate_header_size = λ metadata. 3;
}

abbrev tables : Database
tables = record {
  get_format_layout = λ id. ok (some layout);
  get_file_metadata_row = λ id. ok blank;
}

abbrev overlay : OverlayReader
overlay = record { db = tables; registry = ("flac", maker) ∷ []; cas_reader = warm_reader }

song-Stored : Stored plain calm warm_reader.store 0 manifest.chunks song
unfolding program
song-Stored = (
  10 ∷ 20 ∷ [],
  30 ∷ 40 ∷ 50 ∷ [],
  refl,
  refl,
  refl,
  refl,
  (30 ∷ 40 ∷ [], 50 ∷ [], refl, refl, refl, refl, (50 ∷ [], [], refl, refl, refl, refl, refl)),
)

-- Two bytes of the header and two of the audio.
overlay_read-range_example :
    (overlay_read plain pairs calm overlay 1 1 4).1
    ≡ ok (range 1 5 (virtual_file (7 ∷ 8 ∷ 9 ∷ []) layout song))
unfolding program
overlay_read-range_example =
    overlay_read-range plain pairs calm overlay 1 1 4 layout (7 ∷ 8 ∷ 9 ∷ []) manifest song
      (record {
        metadata = blank;
        maker = maker;
        laid_out = refl;
        described = refl;
        handled = refl;
        made = refl;
      })
      refl refl song-Stored (omega arith) (omega arith) (omega arith) (omega arith) (omega arith)
