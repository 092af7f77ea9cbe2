-- ===== src/Tests/Tags.antt =====
-- The theorems of the handlers of tags, at samples.
use Prim.Native.Char.{char}
use Prim.Native.String.{count, ◌∷◌}
use package.text.Mathlib.TextLemmas.{length-cons}
use music_fs.Cache.Tags.Print.{StdTextLaws, NumbersFit, KeptYear, all_digits}
use music_fs.Base.{
  ap, ◌∙◌, true, ℕ, zero, suc, ◌≡◌, ◌↔◌, ◌<◌, refl, false, none, some, Option, List, [], ◌∷◌, ◌++◌,
  String, ok, Result, if◌then◌else◌, length, take, arith, nat_eq, list_eq, string_eq, same,
}
use music_fs.Core.Types.{AudioMeta, flac}
use music_fs.Cas.Hash.{le_bytes}
use music_fs.Cache.Overlay.{FormatLayout, FormatError}
use music_fs.Cache.Tags.{
  StdText, default_meta, before, as_bytes, year_of, parse_replaygain_value, bind, insert_all,
}
use music_fs.Cache.Vorbis.{
  VorbisComments, lower_codes, eq_ignore_ascii_case, build_vorbis_comments, comment_bytes,
  serialize_vorbis_comments, extract_from_vorbis_comments,
}
use music_fs.Cache.Vorbis.Restored.{
  VorbisLaws, restored, extract_from_vorbis_comments-build_vorbis_comments,
}
use music_fs.Cache.Flac.{write_block_header, with_comments, synthesize, analyze}
use music_fs.Cache.Flac.Headers.{analyze-ends, analyze-synthesize}
use music_fs.Cache.Frames.{Slot, text, Id3v2Tag, build_tag_from_meta, extract_from_tag}
use music_fs.Cache.Frames.Restored
use music_fs.Cache.Frames.Restored.{same_slot, Id3v2Laws, extract_from_tag-build_tag_from_meta}
use music_fs.Cache.Id3v2.{
  analyze_format_layout, analyze_format_layout-panics, analyze_format_layout-no_trailer, mp3_layout,
  audio_start_of, header_read_size,
}

-- As many ones as the number says.
abbrev ones : ℕ → String
ones zero = ""
ones (suc n) = char 0x31 tt ∷ ones n

-- Numbers are printed in ones; all gains are zero.
abbrev plain_text : StdText
plain_text = record {
  to_string = ones;
  parse_u32 = λ s. some (count s);
  format_two_digits = λ n. "0.00";
  format_peak = λ n. "0.000000";
  parse_f32 = λ s. some 0;
  trim = λ s. s;
  trim_end_matches = λ s t. if same t " dB" then "0.00" else s;
}

count-ones : (n : ℕ) → count (ones n) ≡ n
count-ones zero = refl
count-ones (suc n) = length-cons (char 0x31 tt) (ones n) ∙ ap suc (count-ones n)

all_digits-ones : (n : ℕ) → all_digits (ones n) ≡ true
unfolding all_digits
all_digits-ones zero = refl
all_digits-ones (suc n) = all_digits-ones n

plain_text-StdTextLaws : StdTextLaws plain_text
plain_text-StdTextLaws = record {
  parse-print = λ n fits. ap some (count-ones n);
  print_digits = all_digits-ones;
  trim_gain = λ n. refl;
  trim_unit = λ n. refl;
  trim_no_unit = λ n. refl;
}

abbrev Pairs : Type 0
Pairs = List (String × String)

abbrev get_pair : Pairs → String → Option String
get_pair [] j = none
get_pair ((key, s) ∷ more) j =
    let rest = get_pair more j in if same (lower_codes key) (lower_codes j) then some s else rest

-- The last value that was inserted stands in front.
abbrev in_front : VorbisComments Pairs
in_front = record {
  empty = [];
  set_title = λ s t. ("TITLE", s) ∷ t;
  set_artist = λ s t. ("ARTIST", s) ∷ t;
  set_album = λ s t. ("ALBUM", s) ∷ t;
  set_genre = λ s t. ("GENRE", s) ∷ t;
  insert = λ key s t. (key, s) ∷ t;
  title = λ t. get_pair t "TITLE";
  artist = λ t. get_pair t "ARTIST";
  album = λ t. get_pair t "ALBUM";
  genre = λ t. get_pair t "GENRE";
  get = get_pair;
  vendor = λ t. "";
  items = λ t. t;
}

in_front-VorbisLaws : VorbisLaws in_front
unfolding eq_ignore_ascii_case
in_front-VorbisLaws = record {
  get-empty = λ key. refl;
  get-insert = λ j key s tag h. refl;
  title_key = λ tag. refl;
  artist_key = λ tag. refl;
  album_key = λ tag. refl;
  genre_key = λ tag. refl;
  set_title_key = λ s tag. refl;
  set_artist_key = λ s tag. refl;
  set_album_key = λ s tag. refl;
  set_genre_key = λ s tag. refl;
}

abbrev tagged : AudioMeta
tagged = record default_meta {
  title = some "Battery";
  track = some 5;
  track_total = some 8;
  date = some "1986-03-03";
  compilation = some false;
}

tagged-NumbersFit : NumbersFit tagged
tagged-NumbersFit = record {
  year = tt;
  track = omega arith;
  track_total = omega arith;
  disc = tt;
  disc_total = tt;
}

extract_from_vorbis_comments-build_vorbis_comments_example :
    (year : Option ℕ) × KeptYear plain_text (some "1986-03-03") none year
    × (extract_from_vorbis_comments plain_text in_front
          (build_vorbis_comments plain_text in_front tagged)
        ≡ restored plain_text tagged year)
extract_from_vorbis_comments-build_vorbis_comments_example =
    extract_from_vorbis_comments-build_vorbis_comments plain_text plain_text-StdTextLaws in_front
      in_front-VorbisLaws tagged tagged-NumbersFit

abbrev zeros : ℕ → List ℕ
zeros zero = []
zeros (suc n) = 0 ∷ zeros n

length-zeros : (n : ℕ) → length (zeros n) ≡ n
length-zeros zero = refl
length-zeros (suc n) = omega (arith, length-zeros n)

abbrev layout : FormatLayout
layout = record { audio_start = 100; audio_end = 200; format = flac; format_data = some (zeros 34) }

abbrev comment_data : List ℕ
comment_data =
    serialize_vorbis_comments plain_text in_front (build_vorbis_comments plain_text in_front tagged)

abbrev new_header : List ℕ
new_header =
    0x66
    ∷ 0x4C
    ∷ 0x61
    ∷ 0x43
    ∷ 0
    ∷ 0
    ∷ 0
    ∷ 34
    ∷ (zeros 34 ++ (0x84 ∷ 0 ∷ 0 ∷ length comment_data ∷ comment_data))

program : Unit {0}
unfolding le_bytes before as_bytes year_of parse_replaygain_value lower_codes eq_ignore_ascii_case
    insert_all build_vorbis_comments comment_bytes serialize_vorbis_comments write_block_header
    with_comments synthesize
program = tt

analyze-synthesize_example :
    analyze (new_header ++ (9 ∷ 9 ∷ [])) 200
    ≡ some (
        ok (record {
          audio_start = length new_header;
          audio_end = 200;
          format = flac;
          format_data = some (zeros 34);
        }))
unfolding program
analyze-synthesize_example =
    analyze-synthesize plain_text in_front tagged (9 ∷ 9 ∷ []) new_header layout 200 (omega arith)
      refl

-- A header whose only block announces more bytes than there are.
abbrev too_short : List ℕ
too_short = 0x66 ∷ 0x4C ∷ 0x61 ∷ 0x43 ∷ 0x01 ∷ 0 ∷ 0 ∷ 34 ∷ []

analyze-ends_example : (r : Result FormatError FormatLayout) × (analyze too_short 8 ≡ some r)
analyze-ends_example = analyze-ends too_short 8

analyze_format_layout-panics_example :
    (analyze_format_layout (1 ∷ 2 ∷ []) ≡ none)
    ↔ ((65_661 < length {A = ℕ} (1 ∷ 2 ∷ [])) × (length {A = ℕ} (1 ∷ 2 ∷ []) < 65_664))
analyze_format_layout-panics_example = analyze_format_layout-panics (1 ∷ 2 ∷ [])

analyze_format_layout-no_trailer_example :
    analyze_format_layout (zeros 65_664)
    ≡ some
        (mp3_layout (audio_start_of (take header_read_size (zeros 65_664))) (length (zeros 65_664)))
analyze_format_layout-no_trailer_example =
    analyze_format_layout-no_trailer (zeros 65_664) (omega (arith, length-zeros 65_664))

abbrev Frames : Type 0
Frames = List (Slot × String)

abbrev get_frame : Frames → Slot → Option String
get_frame [] j = none
get_frame ((k, s) ∷ more) j = let rest = get_frame more j in if same_slot k j then some s else rest

-- A tag whose genres stand for themselves.
abbrev in_front_frames : Id3v2Tag Frames
in_front_frames = record {
  empty = [];
  set_title = λ s t. (text "TIT2", s) ∷ t;
  set_artist = λ s t. (text "TPE1", s) ∷ t;
  set_album = λ s t. (text "TALB", s) ∷ t;
  set_genre = λ s t. (text "TCON", s) ∷ t;
  set = λ k s t. (k, s) ∷ t;
  title = λ t. get_frame t (text "TIT2");
  artist = λ t. get_frame t (text "TPE1");
  album = λ t. get_frame t (text "TALB");
  genre = λ t. bind some (get_frame t (text "TCON"));
  get = get_frame;
  track = λ t. none;
  track_total = λ t. none;
  disk = λ t. none;
  disk_total = λ t. none;
}

in_front-Id3v2Laws : Id3v2Laws in_front_frames
in_front-Id3v2Laws = record {
  get-empty = λ j. refl;
  get-set = λ j k s tag h g. refl;
  read_genre = some;
  title_slot = λ tag. refl;
  artist_slot = λ tag. refl;
  album_slot = λ tag. refl;
  genre_slot = λ tag. refl;
  set_title_slot = λ s tag. refl;
  set_artist_slot = λ s tag. refl;
  set_album_slot = λ s tag. refl;
  set_genre_slot = λ s tag. refl;
  track_slot = λ tag h. refl;
  track_total_slot = λ tag h. refl;
  disk_slot = λ tag h. refl;
  disk_total_slot = λ tag h. refl;
}

extract_from_tag-build_tag_from_meta_example :
    (year : Option ℕ) × KeptYear plain_text (some "1986-03-03") none year
    × (extract_from_tag plain_text in_front_frames
          (build_tag_from_meta plain_text in_front_frames tagged)
        ≡ Restored.restored plain_text some tagged year)
extract_from_tag-build_tag_from_meta_example =
    extract_from_tag-build_tag_from_meta plain_text plain_text-StdTextLaws in_front_frames
      in_front-Id3v2Laws tagged tagged-NumbersFit
