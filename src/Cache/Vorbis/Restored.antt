-- ===== src/Cache/Vorbis/Restored.antt =====
-- What is extracted from the comments that were built of some metadata.
use Prim.Native.Char.{code}
use Prim.Native.String.{[], ◌∷◌}
use music_fs.Base.{
  ℕ, ◌&&◌, not, Bool, true, false, ◌≡◌, refl, ap, ◌∙◌, Option, none, some, List, [], ◌∷◌, String,
  if◌then◌else◌, leb, ◌==◌, nat_eq, list_eq, string_eq,
}
use music_fs.Core.Types.{AudioMeta, flac}
use music_fs.Cache.Tags.{
  StdText, default_meta, year_of, parse_replaygain_value, gain_text, if_some, bind, fmap, or_else,
  insert_all,
}
use music_fs.Cache.Tags.Print.{
  StdTextLaws, NumbersFit, kept_date, KeptYear, number_kept, gain_kept, kept_date-eq, year_kept,
}
use music_fs.Cache.Tags.Slots.{or_else-none, if_some-eq, found, all_good, at-insert_all}
use music_fs.Cache.Vorbis.{
  VorbisComments, eq_ignore_ascii_case, date_text, fields, flag, is_set, build_vorbis_comments,
  extract_from_vorbis_comments,
}

-- Keys are of printable ASCII without `=`.
unfoldable pub valid_key : String → Bool
valid_key [] = true
valid_key (ch ∷ s) =
    leb 0x20 (code ch) && leb (code ch) 0x7D && not (code ch == 0x3D) && valid_key s

-- What the documentation of lofty says: an insert takes the place of what stands under the key,
-- whose case is ignored, and the accessors stand for four keys.
pub record VorbisLaws {T : Type 0} (v : VorbisComments T) : Type 0 where
  pub get-empty : (key : String) → v.get v.empty key ≡ none
  pub get-insert :
      (j key s : String) (tag : T)
      → valid_key key ≡ true
      → v.get (v.insert key s tag) j ≡ (if eq_ignore_ascii_case key j then some s else v.get tag j)
  pub title_key : (tag : T) → v.title tag ≡ v.get tag "TITLE"
  pub artist_key : (tag : T) → v.artist tag ≡ v.get tag "ARTIST"
  pub album_key : (tag : T) → v.album tag ≡ v.get tag "ALBUM"
  pub genre_key : (tag : T) → v.genre tag ≡ v.get tag "GENRE"
  pub set_title_key : (s : String) (tag : T) → v.set_title s tag ≡ v.insert "TITLE" s tag
  pub set_artist_key : (s : String) (tag : T) → v.set_artist s tag ≡ v.insert "ARTIST" s tag
  pub set_album_key : (s : String) (tag : T) → v.set_album s tag ≡ v.insert "ALBUM" s tag
  pub set_genre_key : (s : String) (tag : T) → v.set_genre s tag ≡ v.insert "GENRE" s tag

-- What the comments keep of some metadata; the gains and peaks are those of the printed digits.
abbrev pub restored : StdText → AudioMeta → Option ℕ → AudioMeta
restored std m year = record default_meta {
  format = flac;
  title = m.title;
  artist = m.artist;
  album = m.album;
  genre = m.genre;
  album_artist = m.album_artist;
  composer = m.composer;
  comment = m.comment;
  lyrics = m.lyrics;
  copyright = m.copyright;
  title_sort = m.title_sort;
  artist_sort = m.artist_sort;
  album_sort = m.album_sort;
  album_artist_sort = m.album_artist_sort;
  mb_recording_id = m.mb_recording_id;
  mb_album_id = m.mb_album_id;
  mb_artist_id = m.mb_artist_id;
  mb_album_artist_id = m.mb_album_artist_id;
  mb_release_group_id = m.mb_release_group_id;
  encoder = m.encoder;
  compilation = m.compilation;
  date = kept_date std m.date m.year;
  year = year;
  track = m.track;
  track_total = m.track_total;
  disc = m.disc;
  disc_total = m.disc_total;
  replaygain_track_gain = bind std.parse_f32 (fmap std.format_two_digits m.replaygain_track_gain);
  replaygain_track_peak = bind std.parse_f32 (fmap std.format_peak m.replaygain_track_peak);
  replaygain_album_gain = bind std.parse_f32 (fmap std.format_two_digits m.replaygain_album_gain);
  replaygain_album_peak = bind std.parse_f32 (fmap std.format_peak m.replaygain_album_peak);
}

module _ (std : StdText) (std_laws : StdTextLaws std) {T : Type 0} (v : VorbisComments T)
    (laws : VorbisLaws v) where
  abbrev all_fields : AudioMeta → List (String × Option String)
  all_fields m =
      ("TITLE", m.title)
      ∷ ("ARTIST", m.artist)
      ∷ ("ALBUM", m.album)
      ∷ ("GENRE", m.genre)
      ∷ fields std m

  build_vorbis_comments-insert_all :
      (m : AudioMeta) → build_vorbis_comments std v m ≡ insert_all v.insert (all_fields m) v.empty
  unfolding build_vorbis_comments insert_all
  build_vorbis_comments-insert_all m = ap (insert_all v.insert (fields std m)) (
      if_some-eq v.set_genre (v.insert "GENRE") laws.set_genre_key m.genre _
      ∙ ap (if_some (v.insert "GENRE") m.genre) (
          if_some-eq v.set_album (v.insert "ALBUM") laws.set_album_key m.album _
          ∙ ap (if_some (v.insert "ALBUM") m.album) (
              if_some-eq v.set_artist (v.insert "ARTIST") laws.set_artist_key m.artist _
              ∙ ap (if_some (v.insert "ARTIST") m.artist)
                  (if_some-eq v.set_title (v.insert "TITLE") laws.set_title_key m.title v.empty))))

  valid :
      (m : AudioMeta) → all_good v.insert v.get eq_ignore_ascii_case valid_key (all_fields m) ≡ true
  unfolding all_good valid_key
  valid m = refl

  get-build :
      (m : AudioMeta) (j : String)
      → valid_key j ≡ true
      → v.get (build_vorbis_comments std v m) j
        ≡ found v.insert v.get eq_ignore_ascii_case valid_key j (all_fields m) none
  get-build m j h =
      ap (λ (tag : T). v.get tag j) (build_vorbis_comments-insert_all m)
      ∙ (at-insert_all v.insert v.get eq_ignore_ascii_case valid_key
            (λ j key s tag h k. laws.get-insert j key s tag k) j (all_fields m) v.empty h (valid m)
          ∙ ap (found v.insert v.get eq_ignore_ascii_case valid_key j (all_fields m))
              (laws.get-empty j))

  -- A key stands once among the fields.
  module _ (m : AudioMeta) (fits : NumbersFit m) where
    abbrev tag : T
    tag = build_vorbis_comments std v m

    under :
        (j : String) (value : Option String)
        → valid_key j ≡ true
        → found v.insert v.get eq_ignore_ascii_case valid_key j (all_fields m) none
          ≡ or_else value none
        → v.get tag j ≡ value
    under j value h e = get-build m j h ∙ (e ∙ or_else-none value)

    flag_set : (c : Option Bool) → fmap (is_set std v) (fmap (flag std) c) ≡ c
    unfolding eq_ignore_ascii_case
    flag_set none = refl
    flag_set (some true) = refl
    flag_set (some false) = refl

    extract_from_vorbis_comments-restored :
        extract_from_vorbis_comments std v (build_vorbis_comments std v m)
        ≡ restored std m (bind (year_of std) (date_text std m))
    unfolding extract_from_vorbis_comments found valid_key eq_ignore_ascii_case
    extract_from_vorbis_comments-restored = λ i. record default_meta {
      format = flac;
      title = (laws.title_key tag ∙ under "TITLE" m.title refl refl) i;
      artist = (laws.artist_key tag ∙ under "ARTIST" m.artist refl refl) i;
      album = (laws.album_key tag ∙ under "ALBUM" m.album refl refl) i;
      genre = (laws.genre_key tag ∙ under "GENRE" m.genre refl refl) i;
      date = (under "DATE" (date_text std m) refl refl ∙ kept_date-eq std std_laws m.date m.year) i;
      year = bind (year_of std) (under "DATE" (date_text std m) refl refl i);
      album_artist = under "ALBUMARTIST" m.album_artist refl refl i;
      composer = under "COMPOSER" m.composer refl refl i;
      comment = under "COMMENT" m.comment refl refl i;
      lyrics = under "LYRICS" m.lyrics refl refl i;
      copyright = under "COPYRIGHT" m.copyright refl refl i;
      title_sort = under "TITLESORT" m.title_sort refl refl i;
      artist_sort = under "ARTISTSORT" m.artist_sort refl refl i;
      album_sort = under "ALBUMSORT" m.album_sort refl refl i;
      album_artist_sort = under "ALBUMARTISTSORT" m.album_artist_sort refl refl i;
      mb_recording_id = under "MUSICBRAINZ_TRACKID" m.mb_recording_id refl refl i;
      mb_album_id = under "MUSICBRAINZ_ALBUMID" m.mb_album_id refl refl i;
      mb_artist_id = under "MUSICBRAINZ_ARTISTID" m.mb_artist_id refl refl i;
      mb_album_artist_id = under "MUSICBRAINZ_ALBUMARTISTID" m.mb_album_artist_id refl refl i;
      mb_release_group_id = under "MUSICBRAINZ_RELEASEGROUPID" m.mb_release_group_id refl refl i;
      encoder = under "ENCODER" m.encoder refl refl i;
      track =
          (ap (bind std.parse_u32) (under "TRACKNUMBER" (fmap std.to_string m.track) refl refl)
              ∙ number_kept std std_laws m.track fits.track)
            i;
      track_total =
          (ap (bind std.parse_u32) (under "TRACKTOTAL" (fmap std.to_string m.track_total) refl refl)
              ∙ number_kept std std_laws m.track_total fits.track_total)
            i;
      disc =
          (ap (bind std.parse_u32) (under "DISCNUMBER" (fmap std.to_string m.disc) refl refl)
              ∙ number_kept std std_laws m.disc fits.disc)
            i;
      disc_total =
          (ap (bind std.parse_u32) (under "DISCTOTAL" (fmap std.to_string m.disc_total) refl refl)
              ∙ number_kept std std_laws m.disc_total fits.disc_total)
            i;
      compilation =
          (ap (fmap (is_set std v)) (under "COMPILATION" (fmap (flag std) m.compilation) refl refl)
              ∙ flag_set m.compilation)
            i;
      replaygain_track_gain =
          (ap (bind (parse_replaygain_value std)) (
                under "REPLAYGAIN_TRACK_GAIN" (fmap (gain_text std) m.replaygain_track_gain) refl
                  refl)
              ∙ gain_kept std std_laws m.replaygain_track_gain)
            i;
      replaygain_track_peak = bind std.parse_f32 (
          under "REPLAYGAIN_TRACK_PEAK" (fmap std.format_peak m.replaygain_track_peak) refl refl i);
      replaygain_album_gain =
          (ap (bind (parse_replaygain_value std)) (
                under "REPLAYGAIN_ALBUM_GAIN" (fmap (gain_text std) m.replaygain_album_gain) refl
                  refl)
              ∙ gain_kept std std_laws m.replaygain_album_gain)
            i;
      replaygain_album_peak = bind std.parse_f32 (
          under "REPLAYGAIN_ALBUM_PEAK" (fmap std.format_peak m.replaygain_album_peak) refl refl i);
    }

    -- What is extracted from the Vorbis comments that were built of some metadata is that metadata,
    -- field by field: the texts, the flag, the numbers of track and disc and their totals; the
    -- date, and without one the year in digits; the year, which of a date is the number in front of
    -- its first dash, if that is one; the gains and peaks as the numbers that their printed digits
    -- are parsed as; nothing of what the comments do not hold, and FLAC as the format; if the
    -- numbers fit 32 bits, and lofty's comments and the standard library's printing keep their
    -- documented laws.
    pub extract_from_vorbis_comments-build_vorbis_comments :
        (year : Option ℕ) × KeptYear std m.date m.year year
        × (extract_from_vorbis_comments std v (build_vorbis_comments std v m) ≡ restored std m year)
    extract_from_vorbis_comments-build_vorbis_comments = (
      bind (year_of std) (date_text std m),
      year_kept std std_laws m.date m.year fits.year,
      extract_from_vorbis_comments-restored,
    )
