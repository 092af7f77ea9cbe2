-- ===== src/Cache/Frames/Restored.antt =====
-- What is extracted from the frames that were built of some metadata.
use Prim.Native.String.{len}
use music_fs.Base.{
  ℕ, Bool, true, false, ◌≡◌, refl, sym, ap, ◌∙◌, Option, none, some, List, ◌∷◌, String,
  if◌then◌else◌, ◌==◌, same, string_eq,
}
use music_fs.Core.Types.{AudioMeta, mp3}
use music_fs.Cache.Tags.{
  StdText, default_meta, if_some, bind, fmap, or_else, insert_all, year_of, parse_replaygain_value,
  gain_text,
}
use music_fs.Cache.Frames.Numbers.{kept_total, first_kept, second_kept}
use music_fs.Cache.Tags.Print.{
  StdTextLaws, NumbersFit, kept_date, KeptYear, gain_kept, kept_date-eq, year_kept,
}
use music_fs.Cache.Tags.Slots.{or_else-none, if_some-eq, found, all_good, at-insert_all}
use music_fs.Cache.Vorbis.{date_text}
use music_fs.Cache.Frames
use music_fs.Cache.Frames.{
  Slot, text, user, Id3v2Tag, number_text, early_frames, frames, parse_track_disc,
  build_tag_from_meta, first_number, second_number, extract_from_tag,
}

unfoldable pub same_slot : Slot → Slot → Bool
same_slot (text a) (text b) = same a b
same_slot (text a) (user b) = false
same_slot (text a) Frames.comment = false
same_slot (text a) Frames.lyrics = false
same_slot (user a) (text b) = false
same_slot (user a) (user b) = same a b
same_slot (user a) Frames.comment = false
same_slot (user a) Frames.lyrics = false
same_slot Frames.comment (text b) = false
same_slot Frames.comment (user b) = false
same_slot Frames.comment Frames.comment = true
same_slot Frames.comment Frames.lyrics = false
same_slot Frames.lyrics (text b) = false
same_slot Frames.lyrics (user b) = false
same_slot Frames.lyrics Frames.comment = false
same_slot Frames.lyrics Frames.lyrics = true

-- The identity of a frame has four letters.
unfoldable pub good_slot : Slot → Bool
good_slot (text id) = len id == 4
good_slot (user d) = true
good_slot Frames.comment = true
good_slot Frames.lyrics = true

-- What the documentation of lofty says: an insert takes the place of what stands in the slot; the
-- accessors stand for four frames, where the text of a genre may be a number that stands for a
-- name; the numbers of track and disc are read of their frames.
pub record Id3v2Laws {T : Type 0} (v : Id3v2Tag T) : Type 0 where
  pub get-empty : (j : Slot) → v.get v.empty j ≡ none
  pub get-set :
      (j k : Slot) (s : String) (tag : T)
      → good_slot j ≡ true
      → good_slot k ≡ true
      → v.get (v.set k s tag) j ≡ (if same_slot k j then some s else v.get tag j)
  pub read_genre : String → Option String
  pub title_slot : (tag : T) → v.title tag ≡ v.get tag (text "TIT2")
  pub artist_slot : (tag : T) → v.artist tag ≡ v.get tag (text "TPE1")
  pub album_slot : (tag : T) → v.album tag ≡ v.get tag (text "TALB")
  pub genre_slot : (tag : T) → v.genre tag ≡ bind read_genre (v.get tag (text "TCON"))
  pub set_title_slot : (s : String) (tag : T) → v.set_title s tag ≡ v.set (text "TIT2") s tag
  pub set_artist_slot : (s : String) (tag : T) → v.set_artist s tag ≡ v.set (text "TPE1") s tag
  pub set_album_slot : (s : String) (tag : T) → v.set_album s tag ≡ v.set (text "TALB") s tag
  pub set_genre_slot : (s : String) (tag : T) → v.set_genre s tag ≡ v.set (text "TCON") s tag
  pub track_slot : (tag : T) → v.get tag (text "TRCK") ≡ none → v.track tag ≡ none
  pub track_total_slot : (tag : T) → v.get tag (text "TRCK") ≡ none → v.track_total tag ≡ none
  pub disk_slot : (tag : T) → v.get tag (text "TPOS") ≡ none → v.disk tag ≡ none
  pub disk_total_slot : (tag : T) → v.get tag (text "TPOS") ≡ none → v.disk_total tag ≡ none

-- What the frames keep of some metadata: a total only behind its number, and the gains and peaks
-- of the printed digits.
abbrev pub restored : StdText → (String → Option String) → AudioMeta → Option ℕ → AudioMeta
restored std read_genre m year = record default_meta {
  format = mp3;
  title = m.title;
  artist = m.artist;
  album = m.album;
  genre = bind read_genre m.genre;
  album_artist = m.album_artist;
  composer = m.composer;
  copyright = m.copyright;
  title_sort = m.title_sort;
  artist_sort = m.artist_sort;
  album_sort = m.album_sort;
  album_artist_sort = m.album_artist_sort;
  encoder = m.encoder;
  mb_recording_id = m.mb_recording_id;
  mb_album_id = m.mb_album_id;
  mb_artist_id = m.mb_artist_id;
  mb_album_artist_id = m.mb_album_artist_id;
  mb_release_group_id = m.mb_release_group_id;
  comment = m.comment;
  lyrics = m.lyrics;
  compilation = m.compilation;
  date = kept_date std m.date m.year;
  year = year;
  track = m.track;
  track_total = kept_total m.track m.track_total;
  disc = m.disc;
  disc_total = kept_total m.disc m.disc_total;
  replaygain_track_gain = bind std.parse_f32 (fmap std.format_two_digits m.replaygain_track_gain);
  replaygain_track_peak = bind std.parse_f32 (fmap std.format_peak m.replaygain_track_peak);
  replaygain_album_gain = bind std.parse_f32 (fmap std.format_two_digits m.replaygain_album_gain);
  replaygain_album_peak = bind std.parse_f32 (fmap std.format_peak m.replaygain_album_peak);
}

module _ (std : StdText) (std_laws : StdTextLaws std) {T : Type 0} (v : Id3v2Tag T)
    (laws : Id3v2Laws v) where
  abbrev all_frames : AudioMeta → List (Slot × Option String)
  all_frames m =
      (text "TIT2", m.title)
      ∷ (text "TPE1", m.artist)
      ∷ (text "TALB", m.album)
      ∷ (text "TPE2", m.album_artist)
      ∷ (text "TDRC", fmap std.to_string m.year)
      ∷ (text "TCON", m.genre)
      ∷ frames std m

  build_tag_from_meta-insert_all :
      (m : AudioMeta) → build_tag_from_meta std v m ≡ insert_all v.set (all_frames m) v.empty
  unfolding build_tag_from_meta insert_all
  build_tag_from_meta-insert_all m = ap (insert_all v.set (frames std m)) (
      if_some-eq v.set_genre (v.set (text "TCON")) laws.set_genre_slot m.genre _
      ∙ ap (if_some (v.set (text "TCON")) m.genre) (
          ap (insert_all v.set (early_frames std m)) (
            if_some-eq v.set_album (v.set (text "TALB")) laws.set_album_slot m.album _
            ∙ ap (if_some (v.set (text "TALB")) m.album) (
                if_some-eq v.set_artist (v.set (text "TPE1")) laws.set_artist_slot m.artist _
                ∙ ap (if_some (v.set (text "TPE1")) m.artist) (
                    if_some-eq v.set_title (v.set (text "TIT2")) laws.set_title_slot m.title
                      v.empty)))))

  valid : (m : AudioMeta) → all_good v.set v.get same_slot good_slot (all_frames m) ≡ true
  unfolding all_good good_slot
  valid m = refl

  module _ (m : AudioMeta) (fits : NumbersFit m) where
    abbrev tag : T
    tag = build_tag_from_meta std v m

    under :
        (j : Slot) (value : Option String)
        → good_slot j ≡ true
        → found v.set v.get same_slot good_slot j (all_frames m) none ≡ or_else value none
        → v.get tag j ≡ value
    under j value h e =
        ap (λ (x : T). v.get x j) (build_tag_from_meta-insert_all m)
        ∙ (at-insert_all v.set v.get same_slot good_slot laws.get-set j (all_frames m) v.empty h
              (valid m)
            ∙ (ap (found v.set v.get same_slot good_slot j (all_frames m)) (laws.get-empty j)
                ∙ (e ∙ or_else-none value)))

    date_kept :
        or_else m.date (or_else (fmap std.to_string m.year) none) ≡ or_else (date_text std m) none
    date_kept =
        ap (or_else m.date) (or_else-none (fmap std.to_string m.year))
        ∙ sym (or_else-none (date_text std m))

    flag_set : (c : Option Bool) → fmap (λ s. same s "1") (fmap (Frames.flag std) c) ≡ c
    flag_set none = refl
    flag_set (some true) = refl
    flag_set (some false) = refl

    first_number-eq :
        (o : Option String) (n : Option ℕ)
        → (o ≡ none → n ≡ none)
        → first_number std v o n ≡ bind (λ s. (parse_track_disc std s).0) o
    first_number-eq none n e = e refl
    first_number-eq (some s) n e = refl

    second_number-eq :
        (o : Option String) (n : Option ℕ)
        → (o ≡ none → n ≡ none)
        → second_number std v o n ≡ bind (λ s. (parse_track_disc std s).1) o
    second_number-eq none n e = e refl
    second_number-eq (some s) n e = refl

    track_text : v.get tag (text "TRCK") ≡ fmap (λ n. number_text std n m.track_total) m.track
    unfolding found same_slot good_slot
    track_text = under (text "TRCK") (fmap (λ n. number_text std n m.track_total) m.track) refl refl

    disc_text : v.get tag (text "TPOS") ≡ fmap (λ n. number_text std n m.disc_total) m.disc
    unfolding found same_slot good_slot
    disc_text = under (text "TPOS") (fmap (λ n. number_text std n m.disc_total) m.disc) refl refl

    extract_from_tag-restored :
        extract_from_tag std v (build_tag_from_meta std v m)
        ≡ restored std laws.read_genre m (bind (year_of std) (date_text std m))
    unfolding extract_from_tag found same_slot good_slot
    extract_from_tag-restored = λ i. record default_meta {
      format = mp3;
      title = (laws.title_slot tag ∙ under (text "TIT2") m.title refl refl) i;
      artist = (laws.artist_slot tag ∙ under (text "TPE1") m.artist refl refl) i;
      album = (laws.album_slot tag ∙ under (text "TALB") m.album refl refl) i;
      genre =
          (laws.genre_slot tag ∙ ap (bind laws.read_genre) (under (text "TCON") m.genre refl refl))
            i;
      date =
          (under (text "TDRC") (date_text std m) refl date_kept
              ∙ kept_date-eq std std_laws m.date m.year)
            i;
      year = bind (year_of std) (under (text "TDRC") (date_text std m) refl date_kept i);
      comment = under Frames.comment m.comment refl refl i;
      lyrics = under Frames.lyrics m.lyrics refl refl i;
      track =
          (first_number-eq (v.get tag (text "TRCK")) (v.track tag) (laws.track_slot tag)
              ∙ (ap (bind (λ s. (parse_track_disc std s).0)) track_text
                  ∙ first_kept std std_laws m.track m.track_total fits.track))
            i;
      track_total =
          (second_number-eq (v.get tag (text "TRCK")) (v.track_total tag)
                (laws.track_total_slot tag)
              ∙ (ap (bind (λ s. (parse_track_disc std s).1)) track_text
                  ∙ second_kept std std_laws m.track m.track_total fits.track_total))
            i;
      disc =
          (first_number-eq (v.get tag (text "TPOS")) (v.disk tag) (laws.disk_slot tag)
              ∙ (ap (bind (λ s. (parse_track_disc std s).0)) disc_text
                  ∙ first_kept std std_laws m.disc m.disc_total fits.disc))
            i;
      disc_total =
          (second_number-eq (v.get tag (text "TPOS")) (v.disk_total tag) (laws.disk_total_slot tag)
              ∙ (ap (bind (λ s. (parse_track_disc std s).1)) disc_text
                  ∙ second_kept std std_laws m.disc m.disc_total fits.disc_total))
            i;
      compilation =
          (ap (fmap (λ s. same s "1"))
                (under (text "TCMP") (fmap (Frames.flag std) m.compilation) refl refl)
              ∙ flag_set m.compilation)
            i;
      album_artist = under (text "TPE2") m.album_artist refl refl i;
      composer = under (text "TCOM") m.composer refl refl i;
      copyright = under (text "TCOP") m.copyright refl refl i;
      title_sort = under (text "TSOT") m.title_sort refl refl i;
      artist_sort = under (text "TSOP") m.artist_sort refl refl i;
      album_sort = under (text "TSOA") m.album_sort refl refl i;
      album_artist_sort = under (text "TSO2") m.album_artist_sort refl refl i;
      encoder = under (text "TSSE") m.encoder refl refl i;
      mb_recording_id = under (user "MusicBrainz Recording Id") m.mb_recording_id refl refl i;
      mb_album_id = under (user "MusicBrainz Album Id") m.mb_album_id refl refl i;
      mb_artist_id = under (user "MusicBrainz Artist Id") m.mb_artist_id refl refl i;
      mb_album_artist_id =
          under (user "MusicBrainz Album Artist Id") m.mb_album_artist_id refl refl i;
      mb_release_group_id =
          under (user "MusicBrainz Release Group Id") m.mb_release_group_id refl refl i;
      replaygain_track_gain =
          (ap (bind (parse_replaygain_value std)) (
                under (user "REPLAYGAIN_TRACK_GAIN") (fmap (gain_text std) m.replaygain_track_gain)
                  refl refl)
              ∙ gain_kept std std_laws m.replaygain_track_gain)
            i;
      replaygain_track_peak = bind std.parse_f32 (
          under (user "REPLAYGAIN_TRACK_PEAK") (fmap std.format_peak m.replaygain_track_peak) refl
            refl i);
      replaygain_album_gain =
          (ap (bind (parse_replaygain_value std)) (
                under (user "REPLAYGAIN_ALBUM_GAIN") (fmap (gain_text std) m.replaygain_album_gain)
                  refl refl)
              ∙ gain_kept std std_laws m.replaygain_album_gain)
            i;
      replaygain_album_peak = bind std.parse_f32 (
          under (user "REPLAYGAIN_ALBUM_PEAK") (fmap std.format_peak m.replaygain_album_peak) refl
            refl i);
    }

    -- What is extracted from the ID3v2 tag that was built of some metadata is that metadata, field
    -- by field: the texts, the flag, the numbers of track and disc, and their totals where there is
    -- a number; the date, and without one the year in digits; the year, which of a date is the
    -- number in front of its first dash, if that is one; the genre as lofty reads it; the gains and
    -- peaks as the numbers that their printed digits are parsed as; nothing of what the frames do
    -- not hold, and MP3 as the format; if the numbers fit 32 bits, and lofty's tag and the standard
    -- library's printing keep their documented laws.
    pub extract_from_tag-build_tag_from_meta :
        (year : Option ℕ) × KeptYear std m.date m.year year
        × (extract_from_tag std v (build_tag_from_meta std v m)
            ≡ restored std laws.read_genre m year)
    extract_from_tag-build_tag_from_meta = (
      bind (year_of std) (date_text std m),
      year_kept std std_laws m.date m.year fits.year,
      extract_from_tag-restored,
    )
