-- ===== src/Tests/Names.antt =====
-- The theorem of the path resolver, and a run of it, at samples.
use music_fs.Base.{map, String, ◌≡◌, refl, false, some}
use music_fs.Core.Resolver.{
  PathText, PathTextLaws, is_forbidden, codes, underscored, default_template, is_special,
  clean_chars, replace_from, sanitize_path_component, two_digits, resolve, any_char,
  any_char-sanitize_path_component,
}
use music_fs.Cache.Tags.{default_meta}

-- The only number of the sample is seven; nothing is there to trim.
abbrev plain_text : PathText
plain_text = record {
  to_string = λ n. "7";
  trim = λ s. s;
  to_lowercase = λ s. s;
  to_uppercase = λ s. s;
}

plain_text-PathTextLaws : PathTextLaws plain_text
plain_text-PathTextLaws = record { any_char-trim = λ p s h. h }

any_char-sanitize_path_component_example :
    (any_char is_forbidden (sanitize_path_component plain_text "AC/DC") ≡ false)
    × ((u : String) × (sanitize_path_component plain_text "AC/DC" ≡ plain_text.trim u)
        × (codes u ≡ map underscored (codes "AC/DC")))
any_char-sanitize_path_component_example =
    any_char-sanitize_path_component plain_text plain_text-PathTextLaws "AC/DC"

-- A title that holds a placeholder is expanded, and an artist may climb.
resolve_run :
    resolve plain_text
      (record default_template { pattern = "$artist/$title" })
      (record default_meta { artist = some ".."; title = some "$year"; year = some 1986 })
      "flac"
    ≡ "../7"
unfolding resolve sanitize_path_component clean_chars is_special replace_from two_digits
resolve_run = refl
