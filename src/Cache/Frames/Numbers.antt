-- ===== src/Cache/Frames/Numbers.antt =====
-- The text that a number and its total are printed as, and what is parsed of it again.
use Prim.Native.Char.{Char, char, code}
use Prim.Native.String
use Prim.Native.String.{[], ◌∷◌}
use text.Mathlib.TextLemmas.{nil-append, cons-append}
use music_fs.Base.{ℕ, ◌≡◌, refl, ap, ◌∙◌, true, Option, none, some, String, arith}
use music_fs.Cache.Tags.{StdText, bind, fmap, before}
use music_fs.Cache.Tags.Print.{
  StdTextLaws, FitsU32, lacks, before-lacks, before-cut, lacks-to_string,
}
use music_fs.Cache.Frames.{behind, number_text, parse_track_disc}

behind-lacks : (c : ℕ) (s : String) → lacks c s ≡ true → behind c s ≡ none
unfolding behind lacks
behind-lacks c [] h = refl
behind-lacks c (ch ∷ s) h = ground (arith, h, behind-lacks c s)

behind-cut :
    (c : ℕ) (s t : String) (sep : Char)
    → code sep ≡ c
    → lacks c s ≡ true
    → behind c (String.◌++◌ s (sep ∷ t)) ≡ some t
unfolding behind lacks
behind-cut c [] t sep at h = ap (behind c) (nil-append (sep ∷ t)) ∙ ground (arith, at)
behind-cut c (ch ∷ s) t sep at h =
    ap (behind c) (cons-append ch s (sep ∷ t)) ∙ ground (arith, h, behind-cut c s t sep at)

-- The total is kept only behind a number.
abbrev pub kept_total : Option ℕ → Option ℕ → Option ℕ
kept_total none total = none
kept_total (some n) total = total

module _ (std : StdText) (laws : StdTextLaws std) where
  no_slash : (n : ℕ) → lacks 0x2F (std.to_string n) ≡ true
  no_slash n = lacks-to_string std laws 0x2F n (omega arith)

  abbrev slash : Char
  slash = char 0x2F tt

  number_text-cut :
      (n t : ℕ)
      → number_text std n (some t) ≡ String.◌++◌ (std.to_string n) (slash ∷ std.to_string t)
  number_text-cut n t = ap (String.◌++◌ (std.to_string n)) (
      cons-append slash [] (std.to_string t)
      ∙ ap (λ (x : String). slash ∷ x) (nil-append (std.to_string t)))

  pub first_kept :
      (number total : Option ℕ)
      → FitsU32 number
      → bind (λ s. (parse_track_disc std s).0) (fmap (λ n. number_text std n total) number) ≡ number
  unfolding parse_track_disc
  first_kept none total fits = refl
  first_kept (some n) none fits =
      ap std.parse_u32 (before-lacks 0x2F (std.to_string n) (no_slash n)) ∙ laws.parse-print n fits
  first_kept (some n) (some t) fits =
      ap std.parse_u32 (
        ap (before 0x2F) (number_text-cut n t)
        ∙ before-cut 0x2F (std.to_string n) (std.to_string t) slash refl (no_slash n))
      ∙ laws.parse-print n fits

  pub second_kept :
      (number total : Option ℕ)
      → FitsU32 total
      → bind (λ s. (parse_track_disc std s).1) (fmap (λ n. number_text std n total) number)
        ≡ kept_total number total
  unfolding parse_track_disc
  second_kept none total fits = refl
  second_kept (some n) none fits =
      ap (bind (λ (rest : String). std.parse_u32 (before 0x2F rest)))
        (behind-lacks 0x2F (std.to_string n) (no_slash n))
  second_kept (some n) (some t) fits =
      ap (bind (λ (rest : String). std.parse_u32 (before 0x2F rest))) (
        ap (behind 0x2F) (number_text-cut n t)
        ∙ behind-cut 0x2F (std.to_string n) (std.to_string t) slash refl (no_slash n))
      ∙ (ap std.parse_u32 (before-lacks 0x2F (std.to_string t) (no_slash t))
          ∙ laws.parse-print t fits)
