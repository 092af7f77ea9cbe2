-- ===== src/Tests/Deltas.antt =====
-- The theorems of the change detection, at samples.
use music_fs.Base.{true, ℕ, ◌≡◌, not, List, [], ◌∷◌, map, keep, refl, ok, nat_eq, list_eq}
use music_fs.Core.Types.{FileMeta, FilePath, after_epoch}
use music_fs.Sync.Cdc.{default_chunker}
use music_fs.Sync.Delta.{
  ScannedFile, ManifestChunk, ChangeSet, has_hash, has_path, compute_diff, detect_changes,
}
use music_fs.Sync.Delta.Changes.{new_files, is_cached, detect_changes-finds}
use music_fs.Tests.Samples.{plain, pairs, disk, song, song_meta, song_path}

abbrev part : ℕ → ManifestChunk
part b = record { hash = record { bytes = b ∷ [] }; offset = b; size = 1 }

abbrev old_chunks : List ManifestChunk
old_chunks = part 1 ∷ part 2 ∷ []

abbrev new_chunks : List ManifestChunk
new_chunks = part 2 ∷ part 3 ∷ []

fetched : (compute_diff old_chunks new_chunks).fetch ≡ part 3 ∷ []
unfolding compute_diff has_hash
fetched = refl

abbrev new_path : FilePath
new_path = record { rooted = true; components = "b.flac" ∷ [] }

-- The cached song changed, and another file came.
abbrev scanned : List ScannedFile
scanned =
    record { path = song_path; origin_id = "disk"; size = 6; mtime = after_epoch 4_000_000_000 }
    ∷ record { path = new_path; origin_id = "disk"; size = 9; mtime = after_epoch 4_000_000_000 }
    ∷ []

detect_changes-finds_example :
    (changes : ChangeSet) × (detect_changes plain pairs default_chunker disk
        (song_meta ∷ [])
        ((1, old_chunks) ∷ [])
        (ok scanned)
      ≡ ok changes)
    × (changes.added ≡ new_files (is_cached (song_meta ∷ [])) scanned)
    × (changes.removed
        ≡ map
            (λ (m : FileMeta). m.id)
            (keep (λ (m : FileMeta). not (has_path scanned m.real_path.path)) (song_meta ∷ [])))
detect_changes-finds_example =
    detect_changes-finds plain pairs default_chunker disk (λ path. (song, refl)) (song_meta ∷ [])
      ((1, old_chunks) ∷ []) scanned
