-- ===== src/Sync/Delta/Changes.antt =====
-- What the detection of changes finds.
use music_fs.Base.{
  nat_eq, Bool-cases, ◌||◌, ℕ, ◌≡◌, refl, sym, ◌∙◌, Bool, true, false, not, Option, none, some,
  List, [], ◌∷◌, ◌++◌, map, keep, append-nil, append_assoc, ok, if◌then◌else◌, same, arith,
  Option-cases, inl, inr,
}
use music_fs.Base.Dict.{lookup, insert, lookup-insert, contains_key}
use music_fs.Core.Types.{FileId, FileMeta, FilePath, FilePath_eq}
use music_fs.Cas.Hash.{Hashing}
use music_fs.Sync.Cdc.{Chunk, chunk_refs, FastCdc, CdcChunker}
use music_fs.Sync.Delta.{
  ScannedFile, ManifestChunk, ChangeSet, Contents, no_changes, is_modified_scan, has_path, by_path,
  compute_chunks_for_scan, compute_diff, compare_scanned, detect_changes,
}

-- Whether a file of the path is cached.
abbrev pub is_cached : List FileMeta → FilePath → Bool
is_cached [] path = false
is_cached (m ∷ ms) path =
    let rest = is_cached ms path in if same m.real_path.path path then true else rest

by_path-is_cached :
    (metas : List FileMeta) (m : List (FilePath × FileMeta)) (path : FilePath)
    → contains_key path (by_path metas m) ≡ (is_cached metas path || contains_key path m)
unfolding by_path
by_path-is_cached [] m path = refl
by_path-is_cached (meta ∷ metas) m path = ground (
  arith,
  by_path-is_cached metas (insert meta.real_path.path meta m) path,
  lookup-insert path meta.real_path.path meta m,
)

or_false : (b : Bool) → (b || false) ≡ b
or_false true = refl
or_false false = refl

-- The scanned files that a cache lacks.
abbrev pub new_files : (FilePath → Bool) → List ScannedFile → List ScannedFile
new_files known = keep (λ f. not (known f.path))

new_files-cong :
    (p q : FilePath → Bool) (fs : List ScannedFile)
    → ((path : FilePath) → p path ≡ q path)
    → new_files p fs ≡ new_files q fs
new_files-cong p q [] same_tests = refl
new_files-cong p q (f ∷ fs) same_tests =
    ground (arith, same_tests f.path, new_files-cong p q fs same_tests)

module _ (h : Hashing) (cdc : FastCdc) (chunker : CdcChunker) (read_full : Contents)
    (answers : (path : FilePath) → (content : List ℕ) × (read_full path ≡ ok content)) where
  chunks_computed :
      (f : ScannedFile)
      → (chunks : List ManifestChunk) × (compute_chunks_for_scan h cdc chunker read_full f
          ≡ ok chunks)
  unfolding compute_chunks_for_scan
  chunks_computed f =
      let (content, e) = answers f.path in
      (
        map (λ (c : Chunk). record { hash = c.hash; offset = c.offset; size = c.size })
            (chunk_refs h cdc chunker content),
        ground (arith, e),
      )

  module _ (cached : List (FilePath × FileMeta))
      (manifests : List (FileId × List ManifestChunk)) where
    abbrev Compared : List ScannedFile → List ScannedFile → ChangeSet → Type 0
    Compared fs added start =
        (changes : ChangeSet) × (compare_scanned h cdc chunker read_full cached manifests fs start
          ≡ ok changes)
        × (changes.added ≡ added)

    compare_new :
        (f : ScannedFile) (fs : List ScannedFile) (start : ChangeSet)
        → lookup f.path cached ≡ none
        → compare_scanned h cdc chunker read_full cached manifests (f ∷ fs) start
          ≡ compare_scanned h cdc chunker read_full cached manifests fs
              (record start { added = start.added ++ (f ∷ []) })
    unfolding compare_scanned
    compare_new f fs start e = ground (arith, e)

    -- A file that is cached adds nothing.
    compare_cached :
        (f : ScannedFile) (fs : List ScannedFile) (start : ChangeSet) (meta : FileMeta)
        → lookup f.path cached ≡ some meta
        → (next : ChangeSet) × (next.added ≡ start.added)
          × (compare_scanned h cdc chunker read_full cached manifests (f ∷ fs) start
              ≡ compare_scanned h cdc chunker read_full cached manifests fs next)
    unfolding compare_scanned
    compare_cached f fs start meta e = elim (Bool-cases (is_modified_scan meta f)) [
      | inr same_file ↦ (start, refl, ground (arith, e, same_file))
      | inl changed ↦ elim (Option-cases (lookup meta.id manifests)) [
        | inl none_known ↦ (start, refl, ground (arith, e, changed, none_known))
        | inr (old_chunks, known) ↦
            let (new_chunks, computed) = chunks_computed f in
            (
              record start {
                modified = start.modified ++ ((meta.id, compute_diff old_chunks new_chunks) ∷ []);
              },
              refl,
              ground (arith, e, changed, known, computed),
            )
      ]
    ]

    compare_scanned-added :
        (fs : List ScannedFile) (start : ChangeSet)
        → Compared fs (start.added ++ new_files (λ path. contains_key path cached) fs) start
    unfolding compare_scanned
    compare_scanned-added [] start = (start, refl, sym (append-nil start.added))
    compare_scanned-added (f ∷ fs) start = go (lookup f.path cached) refl (compare_scanned-added fs)
      where
        go :
            (found : Option FileMeta)
            → lookup f.path cached ≡ found
            → ((x : ChangeSet)
                → Compared fs (x.added ++ new_files (λ path. contains_key path cached) fs) x)
            → Compared
                (f ∷ fs)
                (start.added ++ new_files (λ path. contains_key path cached) (f ∷ fs))
                start
        go none e rest =
            let (changes, run, added) = rest (record start { added = start.added ++ (f ∷ []) }) in
            (
              changes,
              compare_new f fs start e ∙ run,
              ground (
                arith,
                added,
                e,
                append_assoc start.added (f ∷ []) (new_files (λ path. contains_key path cached) fs),
              ),
            )
        go (some meta) e rest =
            let (next, same_added, step) = compare_cached f fs start meta e in
            let (changes, run, added) = rest next in
            (changes, step ∙ run, ground (arith, added, same_added, e))

  -- If the origin answers every read, the detection ends with a change set, whatever the scan
  -- found: added are the scanned files whose path is not cached, and removed are the cached files
  -- whose path was not scanned.
  pub detect_changes-finds :
      (cached : List FileMeta) (manifests : List (FileId × List ManifestChunk))
      (files : List ScannedFile)
      → (changes : ChangeSet) × (detect_changes h cdc chunker read_full cached manifests (ok files)
          ≡ ok changes)
        × (changes.added ≡ new_files (is_cached cached) files)
        × (changes.removed
            ≡ map
                (λ (m : FileMeta). m.id)
                (keep (λ (m : FileMeta). not (has_path files m.real_path.path)) cached))
  unfolding detect_changes lookup
  detect_changes-finds cached manifests files =
      let (changes, run, added) =
        compare_scanned-added (by_path cached []) manifests files no_changes in
      (
        record changes {
          removed =
              map (λ (m : FileMeta). m.id)
                (keep (λ (m : FileMeta). not (has_path files m.real_path.path)) cached);
        },
        ground (arith, run),
        added
            ∙ new_files-cong (λ path. contains_key path (by_path cached [])) (is_cached cached)
                files (λ path. by_path-is_cached cached [] path ∙ or_false (is_cached cached path)),
        refl,
      )
