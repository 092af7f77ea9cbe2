-- ===== src/Sync/Delta.antt =====
-- `DeltaDetector` of crates/musicfs-sync/src/delta.rs, from the files that the scan of an origin
-- found. A map or set that the code collects is a list.
pub mod Diff
pub mod Changes
use music_fs.Base.{
  ℕ, Bool, true, false, not, ◌||◌, Option, none, some, List, [], ◌∷◌, ◌++◌, map, keep, String,
  Result, ok, err, if◌then◌else◌, ◌==◌, same, nat_eq,
}
use music_fs.Base.Dict.{lookup, insert}
use music_fs.Core.Types.{
  FileId, FileMeta, FilePath, FilePath_eq, OriginId, SystemTime, after_epoch, before_epoch,
}
use music_fs.Cas.Hash.{Hashing, ChunkHash, ChunkHash_eq}
use music_fs.Sync.Cdc.{FastCdc, CdcChunker, Chunk, chunk_refs}

pub record ScannedFile : Type 0 where
  pub path : FilePath
  pub origin_id : OriginId
  pub size : ℕ
  pub mtime : SystemTime

pub record ManifestChunk : Type 0 where
  pub hash : ChunkHash
  pub offset : ℕ
  pub size : ℕ

pub record ManifestDiff : Type 0 where
  pub reuse : List ManifestChunk
  pub fetch : List ManifestChunk
  pub orphaned : List ChunkHash

pub record ChangeSet : Type 0 where
  pub added : List ScannedFile
  pub removed : List FileId
  pub modified : List (FileId × ManifestDiff)

abbrev pub no_changes : ChangeSet
no_changes = record { added = []; removed = []; modified = [] }

pub data DeltaError : Type 0 where
  origin_read origin_scan : String → DeltaError

abbrev pub same_time : SystemTime → SystemTime → Bool
same_time (after_epoch m) (after_epoch n) = m == n
same_time (before_epoch m) (before_epoch n) = m == n
same_time _ _ = false

unfoldable pub is_modified_scan : FileMeta → ScannedFile → Bool
is_modified_scan cached scanned =
    not (cached.size == scanned.size) || not (same_time cached.mtime scanned.mtime)

-- Whether a set of hashes, collected from chunks, contains one.
unfoldable pub has_hash : List ManifestChunk → ChunkHash → Bool
has_hash [] hash = false
has_hash (c ∷ cs) hash = let rest = has_hash cs hash in if same c.hash hash then true else rest

unfoldable pub compute_diff : List ManifestChunk → List ManifestChunk → ManifestDiff
compute_diff old_chunks new_chunks = record {
  reuse = keep (λ c. has_hash old_chunks c.hash) new_chunks;
  fetch = keep (λ c. not (has_hash old_chunks c.hash)) new_chunks;
  orphaned = map (λ c. c.hash) (keep (λ c. not (has_hash new_chunks c.hash)) old_chunks);
}

-- Whether the set of the scanned paths contains one.
unfoldable pub has_path : List ScannedFile → FilePath → Bool
has_path [] path = false
has_path (f ∷ fs) path = let rest = has_path fs path in if same f.path path then true else rest

-- The map from paths to what is cached; of two files of one path the last stays.
unfoldable pub by_path : List FileMeta → List (FilePath × FileMeta) → List (FilePath × FileMeta)
by_path [] m = m
by_path (meta ∷ metas) m = by_path metas (insert meta.real_path.path meta m)

-- `read_full` of the origin, with the text of its error.
abbrev pub Contents : Type 0
Contents = FilePath → Result String (List ℕ)

module _ (h : Hashing) (cdc : FastCdc) (chunker : CdcChunker) (read_full : Contents) where
  unfoldable pub compute_chunks_for_scan : ScannedFile → Result DeltaError (List ManifestChunk)
  unfolding chunk_refs
  compute_chunks_for_scan scanned = elim (read_full scanned.path) [
    | err e ↦ err (origin_read e)
    | ok content ↦ ok (
        map (λ (c : Chunk). record { hash = c.hash; offset = c.offset; size = c.size })
          (chunk_refs h cdc chunker content))
  ]

  -- The loop over the scanned files.
  unfoldable pub compare_scanned :
      List (FilePath × FileMeta)
      → List (FileId × List ManifestChunk)
      → List ScannedFile
      → ChangeSet
      → Result DeltaError ChangeSet
  compare_scanned cached manifests [] changes = ok changes
  compare_scanned cached manifests (f ∷ fs) changes = elim (lookup f.path cached) [
    | none ↦
        compare_scanned cached manifests fs (record changes { added = changes.added ++ (f ∷ []) })
    | some meta ↦
        let unchanged = compare_scanned cached manifests fs changes in
        if is_modified_scan meta f
        then elim (lookup meta.id manifests) [
          | none ↦ unchanged
          | some old_chunks ↦ elim (compute_chunks_for_scan f) [
            | err e ↦ err e
            | ok new_chunks ↦ compare_scanned cached manifests fs (record changes {
              modified = changes.modified ++ ((meta.id, compute_diff old_chunks new_chunks) ∷ []);
            })
          ]
        ]
        else unchanged
  ]

  unfoldable pub detect_changes :
      List FileMeta
      → List (FileId × List ManifestChunk)
      → Result DeltaError (List ScannedFile)
      → Result DeltaError ChangeSet
  unfolding compare_scanned by_path
  detect_changes cached manifests scan = elim scan [
    | err e ↦ err e
    | ok files ↦ elim (compare_scanned (by_path cached []) manifests files no_changes) [
      | err e ↦ err e
      | ok changes ↦ ok (record changes {
        removed =
            map (λ (m : FileMeta). m.id)
              (keep (λ (m : FileMeta). not (has_path files m.real_path.path)) cached);
      })
    ]
  ]
