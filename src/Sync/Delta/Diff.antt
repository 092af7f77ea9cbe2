-- ===== src/Sync/Delta/Diff.antt =====
-- The difference of two manifests.
use music_fs.Base.{
  Bool-cases, ◌&&◌, ◌∙◌, ◌+◌, ◌≡◌, refl, ap, inl, inr, Bool, true, false, not, List, [], ◌∷◌, map,
  keep, length, if◌then◌else◌, same, same_iff, arith,
}
use music_fs.Cas.Hash.{ChunkHash, ChunkHash_eq}
use music_fs.Sync.Delta.{ManifestChunk, has_hash, compute_diff}

length-keep :
    (p : ManifestChunk → Bool) (cs : List ManifestChunk)
    → length (keep p cs) + length (keep (λ c. not (p c)) cs) ≡ length cs
length-keep p [] = refl
length-keep p (c ∷ cs) = ground (arith, length-keep p cs)

has_hash-keep :
    (q : ChunkHash → Bool) (cs : List ManifestChunk) (hash : ChunkHash)
    → has_hash (keep (λ c. q c.hash) cs) hash ≡ (has_hash cs hash && q hash)
unfolding has_hash
has_hash-keep q [] hash = refl
has_hash-keep q (c ∷ cs) hash = elim (Bool-cases (same c.hash hash)) [
  | inl e ↦
      let p : q c.hash ≡ q hash = ap q ((same_iff c.hash hash).0 e) in
      ground (arith, e, p, has_hash-keep q cs hash)
  | inr e ↦ ground (arith, e, has_hash-keep q cs hash)
]

-- Whether a list of hashes contains one.
abbrev pub holds : List ChunkHash → ChunkHash → Bool
holds [] hash = false
holds (k ∷ ks) hash = let rest = holds ks hash in if same k hash then true else rest

holds-map :
    (cs : List ManifestChunk) (hash : ChunkHash)
    → holds (map (λ c. c.hash) cs) hash ≡ has_hash cs hash
unfolding has_hash
holds-map [] hash = refl
holds-map (c ∷ cs) hash = ground (arith, holds-map cs hash)

-- In a difference of manifests the chunks to reuse are those of the new one whose hashes the old
-- one has, the chunks to fetch are the others of the new one, together they are as many as it has,
-- and orphaned are the hashes of the old one that the new one lacks.
pub compute_diff-has_hash :
    (old_chunks new_chunks : List ManifestChunk) (hash : ChunkHash)
    → (has_hash (compute_diff old_chunks new_chunks).reuse hash
        ≡ (has_hash new_chunks hash && has_hash old_chunks hash))
      × (has_hash (compute_diff old_chunks new_chunks).fetch hash
          ≡ (has_hash new_chunks hash && not (has_hash old_chunks hash)))
      × (holds (compute_diff old_chunks new_chunks).orphaned hash
          ≡ (has_hash old_chunks hash && not (has_hash new_chunks hash)))
      × (length (compute_diff old_chunks new_chunks).reuse
            + length (compute_diff old_chunks new_chunks).fetch
          ≡ length new_chunks)
unfolding compute_diff
compute_diff-has_hash old_chunks new_chunks hash = (
  has_hash-keep (has_hash old_chunks) new_chunks hash,
  has_hash-keep (λ k. not (has_hash old_chunks k)) new_chunks hash,
  holds-map (keep (λ c. not (has_hash new_chunks c.hash)) old_chunks) hash
      ∙ has_hash-keep (λ k. not (has_hash new_chunks k)) old_chunks hash,
  length-keep (λ c. has_hash old_chunks c.hash) new_chunks,
)
