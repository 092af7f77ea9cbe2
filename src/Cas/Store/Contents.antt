-- ===== src/Cas/Store/Contents.antt =====
-- What a client reads back from the store.
use music_fs.Base.{
  nat_eq, list_eq, ℕ, ◌<◌, ◌≡◌, ◌≢◌, ◌⊎◌, refl, Bool, false, none, some, List, arith, same_iff, ok,
  err, Option-cases, inl, inr,
}
use music_fs.Base.Dict.{lookup, lookup-insert, lookup-remove}
use music_fs.Cas.Hash.{Hashing, ChunkHash, ChunkHash_eq, from_bytes, as_hex}
use music_fs.Cas.Store.{
  ChunkPath, CasStore, PutFaults, DeleteFaults, written, write_failed, WriteResult, chunk_path, put,
  get, delete, exists, integrity_error, over_limit,
}

WriteResult-cases :
    (w : WriteResult)
    → (w ≡ written) ⊎ ((w ≡ write_failed none) ⊎ ((l : List ℕ) × (w ≡ write_failed (some l))))
WriteResult-cases written = inl refl
WriteResult-cases (write_failed none) = inr (inl refl)
WriteResult-cases (write_failed (some l)) = inr (inr (l, refl))

module _ (h : Hashing) where
  -- With a size limit, what get returns has the hash that was asked for.
  pub get-verified :
      (read_fails : ChunkHash → Bool) (c : CasStore) (hash : ChunkHash) {content : List ℕ}
      → 0 < c.config.max_size
      → get h read_fails c hash ≡ ok content
      → from_bytes h content ≡ hash
  unfolding get
  get-verified read_fails c hash {content} limit e = ground (
    arith,
    Option-cases (lookup (chunk_path h c.config hash) c.files),
    same_iff (from_bytes h content) hash,
  )

  -- A put that succeeds can be read back, if no other content stands at the path of its hash and
  -- reading the file does not fail.
  pub get-put :
      (f : PutFaults) (read_fails : ChunkHash → Bool) (c : CasStore) (content : List ℕ)
      {hash : ChunkHash}
      → ((other : List ℕ)
          → lookup (chunk_path h c.config (from_bytes h content)) c.files ≡ some other
          → other ≡ content)
      → (put h f c content).1 ≡ ok hash
      → read_fails hash ≡ false
      → get h read_fails (put h f c content).0 hash ≡ ok content
  unfolding put get
  get-put f read_fails c content {hash} distinct e readable =
      let own = chunk_path h c.config (from_bytes h content) in
      elim (Option-cases (lookup own c.files)) [
        | inl fresh ↦ ground (
          arith,
          same_iff own own,
          same_iff (from_bytes h content) (from_bytes h content),
          lookup-insert own own content c.files,
        )
        | inr (other, old) ↦
            ground
              (arith, distinct other old, same_iff (from_bytes h content) (from_bytes h content))
      ]

  -- A put, whatever fails, changes nothing that is stored under another path.
  pub put_keeps :
      (f : PutFaults) (c : CasStore) (content : List ℕ) (path : ChunkPath)
      → chunk_path h c.config (from_bytes h content) ≢ path
      → lookup path (put h f c content).0.files ≡ lookup path c.files
  unfolding put
  put_keeps f c content path ne =
      let own = chunk_path h c.config (from_bytes h content) in
      elim (WriteResult-cases f.write) [
        | inl done ↦ ground (arith, done, same_iff own path, lookup-insert path own content c.files)
        | inr (inl failed) ↦ ground (arith, failed)
        | inr (inr (left, failed)) ↦
            ground (arith, failed, same_iff own path, lookup-insert path own left c.files)
      ]

  -- A delete, whatever fails, changes nothing that is stored under another path.
  pub delete_keeps :
      (f : DeleteFaults) (c : CasStore) (hash : ChunkHash) (path : ChunkPath)
      → chunk_path h c.config hash ≢ path
      → lookup path (delete h f c hash).0.files ≡ lookup path c.files
  unfolding delete
  delete_keeps f c hash path ne =
      let own = chunk_path h c.config hash in
      ground (arith, same_iff own path, lookup-remove path own c.files)

  -- After a delete that succeeds the chunk is gone.
  pub exists-delete :
      (f : DeleteFaults) (c : CasStore) (hash : ChunkHash)
      → (delete h f c hash).1 ≡ ok tt
      → exists h (delete h f c hash).0 hash ≡ false
  unfolding delete exists
  exists-delete f c hash e =
      let own = chunk_path h c.config hash in
      ground (arith, same_iff own own, lookup-remove own own c.files)

  -- With a size limit, after a write that fails and leaves bytes of another hash at a path that was
  -- free, the next put of the same content reports success and writes nothing, and a get fails its
  -- integrity check; if reading does not fail.
  pub put_after_failed_write :
      (f g : PutFaults) (read_fails : ChunkHash → Bool) (c : CasStore) (content left : List ℕ)
      → 0 < c.config.max_size
      → lookup (chunk_path h c.config (from_bytes h content)) c.files ≡ none
      → over_limit c content ≡ false
      → f.create_dir_fails ≡ false
      → f.write ≡ write_failed (some left)
      → from_bytes h left ≢ from_bytes h content
      → read_fails (from_bytes h content) ≡ false
      → (put h g (put h f c content).0 content ≡ ((put h f c content).0, ok (from_bytes h content)))
        × (get h read_fails (put h f c content).0 (from_bytes h content)
            ≡ err
                (integrity_error (as_hex h (from_bytes h content)) (as_hex h (from_bytes h left))))
  unfolding put get
  put_after_failed_write f g read_fails c content left limit fresh room dir fault ne readable =
      let own = chunk_path h c.config (from_bytes h content) in
      (
        ground (arith, same_iff own own, lookup-insert own own left c.files),
        ground (
          arith,
          same_iff (from_bytes h left) (from_bytes h content),
          same_iff own own,
          lookup-insert own own left c.files,
        ),
      )
