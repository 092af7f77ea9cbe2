-- ===== src/Cas/Fetcher/Rounds.antt =====
-- One round of the loop of `fetch_file`: a chunk is stored unless it is there.
use music_fs.Base.{
  ℕ, ◌+◌, ◌<◌, ◌≤◌, ◌≡◌, ◌≢◌, refl, sym, ap, ◌∙◌, true, false, none, some, List, length, arith,
  if◌then◌else◌, nat_eq, list_eq, same_iff, Option-cases, inl, inr,
}
use music_fs.Base.Dict.{lookup, insert, lookup-insert, contains_key}
use music_fs.Base.Words.{u64_mod}
use music_fs.Sync.Cdc.{Chunk}
use music_fs.Cas.Hash.{Hashing, ChunkHash, ChunkHash_eq, from_bytes}
use music_fs.Cas.Store.{
  CasStore, CasConfig, ChunkPath, PutFaults, chunk_path, put, exists, over_limit,
}
use music_fs.Cas.Store.Sizes.{IsClean}

-- Nothing fails during a `put`.
pub record IsSound (f : PutFaults) : Type 0 where
  pub create : f.create_dir_fails ≡ false
  pub clean : IsClean f

module _ (h : Hashing) (config : CasConfig) where
  abbrev pub path_of : Chunk → ChunkPath
  path_of k = chunk_path h config k.hash

  -- There is room for `n` more bytes: the counter does not wrap, and the limit, if any, is kept.
  pub record HasRoom (c : CasStore) (n : ℕ) : Type 0 where
    pub no_wrap : c.current_size + n < u64_mod
    pub limit : 0 < config.max_size → c.current_size + n ≤ config.max_size

  -- No other bytes stand where the chunk goes.
  abbrev pub OwnPlace : CasStore → Chunk → Type 0
  OwnPlace c k = (other : List ℕ) → lookup (path_of k) c.files ≡ some other → other ≡ k.content

  -- What a round gives: the chunk stands at its path, what was there stays, nothing else comes.
  pub record Round (c c' : CasStore) (k : Chunk) : Type 0 where
    pub same_config : c'.config ≡ config
    pub here : lookup (path_of k) c'.files ≡ some k.content
    pub stays :
        (p : ChunkPath) (v : List ℕ) → lookup p c.files ≡ some v → lookup p c'.files ≡ some v
    pub only : (p : ChunkPath) → path_of k ≢ p → lookup p c'.files ≡ lookup p c.files
    pub room : (n : ℕ) → HasRoom c (length k.content + n) → HasRoom c' n

  abbrev pub store_one : (ChunkHash → PutFaults) → CasStore → Chunk → CasStore
  store_one faults c k = if exists h c k.hash then c else (put h (faults k.hash) c k.content).0

  exists-eq :
      (c : CasStore) (hash : ChunkHash)
      → c.config ≡ config
      → exists h c hash ≡ contains_key (chunk_path h config hash) c.files
  unfolding exists
  exists-eq c hash e = ap (λ (g : CasConfig). contains_key (chunk_path h g hash) c.files) e

  over_limit_room :
      (c : CasStore) (content : List ℕ)
      → c.config ≡ config
      → HasRoom c (length content)
      → over_limit c content ≡ false
  unfolding over_limit
  over_limit_room c content e room =
      ground (arith, ap (λ (g : CasConfig). g.max_size) e, room.limit, room.no_wrap)

  Round-present :
      (faults : ChunkHash → PutFaults) (c : CasStore) (k : Chunk) {other : List ℕ}
      → c.config ≡ config
      → OwnPlace c k
      → lookup (path_of k) c.files ≡ some other
      → Round c (store_one faults c k) k
  Round-present faults c k {other} e own old =
      let there : exists h c k.hash ≡ true = ground (arith, exists-eq c k.hash e) in
      rw there (record {
        same_config = e;
        here = old ∙ ap some (own other old);
        stays = λ p v q. q;
        only = λ p q. refl;
        room = λ n r. record {
          no_wrap = omega (arith, r.no_wrap);
          limit = λ l. omega (arith, r.limit l);
        };
      })

  -- What `put` does to a store with room whose path is free.
  put_fresh :
      (f : PutFaults) (c : CasStore) (content : List ℕ)
      → IsSound f
      → over_limit c content ≡ false
      → c.current_size + length content < u64_mod
      → lookup (chunk_path h c.config (from_bytes h content)) c.files ≡ none
      → ((put h f c content).0.config ≡ c.config)
        × ((put h f c content).0.files
            ≡ insert (chunk_path h c.config (from_bytes h content)) content c.files)
        × ((put h f c content).0.current_size ≡ c.current_size + length content)
  unfolding put
  put_fresh f c content sound room fits fresh = ground arith

  Round-absent :
      (faults : ChunkHash → PutFaults) (c : CasStore) (k : Chunk)
      → c.config ≡ config
      → k.hash ≡ from_bytes h k.content
      → IsSound (faults k.hash)
      → HasRoom c (length k.content)
      → lookup (path_of k) c.files ≡ none
      → Round c (store_one faults c k) k
  Round-absent faults c k e hashed sound room fresh =
      let absent : exists h c k.hash ≡ false = ground (arith, exists-eq c k.hash e) in
      let spot : chunk_path h c.config (from_bytes h k.content) ≡ path_of k =
        ap (λ (g : CasConfig). chunk_path h g (from_bytes h k.content)) e
        ∙ ap (chunk_path h config) (sym hashed) in
      let (conf, files, size) =
        put_fresh (faults k.hash) c k.content sound (over_limit_room c k.content e room)
          room.no_wrap (ap (λ (p : ChunkPath). lookup p c.files) spot ∙ fresh) in
      let at : (put h (faults k.hash) c k.content).0.files ≡ insert (path_of k) k.content c.files =
        files ∙ ap (λ (p : ChunkPath). insert p k.content c.files) spot in
      rw absent (record {
        same_config = conf ∙ e;
        here = rw at (
            ground (
              arith,
              lookup-insert (path_of k) (path_of k) k.content c.files,
              same_iff (path_of k) (path_of k),
            ));
        stays = λ p v q.
            rw at (
              ground
                (arith, lookup-insert p (path_of k) k.content c.files, same_iff (path_of k) p));
        only = λ p q.
            rw at (
              ground
                (arith, lookup-insert p (path_of k) k.content c.files, same_iff (path_of k) p));
        room = λ n r. record {
          no_wrap = omega (arith, r.no_wrap, size);
          limit = λ l. omega (arith, r.limit l, size);
        };
      })

  pub Round-store_one :
      (faults : ChunkHash → PutFaults) (c : CasStore) (k : Chunk)
      → c.config ≡ config
      → k.hash ≡ from_bytes h k.content
      → IsSound (faults k.hash)
      → HasRoom c (length k.content)
      → OwnPlace c k
      → Round c (store_one faults c k) k
  Round-store_one faults c k e hashed sound room own =
      elim (Option-cases (lookup (path_of k) c.files)) [
        | inl fresh ↦ Round-absent faults c k e hashed sound room fresh
        | inr (other, old) ↦ Round-present faults c k e own old
      ]
