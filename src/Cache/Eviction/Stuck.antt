-- ===== src/Cache/Eviction/Stuck.antt =====
-- The eviction goes on for ever where its victims cannot be read.
use music_fs.Base.{
  ℕ, zero, suc, ◌<◌, ◌≡◌, refl, ap, Bool, none, List, [], ◌∷◌, length, All, nat_eq, list_eq, arith,
  ok, err,
}
use music_fs.Cas.Hash.{Hashing, ChunkHash, ChunkHash_eq}
use music_fs.Cas.Store.{CasStore, CasError, DeleteFaults, get}
use music_fs.Cache.Eviction.{
  LruEviction, Eviction, select_victims, evict_victims, evict_rounds, evict_to_target,
}

module _ (h : Hashing) (read_fails : ChunkHash → Bool) (faults : ChunkHash → DeleteFaults) where
  abbrev Lost : CasStore → List ChunkHash → Type 0
  Lost c = All (λ k. (x : CasError) × (get h read_fails c k ≡ err x))

  evict_victims-Lost :
      (victims : List ChunkHash) (e : Eviction)
      → Lost e.store victims
      → evict_victims h read_fails faults victims e ≡ (e, ok tt)
  unfolding evict_victims
  evict_victims-Lost [] e lost = refl
  evict_victims-Lost (hash ∷ victims) e ((x, failed), lost) =
      ground (arith, failed, evict_victims-Lost victims e lost)

  round_Lost :
      (fuel target : ℕ) (e : Eviction) (hash : ChunkHash) (victims : List ChunkHash)
      → target < e.store.current_size
      → select_victims 10 e.lru ≡ hash ∷ victims
      → evict_victims h read_fails faults (hash ∷ victims) e ≡ (e, ok tt)
      → evict_rounds h read_fails faults fuel target e ≡ none
  unfolding evict_rounds
  round_Lost zero target e hash victims big first run = refl
  round_Lost (suc fuel) target e hash victims big first run =
      ground (arith, first, run, round_Lost fuel target e hash victims big first run)

  -- If the store is over the target, and there are victims of which none can be read, the eviction
  -- never ends: no number of rounds is enough.
  pub evict_to_target-stuck :
      (fuel target : ℕ) (store : CasStore) (lru : LruEviction)
      → target < store.current_size
      → 0 < length (select_victims 10 lru)
      → All (λ k. (x : CasError) × (get h read_fails store k ≡ err x)) (select_victims 10 lru)
      → evict_to_target h read_fails faults fuel target store lru ≡ none
  unfolding evict_to_target
  evict_to_target-stuck fuel target store lru big some_left lost = go (select_victims 10 lru) refl
    where
      go :
          (victims : List ChunkHash)
          → select_victims 10 lru ≡ victims
          → evict_rounds h read_fails faults fuel target
              (record { store = store; lru = lru; bytes_freed = 0 })
            ≡ none
      go [] eq = absurd (omega (arith, some_left, ap length eq))
      go (hash ∷ victims) eq =
          let lost' : Lost store (hash ∷ victims) = rw eq at lost in
          round_Lost fuel target (record { store = store; lru = lru; bytes_freed = 0 }) hash victims
            big eq
            (evict_victims-Lost (hash ∷ victims)
              (record { store = store; lru = lru; bytes_freed = 0 }) lost')
