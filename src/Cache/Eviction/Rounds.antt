-- ===== src/Cache/Eviction/Rounds.antt =====
-- The eviction ends where its chunks can be read.
use music_fs.Base.{
  ℕ, zero, suc, ◌<◌, ◌≤◌, ◌≡◌, ◌⊎◌, refl, ap, ◌∙◌, Bool, false, some, List, [], ◌∷◌, length, take,
  All, ltb, same_iff, nat_eq, list_eq, arith, Bool-cases, inl, inr, Result, ok, err,
}
use music_fs.Base.Words.{add_u64}
use music_fs.Cas.Hash.{Hashing, HexLaws, ChunkHash, ChunkHash_eq}
use music_fs.Cas.Store.{CasStore, CasError, DeleteFaults, get, delete}
use music_fs.Cache.Eviction.{
  LruEviction, Eviction, hashes, select_victims, remove_hash, evict_victims, evict_rounds,
  evict_to_target,
}
use music_fs.Cache.Eviction.Pairs.{IsPaired, remove_hash-IsPaired}
use music_fs.Cache.Eviction.Order.{without, hashes-remove_hash}
use music_fs.Cache.Eviction.Readable.{
  IsQuiet, Bytes, length-without, All-without, All-take, IsReadable, IsTracking, delete_quiet,
  get_readable, IsReadable-delete, All-Bytes,
}

module _ (h : Hashing) (laws : HexLaws h) (read_fails : ChunkHash → Bool)
    (faults : ChunkHash → DeleteFaults) (fine : (k : ChunkHash) → read_fails k ≡ false)
    (quiet : (k : ChunkHash) → IsQuiet (faults k)) where
  abbrev after : ChunkHash → List ℕ → Eviction → Eviction
  after hash content e = record {
    store = (delete h (faults hash) e.store hash).0;
    lru = remove_hash hash e.lru;
    bytes_freed = add_u64 e.bytes_freed (length content);
  }

  after-IsTracking :
      (hash : ChunkHash) (content : List ℕ) (e : Eviction)
      → Bytes hash
      → IsTracking h e
      → IsTracking h (after hash content e)
  after-IsTracking hash content e small t = record {
    paired = remove_hash-IsPaired hash e.lru t.paired;
    readable = rw (hashes-remove_hash hash e.lru t.paired) (
        All-without (IsReadable h e.store) (IsReadable h (delete h (faults hash) e.store hash).0)
          hash (hashes e.lru.access_times)
          (λ k. IsReadable-delete h (faults hash) e.store hash k laws (quiet hash) small)
          t.readable);
  }

  evict_victims-cons :
      (hash : ChunkHash) (victims : List ChunkHash) (content : List ℕ) (e : Eviction)
      → get h read_fails e.store hash ≡ ok content
      → evict_victims h read_fails faults (hash ∷ victims) e
        ≡ evict_victims h read_fails faults victims (after hash content e)
  unfolding evict_victims
  evict_victims-cons hash victims content e got =
      ground (arith, got, (delete_quiet h (faults hash) e.store hash (quiet hash)).0)

  -- What a round leaves.
  abbrev Left : List ChunkHash → ℕ → Eviction → Type 0
  Left victims n e =
      (e' : Eviction) × (evict_victims h read_fails faults victims e ≡ (e', ok tt))
      × IsTracking h e'
      × (length (hashes e'.lru.access_times) ≤ n)

  evict_victims-Left :
      (victims : List ChunkHash) (e : Eviction)
      → All Bytes victims
      → IsTracking h e
      → Left victims (length (hashes e.lru.access_times)) e
  unfolding evict_victims
  evict_victims-Left [] e small t = (e, refl, t, omega arith)
  evict_victims-Left (hash ∷ victims) e small t =
      go (get h read_fails e.store hash) refl (λ x u. evict_victims-Left victims x small.1 u)
    where
      go :
          (r : Result CasError (List ℕ))
          → get h read_fails e.store hash ≡ r
          → ((x : Eviction) → IsTracking h x → Left victims (length (hashes x.lru.access_times)) x)
          → Left (hash ∷ victims) (length (hashes e.lru.access_times)) e
      go (ok content) got rest =
          let (e', run, t', less) =
            rest (after hash content e) (after-IsTracking hash content e small.0 t) in
          (
            e',
            evict_victims-cons hash victims content e got ∙ run,
            t',
            omega (
              arith,
              less,
              length-without hash (hashes e.lru.access_times),
              ap length (hashes-remove_hash hash e.lru t.paired),
            ),
          )
      go (err x) got rest =
          let (e', run, t', less) = rest e t in (e', ground (arith, got, run), t', less)

  -- A round whose first victim is the first of the queue takes that out.
  evict_victims-shrinks :
      (hash : ChunkHash) (victims others : List ChunkHash) (e : Eviction)
      → hashes e.lru.access_times ≡ hash ∷ others
      → All Bytes victims
      → IsTracking h e
      → Left (hash ∷ victims) (length others) e
  evict_victims-shrinks hash victims others e first small t =
      let all : All (IsReadable h e.store) (hash ∷ others) = rw first at t.readable in
      let head = all.0 in
      let got = get_readable h read_fails e.store hash (fine hash) head in
      let (e', run, t', less) =
        evict_victims-Left victims (after hash head.content e) small
          (after-IsTracking hash head.content e head.bytes t) in
      let gone : without hash (hash ∷ others) ≡ without hash others =
        ground (arith, same_iff hash hash) in
      let left : length (hashes (remove_hash hash e.lru).access_times) ≤ length others = omega (
        arith,
        length-without hash others,
        ap length (hashes-remove_hash hash e.lru t.paired ∙ (ap (without hash) first ∙ gone)),
      ) in
      (e', evict_victims-cons hash victims head.content e got ∙ run, t', omega (arith, less, left))

  abbrev Ended : ℕ → Eviction → Type 0
  Ended target e = (e.store.current_size ≤ target) ⊎ (hashes e.lru.access_times ≡ [])

  abbrev Ends : ℕ → ℕ → Eviction → Type 0
  Ends fuel target e =
      (e' : Eviction) × (evict_rounds h read_fails faults fuel target e
        ≡ some (e', ok e'.bytes_freed))
      × IsTracking h e'
      × Ended target e'

  round_done :
      (fuel target : ℕ) (e : Eviction)
      → e.store.current_size ≤ target
      → evict_rounds h read_fails faults (suc fuel) target e ≡ some (e, ok e.bytes_freed)
  unfolding evict_rounds
  round_done fuel target e small = ground arith

  round_empty :
      (fuel target : ℕ) (e : Eviction)
      → hashes e.lru.access_times ≡ []
      → evict_rounds h read_fails faults (suc fuel) target e ≡ some (e, ok e.bytes_freed)
  unfolding evict_rounds select_victims
  round_empty fuel target e none_left = ground (arith, none_left)

  round_goes_on :
      (fuel target : ℕ) (e e' : Eviction) (hash : ChunkHash) (others : List ChunkHash)
      → target < e.store.current_size
      → hashes e.lru.access_times ≡ hash ∷ others
      → evict_victims h read_fails faults (hash ∷ take 9 others) e ≡ (e', ok tt)
      → evict_rounds h read_fails faults (suc fuel) target e
        ≡ evict_rounds h read_fails faults fuel target e'
  unfolding evict_rounds select_victims
  round_goes_on fuel target e e' hash others big first run = ground (arith, first, run)

  evict_rounds-Ends :
      (fuel target : ℕ) (e : Eviction)
      → length (hashes e.lru.access_times) < fuel
      → IsTracking h e
      → Ends fuel target e
  evict_rounds-Ends zero target e l t = absurd (omega arith)
  evict_rounds-Ends (suc fuel) target e l t =
      go (hashes e.lru.access_times) refl (λ x s u. evict_rounds-Ends fuel target x s u)
    where
      go :
          (q : List ChunkHash)
          → hashes e.lru.access_times ≡ q
          → ((x : Eviction)
              → length (hashes x.lru.access_times) < fuel
              → IsTracking h x
              → Ends fuel target x)
          → Ends (suc fuel) target e
      go [] eq rest = (e, round_empty fuel target e eq, t, inr eq)
      go (hash ∷ others) eq rest = elim (Bool-cases (ltb target e.store.current_size)) [
        | inr done ↦
            (e, round_done fuel target e (ground (arith, done)), t, inl (ground (arith, done)))
        | inl big ↦
            let all : All (IsReadable h e.store) (hash ∷ others) = rw eq at t.readable in
            let small = All-take Bytes 9 others (All-Bytes h e.store others all.1) in
            let (x, run, u, less) =
              evict_victims-shrinks hash (take 9 others) others e eq small t in
            let (e', later, t', ended) = rest x (omega (arith, less, l, ap length eq)) u in
            (
              e',
              round_goes_on fuel target e x hash others (ground (arith, big)) eq run ∙ later,
              t',
              ended,
            )
      ]

  -- If the hex encoding can be undone, no call of the system fails, the two maps of the eviction
  -- fit each other and every tracked chunk is in the store as it was put there, the eviction ends
  -- within one round more than there are tracked chunks; then the store is within the target or no
  -- chunk is tracked, and every chunk that still is tracked is in the store.
  pub evict_to_target-ends :
      (fuel target : ℕ) (store : CasStore) (lru : LruEviction)
      → length (hashes lru.access_times) < fuel
      → IsPaired lru
      → All (IsReadable h store) (hashes lru.access_times)
      → (e : Eviction) × (evict_to_target h read_fails faults fuel target store lru
          ≡ some (e, ok e.bytes_freed))
        × IsTracking h e
        × ((e.store.current_size ≤ target) ⊎ (hashes e.lru.access_times ≡ []))
  unfolding evict_to_target
  evict_to_target-ends fuel target store lru l p all =
      evict_rounds-Ends fuel target (record { store = store; lru = lru; bytes_freed = 0 }) l
        (record { paired = p; readable = all })
