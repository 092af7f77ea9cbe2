-- ===== src/Cache/Eviction/Order.antt =====
-- The eviction keeps the chunks in the order of their last access.
use music_fs.Base.{
  ◌≢◌, ℕ, ◌<◌, ◌≡◌, refl, ap, sym, ◌∙◌, not, none, some, List, [], ◌∷◌, ◌++◌, take, keep, All, same,
  same_iff, nat_eq, arith, Option-cases, inl, inr,
}
use music_fs.Base.Dict.{lookup, remove}
use music_fs.Cas.Hash.{ChunkHash, ChunkHash_eq}
use music_fs.Cache.Eviction.{
  LruEviction, insert_at, forget_time, record_access, hashes, select_victims, remove_hash,
  new_eviction,
}
use music_fs.Cache.Eviction.Pairs.{
  Times, Ascending, Before, IsPaired, insert_at_last, forget_time-none, forget_time-some,
  Before-forget_time, remove_hash-IsPaired, record_access-IsPaired,
}

-- The abstract view: a queue of chunks, of which an access puts one at the end.
abbrev pub without : ChunkHash → List ChunkHash → List ChunkHash
without hash = keep (λ k. not (same hash k))

abbrev pub touch : ChunkHash → List ChunkHash → List ChunkHash
touch hash queue = without hash queue ++ (hash ∷ [])

hashes-append :
    (m : Times) (now : ℕ) (k : ChunkHash) → hashes (m ++ ((now, k) ∷ [])) ≡ hashes m ++ (k ∷ [])
hashes-append [] now k = refl
hashes-append (e ∷ m) now k = ap (λ (x : List ChunkHash). e.1 ∷ x) (hashes-append m now k)

-- The instant picks out the entries of the hash.
abbrev Picks : ℕ → ChunkHash → Times → Type 0
Picks old hash = All (λ e. same e.0 old ≡ same hash e.1)

hashes-remove :
    (old : ℕ) (hash : ChunkHash) (m : Times)
    → Picks old hash m
    → hashes (remove old m) ≡ without hash (hashes m)
unfolding remove
hashes-remove old hash [] p = refl
hashes-remove old hash ((u, k) ∷ m) p = ground (arith, p.0, hashes-remove old hash m p.1)

-- Every entry of an ascending list is found.
abbrev Found : Times → Times → Type 0
Found whole = All (λ e. lookup e.0 whole ≡ some e.1)

Found-cons :
    (t : ℕ) (k : ChunkHash) (whole m : Times)
    → All (λ e. t < e.0) m
    → Found whole m
    → Found ((t, k) ∷ whole) m
unfolding lookup
Found-cons t k whole [] a f = tt
Found-cons t k whole ((u, j) ∷ m) a f =
    (ground (arith, same_iff t u), Found-cons t k whole m a.1 f.1)

Ascending-Found : (m : Times) → Ascending m → Found m m
unfolding lookup
Ascending-Found [] a = tt
Ascending-Found ((t, k) ∷ m) a =
    (ground (arith, same_iff t t), Found-cons t k m m a.0 (Ascending-Found m a.1))

Found-Picks :
    (l : LruEviction) (old : ℕ) (hash : ChunkHash) (m : Times)
    → IsPaired l
    → lookup hash l.hash_to_time ≡ some old
    → Found l.access_times m
    → Picks old hash m
Found-Picks l old hash [] p e f = tt
Found-Picks l old hash ((u, k) ∷ m) p e f = (
  ground (arith, same_iff u old, same_iff hash k, p.forward u k f.0, p.back hash old e, e, f.0),
  Found-Picks l old hash m p e f.1,
)

without-Found :
    (l : LruEviction) (hash : ChunkHash) (m : Times)
    → IsPaired l
    → lookup hash l.hash_to_time ≡ none
    → Found l.access_times m
    → without hash (hashes m) ≡ hashes m
without-Found l hash [] p e f = refl
without-Found l hash ((u, k) ∷ m) p e f =
    let apart : hash ≢ k =
      λ q. cc (p.forward u k f.0, e, ap (λ (x : ChunkHash). lookup x l.hash_to_time) q) in
    ground (arith, same_iff hash k, apart, without-Found l hash m p e f.1)

hashes-forget_time :
    (hash : ChunkHash) (l : LruEviction)
    → IsPaired l
    → hashes (forget_time hash l) ≡ without hash (hashes l.access_times)
hashes-forget_time hash l p =
    let found = Ascending-Found l.access_times p.ascending in
    elim (Option-cases (lookup hash l.hash_to_time)) [
      | inl e ↦
          ap hashes (forget_time-none hash l e)
          ∙ sym (without-Found l hash l.access_times p e found)
      | inr (old, e) ↦
          ap hashes (forget_time-some hash l old e)
          ∙ hashes-remove old hash l.access_times (Found-Picks l old hash l.access_times p e found)
    ]

-- An access behind all others puts its chunk at the end of the queue.
pub hashes-record_access :
    (now : ℕ) (hash : ChunkHash) (l : LruEviction)
    → Before now l.access_times
    → IsPaired l
    → hashes (record_access now hash l).access_times ≡ touch hash (hashes l.access_times)
unfolding record_access
hashes-record_access now hash l b p =
    ap hashes (insert_at_last now hash (forget_time hash l) (Before-forget_time now hash l b))
    ∙ (hashes-append (forget_time hash l) now hash
        ∙ ap (λ (q : List ChunkHash). q ++ (hash ∷ [])) (hashes-forget_time hash l p))

-- What happens to the eviction: a chunk is used at an instant, or evicted.
pub data Use : Type 0 where
  used : ℕ → ChunkHash → Use
  evicted : ChunkHash → Use

-- The state after a history, whose last use comes first.
abbrev pub replay : List Use → LruEviction
replay [] = new_eviction
replay (used now hash ∷ older) = record_access now hash (replay older)
replay (evicted hash ∷ older) = remove_hash hash (replay older)

abbrev pub queue : List Use → List ChunkHash
queue [] = []
queue (used now hash ∷ older) = touch hash (queue older)
queue (evicted hash ∷ older) = without hash (queue older)

-- Every use is behind the earlier ones.
abbrev pub Until : ℕ → List Use → Type 0
Until now [] = Unit
Until now (used t hash ∷ older) = (t < now) × Until now older
Until now (evicted hash ∷ older) = Until now older

abbrev pub IsTimely : List Use → Type 0
IsTimely [] = Unit
IsTimely (used now hash ∷ older) = Until now older × IsTimely older
IsTimely (evicted hash ∷ older) = IsTimely older

Before-insert_at :
    (now t : ℕ) (k : ChunkHash) (m : Times) → t < now → Before now m → Before now (insert_at t k m)
unfolding insert_at
Before-insert_at now t k [] l b = (l, tt)
Before-insert_at now t k ((u, j) ∷ m) l b = ground (arith, Before-insert_at now t k m l b.1)

Before-replay :
    (now : ℕ) (history : List Use) → Until now history → Before now (replay history).access_times
unfolding record_access remove_hash
Before-replay now [] u = tt
Before-replay now (used t hash ∷ older) u =
    Before-insert_at now t hash (forget_time hash (replay older)) u.0
      (Before-forget_time now hash (replay older) (Before-replay now older u.1))
Before-replay now (evicted hash ∷ older) u =
    Before-forget_time now hash (replay older) (Before-replay now older u)

-- After any history in which each use is behind the earlier ones, the map from instants to chunks
-- and the map from chunks to instants are inverse to each other, and the instants ascend.
pub replay-IsPaired : (history : List Use) → IsTimely history → IsPaired (replay history)
unfolding lookup
replay-IsPaired [] t = record { ascending = tt; forward = λ t k e. cc; back = λ k t e. cc }
replay-IsPaired (used now hash ∷ older) t =
    record_access-IsPaired now hash (replay older) (Before-replay now older t.0)
      (replay-IsPaired older t.1)
replay-IsPaired (evicted hash ∷ older) t =
    remove_hash-IsPaired hash (replay older) (replay-IsPaired older t)

hashes-replay :
    (history : List Use) → IsTimely history → hashes (replay history).access_times ≡ queue history
unfolding remove_hash
hashes-replay [] t = refl
hashes-replay (used now hash ∷ older) t =
    hashes-record_access now hash (replay older) (Before-replay now older t.0)
      (replay-IsPaired older t.1)
    ∙ ap (touch hash) (hashes-replay older t.1)
hashes-replay (evicted hash ∷ older) t =
    hashes-forget_time hash (replay older) (replay-IsPaired older t)
    ∙ ap (without hash) (hashes-replay older t)

-- After any history in which each use is behind the earlier ones, the victims are the first chunks
-- of the queue in which a use puts its chunk at the end and an eviction takes it out.
pub select_victims-replay :
    (count : ℕ) (history : List Use)
    → IsTimely history
    → select_victims count (replay history) ≡ take count (queue history)
unfolding select_victims
select_victims-replay count history t = ap (take count) (hashes-replay history t)

pub hashes-remove_hash :
    (hash : ChunkHash) (l : LruEviction)
    → IsPaired l
    → hashes (remove_hash hash l).access_times ≡ without hash (hashes l.access_times)
unfolding remove_hash
hashes-remove_hash hash l p = hashes-forget_time hash l p
