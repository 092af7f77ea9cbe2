-- ===== src/Cache/Eviction/Pairs.antt =====
-- The two maps of the eviction are inverse to each other.
use music_fs.Base.{
  ◌≢◌, ℕ, ◌<◌, ◌≡◌, refl, ap, none, some, List, [], ◌∷◌, ◌++◌, All, if◌then◌else◌, same, same_iff,
  nat_eq, arith, Option-cases, inl, inr,
}
use music_fs.Base.Dict.{lookup, insert, remove, lookup-insert, lookup-remove}
use music_fs.Cas.Hash.{ChunkHash, ChunkHash_eq}
use music_fs.Cache.Eviction.{LruEviction, insert_at, forget_time, record_access, remove_hash}

abbrev pub Times : Type 0
Times = List (ℕ × ChunkHash)

-- The instants ascend.
abbrev pub Ascending : Times → Type 0
Ascending [] = Unit
Ascending ((t, k) ∷ m) = All (λ e. t < e.0) m × Ascending m

abbrev pub Before : ℕ → Times → Type 0
Before now = All (λ e. e.0 < now)

lookup-insert_at :
    (j t : ℕ) (k : ChunkHash) (m : Times)
    → lookup j (insert_at t k m) ≡ (if same t j then some k else lookup j m)
unfolding lookup insert_at
lookup-insert_at j t k [] = refl
lookup-insert_at j t k ((u, i) ∷ m) =
    ground (arith, same_iff t j, same_iff u t, same_iff u j, lookup-insert_at j t k m)

-- An instant behind all others goes to the end.
pub insert_at_last :
    (now : ℕ) (k : ChunkHash) (m : Times) → Before now m → insert_at now k m ≡ m ++ ((now, k) ∷ [])
unfolding insert_at
insert_at_last now k [] b = refl
insert_at_last now k ((u, i) ∷ m) b = ground (arith, same_iff u now, insert_at_last now k m b.1)

Before-remove : (now t : ℕ) (m : Times) → Before now m → Before now (remove t m)
unfolding remove
Before-remove now t [] b = tt
Before-remove now t ((u, k) ∷ m) b = ground (arith, Before-remove now t m b.1)

After-remove : (s t : ℕ) (m : Times) → All (λ e. s < e.0) m → All (λ e. s < e.0) (remove t m)
unfolding remove
After-remove s t [] b = tt
After-remove s t ((u, k) ∷ m) b = ground (arith, After-remove s t m b.1)

Ascending-remove : (t : ℕ) (m : Times) → Ascending m → Ascending (remove t m)
unfolding remove
Ascending-remove t [] a = tt
Ascending-remove t ((u, k) ∷ m) a = ground (arith, Ascending-remove t m a.1, After-remove u t m a.0)

Ascending-append :
    (now : ℕ) (k : ChunkHash) (m : Times)
    → Ascending m
    → Before now m
    → Ascending (m ++ ((now, k) ∷ []))
Ascending-append now k [] a b = (tt, tt)
Ascending-append now k ((u, i) ∷ m) a b = (last m a.0, Ascending-append now k m a.1 b.1)
  where
    last : (m : Times) → All (λ e. u < e.0) m → All (λ e. u < e.0) (m ++ ((now, k) ∷ []))
    last [] l = (b.0, tt)
    last (e ∷ m) l = (l.0, last m l.1)

lookup_after : (t : ℕ) (m : Times) → All (λ e. t < e.0) m → lookup t m ≡ none
unfolding lookup
lookup_after t [] a = refl
lookup_after t ((u, k) ∷ m) a = ground (arith, same_iff u t, lookup_after t m a.1)

lookup-Before : (t : ℕ) (m : Times) → Before t m → lookup t m ≡ none
unfolding lookup
lookup-Before t [] b = refl
lookup-Before t ((u, k) ∷ m) b = ground (arith, same_iff u t, lookup-Before t m b.1)

-- The two maps are inverse to each other, and the instants ascend.
pub record IsPaired (l : LruEviction) : Type 0 where
  pub ascending : Ascending l.access_times
  pub forward :
      (t : ℕ) (k : ChunkHash) → lookup t l.access_times ≡ some k → lookup k l.hash_to_time ≡ some t
  pub back :
      (k : ChunkHash) (t : ℕ) → lookup k l.hash_to_time ≡ some t → lookup t l.access_times ≡ some k

pub forget_time-none :
    (hash : ChunkHash) (l : LruEviction)
    → lookup hash l.hash_to_time ≡ none
    → forget_time hash l ≡ l.access_times
unfolding forget_time
forget_time-none hash l e = ground (arith, e)

pub forget_time-some :
    (hash : ChunkHash) (l : LruEviction) (old : ℕ)
    → lookup hash l.hash_to_time ≡ some old
    → forget_time hash l ≡ remove old l.access_times
unfolding forget_time
forget_time-some hash l old e = ground (arith, e)

pub Before-forget_time :
    (now : ℕ) (hash : ChunkHash) (l : LruEviction)
    → Before now l.access_times
    → Before now (forget_time hash l)
Before-forget_time now hash l b = elim (Option-cases (lookup hash l.hash_to_time)) [
  | inl e ↦ rw (forget_time-none hash l e) b
  | inr (old, e) ↦ rw (forget_time-some hash l old e) (Before-remove now old l.access_times b)
]

Ascending-forget_time :
    (hash : ChunkHash) (l : LruEviction) → Ascending l.access_times → Ascending (forget_time hash l)
Ascending-forget_time hash l a = elim (Option-cases (lookup hash l.hash_to_time)) [
  | inl e ↦ rw (forget_time-none hash l e) a
  | inr (old, e) ↦ rw (forget_time-some hash l old e) (Ascending-remove old l.access_times a)
]

-- What is left once a hash is forgotten: the entries of the others.
forget_time-others :
    (j : ℕ) (hash : ChunkHash) (l : LruEviction) {k : ChunkHash}
    → IsPaired l
    → lookup j (forget_time hash l) ≡ some k
    → (lookup j l.access_times ≡ some k) × (hash ≢ k)
unfolding forget_time
forget_time-others j hash l {k} p e = elim (Option-cases (lookup hash l.hash_to_time)) [
  | inl f ↦
      let there : lookup j l.access_times ≡ some k = ground (arith, e, f) in
      (there, λ q. cc (p.forward j k there, f, ap (λ (x : ChunkHash). lookup x l.hash_to_time) q))
  | inr (old, f) ↦
      let left : lookup j (remove old l.access_times) ≡ some k = ground (arith, e, f) in
      let (ne, there) : (old ≢ j) × (lookup j l.access_times ≡ some k) =
        ground (arith, left, lookup-remove j old l.access_times, same_iff old j) in
      (
        there,
        λ q.
            ground (
              arith,
              p.forward j k there,
              f,
              ap (λ (x : ChunkHash). lookup x l.hash_to_time) q,
              ne,
            ),
      )
]

-- The entries of the other hashes are left.
forget_time-keeps :
    (j : ℕ) (hash : ChunkHash) (l : LruEviction) {k : ChunkHash}
    → IsPaired l
    → lookup j l.access_times ≡ some k
    → hash ≢ k
    → lookup j (forget_time hash l) ≡ some k
unfolding forget_time
forget_time-keeps j hash l {k} p e ne = elim (Option-cases (lookup hash l.hash_to_time)) [
  | inl f ↦ ground (arith, e, f)
  | inr (old, f) ↦
      let at : lookup old l.access_times ≡ some hash = p.back hash old f in
      let apart : old ≢ j =
        λ q. ne (ground (arith, at, e, ap (λ (t : ℕ). lookup t l.access_times) q)) in
      ground (arith, f, e, lookup-remove j old l.access_times, same_iff old j, apart)
]

-- Forgetting a chunk keeps the two maps inverse to each other.
pub remove_hash-IsPaired :
    (hash : ChunkHash) (l : LruEviction) → IsPaired l → IsPaired (remove_hash hash l)
unfolding remove_hash
remove_hash-IsPaired hash l p = record {
  ascending = Ascending-forget_time hash l p.ascending;
  forward = λ t k e.
      let (there, ne) = forget_time-others t hash l p e in
      ground (arith, lookup-remove k hash l.hash_to_time, same_iff hash k, p.forward t k there, ne);
  back = λ k t e.
      let (ne, there) : (hash ≢ k) × (lookup k l.hash_to_time ≡ some t) =
        ground (arith, e, lookup-remove k hash l.hash_to_time, same_iff hash k) in
      forget_time-keeps t hash l p (p.back k t there) ne;
}

-- An access behind all others keeps the two maps inverse to each other.
pub record_access-IsPaired :
    (now : ℕ) (hash : ChunkHash) (l : LruEviction)
    → Before now l.access_times
    → IsPaired l
    → IsPaired (record_access now hash l)
unfolding record_access
record_access-IsPaired now hash l b p = record {
  ascending = rw (insert_at_last now hash (forget_time hash l) (Before-forget_time now hash l b)) (
      Ascending-append now hash (forget_time hash l) (Ascending-forget_time hash l p.ascending)
        (Before-forget_time now hash l b));
  forward = λ t k e. record_forward t k e;
  back = λ k t e. record_back k t e;
}
  where
    record_forward :
        (t : ℕ) (k : ChunkHash)
        → lookup t (insert_at now hash (forget_time hash l)) ≡ some k
        → lookup k (insert hash now (remove hash l.hash_to_time)) ≡ some t
    record_forward t k e = ground (
      arith,
      e,
      lookup-insert_at t now hash (forget_time hash l),
      lookup-insert k hash now (remove hash l.hash_to_time),
      lookup-remove k hash l.hash_to_time,
      same_iff hash k,
      same_iff now t,
      forget_time-others t hash l {k = k} p,
      p.forward t k,
    )

    record_back :
        (k : ChunkHash) (t : ℕ)
        → lookup k (insert hash now (remove hash l.hash_to_time)) ≡ some t
        → lookup t (insert_at now hash (forget_time hash l)) ≡ some k
    record_back k t e = ground (
      arith,
      e,
      lookup-insert_at t now hash (forget_time hash l),
      lookup-insert k hash now (remove hash l.hash_to_time),
      lookup-remove k hash l.hash_to_time,
      same_iff hash k,
      same_iff now t,
      lookup-Before now l.access_times b,
      p.back k t,
      forget_time-keeps t hash l {k = k} p,
    )
