-- ===== src/Origins/Router/Latency.antt =====
-- The latency statistics never index out of range, and keep the last hundred samples.
use native.Mathlib.Decide.{dec_lt}
use music_fs.Base.{
  ◌+◌, ◌-◌, ◌++◌, drop, ℕ, zero, suc, ◌*◌, ◌/◌, ◌<◌, ◌≤◌, ◌≡◌, refl, ap, ◌∙◌, Bool, true, false,
  some, List, [], ◌∷◌, length, if◌then◌else◌, ltb, get_elem?, All, arith, length-append,
}
use music_fs.Base.Choose.{sort_by, insert_by, sort_by-All}
use music_fs.Origins.Router.{LatencyStats, push_sample, percentiles, record_sample, update_stats}

-- Ascending order.
abbrev pub IsSorted : List ℕ → Type 0
IsSorted [] = Unit
IsSorted (x ∷ xs) = All (λ y. x ≤ y) xs × IsSorted xs

All-le : (x y : ℕ) (xs : List ℕ) → x ≤ y → All (λ z. y ≤ z) xs → All (λ z. x ≤ z) xs
All-le x y [] h hs = tt
All-le x y (z ∷ xs) h hs = (omega (arith, hs.0), All-le x y xs h hs.1)

insert_by-ge :
    (b x : ℕ) (xs : List ℕ) → b ≤ x → All (λ z. b ≤ z) xs → All (λ z. b ≤ z) (insert_by ltb x xs)
unfolding insert_by
insert_by-ge b x [] h hs = (h, tt)
insert_by-ge b x (y ∷ ys) h hs =
    elim (ltb y x) as (λ c. All (λ z. b ≤ z) (if c then y ∷ insert_by ltb x ys else x ∷ y ∷ ys)) [
      | true ↦ (hs.0, insert_by-ge b x ys h hs.1)
      | false ↦ (h, hs)
    ]

insert_by-IsSorted : (x : ℕ) (xs : List ℕ) → IsSorted xs → IsSorted (insert_by ltb x xs)
unfolding insert_by
insert_by-IsSorted x [] s = (tt, tt)
insert_by-IsSorted x (y ∷ ys) s = go (ltb y x) refl (insert_by-IsSorted x ys s.1)
  where
    go :
        (c : Bool)
        → ltb y x ≡ c
        → IsSorted (insert_by ltb x ys)
        → IsSorted (if c then y ∷ insert_by ltb x ys else x ∷ y ∷ ys)
    go true e ih = (insert_by-ge y x ys (ground arith) s.0, ih)
    go false e ih = ((ground arith, All-le x y ys (ground arith) s.0), s)

sort_by-IsSorted : (xs : List ℕ) → IsSorted (sort_by ltb xs)
unfolding sort_by
sort_by-IsSorted [] = tt
sort_by-IsSorted (x ∷ xs) = insert_by-IsSorted x (sort_by ltb xs) (sort_by-IsSorted xs)

length-insert_by : (x : ℕ) (xs : List ℕ) → length (insert_by ltb x xs) ≡ suc (length xs)
unfolding insert_by
length-insert_by x [] = refl
length-insert_by x (y ∷ ys) = ground (arith, length-insert_by x ys)

length-sort_by : (xs : List ℕ) → length (sort_by ltb xs) ≡ length xs
unfolding sort_by
length-sort_by [] = refl
length-sort_by (x ∷ xs) = length-insert_by x (sort_by ltb xs) ∙ ap suc (length-sort_by xs)

get_elem?-some : (xs : List ℕ) (i : ℕ) → i < length xs → (v : ℕ) × (get_elem? xs i ≡ some v)
get_elem?-some [] i h = absurd (omega arith)
get_elem?-some (x ∷ xs) zero h = (x, refl)
get_elem?-some (x ∷ xs) (suc i) h = get_elem?-some xs i (omega arith)

get_elem?-All :
    (P : ℕ → Type 0) (xs : List ℕ) (i : ℕ) {v : ℕ} → All P xs → get_elem? xs i ≡ some v → P v
get_elem?-All P [] i h e = cc
get_elem?-All P (x ∷ xs) zero {v} h e = let p : x ≡ v = cc in rw p at h.0
get_elem?-All P (x ∷ xs) (suc i) h e = get_elem?-All P xs i h.1 e

get_elem?-le :
    (xs : List ℕ) (i j : ℕ) {a b : ℕ}
    → IsSorted xs
    → i ≤ j
    → get_elem? xs i ≡ some a
    → get_elem? xs j ≡ some b
    → a ≤ b
get_elem?-le [] i j s h p q = cc
get_elem?-le (x ∷ xs) zero zero s h p q = ground arith
get_elem?-le (x ∷ xs) zero (suc j) {a} {b} s h p q =
    let e : x ≡ a = cc in rw e at (get_elem?-All (λ y. x ≤ y) xs j s.0 q)
get_elem?-le (x ∷ xs) (suc i) zero s h p q = absurd (omega arith)
get_elem?-le (x ∷ xs) (suc i) (suc j) s h p q = get_elem?-le xs i j s.1 (omega arith) p q

-- Of any samples at all both percentiles are found; they are samples, and the median is not the
-- greater one.
pub percentiles_found :
    (samples : List ℕ) (P : ℕ → Type 0)
    → 0 < length samples
    → All P samples
    → (p50 : ℕ) × (p99 : ℕ) × (percentiles samples ≡ some (p50, p99)) × (p50 ≤ p99) × P p50 × P p99
unfolding percentiles
percentiles_found samples P h all =
    let sorted = sort_by ltb samples in
    let n : length sorted ≡ length samples = length-sort_by samples in
    let (p50, a) = get_elem?-some sorted (length sorted / 2) (omega arith) in
    let (p99, b) = get_elem?-some sorted (length sorted * 99 / 100) (omega arith) in
    let every = sort_by-All P ltb samples all in
    (
      p50,
      p99,
      ground (arith, a, b),
      get_elem?-le sorted (length sorted / 2) (length sorted * 99 / 100) (sort_by-IsSorted samples)
          (omega arith) a b,
      get_elem?-All P sorted (length sorted / 2) every a,
      get_elem?-All P sorted (length sorted * 99 / 100) every b,
    )

length-push_sample :
    (latency : ℕ) (samples : List ℕ)
    → length samples ≤ 100
    → (0 < length (push_sample latency samples)) × (length (push_sample latency samples) ≤ 100)
unfolding push_sample
length-push_sample latency [] h = ground arith
length-push_sample latency (x ∷ xs) h = ground (arith, length-append xs (latency ∷ []))

update_stats_found :
    (now : ℕ) (s : LatencyStats) (samples : List ℕ) {p50 p99 : ℕ}
    → 0 < length samples
    → percentiles samples ≡ some (p50, p99)
    → update_stats now s samples
      ≡ some (record { samples = samples; p50_ms = p50; p99_ms = p99; last_update = some now })
unfolding update_stats
update_stats_found now s [] h e = absurd (omega arith)
update_stats_found now s (x ∷ xs) h e = ground (arith, e)

-- What is pushed is put behind the samples, and the first one goes if these were a hundred.
push_sample-drop :
    (latency : ℕ) (samples : List ℕ)
    → length samples ≤ 100
    → push_sample latency samples ≡ drop (length samples + 1 - 100) (samples ++ (latency ∷ []))
unfolding push_sample
push_sample-drop latency samples h = elim (dec_lt (length samples) 100) [
  | yes few ↦
      let none_more : length samples + 1 - 100 ≡ 0 = omega (arith, few) in
      let long = length-append samples (latency ∷ []) in rw none_more (ground (arith, few, long))
  | no many ↦ go samples (omega (arith, h, many))
]
  where
    go :
        (xs : List ℕ)
        → length xs ≡ 100
        → push_sample latency xs ≡ drop (length xs + 1 - 100) (xs ++ (latency ∷ []))
    go [] e = absurd (omega (arith, e))
    go (x ∷ xs) e =
        let one : length (x ∷ xs) + 1 - 100 ≡ 1 = omega (arith, e) in
        let long = length-append xs (latency ∷ []) in rw one (ground (arith, e, long))

All-tt : (xs : List ℕ) → All (λ x. Unit {0}) xs
All-tt [] = tt
All-tt (x ∷ xs) = (tt, All-tt xs)

record_sample-update :
    (now latency : ℕ) (s : LatencyStats)
    → record_sample now latency s ≡ update_stats now s (push_sample latency s.samples)
unfolding record_sample
record_sample-update now latency s = refl

-- Recording a latency in statistics of at most a hundred samples does not panic, leaves the last
-- hundred of the samples with the new one behind them, and the median that it computes is not
-- greater than the 99th percentile.
pub record_sample_total :
    (now latency : ℕ) (s : LatencyStats)
    → length s.samples ≤ 100
    → (s' : LatencyStats) × (record_sample now latency s ≡ some s')
      × (s'.samples ≡ drop (length s.samples + 1 - 100) (s.samples ++ (latency ∷ [])))
      × (length s'.samples ≤ 100)
      × (s'.p50_ms ≤ s'.p99_ms)
record_sample_total now latency s h =
    let samples = push_sample latency s.samples in
    let (some_left, few) = length-push_sample latency s.samples h in
    let (p50, p99, e, le, _, _) =
      percentiles_found samples (λ x. Unit {0}) some_left (All-tt samples) in
    (
      record { samples = samples; p50_ms = p50; p99_ms = p99; last_update = some now },
      record_sample-update now latency s ∙ update_stats_found now s samples some_left e,
      push_sample-drop latency s.samples h,
      few,
      le,
    )
