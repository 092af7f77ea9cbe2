-- ===== src/Origins/Router/Selection.antt =====
-- Which origin the router selects.
use music_fs.Base.{
  ℕ, ◌≡◌, ◌⊎◌, refl, ap, ◌∙◌, Bool, true, false, none, some, List, [], ◌∷◌, if◌then◌else◌, keep,
  All, arith, inl, inr, Option-cases,
}
use music_fs.Base.Choose.{
  keep-All, min_by, min_by-le, min_by-All, min_by-eq-none_iff, keep-passes, IsTotal,
}
use mathlib.Core.List.{Mem, mem-cons_self, mem-cons_of_mem}
use music_fs.Core.Types.{OriginId}
use music_fs.Origins.Health.{HealthSnapshot, is_healthy, is_degraded}
use music_fs.Origins.Router.{
  Router, by_key, select, select_degraded, select_least_bad, select_with_fallback, get_priority,
  latency_of, failures_or_max,
}

by_key-IsTotal : (key : OriginId → ℕ × ℕ) → IsTotal (by_key key)
by_key-IsTotal key = record { asym = λ a b h. ground arith; trans = λ a b c h k. ground arith }

-- No candidate of the list passes a test.
abbrev pub NonePass : (OriginId → Bool) → List OriginId → Type 0
NonePass p = All (λ id. p id ≡ false)

keep-eq-nil : (p : OriginId → Bool) (xs : List OriginId) → keep p xs ≡ [] → NonePass p xs
keep-eq-nil p [] h = tt
keep-eq-nil p (x ∷ xs) h = ground (arith, keep-eq-nil p xs)

keep-Below :
    (p : OriginId → Bool) (P : OriginId → Type 0) (xs : List OriginId)
    → All P (keep p xs)
    → All (λ x. p x ≡ true → P x) xs
keep-Below p P [] h = tt
keep-Below p P (x ∷ xs) h = let (head, kept) = go (p x) refl h in (head, keep-Below p P xs kept)
  where
    go :
        (b : Bool)
        → p x ≡ b
        → All P (if b then x ∷ keep p xs else keep p xs)
        → (p x ≡ true → P x) × All P (keep p xs)
    go true e t = (λ q. t.0, t.1)
    go false e t = (λ q. cc, t)

-- Every element of a list is one of those of a list that has them.
All-Mem : (xs ys : List OriginId) → ((x : OriginId) → Mem x xs → Mem x ys) → All (λ x. Mem x ys) xs
All-Mem [] ys h = tt
All-Mem (x ∷ xs) ys h = (h x mem-cons_self, All-Mem xs ys (λ y m. h y (mem-cons_of_mem x m)))

-- The least of the candidates that pass a test is a candidate.
min_by-Mem :
    (less : OriginId → OriginId → Bool) (p : OriginId → Bool) (candidates : List OriginId)
    {id : OriginId}
    → min_by less (keep p candidates) ≡ some id
    → Mem id candidates
min_by-Mem less p candidates {id} e =
    min_by-All (λ x. Mem x candidates) less (keep p candidates)
      (keep-All (λ x. Mem x candidates) p candidates (All-Mem candidates candidates (λ x m. m))) e

module _ (r : Router) (health : HealthSnapshot) where
  -- `id` comes first of all candidates that pass the test, by priority and then by latency.
  abbrev pub rank : OriginId → ℕ × ℕ
  rank id = (get_priority r id, latency_of r id)

  -- A selected origin is healthy, and no healthy candidate has a better priority, or the same and a
  -- lower latency.
  pub select-best :
      (candidates : List OriginId) {id : OriginId}
      → select r candidates health ≡ some id
      → (is_healthy health id ≡ true)
        × All (λ other. is_healthy health other ≡ true → by_key rank other id ≡ false) candidates
  unfolding select
  select-best candidates {id} e = (
    min_by-All (λ x. is_healthy health x ≡ true) (by_key rank) (keep (is_healthy health) candidates)
        (keep-passes (is_healthy health) candidates) e,
    keep-Below (is_healthy health) (λ other. by_key rank other id ≡ false) candidates
        (min_by-le (by_key rank) (keep (is_healthy health) candidates) (by_key-IsTotal rank) e),
  )

  -- No origin is selected only if no candidate is healthy.
  pub select-none :
      (candidates : List OriginId)
      → select r candidates health ≡ none
      → NonePass (is_healthy health) candidates
  unfolding select
  select-none candidates e =
      keep-eq-nil (is_healthy health) candidates
        ((min_by-eq-none_iff (by_key rank) (keep (is_healthy health) candidates)).0 e)

  select_degraded-none :
      (candidates : List OriginId)
      → select_degraded r candidates health ≡ none
      → NonePass (is_degraded health) candidates
  unfolding select_degraded
  select_degraded-none candidates e = keep-eq-nil (is_degraded health) candidates (
      (min_by-eq-none_iff (by_key (λ id. (get_priority r id, 0)))
          (keep (is_degraded health) candidates)).0
        e)

  select_with_fallback-Mem :
      (candidates : List OriginId) {id : OriginId}
      → (select_with_fallback r candidates health).1 ≡ some id
      → Mem id candidates
  select_with_fallback-Mem candidates {id} e = elim (Option-cases (select r candidates health)) [
    | inr (first, s) ↦
        let p : first ≡ id = unfold select_with_fallback in ground (arith, s, e) in
        min_by-Mem (by_key rank) (is_healthy health) candidates (unfold select in (s ∙ ap some p))
    | inl s ↦ elim (Option-cases (select_degraded r candidates health)) [
      | inr (second, d) ↦
          let p : second ≡ id = unfold select_with_fallback in ground (arith, s, d, e) in
          min_by-Mem (by_key (λ x. (get_priority r x, 0))) (is_degraded health) candidates
            (unfold select_degraded in (d ∙ ap some p))
      | inl d ↦
          let l : select_least_bad r candidates health ≡ some id =
            unfold select_with_fallback in ground (arith, s, d, e) in
          min_by-All (λ x. Mem x candidates)
            (by_key (λ x. (failures_or_max health x, get_priority r x))) candidates
            (All-Mem candidates candidates (λ x m. m)) (unfold select_least_bad in l)
    ]
  ]

  -- The tiers of the fallback.
  abbrev pub Tier : List OriginId → OriginId → Type 0
  Tier candidates id =
      ((is_healthy health id ≡ true)
        × All (λ other. is_healthy health other ≡ true → by_key rank other id ≡ false) candidates)
      ⊎ (((is_degraded health id ≡ true)
            × NonePass (is_healthy health) candidates
            × All
                (λ other.
                  is_degraded health other ≡ true
                  → by_key (λ x. (get_priority r x, 0)) other id ≡ false)
                candidates)
          ⊎ (NonePass (is_healthy health) candidates
              × NonePass (is_degraded health) candidates
              × All
                  (λ other.
                    by_key (λ x. (failures_or_max health x, get_priority r x)) other id ≡ false)
                  candidates))

  degraded-best :
      (candidates : List OriginId) {id : OriginId}
      → select_degraded r candidates health ≡ some id
      → is_degraded health id ≡ true
  unfolding select_degraded
  degraded-best candidates {id} e =
      min_by-All (λ x. is_degraded health x ≡ true) (by_key (λ x. (get_priority r x, 0)))
        (keep (is_degraded health) candidates) (keep-passes (is_degraded health) candidates) e

  degraded-first :
      (candidates : List OriginId) {id : OriginId}
      → select_degraded r candidates health ≡ some id
      → All
          (λ other.
            is_degraded health other ≡ true → by_key (λ x. (get_priority r x, 0)) other id ≡ false)
          candidates
  unfolding select_degraded
  degraded-first candidates {id} e =
      let key : OriginId → ℕ × ℕ = λ x. (get_priority r x, 0) in
      keep-Below (is_degraded health) (λ other. by_key key other id ≡ false) candidates
        (min_by-le (by_key key) (keep (is_degraded health) candidates) (by_key-IsTotal key) e)

  least_bad-first :
      (candidates : List OriginId) {id : OriginId}
      → select_least_bad r candidates health ≡ some id
      → All
          (λ other. by_key (λ x. (failures_or_max health x, get_priority r x)) other id ≡ false)
          candidates
  unfolding select_least_bad
  least_bad-first candidates {id} e =
      let key : OriginId → ℕ × ℕ = λ x. (failures_or_max health x, get_priority r x) in
      min_by-le (by_key key) candidates (by_key-IsTotal key) e

  fallback-Tier :
      (candidates : List OriginId) {id : OriginId}
      → (select_with_fallback r candidates health).1 ≡ some id
      → Tier candidates id
  fallback-Tier candidates {id} e = elim (Option-cases (select r candidates health)) [
    | inr (first, s) ↦
        let p : first ≡ id = unfold select_with_fallback in ground (arith, s, e) in
        inl (select-best candidates (s ∙ ap some p))
    | inl s ↦ elim (Option-cases (select_degraded r candidates health)) [
      | inr (second, d) ↦
          let p : second ≡ id = unfold select_with_fallback in ground (arith, s, d, e) in
          let d' : select_degraded r candidates health ≡ some id = d ∙ ap some p in
          inr (
            inl
              (degraded-best candidates d', select-none candidates s, degraded-first candidates d'))
      | inl d ↦
          let l : select_least_bad r candidates health ≡ some id =
            unfold select_with_fallback in ground (arith, s, d, e) in
          inr (
            inr (
              select-none candidates s,
              select_degraded-none candidates d,
              least_bad-first candidates l,
            ))
    ]
  ]

  -- What the fallback selects is one of the candidates: a healthy one of the best priority and
  -- latency; or, if none is healthy, the degraded one of the best priority; or, if none is degraded
  -- either, the one with the fewest failures, and of these the best priority.
  pub select_with_fallback-Tier :
      (candidates : List OriginId) {id : OriginId}
      → (select_with_fallback r candidates health).1 ≡ some id
      → Mem id candidates × Tier candidates id
  select_with_fallback-Tier candidates e =
      (select_with_fallback-Mem candidates e, fallback-Tier candidates e)

  -- The fallback finds an origin wherever there is a candidate.
  pub select_with_fallback-some :
      (candidates : List OriginId)
      → (select_with_fallback r candidates health).1 ≡ none
      → candidates ≡ []
  unfolding select_with_fallback
  select_with_fallback-some candidates e =
      (min_by-eq-none_iff (by_key (λ x. (failures_or_max health x, get_priority r x))) candidates).0
        (unfold select_least_bad in ground (arith, e))
