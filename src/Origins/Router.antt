-- ===== src/Origins/Router.antt =====
-- `Router` of crates/musicfs-origins/src/router.rs: which of several origins serves a read.
pub mod Selection
pub mod Latency
use music_fs.Base.{
  ℕ, zero, suc, ◌+◌, ◌*◌, ◌/◌, ◌-◌, ◌^◌, ◌≡◌, Bool, true, false, ◌&&◌, ◌||◌, Option, none, some,
  List, [], ◌∷◌, ◌++◌, length, if◌then◌else◌, ltb, ◌==◌, keep, get_elem?, string_eq, arith,
}
use music_fs.Base.Dict.{lookup, insert, remove}
use music_fs.Base.Choose.{min_by, sort_by, IsTotal}
use music_fs.Core.Types.{OriginId}
use music_fs.Core.Events.{Event, all_origins_unhealthy}
use music_fs.Origins.Health.{HealthSnapshot, is_healthy, is_degraded, failure_count}

pub record LatencyStats : Type 0 where
  pub samples : List ℕ
  pub p50_ms : ℕ
  pub p99_ms : ℕ
  pub last_update : Option ℕ

abbrev pub no_latency : LatencyStats
no_latency = record { samples = []; p50_ms = 0; p99_ms = 0; last_update = none }

-- `samples.remove(0)`
abbrev pub drop_first : List ℕ → List ℕ
drop_first [] = []
drop_first (x ∷ xs) = xs

-- The samples after one more: the last hundred.
unfoldable pub push_sample : ℕ → List ℕ → List ℕ
push_sample latency samples =
    let pushed = samples ++ (latency ∷ []) in
    if ltb 100 (length pushed) then drop_first pushed else pushed

-- The percentiles of a list; none if an index is out of range, which panics.
unfoldable pub percentiles : List ℕ → Option (ℕ × ℕ)
percentiles samples =
    let sorted = sort_by ltb samples in
    elim (get_elem? sorted (length sorted / 2)) [
      | none ↦ none
      | some p50 ↦ elim (get_elem? sorted (length sorted * 99 / 100)) [
        | none ↦ some (p50, p50)
        | some p99 ↦ some (p50, p99)
      ]
    ]

-- The percentiles are kept where there is no sample.
unfoldable pub update_stats : ℕ → LatencyStats → List ℕ → Option LatencyStats
update_stats now s [] = some (record s { samples = []; last_update = some now })
update_stats now s (x ∷ xs) = elim (percentiles (x ∷ xs)) [
  | none ↦ none
  | some (p50, p99) ↦
      some (record { samples = x ∷ xs; p50_ms = p50; p99_ms = p99; last_update = some now })
]

unfoldable pub record_sample : ℕ → ℕ → LatencyStats → Option LatencyStats
record_sample now latency s = update_stats now s (push_sample latency s.samples)

pub record Router : Type 0 where
  pub priorities : List (OriginId × ℕ)
  pub latency_stats : List (OriginId × LatencyStats)
  pub has_event_bus : Bool
  pub events : List Event

abbrev pub new_router : Router
new_router = record { priorities = []; latency_stats = []; has_event_bus = false; events = [] }

unfoldable pub set_priority : OriginId → ℕ → Router → Router
set_priority id priority r = record r { priorities = insert id priority r.priorities }

unfoldable pub remove_priority : OriginId → Router → Router
remove_priority id r = record r {
  priorities = remove id r.priorities;
  latency_stats = remove id r.latency_stats;
}

unfoldable pub get_priority : Router → OriginId → ℕ
get_priority r id = elim (lookup id r.priorities) [ none ↦ 100 | some p ↦ p ]

unfoldable pub record_latency : ℕ → OriginId → ℕ → Router → Option Router
record_latency now id latency r =
    let s = elim (lookup id r.latency_stats) as (λ _. LatencyStats) [
      | none ↦ no_latency
      | some s ↦ s
    ] in
    elim (record_sample now latency s) [
      | none ↦ none
      | some s' ↦ some (record r { latency_stats = insert id s' r.latency_stats })
    ]

-- The median latency, 0 where there is none.
unfoldable pub latency_of : Router → OriginId → ℕ
latency_of r id = elim (lookup id r.latency_stats) [ none ↦ 0 | some s ↦ s.p50_ms ]

-- Pairs are compared by their first parts, then by their second.
abbrev pub by_key : (OriginId → ℕ × ℕ) → OriginId → OriginId → Bool
by_key key a b = ltb (key a).0 (key b).0 || ((key a).0 == (key b).0 && ltb (key a).1 (key b).1)

unfoldable pub select : Router → List OriginId → HealthSnapshot → Option OriginId
select r candidates health =
    min_by (by_key (λ id. (get_priority r id, latency_of r id)))
      (keep (is_healthy health) candidates)

-- `health.failure_count(id).unwrap_or(u32::MAX)`
unfoldable pub failures_or_max : HealthSnapshot → OriginId → ℕ
failures_or_max health id = elim (failure_count health id) [ none ↦ 2 ^ 32 - 1 | some n ↦ n ]

-- The degraded candidate of the best priority.
unfoldable pub select_degraded : Router → List OriginId → HealthSnapshot → Option OriginId
select_degraded r candidates health =
    min_by (by_key (λ id. (get_priority r id, 0))) (keep (is_degraded health) candidates)

-- The candidate with the fewest failures.
unfoldable pub select_least_bad : Router → List OriginId → HealthSnapshot → Option OriginId
select_least_bad r candidates health =
    min_by (by_key (λ id. (failures_or_max health id, get_priority r id))) candidates

unfoldable pub select_with_fallback :
    Router → List OriginId → HealthSnapshot → Router × Option OriginId
select_with_fallback r candidates health = elim (select r candidates health) [
  | some id ↦ (r, some id)
  | none ↦ elim (select_degraded r candidates health) [
    | some id ↦ (r, some id)
    | none ↦ (
      if r.has_event_bus
          then record r { events = all_origins_unhealthy (length candidates) ∷ r.events }
          else r,
      select_least_bad r candidates health,
    )
  ]
]
