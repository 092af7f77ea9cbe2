-- ===== src/Tests/Routes.antt =====
-- The theorems of the router, the registry and the failover, at samples.
use mathlib.Core.List.{Mem}
use music_fs.Base.Choose.{min_by}
use music_fs.Core.Types.{OriginId, nfs, s3, RealPath, FilePath}
use music_fs.Base.{
  ◌++◌, drop, ◌-◌, ◌+◌, zero, suc, String, string_eq, ℕ, ◌≡◌, ◌≤◌, refl, true, some, List, [], ◌∷◌,
  length, arith, ok, err, Result,
}
use music_fs.Base.Dict.{lookup, insert}
use music_fs.Core.Errors.{Error, timeout}
use music_fs.Origins.Health.{
  failure_count, new_monitor, HealthSnapshot, is_healthy, contains, add_origin, type_eq,
  is_degraded,
}
use music_fs.Origins.Router.{
  failures_or_max, select_least_bad, select_degraded, LatencyStats, no_latency, record_sample,
  select, select_with_fallback, set_priority, get_priority, latency_of,
}
use music_fs.Origins.Router.Latency.{record_sample_total}
use music_fs.Origins.Router.Selection.{select_with_fallback-Tier, Tier}
use music_fs.Origins.Registry.{Origin, OriginRegistry, new_registry, register}
use music_fs.Origins.Failover.{
  delay_for_attempt, RetryConfig, spec_compliant, Timing, with_retry, with_failover,
  read_full_request,
}
use music_fs.Origins.Failover.Retries.{with_retry_succeeds}
use music_fs.Origins.Failover.Single.{outcome, single, with_failover-single}

program : Unit {0}
unfolding lookup insert register set_priority add_origin select select_with_fallback get_priority
    latency_of min_by contains is_healthy is_degraded select_degraded select_least_bad
    failures_or_max failure_count delay_for_attempt
program = tt

abbrev song_path : FilePath
song_path = record { rooted = true; components = "a.flac" ∷ [] }

-- An origin that times out twice before it answers.
abbrev flaky : ℕ → Result Error (List ℕ)
flaky zero = err (timeout "disk")
flaky (suc zero) = err (timeout "disk")
flaky _ = ok (1 ∷ 2 ∷ [])

abbrev disk : Origin
disk = record {
  id = "disk";
  origin_type = nfs;
  read = λ attempt path offset size. flaky attempt;
  read_full = λ attempt path. flaky attempt;
}

abbrev cloud : Origin
cloud = record {
  id = "cloud";
  origin_type = s3;
  read = λ attempt path offset size. ok [];
  read_full = λ attempt path. ok [];
}

abbrev registry : OriginRegistry
registry = register 2 cloud 1 (register 1 disk 5 (new_registry (new_monitor 30)))

abbrev on_disk : RealPath
on_disk = record { origin_id = "disk"; path = song_path }

abbrev timing : Timing
timing = record { now = 9; latency = λ id. 12 }

with_failover-single_example :
    outcome (with_failover spec_compliant timing (read_full_request song_path) on_disk registry)
    ≡ some (single spec_compliant (read_full_request song_path) (lookup "disk" registry.origins))
unfolding program
with_failover-single_example =
    with_failover-single spec_compliant timing (read_full_request song_path) on_disk registry
      (refl, (refl, tt)) (λ id s p. cc)

with_retry_succeeds_example : with_retry spec_compliant flaky ≡ (100 ∷ 500 ∷ [], ok (1 ∷ 2 ∷ []))
unfolding program
with_retry_succeeds_example =
    with_retry_succeeds spec_compliant flaky 2 (omega arith)
      ((timeout "disk", refl), ((timeout "disk", refl), tt)) refl

abbrev twice : RetryConfig
twice = record spec_compliant { max_attempts = 2 }

abbrev health : HealthSnapshot
health = record {
  healthy_ids = "cloud" ∷ "disk" ∷ [];
  degraded_ids = "share" ∷ [];
  unhealthy_ids = [];
  failure_counts = [];
}

abbrev all_ids : List String
all_ids = "disk" ∷ "share" ∷ "cloud" ∷ []

select_with_fallback-Tier_example :
    Mem {A = OriginId} "share" ("share" ∷ []) × Tier registry.router health ("share" ∷ []) "share"
unfolding program
select_with_fallback-Tier_example =
    select_with_fallback-Tier registry.router health ("share" ∷ []) refl

record_sample_total_example :
    (s' : LatencyStats) × (record_sample 9 12 no_latency ≡ some s')
    × (s'.samples ≡ drop (length no_latency.samples + 1 - 100) (no_latency.samples ++ (12 ∷ [])))
    × (length s'.samples ≤ 100)
    × (s'.p50_ms ≤ s'.p99_ms)
record_sample_total_example = record_sample_total 9 12 no_latency (omega arith)
