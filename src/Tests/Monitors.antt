-- ===== src/Tests/Monitors.antt =====
-- The theorems of the health monitor, at samples.
use music_fs.Base.{string_eq, ◌≡◌, refl, none, some, List, [], ◌∷◌, arith}
use music_fs.Base.Dict.{lookup, insert}
use music_fs.Core.Types.{healthy, degraded, unhealthy, nfs, s3}
use music_fs.Origins.Health.{
  HealthMonitor, OriginHealthState, Answer, new_monitor, with_event_bus, add_origin, check_one,
  get_state, threshold_for, was_healthy, snapshot, is_healthy, is_degraded, is_unhealthy,
  failure_count, type_eq, answered, after_check, transition,
}
use music_fs.Origins.Health.History.{run, statuses, verdict, failures_since, run-verdict}
use music_fs.Origins.Health.Snapshot.{snapshot-get_state, was_degraded, was_unhealthy, failures_of}

program : Unit {0}
unfolding lookup insert add_origin check_one get_state with_event_bus threshold_for answered
    after_check transition
program = tt

abbrev monitor : HealthMonitor
monitor = add_origin 5 "cloud" s3 (with_event_bus (new_monitor 30))

abbrev good : Answer
good = record { status = some healthy; now = 10; latency_ms = 4 }

abbrev late : Answer
late = record { status = none; now = 20; latency_ms = 1500 }

-- Three timeouts after a healthy answer.
abbrev history : List Answer
history = late ∷ late ∷ late ∷ good ∷ []

run-verdict_example :
    (s : OriginHealthState) × (get_state
        (run (add_origin 7 "disk" nfs monitor) "disk" nfs history)
        "disk"
      ≡ some s)
    × (s.consecutive_failures ≡ failures_since (statuses history))
    × (s.status ≡ verdict (threshold_for monitor nfs) (statuses history))
run-verdict_example = run-verdict monitor 7 "disk" nfs history (omega arith)

-- The third failure makes an NFS origin unhealthy.
third_failure : verdict (threshold_for monitor nfs) (statuses history) ≡ unhealthy
unfolding program
third_failure = refl

second_failure : verdict (threshold_for monitor nfs) (statuses (late ∷ late ∷ good ∷ [])) ≡ degraded
unfolding program
second_failure = refl

snapshot-get_state_example :
    (is_healthy (snapshot monitor) "cloud" ≡ was_healthy (get_state monitor "cloud"))
    × (is_degraded (snapshot monitor) "cloud" ≡ was_degraded (get_state monitor "cloud"))
    × (is_unhealthy (snapshot monitor) "cloud" ≡ was_unhealthy (get_state monitor "cloud"))
    × (failure_count (snapshot monitor) "cloud" ≡ failures_of (get_state monitor "cloud"))
unfolding program
snapshot-get_state_example = snapshot-get_state monitor "cloud" (refl, tt)
