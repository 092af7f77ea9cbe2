-- ===== src/Origins/Health/Snapshot.antt =====
-- The snapshot sorts the origins by their states.
use music_fs.Base.{
  ℕ, ◌≡◌, refl, Bool, true, false, ◌||◌, ◌&&◌, Option, none, some, List, [], ◌∷◌, ◌++◌,
  if◌then◌else◌, same, same_iff, string_eq, arith,
}
use music_fs.Base.Dict.{lookup, lookup-insert, Unique}
use music_fs.Core.Types.{OriginId, degraded, unhealthy, unknown}
use music_fs.Origins.Health.{
  HealthMonitor, HealthSnapshot, OriginHealthState, contains, tally, collect, snapshot,
  empty_snapshot, is_healthy, is_degraded, is_unhealthy, failure_count, get_state, was_healthy,
}

contains-append :
    (xs : List OriginId) (y id : OriginId)
    → contains (xs ++ (y ∷ [])) id ≡ (contains xs id || same y id)
unfolding contains
contains-append [] y id = ground arith
contains-append (x ∷ xs) y id = ground (arith, contains-append xs y id)

-- An origin counts as degraded if it is, or if it was never checked.
abbrev pub was_degraded : Option OriginHealthState → Bool
was_degraded none = false
was_degraded (some s) = elim s.status [ degraded ↦ true | unknown ↦ true | _ ↦ false ]

abbrev pub was_unhealthy : Option OriginHealthState → Bool
was_unhealthy none = false
was_unhealthy (some s) = elim s.status [ unhealthy ↦ true | _ ↦ false ]

healthy-tally :
    (j : OriginId) (t : OriginHealthState) (s : HealthSnapshot) (id : OriginId)
    → is_healthy (tally j t s) id ≡ (is_healthy s id || (same j id && was_healthy (some t)))
unfolding tally is_healthy
healthy-tally j t s id = ground (arith, contains-append s.healthy_ids j id)

healthy-collect :
    (es : List (OriginId × OriginHealthState)) (s : HealthSnapshot) (id : OriginId)
    → Unique es
    → is_healthy (collect es s) id ≡ (is_healthy s id || was_healthy (lookup id es))
unfolding collect lookup
healthy-collect [] s id u = ground arith
healthy-collect ((j, t) ∷ es) s id u =
    ground (arith, healthy-tally j t s id, healthy-collect es (tally j t s) id, same_iff j id)

degraded-tally :
    (j : OriginId) (t : OriginHealthState) (s : HealthSnapshot) (id : OriginId)
    → is_degraded (tally j t s) id ≡ (is_degraded s id || (same j id && was_degraded (some t)))
unfolding tally is_degraded
degraded-tally j t s id = ground (arith, contains-append s.degraded_ids j id)

degraded-collect :
    (es : List (OriginId × OriginHealthState)) (s : HealthSnapshot) (id : OriginId)
    → Unique es
    → is_degraded (collect es s) id ≡ (is_degraded s id || was_degraded (lookup id es))
unfolding collect lookup
degraded-collect [] s id u = ground arith
degraded-collect ((j, t) ∷ es) s id u =
    ground (arith, degraded-tally j t s id, degraded-collect es (tally j t s) id, same_iff j id)

unhealthy-tally :
    (j : OriginId) (t : OriginHealthState) (s : HealthSnapshot) (id : OriginId)
    → is_unhealthy (tally j t s) id ≡ (is_unhealthy s id || (same j id && was_unhealthy (some t)))
unfolding tally is_unhealthy
unhealthy-tally j t s id = ground (arith, contains-append s.unhealthy_ids j id)

unhealthy-collect :
    (es : List (OriginId × OriginHealthState)) (s : HealthSnapshot) (id : OriginId)
    → Unique es
    → is_unhealthy (collect es s) id ≡ (is_unhealthy s id || was_unhealthy (lookup id es))
unfolding collect lookup
unhealthy-collect [] s id u = ground arith
unhealthy-collect ((j, t) ∷ es) s id u =
    ground (arith, unhealthy-tally j t s id, unhealthy-collect es (tally j t s) id, same_iff j id)

failures-tally :
    (j : OriginId) (t : OriginHealthState) (s : HealthSnapshot) (id : OriginId)
    → failure_count (tally j t s) id
      ≡ (if same j id then some t.consecutive_failures else failure_count s id)
unfolding tally failure_count
failures-tally j t s id = ground (arith, lookup-insert id j t.consecutive_failures s.failure_counts)

abbrev pub failures_of : Option OriginHealthState → Option ℕ
failures_of none = none
failures_of (some s) = some s.consecutive_failures

failures-collect :
    (es : List (OriginId × OriginHealthState)) (s : HealthSnapshot) (id : OriginId)
    → Unique es
    → failure_count (collect es s) id
      ≡ elim (lookup id es) [ none ↦ failure_count s id | some t ↦ some t.consecutive_failures ]
unfolding collect lookup
failures-collect [] s id u = refl
failures-collect ((j, t) ∷ es) s id u =
    ground (arith, failures-tally j t s id, failures-collect es (tally j t s) id, same_iff j id)

-- If no origin stands twice in the state, each origin stands in the list of the snapshot that fits
-- its state and in no other, and its failures are those of its state; what is not an origin stands
-- nowhere.
pub snapshot-get_state :
    (m : HealthMonitor) (id : OriginId)
    → Unique m.state
    → (is_healthy (snapshot m) id ≡ was_healthy (get_state m id))
      × (is_degraded (snapshot m) id ≡ was_degraded (get_state m id))
      × (is_unhealthy (snapshot m) id ≡ was_unhealthy (get_state m id))
      × (failure_count (snapshot m) id ≡ failures_of (get_state m id))
unfolding snapshot get_state contains is_healthy is_degraded is_unhealthy failure_count lookup
snapshot-get_state m id u = (
  healthy-collect m.state empty_snapshot id u,
  degraded-collect m.state empty_snapshot id u,
  unhealthy-collect m.state empty_snapshot id u,
  ground (arith, failures-collect m.state empty_snapshot id u),
)
