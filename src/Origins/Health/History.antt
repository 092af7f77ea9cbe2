-- ===== src/Origins/Health/History.antt =====
-- The state of an origin against the history of its checks.
use music_fs.Base.{
  ℕ, suc, ◌<◌, ◌≤◌, ◌≡◌, ◌≢◌, refl, ◌&&◌, Option, some, List, [], ◌∷◌, length, if◌then◌else◌, leb,
  same_iff, string_eq, arith, map, ◌∙◌, ap,
}
use music_fs.Base.Dict.{lookup, insert, lookup-insert}
use music_fs.Base.Words.{u32_mod}
use music_fs.Core.Types.{OriginId, HealthStatus, healthy, degraded, unhealthy, unknown, OriginType}
use music_fs.Core.Events.{origin_health_changed}
use music_fs.Origins.Health.{
  after_check, HealthMonitor, OriginHealthState, Answer, answered, transition, check_one,
  add_origin, get_state, threshold_for, was_healthy, differ, default_state,
}

-- The failures since the last healthy answer. The history has its last answer first.
abbrev pub failures_since : List HealthStatus → ℕ
failures_since [] = 0
failures_since (healthy ∷ older) = 0
failures_since (degraded ∷ older) = failures_since older
failures_since (unhealthy ∷ older) = suc (failures_since older)
failures_since (unknown ∷ older) = failures_since older

-- What the monitor ought to say of an origin after a history.
abbrev pub verdict : ℕ → List HealthStatus → HealthStatus
verdict threshold [] = unknown
verdict threshold (unhealthy ∷ older) =
    if leb threshold (suc (failures_since older)) then unhealthy else degraded
verdict threshold (status ∷ older) = status

failures_since-le : (history : List HealthStatus) → failures_since history ≤ length history
failures_since-le [] = omega arith
failures_since-le (healthy ∷ older) = omega arith
failures_since-le (degraded ∷ older) = omega (arith, failures_since-le older)
failures_since-le (unhealthy ∷ older) = omega (arith, failures_since-le older)
failures_since-le (unknown ∷ older) = omega (arith, failures_since-le older)

transition-verdict :
    (threshold : ℕ) (status : HealthStatus) (older : List HealthStatus) (s : OriginHealthState)
    → suc (failures_since older) < u32_mod
    → s.consecutive_failures ≡ failures_since older
    → ((transition threshold status s).consecutive_failures ≡ failures_since (status ∷ older))
      × ((transition threshold status s).status ≡ verdict threshold (status ∷ older))
unfolding transition
transition-verdict threshold healthy older s small e = ground arith
transition-verdict threshold unhealthy older s small e = ground arith
transition-verdict threshold _ older s small e = ground arith

-- One check after another, the last first.
abbrev pub run : HealthMonitor → OriginId → OriginType → List Answer → HealthMonitor
run m id type [] = m
run m id type (a ∷ older) = check_one (run m id type older) id type a

abbrev pub statuses : List Answer → List HealthStatus
statuses = map (λ (a : Answer). answered a.status)

-- What a check changes: the entry of its origin, and perhaps the events.
state-check_one :
    (m : HealthMonitor) (id : OriginId) (type : OriginType) (a : Answer)
    → (check_one m id type a).state
      ≡ insert id (after_check (threshold_for m type) a (lookup id m.state)) m.state
unfolding check_one
state-check_one m id type a = ground arith

get_state-check_one :
    (m : HealthMonitor) (id : OriginId) (type : OriginType) (a : Answer)
    → get_state (check_one m id type a) id
      ≡ some (after_check (threshold_for m type) a (get_state m id))
unfolding get_state
get_state-check_one m id type a =
    rw (state-check_one m id type a) (rw lookup-insert (rw (same_iff id id).1 refl))

threshold_for-check_one :
    (m : HealthMonitor) (id : OriginId) (type other : OriginType) (a : Answer)
    → threshold_for (check_one m id type a) other ≡ threshold_for m other
unfolding check_one threshold_for
threshold_for-check_one m id type other a = ground arith

-- A check of one origin leaves the state of the others.
pub get_state-check_one_ne :
    (m : HealthMonitor) (id other : OriginId) (type : OriginType) (a : Answer)
    → id ≢ other
    → get_state (check_one m id type a) other ≡ get_state m other
unfolding get_state
get_state-check_one_ne m id other type a ne = rw (state-check_one m id type a) (
    ground (
      arith,
      same_iff id other,
      lookup-insert other id (after_check (threshold_for m type) a (lookup id m.state)) m.state,
    ))

-- A check publishes an event exactly when the origin turns healthy or ceases to be, and there is a
-- bus; the event tells which.
pub events-check_one :
    (m : HealthMonitor) (id : OriginId) (type : OriginType) (a : Answer)
    → (check_one m id type a).events ≡ (
        if differ
            (was_healthy (get_state m id))
            (was_healthy (get_state (check_one m id type a) id))
          && m.has_event_bus
        then origin_health_changed id (was_healthy (get_state (check_one m id type a) id))
          ∷ m.events
        else m.events)
events-check_one m id type a =
    rw (get_state-check_one m id type a) (unfold check_one get_state in ground arith)

threshold_for-run :
    (m : HealthMonitor) (id : OriginId) (type : OriginType) (history : List Answer)
    → threshold_for (run m id type history) type ≡ threshold_for m type
threshold_for-run m id type [] = refl
threshold_for-run m id type (a ∷ older) =
    threshold_for-check_one (run m id type older) id type type a ∙ threshold_for-run m id type older

get_state-add_origin :
    (m : HealthMonitor) (now : ℕ) (id : OriginId) (type : OriginType)
    → get_state (add_origin now id type m) id ≡ some (default_state now)
unfolding get_state add_origin
get_state-add_origin m now id type = rw lookup-insert (rw (same_iff id id).1 refl)

threshold_for-add_origin :
    (m : HealthMonitor) (now : ℕ) (id : OriginId) (type : OriginType)
    → threshold_for (add_origin now id type m) type ≡ threshold_for m type
unfolding threshold_for add_origin
threshold_for-add_origin m now id type = refl

after_check-verdict :
    (threshold : ℕ) (a : Answer) (older : List HealthStatus) (s : OriginHealthState)
    → suc (failures_since older) < u32_mod
    → s.consecutive_failures ≡ failures_since older
    → ((after_check threshold a (some s)).consecutive_failures
        ≡ failures_since (answered a.status ∷ older))
      × ((after_check threshold a (some s)).status ≡ verdict threshold (answered a.status ∷ older))
unfolding after_check
after_check-verdict threshold a older s small e =
    transition-verdict threshold (answered a.status) older s small e

length-statuses : (history : List Answer) → length (statuses history) ≡ length history
length-statuses [] = refl
length-statuses (a ∷ older) = ap suc (length-statuses older)

-- From a new origin on, after any history of fewer than 2^32 checks, the failure count is the
-- number of failures since the last healthy answer, and the status is the last answer's, but
-- unhealthy only if the failures reach the threshold of the origin's type, and degraded until then.
pub run-verdict :
    (m : HealthMonitor) (now : ℕ) (id : OriginId) (type : OriginType) (history : List Answer)
    → length history < u32_mod
    → (s : OriginHealthState) × (get_state (run (add_origin now id type m) id type history) id
        ≡ some s)
      × (s.consecutive_failures ≡ failures_since (statuses history))
      × (s.status ≡ verdict (threshold_for m type) (statuses history))
run-verdict m now id type [] small =
    (default_state now, get_state-add_origin m now id type, refl, refl)
run-verdict m now id type (a ∷ older) small =
    let m' = run (add_origin now id type m) id type older in
    let (s, found, count, status) = run-verdict m now id type older (omega arith) in
    let few : suc (failures_since (statuses older)) < u32_mod =
      omega (arith, failures_since-le (statuses older), length-statuses older) in
    let (count', status') =
      after_check-verdict (threshold_for m' type) a (statuses older) s few count in
    let kept : threshold_for m' type ≡ threshold_for m type =
      threshold_for-run (add_origin now id type m) id type older
      ∙ threshold_for-add_origin m now id type in
    (
      after_check (threshold_for m' type) a (some s),
      get_state-check_one m' id type a
          ∙ ap (λ (o : Option OriginHealthState). some (after_check (threshold_for m' type) a o))
              found,
      count',
      status' ∙ ap (λ (t : ℕ). verdict t (answered a.status ∷ statuses older)) kept,
    )
